-- ===== src/Samples/Net.antt =====
-- A package net in which every text that is not empty is an address, and hosts with colons do not
-- resolve.
use nameq.Base.{
  ap, sym, ◌∙◌, ℕ, ◌+◌, ◌≤◌, ◌≡◌, refl, ◌==◌, not, Bool, true, false, Option, none, some, [], ◌∷◌,
  ◌++◌, arith, if◌then◌else◌,
}
use nameq.Base.Text.{Text, Bytes, codes, Text-discrete, decimal}
use nameq.Node.{Addr, Net}
use nameq.State.{loopback_ip_addr}
use nameq.Network.Trace.{RefusesLoopback}
use nameq.Io.Transmit.Nil.{has_colon, NeedsBrackets}

colons : Text → ℕ
colons [] = 0
colons (c ∷ rest) = (if c == 0x3a then 1 else 0) + colons rest

resolve : Text → Option Addr
unfolding colons
resolve t = if colons t == 1 then some (record { ref = 1; ip = t; port = 17106 }) else none

same_ip : Bytes → Bytes → Bool
same_ip a b = elim (Text-discrete a b) [ yes _ ↦ true | no _ ↦ false ]

parse : Text → Option Bytes
parse [] = none
parse (c ∷ rest) = some (c ∷ rest)

not_loopback : Bytes → Bool
not_loopback b = not (same_ip b (codes "127.0.0.1"))

unfoldable pub net : Net
unfolding resolve same_ip parse not_loopback
net = record {
  resolve_udp_addr = resolve;
  listen_udp = λ addr. some 3;
  parse_ip = parse;
  ip_equal = same_ip;
  is_global_unicast = not_loopback;
}

colons-append : (a b : Text) → colons (a ++ b) ≡ colons a + colons b
unfolding colons
colons-append [] b = omega arith
colons-append (c ∷ a) b = omega (arith, colons-append a b)

colons-pos : (t : Text) → has_colon t ≡ true → 1 ≤ colons t
unfolding colons
colons-pos [] h = absurd (ground arith)
colons-pos (c ∷ rest) h = ground (arith, colons-pos rest)

two_colons : (t rest : Text) → has_colon t ≡ true → resolve (t ++ (0x3a ∷ rest)) ≡ none
two_colons t rest h =
    let e : colons (0x3a ∷ rest) ≡ 1 + colons rest = (unfold colons in refl) in
    unfold resolve in ground (arith, colons-append t (0x3a ∷ rest), e, colons-pos t h)

pub net-NeedsBrackets : NeedsBrackets net
unfolding net
net-NeedsBrackets host port h = two_colons host (decimal port) (ground arith)

same_ip-eq : (a b : Bytes) → same_ip a b ≡ true → a ≡ b
unfolding same_ip
same_ip-eq a b h = elim (Text-discrete a b) [ yes p ↦ p | no p ↦ absurd (ground arith) ]

same_refl : not (same_ip loopback_ip_addr loopback_ip_addr) ≡ false
unfolding same_ip Text-discrete
same_refl = refl

refuses_loopback : (b : Bytes) → loopback_ip_addr ≡ b → not (same_ip b loopback_ip_addr) ≡ false
refuses_loopback b same =
    ap (λ (x : Bytes). not (same_ip x loopback_ip_addr)) (sym same) ∙ same_refl

pub net-RefusesLoopback : RefusesLoopback net
unfolding net
net-RefusesLoopback = record {
  itself = λ ip h. refuses_loopback ip (cc h);
  equal = λ ip b h k.
      let own : loopback_ip_addr ≡ ip = cc h in refuses_loopback b (own ∙ same_ip-eq ip b k);
}
