-- ===== src/Io/Transmit/Delivery.antt =====
-- A transmission sends the packet to each of its targets once, in any order; a nil target ends the
-- program.
use mathlib.Core.Path.{subst}
use mathlib.Core.List.{
  Mem, Perm, mem-cons, not-mem-nil, mem-cons_self, mem-cons_of_mem, mem-map_of_mem,
  exists_of_mem-map,
}
use native.Mathlib.Bridge.{le_prop}
use mathlib.Core.List.Perm
use mathlib.Core.Logic.{∥∥₁_elim}
use mathlib.Core.Logic.Or
use nameq.Base.{
  ℕ, zero, suc, ◌<◌, ◌≡◌, refl, ap, ◌∙◌, Option, none, some, List, [], ◌∷◌, map, length, get_elem?,
  get_or, arith, Option-cases, inl, inr,
}
use nameq.Base.Int.{ℤ}
use nameq.Base.Text.{Bytes}
use nameq.Base.Run.{Run, returns, panics}
use nameq.Node.{Addr, LocalNode}
use nameq.Codec.{Codec}
use nameq.Packet.{marshal_packet}
use nameq.Io.Transmit.{Sent, send_each, transmit, pointers}

-- 0, …, n - 1
abbrev pub range : ℕ → List ℕ
range zero = []
range (suc n) = 0 ∷ map suc (range n)

abbrev nobody : Addr
nobody = record { ref = 0; ip = []; port = 0 }

abbrev to_target : Bytes → List Addr → ℕ → Sent
to_target packet xs i = (packet, get_or xs i nobody)

get_elem?-pointers :
    (xs : List Addr) (i : ℕ)
    → i < length xs
    → get_elem? (pointers xs) i ≡ some (some (get_or xs i nobody))
get_elem?-pointers [] i h = absurd (omega arith)
get_elem?-pointers (x ∷ xs) zero h = refl
get_elem?-pointers (x ∷ xs) (suc i) h = get_elem?-pointers xs i (omega arith)

send_each-pointers :
    (packet : Bytes) (xs : List Addr) (order : List ℕ)
    → ((i : ℕ) → Mem i order → i < length xs)
    → send_each packet (pointers xs) order ≡ returns (map (to_target packet xs) order)
unfolding send_each
send_each-pointers packet xs [] h = refl
send_each-pointers packet xs (i ∷ order) h = ground (
  arith,
  get_elem?-pointers xs i (h i mem-cons_self),
  send_each-pointers packet xs order (λ j m. h j (mem-cons_of_mem i m)),
)

map-suc {ℓ} : {A : Type ℓ} (f : ℕ → A) (l : List ℕ) → map f (map suc l) ≡ map (λ i. f (suc i)) l
map-suc f [] = refl
map-suc f (i ∷ l) = ap (◌∷◌ (f (suc i))) (map-suc f l)

to_target-range :
    (packet : Bytes) (xs : List Addr)
    → map (to_target packet xs) (range (length xs)) ≡ map (λ a. (packet, a)) xs
to_target-range packet [] = refl
to_target-range packet (x ∷ xs) =
    ap (◌∷◌ (packet, x))
      (map-suc (to_target packet (x ∷ xs)) (range (length xs)) ∙ to_target-range packet xs)

suc_of-lt : {i j n : ℕ} → j < n → suc j ≡ i → i < suc n
suc_of-lt h e = omega arith

lt_of-mem-range : (n i : ℕ) → Mem i (range n) → i < n
lt_of-mem-range zero i m = absurd (not-mem-nil m)
lt_of-mem-range (suc n) i m =
    Or.elim le_prop (mem-cons.0 m) (λ e. omega arith)
      λ m'.
        ∥∥₁_elim (exists_of_mem-map m') le_prop λ (j, mj, e). suc_of-lt (lt_of-mem-range n j mj) e

mem-range : (n i : ℕ) → i < n → Mem i (range n)
mem-range zero i h = absurd (omega arith)
mem-range (suc n) zero h = mem-cons_self
mem-range (suc n) (suc i) h = mem-cons_of_mem 0 (mem-map_of_mem suc (mem-range n i (omega arith)))

transmit-made :
    (codec : Codec) (local : LocalNode) (now : ℤ) (targets : List (Option Addr)) (order : List ℕ)
    (packet : Bytes)
    → marshal_packet codec local now ≡ some packet
    → transmit codec local now targets order ≡ send_each packet targets order
unfolding transmit
transmit-made codec local now targets order packet made = ground arith

-- A transmission to addresses none of which is nil returns, whatever order `rand.Perm` gives, and
-- has sent the packet to each of them as often as it is listed.
pub transmit-perm :
    (codec : Codec) (local : LocalNode) (now : ℤ) (xs : List Addr) (order : List ℕ) (packet : Bytes)
    → marshal_packet codec local now ≡ some packet
    → Perm order (range (length xs))
    → (sent : List Sent) × (transmit codec local now (pointers xs) order ≡ returns sent)
      × Perm sent (map (λ a. (packet, a)) xs)
transmit-perm codec local now xs order packet made p = (
  map (to_target packet xs) order,
  transmit-made codec local now (pointers xs) order packet made
      ∙ (send_each-pointers packet xs order
          (λ i m. lt_of-mem-range (length xs) i ((Perm.mem_iff p).0 m))),
  subst (λ (l : List Sent). Perm (map (to_target packet xs) order) l) (to_target-range packet xs)
      (Perm.map (to_target packet xs) p),
)

lt_of-get_elem? {ℓ} :
    {A : Type ℓ} (xs : List A) (i : ℕ) (x : A) → get_elem? xs i ≡ some x → i < length xs
lt_of-get_elem? [] i x h = cc
lt_of-get_elem? (y ∷ xs) zero x h = omega arith
lt_of-get_elem? (y ∷ xs) (suc i) x h = omega (arith, lt_of-get_elem? xs i x h)

Run-set : IsSet (Run (List Sent))
Run-set = hlevel

send_each-nil :
    (packet : Bytes) (targets : List (Option Addr)) (order : List ℕ) (i : ℕ)
    → get_elem? targets i ≡ some none
    → Mem i order
    → send_each packet targets order ≡ panics
unfolding send_each
send_each-nil packet targets [] i h m = absurd (not-mem-nil m)
send_each-nil packet targets (j ∷ order) i h m =
    Or.elim (Run-set _ _) (mem-cons.0 m) (λ e. ground arith)
      (λ m'. ground (arith, send_each-nil packet targets order i h m'))

-- A nil pointer among the targets ends the program in a panic, whatever order `rand.Perm` gives.
pub transmit-nil :
    (codec : Codec) (local : LocalNode) (now : ℤ) (targets : List (Option Addr)) (order : List ℕ)
    (i : ℕ)
    → get_elem? targets i ≡ some none
    → Perm order (range (length targets))
    → transmit codec local now targets order ≡ panics
transmit-nil codec local now targets order i h p =
    elim (Option-cases (marshal_packet codec local now)) [
      | inl e ↦ unfold transmit in ground arith
      | inr (packet, e) ↦
          transmit-made codec local now targets order packet e
          ∙ send_each-nil packet targets order i h
              ((Perm.mem_iff p).1 (mem-range (length targets) i (lt_of-get_elem? targets i none h)))
    ]
