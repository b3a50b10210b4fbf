-- ===== src/Io/Transmit/Nil.antt =====
-- A node whose address does not resolve stands in the table with a nil address.
use mathlib.Core.List.{Perm}
use nameq.Base.{
  ℕ, suc, ◌≡◌, Bool, true, false, not, ◌&&◌, ◌||◌, ◌==◌, none, some, List, [], ◌∷◌, length,
  get_elem?, arith,
}
use nameq.Base.Int.{ℤ}
use nameq.Base.Text.{Text, Text-discrete}
use nameq.Base.Run.{panics}
use nameq.Base.Map.{Map, lookup, values}
use nameq.Node.{Node, Net, LocalNode, RemoteNode, RemoteNodes, resolve_addr, host_port}
use nameq.Node.Remotes.{addrs_of, addrs, update, remote_at}
use nameq.Node.Remotes.Laws.{remote_at-update}
use nameq.Codec.{Codec}
use nameq.Io.Transmit.{transmit, targets_of}
use nameq.Io.Transmit.Delivery.{range, transmit-nil}

index_of-lookup :
    (k : Text) (m : Map RemoteNode) (remote : RemoteNode)
    → lookup k m ≡ some remote
    → (i : ℕ) × (get_elem? (addrs_of (values m)) i ≡ some remote.addr)
unfolding lookup addrs_of
index_of-lookup k [] remote h = absurd (ground arith)
index_of-lookup k ((j, v) ∷ m) remote h = elim (Text-discrete j k) [
  | yes e ↦ (0, ground arith)
  | no d ↦ let (i, e) = index_of-lookup k m remote (ground arith) in (suc i, e)
]

abbrev pub has_colon : Text → Bool
has_colon [] = false
has_colon (c ∷ rest) = c == 0x3a || has_colon rest

abbrev starts_with_bracket : Text → Bool
starts_with_bracket [] = false
starts_with_bracket (c ∷ _) = c == 0x5b

-- An IPv6 address as it is printed, with no brackets.
abbrev pub is_bare_ipv6 : Text → Bool
is_bare_ipv6 ip_addr = has_colon ip_addr && not (starts_with_bracket ip_addr)

-- What the package net says of `host:port`: a host with colons stands in brackets.
abbrev pub NeedsBrackets : Net → Type 0
NeedsBrackets net =
    (host : Text) (port : ℕ)
    → is_bare_ipv6 host ≡ true
    → net.resolve_udp_addr (host_port host port) ≡ none

module _ (net : Net) (node : Node) (remotes : RemoteNodes)
    (unknown : remote_at node.ip_addr remotes ≡ none) where
  stored_nil :
      resolve_addr net node.ip_addr remotes.port ≡ none
      → remote_at node.ip_addr (update net node remotes).0
        ≡ some (record { addr = none; node = node })
  stored_nil e = ground (arith, remote_at-update net node remotes node.ip_addr)

  nil_target :
      resolve_addr net node.ip_addr remotes.port ≡ none
      → (i : ℕ) × (get_elem? (targets_of [] (update net node remotes).0) i ≡ some none)
  unfolding targets_of addrs
  nil_target e =
      index_of-lookup node.ip_addr (update net node remotes).0.ip_addrs
        (record { addr = none; node = node }) (stored_nil e)

  -- A host whose address is IPv6 brings its peers down: once `update` has taken up a node of such an
  -- address, which was not in the table, the next transmission to the whole table panics, whatever
  -- is sent and in whatever order.
  pub transmit-ipv6 :
      NeedsBrackets net
      → is_bare_ipv6 node.ip_addr ≡ true
      → (codec : Codec) (local : LocalNode) (now : ℤ) (order : List ℕ)
      → Perm order (range (length (targets_of [] (update net node remotes).0)))
      → transmit codec local now (targets_of [] (update net node remotes).0) order ≡ panics
  transmit-ipv6 brackets ipv6 codec local now order p =
      let (i, e) = nil_target (unfold resolve_addr in brackets node.ip_addr remotes.port ipv6) in
      transmit-nil codec local now (targets_of [] (update net node remotes).0) order i e p
