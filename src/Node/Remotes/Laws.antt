-- ===== src/Node/Remotes/Laws.antt =====
-- The invariant of the table, and what one `update` does to what the table says.
use nameq.Base.{
  ◌≡◌, inl, inr, true, Option, none, some, arith, Option-cases, Bool-cases, ◌⊎◌, ite, if◌then◌else◌,
}
use nameq.Base.Int.{ltb_ℤ}
use nameq.Base.Text.{Text, Text-discrete}
use nameq.Base.Map.{IsMap, lookup-insert, insert-IsMap}
use nameq.Node.{Node, Net, RemoteNode, RemoteNodes, resolve_addr}
use nameq.Node.Remotes.{update, updatable, remote_at}

-- Every node stands under its own address, and no address is listed twice.
pub record IsKeyed (remotes : RemoteNodes) : Type 0 where
  pub is_map : IsMap remotes.ip_addrs
  pub keyed :
      (k : Text) (remote : RemoteNode) → remote_at k remotes ≡ some remote → remote.node.ip_addr ≡ k

abbrev pub node_of : Option RemoteNode → Option Node
node_of none = none
node_of (some remote) = some remote.node

-- What one address says after `update`.
abbrev pub merged : Net → RemoteNodes → Node → Option RemoteNode → RemoteNode
merged net remotes n none = record { addr = resolve_addr net n.ip_addr remotes.port; node = n }
merged net remotes n (some old) =
    if ltb_ℤ old.node.time_ns n.time_ns then record old { node = n } else old

module _ (net : Net) (n : Node) (remotes : RemoteNodes) where
  abbrev after : RemoteNode
  after = merged net remotes n (remote_at n.ip_addr remotes)

  pub remote_at-update :
      (k : Text)
      → remote_at k (update net n remotes).0
        ≡ ite
            (Text-discrete n.ip_addr k)
            (some (merged net remotes n (remote_at n.ip_addr remotes)))
            (remote_at k remotes)
  unfolding update
  remote_at-update k = elim (Option-cases (remote_at n.ip_addr remotes)) [
    | inl e ↦ ground (arith, lookup-insert n.ip_addr k after remotes.ip_addrs)
    | inr (old, e) ↦ ground (arith, lookup-insert n.ip_addr k after remotes.ip_addrs)
  ]

  update-IsMap : IsMap remotes.ip_addrs → IsMap (update net n remotes).0.ip_addrs
  unfolding update
  update-IsMap m = elim (Option-cases (remote_at n.ip_addr remotes)) [
    | inl e ↦ ground (arith, insert-IsMap n.ip_addr after remotes.ip_addrs m)
    | inr (old, e) ↦ ground (arith, insert-IsMap n.ip_addr after remotes.ip_addrs m)
  ]

  -- `update` keeps every node under its own address, and lists no address twice.
  pub update-IsKeyed : IsKeyed remotes → IsKeyed (update net n remotes).0
  update-IsKeyed h = record {
    is_map = update-IsMap h.is_map;
    keyed = λ k r e. ground (arith, remote_at-update k, h.keyed k r, h.keyed n.ip_addr r);
  }

  -- `updatable`, at a node's address and time, says whether `update` will store the node: if it does,
  -- the table then has the node, and if not, the table is left as it was.
  pub update-updatable :
      (node_of (remote_at n.ip_addr (update net n remotes).0) ≡ (
        if updatable remotes n.ip_addr n.time_ns
        then some n
        else node_of (remote_at n.ip_addr remotes)))
      × ((updatable remotes n.ip_addr n.time_ns ≡ true) ⊎ ((update net n remotes).0 ≡ remotes))
  update-updatable = (
    unfold updatable in ground (arith, remote_at-update n.ip_addr),
    elim (Bool-cases (updatable remotes n.ip_addr n.time_ns)) [
      | inl e ↦ inl e
      | inr e ↦ inr (unfold update updatable in ground arith)
    ],
  )
