-- ===== src/State/Shown.antt =====
-- The tree as a view of the local node and of the table.
use mathlib.Core.Path.{subst}
use nameq.Base.{
  In, In-append, In-append_left, In-append_right, ◌≡◌, ◌≢◌, ap, sym, ◌∙◌, inl, inr, Option, none,
  some, List, arith, Option-cases, ite, false,
}
use nameq.Base.Text.{Text, Bytes, Text-discrete}
use nameq.Base.Map.{lookup, IsMap}
use nameq.Base.Run.{returns}
use nameq.Node.{Raw, Node, LocalNode, RemoteNode, RemoteNodes}
use nameq.Node.Remotes.{nodes, remote_at}
use nameq.Node.Remotes.Laws.{IsKeyed}
use nameq.Node.Remotes.Merge.{node_at}
use nameq.Codec.{Codec}
use nameq.State.{Tree, Disk, loopback_ip_addr, render, path_of, state_round}
use nameq.State.Writes.{Succeeds}
use nameq.State.Exact.{state_round-exact}
use nameq.State.Entries.{
  Entry, NoneTwice, features_entries, all_entries, IsSeparate, render_all-returns, desired-entries,
}
use nameq.State.Rendered.{lookup-render_all_from, render_all-IsMap, lookup-render_all}
use nameq.State.Known.{
  lookup-In, In-lookup, features-In, In-features, features-NoneTwice, NoneTwice-append, nodes-In,
  In-nodes, nodes-NoneTwice, entry, nodes_in, AllOrderly,
}

-- What the service knows of a feature of a host: its own features are those of the loopback address.
abbrev pub feature_of : Text → Option Node → Option Raw
feature_of feature none = none
feature_of feature (some node) = lookup feature node.features

abbrev pub known : LocalNode → RemoteNodes → Text → Text → Option Raw
known local remotes feature host =
    ite (Text-discrete loopback_ip_addr host) (lookup feature local.node.features)
      (feature_of feature (node_at remotes host))

-- The maps list no key twice, and the table has each node under its own address, and none under the
-- loopback address.
pub record IsOrderly (local : LocalNode) (remotes : RemoteNodes) : Type 0 where
  pub local_features : IsMap local.node.features
  pub keyed : IsKeyed remotes
  pub no_loopback : remote_at loopback_ip_addr remotes ≡ none
  pub remote_features :
      (k : Text) (r : RemoteNode) → remote_at k remotes ≡ some r → IsMap r.node.features

-- No two known features of hosts share a path.
abbrev pub IsApart : LocalNode → RemoteNodes → Disk → Text → Type 0
IsApart local remotes disk dir =
    (f k f' k' : Text) (v v' : Raw)
    → known local remotes f k ≡ some v
    → known local remotes f' k' ≡ some v'
    → path_of disk dir f k ≡ path_of disk dir f' k'
    → (f ≡ f') × (k ≡ k')

-- Every known value can be rendered.
abbrev pub IsRendered : Codec → LocalNode → RemoteNodes → Type 0
IsRendered codec local remotes =
    (f k : Text) (v : Raw)
    → known local remotes f k ≡ some v
    → (c : Bytes) × (render codec v ≡ returns c)

module _ (local : LocalNode) (remotes : RemoteNodes) (o : IsOrderly local remotes) where
  abbrev es : List Entry
  es = all_entries local remotes

  orderly : AllOrderly remotes.ip_addrs
  orderly k r i =
      let e = In-lookup k r remotes.ip_addrs o.keyed.is_map i in
      (o.keyed.keyed k r e, o.remote_features k r e)

  -- The host of an entry of the table is not the loopback address.
  remote_host :
      (e : Entry)
      → In e (nodes_in remotes.ip_addrs)
      → (loopback_ip_addr ≢ e.host) × (feature_of e.feature (node_at remotes e.host) ≡ some e.value)
  remote_host e i =
      let (k, r, j, l) = nodes-In remotes.ip_addrs e i in
      let (host, n) = features-In r.node.ip_addr r.node.features e l in
      let (own, maps) = orderly k r j in
      let there = In-lookup k r remotes.ip_addrs o.keyed.is_map j in
      let at : remote_at e.host remotes ≡ some r =
        ap (λ (z : Text). remote_at z remotes) (host ∙ own) ∙ there in
      let value = In-lookup e.feature e.value r.node.features maps n in
      (
        λ p. cc (ap (λ (z : Text). remote_at z remotes) p ∙ at, o.no_loopback),
        ground (arith, at, value),
      )

  pub all_entries-NoneTwice : NoneTwice es
  unfolding nodes
  all_entries-NoneTwice =
      NoneTwice-append (features_entries loopback_ip_addr local.node.features)
        (nodes_in remotes.ip_addrs)
        (features-NoneTwice loopback_ip_addr local.node.features o.local_features)
        (nodes-NoneTwice remotes.ip_addrs o.keyed.is_map orderly)
        (λ x y i j p.
          let (host, _) = features-In loopback_ip_addr local.node.features x i in
          (remote_host y j).0 (sym host ∙ p))

  -- The entries are what is known.
  In-known : (e : Entry) → In e es → known local remotes e.feature e.host ≡ some e.value
  unfolding nodes
  In-known e i =
      elim (In-append e (features_entries loopback_ip_addr local.node.features)
        (nodes_in remotes.ip_addrs) i) [
          | inl j ↦
              let (host, n) = features-In loopback_ip_addr local.node.features e j in
              let value = In-lookup e.feature e.value local.node.features o.local_features n in
              ground (arith, host, value)
          | inr j ↦ let (ne, value) = remote_host e j in ground (arith, ne, value)
        ]

  known-In : (f k : Text) (v : Raw) → known local remotes f k ≡ some v → In (entry k f v) es
  unfolding nodes
  known-In f k v h = elim (Text-discrete loopback_ip_addr k) [
    | yes p ↦
        let value : lookup f local.node.features ≡ some v = ground arith in
        In-append_left (entry k f v) (features_entries loopback_ip_addr local.node.features)
          (nodes_in remotes.ip_addrs)
          (subst
            (λ (z : Text). In (entry z f v) (features_entries loopback_ip_addr local.node.features))
            p
            (In-features loopback_ip_addr local.node.features f v
              (lookup-In f v local.node.features value)))
    | no p ↦ elim (Option-cases (remote_at k remotes)) [
      | inl e ↦ absurd (ground arith)
      | inr (r, e) ↦
          let value : lookup f r.node.features ≡ some v = ground arith in
          In-append_right (entry k f v) (features_entries loopback_ip_addr local.node.features)
            (nodes_in remotes.ip_addrs)
            (In-nodes remotes.ip_addrs (entry k f v) k r (lookup-In k r remotes.ip_addrs e) (
              subst
                (λ (z : Text). In (entry z f v) (features_entries r.node.ip_addr r.node.features))
                (o.keyed.keyed k r e)
                (In-features r.node.ip_addr r.node.features f v
                  (lookup-In f v r.node.features value))))
    ]
  ]

  module _ (codec : Codec) (disk : Disk) (dir : Text) (t : Tree) where
    -- Where no call fails, a round returns, and the tree then shows what is known: each known feature
    -- of a host has its file with the rendered value, and there is no other file. This holds where the
    -- values can be rendered, no two of the files share a path, the maps list no key twice, and the
    -- table has each node under its own address and none under the loopback address.
    pub state_round-shows :
        IsApart local remotes disk dir
        → IsRendered codec local remotes
        → ((path : Text) → Succeeds (disk.calls path))
        → ((path : Text) → (disk.walk path ≡ false) × ((disk.calls path).remove ≡ false))
        → (t' : Tree) × (state_round codec disk dir local remotes t ≡ returns t')
          × ((f k : Text) (v : Raw)
              → known local remotes f k ≡ some v
              → (c : Bytes) × (render codec v ≡ returns c)
                × (lookup (path_of disk dir f k) t'.files ≡ some c))
          × ((p : Text) (c : Bytes)
              → lookup p t'.files ≡ some c
              → (f : Text) × (k : Text) × (v : Raw) × (known local remotes f k ≡ some v)
                × (path_of disk dir f k ≡ p)
                × (render codec v ≡ returns c))
    state_round-shows apart rendered succeeds removes =
        let separate : IsSeparate codec disk dir es = λ x y i j p.
          apart x.feature x.host y.feature y.host x.value y.value (In-known x i) (In-known y j) p in
        let (d, made) =
          render_all-returns codec disk dir es
            (λ e i. rendered e.feature e.host e.value (In-known e i)) in
        let wanted = desired-entries codec disk dir local remotes ∙ made in
        let unique = render_all-IsMap codec disk dir es d all_entries-NoneTwice separate made in
        let (t', ran, same) =
          state_round-exact codec disk dir local remotes t d wanted unique succeeds removes in
        (
          t',
          ran,
          λ f k v h.
              let (c, r, l) =
                lookup-render_all codec disk dir es d (entry k f v) all_entries-NoneTwice separate
                  made (known-In f k v h) in
              (c, r, same (path_of disk dir f k) ∙ l),
          λ p c h.
              let (e, i, (path, r)) =
                lookup-render_all_from codec disk dir es d p c made (sym (same p) ∙ h) in
              (e.feature, e.host, e.value, In-known e i, path, r),
        )
