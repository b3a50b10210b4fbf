-- ===== src/Network/Trace.antt =====
-- Where the nodes of a table come from.
use mathlib.Core.Path.{subst}
use nameq.Base.{
  ◌≡◌, ◌≢◌, ◌⊎◌, inl, inr, refl, sym, ap, ◌∙◌, true, false, some, List, [], ◌++◌, In,
  In-append_right, arith, Option-cases, Bool-cases,
}
use nameq.Base.Int.{ℤ, ltb_ℤ}
use nameq.Base.Text.{Text, Bytes, Text-discrete}
use nameq.Base.Map.{IsMap, lookup}
use nameq.Node.{Node, Net, RemoteNode, RemoteNodes}
use nameq.Node.Remotes.{remote_at, expire, update}
use nameq.Node.Remotes.Laws.{IsKeyed, remote_at-update, update-IsKeyed}
use nameq.Node.Remotes.Expiry.{remote_at-expire, expire-IsKeyed}
use nameq.Codec.{Codec, SameFeatures}
use nameq.State.{loopback_ip_addr}
use nameq.Network.{Publication}
use nameq.Network.Made.{encoded_node}

-- The loopback address is not taken for a global unicast one, however it is written.
pub record RefusesLoopback (net : Net) : Type 0 where
  pub itself :
      (ip : Bytes) → net.parse_ip loopback_ip_addr ≡ some ip → net.is_global_unicast ip ≡ false
  pub equal :
      (ip b : Bytes)
      → net.parse_ip loopback_ip_addr ≡ some ip
      → net.ip_equal ip b ≡ true
      → net.is_global_unicast b ≡ false

-- The node has the address and the time of what was published, and its features up to white space in
-- the values.
pub record Tells (codec : Codec) (p : Publication) (n : Node) : Type 0 where
  pub ip_addr : n.ip_addr ≡ p.local.ip_addr
  pub time_ns : n.time_ns ≡ p.time
  pub features : SameFeatures codec p.local.node.features n.features

-- What has been published can be encoded faithfully.
abbrev pub IsFit : Codec → Publication → Type 0
IsFit codec p = codec.is_encodable (encoded_node p.form p.local p.time) ≡ true

-- A node of a table under the address `k`: it has that address, which is not the loopback address,
-- and it tells what a host has published.
pub record Trace (codec : Codec) (sent : List Publication) (k : Text) (n : Node) : Type 0 where
  pub keyed : n.ip_addr ≡ k
  pub is_map : IsMap n.features
  pub not_loopback : loopback_ip_addr ≢ k
  pub source : Publication
  pub was_sent : In source sent
  pub tells : IsFit codec source → Tells codec source n

abbrev pub Traced : Codec → List Publication → RemoteNodes → Type 0
Traced codec sent remotes =
    IsKeyed remotes
    × ((k : Text) (r : RemoteNode) → remote_at k remotes ≡ some r → Trace codec sent k r.node)

-- What stands under an address after an update: the new node, or what stood there.
remote_at-update_cases :
    (net : Net) (n : Node) (remotes : RemoteNodes) (k : Text) (e : RemoteNode)
    → remote_at k (update net n remotes).0 ≡ some e
    → ((n.ip_addr ≡ k) × (n ≡ e.node))
      ⊎ ((old : RemoteNode) × (remote_at k remotes ≡ some old) × (old.node ≡ e.node))
remote_at-update_cases net n remotes k e h = elim (Text-discrete n.ip_addr k) [
  | no p ↦ inr (e, ground (arith, remote_at-update net n remotes k), refl)
  | yes p ↦ elim (Option-cases (remote_at n.ip_addr remotes)) [
    | inl f ↦ inl (p, ground (arith, remote_at-update net n remotes k))
    | inr (old, f) ↦ elim (Bool-cases (ltb_ℤ old.node.time_ns n.time_ns)) [
      | inl later ↦ inl (p, ground (arith, remote_at-update net n remotes k))
      | inr earlier ↦ inr (
        old,
        ap (λ (z : Text). remote_at z remotes) (sym p) ∙ f,
        ground (arith, remote_at-update net n remotes k),
      )
    ]
  ]
]

module _ (codec : Codec) (sent : List Publication) where
  pub update-Traced :
      (net : Net) (n : Node) (remotes : RemoteNodes)
      → Trace codec sent n.ip_addr n
      → Traced codec sent remotes
      → Traced codec sent (update net n remotes).0
  update-Traced net n remotes t (keyed, each) = (
    update-IsKeyed net n remotes keyed,
    λ k x h. elim (remote_at-update_cases net n remotes k x h) [
      | inl (p, q) ↦
          subst (λ (m : Node). Trace codec sent k m) q
            (subst (λ (z : Text). Trace codec sent z n) p t)
      | inr (old, f, q) ↦ subst (λ (m : Node). Trace codec sent k m) q (each k old f)
    ],
  )

  pub expire-Traced :
      (threshold : ℤ) (remotes : RemoteNodes)
      → Traced codec sent remotes
      → Traced codec sent (expire threshold remotes)
  expire-Traced threshold remotes (keyed, each) = (
    expire-IsKeyed threshold remotes keyed,
    λ k r h. each k r (ground (arith, remote_at-expire threshold remotes k keyed)),
  )

  pub empty-Traced : (remotes : RemoteNodes) → remotes.ip_addrs ≡ [] → Traced codec sent remotes
  unfolding lookup
  empty-Traced remotes h = (
    record { is_map = rw h tt; keyed = λ k r e. absurd (ground arith) },
    λ k r e. absurd (ground arith),
  )

pub append-Traced :
    (codec : Codec) (new sent : List Publication) (remotes : RemoteNodes)
    → Traced codec sent remotes
    → Traced codec (new ++ sent) remotes
append-Traced codec new sent remotes (keyed, each) = (
  keyed,
  λ k r h.
      let t = each k r h in
      record {
        keyed = t.keyed;
        is_map = t.is_map;
        not_loopback = t.not_loopback;
        source = t.source;
        was_sent = In-append_right t.source new sent t.was_sent;
        tells = t.tells;
      },
)
