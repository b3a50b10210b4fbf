-- ===== src/Network/Published.antt =====
-- What a host knows comes from what hosts have published.
use nameq.Base.{ℕ, ◌≡◌, ◌≢◌, inl, inr, refl, sym, ap, ◌∙◌, some, In, arith, Option-cases}
use nameq.Base.Text.{Text, Bytes, Text-discrete}
use nameq.Base.Map.{lookup, IsMap}
use nameq.Base.Run.{returns}
use nameq.Node.{Raw, Features, Node, Net, LocalNode, RemoteNodes}
use nameq.Node.Remotes.{remote_at}
use nameq.Node.Remotes.Merge.{node_at}
use nameq.Codec.{Codec, IsLawful, SameFeatures}
use nameq.State.{loopback_ip_addr, render}
use nameq.State.Shown.{known, IsOrderly}
use nameq.Network.{Publication, Network, Reach}
use nameq.Network.Trace.{RefusesLoopback, Traced}
use nameq.Network.Sources.{node_at-Trace}
use nameq.Network.Current.{AllFit}

abbrev pub remotes_of : Network → ℕ → RemoteNodes
remotes_of s j = (s.hosts j).receiver.remotes

abbrev pub local_of : Network → ℕ → LocalNode
local_of s j = (s.hosts j).local

pub Traced-IsOrderly :
    (codec : Codec) (s : Network) (j : ℕ)
    → Traced codec s.sent (remotes_of s j)
    → IsMap (local_of s j).node.features
    → IsOrderly (local_of s j) (remotes_of s j)
Traced-IsOrderly codec s j (keyed, each) own = record {
  local_features = own;
  keyed = keyed;
  no_loopback = elim (Option-cases (remote_at loopback_ip_addr (remotes_of s j))) [
    | inl e ↦ e
    | inr (r, e) ↦ absurd ((each loopback_ip_addr r e).not_loopback refl)
  ];
  remote_features = λ k r e. (each k r e).is_map;
}

pub known-node :
    (local : LocalNode) (remotes : RemoteNodes) (f k : Text) (n : Node)
    → loopback_ip_addr ≢ k
    → node_at remotes k ≡ some n
    → known local remotes f k ≡ lookup f n.features
known-node local remotes f k n remote h = ground arith

-- The contents of a file: the rendered value of the host's own feature, under the loopback address, or
-- of one that a host of that address has published.
pub data Published (codec : Codec) (s : Network) (j : ℕ) (f k : Text) (content : Bytes)
    : Type 0 where
  of_host :
      (v : Raw)
      → loopback_ip_addr ≡ k
      → lookup f (local_of s j).node.features ≡ some v
      → render codec v ≡ returns content
      → Published codec s j f k content
  of_publication :
      (p : Publication) (v : Raw)
      → In p s.sent
      → p.local.ip_addr ≡ k
      → lookup f p.local.node.features ≡ some v
      → render codec v ≡ returns content
      → Published codec s j f k content

module _ (codec : Codec) (laws : IsLawful codec) where
  -- Values that differ in white space are rendered alike.
  pub render-compact :
      (v w : Raw) → codec.compact v ≡ codec.compact w → render codec v ≡ render codec w
  unfolding render
  render-compact v w e =
      let same : codec.indent_raw v ≡ codec.indent_raw w =
        sym (laws.indent_raw-compact v) ∙ ap codec.indent_raw e ∙ laws.indent_raw-compact w in
      ground (arith, same)

  same_value :
      (f : Text) (fs gs : Features) (v : Raw)
      → SameFeatures codec fs gs
      → lookup f gs ≡ some v
      → (w : Raw) × (lookup f fs ≡ some w) × (codec.compact v ≡ codec.compact w)
  same_value f fs gs v same h = elim (Option-cases (lookup f fs)) [
    | inl e ↦ absurd (ground (arith, same f))
    | inr (w, e) ↦ (w, e, ground (arith, same f))
  ]

  pub same_value_back :
      (f : Text) (fs gs : Features) (w : Raw)
      → SameFeatures codec fs gs
      → lookup f fs ≡ some w
      → (v : Raw) × (lookup f gs ≡ some v) × (codec.compact v ≡ codec.compact w)
  same_value_back f fs gs w same h = elim (Option-cases (lookup f gs)) [
    | inl e ↦ absurd (ground (arith, same f))
    | inr (v, e) ↦ (v, e, ground (arith, same f))
  ]

module _ (net : Net) (codec : Codec) (laws : IsLawful codec) (refuses : RefusesLoopback net) where
  pub known-Published :
      (s : Network) (j : ℕ) (f k : Text) (v : Raw) (content : Bytes)
      → Reach net codec s
      → AllFit codec s
      → known (local_of s j) (remotes_of s j) f k ≡ some v
      → render codec v ≡ returns content
      → Published codec s j f k content
  known-Published s j f k v content r fit h made = elim (Text-discrete loopback_ip_addr k) [
    | yes p ↦ of_host v p (ground arith) made
    | no p ↦ elim (Option-cases (node_at (remotes_of s j) k)) [
      | inl e ↦ absurd (ground arith)
      | inr (n, e) ↦
          let t = node_at-Trace net codec laws refuses s j k n r e in
          let told = t.tells (fit t.source t.was_sent) in
          let value : lookup f n.features ≡ some v = ground arith in
          let (w, there, same) =
            same_value codec laws f t.source.local.node.features n.features v told.features value in
          of_publication t.source w t.was_sent (sym told.ip_addr ∙ t.keyed) there
            (render-compact codec laws w v (sym same) ∙ made)
    ]
  ]
