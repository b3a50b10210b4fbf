-- ===== src/State/Entries.antt =====
-- The files of a round as entries: a feature, a host and a value for each.
use nameq.Base.{◌≡◌, refl, ap, sym, ◌∙◌, In, inl, inr, List, [], ◌∷◌, ◌++◌, arith}
use nameq.Base.Text.{Text, Bytes}
use nameq.Base.Map.{Map}
use nameq.Base.Run.{Run-cases, Run, returns, panics, ◌>>=◌}
use nameq.Node.{Raw, Features, Node, LocalNode, RemoteNodes}
use nameq.Node.Remotes.{nodes}
use nameq.Codec.{Codec}
use nameq.State.{Disk, loopback_ip_addr, render, path_of}
use nameq.State.Round.{desired_features, desired_nodes, desired}

pub record Entry : Type 0 where
  pub feature : Text
  pub host : Text
  pub value : Raw

abbrev pub features_entries : Text → Features → List Entry
features_entries host [] = []
features_entries host ((f, v) ∷ rest) =
    record { feature = f; host = host; value = v } ∷ features_entries host rest

abbrev pub nodes_entries : List Node → List Entry
nodes_entries [] = []
nodes_entries (n ∷ ns) = features_entries n.ip_addr n.features ++ nodes_entries ns

abbrev pub all_entries : LocalNode → RemoteNodes → List Entry
all_entries local remotes =
    features_entries loopback_ip_addr local.node.features ++ nodes_entries (nodes remotes)

-- No feature of a host is listed twice.
abbrev pub NoneTwice : List Entry → Type 0
NoneTwice [] = Unit
NoneTwice (e ∷ es) =
    ((x : Entry) → In x es → x.feature ≡ e.feature → x.host ≡ e.host → ⊥) × NoneTwice es

module _ (codec : Codec) (disk : Disk) (feature_dir : Text) where
  abbrev pub entry_path : Entry → Text
  entry_path e = path_of disk feature_dir e.feature e.host

  unfoldable pub render_all : List Entry → Run (Map Bytes)
  render_all [] = returns []
  render_all (e ∷ es) = do
    content ← render codec e.value
    more ← render_all es
    returns ((entry_path e, content) ∷ more)

  abbrev cat : Run (Map Bytes) → Run (Map Bytes) → Run (Map Bytes)
  cat a b = do x ← a; y ← b; returns (x ++ y)

  cat_nil : (r : Run (Map Bytes)) → r ≡ cat (returns []) r
  cat_nil (returns d) = refl
  cat_nil panics = refl

  abbrev put_first : Text → Run Bytes → Run (Map Bytes) → Run (Map Bytes)
  put_first path c r = do content ← c; more ← r; returns ((path, content) ∷ more)

  put_first-cat :
      (path : Text) (c : Run Bytes) (a b : Run (Map Bytes))
      → put_first path c (cat a b) ≡ cat (put_first path c a) b
  put_first-cat path panics a b = refl
  put_first-cat path (returns x) panics b = refl
  put_first-cat path (returns x) (returns d) panics = refl
  put_first-cat path (returns x) (returns d) (returns e) = refl

  render_all-append :
      (xs ys : List Entry) → render_all (xs ++ ys) ≡ cat (render_all xs) (render_all ys)
  unfolding render_all
  render_all-append [] ys = cat_nil (render_all ys)
  render_all-append (x ∷ xs) ys =
      ap (put_first (entry_path x) (render codec x.value)) (render_all-append xs ys)
      ∙ put_first-cat (entry_path x) (render codec x.value) (render_all xs) (render_all ys)

  desired_features-entries :
      (host : Text) (features : Features)
      → desired_features codec disk feature_dir host features
        ≡ render_all (features_entries host features)
  unfolding render_all desired_features
  desired_features-entries host [] = refl
  desired_features-entries host ((f, v) ∷ rest) =
      ap (put_first (path_of disk feature_dir f host) (render codec v))
        (desired_features-entries host rest)

  desired_nodes-entries :
      (ns : List Node) → desired_nodes codec disk feature_dir ns ≡ render_all (nodes_entries ns)
  unfolding render_all desired_nodes
  desired_nodes-entries [] = refl
  desired_nodes-entries (n ∷ ns) =
      ap (λ (r : Run (Map Bytes)). cat r (desired_nodes codec disk feature_dir ns))
        (desired_features-entries n.ip_addr n.features)
      ∙ ap (cat (render_all (features_entries n.ip_addr n.features))) (desired_nodes-entries ns)
      ∙ sym (render_all-append (features_entries n.ip_addr n.features) (nodes_entries ns))

  -- The files that there ought to be are those of the entries.
  pub desired-entries :
      (local : LocalNode) (remotes : RemoteNodes)
      → desired codec disk feature_dir local remotes ≡ render_all (all_entries local remotes)
  unfolding desired
  desired-entries local remotes =
      ap (λ (r : Run (Map Bytes)). cat r (desired_nodes codec disk feature_dir (nodes remotes)))
        (desired_features-entries loopback_ip_addr local.node.features)
      ∙ ap (cat (render_all (features_entries loopback_ip_addr local.node.features)))
          (desired_nodes-entries (nodes remotes))
      ∙ sym (
          render_all-append (features_entries loopback_ip_addr local.node.features)
            (nodes_entries (nodes remotes)))

  -- No two entries share a file.
  abbrev pub IsSeparate : List Entry → Type 0
  IsSeparate es =
      (x y : Entry)
      → In x es
      → In y es
      → entry_path x ≡ entry_path y
      → (x.feature ≡ y.feature) × (x.host ≡ y.host)

  -- The file of an entry.
  abbrev pub IsFile : Entry → Text → Bytes → Type 0
  IsFile e p content = (entry_path e ≡ p) × (render codec e.value ≡ returns content)

  abbrev pub AllRender : List Entry → Type 0
  AllRender es =
      (e : Entry) → In e es → (content : Bytes) × (render codec e.value ≡ returns content)

  pub render_all-returns :
      (es : List Entry) → AllRender es → (d : Map Bytes) × (render_all es ≡ returns d)
  unfolding render_all
  render_all-returns [] h = ([], refl)
  render_all-returns (e ∷ es) h =
      let (c, p) = h e (inl refl) in
      let (d, q) = render_all-returns es (λ x i. h x (inr i)) in
      (
        (entry_path e, c) ∷ d,
        ap (λ (r : Run Bytes). put_first (entry_path e) r (render_all es)) p
            ∙ ap (put_first (entry_path e) (returns c)) q,
      )

  -- What is rendered first, and the rest.
  pub render_all-cons :
      (e : Entry) (es : List Entry) (d : Map Bytes)
      → render_all (e ∷ es) ≡ returns d
      → (c : Bytes) × (more : Map Bytes) × (render codec e.value ≡ returns c)
        × (render_all es ≡ returns more)
        × ((entry_path e, c) ∷ more ≡ d)
  unfolding render_all
  render_all-cons e es d h = elim (Run-cases (render codec e.value)) [
    | inl p ↦ absurd (ground arith)
    | inr (c, p) ↦ elim (Run-cases (render_all es)) [
      | inl q ↦ absurd (ground arith)
      | inr (more, q) ↦ (c, more, p, q, ground arith)
    ]
  ]
