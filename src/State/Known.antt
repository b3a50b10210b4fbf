-- ===== src/State/Known.antt =====
-- The entries of one node and of many, with the features that they are of.
use mathlib.Core.Path.{subst}
use nameq.Base.{
  In, In-append, In-append_left, In-append_right, ◌≡◌, ◌≢◌, refl, ap, sym, ◌∙◌, inl, inr, some,
  List, [], ◌∷◌, ◌++◌, arith,
}
use nameq.Base.Text.{Text, Text-discrete}
use nameq.Base.Map.{Map, lookup, IsMap, values}
use nameq.Node.{Raw, Features, RemoteNode}
use nameq.Node.Remotes.{nodes_of}
use nameq.State.Entries.{Entry, NoneTwice, features_entries, nodes_entries}

pub lookup-In : {V : Type 0} (k : Text) (v : V) (m : Map V) → lookup k m ≡ some v → In (k, v) m
unfolding lookup
lookup-In k v [] h = absurd (ground arith)
lookup-In k v ((j, w) ∷ m) h = elim (Text-discrete j k) [
  | yes p ↦ inl (ground arith)
  | no p ↦ inr (lookup-In k v m (ground arith))
]

pub In-lookup :
    {V : Type 0} (k : Text) (v : V) (m : Map V) → IsMap m → In (k, v) m → lookup k m ≡ some v
unfolding lookup
In-lookup k v [] u h = elim h [ ]
In-lookup k v ((j, w) ∷ m) u (inl e) = ground arith
In-lookup k v ((j, w) ∷ m) u (inr h) = ground (arith, In-lookup k v m u.1 h)

abbrev pub entry : Text → Text → Raw → Entry
entry host f v = record { feature = f; host = host; value = v }

pub features-In :
    (host : Text) (fs : Features) (e : Entry)
    → In e (features_entries host fs)
    → (e.host ≡ host) × In (e.feature, e.value) fs
features-In host [] e h = elim h [ ]
features-In host ((f, v) ∷ fs) e (inl p) =
    (ap (λ (x : Entry). x.host) (sym p), inl (ap (λ (x : Entry). (x.feature, x.value)) p))
features-In host ((f, v) ∷ fs) e (inr h) = let (p, i) = features-In host fs e h in (p, inr i)

pub In-features :
    (host : Text) (fs : Features) (f : Text) (v : Raw)
    → In (f, v) fs
    → In (entry host f v) (features_entries host fs)
In-features host [] f v h = elim h [ ]
In-features host ((g, w) ∷ fs) f v (inl p) = inl (ap (λ (x : Text × Raw). entry host x.0 x.1) p)
In-features host ((g, w) ∷ fs) f v (inr h) = inr (In-features host fs f v h)

pub features-NoneTwice :
    (host : Text) (fs : Features) → IsMap fs → NoneTwice (features_entries host fs)
features-NoneTwice host [] u = tt
features-NoneTwice host ((f, v) ∷ fs) (absent, u) = (
  λ x i p q.
      let (_, j) = features-In host fs x i in
      let there = In-lookup x.feature x.value fs u j in
      cc (sym (ap (λ (k : Text). lookup k fs) p) ∙ there, absent),
  features-NoneTwice host fs u,
)

pub NoneTwice-append :
    (xs ys : List Entry)
    → NoneTwice xs
    → NoneTwice ys
    → ((x y : Entry) → In x xs → In y ys → x.host ≢ y.host)
    → NoneTwice (xs ++ ys)
NoneTwice-append [] ys h k d = k
NoneTwice-append (x ∷ xs) ys (h, hs) k d = (
  λ y i p q. elim (In-append y xs ys i) [ inl j ↦ h y j p q | inr j ↦ d x y (inl refl) j (sym q) ],
  NoneTwice-append xs ys hs k (λ a b i j. d a b (inr i) j),
)

abbrev pub nodes_in : Map RemoteNode → List Entry
nodes_in m = nodes_entries (nodes_of (values m))

pub nodes-In :
    (m : Map RemoteNode) (e : Entry)
    → In e (nodes_in m)
    → (k : Text) × (r : RemoteNode) × In (k, r) m
      × In e (features_entries r.node.ip_addr r.node.features)
unfolding nodes_of
nodes-In [] e h = elim h [ ]
nodes-In ((k, r) ∷ m) e h = elim (In-append e _ (nodes_in m) h) [
  | inl i ↦ (k, r, inl refl, i)
  | inr j ↦ let (k', r', i, l) = nodes-In m e j in (k', r', inr i, l)
]

pub In-nodes :
    (m : Map RemoteNode) (e : Entry) (k : Text) (r : RemoteNode)
    → In (k, r) m
    → In e (features_entries r.node.ip_addr r.node.features)
    → In e (nodes_in m)
unfolding nodes_of
In-nodes [] e k r h i = elim h [ ]
In-nodes ((j, q) ∷ m) e k r (inl p) i =
    In-append_left e (features_entries q.node.ip_addr q.node.features) (nodes_in m) (
      subst (λ (x : Text × RemoteNode). In e (features_entries x.1.node.ip_addr x.1.node.features))
        (sym p) i)
In-nodes ((j, q) ∷ m) e k r (inr h) i = In-append_right e _ (nodes_in m) (In-nodes m e k r h i)

-- Each node of a map stands under its own address, and lists no feature twice.
abbrev pub AllOrderly : Map RemoteNode → Type 0
AllOrderly m =
    (k : Text) (r : RemoteNode) → In (k, r) m → (r.node.ip_addr ≡ k) × IsMap r.node.features

pub nodes-NoneTwice : (m : Map RemoteNode) → IsMap m → AllOrderly m → NoneTwice (nodes_in m)
unfolding nodes_of
nodes-NoneTwice [] u h = tt
nodes-NoneTwice ((k, r) ∷ m) (absent, u) h =
    let (own, maps) = h k r (inl refl) in
    NoneTwice-append (features_entries r.node.ip_addr r.node.features) (nodes_in m)
      (features-NoneTwice r.node.ip_addr r.node.features maps)
      (nodes-NoneTwice m u (λ j q i. h j q (inr i)))
      (λ x y i j p.
        let (host, _) = features-In r.node.ip_addr r.node.features x i in
        let (k', r', l, n) = nodes-In m y j in
        let (host', _) = features-In r'.node.ip_addr r'.node.features y n in
        let (own', _) = h k' r' (inr l) in
        let same : k' ≡ k = sym own' ∙ sym host' ∙ sym p ∙ host ∙ own in
        let there = In-lookup k' r' m u l in
        cc (ap (λ (z : Text). lookup z m) (sym same) ∙ there, absent))
