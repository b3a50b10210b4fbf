-- ===== src/Monitor/View.antt =====
-- What a reader of a monitor comes to believe of a feature of a host: what the file system says, once
-- that has stopped changing.
use nameq.Base.{
  All, ◌≡◌, ◌≢◌, refl, ◌⊎◌, inl, inr, Bool, true, false, Option, none, some, List, [], ◌∷◌, ◌++◌,
  arith, ite, if◌then◌else◌,
}
use nameq.Base.Text.{Text, Bytes, Text-discrete}
use nameq.Demux.{Feature}
use nameq.Monitor.{Names, World}
use nameq.Monitor.Queue.{
  feature_of, read_features, absent_features, host_features, file_features, gone_features,
}

module _ (name : Text) (host : Bytes) where
  abbrev is_about : Feature → Bool
  is_about f = ite (Text-discrete f.name name) (ite (Text-discrete f.host host) true false) false

  -- What the last feature of the name and the host says; `none` if there is none.
  unfoldable pub last_said : List Feature → Option (Option Bytes)
  last_said [] = none
  last_said (f ∷ rest) = elim (last_said rest) [
    | some value ↦ some value
    | none ↦ if is_about f then some f.data' else none
  ]

  pub last_said-append :
      (fs gs : List Feature) (value : Option Bytes)
      → last_said gs ≡ some value
      → last_said (fs ++ gs) ≡ some value
  unfolding last_said
  last_said-append [] gs value e = e
  last_said-append (f ∷ fs) gs value e = rw (last_said-append fs gs value e) refl

  -- If the feature is of the name and the host, it says the value.
  abbrev pub Says : Option Bytes → Feature → Type 0
  Says value f = (is_about f ≡ false) ⊎ (f.data' ≡ value)

  last_said-Says :
      (value : Option Bytes) (fs : List Feature)
      → All (Says value) fs
      → (last_said fs ≡ none) ⊎ (last_said fs ≡ some value)
  unfolding last_said
  last_said-Says value [] h = inl refl
  last_said-Says value (f ∷ fs) h = elim (last_said-Says value fs h.1) [
    | inr e ↦ inr (rw e refl)
    | inl e ↦ elim h.0 [ inl n ↦ inl (ground arith) | inr d ↦ ground arith ]
  ]

  -- Some feature is of the name and the host.
  abbrev pub Mentions : List Feature → Type 0
  Mentions fs = last_said fs ≢ none

  pub last_said-Mentions :
      (value : Option Bytes) (fs : List Feature)
      → All (Says value) fs
      → Mentions fs
      → last_said fs ≡ some value
  last_said-Mentions value fs h m = elim (last_said-Says value fs h) [
    | inl e ↦ absurd (m e)
    | inr e ↦ e
  ]

  pub Mentions-one : (f : Feature) → f.name ≡ name → f.host ≡ host → Mentions (f ∷ [])
  unfolding last_said
  Mentions-one f p q = λ e. ground arith

  pub Mentions-append_left : (fs gs : List Feature) → Mentions fs → Mentions (fs ++ gs)
  unfolding last_said
  Mentions-append_left [] gs m = absurd (m refl)
  Mentions-append_left (f ∷ fs) gs m = ground (arith, Mentions-append_left fs gs)

  pub Mentions-append_right : (fs gs : List Feature) → Mentions gs → Mentions (fs ++ gs)
  unfolding last_said
  Mentions-append_right [] gs m = m
  Mentions-append_right (f ∷ fs) gs m = ground (arith, Mentions-append_right fs gs)

-- The file system has the file with this content, or does not have it.
abbrev pub Shows : World → Text → Option Bytes → Type 0
Shows w path none = (w.open_file path ≡ none) × (w.stat path ≡ false)
Shows w path (some content) = (w.open_file path ≡ some (some content)) × (w.stat path ≡ true)

module _ (names : Names) (name : Text) (host : Bytes) (path : Text) (value : Option Bytes) where
  -- Of the files that are read, only that of the path stands for the name and the host.
  abbrev pub IsAlone : Text → Text → Type 0
  IsAlone hostname p =
      (p ≡ path) ⊎ ((names.parse_ip hostname ≢ some host) ⊎ (names.base (names.dir p) ≢ name))

  shown :
      (w : World) (c : Bytes) (v : Option Bytes)
      → Shows w path v
      → w.open_file path ≡ some (some c)
      → some c ≡ v
  shown w c none s q = absurd (ground arith)
  shown w c (some d) s q = ground arith

  absent : (w : World) (v : Option Bytes) → Shows w path v → w.stat path ≡ false → none ≡ v
  absent w none s q = refl
  absent w (some d) s q = absurd (ground arith)

  single-Says :
      (f : Feature) (hostname p : Text)
      → names.parse_ip hostname ≡ some f.host
      → f.name ≡ names.base (names.dir p)
      → IsAlone hostname p
      → (p ≡ path) ⊎ (is_about name host f ≡ false)
  single-Says f hostname p e q (inl h) = inl h
  single-Says f hostname p e q (inr (inl h)) = inr (ground arith)
  single-Says f hostname p e q (inr (inr h)) = inr (ground arith)

  one-AllSay :
      (f : Feature) (hostname p : Text)
      → names.parse_ip hostname ≡ some f.host
      → f.name ≡ names.base (names.dir p)
      → IsAlone hostname p
      → (p ≡ path → f.data' ≡ value)
      → All (Says name host value) (f ∷ [])
  one-AllSay f hostname p e q a here = elim (single-Says f hostname p e q a) [
    | inl h ↦ (inr (here h), tt)
    | inr other ↦ (inl other, tt)
  ]

  module _ (w : World) (hostname p : Text) (s : Shows w path value) (a : IsAlone hostname p) where
    read_features-Says :
        (h : Bytes) (o : Option (Option Bytes))
        → names.parse_ip hostname ≡ some h
        → w.open_file p ≡ o
        → All (Says name host value) (read_features names w p h o)
    read_features-Says h none e q = tt
    read_features-Says h (some none) e q = tt
    read_features-Says h (some (some c)) e q =
        one-AllSay (feature_of names w p h (some c)) hostname p e refl a
          (λ here. shown w c value s (rw (← here) q))

    absent_features-Says :
        (h : Bytes) (b : Bool)
        → names.parse_ip hostname ≡ some h
        → w.stat p ≡ b
        → All (Says name host value) (absent_features names w p h b)
    absent_features-Says h true e q = tt
    absent_features-Says h false e q =
        one-AllSay (feature_of names w p h none) hostname p e refl a
          (λ here. absent w value s (rw (← here) q))

    host_features-Says :
        (f : Bytes → List Feature) (o : Option Bytes)
        → names.parse_ip hostname ≡ o
        → ((h : Bytes) → names.parse_ip hostname ≡ some h → All (Says name host value) (f h))
        → All (Says name host value) (host_features names w f o)
    host_features-Says f none e k = tt
    host_features-Says f (some h) e k = k h e

    pub file_features-Says : All (Says name host value) (file_features names w hostname p)
    unfolding file_features
    file_features-Says = host_features-Says _ _ refl (λ h e. read_features-Says h _ e refl)

    pub gone_features-Says : All (Says name host value) (gone_features names w hostname p)
    unfolding gone_features
    gone_features-Says = host_features-Says _ _ refl (λ h e. absent_features-Says h _ e refl)
