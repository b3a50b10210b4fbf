-- ===== src/Find/Hosts.antt =====
-- Which hosts are found: those whose last event of the names is that of a feature with data.
use nameq.Base.{
  ◌≡◌, ap, ◌∙◌, ◌⊎◌, inl, inr, ◌↔◌, Bool, true, false, none, some, List, [], ◌∷◌, arith, ite, ltb,
  ℕ, In, Option-cases, Bool-cases, if◌then◌else◌,
}
use nameq.Base.Text.{Text, Bytes, Text-discrete}
use nameq.Base.Map.{Map, lookup, keys, lookup-insert, lookup-erase}
use nameq.Base.Run.{returns}
use nameq.Demux.{Feature}
use nameq.Find.{
  StringOrderMap, Finder, is_wanted, Choice, feature, closed, booted, timed_out, by_default, empty,
  add_host, remove_host, order_of, put_sorted, sort_keys, array, take_feature, find_loop, last,
}

abbrev pub has : Text → StringOrderMap → Bool
has h som = elim (lookup h som.order) [ none ↦ false | some _ ↦ true ]

-- Whether the host is there after the events of the choices up to the end of the loop, if it was
-- there or not before: the last feature of the names that is of the host has data.
module _ (args : List Text) (string_of : Bytes → Text) (h : Text) where
  pub present : List Choice → Bool → Bool
  present [] b = b
  present (feature f ∷ rest) b = present rest (
      if is_wanted f.name args
      then ite (Text-discrete (string_of f.host) h) (elim f.data' [ none ↦ false | some _ ↦ true ])
          b
      else b)
  present (closed ∷ rest) b = b
  present (booted ∷ rest) b = present rest b
  present (timed_out ∷ rest) b = b
  present (by_default ∷ rest) b = b

  has-take_feature :
      (f : Feature) (finder : Finder)
      → has h (take_feature args string_of f finder).accumulator ≡ (
          if is_wanted f.name args
          then ite
              (Text-discrete (string_of f.host) h)
              (elim f.data' [ none ↦ false | some _ ↦ true ])
              (has h finder.accumulator)
          else has h finder.accumulator)
  unfolding take_feature add_host remove_host
  has-take_feature f finder = elim (Option-cases f.data') [
    | inl e ↦ ground (arith, lookup-erase (string_of f.host) h finder.accumulator.order)
    | inr (d, e) ↦
        ground (
          arith,
          lookup-insert (string_of f.host) h finder.accumulator.next finder.accumulator.order,
        )
  ]

  pub find_loop-present :
      (choices : List Choice) (finder : Finder) (som : StringOrderMap)
      → find_loop args string_of choices finder ≡ some (some som)
      → has h som ≡ present choices (has h finder.accumulator)
  unfolding find_loop present
  find_loop-present [] finder som e = absurd (ground arith)
  find_loop-present (feature f ∷ rest) finder som e =
      find_loop-present rest (take_feature args string_of f finder) som e
      ∙ ap (present rest) (has-take_feature f finder)
  find_loop-present (closed ∷ rest) finder som e = ground arith
  find_loop-present (booted ∷ rest) finder som e = elim (Bool-cases finder.booting) [
    | inl b ↦ find_loop-present rest (record finder { booting = false }) som (ground arith)
    | inr b ↦ absurd (ground arith)
  ]
  find_loop-present (timed_out ∷ rest) finder som e = ground arith
  find_loop-present (by_default ∷ rest) finder som e = ground arith

In-keys :
    (h : Text) (m : Map ℕ) (next : ℕ)
    → In h (keys m) ↔ (has h (record { order = m; next = next }) ≡ true)
unfolding lookup
In-keys h [] next = (λ i. elim i [ ], λ e. absurd (ground arith))
In-keys h ((k, n) ∷ m) next =
    let (there, back) = In-keys h m next in
    (
      λ i. elim i [ inl e ↦ ground arith | inr j ↦ ground (arith, there j) ],
      λ e. elim (Text-discrete k h) [ yes p ↦ inl p | no p ↦ inr (back (ground arith)) ],
    )

In-put_sorted :
    (order : Map ℕ) (h k : Text) (ks : List Text)
    → (In h (put_sorted order k ks) → (k ≡ h) ⊎ In h ks)
      × ((k ≡ h) ⊎ In h ks → In h (put_sorted order k ks))
unfolding put_sorted
In-put_sorted order h k [] = (λ i. i, λ i. i)
In-put_sorted order h k (j ∷ ks) = elim (Bool-cases (ltb (order_of order k) (order_of order j))) [
  | inl e ↦ rw e (λ i. i, λ i. i)
  | inr e ↦
      let (there, back) = In-put_sorted order h k ks in
      rw e (
        λ i. elim i [
          | inl p ↦ inr (inl p)
          | inr q ↦ elim (there q) [ inl p ↦ inl p | inr r ↦ inr (inr r) ]
        ],
        λ i. elim i [
          | inl p ↦ inr (back (inl p))
          | inr (inl q) ↦ inl q
          | inr (inr r) ↦ inr (back (inr r))
        ],
      )
]

In-sort_keys :
    (order : Map ℕ) (h : Text) (ks : List Text)
    → (In h (sort_keys order ks) → In h ks) × (In h ks → In h (sort_keys order ks))
unfolding sort_keys
In-sort_keys order h [] = (λ i. i, λ i. i)
In-sort_keys order h (k ∷ ks) =
    let (there, back) = In-sort_keys order h ks in
    let (put, put_back) = In-put_sorted order h k (sort_keys order ks) in
    (
      λ i. elim (put i) [ inl p ↦ inl p | inr q ↦ inr (there q) ],
      λ i. elim i [ inl p ↦ put_back (inl p) | inr q ↦ put_back (inr (back q)) ],
    )

-- The array has the hosts of the map.
pub In-array : (h : Text) (som : StringOrderMap) → In h (array som) ↔ (has h som ≡ true)
unfolding array
In-array h som =
    let (there, back) = In-sort_keys som.order h (keys som.order) in
    let (is_key, key) = In-keys h som.order som.next in (λ i. is_key (there i), λ e. back (key e))

pub In-last : (xs : List Text) (x : Text) → last xs ≡ returns x → In x xs
unfolding last
In-last [] x e = absurd (ground arith)
In-last (y ∷ []) x e = inl (ground arith)
In-last (y ∷ z ∷ xs) x e = inr (In-last (z ∷ xs) x e)

first_host :
    (m : Map ℕ) (next : ℕ)
    → empty (record { order = m; next = next }) ≡ false
    → (h : Text) × (has h (record { order = m; next = next }) ≡ true)
unfolding lookup
first_host [] next e = absurd (ground arith)
first_host ((k, n) ∷ m) next e = (k, ground arith)

-- A map that is not empty has a host.
pub empty-has : (som : StringOrderMap) → empty som ≡ false → (h : Text) × (has h som ≡ true)
empty-has som e = first_host som.order som.next e
