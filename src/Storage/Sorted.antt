-- ===== src/Storage/Sorted.antt =====
-- The first loop of a scan: which objects are loaded, and which are deleted.
use mathlib.Core.List.{Mem, mem-cons, not-mem-nil, Mem-prop, mem-cons_self, mem-cons_of_mem}
use mathlib.Core.Logic.Or
use nameq.Base.{
  inl, inr, Option-cases, All, ℕ, ◌≤◌, ◌≡◌, ◌≢◌, refl, ap, true, false, some, List, [], ◌∷◌, length,
  drop, arith,
}
use nameq.Base.Int.{ℤ, ltb_ℤ}
use nameq.Base.Text.{Text, Bytes}
use nameq.Base.Run.{returns}
use nameq.Node.{Net, LocalNode, RemoteNodes}
use nameq.Node.Remotes.{updatable}
use nameq.Storage.{Object, Keys, Class, ignore, load, remove, classify, add_key, sort_objects}
use nameq.Storage.Loads.{slice_from-drop}

All-add_key_load :
    (P : Text → Type 0) {key : Text} (c : Class) (keys : Keys)
    → (c ≡ load → P key)
    → All P keys.load_keys
    → All P (add_key c key keys).load_keys
All-add_key_load P ignore keys p h = h
All-add_key_load P load keys p h = (p refl, h)
All-add_key_load P remove keys p h = h

All-add_key_delete :
    (P : Text → Type 0) {key : Text} (c : Class) (keys : Keys)
    → (c ≡ remove → P key)
    → All P keys.delete_keys
    → All P (add_key c key keys).delete_keys
All-add_key_delete P ignore keys p h = h
All-add_key_delete P load keys p h = h
All-add_key_delete P remove keys p h = (p refl, h)

mem-add_key :
    {k : Text} (c : Class) (key : Text) (keys : Keys)
    → Mem k keys.load_keys
    → Mem k (add_key c key keys).load_keys
mem-add_key ignore key keys m = m
mem-add_key load key keys m = mem-cons_of_mem key m
mem-add_key remove key keys m = m

mem_head :
    {k key : Text} (c : Class) (keys : Keys)
    → c ≡ load
    → k ≡ key
    → Mem k (add_key c key keys).load_keys
mem_head c keys e q = rw (e, q) mem-cons_self

module _ (net : Net) (local : LocalNode) (remotes : RemoteNodes) (threshold : ℤ) (n : ℕ) where
  abbrev pub class_of : Object → Class
  class_of o = classify net local remotes threshold (drop n o.key) o.last_modified

  unfoldable pub sorted : List Object → Keys
  sorted [] = record { load_keys = []; delete_keys = [] }
  sorted (o ∷ rest) = add_key (class_of o) o.key (sorted rest)

  pub sort_objects-sorted :
      (objects : List Object)
      → All (λ (o : Object). n ≤ length o.key) objects
      → sort_objects net local remotes threshold n objects ≡ returns (sorted objects)
  unfolding sort_objects sorted
  sort_objects-sorted [] h = refl
  sort_objects-sorted (o ∷ rest) h = rw (slice_from-drop n o.key h.0, sort_objects-sorted rest h.1)

  pub load_keys-long :
      (objects : List Object)
      → All (λ (o : Object). n ≤ length o.key) objects
      → All (λ (key : Text). n ≤ length key) (sorted objects).load_keys
  unfolding sorted
  load_keys-long [] h = tt
  load_keys-long (o ∷ rest) h =
      All-add_key_load (λ (key : Text). n ≤ length key) (class_of o) (sorted rest) (λ _. h.0)
        (load_keys-long rest h.1)

  -- What is loaded is under an address that is a global unicast one.
  abbrev pub IsLoadable : Text → Type 0
  IsLoadable key =
      (ip : Bytes) × (net.parse_ip (drop n key) ≡ some ip) × (net.is_global_unicast ip ≡ true)

  load-IsLoadable : (o : Object) → class_of o ≡ load → IsLoadable o.key
  unfolding classify
  load-IsLoadable o e = elim (Option-cases (net.parse_ip (drop n o.key))) [
    | inl f ↦ absurd (ground arith)
    | inr (ip, f) ↦ (ip, f, ground arith)
  ]

  pub load_keys-IsLoadable : (objects : List Object) → All IsLoadable (sorted objects).load_keys
  unfolding sorted
  load_keys-IsLoadable [] = tt
  load_keys-IsLoadable (o ∷ rest) =
      All-add_key_load IsLoadable (class_of o) (sorted rest) (load-IsLoadable o)
        (load_keys-IsLoadable rest)

  pub classify-load :
      (o : Object) (ip : Bytes)
      → drop n o.key ≢ []
      → drop n o.key ≢ local.ip_addr
      → net.parse_ip (drop n o.key) ≡ some ip
      → net.is_global_unicast ip ≡ true
      → ltb_ℤ threshold o.last_modified ≡ true
      → updatable remotes (drop n o.key) o.last_modified ≡ true
      → class_of o ≡ load
  unfolding classify
  classify-load o ip a b c d e f = ground arith

  -- The listing has the key with a time at the threshold or before, and it is not that of the local
  -- node.
  abbrev pub IsStale : List Object → Text → Type 0
  IsStale objects key =
      (o : Object) × Mem o objects
      × (o.key ≡ key)
      × (ltb_ℤ threshold o.last_modified ≡ false)
      × (drop n key ≢ local.ip_addr)

  classify-remove :
      (o : Object)
      → class_of o ≡ remove
      → (ltb_ℤ threshold o.last_modified ≡ false) × (drop n o.key ≢ local.ip_addr)
  unfolding classify
  classify-remove o e = (ground arith, λ p. ground arith)

  pub mem-load_keys :
      (o : Object) (objects : List Object)
      → class_of o ≡ load
      → Mem o objects
      → Mem o.key (sorted objects).load_keys
  unfolding sorted
  mem-load_keys o [] e m = absurd (not-mem-nil m)
  mem-load_keys o (x ∷ rest) e m =
      Or.elim Mem-prop (mem-cons.0 m)
        (λ q. mem_head (class_of x) (sorted rest) (rw (← q) e) (ap (λ (y : Object). y.key) q))
        (λ q. mem-add_key (class_of x) x.key (sorted rest) (mem-load_keys o rest e q))

  All-IsStale_cons :
      (x : Object) (objects : List Object) (keys : List Text)
      → All (IsStale objects) keys
      → All (IsStale (x ∷ objects)) keys
  All-IsStale_cons x objects [] h = tt
  All-IsStale_cons x objects (k ∷ keys) ((o, m, e, t, own), h) =
      ((o, mem-cons_of_mem x m, e, t, own), All-IsStale_cons x objects keys h)

  pub delete_keys-IsStale :
      (objects : List Object) → All (IsStale objects) (sorted objects).delete_keys
  unfolding sorted
  delete_keys-IsStale [] = tt
  delete_keys-IsStale (o ∷ rest) =
      All-add_key_delete (IsStale (o ∷ rest)) (class_of o) (sorted rest)
        (λ e. (o, mem-cons_self, refl, (classify-remove o e).0, (classify-remove o e).1))
        (All-IsStale_cons o rest _ (delete_keys-IsStale rest))
