-- ===== src/Find/Loop.antt =====
-- When the loop ends with no host, and when printing panics.
use mathlib.Core.Path.{subst}
use nameq.Base.{
  ℕ, ◌≡◌, refl, ◌∙◌, ◌⊎◌, inl, inr, Bool, true, false, Option, none, some, List, [], ◌∷◌, arith,
  ltb, Bool-cases,
}
use nameq.Base.Text.{Text, Bytes}
use nameq.Base.Map.{Map, keys}
use nameq.Base.Run.{returns, panics}
use nameq.Demux.{Feature}
use nameq.Find.{
  StringOrderMap, Finder, new_finder, new_string_order_map, is_wanted, Choice, feature, closed,
  booted, timed_out, by_default, empty, order_of, put_sorted, sort_keys, array, take_feature,
  find_loop, last, print_entries,
}

-- The channel of the monitor does not end.
abbrev pub StaysOpen : List Choice → Type 0
StaysOpen [] = Unit
StaysOpen (closed ∷ rest) = ⊥
StaysOpen (feature _ ∷ rest) = StaysOpen rest
StaysOpen (booted ∷ rest) = StaysOpen rest
StaysOpen (timed_out ∷ rest) = StaysOpen rest
StaysOpen (by_default ∷ rest) = StaysOpen rest

-- The loop has not ended with hosts, or there is one.
abbrev Inhabited : Option (Option StringOrderMap) → Type 0
Inhabited none = Unit
Inhabited (some none) = Unit
Inhabited (some (some som)) = empty som ≡ false

module _ (args : List Text) (string_of : Bytes → Text) where
  find_loop-Inhabited :
      (choices : List Choice) (finder : Finder)
      → StaysOpen choices
      → Inhabited (find_loop args string_of choices finder)
  unfolding find_loop
  find_loop-Inhabited [] finder h = tt
  find_loop-Inhabited (feature f ∷ rest) finder h =
      find_loop-Inhabited rest (take_feature args string_of f finder) h
  find_loop-Inhabited (closed ∷ rest) finder h = absurd h
  find_loop-Inhabited (booted ∷ rest) finder h =
      ground (arith, find_loop-Inhabited rest (record finder { booting = false }) h)
  find_loop-Inhabited (timed_out ∷ rest) finder h = ground arith
  find_loop-Inhabited (by_default ∷ rest) finder h = ground arith

put_sorted-cons :
    (order : Map ℕ) (key : Text) (ks : List Text)
    → (k : Text) × (rest : List Text) × (put_sorted order key ks ≡ k ∷ rest)
unfolding put_sorted
put_sorted-cons order key [] = (key, [], refl)
put_sorted-cons order key (k ∷ ks) =
    elim (Bool-cases (ltb (order_of order key) (order_of order k))) [
      | inl e ↦ (key, k ∷ ks, rw e refl)
      | inr e ↦ (k, put_sorted order key ks, rw e refl)
    ]

last-returns : (k : Text) (ks : List Text) → (x : Text) × (last (k ∷ ks) ≡ returns x)
unfolding last
last-returns k [] = (k, refl)
last-returns k (k' ∷ ks) = last-returns k' ks

last_host :
    (order : Map ℕ)
    → empty (record { order = order; next = 0 }) ≡ false
    → (x : Text) × (last (sort_keys order (keys order)) ≡ returns x)
unfolding sort_keys
last_host [] e = absurd (ground arith)
last_host ((k, v) ∷ m) e =
    let order = (k, v) ∷ m in
    let (y, ys, p) = put_sorted-cons order k (sort_keys order (keys m)) in
    let (x, q) = last-returns y ys in (x, rw p q)

print_entries-returns :
    (single : Bool) (o : Option StringOrderMap)
    → Inhabited (some o)
    → (hosts : List Text) × (print_entries single o ≡ returns hosts)
unfolding print_entries array
print_entries-returns single none h = ([], refl)
print_entries-returns false (some som) h = (sort_keys som.order (keys som.order), refl)
print_entries-returns true (some som) h = let (x, e) = last_host som.order h in (x ∷ [], rw e refl)

Inhabited-of_eq :
    {o : Option (Option StringOrderMap)} (r : Option StringOrderMap)
    → o ≡ some r
    → Inhabited o
    → Inhabited (some r)
Inhabited-of_eq r e h = subst Inhabited e h

-- While the monitor's channel stays open, what the loop ends with is printed, with no panic; and
-- unless the command times out there is a host to print.
pub find_loop-prints :
    (args : List Text) (string_of : Bytes → Text) (timer : Bool) (choices : List Choice)
    (single : Bool) (r : Option StringOrderMap)
    → StaysOpen choices
    → find_loop args string_of choices (new_finder timer) ≡ some r
    → ((hosts : List Text) × (print_entries single r ≡ returns hosts))
      × ((r ≡ none) ⊎ ((som : StringOrderMap) × (r ≡ some som) × (empty som ≡ false)))
find_loop-prints args string_of timer choices single r h e =
    let i = Inhabited-of_eq r e (find_loop-Inhabited args string_of choices (new_finder timer) h) in
    (print_entries-returns single r i, ended r i)
  where
    ended :
        (o : Option StringOrderMap)
        → Inhabited (some o)
        → (o ≡ none) ⊎ ((som : StringOrderMap) × (o ≡ some som) × (empty som ≡ false))
    ended none i = inl refl
    ended (some som) i = inr (som, refl, i)

pub features_then : List Feature → List Choice → List Choice
features_then [] rest = rest
features_then (f ∷ fs) rest = feature f ∷ features_then fs rest

abbrev pub AllUnwanted : List Text → List Feature → Type 0
AllUnwanted args [] = Unit
AllUnwanted args (f ∷ fs) = (is_wanted f.name args ≡ false) × AllUnwanted args fs

-- A loop that has no host yet.
abbrev waiting : Bool → Bool → Finder
waiting booting timer = record {
  booting = booting;
  has_timer = timer;
  accumulator = new_string_order_map;
}

find_loop-unwanted :
    (args : List Text) (string_of : Bytes → Text) (booting timer : Bool) (fs : List Feature)
    (rest : List Choice)
    → AllUnwanted args fs
    → find_loop args string_of (features_then fs rest) (waiting booting timer)
      ≡ find_loop args string_of rest (waiting booting timer)
unfolding find_loop take_feature features_then
find_loop-unwanted args string_of booting timer [] rest u = refl
find_loop-unwanted args string_of booting timer (f ∷ fs) rest u =
    ground (arith, find_loop-unwanted args string_of booting timer fs rest u.1)

-- If the monitor's channel ends while no feature of the names has come, be it before the end of the
-- boot or after it, the loop ends with no host, timer or not, and the command with -single then
-- panics.
pub find_loop-closed :
    (args : List Text) (string_of : Bytes → Text) (timer : Bool) (fs gs : List Feature)
    (rest : List Choice)
    → AllUnwanted args fs
    → AllUnwanted args gs
    → (find_loop args string_of (features_then fs (closed ∷ rest)) (new_finder timer)
        ≡ some (some new_string_order_map))
      × (find_loop args string_of
            (features_then fs (booted ∷ features_then gs (closed ∷ rest)))
            (new_finder timer)
          ≡ some (some new_string_order_map))
      × (print_entries true (some new_string_order_map) ≡ panics)
unfolding find_loop print_entries array last
find_loop-closed args string_of timer fs gs rest u v = (
  find_loop-unwanted args string_of true timer fs (closed ∷ rest) u,
  find_loop-unwanted args string_of true timer fs (booted ∷ features_then gs (closed ∷ rest)) u
      ∙ find_loop-unwanted args string_of false timer gs (closed ∷ rest) v,
  refl,
)
