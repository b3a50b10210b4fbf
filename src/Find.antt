-- ===== src/Find.antt =====
-- The command find-features of cmd/nameq/command/monitor.go: its loop over the features of a monitor,
-- and the hosts in the order in which they were added.
pub mod Loop
pub mod Hosts
mod Tests
use nameq.Base.{
  ℕ, suc, ◌<◌, ltb, Bool, true, false, ◌&&◌, Option, none, some, List, [], ◌∷◌, if◌then◌else◌, ite,
}
use nameq.Base.Text.{Text, Bytes, Text-discrete}
use nameq.Base.Map.{Map, lookup, insert, erase, keys}
use nameq.Base.Run.{Run, returns, panics}
use nameq.Demux.{Feature}

pub record StringOrderMap : Type 0 where
  pub order : Map ℕ
  pub next : ℕ

abbrev pub new_string_order_map : StringOrderMap
new_string_order_map = record { order = []; next = 0 }

abbrev pub empty : StringOrderMap → Bool
empty som = elim som.order [ [] ↦ true | _ ∷ _ ↦ false ]

unfoldable pub add_host : Text → StringOrderMap → StringOrderMap
add_host key som = record { order = insert key som.next som.order; next = suc som.next }

unfoldable pub remove_host : Text → StringOrderMap → StringOrderMap
remove_host key som = record som { order = erase key som.order }

-- `order[key]`, zero for a missing key.
abbrev pub order_of : Map ℕ → Text → ℕ
order_of order key = elim (lookup key order) [ none ↦ 0 | some n ↦ n ]

-- `sort.Sort` with `Less`, as an insertion sort: the orders of a map of hosts are all different, so
-- the result does not depend on the algorithm.
unfoldable pub put_sorted : Map ℕ → Text → List Text → List Text
put_sorted order key [] = key ∷ []
put_sorted order key (k ∷ rest) =
    let behind = put_sorted order key rest in
    if ltb (order_of order key) (order_of order k) then key ∷ k ∷ rest else k ∷ behind

unfoldable pub sort_keys : Map ℕ → List Text → List Text
unfolding put_sorted
sort_keys order [] = []
sort_keys order (key ∷ rest) = put_sorted order key (sort_keys order rest)

unfoldable pub array : StringOrderMap → List Text
unfolding sort_keys
array som = sort_keys som.order (keys som.order)

-- The variables of the loop; `booting` is whether `monitor.Boot` is not nil, and `has_timer` whether
-- `timeoutChannel` is not.
pub record Finder : Type 0 where
  pub booting : Bool
  pub has_timer : Bool
  pub accumulator : StringOrderMap

abbrev pub new_finder : Bool → Finder
new_finder has_timer = record {
  booting = true;
  has_timer = has_timer;
  accumulator = new_string_order_map;
}

-- What the `select` statements may do: a feature of the monitor, the end of its channel, the end of
-- the boot, the timeout, or the default case.
pub data Choice : Type 0 where
  feature : Feature → Choice
  closed booted timed_out by_default : Choice

pub data Outcome : Type 0 where
  continues : Finder → Outcome
  times_out : Outcome
  breaks : StringOrderMap → Outcome

unfoldable pub is_wanted : Text → List Text → Bool
is_wanted name [] = false
is_wanted name (arg ∷ rest) = ite (Text-discrete arg name) true (is_wanted name rest)

-- The arguments of the command, and `String` of a `net.IP`.
module _ (args : List Text) (string_of : Bytes → Text) where
  unfoldable pub take_feature : Feature → Finder → Finder
  unfolding is_wanted add_host remove_host
  take_feature f finder =
      if is_wanted f.name args
      then (elim f.data' [
        | none ↦ record finder { accumulator = remove_host (string_of f.host) finder.accumulator }
        | some _ ↦ record finder { accumulator = add_host (string_of f.host) finder.accumulator }
      ])
      else finder

  -- One round of the loop; `none` means that its `select` has no such case.
  unfoldable pub find_round : Choice → Finder → Option Outcome
  unfolding take_feature
  find_round (feature f) finder = some (continues (take_feature f finder))
  find_round closed finder = some (breaks finder.accumulator)
  find_round booted finder =
      if finder.booting then some (continues (record finder { booting = false })) else none
  find_round timed_out finder =
      if finder.booting
      then none
      else if empty finder.accumulator && finder.has_timer
      then some times_out
      else none
  find_round by_default finder =
      if finder.booting
      then none
      else if empty finder.accumulator
      then none
      else some (breaks finder.accumulator)

  -- The loop on these choices: `none` if it waits for more, or a choice cannot be made.
  unfoldable pub find_loop : List Choice → Finder → Option (Option StringOrderMap)
  unfolding find_round
  find_loop [] finder = none
  find_loop (c ∷ rest) finder = elim (find_round c finder) [
    | none ↦ none
    | some (continues finder') ↦ find_loop rest finder'
    | some times_out ↦ some none
    | some (breaks som) ↦ some (some som)
  ]

-- `entries[len(entries)-1]`
unfoldable pub last : List Text → Run Text
last [] = panics
last (x ∷ []) = returns x
last (x ∷ y ∷ rest) = last (y ∷ rest)

-- What is printed: a timeout prints nothing.
unfoldable pub print_entries : Bool → Option StringOrderMap → Run (List Text)
unfolding array last
print_entries single none = returns []
print_entries single (some som) =
    if single
    then (elim (last (array som)) [ panics ↦ panics | returns host ↦ returns (host ∷ []) ])
    else returns (array som)
