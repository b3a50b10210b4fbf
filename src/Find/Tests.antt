-- ===== src/Find/Tests.antt =====
-- The command find-features on concrete choices.
use nameq.Base.{◌≡◌, refl, true, false, Option, none, some, List, [], ◌∷◌}
use nameq.Base.Text.{Text, Bytes, codes, Text-discrete}
use nameq.Base.Map.{lookup, insert, erase}
use nameq.Base.Run.{returns, panics}
use nameq.Demux.{Feature}
use nameq.Find.{
  StringOrderMap, new_string_order_map, new_finder, Choice, feature, closed, booted, by_default,
  find_loop, is_wanted, add_host, remove_host, print_entries,
}
use nameq.Find.Loop.{features_then, AllUnwanted, find_loop-closed}

abbrev of_host : Text → Option Bytes → Feature
of_host host data' = record { name = codes "foo"; host = host; data' = data' }

abbrev choices : List Choice
choices =
    feature (of_host (codes "a") (some []))
    ∷ feature (of_host (codes "b") (some []))
    ∷ feature (of_host (codes "c") (some []))
    ∷ booted
    ∷ feature (of_host (codes "a") (some []))
    ∷ feature (of_host (codes "c") none)
    ∷ by_default
    ∷ []

abbrev found : StringOrderMap
found = record { order = (codes "a", 3) ∷ (codes "b", 1) ∷ []; next = 4 }

abbrev same : Bytes → Text
same host = host

found_run : find_loop (codes "foo" ∷ []) same choices (new_finder true) ≡ some (some found)
unfolding find_loop is_wanted Text-discrete insert erase add_host remove_host
found_run = refl

-- The host that was added last stands last.
printed_run : print_entries false (some found) ≡ returns (codes "b" ∷ codes "a" ∷ [])
unfolding print_entries Text-discrete lookup
printed_run = refl

other-AllUnwanted : AllUnwanted (codes "bar" ∷ []) (of_host (codes "a") (some []) ∷ [])
unfolding is_wanted Text-discrete
other-AllUnwanted = (refl, tt)

abbrev others : List Feature
others = of_host (codes "a") (some []) ∷ []

find_loop-closed_example :
    (find_loop (codes "bar" ∷ []) same (features_then others (closed ∷ [])) (new_finder false)
      ≡ some (some new_string_order_map))
    × (find_loop
          (codes "bar" ∷ [])
          same
          (features_then others (booted ∷ features_then others (closed ∷ [])))
          (new_finder false)
        ≡ some (some new_string_order_map))
    × (print_entries true (some new_string_order_map) ≡ panics)
find_loop-closed_example =
    find_loop-closed (codes "bar" ∷ []) same false others others [] other-AllUnwanted
      other-AllUnwanted
