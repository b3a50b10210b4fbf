-- ===== src/Command/Find.antt =====
-- The command find-features of cmd/nameq/command/monitor.go, from its parsed flags on; its loop is
-- that of the module Find.
pub mod Ends
use mathlib.Core.Path.{subst}
use nameq.Base.{
  ◌↔◌, ◌≡◌, ◌≢◌, refl, sym, ap, ◌∙◌, ◌⊎◌, inl, inr, Bool, true, false, not, Option, none, some,
  List, [], ◌∷◌, arith, ite, In, Option-cases, Bool-cases, if◌then◌else◌,
}
use nameq.Base.Int.{ℤ, pos, negsuc, ltb_ℤ}
use nameq.Base.Text.{Text, Bytes, codes, Text-discrete}
use nameq.Base.Map.{lookup}
use nameq.Base.Run.{Run, returns, Run-cases, ◌>>=◌}
use nameq.Find.{
  StringOrderMap, Choice, feature, closed, booted, timed_out, by_default, Finder, new_finder, empty,
  array, take_feature, find_loop, last, print_entries,
}
use nameq.Find.Loop.{StaysOpen, find_loop-prints}
use nameq.Find.Hosts.{has, present, find_loop-present, In-array, In-last, empty-has}
use nameq.Command.{Exit, usage, failed, succeeded}

pub record Flags : Type 0 where
  pub state_dir : Text
  pub timeout : Text
  pub single : Bool

abbrev pub infinite : Text
infinite = codes "infinite"

-- `time.ParseDuration` is given.
abbrev pub duration_of : (Text → Option ℤ) → Text → Option ℤ
duration_of parse_duration timeout =
    ite (Text-discrete timeout infinite) (some (negsuc 0)) (parse_duration timeout)

-- `flag.NArg() < 1`
abbrev pub has_none : List Text → Bool
has_none args = elim args [ [] ↦ true | _ ∷ _ ↦ false ]

-- What comes after the loop; `none` is a loop that has not ended.
abbrev pub after_loop : Bool → Option (Option StringOrderMap) → Option (Run (Exit × List Text))
after_loop single none = none
after_loop single (some found) =
    some (do hosts ← print_entries single found; returns (succeeded, hosts))

-- How the command ends, and the lines that it prints, where its loop makes these choices. Given are
-- the states of which `NewFeatureMonitor` fails to make a monitor, and `String` of a `net.IP`.
unfoldable pub find_command :
    (Text → Option ℤ)
    → (Text → Bool)
    → (Bytes → Text)
    → Flags
    → List Text
    → List Choice
    → Option (Run (Exit × List Text))
find_command parse_duration monitor_fails string_of flags args choices =
    elim (duration_of parse_duration flags.timeout) [
      | none ↦ some (returns (failed, []))
      | some duration ↦
          if has_none args
          then some (returns (usage, []))
          else if monitor_fails flags.state_dir
          then some (returns (failed, []))
          else after_loop flags.single
              (find_loop args string_of choices (new_finder (not (ltb_ℤ duration (pos 0)))))
    ]
