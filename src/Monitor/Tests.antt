-- ===== src/Monitor/Tests.antt =====
-- A monitor of a concrete directory.
use nameq.Base.{
  ◌≡◌, refl, inl, inr, ◌==◌, true, false, Option, none, some, List, [], ◌∷◌, ◌++◌, arith, ite,
  if◌then◌else◌,
}
use nameq.Base.Text.{Text, Bytes, codes, Text-discrete}
use nameq.Base.Result.{err}
use nameq.Demux.{Feature}
use nameq.Monitor.{
  Names, World, Event, continues, Case, end_of_boot, event, error, delivered, contains_separator,
  add_host, remove_host, host_event, boot_monitor, no_watcher, new_feature_monitor, handle_event,
  watch_loop,
}
use nameq.Monitor.Queue.{initial_features}
use nameq.Monitor.Stream.{seen, AllWatched, FromBoot, watch_loop-boot_monitor}
use nameq.Monitor.View.{last_said}
use nameq.Monitor.Drain.{drain}
use nameq.Monitor.Told.{IsFeatureFile, IsStable}
use nameq.Monitor.Converge.{watch_loop-converges}

base_of : Text → Text
base_of [] = []
base_of (c ∷ rest) =
    if contains_separator rest then base_of rest else if c == b'/' then rest else c ∷ rest

dir_of : Text → Text
dir_of [] = []
dir_of (c ∷ rest) = if contains_separator rest then c ∷ dir_of rest else []

parse : Text → Option Bytes
parse [] = none
parse (c ∷ rest) = some (c ∷ rest)

names : Names
unfolding base_of dir_of parse
names = record { join = λ a b. a ++ (b'/' ∷ b); base = base_of; dir = dir_of; parse_ip = parse }

read : Option Bytes → Text → Option (List Text)
read now path =
    ite (Text-discrete path (codes "/f")) (some (codes "a" ∷ []))
      (ite (Text-discrete path (codes "/f/a")) (some (codes "10" ∷ [])) none)

open_file : Option Bytes → Text → Option (Option Bytes)
open_file now path = elim now [
  | none ↦ none
  | some content ↦ ite (Text-discrete path (codes "/f/a/10")) (some (some content)) none
]

-- The file /f/a/10 has the content, or is not there.
world : Option Bytes → World
unfolding read open_file
world now = record {
  add_watch = λ path. false;
  read_dir = read now;
  open_file = open_file now;
  stat = λ path. elim now [ none ↦ false | some _ ↦ true ];
}

abbrev feature : Option Bytes → Feature
feature content = record { name = codes "a"; host = codes "10"; data' = content }

abbrev made : Event
made = record { name = codes "/f/a/10"; create = true; remove = false }

abbrev gone : Event
gone = record { name = codes "/f/a/10"; create = false; remove = true }

abbrev before : List Case
before = delivered ∷ end_of_boot ∷ event (world (some (codes "2"))) made ∷ error ∷ delivered ∷ []

abbrev after : List Case
after = event (world none) gone ∷ []

abbrev outs : List Feature
outs = feature (some (codes "1")) ∷ feature (some (codes "2")) ∷ []

-- The second value is delivered, and the removal is queued.
watched :
    watch_loop names
      (codes "/f")
      (before ++ after)
      (boot_monitor names (world (some (codes "1"))) (codes "/f"))
    ≡ some (continues (record { queued = some (feature none) ∷ []; booted = true }), outs)
unfolding watch_loop boot_monitor handle_event host_event add_host remove_host contains_separator
    names world Text-discrete
watched = refl

-- No event is read before the end of the boot.
unread :
    watch_loop names
      (codes "/f")
      (after ++ [])
      (boot_monitor names (world (some (codes "1"))) (codes "/f"))
    ≡ none
unfolding watch_loop boot_monitor handle_event names world Text-discrete
unread = refl

unwatched :
    new_feature_monitor names
      (record {
        mkdir = λ path. true;
        is_dir = λ path. true;
        abs = λ path. some path;
        eval_symlinks = λ path. some path;
        new_watcher = true;
      })
      (world none)
      []
    ≡ err no_watcher
unfolding new_feature_monitor names Text-discrete
unwatched = refl

before-AllWatched : AllWatched (codes "/f") before
before-AllWatched = (inr (omega arith), tt)

after-AllWatched : AllWatched (codes "/f") after
after-AllWatched = (inr (omega arith), tt)

both-AllWatched : AllWatched (codes "/f") (before ++ after)
both-AllWatched = (inr (omega arith), (inr (omega arith), tt))

watch_loop-boot_monitor_example :
    FromBoot
      (initial_features names (world (some (codes "1"))) (codes "/f"))
      (seen names (codes "/f") (before ++ after))
      (continues (record { queued = some (feature none) ∷ []; booted = true }))
      outs
watch_loop-boot_monitor_example =
    watch_loop-boot_monitor names (codes "/f") (world (some (codes "1"))) (before ++ after)
      (continues (record { queued = some (feature none) ∷ []; booted = true })) outs both-AllWatched
      watched

file-IsFeatureFile : IsFeatureFile names (codes "/f") (codes "a") (codes "10") (codes "/f/a/10")
unfolding names contains_separator
file-IsFeatureFile = record { below = λ e. ground arith; deep = refl; named = refl; hosted = refl }

after-IsStable : IsStable names (codes "/f") (codes "a") (codes "10") (codes "/f/a/10") none after
unfolding names world Text-discrete
after-IsStable = (((refl, refl), (inl refl, tt)), tt)

watch_loop-converges_example :
    (told : List Feature) × (watch_loop names
        (codes "/f")
        ((before ++ after) ++ drain (some (feature none) ∷ []))
        (boot_monitor names (world (some (codes "1"))) (codes "/f"))
      ≡ some (continues (record { queued = []; booted = true }), told))
    × (last_said (codes "a") (codes "10") told ≡ some none)
watch_loop-converges_example =
    watch_loop-converges names (codes "/f") (codes "a") (codes "10") (codes "/f/a/10") none
      (world (some (codes "1"))) before after
      (record { queued = some (feature none) ∷ []; booted = true }) outs file-IsFeatureFile
      before-AllWatched after-AllWatched after-IsStable (inl (refl, refl)) watched
