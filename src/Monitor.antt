-- ===== src/Monitor.antt =====
-- go/nameq.go: FeatureMonitor, which turns the directory tree of the service into features on a
-- channel, first those that are there and then each change.
pub mod Queue
pub mod Stream
pub mod View
pub mod Drain
pub mod Told
pub mod Converge
mod Tests
use nameq.Base.{
  ℕ, suc, ◌==◌, ◌||◌, ◌&&◌, not, Bool, true, false, Option, none, some, List, [], ◌∷◌, ◌++◌, length,
  drop, ltb, ite, if◌then◌else◌,
}
use nameq.Base.Text.{Text, Bytes, codes, Text-discrete}
use nameq.Base.Result.{Result, ok, err}
use nameq.Demux.{Feature}

-- What is called of path/filepath and of net.
pub record Names : Type 0 where
  pub join : Text → Text → Text
  pub base : Text → Text
  pub dir : Text → Text
  pub parse_ip : Text → Option Bytes

-- What the calls on the file system and the watcher give at one moment: `true` of `add_watch` is an
-- error, `none` of `read_dir` and of `open_file` too; `some none` of `open_file` is an error of
-- `ioutil.ReadAll`, and `stat` is whether `os.Stat` finds the file.
pub record World : Type 0 where
  pub add_watch : Text → Bool
  pub read_dir : Text → Option (List Text)
  pub open_file : Text → Option (Option Bytes)
  pub stat : Text → Bool

-- `fsnotify.Event`, with two bits of its `Op`.
pub record Event : Type 0 where
  pub name : Text
  pub create : Bool
  pub remove : Bool

-- The field `queued`, in which nil marks the end of the boot, and whether `Boot` is closed.
pub record FeatureMonitor : Type 0 where
  pub queued : List (Option Feature)
  pub booted : Bool

abbrev pub enqueue : Option Feature → FeatureMonitor → FeatureMonitor
enqueue f m = record m { queued = m.queued ++ (f ∷ []) }

abbrev pub unstarted : FeatureMonitor
unstarted = record { queued = []; booted = false }

abbrev pub default_state_dir : Text
default_state_dir = codes "/run/nameq/state"

module _ (names : Names) (w : World) where
  unfoldable pub add_host : Text → Text → FeatureMonitor → FeatureMonitor
  add_host hostname path m = elim (names.parse_ip hostname) [
    | none ↦ m
    | some host ↦ elim (w.open_file path) [
      | none ↦ m
      | some none ↦ m
      | some (some content) ↦
          enqueue
            (some
              (record { name = names.base (names.dir path); host = host; data' = some content }))
            m
    ]
  ]

  unfoldable pub remove_host : Text → Text → FeatureMonitor → FeatureMonitor
  remove_host hostname path m = elim (names.parse_ip hostname) [
    | none ↦ m
    | some host ↦
        if w.stat path
        then m
        else enqueue
            (some (record { name = names.base (names.dir path); host = host; data' = none })) m
  ]

  -- An event of a file two levels down.
  unfoldable pub host_event : Event → FeatureMonitor → FeatureMonitor
  unfolding add_host remove_host
  host_event e m =
      let hostname = names.base e.name in
      let m' = if e.create then add_host hostname e.name m else m in
      if e.remove then remove_host hostname e.name m' else m'

  -- The loop of `addFeature`.
  unfoldable pub add_hosts : Text → List Text → FeatureMonitor → FeatureMonitor
  unfolding add_host
  add_hosts dir [] m = m
  add_hosts dir (info ∷ rest) m = add_hosts dir rest (add_host info (names.join dir info) m)

  unfoldable pub add_feature : Text → FeatureMonitor → FeatureMonitor
  unfolding add_hosts
  add_feature dir m =
      if w.add_watch dir
      then m
      else elim (w.read_dir dir) [ none ↦ m | some infos ↦ add_hosts dir infos m ]

  -- The loop of `NewFeatureMonitor`.
  unfoldable pub add_features : Text → List Text → FeatureMonitor → FeatureMonitor
  unfolding add_feature
  add_features feature_dir [] m = m
  add_features feature_dir (info ∷ rest) m =
      add_features feature_dir rest (add_feature (names.join feature_dir info) m)

  -- The end of `NewFeatureMonitor`, from the first reading of the directory on.
  unfoldable pub boot_monitor : Text → FeatureMonitor
  unfolding add_features
  boot_monitor feature_dir = enqueue none (elim (w.read_dir feature_dir) [
    | none ↦ unstarted
    | some infos ↦ add_features feature_dir infos unstarted
  ])

-- What the start of `NewFeatureMonitor` calls: `true` of `mkdir` and of `new_watcher` is an error, and
-- so is `none`; `is_dir` is whether `os.Stat` finds a directory.
pub record Setup : Type 0 where
  pub mkdir : Text → Bool
  pub is_dir : Text → Bool
  pub abs : Text → Option Text
  pub eval_symlinks : Text → Option Text
  pub new_watcher : Bool

pub data SetupError : Type 0 where
  no_directory no_path no_target no_watcher unwatchable : SetupError

-- The directory that is watched, and the monitor as its loop starts.
unfoldable pub new_feature_monitor :
    Names → Setup → World → Text → Result SetupError (Text × FeatureMonitor)
unfolding boot_monitor
new_feature_monitor names setup w state_dir =
    let given =
      names.join (ite (Text-discrete state_dir []) default_state_dir state_dir)
        (codes "features") in
    if setup.mkdir given && not (setup.is_dir given)
    then err no_directory
    else elim (setup.abs given) [
      | none ↦ err no_path
      | some path ↦ elim (setup.eval_symlinks path) [
        | none ↦ err no_target
        | some feature_dir ↦
            if setup.new_watcher
            then err no_watcher
            else if w.add_watch feature_dir
            then err unwatchable
            else ok (feature_dir, boot_monitor names w feature_dir)
      ]
    ]

-- What a round of `watchLoop` comes to; `panicked` is a slice out of range, or the second close of a
-- channel.
pub data Outcome : Type 0 where
  continues : FeatureMonitor → Outcome
  returned panicked : Outcome

unfoldable pub contains_separator : Text → Bool
contains_separator [] = false
contains_separator (c ∷ rest) = c == b'/' || contains_separator rest

-- What a round does: the end of the boot, or one of the cases of the `select` statement: an event in
-- a world, an error of the watcher, a reader of the channel, or `Close`.
pub data Case : Type 0 where
  end_of_boot : Case
  event : World → Event → Case
  error delivered closed : Case

abbrev pub deliver :
    List Feature → Option (Outcome × List Feature) → Option (Outcome × List Feature)
deliver out none = none
deliver out (some (o, outs)) = some (o, out ++ outs)

abbrev pub ended : List Case → Outcome → List Feature → Option (Outcome × List Feature)
ended [] o out = some (o, out)
ended (_ ∷ _) o out = none

-- What comes of a round, with the rounds that follow it.
abbrev pub proceed :
    List Case
    → Option (Outcome × List Feature)
    → (FeatureMonitor → Option (Outcome × List Feature))
    → Option (Outcome × List Feature)
proceed rest none next = none
proceed rest (some (continues m, out)) next = deliver out (next m)
proceed rest (some (returned, out)) next = ended rest returned out
proceed rest (some (panicked, out)) next = ended rest panicked out

module _ (names : Names) (feature_dir : Text) where
  unfoldable pub handle_event : World → Event → FeatureMonitor → Outcome
  handle_event w e m =
      ite (Text-discrete e.name feature_dir) (if e.remove then returned else continues m) (
        if ltb (length e.name) (suc (length feature_dir))
        then panicked
        else if contains_separator (drop (suc (length feature_dir)) e.name)
        then continues (host_event names w e m)
        else continues (add_feature names w e.name m))

  -- A round with this case, and what it delivers; `none` means that the case cannot happen: events
  -- are not read while a feature is queued, and before the end of the boot nothing else is done.
  unfoldable pub watch_round : Case → FeatureMonitor → Option (Outcome × List Feature)
  unfolding handle_event
  watch_round end_of_boot m = elim m.queued [
    | none ∷ rest ↦
        some
          (if m.booted then panicked else continues (record { queued = rest; booted = true }), [])
    | _ ↦ none
  ]
  watch_round (event w e) m = elim m.queued [ [] ↦ some (handle_event w e m, []) | _ ↦ none ]
  watch_round error m = elim m.queued [ none ∷ _ ↦ none | _ ↦ some (continues m, []) ]
  watch_round delivered m = elim m.queued [
    | some f ∷ rest ↦ some (continues (record m { queued = rest }), f ∷ [])
    | _ ↦ none
  ]
  watch_round closed m = elim m.queued [ none ∷ _ ↦ none | _ ↦ some (returned, []) ]

  -- The rounds of these cases: what they come to, and what they deliver, in order. No round follows
  -- one that returned or panicked.
  unfoldable pub watch_loop : List Case → FeatureMonitor → Option (Outcome × List Feature)
  unfolding watch_round
  watch_loop [] m = some (continues m, [])
  watch_loop (c ∷ rest) m = proceed rest (watch_round c m) (λ m'. watch_loop rest m')
