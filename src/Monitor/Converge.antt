-- ===== src/Monitor/Converge.antt =====
-- A monitor converges: once a file has stopped changing, and an event has told of it, a reader that
-- goes on reading is told last what the file says.
use nameq.Base.{◌≡◌, ap, sym, ◌∙◌, inl, inr, true, Option, some, List, [], ◌∷◌, ◌++◌}
use nameq.Base.Text.{Text, Bytes}
use nameq.Demux.{Feature}
use nameq.Monitor.{
  Names, World, FeatureMonitor, continues, Case, end_of_boot, event, error, delivered, closed,
  boot_monitor, watch_loop, deliver,
}
use nameq.Monitor.Queue.{initial_features}
use nameq.Monitor.Stream.{seen, AllWatched, queue_of, watch_loop-boot_monitor}
use nameq.Monitor.View.{last_said, last_said-append, last_said-Mentions}
use nameq.Monitor.Drain.{
  drain, seen-append, watch_loop-append, watch_loop-drain, watch_loop-drain_boot,
}
use nameq.Monitor.Told.{IsFeatureFile, IsStable, IsTold, seen-Says, seen-Mentions}

-- What a run from the start has delivered, once the reader has read on.
watch_loop-drained :
    (names : Names) (feature_dir : Text) (w : World) (cases : List Case) (m : FeatureMonitor)
    (outs : List Feature)
    → AllWatched feature_dir cases
    → watch_loop names feature_dir cases (boot_monitor names w feature_dir)
      ≡ some (continues m, outs)
    → watch_loop names feature_dir (cases ++ drain m.queued) (boot_monitor names w feature_dir)
      ≡ some (
        continues (queue_of [] true),
        initial_features names w feature_dir ++ seen names feature_dir cases,
      )
watch_loop-drained names feature_dir w cases m outs h e =
    let (pending, all, shape) =
      watch_loop-boot_monitor names feature_dir w cases (continues m) outs h e in
    watch_loop-append names feature_dir cases (drain m.queued) _ m outs e
    ∙ (elim shape [
      | inl (q, _) ↦ rw q (ap (deliver outs) (watch_loop-drain_boot names feature_dir pending))
      | inr (q, _) ↦ rw q (ap (deliver outs) (watch_loop-drain names feature_dir pending))
    ])
    ∙ ap (λ (l : List Feature). some (continues (queue_of [] true), l)) (sym all)

AllWatched-append :
    (feature_dir : Text) (before after : List Case)
    → AllWatched feature_dir before
    → AllWatched feature_dir after
    → AllWatched feature_dir (before ++ after)
AllWatched-append feature_dir [] after h k = k
AllWatched-append feature_dir (event w e ∷ rest) after h k =
    (h.0, AllWatched-append feature_dir rest after h.1 k)
AllWatched-append feature_dir (end_of_boot ∷ rest) after h k =
    AllWatched-append feature_dir rest after h k
AllWatched-append feature_dir (error ∷ rest) after h k =
    AllWatched-append feature_dir rest after h k
AllWatched-append feature_dir (delivered ∷ rest) after h k =
    AllWatched-append feature_dir rest after h k
AllWatched-append feature_dir (closed ∷ rest) after h k =
    AllWatched-append feature_dir rest after h k

-- Let the file of a feature of a host have a content, or be absent, whenever an event is handled from
-- some moment on, let an event then tell of it, and let no other file that is read stand for the same
-- feature and host. Whatever the rounds before and after, if the monitor is not closed, a reader that
-- reads all that is queued has been told last what the file says.
pub watch_loop-converges :
    (names : Names) (feature_dir name : Text) (host : Bytes) (path : Text) (value : Option Bytes)
    (w : World) (before after : List Case) (m : FeatureMonitor) (outs : List Feature)
    → IsFeatureFile names feature_dir name host path
    → AllWatched feature_dir before
    → AllWatched feature_dir after
    → IsStable names feature_dir name host path value after
    → IsTold names feature_dir name host path value after
    → watch_loop names feature_dir (before ++ after) (boot_monitor names w feature_dir)
      ≡ some (continues m, outs)
    → (told : List Feature) × (watch_loop names feature_dir
          ((before ++ after) ++ drain m.queued)
          (boot_monitor names w feature_dir)
        ≡ some (continues (record { queued = []; booted = true }), told))
      × (last_said name host told ≡ some value)
watch_loop-converges names feature_dir name host path value w before after m outs f h k s t e =
    let initial = initial_features names w feature_dir in
    let first = seen names feature_dir before in
    let last = seen names feature_dir after in
    let said : last_said name host last ≡ some value =
      last_said-Mentions name host value last
        (seen-Says names feature_dir name host path value after s)
        (seen-Mentions names feature_dir name host path value after f s t) in
    (
      initial ++ seen names feature_dir (before ++ after),
      watch_loop-drained names feature_dir w (before ++ after) m outs
          (AllWatched-append feature_dir before after h k) e,
      last_said-append name host initial _ value (
          rw (seen-append names feature_dir before after)
            (last_said-append name host first last value said)),
    )
