-- ===== src/Monitor/Stream.antt =====
-- What the loop of a monitor delivers: what was there at the start, then the end of the boot, then
-- what each event is about.
use mathlib.Core.Path.{subst}
use mathlib.Core.List.{append-nil}
use nameq.Base.{
  suc, ◌≤◌, ◌≡◌, refl, ap, sym, ◌∙◌, ◌⊎◌, inl, inr, Bool, true, false, Option, none, some, List, [],
  ◌∷◌, ◌++◌, length, drop, arith, ite, if◌then◌else◌,
}
use nameq.Base.Text.{Text, Text-discrete}
use nameq.Demux.{Feature}
use nameq.Monitor.{
  Names, World, Event, FeatureMonitor, Outcome, continues, returned, panicked, Case, end_of_boot,
  event, error, delivered, closed, boot_monitor, contains_separator, handle_event, watch_loop,
  deliver, ended,
}
use nameq.Monitor.Queue.{
  somes, enqueue_all, enqueue_all-nil, initial_features, event_features, dir_features,
  add_feature_lem, host_event_lem, boot_monitor_lem,
}

-- What one event puts on the queue.
unfoldable pub all_features : Names → Text → World → Event → List Feature
all_features names feature_dir w e = ite (Text-discrete e.name feature_dir) [] (
    if contains_separator (drop (suc (length feature_dir)) e.name)
    then event_features names w e
    else dir_features names w e.name)

-- What the events of the cases put on the queue.
unfoldable pub seen : Names → Text → List Case → List Feature
seen names feature_dir [] = []
seen names feature_dir (event w e ∷ rest) =
    all_features names feature_dir w e ++ seen names feature_dir rest
seen names feature_dir (end_of_boot ∷ rest) = seen names feature_dir rest
seen names feature_dir (error ∷ rest) = seen names feature_dir rest
seen names feature_dir (delivered ∷ rest) = seen names feature_dir rest
seen names feature_dir (closed ∷ rest) = seen names feature_dir rest

-- The events are of the watched directory, and of what is below it.
abbrev pub AllWatched : Text → List Case → Type 0
AllWatched feature_dir [] = Unit
AllWatched feature_dir (event w e ∷ rest) =
    ((e.name ≡ feature_dir) ⊎ (suc (length feature_dir) ≤ length e.name))
    × AllWatched feature_dir rest
AllWatched feature_dir (end_of_boot ∷ rest) = AllWatched feature_dir rest
AllWatched feature_dir (error ∷ rest) = AllWatched feature_dir rest
AllWatched feature_dir (delivered ∷ rest) = AllWatched feature_dir rest
AllWatched feature_dir (closed ∷ rest) = AllWatched feature_dir rest

abbrev pub queue_of : List (Option Feature) → Bool → FeatureMonitor
queue_of q b = record { queued = q; booted = b }

-- What is delivered, with what is pending, is what was pending and what was seen.
abbrev AfterBoot : List Feature → List Feature → Outcome → List Feature → Type 0
AfterBoot fs then_seen panicked outs = ⊥
AfterBoot fs then_seen returned outs =
    (pending : List Feature) × (fs ++ then_seen ≡ outs ++ pending)
AfterBoot fs then_seen (continues m) outs =
    (pending : List Feature) × (fs ++ then_seen ≡ outs ++ pending)
    × (m ≡ queue_of (somes pending) true)

-- The same from the start on, with the end of the boot in its place.
abbrev pub FromBoot : List Feature → List Feature → Outcome → List Feature → Type 0
FromBoot fs then_seen panicked outs = ⊥
FromBoot fs then_seen returned outs = (pending : List Feature) × (fs ++ then_seen ≡ outs ++ pending)
FromBoot fs then_seen (continues m) outs =
    (pending : List Feature) × (fs ++ then_seen ≡ outs ++ pending)
    × (((m ≡ record { queued = somes pending ++ (none ∷ []); booted = false }) × (then_seen ≡ []))
        ⊎ ((m ≡ record { queued = somes pending; booted = true })
            × ((late : List Feature) × (outs ≡ fs ++ late))))

abbrev Holds : (Outcome → List Feature → Type 0) → Option (Outcome × List Feature) → Type 0
Holds P none = Unit
Holds P (some (o, outs)) = P o outs

deliver-AfterBoot :
    (f : Feature) (fs then_seen : List Feature) (r : Option (Outcome × List Feature))
    → Holds (AfterBoot fs then_seen) r
    → Holds (AfterBoot (f ∷ fs) then_seen) (deliver (f ∷ []) r)
deliver-AfterBoot f fs then_seen none h = tt
deliver-AfterBoot f fs then_seen (some (panicked, outs)) h = h
deliver-AfterBoot f fs then_seen (some (returned, outs)) (p, e) =
    (p, ap (λ (l : List Feature). f ∷ l) e)
deliver-AfterBoot f fs then_seen (some (continues m, outs)) (p, e, q) =
    (p, ap (λ (l : List Feature). f ∷ l) e, q)

deliver-FromBoot :
    (f : Feature) (fs then_seen : List Feature) (r : Option (Outcome × List Feature))
    → Holds (FromBoot fs then_seen) r
    → Holds (FromBoot (f ∷ fs) then_seen) (deliver (f ∷ []) r)
deliver-FromBoot f fs then_seen none h = tt
deliver-FromBoot f fs then_seen (some (panicked, outs)) h = h
deliver-FromBoot f fs then_seen (some (returned, outs)) (p, e) =
    (p, ap (λ (l : List Feature). f ∷ l) e)
deliver-FromBoot f fs then_seen (some (continues m, outs)) (p, e, inl q) =
    (p, ap (λ (l : List Feature). f ∷ l) e, inl q)
deliver-FromBoot f fs then_seen (some (continues m, outs)) (p, e, inr (q, (late, l))) =
    (p, ap (λ (l : List Feature). f ∷ l) e, inr (q, (late, ap (λ (l : List Feature). f ∷ l) l)))

deliver-none :
    (P : Outcome → List Feature → Type 0) (r : Option (Outcome × List Feature))
    → Holds P r
    → Holds P (deliver [] r)
deliver-none P none h = h
deliver-none P (some (o, outs)) h = h

FromBoot-of_AfterBoot :
    (then_seen : List Feature) (r : Option (Outcome × List Feature))
    → Holds (AfterBoot [] then_seen) r
    → Holds (FromBoot [] then_seen) r
FromBoot-of_AfterBoot then_seen none h = tt
FromBoot-of_AfterBoot then_seen (some (panicked, outs)) h = h
FromBoot-of_AfterBoot then_seen (some (returned, outs)) h = h
FromBoot-of_AfterBoot then_seen (some (continues m, outs)) (p, e, q) = (p, e, inr (q, (outs, refl)))

ended-AfterBoot :
    (fs then_seen : List Feature) (rest : List Case)
    → Holds (AfterBoot fs then_seen) (ended rest returned [])
ended-AfterBoot fs then_seen [] = (fs ++ then_seen, refl)
ended-AfterBoot fs then_seen (_ ∷ _) = tt

ended-FromBoot :
    (fs then_seen : List Feature) (rest : List Case)
    → Holds (FromBoot fs then_seen) (ended rest returned [])
ended-FromBoot fs then_seen [] = (fs ++ then_seen, refl)
ended-FromBoot fs then_seen (_ ∷ _) = tt

module _ (names : Names) (feature_dir : Text) where
  handle_event_lem :
      (w : World) (e : Event) (m : FeatureMonitor)
      → (e.name ≡ feature_dir) ⊎ (suc (length feature_dir) ≤ length e.name)
      → (handle_event names feature_dir w e m ≡ returned)
        ⊎ (handle_event names feature_dir w e m
            ≡ continues (enqueue_all (all_features names feature_dir w e) m))
  unfolding handle_event all_features
  handle_event_lem w e m h =
      ground
        (arith, host_event_lem names w e m, add_feature_lem names w e.name m, enqueue_all-nil m)

  watch_loop-event_returned :
      (w : World) (e : Event) (rest : List Case)
      → handle_event names feature_dir w e (queue_of [] true) ≡ returned
      → watch_loop names feature_dir (event w e ∷ rest) (queue_of [] true) ≡ ended rest returned []
  unfolding watch_loop
  watch_loop-event_returned w e rest q = ground arith

  watch_loop-event_continues :
      (w : World) (e : Event) (rest : List Case) (m : FeatureMonitor)
      → handle_event names feature_dir w e (queue_of [] true) ≡ continues m
      → watch_loop names feature_dir (event w e ∷ rest) (queue_of [] true)
        ≡ deliver [] (watch_loop names feature_dir rest m)
  unfolding watch_loop
  watch_loop-event_continues w e rest m q = ground arith

  -- The rounds after the end of the boot.
  watch_loop-AfterBoot :
      (cases : List Case) (fs : List Feature)
      → AllWatched feature_dir cases
      → Holds
          (AfterBoot fs (seen names feature_dir cases))
          (watch_loop names feature_dir cases (queue_of (somes fs) true))
  unfolding watch_loop seen
  watch_loop-AfterBoot [] fs h = (fs, append-nil fs, refl)
  watch_loop-AfterBoot (end_of_boot ∷ rest) [] h = tt
  watch_loop-AfterBoot (end_of_boot ∷ rest) (f ∷ fs) h = tt
  watch_loop-AfterBoot (event w e ∷ rest) [] h =
      let m = queue_of [] true in
      let ih = watch_loop-AfterBoot rest (all_features names feature_dir w e) h.1 in
      elim (handle_event_lem w e m h.0) [
        | inl q ↦
            rw (watch_loop-event_returned w e rest q)
              (ended-AfterBoot [] (seen names feature_dir (event w e ∷ rest)) rest)
        | inr q ↦
            rw (watch_loop-event_continues w e rest _ q)
              (deliver-none (AfterBoot [] (seen names feature_dir (event w e ∷ rest))) _ ih)
      ]
  watch_loop-AfterBoot (event w e ∷ rest) (f ∷ fs) h = tt
  watch_loop-AfterBoot (error ∷ rest) [] h =
      deliver-none (AfterBoot [] (seen names feature_dir rest)) _ (watch_loop-AfterBoot rest [] h)
  watch_loop-AfterBoot (error ∷ rest) (f ∷ fs) h =
      deliver-none (AfterBoot (f ∷ fs) (seen names feature_dir rest)) _
        (watch_loop-AfterBoot rest (f ∷ fs) h)
  watch_loop-AfterBoot (delivered ∷ rest) [] h = tt
  watch_loop-AfterBoot (delivered ∷ rest) (f ∷ fs) h =
      deliver-AfterBoot f fs (seen names feature_dir rest) _ (watch_loop-AfterBoot rest fs h)
  watch_loop-AfterBoot (closed ∷ rest) [] h = ended-AfterBoot [] (seen names feature_dir rest) rest
  watch_loop-AfterBoot (closed ∷ rest) (f ∷ fs) h =
      ended-AfterBoot (f ∷ fs) (seen names feature_dir rest) rest

  -- The rounds from the start on.
  watch_loop-FromBoot :
      (cases : List Case) (fs : List Feature)
      → AllWatched feature_dir cases
      → Holds
          (FromBoot fs (seen names feature_dir cases))
          (watch_loop names feature_dir cases (queue_of (somes fs ++ (none ∷ [])) false))
  unfolding watch_loop seen
  watch_loop-FromBoot [] fs h = (fs, append-nil fs, inl (refl, refl))
  watch_loop-FromBoot (end_of_boot ∷ rest) [] h =
      deliver-none (FromBoot [] (seen names feature_dir rest)) _
        (FromBoot-of_AfterBoot (seen names feature_dir rest) _ (watch_loop-AfterBoot rest [] h))
  watch_loop-FromBoot (end_of_boot ∷ rest) (f ∷ fs) h = tt
  watch_loop-FromBoot (event w e ∷ rest) [] h = tt
  watch_loop-FromBoot (event w e ∷ rest) (f ∷ fs) h = tt
  watch_loop-FromBoot (error ∷ rest) [] h = tt
  watch_loop-FromBoot (error ∷ rest) (f ∷ fs) h =
      deliver-none (FromBoot (f ∷ fs) (seen names feature_dir rest)) _
        (watch_loop-FromBoot rest (f ∷ fs) h)
  watch_loop-FromBoot (delivered ∷ rest) [] h = tt
  watch_loop-FromBoot (delivered ∷ rest) (f ∷ fs) h =
      deliver-FromBoot f fs (seen names feature_dir rest) _ (watch_loop-FromBoot rest fs h)
  watch_loop-FromBoot (closed ∷ rest) [] h = tt
  watch_loop-FromBoot (closed ∷ rest) (f ∷ fs) h =
      ended-FromBoot (f ∷ fs) (seen names feature_dir rest) rest

holds_at :
    (P : Outcome → List Feature → Type 0) {r : Option (Outcome × List Feature)} (o : Outcome)
    (outs : List Feature)
    → r ≡ some (o, outs)
    → Holds P r
    → P o outs
holds_at P o outs e h = subst (Holds P) e h

-- Where every event is of the watched directory or below it, a monitor never panics, also not by
-- closing `Boot` twice. What it has delivered, with what is still queued, is what was there at the
-- start and then what the events were about, in order; `Boot` is closed only after all that was there
-- at the start is delivered, and no event is read before.
pub watch_loop-boot_monitor :
    (names : Names) (feature_dir : Text) (w : World) (cases : List Case) (o : Outcome)
    (outs : List Feature)
    → AllWatched feature_dir cases
    → watch_loop names feature_dir cases (boot_monitor names w feature_dir) ≡ some (o, outs)
    → FromBoot (initial_features names w feature_dir) (seen names feature_dir cases) o outs
watch_loop-boot_monitor names feature_dir w cases o outs h e =
    let fs = initial_features names w feature_dir in
    holds_at (FromBoot fs (seen names feature_dir cases)) o outs
      (ap (watch_loop names feature_dir cases) (sym (boot_monitor_lem names w feature_dir)) ∙ e)
      (watch_loop-FromBoot names feature_dir cases fs h)
