-- ===== src/Monitor/Drain.antt =====
-- A reader that goes on reading empties the queue of a monitor, and the rounds of two runs one after
-- the other.
use mathlib.Core.List.{append_assoc}
use nameq.Base.{
  ◌≡◌, ◌≢◌, refl, ap, sym, ◌∙◌, true, false, Option, none, some, List, [], ◌∷◌, ◌++◌, arith,
}
use nameq.Base.Text.{Text}
use nameq.Demux.{Feature}
use nameq.Monitor.{
  Names, FeatureMonitor, Outcome, continues, returned, panicked, Case, end_of_boot, event, error,
  delivered, closed, watch_round, watch_loop, deliver, ended, proceed,
}
use nameq.Monitor.Queue.{somes}
use nameq.Monitor.Stream.{all_features, seen, queue_of}

-- The cases of a reader that reads all that is queued.
unfoldable pub drain : List (Option Feature) → List Case
drain [] = []
drain (none ∷ rest) = end_of_boot ∷ drain rest
drain (some _ ∷ rest) = delivered ∷ drain rest

pub seen-append :
    (names : Names) (feature_dir : Text) (before after : List Case)
    → seen names feature_dir (before ++ after)
      ≡ seen names feature_dir before ++ seen names feature_dir after
unfolding seen
seen-append names feature_dir [] after = refl
seen-append names feature_dir (event w e ∷ rest) after =
    let fs = all_features names feature_dir w e in
    ap (λ (l : List Feature). fs ++ l) (seen-append names feature_dir rest after)
    ∙ sym (append_assoc fs (seen names feature_dir rest) (seen names feature_dir after))
seen-append names feature_dir (end_of_boot ∷ rest) after = seen-append names feature_dir rest after
seen-append names feature_dir (error ∷ rest) after = seen-append names feature_dir rest after
seen-append names feature_dir (delivered ∷ rest) after = seen-append names feature_dir rest after
seen-append names feature_dir (closed ∷ rest) after = seen-append names feature_dir rest after

deliver-deliver :
    (a b : List Feature) (r : Option (Outcome × List Feature))
    → deliver a (deliver b r) ≡ deliver (a ++ b) r
deliver-deliver a b none = refl
deliver-deliver a b (some (o, outs)) = rw (append_assoc a b outs) refl

deliver-nil : (r : Option (Outcome × List Feature)) → deliver [] r ≡ r
deliver-nil none = refl
deliver-nil (some (o, outs)) = refl

deliver_inv :
    (out : List Feature) (r : Option (Outcome × List Feature)) (o : Outcome) (outs : List Feature)
    → deliver out r ≡ some (o, outs)
    → (outs' : List Feature) × (r ≡ some (o, outs')) × (outs ≡ out ++ outs')
deliver_inv out none o outs p = cc
deliver_inv out (some (o', outs')) o outs p = (outs', ground arith, ground arith)

ended-returned :
    (rest : List Case) (out : List Feature) {m : FeatureMonitor} {outs : List Feature}
    → ended rest returned out ≢ some (continues m, outs)
ended-returned [] out = λ p. ground arith
ended-returned (_ ∷ _) out = λ p. ground arith

ended-panicked :
    (rest : List Case) (out : List Feature) {m : FeatureMonitor} {outs : List Feature}
    → ended rest panicked out ≢ some (continues m, outs)
ended-panicked [] out = λ p. ground arith
ended-panicked (_ ∷ _) out = λ p. ground arith

module _ (names : Names) (feature_dir : Text) where
  proceed-append :
      (rest after : List Case) (r : Option (Outcome × List Feature)) (m' : FeatureMonitor)
      (outs : List Feature)
      → proceed rest r (λ m. watch_loop names feature_dir rest m) ≡ some (continues m', outs)
      → ((m : FeatureMonitor) (outs' : List Feature)
          → watch_loop names feature_dir rest m ≡ some (continues m', outs')
          → watch_loop names feature_dir (rest ++ after) m
            ≡ deliver outs' (watch_loop names feature_dir after m'))
      → proceed (rest ++ after) r (λ m. watch_loop names feature_dir (rest ++ after) m)
        ≡ deliver outs (watch_loop names feature_dir after m')
  proceed-append rest after none m' outs p ih = cc
  proceed-append rest after (some (returned, out)) m' outs p ih = absurd (ended-returned rest out p)
  proceed-append rest after (some (panicked, out)) m' outs p ih = absurd (ended-panicked rest out p)
  proceed-append rest after (some (continues m, out)) m' outs p ih =
      let (outs', q, e) =
        deliver_inv out (watch_loop names feature_dir rest m) (continues m') outs p in
      ap (deliver out) (ih m outs' q)
      ∙ deliver-deliver out outs' _
      ∙ ap (λ (l : List Feature). deliver l (watch_loop names feature_dir after m')) (sym e)

  pub watch_loop-append :
      (cases after : List Case) (m m' : FeatureMonitor) (outs : List Feature)
      → watch_loop names feature_dir cases m ≡ some (continues m', outs)
      → watch_loop names feature_dir (cases ++ after) m
        ≡ deliver outs (watch_loop names feature_dir after m')
  unfolding watch_loop
  watch_loop-append [] after m m' outs e =
      let p : m ≡ m' = ground arith in
      let q : [] ≡ outs = ground arith in
      rw (← q, ← p) (sym (deliver-nil (watch_loop names feature_dir after m)))
  watch_loop-append (c ∷ rest) after m m' outs e =
      proceed-append rest after (watch_round names feature_dir c m) m' outs e
        (λ m₁ outs' q. watch_loop-append rest after m₁ m' outs' q)

  pub watch_loop-drain :
      (fs : List Feature)
      → watch_loop names feature_dir (drain (somes fs)) (queue_of (somes fs) true)
        ≡ some (continues (queue_of [] true), fs)
  unfolding watch_loop drain
  watch_loop-drain [] = refl
  watch_loop-drain (f ∷ fs) = rw (watch_loop-drain fs) refl

  pub watch_loop-drain_boot :
      (fs : List Feature)
      → watch_loop names feature_dir
          (drain (somes fs ++ (none ∷ [])))
          (queue_of (somes fs ++ (none ∷ [])) false)
        ≡ some (continues (queue_of [] true), fs)
  unfolding watch_loop drain
  watch_loop-drain_boot [] = refl
  watch_loop-drain_boot (f ∷ fs) = rw (watch_loop-drain_boot fs) refl
