-- ===== src/Demux/Tests.antt =====
-- Runs of a buffer, and the channels of concrete subscribers.
use nameq.Base.{◌≤◌, ◌≡◌, refl, ◌⊎◌, true, false, none, some, List, [], ◌∷◌, ◌++◌, arith, replicate}
use nameq.Base.Text.{Text, codes, Text-discrete}
use nameq.Base.Map.{lookup, insert}
use nameq.Demux.{
  Feature, FeatureDemux, new_buffer, Case, received, closed, sent, has_returned, run_buffer, add,
  outputs_of, forward,
}
use nameq.Demux.Buffer.{inputs_of, buffer_of, run_buffer-inputs, run_buffer-closed}
use nameq.Demux.Forward.{occurs}

abbrev foo : Feature
foo = record { name = codes "foo"; host = codes "1"; data' = some (codes "1") }

abbrev bar : Feature
bar = record { name = codes "bar"; host = codes "1"; data' = none }

abbrev cases : List Case
cases = received foo ∷ received bar ∷ sent ∷ closed ∷ sent ∷ []

cases_run : run_buffer cases new_buffer ≡ some (buffer_of [] false, foo ∷ bar ∷ [])
unfolding run_buffer
cases_run = refl

run_buffer-inputs_example :
    (inputs_of cases ≡ (foo ∷ bar ∷ []) ++ [])
    × ((has_returned (buffer_of [] false) ≡ false) ⊎ (inputs_of cases ≡ foo ∷ bar ∷ []))
run_buffer-inputs_example = run_buffer-inputs cases (buffer_of [] false) (foo ∷ bar ∷ []) cases_run

closed_run :
    run_buffer (sent ∷ []) (buffer_of (foo ∷ bar ∷ []) false)
    ≡ some (buffer_of (bar ∷ []) false, foo ∷ [])
unfolding run_buffer
closed_run = refl

run_buffer-closed_example :
    (1 ≤ 2)
    × (run_buffer (replicate 2 sent) (buffer_of (foo ∷ bar ∷ []) false)
        ≡ some (buffer_of [] false, foo ∷ bar ∷ []))
    × (has_returned (buffer_of [] false) ≡ true)
run_buffer-closed_example =
    run_buffer-closed (foo ∷ bar ∷ []) (sent ∷ []) (buffer_of (bar ∷ []) false) (foo ∷ [])
      closed_run

abbrev queues : FeatureDemux
queues = (codes "foo", 1 ∷ 2 ∷ []) ∷ []

queues-absent : (k : Text) → occurs 3 (outputs_of k queues) ≡ false
unfolding occurs lookup
queues-absent k = ground arith

forward_run :
    forward (add (codes "foo") 3 queues) (foo ∷ bar ∷ []) ≡ (1, foo) ∷ (2, foo) ∷ (3, foo) ∷ []
unfolding forward add lookup insert Text-discrete
forward_run = refl
