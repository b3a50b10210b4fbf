-- ===== src/Demux/Buffer.antt =====
-- FeatureBuffer is an unbounded queue, and it ends.
use mathlib.Core.List.{append-nil, append_assoc}
use nameq.Base.{
  ℕ, ◌+◌, ◌≤◌, ◌≡◌, refl, ◌∙◌, ◌⊎◌, inl, inr, Bool, true, false, Option, none, some, List, [], ◌∷◌,
  ◌++◌, length, arith, replicate,
}
use nameq.Demux.{
  Feature, FeatureBuffer, new_buffer, Case, received, closed, sent, has_returned, select,
  run_buffer,
}

-- The features that come on the queue.
pub inputs_of : List Case → List Feature
inputs_of [] = []
inputs_of (received f ∷ rest) = f ∷ inputs_of rest
inputs_of (closed ∷ rest) = inputs_of rest
inputs_of (sent ∷ rest) = inputs_of rest

-- What a run has of the features that were there and that came: they are sent, or still there.
abbrev pub Kept : List Feature → Option (FeatureBuffer × List Feature) → Type 0
Kept fs none = Unit
Kept fs (some (b, outs)) = fs ≡ outs ++ b.buffer

abbrev pub buffer_of : List Feature → Bool → FeatureBuffer
buffer_of fs o = record { buffer = fs; queue_open = o }

run_buffer-Kept :
    (cases : List Case) (fs : List Feature) (o : Bool)
    → Kept (fs ++ inputs_of cases) (run_buffer cases (buffer_of fs o))
unfolding run_buffer inputs_of select
run_buffer-Kept [] fs o = append-nil fs
run_buffer-Kept (received f ∷ rest) fs true =
    ground
      (arith, run_buffer-Kept rest (fs ++ (f ∷ [])) true, append_assoc fs (f ∷ []) (inputs_of rest))
run_buffer-Kept (received f ∷ rest) fs false = tt
run_buffer-Kept (closed ∷ rest) fs true = ground (arith, run_buffer-Kept rest fs false)
run_buffer-Kept (closed ∷ rest) fs false = tt
run_buffer-Kept (sent ∷ rest) [] o = tt
run_buffer-Kept (sent ∷ rest) (f ∷ fs) o = ground (arith, run_buffer-Kept rest fs o)

returned_empty : (b : FeatureBuffer) → (has_returned b ≡ false) ⊎ (b.buffer ≡ [])
unfolding has_returned
returned_empty b = ground arith

-- Whatever the order in which features come, the queue ends and the output is read: what came is what
-- was sent and then what the buffer holds; and when the goroutine returns, all of it has been sent, in
-- order.
pub run_buffer-inputs :
    (cases : List Case) (b : FeatureBuffer) (outs : List Feature)
    → run_buffer cases new_buffer ≡ some (b, outs)
    → (inputs_of cases ≡ outs ++ b.buffer) × ((has_returned b ≡ false) ⊎ (inputs_of cases ≡ outs))
run_buffer-inputs cases b outs e =
    let h : inputs_of cases ≡ outs ++ b.buffer = ground (arith, run_buffer-Kept cases [] true) in
    (h, elim (returned_empty b) [ inl f ↦ inl f | inr f ↦ inr (h ∙ rw f (append-nil outs)) ])

-- Rounds after the end of the queue: each sends a feature of the buffer.
abbrev Drained : ℕ → ℕ → Option (FeatureBuffer × List Feature) → Type 0
Drained rounds n none = Unit
Drained rounds n (some (b, outs)) = rounds + length b.buffer ≡ n

run_buffer-Drained :
    (cases : List Case) (fs : List Feature)
    → Drained (length cases) (length fs) (run_buffer cases (buffer_of fs false))
unfolding run_buffer select
run_buffer-Drained [] fs = omega arith
run_buffer-Drained (received f ∷ rest) fs = tt
run_buffer-Drained (closed ∷ rest) fs = tt
run_buffer-Drained (sent ∷ rest) [] = tt
run_buffer-Drained (sent ∷ rest) (f ∷ fs) = ground (arith, run_buffer-Drained rest fs)

drain :
    (fs : List Feature)
    → run_buffer (replicate (length fs) sent) (buffer_of fs false) ≡ some (buffer_of [] false, fs)
unfolding run_buffer select
drain [] = refl
drain (f ∷ fs) = ground (arith, drain fs)

-- Once the queue has ended, no run has more rounds than there are features in the buffer; and a reader
-- that goes on reading gets exactly those, whereupon the goroutine returns.
pub run_buffer-closed :
    (fs : List Feature) (cases : List Case) (b : FeatureBuffer) (outs : List Feature)
    → run_buffer cases (buffer_of fs false) ≡ some (b, outs)
    → (length cases ≤ length fs)
      × (run_buffer (replicate (length fs) sent) (buffer_of fs false)
          ≡ some (buffer_of [] false, fs))
      × (has_returned (buffer_of [] false) ≡ true)
unfolding has_returned
run_buffer-closed fs cases b outs e = (ground (arith, run_buffer-Drained cases fs), drain fs, refl)
