-- ===== src/Demux.antt =====
-- go/demux.go: the queue of FeatureBuffer between two channels, and FeatureDemux, which forwards
-- features by their names.
pub mod Buffer
pub mod Forward
mod Tests
use nameq.Base.{Bool, true, false, Option, none, some, List, [], ◌∷◌, ◌++◌, ◌==◌, ℕ, if◌then◌else◌}
use nameq.Base.Text.{Text, Bytes}
use nameq.Base.Map.{Map, lookup, insert}

-- `data'` is nil for a feature that is gone.
pub record Feature : Type 0 where
  pub name : Text
  pub host : Bytes
  pub data' : Option Bytes

-- The variables of the goroutine of `FeatureBuffer`; `queue_open` is whether `queue` is not nil.
pub record FeatureBuffer : Type 0 where
  pub buffer : List Feature
  pub queue_open : Bool

abbrev pub new_buffer : FeatureBuffer
new_buffer = record { buffer = []; queue_open = true }

-- What the `select` statement may find: a feature on the queue, the end of the queue, or a reader of
-- the output.
pub data Case : Type 0 where
  received : Feature → Case
  closed : Case
  sent : Case

-- `len(buffer) == 0 && queue == nil`: the goroutine returns.
unfoldable pub has_returned : FeatureBuffer → Bool
has_returned b = elim b.buffer [ [] ↦ if b.queue_open then false else true | _ ∷ _ ↦ false ]

-- One round of the loop with this case: the variables after it, and the feature that it sends. `none`
-- means that the case cannot happen: its channel is nil.
unfoldable pub select : Case → FeatureBuffer → Option (FeatureBuffer × List Feature)
select (received f) b =
    if b.queue_open then some (record b { buffer = b.buffer ++ (f ∷ []) }, []) else none
select closed b = if b.queue_open then some (record b { queue_open = false }, []) else none
select sent b = elim b.buffer [
  | [] ↦ none
  | next ∷ rest ↦ some (record b { buffer = rest }, next ∷ [])
]

-- The rounds of these cases: the variables after them, and the features sent, in order.
unfoldable pub run_buffer : List Case → FeatureBuffer → Option (FeatureBuffer × List Feature)
unfolding select
run_buffer [] b = some (b, [])
run_buffer (c ∷ rest) b = elim (select c b) [
  | none ↦ none
  | some (b', out) ↦ elim (run_buffer rest b') [
    | none ↦ none
    | some (b'', outs) ↦ some (b'', out ++ outs)
  ]
]

-- The channels of each name; a channel is a number.
abbrev pub FeatureDemux : Type 0
FeatureDemux = Map (List ℕ)

-- `outputs[name]`, where no channels are nil.
abbrev pub outputs_of : Text → FeatureDemux → List ℕ
outputs_of name outputs = elim (lookup name outputs) [ none ↦ [] | some channels ↦ channels ]

unfoldable pub add : Text → ℕ → FeatureDemux → FeatureDemux
add name output queues = insert name (outputs_of name queues ++ (output ∷ [])) queues

-- The inner loop of `Start`: what is sent to which channel.
unfoldable pub send_to : Feature → List ℕ → List (ℕ × Feature)
send_to f [] = []
send_to f (output ∷ rest) = (output, f) ∷ send_to f rest

-- `Start`, over the features of the input up to its end.
unfoldable pub forward : FeatureDemux → List Feature → List (ℕ × Feature)
unfolding send_to
forward outputs [] = []
forward outputs (f ∷ rest) = send_to f (outputs_of f.name outputs) ++ forward outputs rest

-- The deferred function of `Start`: the channels that it closes.
unfoldable pub closings : FeatureDemux → List ℕ
closings [] = []
closings ((_, array) ∷ rest) = array ++ closings rest
