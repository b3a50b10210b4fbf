-- ===== src/Serve/System.antt =====
-- The goroutines around the loop of `Serve`, as far as notifications go: the handler of the
-- configuration stores a new local node and then notifies; the state, storage and transmit loops
-- take a token and then read the local node.
use nameq.Base.{ℕ, ◌+◌, ◌≡◌, Bool, true, false, not, ◌&&◌}
use nameq.Serve.{Forwarder, Case, storage_done, transmit_done, start, is_serving, is_ready, fire}

-- A loop that reads the local node: whether it has taken a token and not read yet, the version of
-- the node that it read last, or 0, the version of the start, if it has read none yet, and whether it
-- has not ended.
pub record Reader : Type 0 where
  pub woken : Bool
  pub seen : ℕ
  pub running : Bool

-- `version` counts the stores of the local node, and `pending` says that the handler has stored one
-- and has not notified yet.
pub record System : Type 0 where
  pub forwarder : Forwarder
  pub version : ℕ
  pub pending : Bool
  pub state : Reader
  pub storage : Reader
  pub transmit : Reader

abbrev reader : Reader
reader = record { woken = false; seen = 0; running = true }

abbrev pub init : System
init = record {
  forwarder = start;
  version = 0;
  pending = false;
  state = reader;
  storage = reader;
  transmit = reader;
}

pub data Action : Type 0 where
  -- `local.setNode`, in `updateFeatures`
  store : Action
  -- the send to `notify` that does not wait, in the handler
  notify : Action
  -- the send to `notifyState` that does not wait, in the receive loop
  notify_remote : Action
  -- a case of the loop of `Serve`
  select : Case → Action
  take_state take_storage take_transmit : Action
  read_state read_storage read_transmit : Action
  -- the context is done
  end_storage end_transmit : Action

closed : Case → System → Bool
closed storage_done s = not s.storage.running
closed transmit_done s = not s.transmit.running
closed _ s = false

can_take : Bool → Reader → Bool
can_take token r = token && not r.woken && r.running

-- An action is possible. The handler stores a node only after its last notification.
unfoldable pub is_enabled : Action → System → Bool
unfolding closed can_take is_ready is_serving
is_enabled store s = not s.pending
is_enabled notify s = s.pending
is_enabled notify_remote s = true
is_enabled (select c) s = is_serving s.forwarder && is_ready c (closed c s) s.forwarder
is_enabled take_state s = can_take s.forwarder.notify_state s.state
is_enabled take_storage s = can_take s.forwarder.notify_storage s.storage
is_enabled take_transmit s = can_take s.forwarder.notify_transmit s.transmit
is_enabled read_state s = s.state.woken
is_enabled read_storage s = s.storage.woken
is_enabled read_transmit s = s.transmit.woken
is_enabled end_storage s = s.storage.running && not s.storage.woken
is_enabled end_transmit s = s.transmit.running && not s.transmit.woken

wake : Reader → Reader
wake r = record r { woken = true }

read : ℕ → Reader → Reader
read version r = record r { woken = false; seen = version }

stop : Reader → Reader
stop r = record r { running = false }

unfoldable pub act : Action → System → System
unfolding fire wake read stop
act store s = record s { version = s.version + 1; pending = true }
act notify s = record s { pending = false; forwarder = record s.forwarder { notify = true } }
act notify_remote s = record s { forwarder = record s.forwarder { notify_state = true } }
act (select c) s = record s { forwarder = fire c s.forwarder }
act take_state s = record s {
  forwarder = record s.forwarder { notify_state = false };
  state = wake s.state;
}
act take_storage s = record s {
  forwarder = record s.forwarder { notify_storage = false };
  storage = wake s.storage;
}
act take_transmit s = record s {
  forwarder = record s.forwarder { notify_transmit = false };
  transmit = wake s.transmit;
}
act read_state s = record s { state = read s.version s.state }
act read_storage s = record s { storage = read s.version s.storage }
act read_transmit s = record s { transmit = read s.version s.transmit }
act end_storage s = record s { storage = stop s.storage }
act end_transmit s = record s { transmit = stop s.transmit }

-- The states that some interleaving of the goroutines reaches.
pub data Reach : System → Type 0 where
  here : Reach init
  next : {s : System} (a : Action) → Reach s → is_enabled a s ≡ true → Reach (act a s)
