-- ===== src/Serve.antt =====
-- service/main.go: the parameters of `Serve`, and its loop, which hands one notification of the
-- configuration on to three loops.
pub mod Params
pub mod Start
pub mod System
pub mod Wakeups
pub mod Progress
mod Tests
use nameq.Base.{Bool, true, false, not, ◌&&◌, ◌||◌}

-- Whether each channel, of capacity 1, holds a token; whether each `forward` channel is not nil; and
-- whether each `done` channel is not nil.
pub record Forwarder : Type 0 where
  pub notify : Bool
  pub notify_state : Bool
  pub notify_storage : Bool
  pub notify_transmit : Bool
  pub forward_state : Bool
  pub forward_storage : Bool
  pub forward_transmit : Bool
  pub await_storage : Bool
  pub await_transmit : Bool

abbrev pub start : Forwarder
start = record {
  notify = false;
  notify_state = false;
  notify_storage = false;
  notify_transmit = false;
  forward_state = false;
  forward_storage = false;
  forward_transmit = false;
  await_storage = true;
  await_transmit = true;
}

-- The cases of the `select` statement.
pub data Case : Type 0 where
  take_notify send_state send_storage send_transmit storage_done transmit_done : Case

-- `for doneStorage != nil || doneTransmit != nil`
unfoldable pub is_serving : Forwarder → Bool
is_serving f = f.await_storage || f.await_transmit

-- A case is ready if its receive finds a token or a closed channel, or its send finds room. The
-- Boolean says whether the channel of that `done` case is closed.
unfoldable pub is_ready : Case → Bool → Forwarder → Bool
is_ready take_notify closed f = f.notify
is_ready send_state closed f = f.forward_state && not f.notify_state
is_ready send_storage closed f = f.forward_storage && not f.notify_storage
is_ready send_transmit closed f = f.forward_transmit && not f.notify_transmit
is_ready storage_done closed f = f.await_storage && closed
is_ready transmit_done closed f = f.await_transmit && closed

unfoldable pub fire : Case → Forwarder → Forwarder
fire take_notify f = record f {
  notify = false;
  forward_state = true;
  forward_storage = true;
  forward_transmit = true;
}
fire send_state f = record f { notify_state = true; forward_state = false }
fire send_storage f = record f { notify_storage = true; forward_storage = false }
fire send_transmit f = record f { notify_transmit = true; forward_transmit = false }
fire storage_done f = record f { await_storage = false }
fire transmit_done f = record f { await_transmit = false }
