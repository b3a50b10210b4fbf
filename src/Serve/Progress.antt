-- ===== src/Serve/Progress.antt =====
-- Notifications are carried on in a bounded number of actions, and `Serve` waits for its loops.
use nameq.Base.{ℕ, suc, ◌+◌, ◌<◌, ◌≤◌, ◌≡◌, Bool, true, false, arith, if◌then◌else◌}
use nameq.Serve.{take_notify, storage_done, transmit_done, is_serving}
use nameq.Serve.System.{System, Reader, Action, notify, select, is_enabled, act, Reach, here, next}
use nameq.Serve.Wakeups.{is_work}

abbrev weight : ℕ → Bool → ℕ
weight w b = if b then w else 0

abbrev reader_weight : Bool → Bool → Reader → ℕ
reader_weight forward token r = weight 3 forward + weight 2 token + weight 1 r.woken

-- What is still to be carried on, weighed.
abbrev pending_work : System → ℕ
pending_work s =
    weight 14 s.pending
    + weight 13 s.forwarder.notify
    + reader_weight s.forwarder.forward_state s.forwarder.notify_state s.state
    + reader_weight s.forwarder.forward_storage s.forwarder.notify_storage s.storage
    + reader_weight s.forwarder.forward_transmit s.forwarder.notify_transmit s.transmit

act-pending_work :
    (a : Action) (s : System)
    → is_work a ≡ true
    → is_enabled a s ≡ true
    → pending_work (act a s) < pending_work s
unfolding is_enabled act
act-pending_work notify s w e = ground arith
act-pending_work (select take_notify) s w e = ground arith
act-pending_work (select _) s w e = ground arith
act-pending_work _ s w e = ground arith

-- Some number of actions, each of which carries a notification on.
pub data Working : ℕ → System → System → Type 0 where
  idle : {s : System} → Working 0 s s
  work :
      {n : ℕ} {s t : System} (a : Action)
      → is_work a ≡ true
      → is_enabled a s ≡ true
      → Working n (act a s) t
      → Working (suc n) s t

Working-pending_work : {n : ℕ} {s t : System} → Working n s t → n ≤ pending_work s
Working-pending_work idle = omega arith
Working-pending_work (work {s = s} a w e rest) =
    omega (arith, act-pending_work a s w e, Working-pending_work rest)

pending_work-le : (s : System) → pending_work s ≤ 45
pending_work-le s = ground arith

-- Whatever the scheduler does, at most 45 actions carry notifications on before one of another kind
-- happens or nothing is left to be carried on.
pub Working-le : {n : ℕ} {s t : System} → Working n s t → n ≤ 45
Working-le {s} w = omega (arith, Working-pending_work w, pending_work-le s)

record Awaits (s : System) : Type 0 where
  storage : s.forwarder.await_storage ≡ false → s.storage.running ≡ false
  transmit : s.forwarder.await_transmit ≡ false → s.transmit.running ≡ false

act-Awaits : (a : Action) (s : System) → is_enabled a s ≡ true → Awaits s → Awaits (act a s)
unfolding is_enabled act
act-Awaits (select storage_done) s e h = ground (arith, h.storage, h.transmit)
act-Awaits (select transmit_done) s e h = ground (arith, h.storage, h.transmit)
act-Awaits (select _) s e h = ground (arith, h.storage, h.transmit)
act-Awaits _ s e h = ground (arith, h.storage, h.transmit)

Reach-Awaits : {s : System} → Reach s → Awaits s
Reach-Awaits here = record { storage = λ e. cc; transmit = λ e. cc }
Reach-Awaits (next {s = s} a r e) = act-Awaits a s e (Reach-Awaits r)

-- `Serve` leaves its loop only when the storage loop and the transmit loop have both ended.
pub is_serving-running :
    {s : System}
    → Reach s
    → is_serving s.forwarder ≡ false
    → (s.storage.running ≡ false) × (s.transmit.running ≡ false)
unfolding is_serving
is_serving-running r e =
    let w = Reach-Awaits r in (ground (arith, w.storage), ground (arith, w.transmit))
