-- ===== src/Serve/Wakeups.antt =====
-- No change of the configuration is missed by a loop.
use nameq.Base.{◌≡◌, refl, ◌∙◌, ◌⊎◌, Bool, true, false, ◌||◌, arith}
use nameq.Serve.{
  take_notify, send_state, send_storage, send_transmit, storage_done, transmit_done, is_serving,
}
use nameq.Serve.System.{
  System, Action, store, notify, select, take_state, take_storage, take_transmit, read_state,
  read_storage, read_transmit, is_enabled, act, Reach, here, next,
}

-- News of the last store is on its way to every loop.
abbrev on_the_way : System → Bool
on_the_way s = s.pending || s.forwarder.notify

-- A loop that has not read the last version is woken, or a token for it is on its way.
pub record NoneMissed (s : System) : Type 0 where
  pub state :
      (on_the_way s || s.forwarder.forward_state || s.forwarder.notify_state || s.state.woken)
        ≡ false
      → s.state.seen ≡ s.version
  pub storage :
      (on_the_way s || s.forwarder.forward_storage || s.forwarder.notify_storage || s.storage.woken)
        ≡ false
      → s.storage.seen ≡ s.version
  pub transmit :
      (on_the_way s
          || s.forwarder.forward_transmit
          || s.forwarder.notify_transmit
          || s.transmit.woken)
        ≡ false
      → s.transmit.seen ≡ s.version

act-NoneMissed :
    (a : Action) (s : System) → is_enabled a s ≡ true → NoneMissed s → NoneMissed (act a s)
unfolding is_enabled act
act-NoneMissed store s e h = ground (arith, h.state, h.storage, h.transmit)
act-NoneMissed (select take_notify) s e h = ground (arith, h.state, h.storage, h.transmit)
act-NoneMissed (select send_state) s e h = ground (arith, h.state, h.storage, h.transmit)
act-NoneMissed (select send_storage) s e h = ground (arith, h.state, h.storage, h.transmit)
act-NoneMissed (select send_transmit) s e h = ground (arith, h.state, h.storage, h.transmit)
act-NoneMissed (select _) s e h = ground (arith, h.state, h.storage, h.transmit)
act-NoneMissed _ s e h = ground (arith, h.state, h.storage, h.transmit)

Reach-NoneMissed : {s : System} → Reach s → NoneMissed s
Reach-NoneMissed here = record { state = λ _. refl; storage = λ _. refl; transmit = λ _. refl }
Reach-NoneMissed (next {s = s} a r e) = act-NoneMissed a s e (Reach-NoneMissed r)

-- The actions that carry a notification on; which of them are done, and when, is up to the scheduler.
abbrev pub is_work : Action → Bool
is_work notify = true
is_work (select storage_done) = false
is_work (select transmit_done) = false
is_work (select _) = true
is_work take_state = true
is_work take_storage = true
is_work take_transmit = true
is_work read_state = true
is_work read_storage = true
is_work read_transmit = true
is_work _ = false

-- Nothing is left to be carried on.
abbrev pub IsSettled : System → Type 0
IsSettled s = (a : Action) → is_work a ≡ true → is_enabled a s ≡ false

act-running : (a : Action) (s : System) → (act a s).state.running ≡ s.state.running
unfolding act
act-running store s = refl
act-running _ s = refl

state-running : {s : System} → Reach s → s.state.running ≡ true
state-running here = refl
state-running (next {s = s} a r e) = act-running a s ∙ state-running r

-- In every state that is reached while `Serve` loops, once nothing is left to be carried on, the
-- state loop has read the last version of the local node, if one was stored since the start, and so
-- have the storage and the transmit loop if they have not ended.
pub settled-seen :
    {s : System}
    → Reach s
    → is_serving s.forwarder ≡ true
    → IsSettled s
    → (s.state.seen ≡ s.version)
      × ((s.storage.running ≡ false) ⊎ (s.storage.seen ≡ s.version))
      × ((s.transmit.running ≡ false) ⊎ (s.transmit.seen ≡ s.version))
unfolding is_enabled
settled-seen {s} r serving idle =
    let m = Reach-NoneMissed r in
    let up = state-running r in
    let e₁ = idle notify refl in
    let e₂ = idle (select take_notify) refl in
    (
      ground (
        arith,
        m.state,
        idle (select send_state) refl,
        idle take_state refl,
        idle read_state refl,
      ),
      ground (
        arith,
        m.storage,
        idle (select send_storage) refl,
        idle take_storage refl,
        idle read_storage refl,
      ),
      ground (
        arith,
        m.transmit,
        idle (select send_transmit) refl,
        idle take_transmit refl,
        idle read_transmit refl,
      ),
    )
