-- ===== src/Serve/Tests.antt =====
-- The system of goroutines at concrete states.
use nameq.Base.{◌≤◌, ◌≡◌, refl, ◌⊎◌, true, false, none, [], arith}
use nameq.Base.Text.{codes}
use nameq.Node.{LocalNode, PacketMode}
use nameq.Node.Local.{empty_node}
use nameq.Serve.{
  take_notify, send_state, send_storage, send_transmit, storage_done, transmit_done, is_serving,
}
use nameq.Serve.Params.{Params}
use nameq.Serve.System.{
  System, store, notify, notify_remote, select, take_state, take_storage, take_transmit, read_state,
  read_storage, read_transmit, end_storage, end_transmit, is_enabled, act, init, Reach, here, next,
}
use nameq.Serve.Wakeups.{IsSettled, settled-seen}
use nameq.Serve.Progress.{idle, work, Working-le}

-- One change of the configuration, read by the three loops.
abbrev changed : System
changed = act read_transmit (
    act read_storage (
      act read_state (
        act take_transmit (
          act take_storage (
            act take_state (
              act (select send_transmit) (
                act (select send_storage) (
                  act (select send_state)
                    (act (select take_notify) (act notify (act store init)))))))))))

changed-Reach : Reach changed
unfolding is_enabled act
changed-Reach =
    next read_transmit
      (next read_storage
        (next read_state
          (next take_transmit
            (next take_storage
              (next take_state
                (next (select send_transmit)
                  (next (select send_storage)
                    (next (select send_state)
                      (next (select take_notify) (next notify (next store here refl) refl) refl)
                      refl)
                    refl)
                  refl)
                refl)
              refl)
            refl)
          refl)
        refl)
      refl

changed-IsSettled : IsSettled changed
unfolding is_enabled act
changed-IsSettled (select take_notify) w = refl
changed-IsSettled (select send_state) w = refl
changed-IsSettled (select _) w = ground arith
changed-IsSettled store w = cc
changed-IsSettled notify_remote w = cc
changed-IsSettled end_storage w = cc
changed-IsSettled end_transmit w = cc
changed-IsSettled _ w = refl

settled-seen_example :
    (changed.state.seen ≡ changed.version)
    × ((changed.storage.running ≡ false) ⊎ (changed.storage.seen ≡ changed.version))
    × ((changed.transmit.running ≡ false) ⊎ (changed.transmit.seen ≡ changed.version))
unfolding act is_serving
settled-seen_example = settled-seen changed-Reach refl changed-IsSettled

Working-le_example : 2 ≤ 45
unfolding is_enabled act
Working-le_example =
    Working-le
      (work {s = act store init} notify refl refl (work (select take_notify) refl refl idle))

abbrev ended : System
ended =
    act (select transmit_done) (act (select storage_done) (act end_transmit (act end_storage init)))

ended-Reach : Reach ended
unfolding is_enabled act
ended-Reach =
    next (select transmit_done)
      (next (select storage_done) (next end_transmit (next end_storage here refl) refl) refl) refl

abbrev mode : PacketMode
mode = record { id = 0; secret = codes "swordfish" }

abbrev params : Params
params = record {
  addr = codes "10.0.0.1";
  port = 0;
  features = [];
  feature_dir = [];
  state_dir = [];
  send_mode = mode;
  receive_modes = none;
  s3_creds = none;
  s3_region = [];
  s3_bucket = [];
  s3_prefix = [];
  s3_dry_run = true;
}

abbrev local : LocalNode
local = record { ip_addr = codes "10.0.0.1"; conn = 3; mode = mode; node = empty_node }
