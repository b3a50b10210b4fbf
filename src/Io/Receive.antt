-- ===== src/Io/Receive.antt =====
-- `receiveLoop`: one round for each datagram.
pub mod Sound
pub mod Gossip
use nameq.Base.{ℕ, Bool, true, false, Option, none, some, List, [], ◌∷◌, if◌then◌else◌}
use nameq.Base.Int.{ℤ, ltb_ℤ}
use nameq.Base.Text.{Bytes}
use nameq.Base.Result.{Result, ok, err}
use nameq.Node.{Node, Net, Addr, RemoteNodes}
use nameq.Node.Remotes.{update}
use nameq.Codec.{Codec}
use nameq.Packet.{Modes, unmarshal_packet, verify_packet_origin}
use nameq.Io.{time_sub, latency_tolerance}

-- What `ReadFromUDP` returns, and the time at which the packet's latency is measured.
pub data Arrival : Type 0 where
  read_error : Arrival
  datagram : Bytes → Addr → ℤ → Arrival

-- The table, and whether the state loop's channel, of capacity 1, holds a token.
pub record Receiver : Type 0 where
  pub remotes : RemoteNodes
  pub notified : Bool

-- `reply` is what the round sends on the reply channel at its end: the round waits there while the
-- channel is full.
pub record Round : Type 0 where
  pub receiver : Receiver
  pub reply : Option (List Addr)

abbrev pub skip : Receiver → Round
skip r = record { receiver = r; reply = none }

abbrev singleton : Option Addr → Option (List Addr)
singleton none = none
singleton (some addr) = some (addr ∷ [])

-- From `remotes.update` to the end of the round. The send to the state loop does not wait: a
-- channel that holds a token stays as it is.
unfoldable pub accept : Net → Node → Receiver → Round
accept net node r =
    let (remotes, new_addr) = update net node r.remotes in
    record { receiver = record { remotes = remotes; notified = true }; reply = singleton new_addr }

unfoldable pub check_latency : Net → Node → ℤ → Receiver → Round
unfolding accept
check_latency net node now r =
    if ltb_ℤ latency_tolerance (time_sub now node.time_ns) then skip r else accept net node r

unfoldable pub check_origin : Net → Node → Addr → ℤ → Receiver → Round
unfolding check_latency
check_origin net node origin now r = elim (verify_packet_origin net node origin) [
  | some _ ↦ skip r
  | none ↦ check_latency net node now r
]

unfoldable pub receive_packet : Net → Codec → Modes → Bytes → Addr → ℤ → Receiver → Round
unfolding check_origin
receive_packet net codec modes packet origin now r =
    if net.is_global_unicast origin.ip
    then (elim (unmarshal_packet codec modes packet) [
      | err _ ↦ skip r
      | ok node ↦ check_origin net node origin now r
    ])
    else skip r

unfoldable pub receive : Net → Codec → Modes → Arrival → Receiver → Round
unfolding receive_packet
receive net codec modes read_error r = skip r
receive net codec modes (datagram packet origin now) r =
    receive_packet net codec modes packet origin now r
