-- ===== src/Io/Tests.antt =====
-- Rounds of the two loops at concrete data.
use mathlib.Core.List.Perm
use nameq.Base.{
  ap, sym, ◌∙◌, ◌≡◌, ◌≢◌, refl, ◌*◌, ◌+◌, false, none, some, List, [], ◌∷◌, arith, ◌==◌,
  if◌then◌else◌,
}
use nameq.Base.Int.{pos, ◌-ℤ◌}
use nameq.Base.Text.{Bytes, codes, Text-discrete}
use nameq.Base.Map.{lookup, insert}
use nameq.Base.Run.{panics}
use nameq.Node.{Node, Addr, LocalNode, PacketMode}
use nameq.Node.Local.{empty_node}
use nameq.Node.Remotes.{update, remote_at, addrs}
use nameq.Node.Remotes.Laws.{IsKeyed}
use nameq.Packet.{Modes, marshal_packet, unmarshal_packet, verify_packet_origin}
use nameq.Io.{time_sub, second}
use nameq.Io.Receive.{datagram, Receiver, Round, skip, accept, receive}
use nameq.Io.Receive.Sound.{Accepted, receive-unforged, receive-IsKeyed}
use nameq.Io.Receive.Gossip.{Learned, receive-marshal}
use nameq.Io.Transmit.{transmit, targets_of}
use nameq.Io.Transmit.Nil.{transmit-ipv6}
use nameq.Samples.{codec, codec-IsLawful}
use nameq.Samples.Net.{net, net-NeedsBrackets}

abbrev mode : PacketMode
mode = record { id = 7; secret = codes "swordfish" }

abbrev local : LocalNode
local = record {
  ip_addr = codes "10.0.0.1";
  conn = 3;
  mode = mode;
  node = record empty_node { features = (codes "a", some (codes "true")) ∷ [] };
}

abbrev modes : Modes
modes id = if id == 7 then some mode else none

abbrev packet : Bytes
packet = elim (marshal_packet codec local (pos 5)) [ none ↦ [] | some p ↦ p ]

abbrev origin : Addr
origin = record { ref = 1; ip = codes "10.0.0.1"; port = 17106 }

abbrev fresh_start : Receiver
fresh_start = record { remotes = record { port = 17106; ip_addrs = [] }; notified = false }

-- The round that takes up the packet.
abbrev expected : Node
expected = record local.node { ip_addr = codes "10.0.0.1"; time_ns = pos 5 }

takes_it_up :
    receive net codec modes (datagram packet origin (pos 9)) fresh_start
    ≡ accept net expected fresh_start
unfolding receive accept marshal_packet unmarshal_packet verify_packet_origin net codec time_sub
    Text-discrete
takes_it_up = refl

too_late :
    receive net codec modes (datagram packet origin (pos (15 * second + 6))) fresh_start
    ≡ skip fresh_start
unfolding receive accept marshal_packet unmarshal_packet verify_packet_origin net codec time_sub
    Text-discrete
too_late = refl

learnt :
    remote_at (codes "10.0.0.1") (accept net expected fresh_start).receiver.remotes
    ≢ remote_at (codes "10.0.0.1") fresh_start.remotes
unfolding accept update lookup insert Text-discrete
learnt = λ e. cc

table_changed :
    remote_at
      (codes "10.0.0.1")
      (receive net codec modes (datagram packet origin (pos 9)) fresh_start).receiver.remotes
    ≢ remote_at (codes "10.0.0.1") fresh_start.remotes
table_changed same =
    learnt
      (sym (ap (λ (x : Round). remote_at (codes "10.0.0.1") x.receiver.remotes) takes_it_up) ∙ same)

receive-unforged_example :
    (node : Node) × Accepted net codec modes packet origin (pos 9) node
    × (node.ip_addr ≡ codes "10.0.0.1")
receive-unforged_example =
    receive-unforged net codec modes packet origin (pos 9) fresh_start (codes "10.0.0.1")
      table_changed

empty-IsKeyed : IsKeyed fresh_start.remotes
unfolding lookup
empty-IsKeyed = record { is_map = tt; keyed = λ k remote e. absurd (ground arith) }

receive-IsKeyed_example :
    IsKeyed (receive net codec modes (datagram packet origin (pos 9)) fresh_start).receiver.remotes
receive-IsKeyed_example =
    receive-IsKeyed net codec modes (datagram packet origin (pos 9)) fresh_start empty-IsKeyed

receive-marshal_example : Learned net codec modes local (pos 5) origin (pos 9) fresh_start
unfolding net codec time_sub Text-discrete ◌-ℤ◌
receive-marshal_example =
    receive-marshal net codec codec-IsLawful modes local (pos 5) origin (pos 9) fresh_start mode
      (omega arith) refl refl refl
      (record { ip = codes "10.0.0.1"; unicast = refl; parses = refl; matches = refl })
      (omega arith)

abbrev two_addrs : List Addr
two_addrs = origin ∷ record { ref = 2; ip = codes "10.0.0.2"; port = 17106 } ∷ []

abbrev ipv6_node : Node
ipv6_node = record expected { ip_addr = codes "2001:db8::1" }

transmit-ipv6_example :
    transmit codec local
      (pos 9)
      (targets_of [] (update net ipv6_node fresh_start.remotes).0)
      (0 ∷ [])
    ≡ panics
unfolding update lookup targets_of addrs insert
transmit-ipv6_example =
    transmit-ipv6 net ipv6_node fresh_start.remotes refl net-NeedsBrackets refl codec local (pos 9)
      (0 ∷ []) (Perm.refl (0 ∷ []))
