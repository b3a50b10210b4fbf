-- ===== src/Network/Tests.antt =====
-- Two hosts of many at concrete data: one sends a packet, and another receives it.
mod Stored
use mathlib.Core.Path.{subst}
use nameq.Base.{
  inr, List, ℕ, ◌+◌, ◌≡◌, ap, refl, inl, false, none, some, [], ◌∷◌, ◌++◌, drop, In, arith, ◌==◌,
  if◌then◌else◌, ℕ_discrete,
}
use nameq.Base.Int.{pos, ◌-ℤ◌}
use nameq.Base.Text.{Text, Bytes, codes, Text-discrete}
use nameq.Base.Map.{lookup, insert, IsMap}
use nameq.Base.Run.{returns}
use nameq.Node.{Raw, Node, Addr, LocalNode, PacketMode}
use nameq.Node.Local.{empty_node}
use nameq.Node.Remotes.{update}
use nameq.Node.Remotes.Merge.{node_at}
use nameq.Packet.{Modes, marshal_packet, unmarshal_packet, verify_packet_origin, first_byte}
use nameq.Io.{time_sub}
use nameq.Io.Receive.{accept, receive, datagram}
use nameq.Io.Receive.Gossip.{Genuine}
use nameq.Io.Transmit.{transmit}
use nameq.State.{Tree, render, path_of, state_round}
use nameq.Network.{in_packet, Sending, Publication, Network, put_sent, publish, after_packet, Reach}
use nameq.Network.Sending.{transmits}
use nameq.Network.Step.{sends, receives}
use nameq.Network.Reach.{here, next}
use nameq.Network.Trace.{IsFit}
use nameq.Network.Addresses.{ip_of}
use nameq.Network.Quiet.{Quiet}
use nameq.Network.Quiet.Quiet.{stay, goes}
use nameq.Network.Current.{AllFit, HaveOwn, Shows, node_at-Shows}
use nameq.Network.Published.{Published}
use nameq.Network.Trees.{state_round-Published, after_packet-files}
use nameq.Samples.{codec, codec-IsLawful}
use nameq.Samples.Net.{net, net-RefusesLoopback}
use nameq.Samples.Disk.{disk, all_well-Succeeds, disk-IsApart, codec-IsRendered}

abbrev mode : PacketMode
mode = record { id = 7; secret = codes "swordfish" }

abbrev modes : Modes
modes id = if id == 7 then some mode else none

abbrev pub local : ℕ → LocalNode
local i = record {
  ip_addr = codes "10.0.0." ++ ((0x30 + i) ∷ []);
  conn = 3;
  mode = mode;
  node = record empty_node { features = (codes "a", some (codes "true")) ∷ [] };
}

abbrev pub start : Network
start = record {
  prefix = codes "p/";
  hosts = λ i. record {
    local = local i;
    modes = modes;
    receiver = record { remotes = record { port = 17106; ip_addrs = [] }; notified = false };
  };
  sent = [];
}

abbrev packet : Bytes
packet = elim (marshal_packet codec (local 1) (pos 5)) [ none ↦ [] | some p ↦ p ]

abbrev target : Addr
target = record { ref = 1; ip = codes "10.0.0.2"; port = 17106 }

abbrev origin : Addr
origin = record { ref = 2; ip = codes "10.0.0.1"; port = 17106 }

transmitted :
    transmit codec (local 1) (pos 5) (some target ∷ []) (0 ∷ []) ≡ returns ((packet, target) ∷ [])
unfolding transmit marshal_packet codec
transmitted = refl

abbrev new : List Publication
new = publish 1 (local 1) (pos 5) ((packet, target) ∷ [])

sending : Sending net codec start.prefix 1 (local 1) new
sending = transmits (pos 5) (some target ∷ []) (0 ∷ []) ((packet, target) ∷ []) transmitted

abbrev publication : Publication
publication = record {
  form = in_packet;
  host = 1;
  local = local 1;
  time = pos 5;
  key = [];
  content = packet;
}

abbrev after_send : Network
after_send = put_sent new start

after_send-Quiet : Quiet net codec 1 start after_send
after_send-Quiet = goes stay (sends 1 new sending) tt

pub start-Reach : Reach net codec start
start-Reach = here (record { silent = refl; unaware = λ j. refl })

start-HaveOwn : HaveOwn start
start-HaveOwn a b e =
    let last : 0x30 + a ≡ 0x30 + b = ap (λ (t : Text). first_byte (drop 7 t)) e in omega arith

is_published : In publication after_send.sent
unfolding publish
is_published = inl refl

fits : AllFit codec after_send
unfolding codec publish
fits p (inl e) = subst (IsFit codec) e refl
fits p (inr h) = elim h [ ]

genuine : Genuine net (local 1).ip_addr origin
unfolding net Text-discrete
genuine = record { ip = codes "10.0.0.1"; unicast = refl; parses = refl; matches = refl }

abbrev after : Network
after = after_packet net codec after_send 2 publication origin (pos 9)

abbrev expected : Node
expected = record (local 1).node { ip_addr = codes "10.0.0.1"; time_ns = pos 5 }

learnt : node_at (after.hosts 2).receiver.remotes (codes "10.0.0.1") ≡ some expected
unfolding receive accept marshal_packet unmarshal_packet verify_packet_origin net codec time_sub
    update lookup insert Text-discrete
learnt = refl

after-Reach : Reach net codec after
after-Reach =
    next (next start-Reach (sends 1 new sending))
      (receives 2 (datagram packet origin (pos 9)) (inl (publication, is_published, refl, refl)))

after-Quiet : Quiet net codec 1 start after
after-Quiet =
    goes after_send-Quiet
      (receives 2 (datagram packet origin (pos 9)) (inl (publication, is_published, refl, refl))) tt

node_at-Shows_example : Shows codec start 1 expected
node_at-Shows_example =
    node_at-Shows net codec codec-IsLawful net-RefusesLoopback 1 2 start after expected start-Reach
      after-Quiet start-HaveOwn fits learnt (λ p i h. elim i [ ])

abbrev no_files : Tree
no_files = record { files = []; temps = [] }

own-IsMap : IsMap (after.hosts 2).local.node.features
unfolding lookup ℕ_discrete
own-IsMap = (refl, tt)

state_round-Published_example :
    (t' : Tree) × (state_round codec disk
        (codes "f")
        (after.hosts 2).local
        (after.hosts 2).receiver.remotes
        no_files
      ≡ returns t')
    × ((path : Text) (c : Bytes)
        → lookup path t'.files ≡ some c
        → (f : Text) × (k : Text) × (path_of disk (codes "f") f k ≡ path)
          × Published codec after 2 f k c)
state_round-Published_example =
    state_round-Published net codec codec-IsLawful net-RefusesLoopback disk (codes "f") no_files
      after 2 after-Reach fits own-IsMap
      (disk-IsApart (after.hosts 2).local (after.hosts 2).receiver.remotes (codes "f"))
      (codec-IsRendered (after.hosts 2).local (after.hosts 2).receiver.remotes)
      (λ path. all_well-Succeeds) (λ path. (refl, refl))

after_packet-files_example :
    (t' : Tree) × (state_round codec disk
        (codes "f")
        (after.hosts 2).local
        (after.hosts 2).receiver.remotes
        no_files
      ≡ returns t')
    × ((f : Text) (v : Raw)
        → lookup f (start.hosts 1).local.node.features ≡ some v
        → (c : Bytes) × (render codec v ≡ returns c)
          × (lookup (path_of disk (codes "f") f (ip_of start 1)) t'.files ≡ some c))
unfolding time_sub ◌-ℤ◌
after_packet-files_example =
    after_packet-files net codec codec-IsLawful net-RefusesLoopback disk (codes "f") no_files 1 2
      start after_send publication origin (pos 9) mode start-Reach after_send-Quiet start-HaveOwn
      fits is_published refl refl (λ p i h. elim i [ ]) (omega arith) refl refl genuine
      (omega arith) own-IsMap
      (disk-IsApart (after.hosts 2).local (after.hosts 2).receiver.remotes (codes "f"))
      (codec-IsRendered (after.hosts 2).local (after.hosts 2).receiver.remotes)
      (λ path. all_well-Succeeds) (λ path. (refl, refl))
