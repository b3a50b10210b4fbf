-- ===== src/Io/Receive/Gossip.antt =====
-- A packet of one node, received in time by another, brings its features there.
use nameq.Base.{◌≡◌, refl, true, ◌<◌, some, arith}
use mathlib.Core.Path.{subst}
use nameq.Base.Int.{ℤ, ◌≤ℤ◌}
use nameq.Base.Text.{Text, Bytes}
use nameq.Base.Result.{ok}
use nameq.Node.{Node, Net, Addr, LocalNode, PacketMode}
use nameq.Node.Remotes.Laws.{remote_at-update}
use nameq.Node.Remotes.Merge.{node_at, newer}
use nameq.Codec.{Codec, IsLawful}
use nameq.Packet.{Modes, unmarshal_packet, verify_packet_origin, packet_node}
use nameq.Packet.RoundTrip.{Delivered, unmarshal-marshal}
use nameq.Io.{time_sub, latency_tolerance}
use nameq.Io.Receive.{datagram, Receiver, Round, accept, receive}

-- What the receiver's network says of the sender's address and of the packet's origin.
pub record Genuine (net : Net) (ip_addr : Text) (origin : Addr) : Type 0 where
  pub ip : Bytes
  pub unicast : net.is_global_unicast origin.ip ≡ true
  pub parses : net.parse_ip ip_addr ≡ some ip
  pub matches : net.ip_equal ip origin.ip ≡ true

receive-accept :
    (net : Net) (codec : Codec) (modes : Modes) (packet : Bytes) (origin : Addr) (now : ℤ)
    (node : Node) (r : Receiver)
    → Genuine net node.ip_addr origin
    → unmarshal_packet codec modes packet ≡ ok node
    → time_sub now node.time_ns ≤ℤ latency_tolerance
    → receive net codec modes (datagram packet origin now) r ≡ accept net node r
unfolding receive verify_packet_origin
receive-accept net codec modes packet origin now node r g e late =
    ground (arith, g.unicast, g.parses, g.matches)

node_at-accept :
    (net : Net) (node : Node) (r : Receiver)
    → node_at (accept net node r).receiver.remotes node.ip_addr
      ≡ some (newer node (node_at r.remotes node.ip_addr))
unfolding accept
node_at-accept net node r = ground (arith, remote_at-update net node r.remotes node.ip_addr)

-- What a round has made of a packet of `local`.
pub record Learned (net : Net) (codec : Codec) (modes : Modes) (local : LocalNode) (sent : ℤ)
    (origin : Addr) (now : ℤ) (r : Receiver) : Type 0 where
  pub delivered : Delivered codec modes local sent
  pub round : Round
  pub receives : receive net codec modes (datagram delivered.data' origin now) r ≡ round
  pub notified : round.receiver.notified ≡ true
  pub learns :
      node_at round.receiver.remotes local.ip_addr
      ≡ some (newer delivered.node (node_at r.remotes local.ip_addr))

module _ (net : Net) (codec : Codec) (laws : IsLawful codec) (modes : Modes) (local : LocalNode)
    (sent : ℤ) (origin : Addr) (now : ℤ) (r : Receiver) (mode : PacketMode) where
  -- A host whose features can be encoded makes a packet of them with its mode, of a number below 256.
  -- A host that has that mode with the same secret receives it within the tolerance, from an origin
  -- that is a global unicast address and the sender's own. The receiver's table then has for the
  -- sender's address the node that the packet carries, or a later one that it had already, and the
  -- state loop is notified, where the codec keeps its laws.
  pub receive-marshal :
      local.mode.id < 256
      → modes local.mode.id ≡ some mode
      → mode.secret ≡ local.mode.secret
      → codec.is_encodable (packet_node local sent) ≡ true
      → Genuine net local.ip_addr origin
      → time_sub now sent ≤ℤ latency_tolerance
      → Learned net codec modes local sent origin now r
  receive-marshal small known secret fits genuine in_time =
      let d = unmarshal-marshal codec laws modes local sent mode small known secret fits in
      let same = d.same in
      let genuine' : Genuine net d.node.ip_addr origin = record {
        ip = genuine.ip;
        unicast = genuine.unicast;
        parses = rw same.ip_addr genuine.parses;
        matches = genuine.matches;
      } in
      record {
        delivered = d;
        round = accept net d.node r;
        receives =
            receive-accept net codec modes d.data' origin now d.node r genuine' d.unmarshals
              (rw same.time_ns in_time);
        notified = unfold accept in refl;
        learns =
            subst
              (λ (k : Text).
                node_at (accept net d.node r).receiver.remotes k
                ≡ some (newer d.node (node_at r.remotes k)))
              same.ip_addr (node_at-accept net d.node r);
      }
