-- ===== src/Io/Receive/Sound.antt =====
-- A round of the receive loop does nothing, or takes up a node that has passed every check.
use nameq.Base.{ap, ◌≢◌, ◌∙◌, ◌≡◌, ◌⊎◌, inl, inr, true, some, arith, Option-cases, Bool-cases}
use nameq.Base.Result.{Result-cases}
use nameq.Base.Int.{ℤ, ltb_ℤ, ◌≤ℤ◌}
use nameq.Base.Text.{Text, Bytes, Text-discrete}
use nameq.Base.Result.{ok}
use nameq.Node.{Node, Net, Addr}
use nameq.Node.Remotes.{remote_at}
use nameq.Node.Remotes.Laws.{IsKeyed, remote_at-update, update-IsKeyed}
use nameq.Codec.{Codec}
use nameq.Packet.{Modes, unmarshal_packet, verify_packet_origin}
use nameq.Packet.Open.{Authentic, unmarshal_packet-Authentic}
use nameq.Io.{time_sub, latency_tolerance}
use nameq.Io.Receive.{Arrival, read_error, datagram, Receiver, Round, skip, accept, receive}

module _ (net : Net) (codec : Codec) (modes : Modes) where
  -- The checks that a datagram has passed.
  pub record Accepted (packet : Bytes) (origin : Addr) (now : ℤ) (node : Node) : Type 0 where
    pub unicast : net.is_global_unicast origin.ip ≡ true
    pub authentic : Authentic codec modes packet node
    pub ip : Bytes
    pub parses : net.parse_ip node.ip_addr ≡ some ip
    pub matches : net.ip_equal ip origin.ip ≡ true
    pub fresh : time_sub now node.time_ns ≤ℤ latency_tolerance

  module _ (packet : Bytes) (origin : Addr) (now : ℤ) (r : Receiver) where
    abbrev round : Round
    round = receive net codec modes (datagram packet origin now) r

    -- The round does nothing, or what `accept` does with the node of an accepted datagram.
    abbrev Outcome : Type 0
    Outcome =
        (round ≡ skip r)
        ⊎ ((node : Node) × Accepted packet origin now node × (round ≡ accept net node r))

    with_node :
        (node : Node)
        → net.is_global_unicast origin.ip ≡ true
        → unmarshal_packet codec modes packet ≡ ok node
        → Outcome
    unfolding receive verify_packet_origin
    with_node node u e = elim (Option-cases (net.parse_ip node.ip_addr)) [
      | inl p ↦ inl (ground arith)
      | inr (ip, p) ↦ elim (Bool-cases (net.ip_equal ip origin.ip)) [
        | inr m ↦ inl (ground arith)
        | inl m ↦ elim (Bool-cases (ltb_ℤ latency_tolerance (time_sub now node.time_ns))) [
          | inl late ↦ inl (ground arith)
          | inr fresh ↦ inr (
            node,
            record {
              unicast = u;
              authentic = unmarshal_packet-Authentic codec modes packet node e;
              ip = ip;
              parses = p;
              matches = m;
              fresh = ground arith;
            },
            ground arith,
          )
        ]
      ]
    ]

    -- A round on a datagram changes nothing and sends nothing, or else the datagram has passed every
    -- check: its origin is a global unicast address, it is authentic, its node's address parses to
    -- that of the origin, its latency is tolerable, and the round is that of `accept` for the node.
    pub receive-sound : Outcome
    receive-sound = elim (Bool-cases (net.is_global_unicast origin.ip)) [
      | inr u ↦ inl (unfold receive in ground arith)
      | inl u ↦ elim (Result-cases (unmarshal_packet codec modes packet)) [
        | inl (error, e) ↦ inl (unfold receive in ground arith)
        | inr (node, e) ↦ with_node node u e
      ]
    ]

    remote_at-accept :
        (node : Node) (k : Text)
        → node.ip_addr ≢ k
        → remote_at k (accept net node r).receiver.remotes ≡ remote_at k r.remotes
    unfolding accept
    remote_at-accept node k h = ground (arith, remote_at-update net node r.remotes k)

    -- No host can speak for another: a datagram changes what the table says of an address only if
    -- it carries an accepted node of that address, and that address parses to the datagram's origin.
    pub receive-unforged :
        (k : Text)
        → remote_at k round.receiver.remotes ≢ remote_at k r.remotes
        → (node : Node) × Accepted packet origin now node × (node.ip_addr ≡ k)
    receive-unforged k changed = elim receive-sound [
      | inl e ↦ absurd (changed (ap (λ (x : Round). remote_at k x.receiver.remotes) e))
      | inr (node, accepted, e) ↦ elim (Text-discrete node.ip_addr k) [
        | yes p ↦ (node, accepted, p)
        | no p ↦ absurd (
            changed
              (ap (λ (x : Round). remote_at k x.receiver.remotes) e ∙ remote_at-accept node k p))
      ]
    ]

  accept-IsKeyed :
      (node : Node) (r : Receiver)
      → IsKeyed r.remotes
      → IsKeyed (accept net node r).receiver.remotes
  unfolding accept
  accept-IsKeyed node r h = update-IsKeyed net node r.remotes h

  -- Every round of the receive loop, whatever arrives, keeps the invariant of the table.
  pub receive-IsKeyed :
      (arrival : Arrival) (r : Receiver)
      → IsKeyed r.remotes
      → IsKeyed (receive net codec modes arrival r).receiver.remotes
  receive-IsKeyed read_error r h = unfold receive in h
  receive-IsKeyed (datagram packet origin now) r h = elim (receive-sound packet origin now r) [
    | inl e ↦ rw e h
    | inr (node, accepted, e) ↦ rw e (accept-IsKeyed node r h)
  ]
