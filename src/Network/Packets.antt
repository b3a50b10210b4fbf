-- ===== src/Network/Packets.antt =====
-- The rounds of the receive loop of service/io.go take up only what hosts have sent.
use mathlib.Core.Path.{subst}
use nameq.Base.{List, Option, ap, inl, inr, none, refl, some, true, ◌∙◌, ◌≡◌}
use nameq.Base.Int.{ℤ}
use nameq.Base.Text.{Text, Bytes}
use nameq.Base.Map.{lookup}
use nameq.Node.{Addr, Net, Node, Raw}
use nameq.Codec.{Codec, IsLawful, SameNode, map_raw}
use nameq.Packet.{Modes, packet_node}
use nameq.Packet.Faithful.{Authentic-marshal}
use nameq.Io.Receive.{Arrival, read_error, datagram, Receiver, accept, receive}
use nameq.Io.Receive.Sound.{Accepted, receive-sound}
use nameq.Network.{Form, Publication, CanArrive}
use nameq.Network.Made.{encoded_node, content_of, AllMade}
use nameq.Network.Trace.{RefusesLoopback, Tells, Trace, Traced, update-Traced}

map_compact_idem :
    (codec : Codec) (laws : IsLawful codec) (o : Option Raw)
    → map_raw codec.compact (map_raw codec.compact o) ≡ map_raw codec.compact o
map_compact_idem codec laws none = refl
map_compact_idem codec laws (some v) = ap some (laws.compact_idem v)

module _ (net : Net) (codec : Codec) (laws : IsLawful codec) (refuses : RefusesLoopback net) where
  SameNode-Tells :
      (p : Publication) (n : Node) → SameNode codec (packet_node p.local p.time) n → Tells codec p n
  SameNode-Tells p n same = record {
    ip_addr = same.ip_addr;
    time_ns = same.time_ns;
    features = λ k.
        ap (map_raw codec.compact) (same.features k)
        ∙ map_compact_idem codec laws (lookup k p.local.node.features);
  }

  Accepted-Trace :
      (modes : Modes) (prefix : Text) (sent : List Publication) (packet : Bytes) (origin : Addr)
      (now : ℤ) (n : Node)
      → AllMade codec prefix sent
      → CanArrive net codec sent modes (datagram packet origin now)
      → Accepted net codec modes packet origin now n
      → Trace codec sent n.ip_addr n
  Accepted-Trace modes prefix sent packet origin now n made (inr forged) a =
      absurd (forged n a.authentic)
  Accepted-Trace modes prefix sent packet origin now n made (inl (p, i, form, content)) a = record {
    keyed = refl;
    is_map = laws.decode-IsMap _ n a.authentic.decodes;
    not_loopback =
        λ q. cc (refuses.equal a.ip origin.ip (ap net.parse_ip q ∙ a.parses) a.matches, a.unicast);
    source = p;
    was_sent = i;
    tells = λ fits. SameNode-Tells p n (
        Authentic-marshal codec laws modes p.local p.time packet n
          (subst (λ (f : Form). codec.is_encodable (encoded_node f p.local p.time) ≡ true) form
            fits)
          (subst (λ (f : Form). content_of codec f p.local p.time ≡ some p.content) form
              (made p i).0
            ∙ ap some content)
          a.authentic);
  }

  pub receive-Traced :
      (modes : Modes) (prefix : Text) (sent : List Publication) (arrival : Arrival) (r : Receiver)
      → AllMade codec prefix sent
      → CanArrive net codec sent modes arrival
      → Traced codec sent r.remotes
      → Traced codec sent (receive net codec modes arrival r).receiver.remotes
  receive-Traced modes prefix sent read_error r made can t = unfold receive in t
  receive-Traced modes prefix sent (datagram packet origin now) r made can t =
      elim (receive-sound net codec modes packet origin now r) [
        | inl e ↦ rw e t
        | inr (n, a, e) ↦ rw e (
            unfold accept in
            update-Traced codec sent net n r.remotes
              (Accepted-Trace modes prefix sent packet origin now n made can a) t)
      ]
