-- ===== src/Packet/Tests.antt =====
-- Packets at concrete data, with the sample encodings.
use nameq.Base.{ℕ, ◌≡◌, refl, none, some, [], ◌∷◌, ◌++◌, arith, ◌==◌, if◌then◌else◌}
use nameq.Base.Int.{pos}
use nameq.Base.Text.{Bytes, codes, Text-discrete}
use nameq.Base.Result.{ok, err}
use nameq.Node.{Node, LocalNode, PacketMode}
use nameq.Node.Local.{empty_node}
use nameq.Packet.{Modes, unknown_mode, inauthentic, marshal_packet, unmarshal_packet}
use nameq.Packet.Open.{Authentic, unmarshal_packet-Authentic}
use nameq.Packet.RoundTrip.{Delivered, unmarshal-marshal, unmarshal-marshal_large_id}
use nameq.Samples.{codec, codec-IsLawful}

abbrev mode_of : ℕ → PacketMode
mode_of id = record { id = id; secret = codes "swordfish" }

abbrev local_of : ℕ → LocalNode
local_of id = record {
  ip_addr = codes "10.0.0.1";
  conn = 3;
  mode = mode_of id;
  node = record empty_node { features = (codes "a", some (codes "true")) ∷ [] };
}

abbrev modes : Modes
modes id = if id == 7 then some (mode_of 7) else none

abbrev packet_of : ℕ → Bytes
packet_of id = elim (marshal_packet codec (local_of id) (pos 5)) [ none ↦ [] | some p ↦ p ]

abbrev expected : Node
expected = record (local_of 7).node { ip_addr = codes "10.0.0.1"; time_ns = pos 5 }

reads_its_own : unmarshal_packet codec modes (packet_of 7) ≡ ok expected
unfolding unmarshal_packet marshal_packet codec Text-discrete
reads_its_own = refl

tampered : unmarshal_packet codec modes (packet_of 7 ++ (0 ∷ [])) ≡ err (inauthentic 7)
unfolding unmarshal_packet marshal_packet codec Text-discrete
tampered = refl

other_mode : unmarshal_packet codec modes (packet_of 8) ≡ err (unknown_mode 8)
unfolding unmarshal_packet marshal_packet codec Text-discrete
other_mode = refl

unmarshal_packet-Authentic_example : Authentic codec modes (packet_of 7) expected
unmarshal_packet-Authentic_example =
    unmarshal_packet-Authentic codec modes (packet_of 7) expected reads_its_own

unmarshal-marshal_example : Delivered codec modes (local_of 7) (pos 5)
unfolding codec
unmarshal-marshal_example =
    unmarshal-marshal codec codec-IsLawful modes (local_of 7) (pos 5) (mode_of 7) (omega arith) refl
      refl refl

-- Mode number 263 is sent as 7.
abbrev large : Modes
large id = if id == 263 then some (mode_of 263) else none

unmarshal-marshal_large_id_example :
    unmarshal_packet codec large (packet_of 263) ≡ err (unknown_mode 7)
unfolding codec marshal_packet
unmarshal-marshal_large_id_example =
    unmarshal-marshal_large_id codec codec-IsLawful large (local_of 263) (pos 5) (omega arith)
      (λ i h. ground arith) (packet_of 263) refl refl
