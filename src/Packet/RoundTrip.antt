-- ===== src/Packet/RoundTrip.antt =====
-- A packet that one node makes is read by another.
use nameq.Base.{ℕ, ◌%◌, ◌≤◌, ◌<◌, ◌≡◌, true, none, some, ◌∷◌, ◌++◌, arith, ◌∙◌, ◌≢◌}
use native.Mathlib.Nat.{mod-eq_of_lt}
use nameq.Base.Int.{ℤ}
use nameq.Base.Text.{Bytes}
use nameq.Base.Result.{ok, err}
use nameq.Node.{Node, LocalNode, PacketMode}
use nameq.Codec.{Codec, SameNode, IsLawful, Encoded}
use nameq.Packet.{
  Modes, unknown_mode, marshal_packet, unmarshal_packet, packet_node, packet_compression_dict,
}
use nameq.Packet.Open.{opened, unmarshal_packet-append}

-- A packet, and what a receiver with these modes takes it for.
pub record Delivered (codec : Codec) (modes : Modes) (local : LocalNode) (now : ℤ) : Type 0 where
  pub data' : Bytes
  pub node : Node
  pub marshals : marshal_packet codec local now ≡ some data'
  pub unmarshals : unmarshal_packet codec modes data' ≡ ok node
  pub same : SameNode codec (packet_node local now) node

module _ (codec : Codec) (laws : IsLawful codec) (modes : Modes) (local : LocalNode) (now : ℤ) where
  module _ (e : Encoded codec (packet_node local now)) where
    abbrev pub body : Bytes
    body = codec.deflate packet_compression_dict e.json

    abbrev pub id : ℕ
    id = local.mode.id % 256

    abbrev pub digest : Bytes
    digest = codec.hmac_sha1 local.mode.secret (id ∷ body)

    pub marshals : marshal_packet codec local now ≡ some (id ∷ body ++ digest)
    unfolding marshal_packet
    marshals = ground (arith, e.encodes)

    opens : unmarshal_packet codec modes (id ∷ body ++ digest) ≡ opened codec modes id body digest
    opens =
        unmarshal_packet-append codec modes id body digest
          (laws.length-deflate packet_compression_dict e.json)
          (laws.length-hmac_sha1 local.mode.secret (id ∷ body))

    opened_ok :
        (mode : PacketMode)
        → modes id ≡ some mode
        → mode.secret ≡ local.mode.secret
        → opened codec modes id body digest ≡ ok e.decoded
    unfolding opened
    opened_ok mode known secret =
        ground (arith, laws.inflate-deflate packet_compression_dict e.json, e.decodes)

  -- A node makes a packet from its features, and a receiver reads the same node from it, up to white
  -- space in the values: where the mode's number is a byte, the receiver knows a mode of that number
  -- with the same secret, and the features can be encoded.
  pub unmarshal-marshal :
      (mode : PacketMode)
      → local.mode.id < 256
      → modes local.mode.id ≡ some mode
      → mode.secret ≡ local.mode.secret
      → codec.is_encodable (packet_node local now) ≡ true
      → Delivered codec modes local now
  unmarshal-marshal mode small known secret fits =
      let e = laws.encode-decode (packet_node local now) fits in
      record {
        data' = id e ∷ body e ++ digest e;
        node = e.decoded;
        marshals = marshals e;
        unmarshals = opens e ∙ opened_ok e mode (rw (mod-eq_of_lt small) known) secret;
        same = e.same;
      }

  -- A mode number that is no byte is cut down to one: a receiver that knows the sender's mode by
  -- its number, and no other mode, takes each of the sender's packets for one of an unknown mode.
  pub unmarshal-marshal_large_id :
      256 ≤ local.mode.id
      → ((i : ℕ) → i ≢ local.mode.id → modes i ≡ none)
      → (data' : Bytes) → marshal_packet codec local now ≡ some data'
      → codec.is_encodable (packet_node local now) ≡ true
      → unmarshal_packet codec modes data' ≡ err (unknown_mode (local.mode.id % 256))
  unfolding opened
  unmarshal-marshal_large_id large only data' made fits =
      let e = laws.encode-decode (packet_node local now) fits in
      let p : data' ≡ id e ∷ body e ++ digest e = cc (made, marshals e) in
      rw p (opens e ∙ rw (only (id e) (omega arith), opened))
