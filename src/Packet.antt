-- ===== src/Packet.antt =====
-- service/packet.go, and the two encoders of service/node.go: UDP packets, which are a mode byte, a
-- compressed JSON node and an HMAC-SHA1 digest of both.
pub mod Open
pub mod RoundTrip
pub mod Faithful
mod Tests
use nameq.Base.{
  ℕ, ◌-◌, ◌%◌, Bool, true, false, Option, none, some, List, [], ◌∷◌, ◌++◌, length, take, drop,
  if◌then◌else◌,
}
use nameq.Base.Int.{ℤ, pos, ◌-ℤ◌, ltb_ℤ}
use nameq.Base.Text.{Text, Bytes, codes, Text-discrete}
use nameq.Base.Result.{Result, ok, err}
use nameq.Node.{Node, Net, Addr, LocalNode, PacketMode}
use nameq.Node.Local.{empty_node}
use nameq.Codec.{Codec, whole}

-- `PacketCompressionDict`
abbrev pub packet_compression_dict : Bytes
packet_compression_dict =
    codes "{\"ip_addr\":\",\"time_ns\":,\"names\":[\",\"],\"features\":{\":true,\"}}}"

abbrev pub mode_id_length : ℕ
mode_id_length = 1

abbrev pub digest_length : ℕ
digest_length = 20

pub data PacketError : Type 0 where
  too_short : ℕ → PacketError
  unknown_mode : ℕ → PacketError
  inauthentic : ℕ → PacketError
  undecodable : PacketError

-- `modes[id]`, where a missing mode is nil.
abbrev pub Modes : Type 0
Modes = ℕ → Option PacketMode

-- The node that a packet carries at the time `now`.
abbrev pub packet_node : LocalNode → ℤ → Node
packet_node local now = record {
  ip_addr = local.ip_addr;
  time_ns = now;
  features = local.node.features;
}

unfoldable pub encode_for_packet : Codec → LocalNode → ℤ → Option Bytes
encode_for_packet codec local now = codec.encode_node (packet_node local now)

unfoldable pub marshal_for_storage : Codec → LocalNode → Option Bytes
marshal_for_storage codec local =
    elim (codec.indent_node (record empty_node { features = local.node.features })) [
      | none ↦ none
      | some json ↦ some (json ++ (0xa ∷ []))
    ]

-- A message with its digest behind it.
abbrev pub sealed : Codec → PacketMode → Bytes → Bytes
sealed codec mode message = message ++ codec.hmac_sha1 mode.secret message

unfoldable pub marshal_packet : Codec → LocalNode → ℤ → Option Bytes
unfolding encode_for_packet
marshal_packet codec local now = elim (encode_for_packet codec local now) [
  | none ↦ none
  | some json ↦
      some (
        sealed codec local.mode
          ((local.mode.id % 256) ∷ codec.deflate packet_compression_dict json))
]

-- `data[0]` of a slice that is not empty.
abbrev pub first_byte : Bytes → ℕ
first_byte [] = 0
first_byte (b ∷ _) = b

-- `hmac.Equal`
unfoldable pub bytes_equal : Bytes → Bytes → Bool
bytes_equal a b = elim (Text-discrete a b) [ yes _ ↦ true | no _ ↦ false ]

abbrev decoded : Option Node → Result PacketError Node
decoded none = err undecodable
decoded (some node) = ok node

-- Lengths are signed in the source: a packet may be shorter than its digest.
unfoldable pub unmarshal_packet : Codec → Modes → Bytes → Result PacketError Node
unfolding bytes_equal ◌-ℤ◌
unmarshal_packet codec modes data' =
    let compressed_length = (pos (length data') -ℤ pos digest_length) -ℤ pos mode_id_length in
    let message_length = length data' - digest_length in
    let mode_id = first_byte data' in
    let message = take message_length data' in
    let digest = drop message_length data' in
    if ltb_ℤ compressed_length (pos 1)
    then err (too_short (length data'))
    else elim (modes mode_id) [
      | none ↦ err (unknown_mode mode_id)
      | some mode ↦
          if bytes_equal (codec.hmac_sha1 mode.secret message) digest
          then decoded (
              codec.decode_node
                (codec.inflate packet_compression_dict (drop mode_id_length message)))
          else err (inauthentic mode_id)
    ]

pub data OriginError : Type 0 where
  bad_address : Text → OriginError
  mismatch : Text → Bytes → OriginError

-- `none` is no error.
unfoldable pub verify_packet_origin : Net → Node → Addr → Option OriginError
verify_packet_origin net node addr = elim (net.parse_ip node.ip_addr) [
  | none ↦ some (bad_address node.ip_addr)
  | some ip ↦ if net.ip_equal ip addr.ip then none else some (mismatch node.ip_addr addr.ip)
]
