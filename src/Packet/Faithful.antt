-- ===== src/Packet/Faithful.antt =====
-- A packet is not read as another node than the one that it was made of, whatever the receiver's modes
-- are.
use mathlib.Core.Path.{subst}
use nameq.Base.{
  take_append, ◌≡◌, refl, ap, sym, ◌∙◌, true, Option, none, some, [], ◌∷◌, ◌++◌, length, take,
  length-append, arith,
}
use nameq.Base.Int.{ℤ}
use nameq.Base.Text.{Bytes}
use nameq.Node.{Node, LocalNode}
use nameq.Codec.{Codec, SameNode, IsLawful}
use nameq.Packet.{Modes, marshal_packet, packet_node, packet_compression_dict}
use nameq.Packet.Open.{Authentic}
use nameq.Packet.RoundTrip.{marshals, body, id, digest}

abbrev tail_of : Bytes → Bytes
tail_of [] = []
tail_of (_ ∷ rest) = rest

-- Two messages with digests of one length have the same body.
body-eq : (a b : Bytes) (d e : Bytes) → length d ≡ length e → a ++ d ≡ b ++ e → a ≡ b
body-eq a b d e l h =
    let same : length a ≡ length b =
      omega (arith, length-append a d, length-append b e, ap length h) in
    sym (take_append (length a) a d refl)
    ∙ ap (take (length a)) h
    ∙ take_append (length a) b e (sym same)

bytes_in : Bytes → Option Bytes → Bytes
bytes_in d none = d
bytes_in d (some b) = b

-- A packet that a node has made of features that can be encoded, and that a receiver takes for
-- authentic, is read as the sender's node of that time, up to white space in the values.
pub Authentic-marshal :
    (codec : Codec) (laws : IsLawful codec) (modes : Modes) (local : LocalNode) (now : ℤ)
    (data' : Bytes) (node : Node)
    → codec.is_encodable (packet_node local now) ≡ true
    → marshal_packet codec local now ≡ some data'
    → Authentic codec modes data' node
    → SameNode codec (packet_node local now) node
unfolding bytes_in
Authentic-marshal codec laws modes local now data' node fits made a =
    let e = laws.encode-decode (packet_node local now) fits in
    let parts : id codec laws modes local now e
          ∷ (body codec laws modes local now e ++ digest codec laws modes local now e)
        ≡ a.id ∷ (a.body ++ codec.hmac_sha1 a.mode.secret (a.id ∷ a.body)) =
      ap (bytes_in []) (sym (marshals codec laws modes local now e) ∙ made) ∙ a.parts in
    let same =
      body-eq (body codec laws modes local now e) a.body (digest codec laws modes local now e)
        (codec.hmac_sha1 a.mode.secret (a.id ∷ a.body))
        (omega (
          arith,
          laws.length-hmac_sha1 local.mode.secret
              (id codec laws modes local now e ∷ body codec laws modes local now e),
          laws.length-hmac_sha1 a.mode.secret (a.id ∷ a.body),
        ))
        (ap tail_of parts) in
    let read : some e.decoded ≡ some node =
      sym e.decodes
      ∙ ap codec.decode_node (sym (laws.inflate-deflate packet_compression_dict e.json))
      ∙ ap (λ (b : Bytes). codec.decode_node (codec.inflate packet_compression_dict b)) same
      ∙ a.decodes in
    subst (SameNode codec (packet_node local now)) (cc read) e.same
