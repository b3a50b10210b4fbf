-- ===== src/Packet/Open.antt =====
-- What `unmarshalPacket` does with every packet.
use nameq.Base.{
  take_append, drop_append, ℕ, ◌-◌, ◌≤◌, ◌≡◌, refl, false, none, some, [], ◌∷◌, ◌++◌, length, take,
  drop, arith, length-append, length-take, length-drop, take-append-drop, ite, ◌<◌, Option-cases,
  inl, inr, dec_lt, sym, ◌∙◌,
}
use mathlib.Core.Path.{subst}
use nameq.Base.Int.{pos, ◌-ℤ◌, ltb_ℤ}
use nameq.Base.Text.{Bytes, Text-discrete}
use nameq.Base.Result.{Result, ok, err}
use nameq.Node.{Node, PacketMode}
use nameq.Codec.{Codec}
use nameq.Packet.{
  Modes, PacketError, too_short, unknown_mode, inauthentic, unmarshal_packet,
  packet_compression_dict, digest_length, decoded,
}

module _ (codec : Codec) (modes : Modes) where
  -- What a packet of a mode byte, a compressed body and a digest is taken for.
  unfoldable pub opened : ℕ → Bytes → Bytes → Result PacketError Node
  opened id body digest = elim (modes id) [
    | none ↦ err (unknown_mode id)
    | some mode ↦
        ite (Text-discrete (codec.hmac_sha1 mode.secret (id ∷ body)) digest)
          (decoded (codec.decode_node (codec.inflate packet_compression_dict body)))
          (err (inauthentic id))
  ]

  module _ (id : ℕ) (body digest : Bytes) (l : length digest ≡ digest_length) where
    abbrev packet : Bytes
    packet = id ∷ body ++ digest

    message_length : length packet - digest_length ≡ length (id ∷ body)
    message_length = omega (arith, length-append body digest)

    message : take (length packet - digest_length) packet ≡ id ∷ body
    message = rw message_length (take_append (length (id ∷ body)) (id ∷ body) digest refl)

    digest_of : drop (length packet - digest_length) packet ≡ digest
    digest_of = rw message_length (drop_append (length (id ∷ body)) (id ∷ body) digest refl)

    not_too_short :
        1 ≤ length body
        → ltb_ℤ ((pos (length packet) -ℤ pos digest_length) -ℤ pos 1) (pos 1) ≡ false
    unfolding ◌-ℤ◌
    not_too_short h = ground (arith, length-append body digest)

  -- A packet whose body is not empty and whose digest has its length is an unknown mode if there is
  -- no such mode, inauthentic if its digest is not the HMAC of what stands before it, undecodable if
  -- the decoder fails, and else the decoded node.
  pub unmarshal_packet-append :
      (id : ℕ) (body digest : Bytes)
      → 1 ≤ length body
      → length digest ≡ digest_length
      → unmarshal_packet codec modes (id ∷ body ++ digest) ≡ opened id body digest
  unfolding unmarshal_packet opened
  unmarshal_packet-append id body digest h l = ground (
    arith,
    message id body digest l,
    digest_of id body digest l,
    not_too_short id body digest l h,
  )

  -- A packet of fewer than 22 bytes is too short.
  pub unmarshal_packet-too_short :
      (data' : Bytes)
      → length data' < 22
      → unmarshal_packet codec modes data' ≡ err (too_short (length data'))
  unfolding unmarshal_packet ◌-ℤ◌
  unmarshal_packet-too_short data' h = ground arith

  -- The parts of an authentic packet.
  pub record Authentic (data' : Bytes) (node : Node) : Type 0 where
    pub id : ℕ
    pub body : Bytes
    pub mode : PacketMode
    pub parts : data' ≡ id ∷ body ++ codec.hmac_sha1 mode.secret (id ∷ body)
    pub body_length : 1 ≤ length body
    pub known : modes id ≡ some mode
    pub decodes : codec.decode_node (codec.inflate packet_compression_dict body) ≡ some node

  opened-ok :
      (id : ℕ) (body digest : Bytes) (node : Node)
      → 1 ≤ length body
      → opened id body digest ≡ ok node
      → Authentic (id ∷ body ++ digest) node
  opened-ok id body digest node h e = elim (Option-cases (modes id)) [
    | inl f ↦ absurd (unfold opened in ground arith)
    | inr (mode, f) ↦ record {
      id = id;
      body = body;
      mode = mode;
      parts = unfold opened in ground arith;
      body_length = h;
      known = f;
      decodes = unfold opened in ground arith;
    }
  ]

  -- Only authentic packets are accepted: one that is accepted ends in the HMAC of all that stands
  -- before it, under the secret of the mode that its first byte names, and its body decodes to
  -- the node.
  pub unmarshal_packet-Authentic :
      (data' : Bytes) (node : Node)
      → unmarshal_packet codec modes data' ≡ ok node
      → Authentic data' node
  unmarshal_packet-Authentic [] node e = absurd (ground (arith, unmarshal_packet-too_short []))
  unmarshal_packet-Authentic (id ∷ rest) node e = elim (dec_lt (length (id ∷ rest)) 22) [
    | yes h ↦ absurd (ground (arith, unmarshal_packet-too_short (id ∷ rest) h))
    | no h ↦
        let n : ℕ = length rest - digest_length in
        let e' = take-append-drop n rest in
        subst (λ (r : Bytes). Authentic (id ∷ r) node) e'
          (opened-ok id (take n rest) (drop n rest) node (omega (arith, length-take n rest)) (
            sym (
              unmarshal_packet-append id (take n rest) (drop n rest)
                (omega (arith, length-take n rest)) (omega (arith, length-drop n rest)))
            ∙ rw e' e))
  ]
