-- ===== src/Network/Current.antt =====
-- What a table says of a host that has not changed its features for a while.
use mathlib.Core.Path.{subst}
use nameq.Base.{ℕ, ◌≡◌, ◌<◌, inl, inr, refl, sym, ap, ◌∙◌, true, Option, some, none, In, arith}
use nameq.Base.Int.{ℤ, ltb_ℤ, ◌≤ℤ◌}
use nameq.Base.Text.{Bytes}
use nameq.Base.Map.{lookup}
use nameq.Node.{Node, Net, Addr, LocalNode, PacketMode}
use nameq.Node.Remotes.Merge.{node_at, newer}
use nameq.Codec.{Codec, IsLawful, SameFeatures, map_raw}
use nameq.Io.{time_sub, latency_tolerance}
use nameq.Io.Receive.{Round, datagram}
use nameq.Io.Receive.Gossip.{Genuine, receive-marshal}
use nameq.Network.{
  Form, in_packet, after_packet, Host, Publication, Network, put_host-same, received, Reach,
}
use nameq.Network.Step.{receives}
use nameq.Network.Made.{encoded_node, content_of, Reach-AllMade}
use nameq.Network.Trace.{RefusesLoopback, IsFit}
use nameq.Network.Sources.{node_at-Trace}
use nameq.Network.Addresses.{ip_of, Reach-ip_addr}
use nameq.Network.Quiet.{Quiet-ip_addr, Quiet, Quiet-Reach, Quiet-sent}
use nameq.Network.Quiet.Quiet.{goes}

-- All that has been published can be encoded faithfully.
abbrev pub AllFit : Codec → Network → Type 0
AllFit codec s = (p : Publication) → In p s.sent → IsFit codec p

-- The time is later than that of all that the host has published.
abbrev pub IsNews : Network → ℕ → ℤ → Type 0
IsNews s i t = (p : Publication) → In p s.sent → p.host ≡ i → ltb_ℤ p.time t ≡ true

-- No two hosts have one address.
abbrev pub HaveOwn : Network → Type 0
HaveOwn s = (a b : ℕ) → ip_of s a ≡ ip_of s b → a ≡ b

-- The features are those of the local node of `i`, up to white space in the values.
abbrev pub Shows : Codec → Network → ℕ → Node → Type 0
Shows codec s i n = SameFeatures codec (s.hosts i).local.node.features n.features

newer-time : (n : Node) (o : Option Node) → n.time_ns ≤ℤ (newer n o).time_ns
newer-time n none = omega arith
newer-time n (some old) = ground arith

later : (a b c : ℤ) → ltb_ℤ a b ≡ true → b ≤ℤ c → ltb_ℤ a c ≡ true
later a b c h k = ground arith

module _ (net : Net) (codec : Codec) (laws : IsLawful codec) (refuses : RefusesLoopback net) where
  -- Once a host has stopped to change its features, a node of its address that another host's table
  -- has, and that is later than all that the host published before, shows the host's features as they
  -- are: whatever the hosts do, and whatever packets are lost, repeated, delayed, reordered or made up
  -- with no right HMAC, where no two hosts have one address, only hosts write to the storage, and what
  -- was published can be encoded. This takes that the codec keeps its laws, and that the loopback
  -- address is no unicast one.
  pub node_at-Shows :
      (i j : ℕ) (s s' : Network) (n : Node)
      → Reach net codec s
      → Quiet net codec i s s'
      → HaveOwn s
      → AllFit codec s'
      → node_at (s'.hosts j).receiver.remotes (ip_of s i) ≡ some n
      → IsNews s i n.time_ns
      → Shows codec s i n
  node_at-Shows i j s s' n r q own fit h news =
      let r' = Quiet-Reach net codec r q in
      let t = node_at-Trace net codec laws refuses s' j (ip_of s i) n r' h in
      let told = t.tells (fit t.source t.was_sent) in
      let sender : t.source.host ≡ i = own t.source.host i (
        sym (Quiet-ip_addr net codec q t.source.host)
        ∙ sym (Reach-ip_addr net codec r' t.source t.was_sent)
        ∙ sym told.ip_addr
        ∙ t.keyed) in
      elim (Quiet-sent net codec q t.source t.was_sent sender) [
        | inl old ↦ absurd (ground (arith, news t.source old sender, told.time_ns))
        | inr local ↦ λ f.
            told.features f
            ∙ ap (λ (x : LocalNode). map_raw codec.compact (lookup f x.node.features)) local
      ]

  -- After a host has stopped to change its features, it sends a packet that is later than all before,
  -- and a host that knows its mode, with a number below 256, and has the secret receives it within the
  -- tolerance, from the sender's address, a global unicast one. Then the receiver's table has a node
  -- that shows the sender's features as they are, where no two hosts have one address, only hosts write
  -- to the storage, what was published can be encoded, the codec keeps its laws, and the loopback
  -- address is no unicast one.
  pub after_packet-Shows :
      (i j : ℕ) (s s' : Network) (p : Publication) (origin : Addr) (now : ℤ) (mode : PacketMode)
      → Reach net codec s
      → Quiet net codec i s s'
      → HaveOwn s
      → AllFit codec s'
      → In p s'.sent
      → p.form ≡ in_packet
      → p.host ≡ i
      → IsNews s i p.time
      → p.local.mode.id < 256
      → (s'.hosts j).modes p.local.mode.id ≡ some mode
      → mode.secret ≡ p.local.mode.secret
      → Genuine net p.local.ip_addr origin
      → time_sub now p.time ≤ℤ latency_tolerance
      → (n : Node) × (node_at
            ((after_packet net codec s' j p origin now).hosts j).receiver.remotes
            (ip_of s i)
          ≡ some n)
        × Shows codec s i n
  after_packet-Shows i j s s' p origin now mode r q own fit sent form host news small known secret
        genuine in_time =
      let r' = Quiet-Reach net codec r q in
      let h = s'.hosts j in
      let a =
        receive-marshal net codec laws h.modes p.local p.time origin now h.receiver mode small known
          secret
          (subst (λ (f : Form). codec.is_encodable (encoded_node f p.local p.time) ≡ true) form
            (fit p sent))
          genuine in_time in
      let packet : a.delivered.data' ≡ p.content = cc (
        a.delivered.marshals,
        subst (λ (f : Form). content_of codec f p.local p.time ≡ some p.content) form
            (Reach-AllMade net codec r' p sent).0,
      ) in
      let n = newer a.delivered.node (node_at h.receiver.remotes p.local.ip_addr) in
      let address : p.local.ip_addr ≡ ip_of s i =
        Reach-ip_addr net codec r' p sent ∙ Quiet-ip_addr net codec q p.host ∙ ap (ip_of s) host in
      let round : received net codec (datagram p.content origin now) h
          ≡ record h { receiver = a.round.receiver } =
        ap (λ (b : Bytes). received net codec (datagram b origin now) h) (sym packet)
        ∙ ap (λ (x : Round). record h { receiver = x.receiver }) a.receives in
      let at : node_at ((after_packet net codec s' j p origin now).hosts j).receiver.remotes
            (ip_of s i)
          ≡ some n =
        ap (λ (x : Host). node_at x.receiver.remotes (ip_of s i))
          (put_host-same j (received net codec (datagram p.content origin now) h) s' ∙ round)
        ∙ ap (node_at a.round.receiver.remotes) (sym address)
        ∙ a.learns in
      let q' = goes q (receives j (datagram p.content origin now) (inl (p, sent, form, refl))) tt in
      (
        n,
        at,
        node_at-Shows i j s (after_packet net codec s' j p origin now) n r q' own fit at (λ x k e.
            later x.time p.time n.time_ns (news x k e) (
              subst (λ (z : ℤ). z ≤ℤ n.time_ns) a.delivered.same.time_ns
                (newer-time a.delivered.node (node_at h.receiver.remotes p.local.ip_addr)))),
      )
