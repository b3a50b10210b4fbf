-- ===== src/Network/Trees.antt =====
-- From the features of one host to the files in the tree of another: service/state.go on top of the
-- rest.
use nameq.Base.{ℕ, ◌≡◌, ◌<◌, inl, refl, sym, ◌∙◌, false, some, In}
use nameq.Base.Int.{ℤ, ◌≤ℤ◌}
use nameq.Base.Text.{Text, Bytes}
use nameq.Base.Map.{lookup, IsMap}
use nameq.Base.Run.{returns}
use nameq.Node.{Raw, Net, Addr, PacketMode}
use nameq.Codec.{Codec, IsLawful}
use nameq.Io.{time_sub, latency_tolerance}
use nameq.Io.Receive.Gossip.{Genuine}
use nameq.State.{Tree, Disk, render, path_of, state_round}
use nameq.State.Writes.{Succeeds}
use nameq.State.Shown.{IsApart, IsRendered, state_round-shows}
use nameq.Io.Receive.{datagram}
use nameq.Network.Step.{receives}
use nameq.Network.Reach.{next}
use nameq.Network.{in_packet, after_packet, Publication, Network, Reach}
use nameq.Network.Trace.{RefusesLoopback}
use nameq.Network.Sources.{Reach-Traced, node_at-Trace}
use nameq.Network.Addresses.{ip_of}
use nameq.Network.Quiet.{Quiet, Quiet-Reach}
use nameq.Network.Current.{AllFit, HaveOwn, IsNews, after_packet-Shows}
use nameq.Network.Published.{
  remotes_of, local_of, Traced-IsOrderly, known-node, Published, render-compact, same_value_back,
  known-Published,
}

module _ (net : Net) (codec : Codec) (laws : IsLawful codec) (refuses : RefusesLoopback net) where
  module _ (disk : Disk) (dir : Text) (t : Tree) where
    -- Where only hosts write to the storage, and a packet is what a host has sent or has no right HMAC,
    -- a round of a host's state loop in which no call fails returns in every state of the network, and
    -- each file of the tree that it leaves has the rendered value of a feature of the host itself,
    -- under the loopback address, or of one that a host has published, under that host's address: where
    -- the host lists no feature twice, the values can be rendered, no two of the files share a path,
    -- what was published can be encoded, the codec keeps its laws, and the loopback address is no
    -- unicast one.
    pub state_round-Published :
        (s : Network) (j : ℕ)
        → Reach net codec s
        → AllFit codec s
        → IsMap (local_of s j).node.features
        → IsApart (local_of s j) (remotes_of s j) disk dir
        → IsRendered codec (local_of s j) (remotes_of s j)
        → ((path : Text) → Succeeds (disk.calls path))
        → ((path : Text) → (disk.walk path ≡ false) × ((disk.calls path).remove ≡ false))
        → (t' : Tree) × (state_round codec disk dir (local_of s j) (remotes_of s j) t ≡ returns t')
          × ((path : Text) (c : Bytes)
              → lookup path t'.files ≡ some c
              → (f : Text) × (k : Text) × (path_of disk dir f k ≡ path) × Published codec s j f k c)
    state_round-Published s j r fit maps apart rendered succeeds removes =
        let o = Traced-IsOrderly codec s j (Reach-Traced net codec laws refuses r j) maps in
        let (t', ran, _, only) =
          state_round-shows (local_of s j) (remotes_of s j) o codec disk dir t apart rendered
            succeeds removes in
        (
          t',
          ran,
          λ path c h.
              let (f, k, v, h', at, made) = only path c h in
              (f, k, at, known-Published net codec laws refuses s j f k v c r fit h' made),
        )

    -- From end to end: a host stops to change its features and then sends a packet that is later than
    -- all that it published before. Another host that knows the packet's mode, with a number below 256,
    -- and has its secret receives it within the tolerance, from the sender's address, which is a global
    -- unicast one. A round of that host's state loop in which no call fails then returns, and leaves for
    -- each feature of the sender a file with the rendered value, under the sender's address: whatever
    -- the hosts have done before, and whatever packets were lost, repeated, delayed, reordered or made
    -- up with no right HMAC, where no two hosts have one address, only hosts write to the storage, the
    -- receiver lists no feature of its own twice, what it knows can be rendered to files that do not
    -- share a path, what was published can be encoded, the codec keeps its laws, and the loopback
    -- address is no unicast one.
    pub after_packet-files :
        (i j : ℕ) (s s' : Network) (p : Publication) (origin : Addr) (now : ℤ) (mode : PacketMode)
        → Reach net codec s
        → Quiet net codec i s s'
        → HaveOwn s
        → AllFit codec s'
        → In p s'.sent
        → p.form ≡ in_packet
        → p.host ≡ i
        → IsNews s i p.time
        → p.local.mode.id < 256
        → (s'.hosts j).modes p.local.mode.id ≡ some mode
        → mode.secret ≡ p.local.mode.secret
        → Genuine net p.local.ip_addr origin
        → time_sub now p.time ≤ℤ latency_tolerance
        → let s'' = after_packet net codec s' j p origin now in
          IsMap (local_of s'' j).node.features
          → IsApart (local_of s'' j) (remotes_of s'' j) disk dir
          → IsRendered codec (local_of s'' j) (remotes_of s'' j)
          → ((path : Text) → Succeeds (disk.calls path))
          → ((path : Text) → (disk.walk path ≡ false) × ((disk.calls path).remove ≡ false))
          → (t' : Tree) × (state_round codec disk dir (local_of s'' j) (remotes_of s'' j) t
              ≡ returns t')
            × ((f : Text) (v : Raw)
                → lookup f (local_of s i).node.features ≡ some v
                → (c : Bytes) × (render codec v ≡ returns c)
                  × (lookup (path_of disk dir f (ip_of s i)) t'.files ≡ some c))
    after_packet-files i j s s' p origin now mode r q own fit sent form host news small known_mode
          secret genuine in_time maps apart rendered succeeds removes =
        let s'' = after_packet net codec s' j p origin now in
        let r'' : Reach net codec s'' =
          next (Quiet-Reach net codec r q)
            (receives j (datagram p.content origin now) (inl (p, sent, form, refl))) in
        let (n, at, shows) =
          after_packet-Shows net codec laws refuses i j s s' p origin now mode r q own fit sent form
            host news small known_mode secret genuine in_time in
        let remote =
          (node_at-Trace net codec laws refuses s'' j (ip_of s i) n r'' at).not_loopback in
        let o = Traced-IsOrderly codec s'' j (Reach-Traced net codec laws refuses r'' j) maps in
        let (t', ran, all, _) =
          state_round-shows (local_of s'' j) (remotes_of s'' j) o codec disk dir t apart rendered
            succeeds removes in
        (
          t',
          ran,
          λ f v h.
              let (w, there, same) =
                same_value_back codec laws f (local_of s i).node.features n.features v shows h in
              let (c, made, at_path) = all f (ip_of s i) w (
                known-node (local_of s'' j) (remotes_of s'' j) f (ip_of s i) n remote at ∙ there) in
              (c, render-compact codec laws v w (sym same) ∙ made, at_path),
        )
