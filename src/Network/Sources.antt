-- ===== src/Network/Sources.antt =====
-- The nodes of all tables come from what hosts have published.
use mathlib.Core.Path.{subst}
use nameq.Base.{Option-cases, arith, inl, inr, some, ℕ, ◌≡◌}
use nameq.Base.Text.{Text}
use nameq.Node.{Net, Node}
use nameq.Node.Remotes.{remote_at}
use nameq.Node.Remotes.Merge.{node_at}
use nameq.Codec.{Codec, IsLawful}
use nameq.Network.{scanned, Host, put_host-all, received, Network, Reach}
use nameq.Network.Step.{configure, sends, ends, receives, scans}
use nameq.Network.Reach.{here, next}
use nameq.Network.Made.{Reach-AllMade}
use nameq.Network.Trace.{RefusesLoopback, Trace, Traced, empty-Traced, append-Traced}
use nameq.Network.Packets.{receive-Traced}
use nameq.Network.Scans.{scan-Traced}

module _ (net : Net) (codec : Codec) (laws : IsLawful codec) (refuses : RefusesLoopback net) where
  -- The tables of all hosts have only nodes that hosts have sent.
  pub Reach-Traced :
      {s : Network} → Reach net codec s → (j : ℕ) → Traced codec s.sent (s.hosts j).receiver.remotes
  Reach-Traced (here {s = s} start) =
      λ j. empty-Traced codec s.sent (s.hosts j).receiver.remotes (start.unaware j)
  Reach-Traced (next {s = s} r (configure i new local update h)) =
      put_host-all (λ (x : Host). Traced codec s.sent x.receiver.remotes) i
        (record (s.hosts i) { local = local }) s (Reach-Traced r i) (Reach-Traced r)
  Reach-Traced (next {s = s} r (sends i new h)) =
      λ j. append-Traced codec new s.sent (s.hosts j).receiver.remotes (Reach-Traced r j)
  Reach-Traced (next {s = s} r (ends i new h)) =
      λ j. append-Traced codec new s.sent (s.hosts j).receiver.remotes (Reach-Traced r j)
  Reach-Traced (next {s = s} r (receives i arrival h)) =
      put_host-all (λ (x : Host). Traced codec s.sent x.receiver.remotes) i
        (received net codec arrival (s.hosts i)) s
        (receive-Traced net codec laws refuses (s.hosts i).modes s.prefix s.sent arrival
          (s.hosts i).receiver (Reach-AllMade net codec r) h (Reach-Traced r i))
        (Reach-Traced r)
  Reach-Traced (next {s = s} r (scans i client now objects result long can h)) =
      put_host-all (λ (x : Host). Traced codec s.sent x.receiver.remotes) i
        (scanned net codec result (s.hosts i)) s
        (scan-Traced net codec laws refuses s.sent (s.hosts i).local client s.prefix now objects
          (s.hosts i).receiver.remotes result (Reach-AllMade net codec r) long can h
          (Reach-Traced r i))
        (Reach-Traced r)

  -- Whatever the hosts do, and whatever packets are lost, repeated, delayed, reordered, sent on from
  -- elsewhere or made up without a secret of the receiver's, where only hosts write to the storage, each
  -- under its key: a node that a host's table has for an address is of that address, which is not the
  -- loopback address, and lists no feature twice; and some host has published, in a packet or in the
  -- storage, what the node comes from, which the node tells, with its address and its time, and up to
  -- white space in the values, if that could be encoded. This takes that the codec keeps its laws, and
  -- that the loopback address is no unicast one.
  pub node_at-Trace :
      (s : Network) (j : ℕ) (k : Text) (n : Node)
      → Reach net codec s
      → node_at (s.hosts j).receiver.remotes k ≡ some n
      → Trace codec s.sent k n
  node_at-Trace s j k n r h = elim (Option-cases (remote_at k (s.hosts j).receiver.remotes)) [
    | inl e ↦ absurd (ground arith)
    | inr (x, e) ↦
        let same : x.node ≡ n = ground arith in
        subst (λ (m : Node). Trace codec s.sent k m) same ((Reach-Traced r j).1 k x e)
  ]
