-- ===== src/Storage/Scan.antt =====
-- A scan of the storage: which objects are deleted, and what the table says afterwards.
use mathlib.Core.Path.{subst}
use mathlib.Core.List.{Mem}
use nameq.Base.{
  All, ℕ, ◌≤◌, ◌≡◌, ◌≢◌, refl, ap, inl, inr, true, false, Option, none, some, List, [], ◌∷◌, length,
  drop, arith, Bool-cases,
}
use nameq.Base.Int.{ℤ, ltb_ℤ, ◌≤ℤ◌, ◌-ℤ◌}
use nameq.Base.Text.{Text, Bytes}
use nameq.Base.Run.{returns}
use nameq.Node.{Node, Net, LocalNode, RemoteNodes}
use nameq.Node.Remotes.{updatable, update, expire}
use nameq.Node.Remotes.Laws.{IsKeyed, update-IsKeyed}
use nameq.Node.Remotes.Expiry.{remote_at-expire, expire-IsKeyed}
use nameq.Node.Remotes.Merge.{
  update_all, update_all-newest, update_all-monotone, node_at, IsAtLeast,
}
use nameq.Codec.{Codec}
use nameq.Storage.{Object, Client, Keys, Scanned, expire_timeout, loaded_node, scan_objects}
use nameq.Storage.Loads.{loaded_nodes, mem-loaded_nodes, load_all-update_all}
use nameq.Storage.Sorted.{
  sorted, sort_objects-sorted, load_keys-long, classify-load, IsStale, mem-load_keys,
  delete_keys-IsStale,
}

update_all-IsKeyed :
    (net : Net) (ns : List Node) (remotes : RemoteNodes)
    → IsKeyed remotes
    → IsKeyed (update_all net ns remotes)
unfolding update_all
update_all-IsKeyed net [] remotes h = h
update_all-IsKeyed net (n ∷ ns) remotes h =
    update_all-IsKeyed net ns (update net n remotes).0 (update-IsKeyed net n remotes h)

-- A node, if there is one, is of the time or later.
abbrev pub IsRecent : ℤ → Option Node → Type 0
IsRecent t none = Unit
IsRecent t (some n) = t ≤ℤ n.time_ns

IsAtLeast-expire :
    (t u : ℤ) (remotes : RemoteNodes) (k : Text)
    → IsKeyed remotes
    → ltb_ℤ t u ≡ true
    → IsAtLeast u (node_at remotes k)
    → IsAtLeast u (node_at (expire t remotes) k)
IsAtLeast-expire t u remotes k h l a = ground (arith, remote_at-expire t remotes k h)

IsRecent-expire :
    (t : ℤ) (remotes : RemoteNodes) (k : Text)
    → IsKeyed remotes
    → IsRecent t (node_at (expire t remotes) k)
IsRecent-expire t remotes k h = ground (arith, remote_at-expire t remotes k h)

IsAtLeast-of_not-updatable :
    (remotes : RemoteNodes) (k : Text) (t : ℤ)
    → updatable remotes k t ≡ false
    → IsAtLeast t (node_at remotes k)
unfolding updatable
IsAtLeast-of_not-updatable remotes k t h = ground arith

loaded_node-ip_addr :
    (codec : Codec) (client : Client) (k key : Text) (node : Node)
    → loaded_node codec client k key ≡ some node
    → node.ip_addr ≡ k
unfolding loaded_node
loaded_node-ip_addr codec client k key node e = ground arith

IsAtLeast-weaken : (t u : ℤ) (o : Option Node) → t ≤ℤ u → IsAtLeast u o → IsAtLeast t o
IsAtLeast-weaken t u none h a = a
IsAtLeast-weaken t u (some n) h a = omega arith

-- A listed object that a scan has to take up: later than the threshold, under the key of another
-- host's address, and readable. What is read is not older than what was listed.
pub record IsFresh (net : Net) (local : LocalNode) (codec : Codec) (client : Client) (n : ℕ)
    (threshold : ℤ) (o : Object) : Type 0 where
  pub ip : Bytes
  pub node : Node
  pub named : drop n o.key ≢ []
  pub other : drop n o.key ≢ local.ip_addr
  pub parses : net.parse_ip (drop n o.key) ≡ some ip
  pub global : net.is_global_unicast ip ≡ true
  pub late : ltb_ℤ threshold o.last_modified ≡ true
  pub loads : loaded_node codec client (drop n o.key) o.key ≡ some node
  pub newer : o.last_modified ≤ℤ node.time_ns

module _ (net : Net) (codec : Codec) (local : LocalNode) (client : Client) (prefix : Text) (now : ℤ)
    (objects : List Object) (remotes : RemoteNodes)
    (prefixed : All (λ (o : Object). length prefix ≤ length o.key) objects) where
  abbrev pub n : ℕ
  n = length prefix

  abbrev pub threshold : ℤ
  threshold = now -ℤ expire_timeout

  abbrev pub keys : Keys
  keys = sorted net local remotes threshold n objects

  abbrev pub learned : RemoteNodes
  learned = update_all net (loaded_nodes codec client n keys.load_keys) remotes

  abbrev pub Returns : Scanned → Type 0
  Returns s = scan_objects net codec local client prefix now objects remotes ≡ returns s

  -- A scan returns, and has updated the table with what it loads, and then expired it.
  pub scan_objects_lem :
      (s : Scanned) × Returns s
      × (s.remotes ≡ expire threshold learned)
      × (s.deletes ≡ keys.delete_keys)
  unfolding scan_objects
  scan_objects_lem =
      let (l, e, same) =
        load_all-update_all codec client n net keys.load_keys
          (record { remotes = remotes; new_addrs = [] })
          (load_keys-long net local remotes threshold n objects prefixed) in
      (
        record {
          remotes = expire threshold l.remotes;
          deletes = keys.delete_keys;
          reply = l.new_addrs;
        },
        rw (sort_objects-sorted net local remotes threshold n objects prefixed, e) refl,
        ap (expire threshold) same,
        refl,
      )

  -- A scan returns if every listed key has the prefix, and it deletes only objects whose time was at
  -- the threshold or before, and never that of the local node.
  pub scan_objects-IsStale :
      (s : Scanned) × Returns s × All (IsStale net local remotes threshold n objects) s.deletes
  scan_objects-IsStale =
      let (s, e, _, d) = scan_objects_lem in
      (s, e, rw d (delete_keys-IsStale net local remotes threshold n objects))

  -- After a scan no node of the table is older than the threshold, where every listed key has the
  -- prefix, and the table had each node under its own address.
  pub scan_objects-IsRecent :
      (k : Text)
      → IsKeyed remotes
      → (s : Scanned) × Returns s × IsRecent threshold (node_at s.remotes k)
  scan_objects-IsRecent k h =
      let (s, e, r, _) = scan_objects_lem in
      (s, e, rw r (IsRecent-expire threshold learned k (update_all-IsKeyed net _ remotes h)))

  -- A scan keeps each node of the table under its own address.
  pub scan_objects-IsKeyed : IsKeyed remotes → (s : Scanned) × Returns s × IsKeyed s.remotes
  scan_objects-IsKeyed h =
      let (s, e, r, _) = scan_objects_lem in
      (s, e, rw r (expire-IsKeyed threshold learned (update_all-IsKeyed net _ remotes h)))

  learned-IsAtLeast :
      (o : Object)
      → Mem o objects
      → IsFresh net local codec client n threshold o
      → IsAtLeast o.last_modified (node_at learned (drop n o.key))
  learned-IsAtLeast o m f = elim (Bool-cases (updatable remotes (drop n o.key) o.last_modified)) [
    | inl e ↦
        let class =
          classify-load net local remotes threshold n o f.ip f.named f.other f.parses f.global
            f.late e in
        let loads = mem-load_keys net local remotes threshold n o objects class m in
        let mem = mem-loaded_nodes codec client n o.key f.node keys.load_keys f.loads loads in
        IsAtLeast-weaken o.last_modified f.node.time_ns _ f.newer (
          subst (λ (k : Text). IsAtLeast f.node.time_ns (node_at learned k))
            (loaded_node-ip_addr codec client (drop n o.key) o.key f.node f.loads)
            (update_all-newest net _ remotes f.node mem))
    | inr e ↦
        update_all-monotone net _ remotes o.last_modified (drop n o.key)
          (IsAtLeast-of_not-updatable remotes (drop n o.key) o.last_modified e)
  ]

  -- After a scan the address of each fresh object has a node of the object's time or a later one,
  -- where every listed key has the prefix, and the table had each node under its own address.
  pub scan_objects-IsAtLeast :
      (o : Object)
      → IsKeyed remotes
      → Mem o objects
      → IsFresh net local codec client n threshold o
      → (s : Scanned) × Returns s × IsAtLeast o.last_modified (node_at s.remotes (drop n o.key))
  scan_objects-IsAtLeast o h m f =
      let (s, e, r, _) = scan_objects_lem in
      (
        s,
        e,
        rw r (
            IsAtLeast-expire threshold o.last_modified learned (drop n o.key)
              (update_all-IsKeyed net _ remotes h) f.late (learned-IsAtLeast o m f)),
      )
