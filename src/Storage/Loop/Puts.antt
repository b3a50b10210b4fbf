-- ===== src/Storage/Loop/Puts.antt =====
-- What the storage loop puts under the key of the local node.
use mathlib.Core.List.{append-nil, append_assoc}
use nameq.Base.{
  All, ◌≤◌, ◌≡◌, refl, ap, sym, ◌∙◌, ◌⊎◌, inl, inr, Option, none, some, List, [], ◌∷◌, ◌++◌, length,
  arith,
}
use nameq.Base.Int.{◌-ℤ◌}
use nameq.Base.Text.{Text, Bytes}
use nameq.Base.Run.{Run, returns, ◌>>=◌}
use nameq.Base.Result.{Result, ok, err}
use nameq.Node.{Net, LocalNode, RemoteNodes}
use nameq.Node.Local.{empty}
use nameq.Node.Remotes.Laws.{IsKeyed}
use nameq.Node.Remotes.Expiry.{expire-IsKeyed}
use nameq.Codec.{Codec}
use nameq.Packet.{marshal_for_storage}
use nameq.Storage.{
  Put, Object, Client, StorageError, Scanned, expire_timeout, put_object, update_storage,
}
use nameq.Storage.Scan.{scan_objects-IsKeyed}
use nameq.Storage.Loop.{
  Moment, StorageEvent, notified, timed, Stored, scan_listed, scan_listing, scan_storage, put_node,
  after_scan, scan_round, storage_round, storage_loop,
}

-- The put of a node: its features as JSON under its key, if there is a client.
abbrev pub put_of : Option Client → Text → Option Bytes → List Put
put_of none key body = []
put_of (some _) key none = []
put_of (some _) key (some body) = (key, body) ∷ []

-- The key is the prefix and then the address.
abbrev pub node_puts : Codec → Text → Option Client → LocalNode → List Put
node_puts codec prefix client local =
    put_of client (prefix ++ local.ip_addr) (marshal_for_storage codec local)

abbrev pub event_puts : Codec → Text → List (StorageEvent × Moment) → List Put
event_puts codec prefix [] = []
event_puts codec prefix ((e, m) ∷ rest) =
    node_puts codec prefix m.client m.local ++ event_puts codec prefix rest

-- The node can be written as JSON.
abbrev pub IsMarshaled : Codec → LocalNode → Type 0
IsMarshaled codec local = (body : Bytes) × (marshal_for_storage codec local ≡ some body)

abbrev pub IsPrefixed : Text → Result StorageError (List Object) → Type 0
IsPrefixed prefix (err _) = Unit
IsPrefixed prefix (ok objects) = All (λ (o : Object). length prefix ≤ length o.key) objects

module _ (net : Net) (codec : Codec) (prefix : Text) where
  -- In each round the local node can be written, and every key that is listed has the prefix.
  abbrev pub AreReady : List (StorageEvent × Moment) → Type 0
  AreReady [] = Unit
  AreReady ((e, m) ∷ rest) =
      (IsMarshaled codec m.local × IsPrefixed prefix m.listing) × AreReady rest

  put_node_lem :
      (client : Option Client) (local : LocalNode) (s : Stored)
      → IsMarshaled codec local
      → put_node net codec prefix client local s
        ≡ returns (record s { puts = s.puts ++ node_puts codec prefix client local })
  unfolding put_node update_storage put_object
  put_node_lem none local s (body, e) = ground (arith, e)
  put_node_lem (some c) local s (body, e) = ground (arith, e)

  -- A scan returns, and keeps the table keyed.
  Scans : Run (Result StorageError Scanned) → Type 0
  Scans r =
      ((e : StorageError) × (r ≡ returns (err e)))
      ⊎ ((s : Scanned) × (r ≡ returns (ok s)) × IsKeyed s.remotes)

  scan_listed-Scans :
      (client : Option Client) (m : Moment) (objects : List Object) (remotes : RemoteNodes)
      → IsPrefixed prefix (ok objects)
      → IsKeyed remotes
      → Scans (scan_listed net codec prefix client m objects remotes)
  unfolding Scans
  scan_listed-Scans none m objects remotes h k =
      inr (_, refl, expire-IsKeyed (m.now -ℤ expire_timeout) remotes k)
  scan_listed-Scans (some client) m objects remotes h k =
      let (s, e, keyed) =
        scan_objects-IsKeyed net codec m.local client prefix m.now objects remotes h k in
      inr (s, ap (λ (r : Run Scanned). r >>= (λ (s : Scanned). returns (ok s))) e, keyed)

  scan_listing-Scans :
      (listing : Result StorageError (List Object)) (m : Moment) (remotes : RemoteNodes)
      → IsPrefixed prefix listing
      → IsKeyed remotes
      → Scans (scan_listing net codec prefix listing m remotes)
  unfolding Scans
  scan_listing-Scans (err e) m remotes h k = inl (e, refl)
  scan_listing-Scans (ok objects) m remotes h k = scan_listed-Scans m.client m objects remotes h k

  -- A round returns: the put of the node is behind the puts of before, and the table is keyed.
  Puts : List Put → Stored → Run Stored → Type 0
  Puts bodies s r =
      (s' : Stored) × (r ≡ returns s') × (s'.puts ≡ s.puts ++ bodies) × IsKeyed s'.remotes

  Puts-scan :
      (r : Run (Result StorageError Scanned)) (s : Stored)
      → Scans r
      → IsKeyed s.remotes
      → Puts [] s
          (r >>= (λ (x : Result StorageError Scanned). returns (after_scan net codec prefix x s)))
  unfolding Puts Scans
  Puts-scan r s (inl (e, h)) k = (
    s,
    ap
        (λ (x : Run (Result StorageError Scanned)).
          x >>= (λ (y : Result StorageError Scanned). returns (after_scan net codec prefix y s)))
        h,
    sym (append-nil s.puts),
    k,
  )
  Puts-scan r s (inr (x, h, keyed)) k = (
    after_scan net codec prefix (ok x) s,
    ap
        (λ (x : Run (Result StorageError Scanned)).
          x >>= (λ (y : Result StorageError Scanned). returns (after_scan net codec prefix y s)))
        h,
    sym (append-nil s.puts),
    keyed,
  )

  scan_round-Puts :
      (e : StorageEvent) (m : Moment) (s : Stored)
      → IsPrefixed prefix m.listing
      → IsKeyed s.remotes
      → Puts [] s (scan_round net codec prefix e m s)
  unfolding Puts scan_round scan_storage
  scan_round-Puts notified m s h k = (s, refl, sym (append-nil s.puts), k)
  scan_round-Puts timed m s h k = Puts-scan _ s (scan_listing-Scans m.listing m s.remotes h k) k

  Puts-bind :
      (a b : List Put) (s : Stored) (r : Run Stored) (f : Stored → Run Stored)
      → Puts a s r
      → ((s' : Stored) → IsKeyed s'.remotes → Puts b s' (f s'))
      → Puts (a ++ b) s (r >>= f)
  unfolding Puts
  Puts-bind a b s r f (s', e, p, k) h =
      let (s'', e', p', k') = h s' k in
      (
        s'',
        ap (λ (r : Run Stored). r >>= f) e ∙ e',
        p' ∙ ap (λ (l : List Put). l ++ b) p ∙ append_assoc s.puts a b,
        k',
      )

  put_node-Puts :
      (client : Option Client) (local : LocalNode) (s : Stored)
      → IsMarshaled codec local
      → IsKeyed s.remotes
      → Puts (node_puts codec prefix client local) s (put_node net codec prefix client local s)
  unfolding Puts
  put_node-Puts client local s h k = (
    record s { puts = s.puts ++ node_puts codec prefix client local },
    put_node_lem client local s h,
    refl,
    k,
  )

  storage_round-Puts :
      (e : StorageEvent) (m : Moment) (s : Stored)
      → IsMarshaled codec m.local
      → IsPrefixed prefix m.listing
      → IsKeyed s.remotes
      → Puts
          (node_puts codec prefix m.client m.local ++ [])
          s
          (storage_round net codec prefix e m s)
  unfolding storage_round
  storage_round-Puts e m s h i k =
      Puts-bind _ [] s _ _ (put_node-Puts m.client m.local s h k)
        (λ s' k'. scan_round-Puts e m s' i k')

  loop-Puts :
      (events : List (StorageEvent × Moment)) (end : Moment) (s : Stored)
      → AreReady events
      → IsMarshaled codec (empty end.local)
      → IsKeyed s.remotes
      → Puts
          (event_puts codec prefix events ++ node_puts codec prefix end.client (empty end.local))
          s
          (storage_loop net codec prefix events end s)
  unfolding storage_loop
  loop-Puts [] end s h i k = put_node-Puts end.client (empty end.local) s i k
  loop-Puts ((e, m) ∷ rest) end s ((h, g), hs) i k =
      rw
        (
          append_assoc (node_puts codec prefix m.client m.local) (event_puts codec prefix rest)
              (node_puts codec prefix end.client (empty end.local)),
          sym (append-nil (node_puts codec prefix m.client m.local)),
        )
        (Puts-bind _ _ s _ _ (storage_round-Puts e m s h g k)
          (λ s' k'. loop-Puts rest end s' hs i k'))

  -- In each of its rounds the loop puts the features that the node has then, under the key of the prefix
  -- and the node's address, if there is a client, and nothing else, and at its end it puts a node
  -- without features there; it does not panic, and it keeps each node of the
  -- table under its own address. This holds where the local node can be written in each round, the
  -- node without features can be written, every listed key has the prefix, and the table had each
  -- node under its own address.
  pub storage_loop-puts :
      (events : List (StorageEvent × Moment)) (end : Moment) (s : Stored)
      → AreReady events
      → IsMarshaled codec (empty end.local)
      → IsKeyed s.remotes
      → (s' : Stored) × (storage_loop net codec prefix events end s ≡ returns s')
        × (s'.puts
            ≡ s.puts
              ++ (event_puts codec prefix events
                  ++ node_puts codec prefix end.client (empty end.local)))
        × IsKeyed s'.remotes
  unfolding Puts
  storage_loop-puts events end s h i k = loop-Puts events end s h i k
