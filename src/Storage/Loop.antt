-- ===== src/Storage/Loop.antt =====
-- `initStorage` and `storageLoop` of service/storage.go: what is put to the storage, and when it is
-- scanned.
pub mod Puts
pub mod Init
mod Tests
use nameq.Base.{
  ◌≡◌, ◌==◌, Bool, true, false, Option, none, some, List, [], ◌∷◌, ◌++◌, if◌then◌else◌,
}
use nameq.Base.Int.{ℤ, ◌-ℤ◌}
use nameq.Base.Text.{Text, Bytes}
use nameq.Base.Run.{Run, returns, panics, ◌>>=◌}
use nameq.Base.Result.{Result, ok, err}
use nameq.Node.{Net, LocalNode, RemoteNodes}
use nameq.Node.Local.{empty}
use nameq.Node.Remotes.{expire}
use nameq.Codec.{Codec}
use nameq.Storage.{
  Put, Object, Client, StorageError, Scanned, expire_timeout, update_storage, scan_objects,
}
use nameq.Storage.Credentials.{CredentialsError, parse_credentials}

-- What a round finds: the local node, the client, the time, and what `listObjects` gives and then
-- sends on its channel.
pub record Moment : Type 0 where
  pub local : LocalNode
  pub client : Option Client
  pub now : ℤ
  pub listing : Result StorageError (List Object)

-- The cases of the `select` statement that do not end the loop.
pub data StorageEvent : Type 0 where
  notified timed : StorageEvent

-- The table; the puts, and what each scan left, in order.
pub record Stored : Type 0 where
  pub remotes : RemoteNodes
  pub puts : List Put
  pub scans : List Scanned

abbrev pub InitError : Type 0
InitError = Option StorageError

abbrev pub local_key : Text → LocalNode → Text
local_key prefix local = prefix ++ local.ip_addr

module _ (net : Net) (codec : Codec) (prefix : Text) where
  abbrev pub scan_listed :
      Option Client → Moment → List Object → RemoteNodes → Run (Result StorageError Scanned)
  scan_listed none m objects remotes =
      returns (
        ok
          (record { remotes = expire (m.now -ℤ expire_timeout) remotes; deletes = []; reply = [] }))
  scan_listed (some client) m objects remotes = do
    s ← scan_objects net codec m.local client prefix m.now objects remotes
    returns (ok s)

  abbrev pub scan_listing :
      Result StorageError (List Object) → Moment → RemoteNodes → Run (Result StorageError Scanned)
  scan_listing (err e) m remotes = returns (err e)
  scan_listing (ok objects) m remotes = scan_listed m.client m objects remotes

  -- `scanStorage`; without a client no object is listed.
  unfoldable pub scan_storage : Moment → RemoteNodes → Run (Result StorageError Scanned)
  scan_storage m remotes = scan_listing m.listing m remotes

  abbrev pub add_puts : Stored → Result StorageError (Unit {0}) × List Put → Stored
  add_puts s (_, puts) = record s { puts = s.puts ++ puts }

  -- A put, whose error is only logged.
  unfoldable pub put_node : Option Client → LocalNode → Stored → Run Stored
  unfolding update_storage
  put_node client local s = do
    put ← update_storage codec client local (local_key prefix local)
    returns (add_puts s put)

  abbrev pub after_scan : Result StorageError Scanned → Stored → Stored
  after_scan (err _) s = s
  after_scan (ok scanned) s = record s {
    remotes = scanned.remotes;
    scans = s.scans ++ (scanned ∷ []);
  }

  -- The scan of a round, whose error is only logged.
  unfoldable pub scan_round : StorageEvent → Moment → Stored → Run Stored
  unfolding scan_storage
  scan_round notified m s = returns s
  scan_round timed m s = do r ← scan_storage m s.remotes; returns (after_scan r s)

  unfoldable pub storage_round : StorageEvent → Moment → Stored → Run Stored
  unfolding put_node scan_round
  storage_round e m s = do s' ← put_node m.client m.local s; scan_round e m s'

  -- `storageLoop` on these events; it ends with the put of the deferred function, in the last moment.
  unfoldable pub storage_loop : List (StorageEvent × Moment) → Moment → Stored → Run Stored
  unfolding storage_round
  storage_loop [] end s = put_node end.client (empty end.local) s
  storage_loop ((e, m) ∷ rest) end s = do s' ← storage_round e m s; storage_loop rest end s'

-- `strings.HasSuffix(prefix, "/")`
unfoldable pub ends_in_slash : Text → Bool
ends_in_slash [] = false
ends_in_slash (c ∷ []) = c == b'/'
ends_in_slash (_ ∷ c ∷ rest) = ends_in_slash (c ∷ rest)

unfoldable pub with_slash : Text → Text
unfolding ends_in_slash
with_slash [] = []
with_slash (c ∷ rest) = if ends_in_slash (c ∷ rest) then c ∷ rest else (c ∷ rest) ++ (b'/' ∷ [])

abbrev first_stored :
    Text → List Put → Result StorageError Scanned → Result InitError (Text × Stored)
first_stored prefix puts (err e) = err (some e)
first_stored prefix puts (ok s) =
    ok (prefix, record { remotes = s.remotes; puts = puts; scans = s ∷ [] })

abbrev pub after_put :
    Text
    → Run (Result StorageError Scanned)
    → Result StorageError (Unit {0}) × List Put
    → Run (Result InitError (Text × Stored))
after_put prefix scan (err e, puts) = returns (err (some e))
after_put prefix scan (ok _, puts) = do r ← scan; returns (first_stored prefix puts r)

abbrev pub unless_bad :
    Result CredentialsError (Option (Text × Text))
    → Run (Result InitError (Text × Stored))
    → Run (Result InitError (Text × Stored))
unless_bad (err _) r = returns (err none)
unless_bad (ok _) r = r

-- `initStorage` up to the start of its loop: the prefix, and what is stored; `none` is bad credentials.
unfoldable pub init_storage :
    Net
    → Codec
    → Text
    → Option Bytes
    → Moment
    → RemoteNodes
    → Run (Result InitError (Text × Stored))
unfolding with_slash parse_credentials update_storage scan_storage
init_storage net codec given cred_data m remotes = unless_bad (parse_credentials cred_data) (do
  let prefix = with_slash given
  put ← update_storage codec m.client m.local (local_key prefix m.local)
  after_put prefix (scan_storage net codec prefix m remotes) put)
