-- ===== src/Storage/Loop/Init.antt =====
-- What `initStorage` has put to the storage when it succeeds.
use nameq.Base.{◌≡◌, ap, sym, Option, none, some, List, [], arith}
use nameq.Base.Text.{Text, Bytes}
use nameq.Base.Run.{Run, returns, panics, ◌>>=◌}
use nameq.Base.Result.{Result, ok, err}
use nameq.Node.{Net, RemoteNodes}
use nameq.Codec.{Codec}
use nameq.Packet.{marshal_for_storage}
use nameq.Storage.{Put, Client, StorageError, Scanned, put_marshaled, put_object, update_storage}
use nameq.Storage.Credentials.{parse_credentials, CredentialsError}
use nameq.Storage.Loop.{
  Moment, Stored, InitError, local_key, scan_storage, with_slash, after_put, unless_bad,
  init_storage,
}
use nameq.Storage.Loop.Puts.{put_of, node_puts}

abbrev Init : Type 0
Init = Run (Result InitError (Text × Stored))

abbrev done : Text → Stored → Init
done q s = returns (ok (q, s))

puts_in : {q q' : Text} {s s' : Stored} → done q s ≡ done q' s' → s.puts ≡ s'.puts
puts_in {s = s} e =
    ap
      (λ (r : Init). elim r [
        | panics ↦ s.puts
        | returns (err _) ↦ s.puts
        | returns (ok p) ↦ p.1.puts
      ])
      e

after_put-puts :
    (prefix : Text) (scan : Run (Result StorageError Scanned))
    (put : Result StorageError (Unit {0}) × List Put) (q : Text) (s : Stored)
    → after_put prefix scan put ≡ done q s
    → s.puts ≡ put.1
after_put-puts prefix scan (err e, puts) q s h = absurd (ground arith)
after_put-puts prefix panics (ok _, puts) q s h = absurd (ground arith)
after_put-puts prefix (returns (err e)) (ok _, puts) q s h = absurd (ground arith)
after_put-puts prefix (returns (ok x)) (ok _, puts) q s h = sym (puts_in h)

marshaled_puts :
    (prefix key : Text) (scan : Run (Result StorageError Scanned)) (client : Option Client)
    (o : Option Bytes) (q : Text) (s : Stored)
    → (put_marshaled client key o >>= after_put prefix scan) ≡ done q s
    → s.puts ≡ put_of client key o
unfolding put_object
marshaled_puts prefix key scan client none q s h = absurd (ground arith)
marshaled_puts prefix key scan none (some body) q s h = after_put-puts prefix scan (ok tt, []) q s h
marshaled_puts prefix key scan (some c) (some body) q s h =
    after_put-puts prefix scan (put_object (some c) key body) q s h

creds_done :
    (c : Result CredentialsError (Option (Text × Text))) (r : Init) (q : Text) (s : Stored)
    → unless_bad c r ≡ done q s
    → r ≡ done q s
creds_done (err _) r q s h = absurd (ground arith)
creds_done (ok _) r q s h = h

-- Where `initStorage` succeeds, it has put the features of the local node under its key, if there is a
-- client.
pub init_storage-puts :
    (net : Net) (codec : Codec) (given : Text) (cred_data : Option Bytes) (m : Moment)
    (remotes : RemoteNodes) (q : Text) (s : Stored)
    → init_storage net codec given cred_data m remotes ≡ returns (ok (q, s))
    → s.puts ≡ node_puts codec (with_slash given) m.client m.local
unfolding init_storage update_storage
init_storage-puts net codec given cred_data m remotes q s h =
    marshaled_puts (with_slash given) (local_key (with_slash given) m.local)
      (scan_storage net codec (with_slash given) m remotes) m.client
      (marshal_for_storage codec m.local) q s (creds_done (parse_credentials cred_data) _ q s h)
