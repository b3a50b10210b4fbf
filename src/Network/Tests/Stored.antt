-- ===== src/Network/Tests/Stored.antt =====
-- One host puts its features into the storage, and another finds them there by a scan.
use nameq.Base.{◌≡◌, refl, inl, none, some, List, [], ◌∷◌, arith, ite, ap, sym, false}
use nameq.Base.Int.{pos, ◌-ℤ◌}
use nameq.Base.Text.{Text, Bytes, codes, Text-discrete}
use nameq.Base.Map.{lookup, insert}
use nameq.Base.Run.{Run, returns, panics}
use nameq.Base.Result.{ok}
use nameq.Node.{Node}
use nameq.Node.Remotes.{update, updatable, expire}
use nameq.Node.Remotes.Merge.{node_at}
use nameq.Codec.{whole}
use nameq.Packet.{marshal_for_storage}
use nameq.Storage.{
  Put, Object, Output, Client, Scanned, put_object, update_storage, scan_objects, loaded_node,
}
use nameq.Storage.Loop.{local_key}
use nameq.Network.{
  in_object, CanRead, Publication, Network, Sending, publish_puts, put_sent, put_host, scanned,
  Reach,
}
use nameq.Network.Sending.{puts}
use nameq.Network.Step.{sends, scans}
use nameq.Network.Reach.{next}
use nameq.Network.Trace.{Trace}
use nameq.Network.Sources.{node_at-Trace}
use nameq.Network.Tests.{local, start, start-Reach}
use nameq.Samples.{codec, codec-IsLawful}
use nameq.Samples.Net.{net, net-RefusesLoopback}

abbrev key : Text
key = codes "p/10.0.0.1"

abbrev body : Bytes
body = elim (marshal_for_storage codec (local 1)) [ none ↦ [] | some b ↦ b ]

abbrev output : Output
output = record { body = whole body; last_modified = pos 5 }

-- The storage after the put.
abbrev client : Client
client = record {
  list_objects = λ marker. none;
  get_object = λ k. ite (Text-discrete key k) (some output) none;
  put_object = λ k b. false;
  delete_object = λ k. false;
}

abbrev put : List Put
put = (key, body) ∷ []

putting :
    update_storage codec (some client) (local 1) (local_key (codes "p/") (local 1))
    ≡ returns (ok tt, put)
unfolding update_storage marshal_for_storage put_object codec
putting = refl

abbrev new : List Publication
new = publish_puts 1 (local 1) (pos 5) put

sending : Sending net codec start.prefix 1 (local 1) new
sending = puts (pos 5) client (ok tt) put putting

abbrev after_put : Network
after_put = put_sent new start

readable : CanRead net codec after_put.sent client
unfolding publish_puts
readable k o got = elim (Text-discrete key k) [
  | yes p ↦
      let same : output ≡ o = ground (arith, got) in
      inl (
        record {
          form = in_object;
          host = 1;
          local = local 1;
          time = pos 5;
          key = key;
          content = body;
        },
        inl refl,
        refl,
        p,
        ap (λ (x : Output). x.body) (sym same),
        ap (λ (x : Output). x.last_modified) (sym same),
      )
  | no p ↦ absurd (ground (arith, got))
]

abbrev objects : List Object
objects = record { key = key; last_modified = pos 5 } ∷ []

abbrev scan : Run Scanned
scan =
    scan_objects net codec (start.hosts 2).local client (codes "p/") (pos 9) objects
      (start.hosts 2).receiver.remotes

abbrev result : Scanned
result = elim scan [
  | panics ↦ record { remotes = (start.hosts 2).receiver.remotes; deletes = []; reply = [] }
  | returns s ↦ s
]

scan_run : scan ≡ returns result
unfolding scan_objects Text-discrete net updatable lookup
scan_run = refl

abbrev after_scan : Network
after_scan = put_host 2 (scanned net codec result (start.hosts 2)) after_put

after_scan-Reach : Reach net codec after_scan
after_scan-Reach =
    next (next start-Reach (sends 1 new sending))
      (scans 2 client (pos 9) objects result (omega arith, tt) readable scan_run)

abbrev expected : Node
expected = record (local 1).node { ip_addr = codes "10.0.0.1"; time_ns = pos 5 }

learnt : node_at (after_scan.hosts 2).receiver.remotes (codes "10.0.0.1") ≡ some expected
unfolding scan_objects loaded_node marshal_for_storage net codec update expire updatable lookup
    insert Text-discrete ◌-ℤ◌
learnt = refl

node_at-Trace_example : Trace codec after_scan.sent (codes "10.0.0.1") expected
node_at-Trace_example =
    node_at-Trace net codec codec-IsLawful net-RefusesLoopback after_scan 2 (codes "10.0.0.1")
      expected after_scan-Reach learnt
