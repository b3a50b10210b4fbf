-- ===== src/Network.antt =====
-- Hosts that run the service, a network that loses, repeats, delays and reorders their packets, and
-- their storage: service/node.go, packet.go, io.go and storage.go put together.
pub mod Made
pub mod Trace
pub mod Packets
pub mod Scans
pub mod Sources
pub mod Addresses
pub mod Quiet
pub mod Current
pub mod Published
pub mod Trees
mod Tests
use nameq.Base.{
  none, All, length, ◌≤◌, ℕ, ◌≡◌, ◌⊎◌, Bool, Option, some, List, [], ◌∷◌, ◌++◌, ite, ℕ_discrete, In,
  arith,
}
use nameq.Base.Int.{ℤ}
use nameq.Base.Text.{Text, Bytes}
use nameq.Base.Run.{returns}
use nameq.Base.Result.{Result}
use nameq.Storage.{Put, Client, Object, Output, Scanned, StorageError, update_storage, scan_objects}
use nameq.Storage.Loop.{local_key}
use nameq.Node.{Node, Net, Addr, Features, LocalNode}
use nameq.Node.Local.{update_features, empty}
use nameq.Codec.{Codec, whole}
use nameq.Packet.{Modes}
use nameq.Packet.Open.{Authentic}
use nameq.Io.Receive.{Arrival, read_error, datagram, Receiver, receive}
use nameq.Io.Transmit.{Sent, transmit}

pub record Host : Type 0 where
  pub local : LocalNode
  pub modes : Modes
  pub receiver : Receiver

-- How a node is published: in a packet, or as an object of the storage.
pub data Form : Type 0 where
  in_packet in_object : Form

-- What a host has published: the number of the host, the local node that it was made of, the time of
-- the packet, or the one that the storage gave the object, and the object's key (a packet has none).
pub record Publication : Type 0 where
  pub form : Form
  pub host : ℕ
  pub local : LocalNode
  pub time : ℤ
  pub key : Text
  pub content : Bytes

-- The hosts by their numbers, the prefix of the keys in the storage that they share, and what has been
-- sent or stored.
pub record Network : Type 0 where
  pub prefix : Text
  pub hosts : ℕ → Host
  pub sent : List Publication

abbrev pub put_host : ℕ → Host → Network → Network
put_host j host s = record s { hosts = λ k. ite (ℕ_discrete j k) host (s.hosts k) }

-- What holds of the host that is put, and of all hosts before, holds of all hosts.
pub put_host-all :
    (P : Host → Type 0) (j : ℕ) (host : Host) (s : Network)
    → P host
    → ((k : ℕ) → P (s.hosts k))
    → (k : ℕ) → P ((put_host j host s).hosts k)
put_host-all P j host s new old k = elim (ℕ_discrete j k) as (λ d. P (ite d host (s.hosts k))) [
  | yes _ ↦ new
  | no _ ↦ old k
]

pub put_host-same : (j : ℕ) (host : Host) (s : Network) → (put_host j host s).hosts j ≡ host
put_host-same j host s = ground arith

unfoldable pub publish : ℕ → LocalNode → ℤ → List Sent → List Publication
publish i local now [] = []
publish i local now ((packet, addr) ∷ sent) =
    record { form = in_packet; host = i; local = local; time = now; key = []; content = packet }
    ∷ publish i local now sent

unfoldable pub publish_puts : ℕ → LocalNode → ℤ → List Put → List Publication
publish_puts i local now [] = []
publish_puts i local now ((key, body) ∷ puts) =
    record { form = in_object; host = i; local = local; time = now; key = key; content = body }
    ∷ publish_puts i local now puts

abbrev pub put_sent : List Publication → Network → Network
put_sent new s = record s { sent = new ++ s.sent }

module _ (net : Net) (codec : Codec) where
  -- What may arrive at a host with these modes: a packet that some host has sent, at any time, as
  -- often as may be and from any origin; or bytes that no host has sent, as long as they do not have
  -- the right HMAC under a secret of the modes.
  abbrev pub CanArrive : List Publication → Modes → Arrival → Type 0
  CanArrive sent modes read_error = Unit
  CanArrive sent modes (datagram packet origin now) =
      ((p : Publication) × In p sent × (p.form ≡ in_packet) × (p.content ≡ packet))
      ⊎ ((node : Node) → ¬ Authentic codec modes packet node)

  -- What may be read of the storage: only hosts write to it, so that what is read under a key is what
  -- some host has put there, with its time; or data that cannot be decoded, as where the reading fails
  -- halfway.
  abbrev pub CanRead : List Publication → Client → Type 0
  CanRead sent client =
      (key : Text) (output : Output)
      → client.get_object key ≡ some output
      → ((p : Publication) × In p sent
          × (p.form ≡ in_object)
          × (p.key ≡ key)
          × (output.body ≡ whole p.content)
          × (output.last_modified ≡ p.time))
        ⊎ (codec.decode_node output.body ≡ none)

  abbrev pub received : Arrival → Host → Host
  received arrival h = record h {
    receiver = (receive net codec h.modes arrival h.receiver).receiver;
  }

  abbrev pub scanned : Scanned → Host → Host
  scanned result h = record h { receiver = record h.receiver { remotes = result.remotes } }

  -- What the host can send of a local node: a transmission, to any addresses, or the requests of an
  -- update of the storage, which may be carried out also if they fail.
  pub data Sending (prefix : Text) (i : ℕ) (local : LocalNode) : List Publication → Type 0 where
    transmits :
        (now : ℤ) (targets : List (Option Addr)) (order : List ℕ) (sent : List Sent)
        → transmit codec local now targets order ≡ returns sent
        → Sending prefix i local (publish i local now sent)
    puts :
        (now : ℤ) (client : Client) (result : Result StorageError (Unit {0})) (put : List Put)
        → update_storage codec (some client) local (local_key prefix local) ≡ returns (result, put)
        → Sending prefix i local (publish_puts i local now put)

  pub data Step : Network → Network → Type 0 where
    -- The handler of the configuration.
    configure :
        {s : Network} (i : ℕ) (new : Features) (local : LocalNode) (update : Bool)
        → update_features (s.hosts i).local new ≡ returns (local, update)
        → Step s (put_host i (record (s.hosts i) { local = local }) s)
    sends :
        {s : Network} (i : ℕ) (new : List Publication)
        → Sending s.prefix i (s.hosts i).local new
        → Step s (put_sent new s)
    -- The end of a loop sends the node without its features.
    ends :
        {s : Network} (i : ℕ) (new : List Publication)
        → Sending s.prefix i (empty (s.hosts i).local) new
        → Step s (put_sent new s)
    -- A round of the receive loop.
    receives :
        {s : Network} (j : ℕ) (arrival : Arrival)
        → CanArrive s.sent (s.hosts j).modes arrival
        → Step s (put_host j (received arrival (s.hosts j)) s)
    -- A scan of the storage under the prefix. What is listed has it.
    scans :
        {s : Network} (j : ℕ) (client : Client) (now : ℤ) (objects : List Object) (result : Scanned)
        → All (λ (o : Object). length s.prefix ≤ length o.key) objects
        → CanRead s.sent client
        → scan_objects net codec
            (s.hosts j).local
            client
            s.prefix
            now
            objects
            (s.hosts j).receiver.remotes
          ≡ returns result
        → Step s (put_host j (scanned result (s.hosts j)) s)

  -- The state of the network after a host has received a packet.
  abbrev pub after_packet : Network → ℕ → Publication → Addr → ℤ → Network
  after_packet s j p origin now =
      put_host j (received (datagram p.content origin now) (s.hosts j)) s

  -- No host knows of another, and nothing has been sent.
  pub record IsStart (s : Network) : Type 0 where
    pub silent : s.sent ≡ []
    pub unaware : (j : ℕ) → (s.hosts j).receiver.remotes.ip_addrs ≡ []

  pub data Reach : Network → Type 0 where
    here : {s : Network} → IsStart s → Reach s
    next : {s s' : Network} → Reach s → Step s s' → Reach s'
