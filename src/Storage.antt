-- ===== src/Storage.antt =====
-- service/storage.go: the nodes that are kept in S3. The client of the AWS library is the record
-- Client; a client that is nil (a dry run) is `none`.
pub mod Listing
pub mod Scan
pub mod Loads
pub mod Credentials
pub mod Loop
pub mod Sorted
mod Tests
use nameq.Base.{
  ℕ, zero, suc, ◌*◌, ◌∙◌, Bool, true, false, not, ◌||◌, Option, none, some, List, [], ◌∷◌, ◌++◌,
  length, drop, ltb, ite, if◌then◌else◌,
}
use nameq.Base.Int.{ℤ, pos, ◌-ℤ◌, ltb_ℤ}
use nameq.Base.Text.{Text, Bytes, Text-discrete}
use nameq.Base.Run.{Run, returns, panics, ◌>>=◌}
use nameq.Base.Result.{Result, ok, err}
use nameq.Node.{Node, Net, Addr, LocalNode, RemoteNodes}
use nameq.Node.Remotes.{updatable, update, expire}
use nameq.Codec.{Codec, Reader}
use nameq.Packet.{marshal_for_storage}
use nameq.Io.{second}

-- 15 minutes
abbrev pub expire_timeout : ℤ
expire_timeout = pos (900 * second)

pub record Object : Type 0 where
  pub key : Text
  pub last_modified : ℤ

pub record Page : Type 0 where
  pub contents : List Object
  pub is_truncated : Bool

pub record Output : Type 0 where
  pub body : Reader
  pub last_modified : ℤ

-- The requests of one bucket; those of `list_objects` are also of one prefix, and carry a marker.
-- `none`, and `true` of a put or a delete, is an error.
pub record Client : Type 0 where
  pub list_objects : Option Text → Option Page
  pub get_object : Text → Option Output
  pub put_object : Text → Bytes → Bool
  pub delete_object : Text → Bool

pub data StorageError : Type 0 where
  put_failed : StorageError
  list_failed : StorageError

-- What a page leaves in `request.Marker`.
unfoldable pub next_marker : Option Text → List Object → Option Text
next_marker marker [] = marker
next_marker marker (object ∷ rest) = next_marker (some object.key) rest

-- The goroutine of `listObjects`: what it sends on the channel from the page `output` on. Each page
-- takes a round of the fuel; `none` means that the fuel ran out.
unfoldable pub send_pages : ℕ → Client → Option Text → Page → Option (List Object)
unfolding next_marker
send_pages zero client marker output = none
send_pages (suc fuel) client marker output = elim output.is_truncated [
  | false ↦ some output.contents
  | true ↦
      let marker' = next_marker marker output.contents in
      elim (client.list_objects marker') [
        | none ↦ some output.contents
        | some output' ↦ elim (send_pages fuel client marker' output') [
          | none ↦ none
          | some rest ↦ some (output.contents ++ rest)
        ]
      ]
]

-- `listObjects` and all that comes on its channel.
unfoldable pub list_objects : ℕ → Option Client → Result StorageError (Option (List Object))
unfolding send_pages
list_objects fuel none = ok (some [])
list_objects fuel (some client) = elim (client.list_objects none) [
  | none ↦ err list_failed
  | some output ↦ ok (send_pages fuel client none output)
]

-- A put request: its key and its body.
abbrev pub Put : Type 0
Put = Text × Bytes

-- `putObject`: what it returns, and the put requests that it makes.
unfoldable pub put_object : Option Client → Text → Bytes → Result StorageError (Unit {0}) × List Put
put_object none key body = (ok tt, [])
put_object (some client) key body =
    (if client.put_object key body then err put_failed else ok tt, (key, body) ∷ [])

-- What `updateStorage` does with what the marshalling gives.
abbrev pub put_marshaled :
    Option Client → Text → Option Bytes → Run (Result StorageError (Unit {0}) × List Put)
put_marshaled client key none = panics
put_marshaled client key (some body) = returns (put_object client key body)

unfoldable pub update_storage :
    Codec → Option Client → LocalNode → Text → Run (Result StorageError (Unit {0}) × List Put)
unfolding marshal_for_storage put_object
update_storage codec client local key = put_marshaled client key (marshal_for_storage codec local)

-- `key[n:]`, a panic if the key is shorter.
unfoldable pub slice_from : ℕ → Text → Run Text
slice_from n key = if ltb (length key) n then panics else returns (drop n key)

-- The objects that a scan loads, and those that it deletes.
pub record Keys : Type 0 where
  pub load_keys : List Text
  pub delete_keys : List Text

pub data Class : Type 0 where
  ignore load remove : Class

abbrev pub add_key : Class → Text → Keys → Keys
add_key ignore key keys = keys
add_key load key keys = record keys { load_keys = key ∷ keys.load_keys }
add_key remove key keys = record keys { delete_keys = key ∷ keys.delete_keys }

module _ (net : Net) (local : LocalNode) (remotes : RemoteNodes) (threshold : ℤ) where
  -- What the body of the first loop of `scanStorage` does with an object of the address.
  unfoldable pub classify : Text → ℤ → Class
  classify ip_addr last_modified = ite (Text-discrete ip_addr []) ignore (
      ite (Text-discrete ip_addr local.ip_addr) ignore (elim (net.parse_ip ip_addr) [
        | none ↦ ignore
        | some ip ↦
            if net.is_global_unicast ip
            then (if ltb_ℤ threshold last_modified
                then (if updatable remotes ip_addr last_modified then load else ignore)
                else remove)
            else ignore
      ]))

  unfoldable pub sort_objects : ℕ → List Object → Run Keys
  unfolding classify slice_from
  sort_objects prefix_length [] = returns (record { load_keys = []; delete_keys = [] })
  sort_objects prefix_length (object ∷ rest) = do
    ip_addr ← slice_from prefix_length object.key
    keys ← sort_objects prefix_length rest
    returns (add_key (classify ip_addr object.last_modified) object.key keys)

-- The table and `newAddrs`.
pub record Loaded : Type 0 where
  pub remotes : RemoteNodes
  pub new_addrs : List Addr

abbrev add_addr : Option Addr → List Addr → List Addr
add_addr none addrs = addrs
add_addr (some addr) addrs = addrs ++ (addr ∷ [])

-- A node as it is loaded: under the address of its key, with the time of the object.
unfoldable pub loaded_node : Codec → Client → Text → Text → Option Node
loaded_node codec client ip_addr key = elim (client.get_object key) [
  | none ↦ none
  | some output ↦ elim (codec.decode_node output.body) [
    | none ↦ none
    | some node ↦ some (record node { ip_addr = ip_addr; time_ns = output.last_modified })
  ]
]

unfoldable pub take_up : Net → Option Node → Loaded → Loaded
take_up net none l = l
take_up net (some node) l =
    let (remotes, new_addr) = update net node l.remotes in
    record { remotes = remotes; new_addrs = add_addr new_addr l.new_addrs }

-- The last loop of `scanStorage`.
unfoldable pub load_all : Net → Codec → Client → ℕ → List Text → Loaded → Run Loaded
unfolding loaded_node take_up slice_from
load_all net codec client prefix_length [] l = returns l
load_all net codec client prefix_length (key ∷ rest) l = do
  ip_addr ← slice_from prefix_length key
  load_all net codec client prefix_length rest
      (take_up net (loaded_node codec client ip_addr key) l)

-- What a scan leaves: the table, the delete requests in order, and the message on the reply channel.
pub record Scanned : Type 0 where
  pub remotes : RemoteNodes
  pub deletes : List Text
  pub reply : List Addr

-- `scanStorage`, from what its listing gives. There is an object only if there is a client.
unfoldable pub scan_objects :
    Net → Codec → LocalNode → Client → Text → ℤ → List Object → RemoteNodes → Run Scanned
unfolding sort_objects load_all ◌-ℤ◌
scan_objects net codec local client prefix now objects remotes = do
  let threshold = now -ℤ expire_timeout
  keys ← sort_objects net local remotes threshold (length prefix) objects
  l ←
      load_all net codec client (length prefix) keys.load_keys
        (record { remotes = remotes; new_addrs = [] })
  returns (record {
    remotes = expire threshold l.remotes;
    deletes = keys.delete_keys;
    reply = l.new_addrs;
  })
