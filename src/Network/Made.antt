-- ===== src/Network/Made.antt =====
-- What the hosts publish, by the transmissions of service/io.go and the updates of service/storage.go.
use mathlib.Core.Path.{subst}
use nameq.Base.{
  ℕ, ◌≡◌, inl, inr, refl, sym, ap, ◌∙◌, Option, none, some, List, [], ◌∷◌, ◌++◌, get_elem?, In,
  In-append, arith, Option-cases,
}
use nameq.Base.Int.{ℤ}
use nameq.Base.Text.{Text, Bytes}
use nameq.Base.Run.{returns, Run-cases}
use nameq.Base.Result.{Result}
use nameq.Node.{Node, Net, Addr, LocalNode}
use nameq.Node.Local.{empty, empty_node}
use nameq.Codec.{Codec}
use nameq.Packet.{marshal_packet, marshal_for_storage, packet_node}
use nameq.Io.Transmit.{Sent, send_each, transmit}
use nameq.Storage.{Put, Client, StorageError, update_storage, put_object}
use nameq.Storage.Loop.{local_key}
use nameq.Network.{
  Form, in_packet, in_object, Publication, Network, publish, publish_puts, Sending, Reach,
}
use nameq.Network.Sending.{transmits, puts}
use nameq.Network.Step.{configure, sends, ends, receives, scans}
use nameq.Network.Reach.{here, next}

send_each-packet :
    (packet : Bytes) (targets : List (Option Addr)) (order : List ℕ) (sent : List Sent) (x : Sent)
    → send_each packet targets order ≡ returns sent
    → In x sent
    → x.0 ≡ packet
unfolding send_each
send_each-packet packet targets [] sent x h i =
    let none_sent : [] ≡ sent = ground arith in
    absurd (subst (λ (l : List Sent). In x l) (sym none_sent) i)
send_each-packet packet targets (k ∷ order) sent x h i = elim (Option-cases (get_elem? targets k)) [
  | inl e ↦ absurd (ground arith)
  | inr (none, e) ↦ absurd (ground arith)
  | inr (some addr, e) ↦ elim (Run-cases (send_each packet targets order)) [
    | inl f ↦ absurd (ground arith)
    | inr (rest, f) ↦
        let made : (packet, addr) ∷ rest ≡ sent = ground arith in
        elim (subst (λ (l : List Sent). In x l) (sym made) i) [
          | inl q ↦ ap (λ (y : Sent). y.0) (sym q)
          | inr j ↦ send_each-packet packet targets order rest x f j
        ]
  ]
]

-- What the code makes of a local node, and the node that it encodes.
abbrev pub content_of : Codec → Form → LocalNode → ℤ → Option Bytes
content_of codec in_packet local time = marshal_packet codec local time
content_of codec in_object local time = marshal_for_storage codec local

abbrev pub encoded_node : Form → LocalNode → ℤ → Node
encoded_node in_packet local time = packet_node local time
encoded_node in_object local time = record empty_node { features = local.node.features }

-- The key under which it is put: a packet has none.
abbrev pub key_of : Form → Text → LocalNode → Text
key_of in_packet prefix local = []
key_of in_object prefix local = local_key prefix local

-- The content is what the code makes of the local node, and so is the key.
abbrev pub IsMade : Codec → Text → Publication → Type 0
IsMade codec prefix p =
    (content_of codec p.form p.local p.time ≡ some p.content)
    × (p.key ≡ key_of p.form prefix p.local)

-- The host that has published it, the local node, and that it is made of that.
abbrev IsOf : Codec → Text → ℕ → LocalNode → Publication → Type 0
IsOf codec prefix i local p = (p.host ≡ i) × (p.local ≡ local) × IsMade codec prefix p

publish-IsOf :
    (codec : Codec) (prefix : Text) (i : ℕ) (local : LocalNode) (now : ℤ) (sent : List Sent)
    → ((x : Sent) → In x sent → marshal_packet codec local now ≡ some x.0)
    → (p : Publication) → In p (publish i local now sent)
    → IsOf codec prefix i local p
unfolding publish
publish-IsOf codec prefix i local now [] h p k = elim k [ ]
publish-IsOf codec prefix i local now (x ∷ sent) h p (inl e) =
    subst (IsOf codec prefix i local) e (refl, refl, (h x (inl refl), refl))
publish-IsOf codec prefix i local now (x ∷ sent) h p (inr k) =
    publish-IsOf codec prefix i local now sent (λ y m. h y (inr m)) p k

publish_puts-IsOf :
    (codec : Codec) (prefix : Text) (i : ℕ) (local : LocalNode) (now : ℤ) (put : List Put)
    → ((x : Put)
        → In x put
        → (x.0 ≡ local_key prefix local) × (marshal_for_storage codec local ≡ some x.1))
    → (p : Publication) → In p (publish_puts i local now put)
    → IsOf codec prefix i local p
unfolding publish_puts
publish_puts-IsOf codec prefix i local now [] h p k = elim k [ ]
publish_puts-IsOf codec prefix i local now (x ∷ put) h p (inl e) =
    let (key, content) = h x (inl refl) in
    subst (IsOf codec prefix i local) e (refl, refl, (content, key))
publish_puts-IsOf codec prefix i local now (x ∷ put) h p (inr k) =
    publish_puts-IsOf codec prefix i local now put (λ y m. h y (inr m)) p k

transmit-packet :
    (codec : Codec) (local : LocalNode) (now : ℤ) (targets : List (Option Addr)) (order : List ℕ)
    (sent : List Sent)
    → transmit codec local now targets order ≡ returns sent
    → (x : Sent) → In x sent
    → marshal_packet codec local now ≡ some x.0
unfolding transmit
transmit-packet codec local now targets order sent h x m =
    elim (Option-cases (marshal_packet codec local now)) [
      | inl f ↦ absurd (ground arith)
      | inr (packet, f) ↦
          f ∙ ap some (sym (send_each-packet packet targets order sent x (ground arith) m))
    ]

update_storage-put :
    (codec : Codec) (client : Client) (local : LocalNode) (key : Text)
    (result : Result StorageError (Unit {0})) (put : List Put)
    → update_storage codec (some client) local key ≡ returns (result, put)
    → (x : Put) → In x put
    → (x.0 ≡ key) × (marshal_for_storage codec local ≡ some x.1)
unfolding update_storage put_object
update_storage-put codec client local key result put h x m =
    elim (Option-cases (marshal_for_storage codec local)) [
      | inl f ↦ absurd (ground arith)
      | inr (body, f) ↦
          let put_of : (key, body) ∷ [] ≡ put = ground arith in
          elim (subst (λ (l : List Put). In x l) (sym put_of) m) [
            | inl e ↦ (ap (λ (y : Put). y.0) (sym e), f ∙ ap (λ (y : Put). some y.1) e)
            | inr k ↦ elim k [ ]
          ]
    ]

-- All that is sent is the host's, of its local node.
pub Sending-IsOf :
    {net : Net} (codec : Codec) {prefix : Text} (i : ℕ) (local : LocalNode) {new : List Publication}
    → Sending net codec prefix i local new
    → (p : Publication) → In p new
    → IsOf codec prefix i local p
Sending-IsOf codec {prefix} i local (transmits now targets order sent h) =
    publish-IsOf codec prefix i local now sent
      (transmit-packet codec local now targets order sent h)
Sending-IsOf codec {prefix} i local (puts now client result put h) =
    publish_puts-IsOf codec prefix i local now put
      (update_storage-put codec client local (local_key prefix local) result put h)

-- All that has been published is made of its local node, and put under its key.
abbrev pub AllMade : Codec → Text → List Publication → Type 0
AllMade codec prefix sent = (p : Publication) → In p sent → IsMade codec prefix p

AllMade-append :
    (codec : Codec) (prefix : Text) (xs ys : List Publication)
    → AllMade codec prefix xs
    → AllMade codec prefix ys
    → AllMade codec prefix (xs ++ ys)
AllMade-append codec prefix xs ys a b p i = elim (In-append p xs ys i) [
  | inl j ↦ a p j
  | inr j ↦ b p j
]

pub Reach-AllMade :
    (net : Net) (codec : Codec) {s : Network} → Reach net codec s → AllMade codec s.prefix s.sent
Reach-AllMade net codec (here start) =
    λ p i. absurd (subst (λ (l : List Publication). In p l) start.silent i)
Reach-AllMade net codec (next r (configure i new local update h)) = Reach-AllMade net codec r
Reach-AllMade net codec (next {s = s} r (sends i new h)) =
    AllMade-append codec s.prefix new s.sent
      (λ p k. (Sending-IsOf codec i (s.hosts i).local h p k).2) (Reach-AllMade net codec r)
Reach-AllMade net codec (next {s = s} r (ends i new h)) =
    AllMade-append codec s.prefix new s.sent
      (λ p k. (Sending-IsOf codec i (empty (s.hosts i).local) h p k).2) (Reach-AllMade net codec r)
Reach-AllMade net codec (next r (receives j arrival h)) = Reach-AllMade net codec r
Reach-AllMade net codec (next r (scans j client now objects result long can h)) =
    Reach-AllMade net codec r
