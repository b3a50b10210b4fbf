-- ===== src/Network/Scans.antt =====
-- The scans of service/storage.go take up only what hosts have put into the storage.
use mathlib.Core.Path.{subst}
use nameq.Base.{
  All, List, Option-cases, [], ap, arith, drop, drop_append, inl, inr, length, refl, some, sym,
  true, ◌++◌, ◌∙◌, ◌∷◌, ◌≡◌, ◌≤◌,
}
use nameq.Base.Int.{ℤ}
use nameq.Base.Text.{Text, Bytes}
use nameq.Node.{LocalNode, Net, Node, RemoteNodes}
use nameq.Codec.{Codec, IsLawful, SameFeatures}
use nameq.Network.{Form, in_object, CanRead, Publication}
use nameq.Network.Made.{encoded_node, content_of, key_of, AllMade}
use nameq.Network.Trace.{RefusesLoopback, Trace, Traced, update-Traced, expire-Traced}
use nameq.Base.Int.{◌-ℤ◌, pos}
use nameq.Base.Run.{returns}
use nameq.Codec.{whole}
use nameq.Node.Remotes.{update}
use nameq.Node.Remotes.Merge.{update_all}
use nameq.Packet.{marshal_for_storage}
use nameq.Storage.{Client, Object, Output, Scanned, expire_timeout, loaded_node, scan_objects}
use nameq.Storage.Loads.{All-loaded_nodes}
use nameq.Storage.Sorted.{IsLoadable, load_keys-IsLoadable}
use nameq.Storage.Loop.{local_key}
use nameq.Storage.Scan.{scan_objects_lem}

marshal_for_storage-eq :
    (codec : Codec) (local : LocalNode) (content json : Bytes)
    → codec.indent_node (encoded_node in_object local (pos 0)) ≡ some json
    → marshal_for_storage codec local ≡ some content
    → json ++ (0xa ∷ []) ≡ content
unfolding marshal_for_storage
marshal_for_storage-eq codec local content json e h = ground arith

-- Behind the prefix, the key of a local node has its address.
keyed_by :
    (prefix : Text) (local : LocalNode) (key : Text)
    → local_key prefix local ≡ key
    → drop (length prefix) key ≡ local.ip_addr
keyed_by prefix local key e =
    ap (drop (length prefix)) (sym e) ∙ drop_append (length prefix) prefix local.ip_addr refl

module _ (net : Net) (codec : Codec) (laws : IsLawful codec) (refuses : RefusesLoopback net) where
  Output-Trace :
      (sent : List Publication) (client : Client) (prefix key : Text) (output : Output)
      (decoded : Node) (ip : Bytes)
      → AllMade codec prefix sent
      → CanRead net codec sent client
      → client.get_object key ≡ some output
      → codec.decode_node output.body ≡ some decoded
      → net.parse_ip (drop (length prefix) key) ≡ some ip
      → net.is_global_unicast ip ≡ true
      → Trace codec sent
          (drop (length prefix) key)
          (record decoded { ip_addr = drop (length prefix) key; time_ns = output.last_modified })
  Output-Trace sent client prefix key output decoded ip made can got decodes parses unicast =
      elim (can key output got) [
        | inr none_decoded ↦ absurd (cc (none_decoded, decodes))
        | inl (p, i, form, at, body, time) ↦
            let put : p.key ≡ local_key prefix p.local =
              subst (λ (f : Form). p.key ≡ key_of f prefix p.local) form (made p i).1 in
            record {
              keyed = refl;
              is_map = laws.decode-IsMap output.body decoded decodes;
              not_loopback = λ q. cc (refuses.itself ip (ap net.parse_ip q ∙ parses), unicast);
              source = p;
              was_sent = i;
              tells = λ fits.
                  let d = laws.indent-decode (encoded_node in_object p.local p.time) (
                    subst (λ (f : Form). codec.is_encodable (encoded_node f p.local p.time) ≡ true)
                      form fits) in
                  let content : marshal_for_storage codec p.local ≡ some p.content =
                    subst (λ (f : Form). content_of codec f p.local p.time ≡ some p.content) form
                      (made p i).0 in
                  let written : d.json ++ (0xa ∷ []) ≡ p.content =
                    marshal_for_storage-eq codec p.local p.content d.json d.indents content in
                  let read : d.decoded ≡ decoded = cc (
                    sym d.decodes
                    ∙ ap (λ (b : Bytes). codec.decode_node (whole b)) written
                    ∙ ap codec.decode_node (sym body)
                    ∙ decodes) in
                  record {
                    ip_addr = keyed_by prefix p.local key (sym put ∙ at);
                    time_ns = time;
                    features =
                        subst (λ (m : Node). SameFeatures codec p.local.node.features m.features)
                          read d.same;
                  };
            }
      ]

  loaded_node-Trace :
      (sent : List Publication) (client : Client) (prefix key : Text) (node : Node) (ip : Bytes)
      → AllMade codec prefix sent
      → CanRead net codec sent client
      → net.parse_ip (drop (length prefix) key) ≡ some ip
      → net.is_global_unicast ip ≡ true
      → loaded_node codec client (drop (length prefix) key) key ≡ some node
      → Trace codec sent node.ip_addr node
  unfolding loaded_node
  loaded_node-Trace sent client prefix key node ip made can parses unicast h =
      elim (Option-cases (client.get_object key)) [
        | inl e ↦ absurd (ground arith)
        | inr (output, e) ↦ elim (Option-cases (codec.decode_node output.body)) [
          | inl f ↦ absurd (ground arith)
          | inr (decoded, f) ↦
              let same : record decoded {
                ip_addr = drop (length prefix) key;
                time_ns = output.last_modified;
              }
                  ≡ node =
                ground arith in
              subst (λ (m : Node). Trace codec sent m.ip_addr m) same
                (Output-Trace sent client prefix key output decoded ip made can e f parses unicast)
        ]
      ]

  update_all-Traced :
      (sent : List Publication) (ns : List Node) (remotes : RemoteNodes)
      → All (λ (n : Node). Trace codec sent n.ip_addr n) ns
      → Traced codec sent remotes
      → Traced codec sent (update_all net ns remotes)
  unfolding update_all
  update_all-Traced sent [] remotes h t = t
  update_all-Traced sent (n ∷ ns) remotes (h, hs) t =
      update_all-Traced sent ns (update net n remotes).0 hs
        (update-Traced codec sent net n remotes h t)

  pub scan-Traced :
      (sent : List Publication) (local : LocalNode) (client : Client) (prefix : Text) (now : ℤ)
      (objects : List Object) (remotes : RemoteNodes) (result : Scanned)
      → AllMade codec prefix sent
      → All (λ (o : Object). length prefix ≤ length o.key) objects
      → CanRead net codec sent client
      → scan_objects net codec local client prefix now objects remotes ≡ returns result
      → Traced codec sent remotes
      → Traced codec sent result.remotes
  scan-Traced sent local client prefix now objects remotes result made long can h t =
      let n = length prefix in
      let (s, e, updated, _) =
        scan_objects_lem net codec local client prefix now objects remotes long in
      let same : s ≡ result = cc (sym e ∙ h) in
      let traces =
        All-loaded_nodes codec client n (IsLoadable net local remotes (now -ℤ expire_timeout) n)
          (λ (m : Node). Trace codec sent m.ip_addr m) _
          (λ key node (ip, parses, unicast) l.
            loaded_node-Trace sent client prefix key node ip made can parses unicast l)
          (load_keys-IsLoadable net local remotes (now -ℤ expire_timeout) n objects) in
      subst (λ (x : Scanned). Traced codec sent x.remotes) same
        (rw updated (
          expire-Traced codec sent (now -ℤ expire_timeout) _
            (update_all-Traced sent _ remotes traces t)))
