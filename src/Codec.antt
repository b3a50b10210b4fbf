-- ===== src/Codec.antt =====
-- What the service calls in encoding/json, compress/flate and crypto/hmac, as operations with the
-- documented laws that are relied on.
use nameq.Base.{[], ◌∷◌, ◌++◌, ◌≤◌, ◌≡◌, Bool, true, false, Option, none, some, length}
use nameq.Base.Text.{Text, Bytes}
use nameq.Base.Map.{lookup, IsMap}
use nameq.Node.{Raw, Features, Node}

-- An `io.Reader`: the bytes that it yields, and whether an error comes after them, or the end.
pub record Reader : Type 0 where
  pub yields : Bytes
  pub fails : Bool

abbrev pub whole : Bytes → Reader
whole b = record { yields = b; fails = false }

pub record Codec : Type 0 where
  -- `json.NewEncoder(w).Encode(&node)`; `none` is an error.
  pub encode_node : Node → Option Bytes
  -- `json.MarshalIndent(&node, "", "\t")`
  pub indent_node : Node → Option Bytes
  -- `json.MarshalIndent(&value, "", "\t")` of one value
  pub indent_raw : Raw → Option Bytes
  -- `json.NewDecoder(r).Decode(node)` into a new node: the first JSON value that the reader yields.
  pub decode_node : Reader → Option Node
  -- A DEFLATE writer with a preset dictionary at the default level, from its start to its `Close`.
  pub deflate : Bytes → Bytes → Bytes
  -- A DEFLATE reader with a preset dictionary.
  pub inflate : Bytes → Bytes → Reader
  -- HMAC-SHA1 of a message, under a key.
  pub hmac_sha1 : Bytes → Bytes → Bytes
  -- The texts of the node are UTF-8, and its values are JSON.
  pub is_encodable : Node → Bool
  -- What encoding makes of one value: the same JSON without insignificant white space.
  pub compact : Raw → Raw

abbrev pub map_raw : (Raw → Raw) → Option Raw → Option Raw
map_raw f none = none
map_raw f (some v) = some (f v)

-- The second node is what comes out when the first one is encoded and decoded.
pub record SameNode (codec : Codec) (n m : Node) : Type 0 where
  pub ip_addr : m.ip_addr ≡ n.ip_addr
  pub time_ns : m.time_ns ≡ n.time_ns
  pub features : (k : Text) → lookup k m.features ≡ map_raw codec.compact (lookup k n.features)

-- An encoded node, with the node that it decodes to.
pub record Encoded (codec : Codec) (n : Node) : Type 0 where
  pub json : Bytes
  pub decoded : Node
  pub encodes : codec.encode_node n ≡ some json
  pub decodes : codec.decode_node (whole json) ≡ some decoded
  pub same : SameNode codec n decoded

-- The same features up to white space in the values.
abbrev pub SameFeatures : Codec → Features → Features → Type 0
SameFeatures codec fs gs =
    (k : Text) → map_raw codec.compact (lookup k gs) ≡ map_raw codec.compact (lookup k fs)

-- An indented node, with the node that it decodes to, also with a line feed behind it.
pub record Indented (codec : Codec) (n : Node) : Type 0 where
  pub json : Bytes
  pub decoded : Node
  pub indents : codec.indent_node n ≡ some json
  pub decodes : codec.decode_node (whole (json ++ (0xa ∷ []))) ≡ some decoded
  pub same : SameFeatures codec n.features decoded.features

pub record IsLawful (codec : Codec) : Type 0 where
  pub encode-decode : (n : Node) → codec.is_encodable n ≡ true → Encoded codec n
  pub indent-decode : (n : Node) → codec.is_encodable n ≡ true → Indented codec n
  -- Indenting takes the white space out first.
  pub compact_idem : (v : Raw) → codec.compact (codec.compact v) ≡ codec.compact v
  pub indent_raw-compact : (v : Raw) → codec.indent_raw (codec.compact v) ≡ codec.indent_raw v
  -- What is decoded into a Go map has no key twice.
  pub decode-IsMap : (r : Reader) (n : Node) → codec.decode_node r ≡ some n → IsMap n.features
  pub inflate-deflate : (dict b : Bytes) → codec.inflate dict (codec.deflate dict b) ≡ whole b
  pub length-deflate : (dict b : Bytes) → 1 ≤ length (codec.deflate dict b)
  pub length-hmac_sha1 : (key b : Bytes) → length (codec.hmac_sha1 key b) ≡ 20
