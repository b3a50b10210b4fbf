-- ===== src/Samples.antt =====
-- Concrete functions in place of the packages that the service calls, for the tests: they show that
-- the assumed laws can hold.
pub mod Json
pub mod Net
pub mod Disk
use nameq.Base.{
  ℕ, zero, ◌+◌, ◌*◌, ◌≤◌, ◌≡◌, refl, Bool, true, false, Option, none, some, List, [], ◌∷◌, length,
  replicate, length-replicate, arith, ap, ◌∙◌, Option-cases, inl, inr,
}
use nameq.Base.Text.{Text, Bytes, codes}
use nameq.Base.Map.{lookup, erase, lookup-erase, erase-IsMap, IsMap}
use nameq.Node.{Raw, Node, Features}
use nameq.Codec.{Codec, Reader, whole, Encoded, IsLawful, map_raw, SameNode}
use Json.{put_node, get_node, get-put_node, get-put_node_append}

sum : Bytes → ℕ
sum [] = 0
sum (b ∷ rest) = b + sum rest

abbrev digest : Bytes → Bytes → Bytes
digest key b = replicate 20 (sum key + 2 * sum b)

unpack : Bytes → Reader
unpack [] = record { yields = []; fails = true }
unpack (_ ∷ rest) = whole rest

or_null : Raw → Bytes
or_null none = codes "null"
or_null (some v) = v

-- The first value of each key.
unique : Features → Features
unfolding erase
unique [] = []
unique ((k, v) ∷ m) = (k, v) ∷ erase k (unique m)

abbrev unique_node : Option Node → Option Node
unique_node none = none
unique_node (some n) = some (record n { features = unique n.features })

abbrev decode : Reader → Option Node
decode r = unique_node (get_node r.yields)

lookup-unique : (j : Text) (m : Features) → lookup j (unique m) ≡ lookup j m
unfolding unique lookup
lookup-unique j [] = refl
lookup-unique j ((k, v) ∷ m) = ground (arith, lookup-erase k j (unique m), lookup-unique j m)

unique-IsMap : (m : Features) → IsMap (unique m)
unfolding unique
unique-IsMap [] = tt
unique-IsMap ((k, v) ∷ m) =
    (ground (arith, lookup-erase k k (unique m)), erase-IsMap k (unique m) (unique-IsMap m))

decode-IsMap : (r : Reader) (n : Node) → decode r ≡ some n → IsMap n.features
decode-IsMap r n h = elim (Option-cases (get_node r.yields)) [
  | inl e ↦ absurd (ground arith)
  | inr (m, e) ↦ ground (arith, unique-IsMap m.features)
]

unfoldable pub codec : Codec
unfolding unpack sum or_null put_node get_node unique
codec = record {
  encode_node = λ n. some (put_node n);
  indent_node = λ n. some (put_node n);
  indent_raw = λ v. some (or_null v);
  decode_node = decode;
  deflate = λ dict b. 0 ∷ b;
  inflate = λ dict b. unpack b;
  hmac_sha1 = digest;
  is_encodable = λ n. true;
  compact = λ v. v;
}

map_raw_same : (o : Option Raw) → o ≡ map_raw (λ v. v) o
map_raw_same none = refl
map_raw_same (some v) = refl

pub codec-IsLawful : IsLawful codec
unfolding codec
codec-IsLawful = record {
  encode-decode = λ n _. record {
    json = put_node n;
    decoded = record n { features = unique n.features };
    encodes = refl;
    decodes = ap unique_node (get-put_node n);
    same = record {
      ip_addr = refl;
      time_ns = refl;
      features = λ k. lookup-unique k n.features ∙ map_raw_same (lookup k n.features);
    };
  };
  indent-decode = λ n _. record {
    json = put_node n;
    decoded = record n { features = unique n.features };
    indents = refl;
    decodes = ap unique_node (get-put_node_append n (0xa ∷ []));
    same = λ k. ap (map_raw (λ v. v)) (lookup-unique k n.features);
  };
  compact_idem = λ v. refl;
  indent_raw-compact = λ v. refl;
  decode-IsMap = decode-IsMap;
  inflate-deflate = λ dict b. refl;
  length-deflate = λ dict b. omega arith;
  length-hmac_sha1 = λ key b. refl;
}
