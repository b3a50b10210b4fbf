-- ===== src/Samples/Json.antt =====
-- An encoding of nodes in place of JSON: texts and lists stand behind their lengths.
use mathlib.Core.List.{append_assoc}
use nameq.Base.{
  ap, ◌∙◌, ℕ, zero, suc, ◌≡◌, refl, Option, none, some, [], ◌∷◌, ◌++◌, length, take, drop, arith,
}
use nameq.Base.Int.{ℤ, pos, negsuc}
use nameq.Base.Text.{Text, Bytes}
use nameq.Node.{Raw, Features, Node}

-- A value and the bytes that are left.
abbrev Parser : Type 0 → Type 0
Parser A = Bytes → Option (A × Bytes)

infixl 5 ◌>>=◌
abbrev ◌>>=◌ : {A B : Type 0} → Option A → (A → Option B) → Option B
none >>= f = none
some a >>= f = f a

put_text : Text → Bytes → Bytes
put_text t rest = length t ∷ (t ++ rest)

get_text : Parser Text
get_text [] = none
get_text (n ∷ rest) = some (take n rest, drop n rest)

put_raw : Raw → Bytes → Bytes
unfolding put_text
put_raw none rest = 0 ∷ rest
put_raw (some t) rest = 1 ∷ put_text t rest

get_raw : Parser Raw
unfolding get_text
get_raw [] = none
get_raw (zero ∷ rest) = some (none, rest)
get_raw (suc _ ∷ rest) = do (t, rest') ← get_text rest; some (some t, rest')

put_features : Features → Bytes → Bytes
unfolding put_raw
put_features [] rest = rest
put_features ((k, v) ∷ m) rest = put_text k (put_raw v (put_features m rest))

get_features : ℕ → Parser Features
unfolding get_raw
get_features zero rest = some ([], rest)
get_features (suc n) rest = do
  (k, rest₁) ← get_text rest
  (v, rest₂) ← get_raw rest₁
  (m, rest₃) ← get_features n rest₂
  some ((k, v) ∷ m, rest₃)

put_time : ℤ → Bytes → Bytes
put_time (pos n) rest = 0 ∷ n ∷ rest
put_time (negsuc n) rest = 1 ∷ n ∷ rest

get_time : Parser ℤ
get_time (zero ∷ n ∷ rest) = some (pos n, rest)
get_time (suc _ ∷ n ∷ rest) = some (negsuc n, rest)
get_time _ = none

unfoldable pub put_node : Node → Bytes
unfolding put_features put_time
put_node n =
    put_text n.ip_addr (put_time n.time_ns (length n.features ∷ put_features n.features []))

get_count : Bytes → Option (Features × Bytes)
unfolding get_features
get_count [] = none
get_count (count ∷ rest) = get_features count rest

unfoldable pub get_node : Bytes → Option Node
unfolding get_count get_time
get_node b = do
  (ip_addr, rest₁) ← get_text b
  (time_ns, rest₂) ← get_time rest₁
  (features, rest₃) ← get_count rest₂
  some (record { ip_addr = ip_addr; time_ns = time_ns; features = features })

take-length : (xs ys : Bytes) → take (length xs) (xs ++ ys) ≡ xs
take-length [] ys = refl
take-length (x ∷ xs) ys = rw (take-length xs ys)

drop-length : (xs ys : Bytes) → drop (length xs) (xs ++ ys) ≡ ys
drop-length [] ys = refl
drop-length (x ∷ xs) ys = drop-length xs ys

get-put_text : (t : Text) (rest : Bytes) → get_text (put_text t rest) ≡ some (t, rest)
unfolding get_text put_text
get-put_text t rest = rw (take-length t rest, drop-length t rest)

get-put_raw : (v : Raw) (rest : Bytes) → get_raw (put_raw v rest) ≡ some (v, rest)
unfolding get_raw put_raw
get-put_raw none rest = refl
get-put_raw (some t) rest = rw (take-length t rest, drop-length t rest)

get-put_features :
    (m : Features) (rest : Bytes) → get_features (length m) (put_features m rest) ≡ some (m, rest)
unfolding get_features put_features
get-put_features [] rest = refl
get-put_features ((k, v) ∷ m) rest = ground (
  arith,
  get-put_text k (put_raw v (put_features m rest)),
  get-put_raw v (put_features m rest),
  get-put_features m rest,
)

get-put_time : (t : ℤ) (rest : Bytes) → get_time (put_time t rest) ≡ some (t, rest)
unfolding get_time put_time
get-put_time (pos n) rest = refl
get-put_time (negsuc n) rest = refl

pub get-put_node : (n : Node) → get_node (put_node n) ≡ some n
unfolding get_node put_node
get-put_node n =
    let rest = length n.features ∷ put_features n.features [] in
    ground (
      arith,
      get-put_text n.ip_addr (put_time n.time_ns rest),
      get-put_time n.time_ns rest,
      get-put_features n.features [],
    )

put_text-append : (t : Text) (rest r : Bytes) → put_text t rest ++ r ≡ put_text t (rest ++ r)
unfolding put_text
put_text-append t rest r = ap (◌∷◌ (length t)) (append_assoc t rest r)

put_raw-append : (v : Raw) (rest r : Bytes) → put_raw v rest ++ r ≡ put_raw v (rest ++ r)
unfolding put_raw
put_raw-append none rest r = refl
put_raw-append (some t) rest r = ap (◌∷◌ 1) (put_text-append t rest r)

put_features-append :
    (m : Features) (rest r : Bytes) → put_features m rest ++ r ≡ put_features m (rest ++ r)
unfolding put_features
put_features-append [] rest r = refl
put_features-append ((k, v) ∷ m) rest r =
    put_text-append k (put_raw v (put_features m rest)) r
    ∙ ap (put_text k) (put_raw-append v (put_features m rest) r)
    ∙ ap (λ (b : Bytes). put_text k (put_raw v b)) (put_features-append m rest r)

put_time-append : (t : ℤ) (rest r : Bytes) → put_time t rest ++ r ≡ put_time t (rest ++ r)
unfolding put_time
put_time-append (pos n) rest r = refl
put_time-append (negsuc n) rest r = refl

-- What stands behind a node is not read.
pub get-put_node_append : (n : Node) (r : Bytes) → get_node (put_node n ++ r) ≡ some n
unfolding get_node put_node
get-put_node_append n r =
    let fs = put_features n.features in
    let rest : Bytes = length n.features ∷ fs r in
    ground (
      arith,
      put_text-append n.ip_addr (put_time n.time_ns (length n.features ∷ fs [])) r,
      put_time-append n.time_ns (length n.features ∷ fs []) r,
      put_features-append n.features [] r,
      get-put_text n.ip_addr (put_time n.time_ns rest),
      get-put_time n.time_ns rest,
      get-put_features n.features r,
    )
