-- ===== src/Storage/Credentials.antt =====
-- `parseCredentials` of service/storage.go.
use mathlib.Core.List.{append-nil, append_assoc}
use nameq.Base.{
  ℕ, ◌≡◌, refl, ap, sym, ◌∙◌, ◌==◌, ◌||◌, ◌&&◌, leb, Bool, true, false, Option, none, some, List,
  [], ◌∷◌, ◌++◌, arith, if◌then◌else◌,
}
use nameq.Base.Text.{Text, Bytes}
use nameq.Base.Result.{Result, ok, err}

-- White space of ASCII: tab, line feed, vertical tab, form feed, carriage return and space.
unfoldable pub is_space : ℕ → Bool
is_space c = (leb 9 c && leb c 13) || c == 0x20

-- `strings.Fields` of an ASCII text, after the bytes `word` of a field, if one is open.
unfoldable pub fields_from : Text → Bytes → List Text
fields_from [] [] = []
fields_from (w ∷ word) [] = (w ∷ word) ∷ []
fields_from [] (c ∷ rest) = fields_from (if is_space c then [] else c ∷ []) rest
fields_from (w ∷ word) (c ∷ rest) = elim (is_space c) [
  | true ↦ (w ∷ word) ∷ fields_from [] rest
  | false ↦ fields_from (w ∷ (word ++ (c ∷ []))) rest
]

-- The trimming before it changes nothing: white space at the ends bounds no field.
abbrev pub fields : Bytes → List Text
fields text = fields_from [] text

pub data CredentialsError : Type 0 where
  bad_format : CredentialsError

-- The access key and the secret key, if there is a file.
unfoldable pub parse_credentials : Option Bytes → Result CredentialsError (Option (Text × Text))
unfolding fields_from
parse_credentials none = ok none
parse_credentials (some content) = elim (fields content) [
  | [] ↦ err bad_format
  | _ ∷ [] ↦ err bad_format
  | access_key ∷ secret_key ∷ [] ↦ ok (some (access_key, secret_key))
  | _ ∷ _ ∷ _ ∷ _ ↦ err bad_format
]

-- A word, and a run of white space.
abbrev pub IsWord : Bytes → Type 0
IsWord [] = Unit
IsWord (c ∷ rest) = (is_space c ≡ false) × IsWord rest

abbrev pub IsBlank : Bytes → Type 0
IsBlank [] = Unit
IsBlank (c ∷ rest) = (is_space c ≡ true) × IsBlank rest

skip_space :
    (c : ℕ) (rest : Bytes) → is_space c ≡ true → fields_from [] (c ∷ rest) ≡ fields_from [] rest
unfolding fields_from
skip_space c rest h = ap (λ (b : Bool). fields_from (if b then [] else c ∷ []) rest) h

begin_word :
    (c : ℕ) (rest : Bytes)
    → is_space c ≡ false
    → fields_from [] (c ∷ rest) ≡ fields_from (c ∷ []) rest
unfolding fields_from
begin_word c rest h = ap (λ (b : Bool). fields_from (if b then [] else c ∷ []) rest) h

module _ (w : ℕ) (word : Bytes) (c : ℕ) (rest : Bytes) where
  add_byte :
      is_space c ≡ false
      → fields_from (w ∷ word) (c ∷ rest) ≡ fields_from (w ∷ (word ++ (c ∷ []))) rest
  unfolding fields_from
  add_byte h = ground arith

  end_word :
      is_space c ≡ true → fields_from (w ∷ word) (c ∷ rest) ≡ (w ∷ word) ∷ fields_from [] rest
  unfolding fields_from
  end_word h = ground arith

fields_from-blank :
    (blank rest : Bytes) → IsBlank blank → fields_from [] (blank ++ rest) ≡ fields_from [] rest
fields_from-blank [] rest h = refl
fields_from-blank (c ∷ blank) rest h =
    skip_space c (blank ++ rest) h.0 ∙ fields_from-blank blank rest h.1

fields_from-word :
    (w : ℕ) (word more rest : Bytes)
    → IsWord more
    → fields_from (w ∷ word) (more ++ rest) ≡ fields_from (w ∷ (word ++ more)) rest
fields_from-word w word [] rest h =
    ap (λ (l : Bytes). fields_from (w ∷ l) rest) (sym (append-nil word))
fields_from-word w word (c ∷ more) rest h =
    add_byte w word c (more ++ rest) h.0
    ∙ fields_from-word w (word ++ (c ∷ [])) more rest h.1
    ∙ ap (λ (l : Bytes). fields_from (w ∷ l) rest) (append_assoc word (c ∷ []) more)

fields_from-start :
    (c : ℕ) (word rest : Bytes)
    → IsWord (c ∷ word)
    → fields_from [] ((c ∷ word) ++ rest) ≡ fields_from (c ∷ word) rest
fields_from-start c word rest h =
    begin_word c (word ++ rest) h.0 ∙ fields_from-word c [] word rest h.1

blank_only : (b : Bytes) → IsBlank b → fields_from [] b ≡ []
unfolding fields_from
blank_only [] h = refl
blank_only (c ∷ b) h = skip_space c b h.0 ∙ blank_only b h.1

fields_from-end :
    (w : ℕ) (word blank : Bytes) → IsBlank blank → fields_from (w ∷ word) blank ≡ (w ∷ word) ∷ []
unfolding fields_from
fields_from-end w word [] h = refl
fields_from-end w word (c ∷ blank) h =
    end_word w word c blank h.0 ∙ ap (λ (l : List Text). (w ∷ word) ∷ l) (blank_only blank h.1)

fields_from-space :
    (w : ℕ) (word : Bytes) (c : ℕ) (blank rest : Bytes)
    → IsBlank (c ∷ blank)
    → fields_from (w ∷ word) ((c ∷ blank) ++ rest) ≡ (w ∷ word) ∷ fields_from [] rest
fields_from-space w word c blank rest h =
    end_word w word c (blank ++ rest) h.0
    ∙ ap (λ (l : List Text). (w ∷ word) ∷ l) (fields_from-blank blank rest h.1)

-- A file of two words of ASCII, with white space between them, and before and behind them in any
-- amount, gives the two words as the access key and the secret key.
pub parse_credentials-words :
    (before : Bytes) (a : ℕ) (access : Bytes) (c : ℕ) (between : Bytes) (s : ℕ)
    (secret behind : Bytes)
    → IsBlank before
    → IsWord (a ∷ access)
    → IsBlank (c ∷ between)
    → IsWord (s ∷ secret)
    → IsBlank behind
    → parse_credentials
        (some (before ++ ((a ∷ access) ++ ((c ∷ between) ++ ((s ∷ secret) ++ behind)))))
      ≡ ok (some (a ∷ access, s ∷ secret))
unfolding parse_credentials
parse_credentials-words before a access c between s secret behind h i j k l =
    let rest = (s ∷ secret) ++ behind in
    let e : fields (before ++ ((a ∷ access) ++ ((c ∷ between) ++ rest)))
        ≡ (a ∷ access) ∷ (s ∷ secret) ∷ [] =
      fields_from-blank before ((a ∷ access) ++ ((c ∷ between) ++ rest)) h
      ∙ fields_from-start a access ((c ∷ between) ++ rest) i
      ∙ fields_from-space a access c between rest j
      ∙ ap (λ (f : List Text). (a ∷ access) ∷ f)
          (fields_from-start s secret behind k ∙ fields_from-end s secret behind l) in
    ground (arith, e)
