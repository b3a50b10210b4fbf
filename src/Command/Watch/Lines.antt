-- ===== src/Command/Watch/Lines.antt =====
-- The lines that `nameq monitor-features` prints, as a program on its output reads them.
use mathlib.Core.List.{append_assoc, append-nil}
use nameq.Base.{ℕ, ◌≡◌, ◌==◌, refl, ap, sym, ◌∙◌, List, [], ◌∷◌, ◌++◌, if◌then◌else◌, All, map}
use nameq.Base.Text.{Text}
use nameq.Command.Watch.{format_line}

-- What a byte means to a reader of lines of fields.
pub data Kind : Type 0 where
  tab line_feed other : Kind

unfoldable pub kind_of : ℕ → Kind
kind_of c = if c == 0x9 then tab else if c == 0xa then line_feed else other

-- The lines of a text as lists of fields, after the fields and the part of one that are read of the
-- first line; a line without an end is dropped.
unfoldable pub read_lines : List Text → Text → Text → List (List Text)
unfolding kind_of
read_lines fields field [] = []
read_lines fields field (c ∷ rest) = elim (kind_of c) [
  | tab ↦ read_lines (fields ++ (field ∷ [])) [] rest
  | line_feed ↦ (fields ++ (field ∷ [])) ∷ read_lines [] [] rest
  | other ↦ read_lines fields (field ++ (c ∷ [])) rest
]

-- A text without tabs and line feeds.
abbrev pub IsField : Text → Type 0
IsField [] = Unit
IsField (c ∷ rest) = (kind_of c ≡ other) × IsField rest

pub IsField-append : (a b : Text) → IsField a → IsField b → IsField (a ++ b)
IsField-append [] b h k = k
IsField-append (c ∷ a) b h k = (h.0, IsField-append a b h.1 k)

read_other :
    (fields : List Text) (field : Text) (c : ℕ) (rest : Text)
    → kind_of c ≡ other
    → read_lines fields field (c ∷ rest) ≡ read_lines fields (field ++ (c ∷ [])) rest
unfolding read_lines
read_other fields field c rest h =
    ap
      (λ (k : Kind). (elim k [
        | tab ↦ read_lines (fields ++ (field ∷ [])) [] rest
        | line_feed ↦ (fields ++ (field ∷ [])) ∷ read_lines [] [] rest
        | other ↦ read_lines fields (field ++ (c ∷ [])) rest
      ]))
      h

read_field :
    (fields : List Text) (field t rest : Text)
    → IsField t
    → read_lines fields field (t ++ rest) ≡ read_lines fields (field ++ t) rest
read_field fields field [] rest h =
    ap (λ (f : Text). read_lines fields f rest) (sym (append-nil field))
read_field fields field (c ∷ t) rest h =
    read_other fields field c (t ++ rest) h.0
    ∙ read_field fields (field ++ (c ∷ [])) t rest h.1
    ∙ ap (λ (f : Text). read_lines fields f rest) (append_assoc field (c ∷ []) t)

read_tab :
    (fields : List Text) (field rest : Text)
    → read_lines fields field (0x9 ∷ rest) ≡ read_lines (fields ++ (field ∷ [])) [] rest
unfolding read_lines kind_of
read_tab fields field rest = refl

read_line_feed :
    (fields : List Text) (field rest : Text)
    → read_lines fields field (0xa ∷ rest) ≡ (fields ++ (field ∷ [])) ∷ read_lines [] [] rest
unfolding read_lines kind_of
read_line_feed fields field rest = refl

abbrev pub all_lines : List Text → Text
all_lines [] = []
all_lines (line ∷ rest) = line ++ all_lines rest

-- What a line is made of.
pub record Entry : Type 0 where
  pub name : Text
  pub host : Text
  pub value : Text

abbrev pub fields_of : Entry → List Text
fields_of e = e.name ∷ e.host ∷ e.value ∷ []

abbrev pub IsEntry : Entry → Type 0
IsEntry e = IsField e.name × IsField e.host × IsField e.value

abbrev pub line_of : Entry → Text
line_of e = format_line e.name e.host e.value

format_line-append :
    (name host value rest : Text)
    → format_line name host value ++ rest
      ≡ name ++ (0x9 ∷ (host ++ (0x9 ∷ (value ++ (0xa ∷ rest)))))
format_line-append name host value rest =
    append_assoc name (0x9 ∷ (host ++ (0x9 ∷ (value ++ (0xa ∷ []))))) rest
    ∙ ap (λ (t : Text). name ++ (0x9 ∷ t))
        (append_assoc host (0x9 ∷ (value ++ (0xa ∷ []))) rest
          ∙ ap (λ (t : Text). host ++ (0x9 ∷ t)) (append_assoc value (0xa ∷ []) rest))

read-line_of :
    (e : Entry) (rest : Text)
    → IsEntry e
    → read_lines [] [] (line_of e ++ rest) ≡ fields_of e ∷ read_lines [] [] rest
read-line_of e rest (h, i, j) =
    ap (read_lines [] []) (format_line-append e.name e.host e.value rest)
    ∙ read_field [] [] e.name _ h
    ∙ read_tab [] e.name _
    ∙ read_field (e.name ∷ []) [] e.host _ i
    ∙ read_tab (e.name ∷ []) e.host _
    ∙ read_field (e.name ∷ e.host ∷ []) [] e.value _ j
    ∙ read_line_feed (e.name ∷ e.host ∷ []) e.value rest

pub read-all_lines :
    (es : List Entry)
    → All IsEntry es
    → read_lines [] [] (all_lines (map line_of es)) ≡ map fields_of es
unfolding read_lines
read-all_lines [] h = refl
read-all_lines (e ∷ es) (h, hs) =
    read-line_of e (all_lines (map line_of es)) h
    ∙ ap (λ (ls : List (List Text)). fields_of e ∷ ls) (read-all_lines es hs)
