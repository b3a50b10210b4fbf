-- ===== src/Command/Watch/Escapes.antt =====
-- How the escapes of `nameq monitor-features` read back as JSON.
use mathlib.Core.List.{append_assoc}
use nameq.Base.{
  ℕ, suc, ◌-◌, ◌*◌, ◌+◌, ◌/◌, ◌%◌, ◌≤◌, ◌<◌, ◌≡◌, ◌==◌, refl, ap, ◌∙◌, ltb, leb, ◌&&◌, Bool, true,
  false, Option, none, some, [], ◌∷◌, ◌++◌, if◌then◌else◌, arith,
}
use nameq.Base.Text.{Text}
use nameq.Command.Watch.{Unicode, hex_digit, hex_with, hex4, is_shown, utf8, escape_rune}

-- The value of a hexadecimal digit.
unfoldable pub hex_value : ℕ → Option ℕ
hex_value c =
    if leb b'0' c && leb c b'9'
    then some (c - b'0')
    else if leb b'a' c && leb c b'f'
    then some (10 + (c - b'a'))
    else if leb b'A' c && leb c b'F'
    then some (10 + (c - b'A'))
    else none

abbrev join_digits : Option ℕ → Option ℕ → Option ℕ → Option ℕ → Text → Option (ℕ × Text)
join_digits (some a) (some b) (some c) (some d) rest = some (((a * 16 + b) * 16 + c) * 16 + d, rest)
join_digits _ _ _ _ rest = none

-- An escape of JSON: a backslash, the letter u and four digits.
unfoldable pub read_escape : Text → Option (ℕ × Text)
unfolding hex_value
read_escape (backslash ∷ u ∷ a ∷ b ∷ c ∷ d ∷ rest) =
    if backslash == b'\\' && u == b'u'
    then join_digits (hex_value a) (hex_value b) (hex_value c) (hex_value d) rest
    else none
read_escape _ = none

hex_value-hex_digit : (n : ℕ) → n < 16 → hex_value (hex_digit n) ≡ some n
unfolding hex_value
hex_value-hex_digit n h = ground arith

hex_with-more :
    (fuel width n : ℕ)
    → ltb n 16 && leb width 1 ≡ false
    → hex_with (suc fuel) width n ≡ hex_with fuel (width - 1) (n / 16) ++ (hex_digit (n % 16) ∷ [])
unfolding hex_with
hex_with-more fuel width n h =
    ap
      (λ (b : Bool).
        if b
        then hex_digit n ∷ []
        else hex_with fuel (width - 1) (n / 16) ++ (hex_digit (n % 16) ∷ []))
      h

hex_with-last :
    (fuel width n : ℕ)
    → ltb n 16 && leb width 1 ≡ true
    → hex_with (suc fuel) width n ≡ hex_digit n ∷ []
unfolding hex_with
hex_with-last fuel width n h =
    ap
      (λ (b : Bool).
        if b
        then hex_digit n ∷ []
        else hex_with fuel (width - 1) (n / 16) ++ (hex_digit (n % 16) ∷ []))
      h

hex_with-wide :
    (fuel width n : ℕ)
    → 1 < width
    → hex_with (suc fuel) width n ≡ hex_with fuel (width - 1) (n / 16) ++ (hex_digit (n % 16) ∷ [])
hex_with-wide fuel width n h = hex_with-more fuel width n (ground arith)

append_three :
    (t : Text) (a b c : ℕ) → ((t ++ (a ∷ [])) ++ (b ∷ [])) ++ (c ∷ []) ≡ t ++ (a ∷ b ∷ c ∷ [])
append_three t a b c =
    append_assoc (t ++ (a ∷ [])) (b ∷ []) (c ∷ []) ∙ append_assoc t (a ∷ []) (b ∷ c ∷ [])

-- The three last digits, behind those of what is above them.
hex4-top :
    (r : ℕ)
    → hex4 r
      ≡ hex_with 5 1 (r / 16 / 16 / 16)
        ++ (hex_digit (r / 16 / 16 % 16) ∷ hex_digit (r / 16 % 16) ∷ hex_digit (r % 16) ∷ [])
unfolding hex4
hex4-top r =
    hex_with-wide 7 4 r (omega arith)
    ∙ ap (λ (t : Text). t ++ (hex_digit (r % 16) ∷ []))
        (hex_with-wide 6 3 (r / 16) (omega arith)
          ∙ ap (λ (t : Text). t ++ (hex_digit (r / 16 % 16) ∷ []))
              (hex_with-wide 5 2 (r / 16 / 16) (omega arith)))
    ∙ append_three (hex_with 5 1 (r / 16 / 16 / 16)) (hex_digit (r / 16 / 16 % 16))
        (hex_digit (r / 16 % 16)) (hex_digit (r % 16))

hex4-small :
    (r : ℕ)
    → r < 0x10000
    → hex4 r
      ≡ hex_digit (r / 16 / 16 / 16)
        ∷ hex_digit (r / 16 / 16 % 16)
        ∷ hex_digit (r / 16 % 16)
        ∷ hex_digit (r % 16)
        ∷ []
hex4-small r h =
    hex4-top r
    ∙ ap
        (λ (t : Text).
          t ++ (hex_digit (r / 16 / 16 % 16) ∷ hex_digit (r / 16 % 16) ∷ hex_digit (r % 16) ∷ []))
        (hex_with-last 4 1 (r / 16 / 16 / 16) (ground arith))

hex4-large :
    (r : ℕ)
    → 0x10000 ≤ r
    → r < 0x100000
    → hex4 r
      ≡ hex_digit (r / 16 / 16 / 16 / 16)
        ∷ hex_digit (r / 16 / 16 / 16 % 16)
        ∷ hex_digit (r / 16 / 16 % 16)
        ∷ hex_digit (r / 16 % 16)
        ∷ hex_digit (r % 16)
        ∷ []
hex4-large r h k =
    hex4-top r
    ∙ ap
        (λ (t : Text).
          t ++ (hex_digit (r / 16 / 16 % 16) ∷ hex_digit (r / 16 % 16) ∷ hex_digit (r % 16) ∷ []))
        (hex_with-more 4 1 (r / 16 / 16 / 16) (ground arith)
          ∙ ap (λ (t : Text). t ++ (hex_digit (r / 16 / 16 / 16 % 16) ∷ []))
              (hex_with-last 3 0 (r / 16 / 16 / 16 / 16) (ground arith)))

read_escape-digits :
    (a b c d : ℕ) (rest : Text)
    → a < 16
    → b < 16
    → c < 16
    → d < 16
    → read_escape (b'\\' ∷ b'u' ∷ hex_digit a ∷ hex_digit b ∷ hex_digit c ∷ hex_digit d ∷ rest)
      ≡ some (((a * 16 + b) * 16 + c) * 16 + d, rest)
unfolding read_escape
read_escape-digits a b c d rest h i j k =
    rw
      (
        hex_value-hex_digit a h,
        hex_value-hex_digit b i,
        hex_value-hex_digit c j,
        hex_value-hex_digit d k,
      )
      refl

module _ (u : Unicode) (r : ℕ) (rest : Text) (hidden : is_shown u r ≡ false) where
  escape_rune-hex4 : escape_rune u r ≡ b'\\' ∷ b'u' ∷ hex4 r
  unfolding escape_rune
  escape_rune-hex4 = ap (λ (b : Bool). if b then utf8 r else b'\\' ∷ b'u' ∷ hex4 r) hidden

  read_hex4 :
      (digits : Text)
      → hex4 r ≡ digits
      → read_escape (escape_rune u r ++ rest) ≡ read_escape (b'\\' ∷ b'u' ∷ (digits ++ rest))
  read_hex4 digits e =
      ap (λ (t : Text). read_escape (t ++ rest)) escape_rune-hex4
      ∙ ap (λ (t : Text). read_escape (b'\\' ∷ b'u' ∷ (t ++ rest))) e

  read_small : r < 0x10000 → read_escape (escape_rune u r ++ rest) ≡ some (r, rest)
  read_small h =
      read_hex4 _ (hex4-small r h)
      ∙ read_escape-digits (r / 16 / 16 / 16) (r / 16 / 16 % 16) (r / 16 % 16) (r % 16) rest
          (omega arith) (omega arith) (omega arith) (omega arith)
      ∙ ap (λ (n : ℕ). some (n, rest)) (omega arith)

  read_large :
      0x10000 ≤ r
      → r < 0x100000
      → read_escape (escape_rune u r ++ rest) ≡ some (r / 16, hex_digit (r % 16) ∷ rest)
  read_large h k =
      read_hex4 _ (hex4-large r h k)
      ∙ read_escape-digits (r / 16 / 16 / 16 / 16) (r / 16 / 16 / 16 % 16) (r / 16 / 16 % 16)
          (r / 16 % 16) (hex_digit (r % 16) ∷ rest) (omega arith) (omega arith) (omega arith)
          (omega arith)
      ∙ ap (λ (n : ℕ). some (n, hex_digit (r % 16) ∷ rest)) (omega arith)

-- A rune that is not printed as it is and has 16 bits is read back from its escape, whatever follows.
-- One above that, up to 20 bits, is not: what is read is the rune without its last digit, and the
-- digit then stands as a character of the text.
pub escape_rune-read :
    (u : Unicode) (r : ℕ) (rest : Text)
    → is_shown u r ≡ false
    → (r < 0x10000 → read_escape (escape_rune u r ++ rest) ≡ some (r, rest))
      × (0x10000 ≤ r
          → r < 0x100000
          → read_escape (escape_rune u r ++ rest) ≡ some (r / 16, hex_digit (r % 16) ∷ rest))
escape_rune-read u r rest h = (read_small u r rest h, read_large u r rest h)
