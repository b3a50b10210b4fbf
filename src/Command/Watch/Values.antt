-- ===== src/Command/Watch/Values.antt =====
-- The values that `nameq monitor-features` prints have no tabs and no line feeds.
use mathlib.Core.Path.{subst}
use nameq.Base.{
  ℕ, zero, suc, ◌-◌, ◌+◌, ◌/◌, ◌%◌, ◌≤◌, ◌≡◌, refl, ap, ltb, leb, ◌&&◌, ◌||◌, true, Option, none,
  some, List, [], ◌∷◌, arith, Bool-cases, Option-cases, inl, inr,
}
use nameq.Base.Text.{Text, Bytes}
use nameq.Base.Run.{Run, returns, panics}
use nameq.Command.Watch.{
  Unicode, RawJson, utf8, hex_digit, hex_with, hex4, is_shown, escape_rune, escape, value_of,
  runes_after, escape_marshaled,
}
use nameq.Command.Watch.Lines.{other, kind_of, IsField, IsField-append}

-- Tabs and line feeds are white space to the package unicode.
pub record IsUnicode (u : Unicode) : Type 0 where
  pub tab_space : u.is_space 0x9 ≡ true
  pub line_feed_space : u.is_space 0xa ≡ true

hex_digit-other : (n : ℕ) → kind_of (hex_digit n) ≡ other
unfolding kind_of
hex_digit-other n = ground arith

hex_with-IsField : (fuel width n : ℕ) → IsField (hex_with fuel width n)
unfolding hex_with
hex_with-IsField zero width n = tt
hex_with-IsField (suc fuel) width n = elim (Bool-cases (ltb n 16 && leb width 1)) [
  | inl e ↦ rw e (hex_digit-other n, tt)
  | inr e ↦ rw e (
      IsField-append (hex_with fuel (width - 1) (n / 16)) (hex_digit (n % 16) ∷ [])
        (hex_with-IsField fuel (width - 1) (n / 16)) (hex_digit-other (n % 16), tt))
]

shown_other : (u : Unicode) (laws : IsUnicode u) (r : ℕ) → is_shown u r ≡ true → kind_of r ≡ other
unfolding kind_of
shown_other u laws r h = ground (arith, laws.tab_space, laws.line_feed_space)

high_other : (c : ℕ) → 0x80 ≤ c → kind_of c ≡ other
unfolding kind_of
high_other c h = ground arith

utf8-IsField : (r : ℕ) → kind_of r ≡ other → IsField (utf8 r)
unfolding utf8
utf8-IsField r h =
    let high : (c n : ℕ) → 0x80 ≤ c → kind_of (c + n) ≡ other =
      λ c n k. high_other (c + n) (omega arith) in
    let two : IsField ((0xc0 + r / 64) ∷ (0x80 + r % 64) ∷ []) =
      (high 0xc0 (r / 64) (omega arith), (high 0x80 (r % 64) (omega arith), tt)) in
    let bad : IsField (0xef ∷ 0xbf ∷ 0xbd ∷ []) = (
      high_other 0xef (omega arith),
      (high_other 0xbf (omega arith), (high_other 0xbd (omega arith), tt)),
    ) in
    let tail : IsField ((0x80 + r / 64 % 64) ∷ (0x80 + r % 64) ∷ []) =
      (high 0x80 (r / 64 % 64) (omega arith), (high 0x80 (r % 64) (omega arith), tt)) in
    let three : IsField ((0xe0 + r / 4096) ∷ (0x80 + r / 64 % 64) ∷ (0x80 + r % 64) ∷ []) =
      (high 0xe0 (r / 4096) (omega arith), tail) in
    let four : IsField (
        (0xf0 + r / 262144)
        ∷ (0x80 + r / 4096 % 64)
        ∷ (0x80 + r / 64 % 64)
        ∷ (0x80 + r % 64)
        ∷ []) =
      (high 0xf0 (r / 262144) (omega arith), (high 0x80 (r / 4096 % 64) (omega arith), tail)) in
    elim (Bool-cases (ltb r 0x80)) [
      | inl a ↦ rw a (h, tt)
      | inr a ↦ elim (Bool-cases (ltb r 0x800)) [
        | inl b ↦ rw (a, b) two
        | inr b ↦ elim (Bool-cases ((leb 0xd800 r && leb r 0xdfff) || ltb 0x10ffff r)) [
          | inl c ↦ rw (a, b, c) bad
          | inr c ↦ elim (Bool-cases (ltb r 0x10000)) [
            | inl d ↦ rw (a, b, c, d) three
            | inr d ↦ rw (a, b, c, d) four
          ]
        ]
      ]
    ]

escape_rune-IsField : (u : Unicode) (laws : IsUnicode u) (r : ℕ) → IsField (escape_rune u r)
unfolding escape_rune hex4
escape_rune-IsField u laws r = elim (Bool-cases (is_shown u r)) [
  | inl e ↦ rw e (utf8-IsField r (shown_other u laws r e))
  | inr e ↦ rw e (unfold kind_of in refl, (unfold kind_of in refl, hex_with-IsField 8 4 r))
]

escape-IsField : (u : Unicode) (laws : IsUnicode u) (rs : List ℕ) → IsField (escape u rs)
unfolding escape
escape-IsField u laws [] = tt
escape-IsField u laws (r ∷ rs) =
    IsField-append (escape_rune u r) (escape u rs) (escape_rune-IsField u laws r)
      (escape-IsField u laws rs)

value_in : {x y : Text} → returns (some x) ≡ returns (some y) → x ≡ y
value_in {x} e =
    ap (λ (r : Run (Option Text)). elim r [ panics ↦ x | returns none ↦ x | returns (some v) ↦ v ])
      e

escape_marshaled-IsField :
    (u : Unicode) (laws : IsUnicode u) (o : Option Bytes) (v : Text)
    → escape_marshaled u o ≡ returns (some v)
    → IsField v
escape_marshaled-IsField u laws none v e = absurd (ground arith)
escape_marshaled-IsField u laws (some result) v e =
    subst IsField (value_in e) (escape-IsField u laws (runes_after 0 result))

pub value_of-IsField :
    (u : Unicode) (laws : IsUnicode u) (json : RawJson) (o : Option Bytes) (v : Text)
    → value_of u json o ≡ returns (some v)
    → IsField v
unfolding value_of
value_of-IsField u laws json none v e = subst IsField (value_in e) tt
value_of-IsField u laws json (some data') v e = elim (Option-cases (json.unmarshal data')) [
  | inl f ↦ absurd (ground arith)
  | inr (value, f) ↦ escape_marshaled-IsField u laws (json.marshal value) v (ground arith)
]
