-- ===== src/Command/Watch.antt =====
-- The command `nameq monitor-features` of cmd/nameq/command/monitor.go, from its monitor on.
pub mod Lines
pub mod Values
pub mod Shown
pub mod Escapes
pub mod Reads
mod Tests
use nameq.Base.{
  ℕ, zero, suc, ◌-◌, ◌*◌, ◌+◌, ◌/◌, ◌%◌, ◌==◌, ◌&&◌, ◌||◌, not, ltb, leb, Bool, true, false, Option,
  none, some, List, [], ◌∷◌, ◌++◌, if◌then◌else◌, get_or,
}
use nameq.Base.Text.{Text, Bytes, codes}
use nameq.Base.Run.{Run, returns, panics, ◌>>=◌}
use nameq.Demux.{Feature}
use nameq.Command.{Exit, failed, succeeded}

-- What is called of the package unicode.
pub record Unicode : Type 0 where
  pub is_print : ℕ → Bool
  pub is_space : ℕ → Bool

-- `json.Unmarshal` into a `json.RawMessage`, and `json.Marshal` of one; `none` is an error.
pub record RawJson : Type 0 where
  pub unmarshal : Bytes → Option Bytes
  pub marshal : Bytes → Option Bytes

abbrev between : ℕ → ℕ → ℕ → Bool
between low high c = leb low c && leb c high

-- A byte behind the first of a rune.
abbrev continues_rune : ℕ → Bool
continues_rune c = between 0x80 0xbf c

-- The first rune of a text, and how many bytes it takes, as a `range` clause reads it: a byte that
-- begins no rune is U+FFFD.
unfoldable pub first_rune : ℕ → Bytes → ℕ × ℕ
first_rune a rest =
    let b = get_or rest 0 0 in
    let c = get_or rest 1 0 in
    let d = get_or rest 2 0 in
    if ltb a 0x80
    then (a, 1)
    else if between 0xc2 0xdf a && continues_rune b
    then ((a % 32) * 64 + b % 64, 2)
    else if between 0xe0 0xef a
        && between (if a == 0xe0 then 0xa0 else 0x80) (if a == 0xed then 0x9f else 0xbf) b
        && continues_rune c
    then (((a % 16) * 64 + b % 64) * 64 + c % 64, 3)
    else if between 0xf0 0xf4 a
        && between (if a == 0xf0 then 0x90 else 0x80) (if a == 0xf4 then 0x8f else 0xbf) b
        && continues_rune c
        && continues_rune d
    then ((((a % 8) * 64 + b % 64) * 64 + c % 64) * 64 + d % 64, 4)
    else (0xfffd, 1)

-- The runes of a text, after so many bytes of it.
unfoldable pub runes_after : ℕ → Bytes → List ℕ
unfolding first_rune
runes_after skip [] = []
runes_after (suc skip) (_ ∷ rest) = runes_after skip rest
runes_after zero (a ∷ rest) = (first_rune a rest).0 ∷ runes_after ((first_rune a rest).1 - 1) rest

-- `string(rune)`
unfoldable pub utf8 : ℕ → Bytes
utf8 r =
    if ltb r 0x80
    then r ∷ []
    else if ltb r 0x800
    then (0xc0 + r / 64) ∷ (0x80 + r % 64) ∷ []
    else if between 0xd800 0xdfff r || ltb 0x10ffff r
    then 0xef ∷ 0xbf ∷ 0xbd ∷ []
    else if ltb r 0x10000
    then (0xe0 + r / 4096) ∷ (0x80 + r / 64 % 64) ∷ (0x80 + r % 64) ∷ []
    else (0xf0 + r / 262144) ∷ (0x80 + r / 4096 % 64) ∷ (0x80 + r / 64 % 64) ∷ (0x80 + r % 64) ∷ []

abbrev pub hex_digit : ℕ → ℕ
hex_digit n = if ltb n 10 then b'0' + n else b'a' + (n - 10)

-- The digits of a number, as many as the width at least; each digit takes a round of the fuel.
unfoldable pub hex_with : ℕ → ℕ → ℕ → Text
hex_with zero width n = []
hex_with (suc fuel) width n =
    let rest = hex_with fuel (width - 1) (n / 16) in
    if ltb n 16 && leb width 1 then hex_digit n ∷ [] else rest ++ (hex_digit (n % 16) ∷ [])

-- `%04x` of a rune, which has 32 bits, so 8 digits at most.
unfoldable pub hex4 : ℕ → Text
unfolding hex_with
hex4 r = hex_with 8 4 r

abbrev pub is_shown : Unicode → ℕ → Bool
is_shown u r = u.is_print r && not (u.is_space r)

unfoldable pub escape_rune : Unicode → ℕ → Text
unfolding utf8 hex4
escape_rune u r = if is_shown u r then utf8 r else b'\\' ∷ b'u' ∷ hex4 r

unfoldable pub escape : Unicode → List ℕ → Text
unfolding escape_rune
escape u [] = []
escape u (r ∷ rest) = escape_rune u r ++ escape u rest

abbrev pub escape_marshaled : Unicode → Option Bytes → Run (Option Text)
escape_marshaled u none = panics
escape_marshaled u (some result) = returns (some (escape u (runes_after 0 result)))

-- What is printed for the data of a feature; `none` is an error that is logged.
unfoldable pub value_of : Unicode → RawJson → Option Bytes → Run (Option Text)
unfolding escape runes_after
value_of u json none = returns (some [])
value_of u json (some data') = elim (json.unmarshal data') [
  | none ↦ returns none
  | some value ↦ escape_marshaled u (json.marshal value)
]

-- `"%s\t%s\t%s\n"`
abbrev pub format_line : Text → Text → Text → Text
format_line name host value = name ++ (0x9 ∷ (host ++ (0x9 ∷ (value ++ (0xa ∷ [])))))

-- What `fmt.Printf` does with a line.
pub data Printf : Type 0 where
  printed broken_pipe print_failed : Printf

abbrev pub print_line : Printf → Text → Run (Exit × List Text) → Run (Exit × List Text)
print_line broken_pipe line rest = returns (succeeded, [])
print_line print_failed line rest = returns (failed, [])
print_line printed line rest = do (e, lines) ← rest; returns (e, line ∷ lines)

abbrev pub print_value :
    (Text → Text) → Option Text → Printf → Run (Exit × List Text) → Run (Exit × List Text)
print_value format none p rest = rest
print_value format (some value) p rest = print_line p (format value) rest

-- The flag `-local`, `Equal` of an IP and `String` of one.
module _ (u : Unicode) (json : RawJson) (is_local : Bool) (is_localhost : Bytes → Bool)
    (string_of : Bytes → Text) where
  -- The loop until the channel is closed: how the command ends, and the lines that are printed.
  unfoldable pub watch_features : List (Feature × Printf) → Run (Exit × List Text)
  unfolding value_of
  watch_features [] = returns (succeeded, [])
  watch_features ((f, p) ∷ rest) =
      let more = watch_features rest in
      if is_local && not (is_localhost f.host) then more else do
        value ← value_of u json f.data'
        print_value (format_line f.name (string_of f.host)) value p more
