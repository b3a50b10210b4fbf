-- ===== src/Command/Watch/Tests.antt =====
-- The command `nameq monitor-features` on concrete features.
use mathlib.Core.Path.{subst}
use nameq.Base.{
  arith, ◌≡◌, ◌<◌, ◌≤◌, refl, ◌==◌, ◌&&◌, ◌||◌, ltb, leb, true, false, none, some, List, [], ◌∷◌,
  ◌++◌, map,
}
use nameq.Base.Text.{Text, Bytes, codes}
use nameq.Base.Run.{returns}
use nameq.Demux.{Feature}
use nameq.Command.{succeeded}
use nameq.Command.Watch.{
  Unicode, RawJson, Printf, printed, broken_pipe, utf8, hex_with, hex4, escape_rune, escape,
  first_rune, runes_after, value_of, watch_features,
}
use nameq.Command.Watch.Lines.{kind_of, IsField, read_lines, all_lines, Entry, fields_of}
use nameq.Command.Watch.Values.{IsUnicode}
use nameq.Command.Watch.Shown.{watch_features-read}
use nameq.Command.Watch.Reads.{AreEscapable, IsEscapable, Shows}
use nameq.Command.Watch.Escapes.{read_escape, escape_rune-read}

-- The printable runes of ASCII.
abbrev unicode : Unicode
unicode = record {
  is_print = λ r. leb 0x20 r && ltb r 0x7f;
  is_space = λ r. (leb 0x9 r && leb r 0xd) || r == 0x20;
}

unicode-IsUnicode : IsUnicode unicode
unicode-IsUnicode = record { tab_space = refl; line_feed_space = refl }

abbrev json : RawJson
json = record { unmarshal = λ b. some b; marshal = λ b. some b }

abbrev added : Feature
added = record { name = codes "a"; host = codes "10.0.0.1"; data' = some (codes "\"x y\"") }

abbrev removed : Feature
removed = record { name = codes "a"; host = codes "10.0.0.2"; data' = none }

abbrev features : List (Feature × Printf)
features = (added, printed) ∷ (removed, printed) ∷ (added, broken_pipe) ∷ (removed, printed) ∷ []

abbrev lines : List Text
lines = codes "a\t10.0.0.1\t\"x\\u0020y\"\n" ∷ codes "a\t10.0.0.2\t\n" ∷ []

watch_run :
    watch_features unicode json false (λ ip. false) (λ ip. ip) features ≡ returns (succeeded, lines)
unfolding watch_features value_of escape escape_rune utf8 hex4 hex_with runes_after first_rune
watch_run = refl

host_one : IsField (codes "10.0.0.1")
unfolding kind_of
host_one = (refl, (refl, (refl, (refl, (refl, (refl, (refl, (refl, tt))))))))

host_two : IsField (codes "10.0.0.2")
unfolding kind_of
host_two = (refl, (refl, (refl, (refl, (refl, (refl, (refl, (refl, tt))))))))

added-IsEscapable : IsEscapable unicode json added.data'
unfolding runes_after first_rune
added-IsEscapable value result e m =
    let same : codes "\"x y\"" ≡ result = ground (arith, e, m) in
    subst (λ (b : Bytes). AreEscapable unicode (runes_after 0 b)) same
      (
        λ h. omega arith,
        (λ h. omega arith, (λ h. omega arith, (λ h. omega arith, (λ h. omega arith, tt)))),
      )

watch_features-read_example :
    (es : List Entry) × (read_lines [] [] (all_lines lines) ≡ map fields_of es)
    × Shows unicode json false (λ ip. false) (λ ip. ip) features es
unfolding kind_of
watch_features-read_example =
    watch_features-read unicode json false (λ ip. false) (λ ip. ip) unicode-IsUnicode features
      succeeded lines
      (
        ((refl, tt), host_one),
        (((refl, tt), host_two), (((refl, tt), host_one), (((refl, tt), host_two), tt))),
      )
      (added-IsEscapable, (tt, (added-IsEscapable, (tt, tt)))) watch_run

escape_rune-read_example :
    (0xe0041 < 0x10000
      → read_escape (escape_rune unicode 0xe0041 ++ codes "z") ≡ some (0xe0041, codes "z"))
    × (0x10000 ≤ 0xe0041
        → 0xe0041 < 0x100000
        → read_escape (escape_rune unicode 0xe0041 ++ codes "z") ≡ some (0xe004, codes "1z"))
escape_rune-read_example = escape_rune-read unicode 0xe0041 (codes "z") refl

two_byte_rune : runes_after 0 (0x61 ∷ 0xc3 ∷ 0xa9 ∷ 0xff ∷ []) ≡ 0x61 ∷ 0xe9 ∷ 0xfffd ∷ []
unfolding runes_after first_rune
two_byte_rune = refl

not_local :
    watch_features unicode json true (λ ip. false) (λ ip. ip) features ≡ returns (succeeded, [])
unfolding watch_features
not_local = refl
