-- ===== src/Command/Watch/Reads.antt =====
-- What the output of `nameq monitor-features` is to say of the features.
use nameq.Base.{
  ℕ, ◌<◌, ◌≡◌, refl, ◌⊎◌, inl, inr, ◌&&◌, not, Bool, true, false, Option, none, some, List, [], ◌∷◌,
  ◌++◌, All, Option-cases, Bool-cases,
}
use nameq.Base.Text.{Text, Bytes}
use nameq.Base.Run.{Run, returns, panics}
use nameq.Demux.{Feature}
use nameq.Command.Watch.{
  Unicode, RawJson, utf8, is_shown, escape_rune, escape, escape_marshaled, runes_after, value_of,
  Printf, printed, broken_pipe, print_failed,
}
use nameq.Command.Watch.Lines.{Entry}
use nameq.Command.Watch.Escapes.{read_escape, escape_rune-read}

-- The runes that a text has, one after the other: as they are, or as escapes of JSON.
pub data Reads : List ℕ → Text → Type 0 where
  at_end : Reads [] []
  as_it_is : (r : ℕ) {rs : List ℕ} {t : Text} → Reads rs t → Reads (r ∷ rs) (utf8 r ++ t)
  escaped :
      (r : ℕ) {rs : List ℕ} (text : Text) {t : Text}
      → read_escape text ≡ some (r, t)
      → Reads rs t
      → Reads (r ∷ rs) text

-- The runes that are not printed as they are have 16 bits.
abbrev pub AreEscapable : Unicode → List ℕ → Type 0
AreEscapable u rs = All (λ (r : ℕ). is_shown u r ≡ false → r < 0x10000) rs

escape-Reads : (u : Unicode) (rs : List ℕ) → AreEscapable u rs → Reads rs (escape u rs)
unfolding escape
escape-Reads u [] h = at_end
escape-Reads u (r ∷ rs) (h, hs) =
    let rest = escape-Reads u rs hs in
    elim (Bool-cases (is_shown u r)) [
      | inl e ↦ unfold escape_rune in rw e (as_it_is r rest)
      | inr e ↦ escaped r _ ((escape_rune-read u r (escape u rs) e).0 (h e)) rest
    ]

module _ (u : Unicode) (json : RawJson) where
  -- The value that is shown of the data: nothing of a feature that is gone, or else the JSON that the
  -- data is, written again.
  abbrev pub IsValue : Option Bytes → Text → Type 0
  IsValue none v = v ≡ []
  IsValue (some data') v =
      (value : Bytes) × (result : Bytes) × (json.unmarshal data' ≡ some value)
      × (json.marshal value ≡ some result)
      × Reads (runes_after 0 result) v

  -- What is not printed as it is of the JSON of the data has 16 bits.
  abbrev pub IsEscapable : Option Bytes → Type 0
  IsEscapable none = Unit
  IsEscapable (some data') =
      (value result : Bytes)
      → json.unmarshal data' ≡ some value
      → json.marshal value ≡ some result
      → AreEscapable u (runes_after 0 result)

  abbrev pub IsNoJson : Option Bytes → Type 0
  IsNoJson none = ⊥
  IsNoJson (some data') = json.unmarshal data' ≡ none

  -- A value is shown, or the data is no JSON, or there is a panic.
  pub data Valued (o : Option Bytes) : Run (Option Text) → Type 0 where
    shows : (v : Text) → IsValue o v → Valued o (returns (some v))
    skips : IsNoJson o → Valued o (returns none)
    stops : Valued o panics

  marshaled-Valued :
      (data' value : Bytes) (o : Option Bytes)
      → json.unmarshal data' ≡ some value
      → json.marshal value ≡ o
      → IsEscapable (some data')
      → Valued (some data') (escape_marshaled u o)
  marshaled-Valued data' value none e m h = stops
  marshaled-Valued data' value (some result) e m h =
      shows (escape u (runes_after 0 result))
        (value, result, e, m, escape-Reads u (runes_after 0 result) (h value result e m))

  pub value_of-Valued : (o : Option Bytes) → IsEscapable o → Valued o (value_of u json o)
  unfolding value_of
  value_of-Valued none h = shows [] refl
  value_of-Valued (some data') h = elim (Option-cases (json.unmarshal data')) [
    | inl e ↦ rw (value_of, e) (skips e)
    | inr (value, e) ↦ rw (value_of, e) (marshaled-Valued data' value (json.marshal value) e refl h)
  ]

  module _ (is_local : Bool) (is_localhost : Bytes → Bool) (string_of : Bytes → Text) where
    -- The feature is of another host, and the flag -local is given.
    abbrev pub is_left_out : Feature → Bool
    is_left_out f = is_local && not (is_localhost f.host)

    -- The entries that the output of these features has, each with what printing its line does: one
    -- for each feature that is not left out and is gone or has JSON, up to the first that cannot be
    -- printed.
    pub data Shows : List (Feature × Printf) → List Entry → Type 0 where
      nothing : Shows [] []
      left_out :
          (f : Feature) (p : Printf) {fs : List (Feature × Printf)} {es : List Entry}
          → is_left_out f ≡ true
          → Shows fs es
          → Shows ((f, p) ∷ fs) es
      no_json :
          (f : Feature) (p : Printf) {fs : List (Feature × Printf)} {es : List Entry}
          → is_left_out f ≡ false
          → IsNoJson f.data'
          → Shows fs es
          → Shows ((f, p) ∷ fs) es
      line :
          (f : Feature) (v : Text) {fs : List (Feature × Printf)} {es : List Entry}
          → is_left_out f ≡ false
          → IsValue f.data' v
          → Shows fs es
          → Shows
              ((f, printed) ∷ fs)
              (record { name = f.name; host = string_of f.host; value = v } ∷ es)
      broken :
          (f : Feature) (v : Text) (p : Printf) {fs : List (Feature × Printf)}
          → is_left_out f ≡ false
          → IsValue f.data' v
          → (p ≡ broken_pipe) ⊎ (p ≡ print_failed)
          → Shows ((f, p) ∷ fs) []
