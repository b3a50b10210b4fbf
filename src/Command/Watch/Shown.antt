-- ===== src/Command/Watch/Shown.antt =====
-- What `nameq monitor-features` shows, and that its output says so.
use mathlib.Core.Path.{subst}
use nameq.Base.{
  ◌≡◌, refl, ap, sym, ◌∙◌, inl, inr, ◌&&◌, not, Bool, true, false, Option, none, some, List, [],
  ◌∷◌, if◌then◌else◌, arith, All, map,
}
use nameq.Base.Text.{Text, Bytes}
use nameq.Base.Run.{Run, returns, panics, ◌>>=◌}
use nameq.Demux.{Feature}
use nameq.Command.{Exit}
use nameq.Command.Watch.{
  Unicode, RawJson, value_of, format_line, Printf, printed, broken_pipe, print_failed, print_value,
  watch_features,
}
use nameq.Command.Watch.Lines.{
  read_lines, IsField, all_lines, Entry, fields_of, IsEntry, line_of, read-all_lines,
}
use nameq.Command.Watch.Reads.{Valued, IsEscapable, is_left_out, Shows, value_of-Valued}
use nameq.Command.Watch.Reads.Valued.{shows, skips, stops}
use nameq.Command.Watch.Reads.Shows.{nothing, left_out, no_json, line, broken}
use nameq.Command.Watch.Values.{IsUnicode, value_of-IsField}

abbrev entry_with : Text → Text → Run (Option Text) → Option Entry
entry_with name host panics = none
entry_with name host (returns none) = none
entry_with name host (returns (some v)) = some (record { name = name; host = host; value = v })

-- The entry of a feature that can be printed comes before those of the features behind it, which are
-- not printed if printing it fails.
abbrev add_entry : Printf → Option Entry → List Entry → List Entry
add_entry p none es = es
add_entry printed (some e) es = e ∷ es
add_entry broken_pipe (some e) es = []
add_entry print_failed (some e) es = []

module _ (u : Unicode) (json : RawJson) (is_local : Bool) (is_localhost : Bytes → Bool)
    (string_of : Bytes → Text) where
  abbrev entry_of : Bool → Feature → Option Entry
  entry_of true f = none
  entry_of false f = entry_with f.name (string_of f.host) (value_of u json f.data')

  -- The names, hosts and values of the features whose data is JSON, of this host only if the flag is
  -- set, up to the first that cannot be printed.
  abbrev pub shown : List (Feature × Printf) → List Entry
  shown [] = []
  shown ((f, p) ∷ rest) =
      add_entry p (entry_of (is_local && not (is_localhost f.host)) f) (shown rest)

  abbrev returned : Exit → List Text → Run (Exit × List Text)
  returned e lines = returns (e, lines)

  lines_in : {e e' : Exit} {x y : List Text} → returned e x ≡ returned e' y → x ≡ y
  lines_in {x = x} e =
      ap (λ (r : Run (Exit × List Text)). elim r [ panics ↦ x | returns p ↦ p.1 ]) e

  Prints : List Entry → Run (Exit × List Text) → Type 0
  Prints es r = (e : Exit) (lines : List Text) → r ≡ returns (e, lines) → lines ≡ map line_of es

  print_value-Prints :
      (name host : Text) (w : Run (Option Text)) (p : Printf) (more : Run (Exit × List Text))
      (es : List Entry)
      → Prints es more
      → Prints
          (add_entry p (entry_with name host w) es)
          (w >>= (λ (v : Option Text). print_value (format_line name host) v p more))
  unfolding Prints
  print_value-Prints name host panics p more es h e lines q = absurd (ground arith)
  print_value-Prints name host (returns none) p more es h e lines q = h e lines q
  print_value-Prints name host (returns (some v)) broken_pipe more es h e lines q = sym (lines_in q)
  print_value-Prints name host (returns (some v)) print_failed more es h e lines q =
      sym (lines_in q)
  print_value-Prints name host (returns (some v)) printed panics es h e lines q =
      absurd (ground arith)
  print_value-Prints name host (returns (some v)) printed (returns (e', lines')) es h e lines q =
      sym (lines_in q) ∙ ap (λ (ls : List Text). format_line name host v ∷ ls) (h e' lines' refl)

  feature-Prints :
      (b : Bool) (f : Feature) (p : Printf) (more : Run (Exit × List Text)) (es : List Entry)
      → Prints es more
      → Prints (add_entry p (entry_of b f) es) (
          if b
          then more
          else (value_of u json f.data' >>= (λ (v : Option Text).
              print_value (format_line f.name (string_of f.host)) v p more)))
  feature-Prints true f p more es h = h
  feature-Prints false f p more es h =
      print_value-Prints f.name (string_of f.host) (value_of u json f.data') p more es h

  watch_features-Prints :
      (fs : List (Feature × Printf))
      → Prints (shown fs) (watch_features u json is_local is_localhost string_of fs)
  unfolding watch_features
  watch_features-Prints [] = unfold Prints in (λ e lines q. sym (lines_in q))
  watch_features-Prints ((f, p) ∷ rest) =
      feature-Prints (is_local && not (is_localhost f.host)) f p _ (shown rest)
        (watch_features-Prints rest)

  Follows : List (Feature × Printf) → List Entry → Run (Exit × List Text) → Type 0
  Follows fs es more =
      (e : Exit) (lines : List Text)
      → more ≡ returns (e, lines)
      → Shows u json is_local is_localhost string_of fs es

  -- What a feature adds to the entries of those behind it.
  value-Shows :
      (f : Feature) (p : Printf) (w : Run (Option Text)) (more : Run (Exit × List Text))
      (fs : List (Feature × Printf)) (es : List Entry) (e : Exit) (lines : List Text)
      → is_left_out u json is_local is_localhost string_of f ≡ false
      → Valued u json f.data' w
      → Follows fs es more
      → (w >>= (λ (v : Option Text). print_value (format_line f.name (string_of f.host)) v p more))
        ≡ returns (e, lines)
      → Shows u json is_local is_localhost string_of
          ((f, p) ∷ fs)
          (add_entry p (entry_with f.name (string_of f.host) w) es)
  unfolding Follows
  value-Shows f p _ more fs es e lines h stops m q = absurd (ground arith)
  value-Shows f p _ more fs es e lines h (skips n) m q = no_json f p h n (m e lines q)
  value-Shows f broken_pipe _ more fs es e lines h (shows v i) m q =
      broken f v broken_pipe h i (inl refl)
  value-Shows f print_failed _ more fs es e lines h (shows v i) m q =
      broken f v print_failed h i (inr refl)
  value-Shows f printed _ panics fs es e lines h (shows v i) m q = absurd (ground arith)
  value-Shows f printed _ (returns (e', lines')) fs es e lines h (shows v i) m q =
      line f v h i (m e' lines' refl)

  feature-Shows :
      (b : Bool) (f : Feature) (p : Printf) (more : Run (Exit × List Text))
      (fs : List (Feature × Printf)) (es : List Entry) (e : Exit) (lines : List Text)
      → is_left_out u json is_local is_localhost string_of f ≡ b
      → IsEscapable u json f.data'
      → Follows fs es more
      → (if b
          then more
          else (value_of u json f.data' >>= (λ (v : Option Text).
              print_value (format_line f.name (string_of f.host)) v p more)))
        ≡ returns (e, lines)
      → Shows u json is_local is_localhost string_of ((f, p) ∷ fs) (add_entry p (entry_of b f) es)
  unfolding Follows
  feature-Shows true f p more fs es e lines h i m q = left_out f p h (m e lines q)
  feature-Shows false f p more fs es e lines h i m q =
      value-Shows f p (value_of u json f.data') more fs es e lines h
        (value_of-Valued u json f.data' i) m q

  shown-Shows :
      (fs : List (Feature × Printf)) (e : Exit) (lines : List Text)
      → All (λ (x : Feature × Printf). IsEscapable u json x.0.data') fs
      → watch_features u json is_local is_localhost string_of fs ≡ returns (e, lines)
      → Shows u json is_local is_localhost string_of fs (shown fs)
  unfolding watch_features Follows
  shown-Shows [] e lines h q = nothing
  shown-Shows ((f, p) ∷ rest) e lines (h, hs) q =
      feature-Shows (is_local && not (is_localhost f.host)) f p _ rest (shown rest) e lines refl h
        (λ e' lines' q'. shown-Shows rest e' lines' hs q') q

  module _ (laws : IsUnicode u) where
    entry_with-IsEntry :
        (name host : Text) (w : Run (Option Text)) (e : Entry)
        → IsField name
        → IsField host
        → ((v : Text) → w ≡ returns (some v) → IsField v)
        → entry_with name host w ≡ some e
        → IsEntry e
    entry_with-IsEntry name host panics e h i j q = absurd (ground arith)
    entry_with-IsEntry name host (returns none) e h i j q = absurd (ground arith)
    entry_with-IsEntry name host (returns (some v)) e h i j q =
        subst (λ (o : Option Entry). elim o [ none ↦ Unit | some e ↦ IsEntry e ]) q (h, i, j v refl)

    add_entry-IsEntry :
        (p : Printf) (o : Option Entry) (es : List Entry)
        → ((e : Entry) → o ≡ some e → IsEntry e)
        → All IsEntry es
        → All IsEntry (add_entry p o es)
    add_entry-IsEntry p none es h hs = hs
    add_entry-IsEntry printed (some e) es h hs = (h e refl, hs)
    add_entry-IsEntry broken_pipe (some e) es h hs = tt
    add_entry-IsEntry print_failed (some e) es h hs = tt

    entry_of-IsEntry :
        (b : Bool) (f : Feature) (e : Entry)
        → IsField f.name
        → IsField (string_of f.host)
        → entry_of b f ≡ some e
        → IsEntry e
    entry_of-IsEntry true f e h i q = absurd (ground arith)
    entry_of-IsEntry false f e h i q =
        entry_with-IsEntry f.name (string_of f.host) (value_of u json f.data') e h i
          (λ v. value_of-IsField u laws json f.data' v) q

    shown-IsEntry :
        (fs : List (Feature × Printf))
        → All (λ (x : Feature × Printf). IsField x.0.name × IsField (string_of x.0.host)) fs
        → All IsEntry (shown fs)
    shown-IsEntry [] h = tt
    shown-IsEntry ((f, p) ∷ rest) ((h, i), hs) =
        add_entry-IsEntry p (entry_of (is_local && not (is_localhost f.host)) f) (shown rest)
          (λ e. entry_of-IsEntry _ f e h i) (shown-IsEntry rest hs)

    -- A program that cuts the output at line feeds, and each line at tabs, gets back an entry for each
    -- feature that is shown, in order, with its name, its host, and a value that is empty for a feature
    -- that is gone, and for any other has the runes of the data's JSON as it is written again, as they
    -- are or in escapes that a reader of JSON turns back into them. A feature of another host is left
    -- out if only this host's are asked for, one whose data is no JSON always, and all from one on
    -- whose line cannot be printed. This holds where no name and no host has a tab or a line feed, the
    -- runes that are not printed as they are have 16 bits, and the command does not panic.
    pub watch_features-read :
        (fs : List (Feature × Printf)) (e : Exit) (lines : List Text)
        → All (λ (x : Feature × Printf). IsField x.0.name × IsField (string_of x.0.host)) fs
        → All (λ (x : Feature × Printf). IsEscapable u json x.0.data') fs
        → watch_features u json is_local is_localhost string_of fs ≡ returns (e, lines)
        → (es : List Entry) × (read_lines [] [] (all_lines lines) ≡ map fields_of es)
          × Shows u json is_local is_localhost string_of fs es
    unfolding Prints
    watch_features-read fs e lines h k q = (
      shown fs,
      ap (λ (ls : List Text). read_lines [] [] (all_lines ls)) (watch_features-Prints fs e lines q)
          ∙ read-all_lines (shown fs) (shown-IsEntry fs h),
      shown-Shows fs e lines k q,
    )
