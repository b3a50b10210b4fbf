-- ===== src/Command/Feature.antt =====
-- The command `nameq feature` of config.go, from its parsed flags on.
pub mod Scanned
use nameq.Base.{
  ◌≡◌, ◌≢◌, refl, ap, sym, ◌∙◌, ◌⊎◌, inl, inr, Bool, true, false, Option, none, some, List, [], ◌∷◌,
  ◌++◌, arith, Option-cases, Bool-cases, ◌==◌,
}
use nameq.Base.Text.{Text, Bytes}
use nameq.Base.Map.{Map, lookup, erase, IsMap}
use nameq.Base.Run.{Run, returns, panics}
use nameq.Base.Result.{ok, err}
use nameq.Node.{Raw, Features}
use nameq.ConfigFile.{
  FileCalls, Written, tmp_path, given_dir, create_config_file, set_feature, remove_feature, enoent,
}
use nameq.ConfigFile.Atomic.{IsAtomic, create_config_file-IsAtomic}
use nameq.Command.{Exit, usage, failed, succeeded}

-- `json.Unmarshal` into a `json.RawMessage`, and `json.MarshalIndent` with a tab; `none` is an error.
pub record Json : Type 0 where
  pub unmarshal : Bytes → Option Bytes
  pub marshal_indent : Bytes → Option Bytes

-- NAME, and VALUE if it is given.
abbrev pub name_and_value : List Text → Option (Text × Option Bytes)
name_and_value (name ∷ []) = some (name, none)
name_and_value (name ∷ value ∷ []) = some (name, some value)
name_and_value _ = none

-- How the command ends, and the files after it.
abbrev pub exit_of : Written → Exit × Map Bytes
exit_of (ok _, files) = (succeeded, files)
exit_of (err _, files) = (failed, files)

abbrev with_line_feed : Option Bytes → Option Bytes
with_line_feed none = none
with_line_feed (some indented) = some (indented ++ (0xa ∷ []))

-- The bytes that are written for a value.
unfoldable pub document_of : Json → Bytes → Option Bytes
document_of json content = elim (json.unmarshal content) [
  | none ↦ none
  | some value ↦ with_line_feed (json.marshal_indent value)
]

pub of_returns : {x y : Exit × Map Bytes} (z : Exit × Map Bytes) → returns x ≡ returns y → x ≡ y
of_returns z e = ap (λ (r : Run (Exit × Map Bytes)). elim r [ panics ↦ z | returns x ↦ x ]) e

abbrev pub finish : Run Written → Run (Exit × Map Bytes)
finish panics = panics
finish (returns w) = returns (exit_of w)

module _ (join : Text → Text → Text) (json : Json) (c : FileCalls) (feature_dir : Text) where
  unfoldable pub write_document : Text → Option Bytes → Map Bytes → Run (Exit × Map Bytes)
  write_document name none files = returns (failed, files)
  write_document name (some document) files =
      finish (set_feature join c feature_dir name document files)

  -- The body of the command, once it has a name; `stdin` is `none` if reading it fails.
  unfoldable pub run_feature :
      Bool → Option Bytes → Text → Option Bytes → Map Bytes → Run (Exit × Map Bytes)
  unfolding write_document
  run_feature true stdin name (some _) files = returns (usage, files)
  run_feature true stdin name none files =
      returns (exit_of (remove_feature join c feature_dir name files))
  run_feature false stdin name (some content) files =
      write_document name (document_of json content) files
  run_feature false none name none files = returns (failed, files)
  run_feature false (some content) name none files =
      write_document name (document_of json content) files

  unfoldable pub feature_command :
      Bool → Option Bytes → List Text → Map Bytes → Run (Exit × Map Bytes)
  unfolding run_feature
  feature_command rm stdin args files = elim (name_and_value args) [
    | none ↦ returns (usage, files)
    | some (name, value) ↦ run_feature rm stdin name value files
  ]

  -- The command has not failed, or it has changed no file but a temporary one.
  abbrev pub IsUnchanged : Map Bytes → Text → Exit × Map Bytes → Type 0
  IsUnchanged files p (e, files') =
      (e ≡ succeeded)
      ⊎ (((name : Text) × (tmp_path join (given_dir join feature_dir) name ≡ p))
          ⊎ (lookup p files' ≡ lookup p files))

  returned_IsUnchanged : (e : Exit) (files : Map Bytes) (p : Text) → IsUnchanged files p (e, files)
  returned_IsUnchanged e files p = inr (inr refl)

  with_line_feed-ne :
      (o : Option Bytes) {document : Bytes} → with_line_feed o ≡ some document → document ≢ []
  with_line_feed-ne none e = cc
  with_line_feed-ne (some []) e = λ h. ground arith
  with_line_feed-ne (some (b ∷ rest)) e = λ h. ground arith

  pub document_of-ne :
      (content document : Bytes) → document_of json content ≡ some document → document ≢ []
  unfolding document_of
  document_of-ne content document e = elim (Option-cases (json.unmarshal content)) [
    | inl f ↦ absurd (ground arith)
    | inr (value, f) ↦ with_line_feed-ne (json.marshal_indent value) (ground arith)
  ]

  pub set_feature-cons :
      (name document : Bytes) (files : Map Bytes)
      → document ≢ []
      → set_feature join c feature_dir name document files
        ≡ returns (create_config_file join c (given_dir join feature_dir) name document files)
  unfolding set_feature
  set_feature-cons name [] files h = absurd (h refl)
  set_feature-cons name (b ∷ document) files h = refl

  written_IsUnchanged :
      (name document : Bytes) (files : Map Bytes) (w : Written) (p : Text)
      → IsAtomic
          (join (given_dir join feature_dir) name)
          (tmp_path join (given_dir join feature_dir) name)
          document
          files
          w
      → IsUnchanged files p (exit_of w)
  written_IsUnchanged name document files (ok _, files') p h = inl refl
  written_IsUnchanged name document files (err x, files') p (inl (q, h)) = absurd (ground arith)
  written_IsUnchanged name document files (err x, files') p (inr (y, q, h)) = elim (h p) [
    | inl t ↦ inr (inl (name, t))
    | inr t ↦ inr (inr t)
  ]

  abbrev Ends : Map Bytes → Run (Exit × Map Bytes) → Type 0
  Ends files r = (x : Exit × Map Bytes) × (r ≡ returns x) × ((p : Text) → IsUnchanged files p x)

  write_document-Ends :
      (name : Text) (o : Option Bytes) (files : Map Bytes)
      → ((document : Bytes) → o ≡ some document → document ≢ [])
      → Ends files (write_document name o files)
  unfolding write_document
  write_document-Ends name none files h = ((failed, files), refl, returned_IsUnchanged failed files)
  write_document-Ends name (some document) files h =
      let dir = given_dir join feature_dir in
      let w = create_config_file join c dir name document files in
      (
        exit_of w,
        rw (set_feature-cons name document files (h document refl)) refl,
        λ p.
            written_IsUnchanged name document files w p
              (create_config_file-IsAtomic join c dir name document files),
      )

  removed-Ends :
      (name : Text) (files : Map Bytes)
      → Ends files (returns (exit_of (remove_feature join c feature_dir name files)))
  unfolding remove_feature
  removed-Ends name files = elim (Option-cases c.remove_file) [
    | inl e ↦ (
      (succeeded, erase (join (given_dir join feature_dir) name) files),
      ground arith,
      λ p. inl refl,
    )
    | inr (x, e) ↦ elim (Bool-cases (x == enoent)) [
      | inl q ↦ ((succeeded, files), ground arith, λ p. inl refl)
      | inr q ↦ ((failed, files), ground arith, λ p. inr (inr refl))
    ]
  ]

  run_feature-Ends :
      (rm : Bool) (stdin : Option Bytes) (name : Text) (value : Option Bytes) (files : Map Bytes)
      → Ends files (run_feature rm stdin name value files)
  unfolding run_feature
  run_feature-Ends true stdin name (some _) files =
      ((usage, files), refl, returned_IsUnchanged usage files)
  run_feature-Ends true stdin name none files = removed-Ends name files
  run_feature-Ends false stdin name (some content) files =
      write_document-Ends name (document_of json content) files (document_of-ne content)
  run_feature-Ends false none name none files =
      ((failed, files), refl, returned_IsUnchanged failed files)
  run_feature-Ends false (some content) name none files =
      write_document-Ends name (document_of json content) files (document_of-ne content)

  -- Whatever its arguments are, and whatever fails, the command returns: its call of SetFeature never
  -- panics for want of data. If it does not succeed, it has changed no file but a temporary one.
  pub feature_command-Ends :
      (rm : Bool) (stdin : Option Bytes) (args : List Text) (files : Map Bytes)
      → (x : Exit × Map Bytes) × (feature_command rm stdin args files ≡ returns x)
        × ((p : Text) → IsUnchanged files p x)
  unfolding feature_command
  feature_command-Ends rm stdin [] files = ((usage, files), refl, returned_IsUnchanged usage files)
  feature_command-Ends rm stdin (name ∷ []) files = run_feature-Ends rm stdin name none files
  feature_command-Ends rm stdin (name ∷ value ∷ []) files =
      run_feature-Ends rm stdin name (some value) files
  feature_command-Ends rm stdin (_ ∷ _ ∷ _ ∷ _) files =
      ((usage, files), refl, returned_IsUnchanged usage files)
