-- ===== src/Command/Feature/Scanned.antt =====
-- What the service finds after `nameq feature` has set a feature.
use nameq.Base.{
  ◌≡◌, ◌≢◌, ap, sym, ◌∙◌, ◌⊎◌, inl, inr, true, false, Option, none, some, List, [], ◌∷◌, arith,
}
use nameq.Base.Text.{Text, Bytes}
use nameq.Base.Map.{Map, lookup, IsMap}
use nameq.Base.Run.{returns}
use nameq.Base.Result.{ok, err}
use nameq.Node.{Features}
use nameq.Node.Local.Laws.{HasValues}
use nameq.Config.{FileInfo, Files, feature_re, is_blank, Configured, scanned_features, scan_config}
use nameq.Config.Overlay.{lookup-scanned_features}
use nameq.Config.Update.{IsSafe, NoNull, scan_config-Updated}
use nameq.ConfigFile.{FileCalls, Written, tmp_path, given_dir, create_config_file}
use nameq.ConfigFile.Scanned.{
  files_of, Lists, create_config_file-scanned, create_config_file-NoNull,
}
use nameq.Command.{Exit, usage, succeeded}
use nameq.Command.Feature.{
  Json, exit_of, document_of, of_returns, finish, write_document, feature_command, document_of-ne,
  set_feature-cons,
}

-- The arguments are the name and the value, or the name only and the value is the standard input.
abbrev pub AreGiven : Text → Bytes → List Text → Option Bytes → Type 0
AreGiven name value args stdin =
    (args ≡ name ∷ value ∷ []) ⊎ ((args ≡ name ∷ []) × (stdin ≡ some value))

exit_of-succeeded :
    (w : Written) (tree : Map Bytes) → exit_of w ≡ (succeeded, tree) → w ≡ (ok tt, tree)
exit_of-succeeded (ok tt, files) tree e = ap (λ (x : Exit × Map Bytes). (ok tt, x.1)) e
exit_of-succeeded (err x, files) tree e = absurd (ground arith)

-- A scan that returns leaves the local node with the features that it has read.
scan_config-scanned :
    (files : Files) (a : Features) (infos : List FileInfo) (c : Configured)
    → IsMap a
    → HasValues a
    → NoNull files
    → IsSafe c.local.node.features
    → (c' : Configured) × (scan_config files a (some infos) c ≡ returns c')
      × ((k : Text) → lookup k c'.local.node.features ≡ lookup k (scanned_features files a infos))
scan_config-scanned files a infos c m h n s =
    let (c', ran, said, _) = scan_config-Updated files a infos c m h n s in
    (c', ran, λ k. said k ∙ sym (lookup-scanned_features files a infos k m))

module _ (join : Text → Text → Text) (json : Json) (c : FileCalls) (feature_dir : Text) where
  feature_command-write :
      (stdin : Option Bytes) (args : List Text) (name value : Bytes) (tree : Map Bytes)
      → AreGiven name value args stdin
      → feature_command join json c feature_dir false stdin args tree
        ≡ write_document join json c feature_dir name (document_of json value) tree
  unfolding feature_command
  feature_command-write stdin args name value tree (inl e) =
      ap (λ (l : List Text). feature_command join json c feature_dir false stdin l tree) e
  feature_command-write stdin args name value tree (inr (e, i)) =
      ap (λ (l : List Text). feature_command join json c feature_dir false stdin l tree) e
      ∙ ap (λ (s : Option Bytes). feature_command join json c feature_dir false s (name ∷ []) tree)
          i

  succeeded_write :
      (stdin : Option Bytes) (args : List Text) (name value document : Bytes)
      (tree tree' : Map Bytes)
      → AreGiven name value args stdin
      → feature_command join json c feature_dir false stdin args tree ≡ returns (succeeded, tree')
      → document_of json value ≡ some document
      → create_config_file join c (given_dir join feature_dir) name document tree ≡ (ok tt, tree')
  unfolding write_document
  succeeded_write stdin args name value document tree tree' g e d =
      let q =
        set_feature-cons join json c feature_dir name document tree
          (document_of-ne join json c feature_dir value document d) in
      let w = create_config_file join c (given_dir join feature_dir) name document tree in
      let ends : returns (exit_of w) ≡ returns (succeeded, tree') =
        ap finish (sym q)
        ∙ ap (λ (o : Option Bytes). write_document join json c feature_dir name o tree) (sym d)
        ∙ sym (feature_command-write stdin args name value tree g)
        ∙ e in
      exit_of-succeeded w tree' (of_returns (usage, []) ends)

  -- Where `nameq feature` succeeds with a name and a value, both given as arguments or the value on
  -- the standard input, the service's next scan of the directory returns, from whatever it has
  -- configured, and gives the local node the value under the name, and every other feature that a scan
  -- before the command gave it, but for one whose file has the path of the file that is set, or of the
  -- temporary one. This holds where the scans list the directory as it is, the name is of the pattern,
  -- the document that is written is not blank and is the JSON of the value, which is not null, neither
  -- empty data nor a feature of the service's argument, of its local nodes or of another file is null,
  -- and the argument and the local nodes list no feature twice.
  pub feature_command-scanned :
      (base : Files) (a : Features) (before now : Configured) (stdin : Option Bytes)
      (args : List Text) (name value document found : Bytes) (tree tree' : Map Bytes)
      (infos infos' : List FileInfo)
      → AreGiven name value args stdin
      → feature_command join json c feature_dir false stdin args tree ≡ returns (succeeded, tree')
      → document_of json value ≡ some document
      → feature_re name ≡ true
      → is_blank (base.trim_space document) ≡ false
      → base.decode_raw document ≡ some (some found)
      → base.decode_raw [] ≢ some none
      → Lists join (given_dir join feature_dir) tree infos
      → Lists join (given_dir join feature_dir) tree' infos'
      → NoNull (files_of join (given_dir join feature_dir) base tree)
      → IsSafe a
      → IsSafe before.local.node.features
      → IsSafe now.local.node.features
      → let dir = given_dir join feature_dir in
        (old : Configured) × (new : Configured) × (scan_config
            (files_of join dir base tree)
            a
            (some infos)
            before
          ≡ returns old)
        × (scan_config (files_of join dir base tree') a (some infos') now ≡ returns new)
        × (lookup name new.local.node.features ≡ some (some found))
        × ((k : Text)
            → (join dir name ≡ join dir k)
              ⊎ (tmp_path join dir name ≡ join dir k)
              ⊎ (lookup k new.local.node.features ≡ lookup k old.local.node.features))
  feature_command-scanned base a before now stdin args name value document found tree tree' infos
        infos' g e d re blank is_found empty l l' nulls safe safe_before safe_now =
      let dir = given_dir join feature_dir in
      let wrote = succeeded_write stdin args name value document tree tree' g e d in
      let nulls' =
        create_config_file-NoNull join dir base a safe.0 c name tree tree' infos infos' document
          found wrote is_found empty nulls in
      let (old, ran, reads) =
        scan_config-scanned (files_of join dir base tree) a infos before safe.0 safe.1 nulls
          safe_before in
      let (new, ran', reads') =
        scan_config-scanned (files_of join dir base tree') a infos' now safe.0 safe.1 nulls'
          safe_now in
      let (set, others) =
        create_config_file-scanned join dir base a safe.0 c name tree tree' infos infos' document
          (some found) wrote re blank is_found l l' in
      (
        old,
        new,
        ran,
        ran',
        reads' name ∙ set,
        λ k. elim (others k) [
          | inl p ↦ inl p
          | inr (inl p) ↦ inr (inl p)
          | inr (inr p) ↦ inr (inr (reads' k ∙ p ∙ sym (reads k)))
        ],
      )
