-- ===== src/ConfigFile/Scanned.antt =====
-- What an application sets or removes is what the service finds at its next scan of the directory.
use nameq.Base.{
  ◌≡◌, ◌≢◌, ap, sym, ◌∙◌, ◌⊎◌, inl, inr, Bool, true, false, Option, none, some, List, [], arith,
  ite, if◌then◌else◌,
}
use nameq.Base.Text.{Text, Bytes, Text-discrete}
use nameq.Base.Map.{Map, lookup, lookup-erase, IsMap}
use nameq.Base.Result.{ok}
use nameq.Node.{Raw, Features}
use nameq.Config.{
  FileInfo, ReadFile, Files, path_error, errno, feature_re, is_blank, scanned_features,
}
use nameq.Config.Update.{NoNull}
use nameq.Config.Overlay.{says, has_file, lookup-scanned_features}
use nameq.ConfigFile.{FileCalls, Written, tmp_path, create_config_file, remove_config_file}
use nameq.ConfigFile.Atomic.{replaced, IsAtomic, create_config_file-IsAtomic}

abbrev is_some : Option Bytes → Bool
is_some none = false
is_some (some _) = true

abbrev pub read_content : Option Bytes → ReadFile
read_content none = record { data' = []; error = some (path_error (errno 2)) }
read_content (some content) = record { data' = content; error = none }

-- What the service reads in the directory: the files of the tree.
abbrev pub files_of : (Text → Text → Text) → Text → Files → Map Bytes → Files
files_of join dir base tree = record base {
  read_file = λ name. read_content (lookup (join dir name) tree);
}

-- `ioutil.ReadDir` lists the files of the names that the service looks for.
abbrev pub Lists : (Text → Text → Text) → Text → Map Bytes → List FileInfo → Type 0
Lists join dir tree infos =
    (k : Text) → feature_re k ≡ true → has_file k infos ≡ is_some (lookup (join dir k) tree)

-- What a content says of its feature.
abbrev content_says : Files → Option Bytes → Option Raw → Option Raw
content_says base none value = value
content_says base (some content) value =
    if is_blank (base.trim_space content)
    then none
    else elim (base.decode_raw content) [ none ↦ value | some new ↦ some new ]

module _ (join : Text → Text → Text) (dir : Text) (base : Files) (arg_features : Features)
    (m : IsMap arg_features) where
  abbrev pub scanned_of : Map Bytes → List FileInfo → Features
  scanned_of tree infos = scanned_features (files_of join dir base tree) arg_features infos

  -- A scan of a tree, name by name.
  lookup-scanned_of :
      (tree : Map Bytes) (infos : List FileInfo) (k : Text)
      → Lists join dir tree infos
      → lookup k (scanned_of tree infos) ≡ (
          if feature_re k
          then content_says base (lookup (join dir k) tree) (lookup k arg_features)
          else lookup k arg_features)
  unfolding says
  lookup-scanned_of tree infos k l =
      ground
        (arith, lookup-scanned_features (files_of join dir base tree) arg_features infos k m, l k)

  -- A scan says of another name what the scan of the tree before says of it.
  other_name :
      (tree tree' : Map Bytes) (infos infos' : List FileInfo) (k : Text)
      → Lists join dir tree infos
      → Lists join dir tree' infos'
      → lookup (join dir k) tree' ≡ lookup (join dir k) tree
      → lookup k (scanned_of tree' infos') ≡ lookup k (scanned_of tree infos)
  other_name tree tree' infos infos' k l l' e =
      lookup-scanned_of tree' infos' k l'
      ∙ ap
          (λ (o : Option Bytes).
            if feature_re k
            then content_says base o (lookup k arg_features)
            else lookup k arg_features)
          e
      ∙ sym (lookup-scanned_of tree infos k l)

  module _ (c : FileCalls) (name : Text) (tree tree' : Map Bytes)
      (infos infos' : List FileInfo) where
    done_of :
        (content : Bytes) (w : Written)
        → w ≡ (ok tt, tree')
        → IsAtomic (join dir name) (tmp_path join dir name) content tree w
        → (p : Text)
        → lookup p tree' ≡ replaced (join dir name) (tmp_path join dir name) content tree p
    done_of content (r, files') e (inl (q, h)) p = ap (λ (w : Written). lookup p w.1) (sym e) ∙ h p
    done_of content (r, files') e (inr (x, q, h)) p = absurd (ground arith)

    -- Where the content that is set without an error is a value other than JSON null, and no file was
    -- JSON null, no file is.
    pub create_config_file-NoNull :
        (content value : Bytes)
        → create_config_file join c dir name content tree ≡ (ok tt, tree')
        → base.decode_raw content ≡ some (some value)
        → base.decode_raw [] ≢ some none
        → NoNull (files_of join dir base tree)
        → NoNull (files_of join dir base tree')
    create_config_file-NoNull content value e json empty nulls k =
        let done =
          done_of content (create_config_file join c dir name content tree) e
            (create_config_file-IsAtomic join c dir name content tree) (join dir k) in
        elim (Text-discrete (join dir name) (join dir k)) [
          | yes p ↦ ground (arith, done, json)
          | no p ↦ elim (Text-discrete (tmp_path join dir name) (join dir k)) [
            | yes q ↦ ground (arith, done, empty)
            | no q ↦ ground (arith, done, nulls k)
          ]
        ]

    -- Where a content is set without an error, is not blank, and is the JSON of a value, and the name
    -- is of the pattern, a scan of the directory that the service makes then gives the feature that
    -- value, and each other feature the one that it had.
    pub create_config_file-scanned :
        (content : Bytes) (value : Raw)
        → create_config_file join c dir name content tree ≡ (ok tt, tree')
        → feature_re name ≡ true
        → is_blank (base.trim_space content) ≡ false
        → base.decode_raw content ≡ some value
        → Lists join dir tree infos
        → Lists join dir tree' infos'
        → (lookup name (scanned_of tree' infos') ≡ some value)
          × ((k : Text)
              → (join dir name ≡ join dir k)
                ⊎ (tmp_path join dir name ≡ join dir k)
                ⊎ (lookup k (scanned_of tree' infos') ≡ lookup k (scanned_of tree infos)))
    create_config_file-scanned content value e re blank json l l' =
        let done =
          done_of content (create_config_file join c dir name content tree) e
            (create_config_file-IsAtomic join c dir name content tree) in
        (
          lookup-scanned_of tree' infos' name l' ∙ ground (arith, done (join dir name)),
          λ k. elim (Text-discrete (join dir name) (join dir k)) [
            | yes p ↦ inl p
            | no p ↦ elim (Text-discrete (tmp_path join dir name) (join dir k)) [
              | yes q ↦ inr (inl q)
              | no q ↦ inr (
                  inr
                    (other_name tree tree' infos infos' k l l' (ground (arith, done (join dir k)))))
            ]
          ],
        )

    removed_path :
        remove_config_file join c dir name tree ≡ (ok tt, tree')
        → (c.remove_file ≡ none) ⊎ (lookup (join dir name) tree ≡ none)
        → (p : Text) → lookup p tree' ≡ ite (Text-discrete (join dir name) p) none (lookup p tree)
    unfolding remove_config_file
    removed_path e (inl g) p =
        ap (λ (w : Written). lookup p w.1) (sym e)
        ∙ ground (arith, lookup-erase (join dir name) p tree)
    removed_path e (inr g) p =
        ap (λ (w : Written). lookup p w.1) (sym e)
        ∙ ground (arith, lookup-erase (join dir name) p tree)

    -- Where a feature is removed without an error, a scan of the directory then says of it what the
    -- argument of the service says, and of each other feature what it said.
    pub remove_config_file-scanned :
        remove_config_file join c dir name tree ≡ (ok tt, tree')
        → (c.remove_file ≡ none) ⊎ (lookup (join dir name) tree ≡ none)
        → Lists join dir tree infos
        → Lists join dir tree' infos'
        → (lookup name (scanned_of tree' infos') ≡ lookup name arg_features)
          × ((k : Text)
              → (join dir name ≡ join dir k)
                ⊎ (lookup k (scanned_of tree' infos') ≡ lookup k (scanned_of tree infos)))
    remove_config_file-scanned e gone l l' = (
      lookup-scanned_of tree' infos' name l' ∙ ground (arith, removed_path e gone (join dir name)),
      λ k. elim (Text-discrete (join dir name) (join dir k)) [
        | yes p ↦ inl p
        | no p ↦ inr (
            other_name tree tree' infos infos' k l l'
              (ground (arith, removed_path e gone (join dir k))))
      ],
    )
