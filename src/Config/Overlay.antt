-- ===== src/Config/Overlay.antt =====
-- What the features of a scan are, name by name.
use nameq.Base.{
  ◌≡◌, refl, ◌∙◌, ◌&&◌, Bool, true, false, Option, none, some, List, [], ◌∷◌, arith, ite,
  if◌then◌else◌, Option-cases, inl, inr,
}
use nameq.Base.Text.{Text, Text-discrete}
use nameq.Base.Map.{lookup, insert, IsMap, lookup-insert, lookup-erase}
use nameq.Node.{Raw, Features}
use nameq.Config.{
  FileInfo, Files, is_unreadable, is_blank, feature_re, filenames_of, copy_features, apply_file,
  apply_files, scanned_features,
}

-- What a readable file makes of the value of its feature: no text removes it, and text that is no
-- JSON leaves it.
unfoldable pub says : Files → Text → Option Raw → Option Raw
says files name value =
    let read = files.read_file name in
    if is_unreadable read
    then value
    else if is_blank (files.trim_space read.data')
    then none
    else elim (files.decode_raw read.data') [ none ↦ value | some new ↦ some new ]

-- The directory has a file of the name that is no directory.
unfoldable pub has_file : Text → List FileInfo → Bool
has_file k [] = false
has_file k (info ∷ rest) =
    let found = has_file k rest in
    if info.is_dir then found else ite (Text-discrete info.name k) true found

is_in : Text → List Text → Bool
is_in k [] = false
is_in k (name ∷ rest) = ite (Text-discrete name k) true (is_in k rest)

says-says :
    (files : Files) (k : Text) (v : Option Raw) → says files k (says files k v) ≡ says files k v
unfolding says
says-says files k v = ground arith

lookup-apply_file :
    (files : Files) (name k : Text) (m : Features)
    → lookup k (apply_file files name m)
      ≡ ite (Text-discrete name k) (says files name (lookup name m)) (lookup k m)
unfolding apply_file says
lookup-apply_file files name k m =
    elim (Option-cases (files.decode_raw (files.read_file name).data')) [
      | inl e ↦ ground (arith, lookup-erase name k m)
      | inr (v, e) ↦ ground (arith, lookup-erase name k m, lookup-insert name k v m)
    ]

lookup-apply_files :
    (files : Files) (k : Text) (names : List Text) (m : Features)
    → lookup k (apply_files files names m)
      ≡ (if is_in k names then says files k (lookup k m) else lookup k m)
unfolding apply_files is_in
lookup-apply_files files k [] m = refl
lookup-apply_files files k (name ∷ rest) m = ground (
  arith,
  lookup-apply_files files k rest (apply_file files name m),
  lookup-apply_file files name k m,
  says-says files k (lookup k m),
)

is_in-filenames_of :
    (k : Text) (infos : List FileInfo)
    → is_in k (filenames_of infos) ≡ (has_file k infos && feature_re k)
unfolding is_in filenames_of has_file
is_in-filenames_of k [] = refl
is_in-filenames_of k (info ∷ rest) = ground (arith, is_in-filenames_of k rest)

lookup-copy_features :
    (k : Text) (a m : Features)
    → IsMap a
    → lookup k (copy_features a m) ≡ elim (lookup k a) [ none ↦ lookup k m | some v ↦ some v ]
unfolding copy_features lookup
lookup-copy_features k [] m h = refl
lookup-copy_features k ((j, v) ∷ a) m h =
    ground (arith, lookup-copy_features k a (insert j v m) h.1, lookup-insert j k v m)

-- The features of a scan, name by name: a name of the pattern whose file is in the directory has what
-- the file says over the argument, and any other has what the argument says.
pub lookup-scanned_features :
    (files : Files) (arg_features : Features) (infos : List FileInfo) (k : Text)
    → IsMap arg_features
    → lookup k (scanned_features files arg_features infos) ≡ (
        if has_file k infos && feature_re k
        then says files k (lookup k arg_features)
        else lookup k arg_features)
unfolding scanned_features lookup
lookup-scanned_features files arg_features infos k h =
    let names = filenames_of infos in
    let copied = copy_features arg_features [] in
    let e : lookup k copied ≡ lookup k arg_features =
      ground (arith, lookup-copy_features k arg_features [] h) in
    lookup-apply_files files k names copied ∙ rw (e, is_in-filenames_of k infos) refl
