-- ===== src/Config.antt =====
-- service/config.go: the features of the local node, from an argument and from the files of a
-- directory.
pub mod Overlay
pub mod Update
mod Tests
use nameq.Base.{
  ℕ, ◌==◌, ◌||◌, ◌&&◌, not, leb, Bool, true, false, Option, none, some, List, [], ◌∷◌,
  if◌then◌else◌,
}
use nameq.Base.Text.{Text, Bytes, codes}
use nameq.Base.Map.{lookup, insert, erase}
use nameq.Base.Run.{Run, returns, panics, ◌>>=◌}
use nameq.Base.Result.{Result, ok, err}
use nameq.Node.{Raw, Features, LocalNode}
use nameq.Node.Local.{update_features}

abbrev is_between : ℕ → ℕ → ℕ → Bool
is_between low high c = leb low c && leb c high

-- `[a-zA-Z0-9-_]`
abbrev pub is_name_byte : ℕ → Bool
is_name_byte c =
    is_between b'a' b'z' c
    || is_between b'A' b'Z' c
    || is_between b'0' b'9' c
    || c == b'-'
    || c == b'_'

unfoldable pub all_name_bytes : Text → Bool
all_name_bytes [] = true
all_name_bytes (c ∷ rest) = if is_name_byte c then all_name_bytes rest else false

-- `featureRE.MatchString`
unfoldable pub feature_re : Text → Bool
unfolding all_name_bytes
feature_re [] = false
feature_re (c ∷ rest) = all_name_bytes (c ∷ rest)

pub record FileInfo : Type 0 where
  pub name : Text
  pub is_dir : Bool

-- The error inside an `*os.PathError`: the variable `os.ErrNotExist`, or an error number of a system
-- call.
pub data Cause : Type 0 where
  err_not_exist : Cause
  errno : ℕ → Cause

pub data ReadError : Type 0 where
  path_error : Cause → ReadError
  other_error : ReadError

pub record ReadFile : Type 0 where
  pub data' : Bytes
  pub error : Option ReadError

-- What is called on the files: `ioutil.ReadFile` of a name in the directory, `bytes.TrimSpace`, and
-- `json.Unmarshal` into a `*json.RawMessage`.
pub record Files : Type 0 where
  pub read_file : Text → ReadFile
  pub trim_space : Bytes → Bytes
  pub decode_raw : Bytes → Option Raw

-- The names that `scanConfig` hands on.
unfoldable pub filenames_of : List FileInfo → List Text
unfolding feature_re
filenames_of [] = []
filenames_of (info ∷ rest) =
    let filenames = filenames_of rest in
    if not info.is_dir && feature_re info.name then info.name ∷ filenames else filenames

-- The loop that fills `features` from `argFeatures`.
unfoldable pub copy_features : Features → Features → Features
copy_features [] features = features
copy_features ((name, value) ∷ rest) features = copy_features rest (insert name value features)

-- `pathErr.Err == os.ErrNotExist`
abbrev pub is_missing : ReadError → Bool
is_missing (path_error err_not_exist) = true
is_missing (path_error (errno _)) = false
is_missing other_error = false

-- The file cannot be read, and the loop continues with the next one.
abbrev pub is_unreadable : ReadFile → Bool
is_unreadable read = elim read.error [ none ↦ false | some e ↦ not (is_missing e) ]

abbrev pub is_blank : Bytes → Bool
is_blank [] = true
is_blank (_ ∷ _) = false

-- The body of the loop over the files.
unfoldable pub apply_file : Files → Text → Features → Features
apply_file files name features =
    let read = files.read_file name in
    if is_unreadable read
    then features
    else if is_blank (files.trim_space read.data')
    then erase name features
    else elim (files.decode_raw read.data') [
      | none ↦ features
      | some value ↦ insert name value features
    ]

unfoldable pub apply_files : Files → List Text → Features → Features
unfolding apply_file
apply_files files [] features = features
apply_files files (name ∷ rest) features = apply_files files rest (apply_file files name features)

-- The features that the handler makes of the files of a scan.
unfoldable pub scanned_features : Files → Features → List FileInfo → Features
unfolding filenames_of copy_features apply_files
scanned_features files arg_features infos =
    apply_files files (filenames_of infos) (copy_features arg_features [])

-- The local node, and whether the channel, of capacity 1, to the loop of `Serve` holds a token.
pub record Configured : Type 0 where
  pub local : LocalNode
  pub notified : Bool

-- `scanConfig` with the handler of `initFeatureConfig`; `none` is an error of `ioutil.ReadDir`.
unfoldable pub scan_config : Files → Features → Option (List FileInfo) → Configured → Run Configured
unfolding scanned_features
scan_config files arg_features none c = returns c
scan_config files arg_features (some infos) c = do
  (local, update) ← update_features c.local (scanned_features files arg_features infos)
  returns (record { local = local; notified = if update then true else c.notified })
