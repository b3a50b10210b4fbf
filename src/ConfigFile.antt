-- ===== src/ConfigFile.antt =====
-- go/nameq.go: SetFeature and RemoveFeature, which write the files of a host's own features.
pub mod Atomic
pub mod Scanned
mod Tests
use nameq.Base.{ℕ, ◌==◌, Bool, Option, none, some, List, [], ◌∷◌, if◌then◌else◌, ite}
use nameq.Base.Text.{Text, Bytes, codes, Text-discrete}
use nameq.Base.Map.{Map, lookup, insert, erase}
use nameq.Base.Run.{Run, returns, panics}
use nameq.Base.Result.{Result, ok, err}

-- `ioutil.WriteFile`; a failure may leave the file as it was, or with other bytes.
pub data WriteFile : Type 0 where
  written : WriteFile
  write_failed : Option Bytes → WriteFile

-- What the calls do: `true` is a failure, and so is an error number of `remove_file`.
pub record FileCalls : Type 0 where
  pub mkdir_all : Bool
  pub write_file : WriteFile
  pub rename : Bool
  pub remove_temp : Bool
  pub remove_file : Option ℕ

pub data FileError : Type 0 where
  mkdir_failed write_error rename_failed : FileError
  remove_failed : ℕ → FileError

-- What a call returns, and the files after it, by path.
abbrev pub Written : Type 0
Written = Result FileError (Unit {0}) × Map Bytes

-- `os.Rename`, where it does not fail.
abbrev pub rename_file : Text → Text → Map Bytes → Map Bytes
rename_file from to files = elim (lookup from files) [
  | none ↦ files
  | some content ↦ insert to content (erase from files)
]

abbrev pub default_feature_dir : Text
default_feature_dir = codes "/etc/nameq/features"

-- `syscall.ENOENT`
abbrev pub enoent : ℕ
enoent = 2

-- What follows `ioutil.WriteFile` in `createConfigFile`.
unfoldable pub after_write : FileCalls → WriteFile → Text → Text → Bytes → Map Bytes → Written
after_write c (write_failed none) tmp path content files = (err write_error, files)
after_write c (write_failed (some left)) tmp path content files =
    (err write_error, insert tmp left files)
after_write c written tmp path content files =
    let files' = insert tmp content files in
    if c.rename
    then (err rename_failed, if c.remove_temp then files' else erase tmp files')
    else (ok tt, rename_file tmp path files')

module _ (join : Text → Text → Text) where
  abbrev pub tmp_path : Text → Text → Text
  tmp_path dir name = join (join dir (codes ".tmp")) name

  unfoldable pub create_config_file : FileCalls → Text → Text → Bytes → Map Bytes → Written
  unfolding after_write
  create_config_file c dir name content files =
      if c.mkdir_all
      then (err mkdir_failed, files)
      else after_write c c.write_file (tmp_path dir name) (join dir name) content files

  unfoldable pub remove_config_file : FileCalls → Text → Text → Map Bytes → Written
  remove_config_file c dir name files = elim c.remove_file [
    | none ↦ (ok tt, erase (join dir name) files)
    | some e ↦ if e == enoent then (ok tt, files) else (err (remove_failed e), files)
  ]

  abbrev pub given_dir : Text → Text
  given_dir feature_dir = ite (Text-discrete feature_dir []) default_feature_dir feature_dir

  unfoldable pub set_feature : FileCalls → Text → Text → Bytes → Map Bytes → Run Written
  unfolding create_config_file
  set_feature c feature_dir name [] files = panics
  set_feature c feature_dir name (b ∷ content) files =
      returns (create_config_file c (given_dir feature_dir) name (b ∷ content) files)

  unfoldable pub remove_feature : FileCalls → Text → Text → Map Bytes → Written
  unfolding remove_config_file
  remove_feature c feature_dir name files = remove_config_file c (given_dir feature_dir) name files
