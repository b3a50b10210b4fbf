-- ===== src/State.antt =====
-- service/state.go: the directory tree of feature files. Each round of `stateLoop` writes the files of
-- the local node and of the table, and removes the others.
pub mod Writes
pub mod Round
pub mod Exact
pub mod Entries
pub mod Rendered
pub mod Known
pub mod Shown
pub mod Temps
mod Tests
use nameq.Base.{
  Bool, true, false, ◌||◌, Option, none, some, List, [], ◌∷◌, ◌++◌, if◌then◌else◌, ite,
}
use nameq.Base.Text.{Text, Bytes, codes, Text-discrete}
use nameq.Base.Map.{Map, lookup, insert, erase}
use nameq.Base.Run.{Run, returns, panics, ◌>>=◌}
use nameq.Node.{Raw, Features, Node, LocalNode, RemoteNodes}
use nameq.Node.Remotes.{nodes}
use nameq.Codec.{Codec}

abbrev pub loopback_ip_addr : Text
loopback_ip_addr = codes "127.0.0.1"

-- The regular files below the feature directory, by path, and those of the directory for temporary
-- files, by name.
pub record Tree : Type 0 where
  pub files : Map Bytes
  pub temps : Map Bytes

-- What the calls for one file do: `true` is a failure. `temp_file` is the name of the new temporary
-- file, if one was made.
pub record Calls : Type 0 where
  pub read_file : Bool
  pub temp_file : Option Text
  pub write : Bool
  pub chmod : Bool
  pub close : Bool
  pub mkdir_all : Bool
  pub rename : Bool
  pub remove : Bool

-- What a round has of its surroundings: `filepath.Join`, the calls for the file of a path, and whether
-- the walk fails at a path.
pub record Disk : Type 0 where
  pub join : Text → Text → Text
  pub calls : Text → Calls
  pub walk : Text → Bool

-- `oldData`, if it can be read, against the new data.
unfoldable pub is_unchanged : Calls → Text → Bytes → Tree → Bool
is_unchanged c filename new_data t = if c.read_file then false else elim (lookup filename t.files) [
  | none ↦ false
  | some old_data ↦ elim (Text-discrete old_data new_data) [ yes _ ↦ true | no _ ↦ false ]
]

-- `os.Remove(file.Name())`
unfoldable pub discard : Calls → Text → Tree → Tree
discard c name t = if c.remove then t else record t { temps = erase name t.temps }

-- `os.Rename(file.Name(), filename)`
unfoldable pub move : Text → Text → Tree → Tree
move name filename t = elim (lookup name t.temps) [
  | none ↦ t
  | some content ↦ record { files = insert filename content t.files; temps = erase name t.temps }
]

-- The steps after `ioutil.TempFile`: each failure removes the temporary file and goes on with the
-- next feature.
unfoldable pub fill_and_rename : Calls → Text → Text → Bytes → Tree → Tree
fill_and_rename c name filename new_data t =
    let made = record t { temps = insert name [] t.temps } in
    let written = record t { temps = insert name new_data t.temps } in
    if c.write
    then discard c name made
    else if c.chmod || c.close || c.mkdir_all || c.rename
    then discard c name written
    else move name filename written

unfoldable pub write_file : Calls → Text → Bytes → Tree → Tree
write_file c filename new_data t =
    if is_unchanged c filename new_data t
    then t
    else elim c.temp_file [ none ↦ t | some name ↦ fill_and_rename c name filename new_data t ]

-- `json.MarshalIndent` and the line feed. An error is a panic in the source.
unfoldable pub render : Codec → Raw → Run Bytes
render codec value = elim (codec.indent_raw value) [
  | none ↦ panics
  | some json ↦ returns (json ++ (0xa ∷ []))
]

-- The state of a round: the tree, and the set `filenames`.
abbrev pub Progress : Type 0
Progress = Tree × List Text

-- The file of a feature and an address.
abbrev pub path_of : Disk → Text → Text → Text → Text
path_of disk feature_dir feature ip_addr = disk.join (disk.join feature_dir feature) ip_addr

module _ (codec : Codec) (disk : Disk) (feature_dir : Text) where
  -- `writeFeatureState`, over the features that are left.
  unfoldable pub write_features : Text → Features → Progress → Run Progress
  write_features ip_addr [] p = returns p
  write_features ip_addr ((feature, value) ∷ rest) (t, filenames) = do
    let filename = path_of disk feature_dir feature ip_addr
    new_data ← render codec value
    write_features ip_addr rest
        (write_file (disk.calls filename) filename new_data t, filename ∷ filenames)

  unfoldable pub write_nodes : List Node → Progress → Run Progress
  unfolding write_features
  write_nodes [] p = returns p
  write_nodes (node ∷ rest) p = do
    p' ← write_features node.ip_addr node.features p
    write_nodes rest p'

unfoldable pub is_listed : Text → List Text → Bool
is_listed path [] = false
is_listed path (name ∷ rest) = ite (Text-discrete name path) true (is_listed path rest)

-- `filepath.Walk` with its function: a file that is not in `filenames` is removed, unless the walk or
-- the removal fails there.
unfoldable pub remove_stale : Disk → List Text → Map Bytes → Map Bytes
unfolding is_listed
remove_stale disk filenames [] = []
remove_stale disk filenames ((path, content) ∷ rest) =
    let kept = remove_stale disk filenames rest in
    if is_listed path filenames || disk.walk path || (disk.calls path).remove
    then (path, content) ∷ kept
    else kept

-- One round of `stateLoop`, after a notification.
unfoldable pub state_round : Codec → Disk → Text → LocalNode → RemoteNodes → Tree → Run Tree
unfolding write_nodes remove_stale
state_round codec disk feature_dir local remotes t = do
  p ← write_features codec disk feature_dir loopback_ip_addr local.node.features (t, [])
  (t', filenames) ← write_nodes codec disk feature_dir (nodes remotes) p
  returns (record t' { files = remove_stale disk filenames t'.files })
