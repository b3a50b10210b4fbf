-- ===== src/State/Writes.antt =====
-- What the writes of one round do, whatever fails.
use nameq.Base.{◌≡◌, ◌⊎◌, inl, inr, true, false, some, [], arith, Option-cases, Bool-cases}
use nameq.Base.Text.{Text, Bytes}
use nameq.Base.Map.{Map, lookup, insert, lookup-insert}
use nameq.State.{Tree, Calls, write_file, fill_and_rename, is_unchanged, discard, move}

-- No call fails.
pub record Succeeds (c : Calls) : Type 0 where
  pub read_file : c.read_file ≡ false
  pub name : Text
  pub temp_file : c.temp_file ≡ some name
  pub write : c.write ≡ false
  pub chmod : c.chmod ≡ false
  pub close : c.close ≡ false
  pub mkdir_all : c.mkdir_all ≡ false
  pub rename : c.rename ≡ false

-- The files after the write: as they were, or with the new data put in.
abbrev Outcome : Text → Bytes → Tree → Tree → Type 0
Outcome filename new_data t u = (u.files ≡ t.files) ⊎ (u.files ≡ insert filename new_data t.files)

files-move :
    (name filename : Text) (new_data : Bytes) (t : Tree)
    → (move name filename (record t { temps = insert name new_data t.temps })).files
      ≡ insert filename new_data t.files
unfolding move
files-move name filename new_data t = ground (arith, lookup-insert name name new_data t.temps)

files-discard : (c : Calls) (name : Text) (t : Tree) → (discard c name t).files ≡ t.files
unfolding discard
files-discard c name t = ground arith

files-fill_and_rename :
    (c : Calls) (name filename : Text) (new_data : Bytes) (t : Tree)
    → Outcome filename new_data t (fill_and_rename c name filename new_data t)
files-fill_and_rename c name filename new_data t =
    unfold fill_and_rename in
    ground (
      arith,
      files-move name filename new_data t,
      files-discard c name (record t { temps = insert name [] t.temps }),
      files-discard c name (record t { temps = insert name new_data t.temps }),
    )

files-write_file :
    (c : Calls) (filename : Text) (new_data : Bytes) (t : Tree)
    → Outcome filename new_data t (write_file c filename new_data t)
unfolding write_file
files-write_file c filename new_data t = elim (Option-cases c.temp_file) [
  | inl e ↦ ground arith
  | inr (name, e) ↦ ground (arith, files-fill_and_rename c name filename new_data t)
]

is_unchanged-eq :
    (c : Calls) (filename : Text) (new_data : Bytes) (t : Tree)
    → is_unchanged c filename new_data t ≡ true
    → lookup filename t.files ≡ some new_data
unfolding is_unchanged
is_unchanged-eq c filename new_data t h = ground arith

files-fill_and_rename-Succeeds :
    (c : Calls) (s : Succeeds c) (filename : Text) (new_data : Bytes) (t : Tree)
    → (fill_and_rename c s.name filename new_data t).files ≡ insert filename new_data t.files
unfolding fill_and_rename
files-fill_and_rename-Succeeds c s filename new_data t =
    ground (
      arith,
      files-move s.name filename new_data t,
      s.write,
      s.chmod,
      s.close,
      s.mkdir_all,
      s.rename,
    )

module _ (c : Calls) (filename : Text) (new_data : Bytes) (t : Tree) where
  abbrev files' : Map Bytes
  files' = (write_file c filename new_data t).files

  -- Every other file is as it was.
  pub lookup-write_file_ne : (p : Text) → ¬ (filename ≡ p) → lookup p files' ≡ lookup p t.files
  lookup-write_file_ne p h =
      ground
        (arith, files-write_file c filename new_data t, lookup-insert filename p new_data t.files)

  -- The file itself is as it was, or has the new data whole.
  pub lookup-write_file_self :
      (lookup filename files' ≡ lookup filename t.files) ⊎ (lookup filename files' ≡ some new_data)
  lookup-write_file_self = ground (
    arith,
    files-write_file c filename new_data t,
    lookup-insert filename filename new_data t.files,
  )

  -- If no call fails the file has the new data.
  pub lookup-write_file_Succeeds : Succeeds c → lookup filename files' ≡ some new_data
  unfolding write_file
  lookup-write_file_Succeeds s = elim (Bool-cases (is_unchanged c filename new_data t)) [
    | inl e ↦ ground (arith, is_unchanged-eq c filename new_data t e)
    | inr e ↦ ground (
      arith,
      s.temp_file,
      files-fill_and_rename-Succeeds c s filename new_data t,
      lookup-insert filename filename new_data t.files,
    )
  ]
