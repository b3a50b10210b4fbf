-- ===== src/State/Temps.antt =====
-- The temporary files that a round makes are gone at its end.
use nameq.Base.{◌≡◌, ◌⊎◌, inl, inr, refl, false, none, [], ◌∷◌, arith, Option-cases}
use nameq.Base.Text.{Text, Bytes}
use nameq.Base.Map.{Map, lookup, insert, lookup-insert, lookup-erase}
use nameq.Base.Run.{returns}
use nameq.Node.{LocalNode, RemoteNodes}
use nameq.Codec.{Codec}
use nameq.State.{
  Tree, Disk, Progress, Calls, write_file, fill_and_rename, discard, move, state_round,
}
use nameq.State.Round.{desired, write_all, finish, state_round-eq}

-- The temporary files of the second tree are among those of the first, as they were.
abbrev pub NoneNew : Tree → Tree → Type 0
NoneNew t t' =
    (name : Text) → (lookup name t'.temps ≡ none) ⊎ (lookup name t'.temps ≡ lookup name t.temps)

discard-NoneNew :
    (c : Calls) (name : Text) (content : Bytes) (t : Tree)
    → c.remove ≡ false
    → NoneNew t (discard c name (record t { temps = insert name content t.temps }))
unfolding discard
discard-NoneNew c name content t h k =
    ground (
      arith,
      lookup-erase name k (insert name content t.temps),
      lookup-insert name k content t.temps,
    )

move-NoneNew :
    (name filename : Text) (content : Bytes) (t : Tree)
    → NoneNew t (move name filename (record t { temps = insert name content t.temps }))
unfolding move
move-NoneNew name filename content t k = ground (
  arith,
  lookup-insert name name content t.temps,
  lookup-erase name k (insert name content t.temps),
  lookup-insert name k content t.temps,
)

fill_and_rename-NoneNew :
    (c : Calls) (name filename : Text) (content : Bytes) (t : Tree)
    → c.remove ≡ false
    → NoneNew t (fill_and_rename c name filename content t)
unfolding fill_and_rename
fill_and_rename-NoneNew c name filename content t h k = ground (
  arith,
  discard-NoneNew c name [] t h k,
  discard-NoneNew c name content t h k,
  move-NoneNew name filename content t k,
)

write_file-NoneNew :
    (c : Calls) (filename : Text) (content : Bytes) (t : Tree)
    → c.remove ≡ false
    → NoneNew t (write_file c filename content t)
unfolding write_file
write_file-NoneNew c filename content t h k = elim (Option-cases c.temp_file) [
  | inl e ↦ ground arith
  | inr (name, e) ↦ ground (arith, fill_and_rename-NoneNew c name filename content t h k)
]

NoneNew-trans : (t u v : Tree) → NoneNew t u → NoneNew u v → NoneNew t v
NoneNew-trans t u v h k name = ground (arith, h name, k name)

module _ (codec : Codec) (disk : Disk) (feature_dir : Text)
    (removes : (path : Text) → (disk.calls path).remove ≡ false) where
  write_all-NoneNew :
      (d : Map Bytes) (q : Progress) → NoneNew q.0 (write_all codec disk feature_dir d q).0
  unfolding write_all
  write_all-NoneNew [] q name = inr refl
  write_all-NoneNew ((path, content) ∷ d) (t, filenames) name =
      NoneNew-trans t (write_file (disk.calls path) path content t)
        (write_all codec disk feature_dir d
          (write_file (disk.calls path) path content t, path ∷ filenames)).0
        (write_file-NoneNew (disk.calls path) path content t (removes path))
        (write_all-NoneNew d (write_file (disk.calls path) path content t, path ∷ filenames)) name

  -- Whatever calls fail but `os.Remove`, a round that can render its features returns, and leaves no
  -- temporary file but those that were there before it, as they were.
  pub state_round-NoneNew :
      (local : LocalNode) (remotes : RemoteNodes) (t : Tree) (d : Map Bytes)
      → desired codec disk feature_dir local remotes ≡ returns d
      → (t' : Tree) × (state_round codec disk feature_dir local remotes t ≡ returns t')
        × NoneNew t t'
  unfolding finish
  state_round-NoneNew local remotes t d h = (
    finish codec disk feature_dir (write_all codec disk feature_dir d (t, [])),
    state_round-eq codec disk feature_dir local remotes t d h,
    write_all-NoneNew d (t, []),
  )
