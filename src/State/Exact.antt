-- ===== src/State/Exact.antt =====
-- What the tree holds after a round.
use nameq.Base.{
  ◌≡◌, refl, ◌∙◌, ◌⊎◌, inl, inr, Bool, true, false, ◌||◌, Option, none, some, List, [], ◌∷◌, arith,
  if◌then◌else◌, Option-cases,
}
use nameq.Base.Text.{Text, Bytes}
use nameq.Base.Map.{Map, lookup, IsMap}
use nameq.Base.Run.{returns}
use nameq.Node.{LocalNode, RemoteNodes}
use nameq.Codec.{Codec}
use nameq.State.{Tree, Disk, Progress, write_file, is_listed, remove_stale, state_round}
use nameq.State.Writes.{
  Succeeds, lookup-write_file_ne, lookup-write_file_self, lookup-write_file_Succeeds,
}
use nameq.State.Round.{desired, write_all, finish, state_round-eq}

-- What is left of a file when the round removes the files that are not listed.
lookup-remove_stale :
    (disk : Disk) (filenames : List Text) (m : Map Bytes) (p : Text)
    → lookup p (remove_stale disk filenames m)
      ≡ (if is_listed p filenames || disk.walk p || (disk.calls p).remove then lookup p m else none)
unfolding lookup remove_stale
lookup-remove_stale disk filenames [] p = ground arith
lookup-remove_stale disk filenames ((path, content) ∷ m) p =
    ground (arith, lookup-remove_stale disk filenames m p)

abbrev is_some : Option Bytes → Bool
is_some none = false
is_some (some _) = true

module _ (codec : Codec) (disk : Disk) (feature_dir : Text) where
  abbrev after : Map Bytes → Progress → Progress
  after = write_all codec disk feature_dir

  lookup-write_all_absent :
      (d : Map Bytes) (q : Progress) (p : Text)
      → lookup p d ≡ none
      → lookup p (after d q).0.files ≡ lookup p q.0.files
  unfolding write_all lookup
  lookup-write_all_absent [] q p h = refl
  lookup-write_all_absent ((path, content) ∷ d) (t, filenames) p h = ground (
    arith,
    lookup-write_all_absent d (write_file (disk.calls path) path content t, path ∷ filenames) p,
    lookup-write_file_ne (disk.calls path) path content t p,
  )

  -- Each file is as it was, or as it ought to be.
  lookup-write_all_either :
      (d : Map Bytes) (q : Progress) (p : Text)
      → IsMap d
      → (lookup p (after d q).0.files ≡ lookup p q.0.files)
        ⊎ (lookup p (after d q).0.files ≡ lookup p d)
  unfolding write_all lookup
  lookup-write_all_either [] q p u = inl refl
  lookup-write_all_either ((path, content) ∷ d) (t, filenames) p u = ground (
    arith,
    lookup-write_all_absent d (write_file (disk.calls path) path content t, path ∷ filenames) p,
    lookup-write_all_either d (write_file (disk.calls path) path content t, path ∷ filenames) p u.1,
    lookup-write_file_ne (disk.calls path) path content t p,
    lookup-write_file_self (disk.calls path) path content t,
  )

  lookup-write_all_Succeeds :
      ((path : Text) → Succeeds (disk.calls path))
      → (d : Map Bytes) (q : Progress) (p : Text) (c : Bytes) → IsMap d
      → lookup p d ≡ some c
      → lookup p (after d q).0.files ≡ some c
  unfolding write_all lookup
  lookup-write_all_Succeeds s [] q p c u h = absurd (ground arith)
  lookup-write_all_Succeeds s ((path, content) ∷ d) (t, filenames) p c u h = ground (
    arith,
    lookup-write_all_absent d (write_file (disk.calls path) path content t, path ∷ filenames) p,
    lookup-write_all_Succeeds s d (write_file (disk.calls path) path content t, path ∷ filenames) p
        c u.1,
    lookup-write_file_Succeeds (disk.calls path) path content t (s path),
  )

  is_listed-write_all :
      (d : Map Bytes) (q : Progress) (p : Text)
      → is_listed p (after d q).1 ≡ (is_some (lookup p d) || is_listed p q.1)
  unfolding write_all lookup is_listed
  is_listed-write_all [] q p = refl
  is_listed-write_all ((path, content) ∷ d) (t, filenames) p = ground (
    arith,
    is_listed-write_all d (write_file (disk.calls path) path content t, path ∷ filenames) p,
  )

  lookup-finish :
      (d : Map Bytes) (t : Tree) (p : Text)
      → lookup p (finish codec disk feature_dir (after d (t, []))).files ≡ (
          if is_some (lookup p d) || disk.walk p || (disk.calls p).remove
          then lookup p (after d (t, [])).0.files
          else none)
  unfolding finish is_listed
  lookup-finish d t p =
      lookup-remove_stale disk (after d (t, [])).1 (after d (t, [])).0.files p
      ∙ ground (arith, is_listed-write_all d (t, []) p)

  module _ (local : LocalNode) (remotes : RemoteNodes) (t : Tree) (d : Map Bytes)
      (wanted : desired codec disk feature_dir local remotes ≡ returns d) (u : IsMap d) where
    -- The tree after a round.
    abbrev round : Tree
    round = finish codec disk feature_dir (after d (t, []))

    -- Whatever calls fail, the round returns, and each file is afterwards as it was or as it ought to
    -- be: no file is left half written, and none that ought to stay is gone. The files that ought to
    -- be are those of the features of the local node and of the table, where no two share a path.
    pub state_round-atomic :
        (t' : Tree) × (state_round codec disk feature_dir local remotes t ≡ returns t')
        × ((p : Text) → (lookup p t'.files ≡ lookup p t.files) ⊎ (lookup p t'.files ≡ lookup p d))
    state_round-atomic = (
      round,
      state_round-eq codec disk feature_dir local remotes t d wanted,
      λ p. ground (arith, lookup-finish d t p, lookup-write_all_either d (t, []) p u),
    )

    -- If no call fails, the round leaves the files that there ought to be, and no others.
    pub state_round-exact :
        ((path : Text) → Succeeds (disk.calls path))
        → ((path : Text) → (disk.walk path ≡ false) × ((disk.calls path).remove ≡ false))
        → (t' : Tree) × (state_round codec disk feature_dir local remotes t ≡ returns t')
          × ((p : Text) → lookup p t'.files ≡ lookup p d)
    state_round-exact s removes = (
      round,
      state_round-eq codec disk feature_dir local remotes t d wanted,
      λ p. elim (Option-cases (lookup p d)) [
        | inl e ↦ ground (arith, lookup-finish d t p, removes p)
        | inr (c, e) ↦
            ground (arith, lookup-finish d t p, lookup-write_all_Succeeds s d (t, []) p c u e)
      ],
    )
