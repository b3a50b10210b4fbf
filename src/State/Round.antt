-- ===== src/State/Round.antt =====
-- A round of the state loop against the files that there ought to be.
use nameq.Base.{◌≡◌, refl, ap, sym, ◌∙◌, inl, inr, List, [], ◌∷◌, ◌++◌, arith}
use nameq.Base.Text.{Text, Bytes}
use nameq.Base.Map.{Map}
use nameq.Base.Run.{Run-cases, Run, returns, panics, ◌>>=◌}
use nameq.Node.{Features, Node, LocalNode, RemoteNodes}
use nameq.Node.Remotes.{nodes}
use nameq.Codec.{Codec}
use nameq.State.{
  Tree, Disk, Progress, loopback_ip_addr, write_file, render, path_of, write_features, write_nodes,
  remove_stale, state_round,
}

regroup :
    {A B C : Type 0} (r : Run A) (f : A → B) (g : B → C)
    → (r >>= λ a. returns (g (f a))) ≡ (r >>= (λ a. returns (f a)) >>= λ b. returns (g b))
regroup (returns a) f g = refl
regroup panics f g = refl

module _ (codec : Codec) (disk : Disk) (feature_dir : Text) where
  -- The files that there ought to be for one node.
  unfoldable pub desired_features : Text → Features → Run (Map Bytes)
  desired_features ip_addr [] = returns []
  desired_features ip_addr ((feature, value) ∷ rest) = do
    content ← render codec value
    more ← desired_features ip_addr rest
    returns ((path_of disk feature_dir feature ip_addr, content) ∷ more)

  unfoldable pub desired_nodes : List Node → Run (Map Bytes)
  desired_nodes [] = returns []
  desired_nodes (node ∷ rest) = do
    one ← desired_features node.ip_addr node.features
    more ← desired_nodes rest
    returns (one ++ more)

  -- A file for each feature of the local node, under the loopback address, and for each feature of
  -- the other nodes, under theirs.
  unfoldable pub desired : LocalNode → RemoteNodes → Run (Map Bytes)
  desired local remotes = do
    one ← desired_features loopback_ip_addr local.node.features
    more ← desired_nodes (nodes remotes)
    returns (one ++ more)

  unfoldable pub write_all : Map Bytes → Progress → Progress
  write_all [] p = p
  write_all ((path, content) ∷ d) (t, filenames) =
      write_all d (write_file (disk.calls path) path content t, path ∷ filenames)

  write_all-append :
      (d e : Map Bytes) (p : Progress) → write_all (d ++ e) p ≡ write_all e (write_all d p)
  unfolding write_all
  write_all-append [] e p = refl
  write_all-append ((path, content) ∷ d) e (t, filenames) = write_all-append d e _

  unfoldable pub finish : Progress → Tree
  finish (t, filenames) = record t { files = remove_stale disk filenames t.files }

  write_features-eq :
      (ip_addr : Text) (features : Features) (p : Progress)
      → write_features codec disk feature_dir ip_addr features p
        ≡ (desired_features ip_addr features >>= λ d. returns (write_all d p))
  unfolding desired_features write_features write_all
  write_features-eq ip_addr [] p = refl
  write_features-eq ip_addr ((feature, value) ∷ rest) (t, filenames) =
      elim (Run-cases (render codec value)) [
        | inl e ↦ rw e
        | inr (content, e) ↦
            let path = path_of disk feature_dir feature ip_addr in
            rw
              (
                e,
                write_features-eq ip_addr rest
                    (write_file (disk.calls path) path content t, path ∷ filenames),
              )
              (regroup (desired_features ip_addr rest) (λ more. (path, content) ∷ more)
                (λ d. write_all d (t, filenames)))
      ]

  write_nodes-eq :
      (ns : List Node) (p : Progress)
      → write_nodes codec disk feature_dir ns p
        ≡ (desired_nodes ns >>= λ d. returns (write_all d p))
  unfolding desired_nodes write_nodes write_all
  write_nodes-eq [] p = refl
  write_nodes-eq (node ∷ rest) p = elim (Run-cases (desired_features node.ip_addr node.features)) [
    | inl e ↦ rw (write_features-eq node.ip_addr node.features p, e)
    | inr (one, e) ↦ elim (Run-cases (desired_nodes rest)) [
      | inl f ↦ rw (
        write_features-eq node.ip_addr node.features p,
        e,
        write_nodes-eq rest (write_all one p),
        f,
      )
      | inr (more, f) ↦
          rw
            (
              write_features-eq node.ip_addr node.features p,
              e,
              write_nodes-eq rest (write_all one p),
              f,
            )
            (ap returns (sym (write_all-append one more p)))
    ]
  ]

  -- A round writes the desired files one by one, and then removes the files that it has not listed.
  pub state_round-eq :
      (local : LocalNode) (remotes : RemoteNodes) (t : Tree) (d : Map Bytes)
      → desired local remotes ≡ returns d
      → state_round codec disk feature_dir local remotes t ≡ returns (finish (write_all d (t, [])))
  unfolding state_round desired finish
  state_round-eq local remotes t d h =
      elim (Run-cases (desired_features loopback_ip_addr local.node.features)) [
        | inl e ↦ absurd (ground arith)
        | inr (one, e) ↦ elim (Run-cases (desired_nodes (nodes remotes))) [
          | inl f ↦ absurd (ground arith)
          | inr (more, f) ↦
              let q : one ++ more ≡ d = ground arith in
              rw
                (
                  write_features-eq loopback_ip_addr local.node.features (t, []),
                  e,
                  write_nodes-eq (nodes remotes) (write_all one (t, [])),
                  f,
                )
                (ap (λ (x : Progress). returns (finish x))
                  (sym (write_all-append one more (t, []))
                    ∙ ap (λ (x : Map Bytes). write_all x (t, [])) q))
        ]
      ]
