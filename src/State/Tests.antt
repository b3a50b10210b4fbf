-- ===== src/State/Tests.antt =====
-- Rounds of the state loop at concrete data.
use mathlib.Core.Path.{subst}
use nameq.Base.{ap, sym, ◌∙◌, arith, ◌≡◌, ◌⊎◌, refl, true, false, none, some, [], ◌∷◌, ◌++◌}
use nameq.Base.Int.{pos}
use nameq.Base.Text.{Text, Bytes, codes, Text-discrete}
use nameq.Base.Map.{Map, lookup, insert, erase, IsMap}
use nameq.Base.Run.{returns}
use nameq.Node.{Raw, LocalNode, RemoteNode, RemoteNodes}
use nameq.Node.Local.{empty_node}
use nameq.Node.Remotes.{remote_at, nodes}
use nameq.State.{
  Tree, Calls, Disk, state_round, path_of, write_features, write_nodes, render, write_file,
  is_unchanged, fill_and_rename, move, discard, remove_stale,
}
use nameq.State.Round.{desired, desired_features, desired_nodes}
use nameq.State.Exact.{state_round-atomic}
use nameq.Samples.{codec}
use nameq.Samples.Disk.{all_well, all_well-Succeeds, disk, disk-IsApart, codec-IsRendered}
use nameq.State.Temps.{NoneNew, state_round-NoneNew}
use nameq.State.Shown.{known, IsOrderly, state_round-shows}

abbrev disk_of : Calls → Disk
disk_of c = record { join = λ a b. a ++ (0x2f ∷ b); calls = λ path. c; walk = λ path. false }

abbrev local : LocalNode
local = record {
  ip_addr = codes "10.0.0.1";
  conn = 3;
  mode = record { id = 0; secret = [] };
  node = record empty_node { features = (codes "a", some (codes "1")) ∷ [] };
}

abbrev remote : RemoteNode
remote = record {
  addr = none;
  node = record { ip_addr = codes "10.0.0.2"; time_ns = pos 5; features = (codes "a", none) ∷ [] };
}

abbrev remotes : RemoteNodes
remotes = record { port = 17106; ip_addrs = (codes "10.0.0.2", remote) ∷ [] }

abbrev before : Tree
before = record {
  files = (codes "f/a/127.0.0.1", codes "0\n") ∷ (codes "f/b/127.0.0.1", codes "2\n") ∷ [];
  temps = [];
}

abbrev wanted : Map Bytes
wanted = (codes "f/a/127.0.0.1", codes "1\n") ∷ (codes "f/a/10.0.0.2", codes "null\n") ∷ []

round_run :
    state_round codec (disk_of all_well) (codes "f") local remotes before
    ≡ returns (record { files = wanted; temps = [] })
unfolding state_round write_features write_nodes render codec write_file is_unchanged
    fill_and_rename move discard remove_stale lookup insert erase Text-discrete nodes
round_run = refl

failed_rename :
    state_round codec (disk_of (record all_well { rename = true })) (codes "f") local remotes before
    ≡ returns (record { files = (codes "f/a/127.0.0.1", codes "0\n") ∷ []; temps = [] })
unfolding state_round write_features write_nodes render codec write_file is_unchanged
    fill_and_rename move discard remove_stale lookup insert erase Text-discrete nodes
failed_rename = refl

wanted-desired : (c : Calls) → desired codec (disk_of c) (codes "f") local remotes ≡ returns wanted
unfolding desired desired_features desired_nodes render codec nodes
wanted-desired c = refl

wanted-IsMap : IsMap wanted
unfolding lookup Text-discrete
wanted-IsMap = (refl, (refl, tt))

state_round-atomic_example :
    (t' : Tree) × (state_round codec
        (disk_of (record all_well { rename = true }))
        (codes "f")
        local
        remotes
        before
      ≡ returns t')
    × ((p : Text)
        → (lookup p t'.files ≡ lookup p before.files) ⊎ (lookup p t'.files ≡ lookup p wanted))
state_round-atomic_example =
    state_round-atomic codec (disk_of (record all_well { rename = true })) (codes "f") local remotes
      before wanted (wanted-desired (record all_well { rename = true })) wanted-IsMap

remote_only :
    (k : Text) (r : RemoteNode)
    → remote_at k remotes ≡ some r
    → (codes "10.0.0.2" ≡ k) × (remote ≡ r)
unfolding lookup
remote_only k r h = elim (Text-discrete (codes "10.0.0.2") k) [
  | yes p ↦ (p, ground arith)
  | no p ↦ absurd (ground arith)
]

remotes-IsOrderly : IsOrderly local remotes
unfolding lookup Text-discrete
remotes-IsOrderly = record {
  local_features = (refl, tt);
  keyed = record {
    is_map = (refl, tt);
    keyed = λ k r e.
        let (p, q) = remote_only k r e in ap (λ (x : RemoteNode). x.node.ip_addr) (sym q) ∙ p;
  };
  no_loopback = refl;
  remote_features =
      λ k r e. subst (λ (x : RemoteNode). IsMap x.node.features) (remote_only k r e).1 (refl, tt);
}

state_round-shows_example :
    (t' : Tree) × (state_round codec disk (codes "f") local remotes before ≡ returns t')
    × ((f k : Text) (v : Raw)
        → known local remotes f k ≡ some v
        → (c : Bytes) × (render codec v ≡ returns c)
          × (lookup (path_of disk (codes "f") f k) t'.files ≡ some c))
    × ((p : Text) (c : Bytes)
        → lookup p t'.files ≡ some c
        → (f : Text) × (k : Text) × (v : Raw) × (known local remotes f k ≡ some v)
          × (path_of disk (codes "f") f k ≡ p)
          × (render codec v ≡ returns c))
state_round-shows_example =
    state_round-shows local remotes remotes-IsOrderly codec disk (codes "f") before
      (disk-IsApart local remotes (codes "f")) (codec-IsRendered local remotes)
      (λ path. all_well-Succeeds) (λ path. (refl, refl))

state_round-NoneNew_example :
    (t' : Tree) × (state_round codec
        (disk_of (record all_well { rename = true }))
        (codes "f")
        local
        remotes
        before
      ≡ returns t')
    × NoneNew before t'
state_round-NoneNew_example =
    state_round-NoneNew codec (disk_of (record all_well { rename = true })) (codes "f")
      (λ path. refl) local remotes before wanted
      (wanted-desired (record all_well { rename = true }))
