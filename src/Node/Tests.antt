-- ===== src/Node/Tests.antt =====
-- The local node and the table at concrete data.
use mathlib.Core.List.{Mem, mem-cons, not-mem-nil}
use mathlib.Core.List.Perm
use mathlib.Core.Logic.Or
use nameq.Base.{◌≡◌, refl, sym, ◌∙◌, true, false, none, some, [], ◌∷◌, arith}
use nameq.Base.Int.{pos}
use nameq.Base.Text.{codes, Text-discrete}
use nameq.Base.Map.{lookup}
use nameq.Base.Run.{returns, panics}
use nameq.Node.{Features, Node, Net, LocalNode, RemoteNodes}
use nameq.Node.Local.{empty_node, update_features}
use nameq.Node.Local.Update.{Updated, update_features-Updated, update_features_null}
use nameq.Node.Remotes.{new_remote_nodes, update, expire, remote_at}
use nameq.Node.Remotes.Laws.{IsKeyed, update-IsKeyed}
use nameq.Node.Remotes.Expiry.{fresh, remote_at-expire}
use nameq.Node.Remotes.Merge.{
  node_at, update_all, update_all-perm, node_at-update_all, merge_all, IsConsistent,
}

abbrev net : Net
net = record {
  resolve_udp_addr = λ t. some (record { ref = 1; ip = t; port = 17106 });
  listen_udp = λ addr. some 3;
  parse_ip = λ t. some t;
  ip_equal = λ a b. true;
  is_global_unicast = λ a. true;
}

abbrev with_features : Features → LocalNode
with_features features = record {
  ip_addr = codes "10.0.0.1";
  conn = 3;
  mode = record { id = 0; secret = codes "swordfish" };
  node = record empty_node { features = features };
}

abbrev old_features : Features
old_features = (codes "a", some (codes "1")) ∷ (codes "b", some (codes "2")) ∷ []

abbrev new_features : Features
new_features = (codes "b", some (codes "2")) ∷ []

abbrev null_features : Features
null_features = (codes "a", some (codes "1")) ∷ (codes "b", none) ∷ []

removal_is_an_update :
    update_features (with_features old_features) new_features
    ≡ returns (with_features new_features, true)
unfolding update_features Text-discrete lookup
removal_is_an_update = refl

order_is_no_update :
    update_features
      (with_features old_features)
      ((codes "b", some (codes "2")) ∷ (codes "a", some (codes "1")) ∷ [])
    ≡ returns (with_features old_features, false)
unfolding update_features Text-discrete lookup
order_is_no_update = refl

update_features-Updated_example : Updated (with_features old_features) new_features
unfolding lookup Text-discrete
update_features-Updated_example =
    update_features-Updated (with_features old_features) new_features (refl, tt) (refl, (refl, tt))
      (ground arith, tt) (ground arith, (ground arith, tt))

update_features_null_example : update_features (with_features null_features) null_features ≡ panics
unfolding lookup Text-discrete
update_features_null_example =
    update_features_null (with_features null_features) null_features (codes "b") (refl, (refl, tt))
      (λ j. refl) refl

abbrev node_a : Node
node_a = record { ip_addr = codes "10.0.0.2"; time_ns = pos 5; features = old_features }

abbrev node_a' : Node
node_a' = record { ip_addr = codes "10.0.0.2"; time_ns = pos 7; features = new_features }

table : RemoteNodes
unfolding new_remote_nodes update
table = (update net node_a (new_remote_nodes 17106)).0

new-IsKeyed : IsKeyed (new_remote_nodes 17106)
unfolding new_remote_nodes lookup
new-IsKeyed = record { is_map = tt; keyed = λ k remote e. absurd (ground arith) }

table-IsKeyed : IsKeyed table
unfolding table
table-IsKeyed = update-IsKeyed net node_a (new_remote_nodes 17106) new-IsKeyed

remote_at-expire_example :
    remote_at (codes "10.0.0.2") (expire (pos 6) table)
    ≡ fresh (pos 6) (remote_at (codes "10.0.0.2") table)
remote_at-expire_example = remote_at-expire (pos 6) table (codes "10.0.0.2") table-IsKeyed

Node-set : IsSet Node
Node-set = hlevel

one_of_two :
    {x a b : Node} {P : Type 0} → IsProp P → Mem x (a ∷ b ∷ []) → (x ≡ a → P) → (x ≡ b → P) → P
one_of_two c m f g =
    Or.elim c (mem-cons.0 m) f λ m'. Or.elim c (mem-cons.0 m') g λ m''. absurd (not-mem-nil m'')

both-IsConsistent : IsConsistent (node_a ∷ node_a' ∷ [])
both-IsConsistent a b p q ip time =
    one_of_two (Node-set a b) p
      (λ e. one_of_two (Node-set a b) q (λ f. e ∙ sym f) (λ f. ground arith))
      (λ e. one_of_two (Node-set a b) q (λ f. ground arith) (λ f. e ∙ sym f))

update_all-perm_example :
    node_at (update_all net (node_a ∷ node_a' ∷ []) (new_remote_nodes 17106)) (codes "10.0.0.2")
    ≡ node_at (update_all net (node_a' ∷ node_a ∷ []) (new_remote_nodes 17106)) (codes "10.0.0.2")
update_all-perm_example =
    update_all-perm net net (new_remote_nodes 17106) (new_remote_nodes 17106) both-IsConsistent
      (Perm.swap node_a' node_a []) (λ k. refl) (codes "10.0.0.2")

node_at-update_all_example :
    node_at (update_all net (node_a' ∷ []) table) ≡ merge_all (node_a' ∷ []) (node_at table)
node_at-update_all_example = node_at-update_all net (node_a' ∷ []) table
