-- ===== src/Storage/Loads.antt =====
-- The loads of a scan are updates of the table.
use mathlib.Core.List.{Mem, mem-cons, not-mem-nil, Mem-prop, mem-cons_self, mem-cons_of_mem}
use mathlib.Core.Logic.Or
use nameq.Base.{
  inl, inr, Option-cases, All, ℕ, ◌≤◌, ◌≡◌, refl, ◌∙◌, Option, none, some, List, [], ◌∷◌, length,
  drop, arith,
}
use nameq.Base.Text.{Text}
use nameq.Base.Run.{returns}
use nameq.Node.{Node, Net}
use nameq.Node.Remotes.Merge.{update_all}
use nameq.Codec.{Codec}
use nameq.Storage.{Client, Loaded, slice_from, loaded_node, take_up, load_all}

pub slice_from-drop :
    (n : ℕ) (key : Text) → n ≤ length key → slice_from n key ≡ returns (drop n key)
unfolding slice_from
slice_from-drop n key h = ground arith

abbrev cons_node : Option Node → List Node → List Node
cons_node none nodes = nodes
cons_node (some node) nodes = node ∷ nodes

mem-cons_node : (o : Option Node) {n : Node} {ns : List Node} → Mem n ns → Mem n (cons_node o ns)
mem-cons_node none m = m
mem-cons_node (some x) m = mem-cons_of_mem x m

mem_of-cons_node :
    {n : Node} (ns : List Node) (o : Option Node) → o ≡ some n → Mem n (cons_node o ns)
mem_of-cons_node ns o e = rw e mem-cons_self

update_all-take_up :
    (net : Net) (o : Option Node) (ns : List Node) (l : Loaded)
    → update_all net ns (take_up net o l).remotes ≡ update_all net (cons_node o ns) l.remotes
unfolding update_all take_up
update_all-take_up net none ns l = refl
update_all-take_up net (some n) ns l = refl

module _ (codec : Codec) (client : Client) (n : ℕ) where
  -- The nodes that the keys load.
  unfoldable pub loaded_nodes : List Text → List Node
  loaded_nodes [] = []
  loaded_nodes (key ∷ rest) =
      cons_node (loaded_node codec client (drop n key) key) (loaded_nodes rest)

  pub mem-loaded_nodes :
      (key : Text) (node : Node) (keys : List Text)
      → loaded_node codec client (drop n key) key ≡ some node
      → Mem key keys
      → Mem node (loaded_nodes keys)
  unfolding loaded_nodes
  mem-loaded_nodes key node [] e m = absurd (not-mem-nil m)
  mem-loaded_nodes key node (k ∷ rest) e m =
      Or.elim Mem-prop (mem-cons.0 m)
        (λ q.
          mem_of-cons_node (loaded_nodes rest) (loaded_node codec client (drop n k) k) (rw (← q) e))
        (λ q.
          mem-cons_node (loaded_node codec client (drop n k) k)
            (mem-loaded_nodes key node rest e q))

  -- What holds of all that the keys load holds of the nodes.
  pub All-loaded_nodes :
      (Q : Text → Type 0) (P : Node → Type 0) (keys : List Text)
      → ((key : Text) (node : Node)
          → Q key
          → loaded_node codec client (drop n key) key ≡ some node
          → P node)
      → All Q keys
      → All P (loaded_nodes keys)
  unfolding loaded_nodes
  All-loaded_nodes Q P [] f h = tt
  All-loaded_nodes Q P (key ∷ rest) f (q, h) =
      elim (Option-cases (loaded_node codec client (drop n key) key)) [
        | inl e ↦ rw e (All-loaded_nodes Q P rest f h)
        | inr (node, e) ↦ rw e ((f key node q e, All-loaded_nodes Q P rest f h))
      ]

  module _ (net : Net) where
    -- Loading returns, and has made the updates of the loaded nodes, one after the other.
    pub load_all-update_all :
        (keys : List Text) (l : Loaded)
        → All (λ key. n ≤ length key) keys
        → (l' : Loaded) × (load_all net codec client n keys l ≡ returns l')
          × (l'.remotes ≡ update_all net (loaded_nodes keys) l.remotes)
    unfolding load_all update_all loaded_nodes
    load_all-update_all [] l h = (l, refl, refl)
    load_all-update_all (key ∷ rest) l h =
        let node = loaded_node codec client (drop n key) key in
        let (l', e, same) = load_all-update_all rest (take_up net node l) h.1 in
        (
          l',
          rw (slice_from-drop n key h.0) e,
          same ∙ update_all-take_up net node (loaded_nodes rest) l,
        )
