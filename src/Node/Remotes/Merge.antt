-- ===== src/Node/Remotes/Merge.antt =====
-- The table as a map that keeps the newest node of each address, and what it says after many
-- updates: it does not matter in which order they arrive.
use mathlib.Core.Path.{fun_ext, subst}
use mathlib.Core.Logic.{∥∥₁_elim}
use mathlib.Core.List.{Mem, mem-cons, not-mem-nil, Perm, Permᴰ, mem-cons_self, mem-cons_of_mem}
use mathlib.Core.List.Perm
use mathlib.Core.Logic.Or
use mathlib.Core.HLevel.{⊥_prop}
use native.Mathlib.Bridge.{le_prop}
use nameq.Base.{
  ◌≡◌, refl, sym, ap, ◌∙◌, Option, none, some, List, [], ◌∷◌, arith, ite, ℕ_discrete, if◌then◌else◌,
}
use nameq.Base.Int.{ℤ, ltb_ℤ, ◌≤ℤ◌, eq_of_parts}
use nameq.Base.Text.{Text, Text-discrete}
use nameq.Node.{Node, Net, RemoteNodes}
use nameq.Node.Remotes.{update, remote_at}
use nameq.Node.Remotes.Laws.{node_of, remote_at-update}

-- The node that the table has for an address.
abbrev pub node_at : RemoteNodes → Text → Option Node
node_at remotes k = node_of (remote_at k remotes)

-- What the other hosts are thought to be: a node or nothing for each address.
abbrev pub View : Type 0
View = Text → Option Node

-- The later of the node that is there and the new one; the one that is there, if the times are
-- the same.
abbrev pub newer : Node → Option Node → Node
newer n none = n
newer n (some old) = if ltb_ℤ old.time_ns n.time_ns then n else old

pub merge : Node → View → View
merge n v k = ite (Text-discrete n.ip_addr k) (some (newer n (v n.ip_addr))) (v k)

pub merge_all : List Node → View → View
merge_all [] v = v
merge_all (n ∷ ns) v = merge_all ns (merge n v)

-- The updates one after the other, as the receive loop and the scans make them.
unfoldable pub update_all : Net → List Node → RemoteNodes → RemoteNodes
update_all net [] remotes = remotes
update_all net (n ∷ ns) remotes = update_all net ns (update net n remotes).0

node_at-update :
    (net : Net) (n : Node) (remotes : RemoteNodes) (k : Text)
    → node_at (update net n remotes).0 k ≡ merge n (node_at remotes) k
unfolding merge
node_at-update net n remotes k = ground (arith, remote_at-update net n remotes k)

-- The table refines the map that keeps the newest node of each address.
pub node_at-update_all :
    (net : Net) (ns : List Node) (remotes : RemoteNodes)
    → node_at (update_all net ns remotes) ≡ merge_all ns (node_at remotes)
unfolding update_all merge_all
node_at-update_all net [] remotes = refl
node_at-update_all net (n ∷ ns) remotes =
    node_at-update_all net ns (update net n remotes).0
    ∙ ap (merge_all ns) (fun_ext (node_at-update net n remotes))

-- No host has sent two different nodes with the same time.
abbrev pub IsConsistent : List Node → Type 0
IsConsistent ns =
    (a b : Node) → Mem a ns → Mem b ns → a.ip_addr ≡ b.ip_addr → a.time_ns ≡ b.time_ns → a ≡ b

ℤ-discrete : Discrete ℤ
ℤ-discrete = hlevel ℕ_discrete

merge_comm :
    (a b : Node) (v : View) (k : Text)
    → (a.ip_addr ≡ b.ip_addr → a.time_ns ≡ b.time_ns → a ≡ b)
    → merge b (merge a v) k ≡ merge a (merge b v) k
unfolding merge
merge_comm a b v k h = elim (Text-discrete a.ip_addr b.ip_addr) [
  | no p ↦ ground arith
  | yes p ↦ elim (ℤ-discrete a.time_ns b.time_ns) [
    | yes q ↦ rw (h p q)
    | no q ↦ ground (arith, eq_of_parts a.time_ns b.time_ns)
  ]
]

merge_all-permᴰ :
    {ms ns : List Node} (v : View) → IsConsistent ms → Permᴰ ms ns → merge_all ms v ≡ merge_all ns v
unfolding merge_all
merge_all-permᴰ v h Permᴰ.nil = refl
merge_all-permᴰ v h (Permᴰ.cons {a = a} {l₂ = ns} e d) =
    merge_all-permᴰ (merge a v) (λ x y p q. h x y (mem-cons_of_mem a p) (mem-cons_of_mem a q)) d
    ∙ ap (λ n. merge_all ns (merge n v)) e
merge_all-permᴰ v h (Permᴰ.swap {a = a} {b = b} {a' = a'} {l = ns} e₁ e₂) =
    ap (merge_all ns)
      (fun_ext λ k. merge_comm a b v k (h a b mem-cons_self (mem-cons_of_mem a mem-cons_self)))
    ∙ ap (λ n. merge_all ns (merge a (merge n v))) e₂
    ∙ ap (λ n. merge_all ns (merge n (merge a' v))) e₁
merge_all-permᴰ v h (Permᴰ.trans d₁ d₂) =
    merge_all-permᴰ v h d₁
    ∙ merge_all-permᴰ v (λ x y p q. h x y ((Perm.mem_iff ∣ d₁ ∣₁).1 p) ((Perm.mem_iff ∣ d₁ ∣₁).1 q))
        d₂

Option-Node-set : IsSet (Option Node)
Option-Node-set = hlevel

-- Two hosts that receive the same nodes, in whatever order, come to say the same of each address:
-- where no host sends two different nodes with one time, and both tables say the same at first.
pub update_all-perm :
    (net net' : Net) {ms ns : List Node} (a b : RemoteNodes)
    → IsConsistent ms
    → Perm ms ns
    → ((k : Text) → node_at a k ≡ node_at b k)
    → (k : Text) → node_at (update_all net ms a) k ≡ node_at (update_all net' ns b) k
update_all-perm net net' {ms} {ns} a b h p same k = ∥∥₁_elim p (Option-Node-set _ _) λ d.
    ap (λ (v : View). v k)
      (node_at-update_all net ms a
        ∙ ap (merge_all ms) (fun_ext same)
        ∙ merge_all-permᴰ (node_at b) h d
        ∙ sym (node_at-update_all net' ns b))

-- A node is there, and its time is `t` or later.
abbrev pub IsAtLeast : ℤ → Option Node → Type 0
IsAtLeast t none = ⊥
IsAtLeast t (some n) = t ≤ℤ n.time_ns

merge-IsAtLeast :
    (t : ℤ) (n : Node) (v : View) (k : Text) → IsAtLeast t (v k) → IsAtLeast t (merge n v k)
unfolding merge
merge-IsAtLeast t n v k h = ground arith

merge_self-IsAtLeast : (n : Node) (v : View) → IsAtLeast n.time_ns (merge n v n.ip_addr)
unfolding merge
merge_self-IsAtLeast n v = ground arith

merge_all-IsAtLeast :
    (t : ℤ) (ns : List Node) (v : View) (k : Text)
    → IsAtLeast t (v k)
    → IsAtLeast t (merge_all ns v k)
unfolding merge_all
merge_all-IsAtLeast t [] v k h = h
merge_all-IsAtLeast t (n ∷ ns) v k h =
    merge_all-IsAtLeast t ns (merge n v) k (merge-IsAtLeast t n v k h)

IsAtLeast-prop : (t : ℤ) (o : Option Node) → IsProp (IsAtLeast t o)
IsAtLeast-prop t none = ⊥_prop
IsAtLeast-prop t (some n) = le_prop

merge_all-mem-IsAtLeast :
    (n : Node) (ns : List Node) (v : View)
    → Mem n ns
    → IsAtLeast n.time_ns (merge_all ns v n.ip_addr)
unfolding merge_all
merge_all-mem-IsAtLeast n [] v m = absurd (not-mem-nil m)
merge_all-mem-IsAtLeast n (x ∷ ns) v m =
    Or.elim (IsAtLeast-prop n.time_ns _) (mem-cons.0 m)
      (λ e.
        merge_all-IsAtLeast n.time_ns ns (merge x v) n.ip_addr
          (rw (← e) (merge_self-IsAtLeast n v)))
      (merge_all-mem-IsAtLeast n ns (merge x v))

IsAtLeast-of-eq : {v w : View} (t : ℤ) (k : Text) → v ≡ w → IsAtLeast t (w k) → IsAtLeast t (v k)
IsAtLeast-of-eq t k e h = subst (λ (x : View). IsAtLeast t (x k)) (sym e) h

-- After any updates the address of each updated node has a node of that time or a later one.
pub update_all-newest :
    (net : Net) (ns : List Node) (remotes : RemoteNodes) (n : Node)
    → Mem n ns
    → IsAtLeast n.time_ns (node_at (update_all net ns remotes) n.ip_addr)
update_all-newest net ns remotes n m =
    IsAtLeast-of-eq n.time_ns n.ip_addr (node_at-update_all net ns remotes)
      (merge_all-mem-IsAtLeast n ns (node_at remotes) m)

-- No update takes an address back: where there was a node of time `t` or later, there still is one.
pub update_all-monotone :
    (net : Net) (ns : List Node) (remotes : RemoteNodes) (t : ℤ) (k : Text)
    → IsAtLeast t (node_at remotes k)
    → IsAtLeast t (node_at (update_all net ns remotes) k)
update_all-monotone net ns remotes t k h =
    IsAtLeast-of-eq t k (node_at-update_all net ns remotes)
      (merge_all-IsAtLeast t ns (node_at remotes) k h)
