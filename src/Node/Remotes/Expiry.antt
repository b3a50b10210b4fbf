-- ===== src/Node/Remotes/Expiry.antt =====
-- `expire` drops exactly the nodes whose time is below the threshold.
use nameq.Base.{
  ◌≡◌, refl, ◌∙◌, Bool, true, false, Option, none, some, List, [], ◌∷◌, arith, ite, if◌then◌else◌,
}
use nameq.Base.Int.{ℤ, ltb_ℤ}
use nameq.Base.Text.{Text, Text-discrete}
use nameq.Base.Map.{Map, lookup, erase, values, IsMap, lookup-erase, erase-IsMap}
use nameq.Node.{RemoteNode, RemoteNodes}
use nameq.Node.Remotes.{expire, expired_nodes, delete_nodes, remote_at}
use nameq.Node.Remotes.Laws.{IsKeyed}

-- Some node of the list has the address.
abbrev names : Text → List RemoteNode → Bool
names k [] = false
names k (remote ∷ rest) = ite (Text-discrete remote.node.ip_addr k) true (names k rest)

abbrev AllKeyed : Map RemoteNode → Type 0
AllKeyed [] = Unit
AllKeyed ((k, remote) ∷ m) = (remote.node.ip_addr ≡ k) × AllKeyed m

-- What is left of one entry.
abbrev pub fresh : ℤ → Option RemoteNode → Option RemoteNode
fresh threshold none = none
fresh threshold (some remote) = if ltb_ℤ remote.node.time_ns threshold then none else some remote

lookup-delete_nodes :
    (k : Text) (l : List RemoteNode) (m : Map RemoteNode)
    → lookup k (delete_nodes l m) ≡ (if names k l then none else lookup k m)
unfolding delete_nodes
lookup-delete_nodes k [] m = refl
lookup-delete_nodes k (remote ∷ l) m = ground (
  arith,
  lookup-delete_nodes k l (erase remote.node.ip_addr m),
  lookup-erase remote.node.ip_addr k m,
)

names-expired_of_absent :
    (t : ℤ) (k : Text) (m : Map RemoteNode)
    → AllKeyed m
    → lookup k m ≡ none
    → names k (expired_nodes t (values m)) ≡ false
unfolding lookup expired_nodes
names-expired_of_absent t k [] a h = refl
names-expired_of_absent t k ((j, remote) ∷ m) a h =
    ground (arith, names-expired_of_absent t k m a.1)

lookup-expired :
    (t : ℤ) (k : Text) (m : Map RemoteNode)
    → IsMap m
    → AllKeyed m
    → (if names k (expired_nodes t (values m)) then none else lookup k m) ≡ fresh t (lookup k m)
unfolding lookup expired_nodes
lookup-expired t k [] u a = refl
lookup-expired t k ((j, remote) ∷ m) u a =
    ground (arith, lookup-expired t k m u.1 a.1, names-expired_of_absent t k m a.1)

AllKeyed-of_lookup :
    (m : Map RemoteNode)
    → IsMap m
    → ((k : Text) (remote : RemoteNode) → lookup k m ≡ some remote → remote.node.ip_addr ≡ k)
    → AllKeyed m
unfolding lookup
AllKeyed-of_lookup [] u h = tt
AllKeyed-of_lookup ((j, remote) ∷ m) u h =
    (ground (arith, h j remote), AllKeyed-of_lookup m u.1 (λ k r e. ground (arith, h k r)))

-- In a table of nodes under their own addresses, an address keeps its entry exactly if the time
-- is not below the threshold; no other entry changes.
pub remote_at-expire :
    (t : ℤ) (remotes : RemoteNodes) (k : Text)
    → IsKeyed remotes
    → remote_at k (expire t remotes) ≡ fresh t (remote_at k remotes)
unfolding expire
remote_at-expire t remotes k h =
    lookup-delete_nodes k _ remotes.ip_addrs
    ∙ lookup-expired t k remotes.ip_addrs h.is_map
        (AllKeyed-of_lookup remotes.ip_addrs h.is_map h.keyed)

delete_nodes-IsMap : (l : List RemoteNode) (m : Map RemoteNode) → IsMap m → IsMap (delete_nodes l m)
unfolding delete_nodes
delete_nodes-IsMap [] m u = u
delete_nodes-IsMap (remote ∷ l) m u = delete_nodes-IsMap l _ (erase-IsMap remote.node.ip_addr m u)

expire-IsMap :
    (t : ℤ) (remotes : RemoteNodes) → IsMap remotes.ip_addrs → IsMap (expire t remotes).ip_addrs
unfolding expire
expire-IsMap t remotes u =
    delete_nodes-IsMap (expired_nodes t (values remotes.ip_addrs)) remotes.ip_addrs u

pub expire-IsKeyed : (t : ℤ) (remotes : RemoteNodes) → IsKeyed remotes → IsKeyed (expire t remotes)
expire-IsKeyed t remotes h = record {
  is_map = expire-IsMap t remotes h.is_map;
  keyed = λ k r e. ground (arith, remote_at-expire t remotes k h, h.keyed k r);
}
