-- ===== src/Node/Remotes.antt =====
-- The table `remoteNodes` of service/node.go. Each method holds the lock from its first to its last
-- access, so it is one step.
pub mod Laws
pub mod Expiry
pub mod Merge
use nameq.Base.{ℕ, Bool, true, Option, none, some, List, [], ◌∷◌, if◌then◌else◌}
use nameq.Base.Int.{ℤ, ltb_ℤ}
use nameq.Base.Text.{Text}
use nameq.Base.Map.{Map, lookup, insert, erase, values}
use nameq.Node.{Node, Net, Addr, RemoteNode, RemoteNodes, resolve_addr}

unfoldable pub new_remote_nodes : ℕ → RemoteNodes
new_remote_nodes port = record { port = port; ip_addrs = [] }

-- A time later than what the table has for the address, or an address that it does not have.
unfoldable pub updatable : RemoteNodes → Text → ℤ → Bool
updatable remotes ip_addr new_time = elim (lookup ip_addr remotes.ip_addrs) [
  | none ↦ true
  | some remote ↦ ltb_ℤ remote.node.time_ns new_time
]

abbrev put_remote : RemoteNodes → Text → RemoteNode → RemoteNodes
put_remote remotes ip_addr remote = record remotes {
  ip_addrs = insert ip_addr remote remotes.ip_addrs;
}

-- The new table, and `newAddr`: the address of a node that was not there before.
unfoldable pub update : Net → Node → RemoteNodes → RemoteNodes × Option Addr
update net new_node remotes = elim (lookup new_node.ip_addr remotes.ip_addrs) [
  | some remote ↦ (
    if ltb_ℤ remote.node.time_ns new_node.time_ns
        then put_remote remotes new_node.ip_addr (record remote { node = new_node })
        else remotes,
    none,
  )
  | none ↦
      let new_addr = resolve_addr net new_node.ip_addr remotes.port in
      (put_remote remotes new_node.ip_addr (record { addr = new_addr; node = new_node }), new_addr)
]

unfoldable pub expired_nodes : ℤ → List RemoteNode → List RemoteNode
expired_nodes threshold [] = []
expired_nodes threshold (remote ∷ rest) =
    let expired = expired_nodes threshold rest in
    if ltb_ℤ remote.node.time_ns threshold then remote ∷ expired else expired

unfoldable pub delete_nodes : List RemoteNode → Map RemoteNode → Map RemoteNode
delete_nodes [] ip_addrs = ip_addrs
delete_nodes (remote ∷ rest) ip_addrs = delete_nodes rest (erase remote.node.ip_addr ip_addrs)

unfoldable pub expire : ℤ → RemoteNodes → RemoteNodes
unfolding expired_nodes delete_nodes
expire threshold remotes =
    let expired = expired_nodes threshold (values remotes.ip_addrs) in
    record remotes { ip_addrs = delete_nodes expired remotes.ip_addrs }

unfoldable pub addrs_of : List RemoteNode → List (Option Addr)
addrs_of [] = []
addrs_of (remote ∷ rest) = remote.addr ∷ addrs_of rest

unfoldable pub nodes_of : List RemoteNode → List Node
nodes_of [] = []
nodes_of (remote ∷ rest) = remote.node ∷ nodes_of rest

unfoldable pub addrs : RemoteNodes → List (Option Addr)
unfolding addrs_of
addrs remotes = addrs_of (values remotes.ip_addrs)

unfoldable pub nodes : RemoteNodes → List Node
unfolding nodes_of
nodes remotes = nodes_of (values remotes.ip_addrs)

-- What the table says of an address.
abbrev pub remote_at : Text → RemoteNodes → Option RemoteNode
remote_at k remotes = lookup k remotes.ip_addrs
