-- ===== src/Node/Local.antt =====
-- The local node of service/node.go. The atomic pointer to its `Node` is the field `node`: a load
-- and a store are each one step.
pub mod Laws
pub mod Update
use nameq.Base.{
  Bool, true, false, not, ℕ, Option, none, some, [], ◌∷◌, arith, ℕ_discrete, if◌then◌else◌,
}
use nameq.Base.Int.{ℤ, pos}
use nameq.Base.Text.{Text, Bytes, Text-discrete}
use nameq.Base.Map.{lookup}
use nameq.Base.Run.{Run, returns, panics, ◌>>=◌}
use nameq.Node.{Raw, Features, Node, Net, PacketMode, LocalNode, resolve_addr}

-- `new(Node)`
abbrev pub empty_node : Node
empty_node = record { ip_addr = []; time_ns = pos 0; features = [] }

unfoldable pub new_local_node : Net → Text → ℕ → PacketMode → Option LocalNode
unfolding resolve_addr
new_local_node net ip_addr port mode = elim (resolve_addr net ip_addr port) [
  | none ↦ none
  | some addr ↦ elim (net.listen_udp addr) [
    | none ↦ none
    | some conn ↦ some (record { ip_addr = ip_addr; conn = conn; mode = mode; node = empty_node })
  ]
]

unfoldable pub set_node : LocalNode → Node → LocalNode
set_node local node = record local { node = node }

-- `bytes.Compare(a, b) != 0`
unfoldable pub bytes_differ : Bytes → Bytes → Bool
bytes_differ a b = elim (Text-discrete a b) [ yes _ ↦ false | no _ ↦ true ]

-- `!found || bytes.Compare(*newValue, *oldValue) != 0`, where a nil pointer is not read past.
unfoldable pub value_differs : Option Raw → Raw → Run Bool
unfolding bytes_differ
value_differs none new_value = returns true
value_differs (some old_value) none = panics
value_differs (some none) (some new_bytes) = panics
value_differs (some (some old_bytes)) (some new_bytes) = returns (bytes_differ new_bytes old_bytes)

-- The first loop of `updateFeatures`; `break` ends it at the first difference.
unfoldable pub any_changed : Features → Features → Run Bool
unfolding value_differs
any_changed old [] = returns false
any_changed old ((name, new_value) ∷ rest) = do
  differs ← value_differs (lookup name old) new_value
  if differs then returns true else any_changed old rest

-- The second loop: a name of the old features that the new ones lack.
unfoldable pub any_removed : Features → Features → Bool
any_removed new [] = false
any_removed new ((name, _) ∷ rest) = elim (lookup name new) [
  | none ↦ true
  | some _ ↦ any_removed new rest
]

abbrev pub with_features : LocalNode → Features → LocalNode
with_features local features = set_node local (record empty_node { features = features })

-- The new local node, and whether an update was made.
unfoldable pub update_features : LocalNode → Features → Run (LocalNode × Bool)
unfolding any_changed any_removed set_node
update_features local new_features = do
  changed ← any_changed local.node.features new_features
  let update = if changed then true else any_removed new_features local.node.features
  if update then returns (with_features local new_features, true) else returns (local, false)

-- The same node with no features.
unfoldable pub empty : LocalNode → LocalNode
empty local = record local { node = empty_node }
