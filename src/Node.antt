-- ===== src/Node.antt =====
-- service/node.go: a host with its features, the local node, and the table of the other hosts.
-- The types stand here, with what the code uses of the package net; the operations and what is
-- proved of them stand in the modules below.
pub mod Local
pub mod Remotes
mod Tests
use nameq.Base.{ℕ, ◌∷◌, ◌++◌, Bool, Option}
use nameq.Base.Int.{ℤ}
use nameq.Base.Text.{Text, Bytes, decimal}
use nameq.Base.Map.{Map}

-- `*json.RawMessage`: a JSON text, or the nil pointer, which is what JSON null decodes to.
abbrev pub Raw : Type 0
Raw = Option Bytes

abbrev pub Features : Type 0
Features = Map Raw

pub record Node : Type 0 where
  pub ip_addr : Text
  pub time_ns : ℤ
  pub features : Features

-- A `*net.UDPAddr`. Two pointers are `==` when they are the same object: `ref` names the object.
pub record Addr : Type 0 where
  pub ref : ℕ
  pub ip : Bytes
  pub port : ℕ

-- What the code calls in the package net. A failed call is `none`.
pub record Net : Type 0 where
  pub resolve_udp_addr : Text → Option Addr
  pub listen_udp : Addr → Option ℕ
  pub parse_ip : Text → Option Bytes
  pub ip_equal : Bytes → Bytes → Bool
  pub is_global_unicast : Bytes → Bool

-- Shared packet configuration (service/packet.go).
pub record PacketMode : Type 0 where
  pub id : ℕ
  pub secret : Bytes

-- `conn` is the handle of the socket.
pub record LocalNode : Type 0 where
  pub ip_addr : Text
  pub conn : ℕ
  pub mode : PacketMode
  pub node : Node

-- `addr` may be the nil pointer: an address that did not resolve is stored all the same.
pub record RemoteNode : Type 0 where
  pub addr : Option Addr
  pub node : Node

pub record RemoteNodes : Type 0 where
  pub port : ℕ
  pub ip_addrs : Map RemoteNode

-- `fmt.Sprintf("%s:%d", ipAddr, port)`.
abbrev pub host_port : Text → ℕ → Text
host_port ip_addr port = ip_addr ++ (0x3a ∷ decimal port)

-- The host and the port, resolved. A host that is resolved again has the same `ref` here, and another
-- pointer in the code, where it only makes a reply go out twice.
unfoldable pub resolve_addr : Net → Text → ℕ → Option Addr
resolve_addr net ip_addr port = net.resolve_udp_addr (host_port ip_addr port)
