-- ===== src/Io/Transmit.antt =====
-- `transmitLoop` and `transmit`. A round of the loop is a transmission and the event that ends its
-- wait; the local node, the table, the time and the order of `rand.Perm` are those of the round.
pub mod Replies
pub mod Delivery
pub mod Nil
use nameq.Base.{
  ℕ, ◌==◌, Bool, true, false, Option, none, some, List, [], ◌∷◌, ◌++◌, get_elem?, ◌||◌,
  if◌then◌else◌,
}
use nameq.Base.Int.{ℤ}
use nameq.Base.Text.{Bytes}
use nameq.Base.Run.{Run, returns, panics, ◌>>=◌}
use nameq.Node.{Addr, LocalNode, RemoteNodes}
use nameq.Node.Local.{empty}
use nameq.Node.Remotes.{addrs}
use nameq.Codec.{Codec}
use nameq.Packet.{marshal_packet}

-- A call of `WriteToUDP`. An error of the call is logged and the loop goes on.
abbrev pub Sent : Type 0
Sent = Bytes × Addr

-- `addrs[i]`, out of range or nil a panic, and `addrs[i].IP`.
unfoldable pub send_each : Bytes → List (Option Addr) → List ℕ → Run (List Sent)
send_each packet targets [] = returns []
send_each packet targets (i ∷ order) = elim (get_elem? targets i) [
  | none ↦ panics
  | some none ↦ panics
  | some (some addr) ↦ do sent ← send_each packet targets order; returns ((packet, addr) ∷ sent)
]

unfoldable pub transmit : Codec → LocalNode → ℤ → List (Option Addr) → List ℕ → Run (List Sent)
unfolding send_each
transmit codec local now targets order = elim (marshal_packet codec local now) [
  | none ↦ panics
  | some packet ↦ send_each packet targets order
]

-- What ends the wait of a round.
pub data Event : Type 0 where
  reply : List Addr → Event
  notify : Event
  timer : Event
  done : Event

-- `x == addr` of two pointers.
unfoldable pub same_addr : Addr → Addr → Bool
same_addr x addr = x.ref == addr.ref

unfoldable pub is_in : Addr → List Addr → Bool
is_in addr [] = false
is_in addr (x ∷ xs) = same_addr x addr || is_in addr xs

-- The loop over a message of the reply channel. An empty slice stands for nil.
unfoldable pub collect : List Addr → List Addr → List Addr
collect reply_to [] = reply_to
collect reply_to (addr ∷ rest) =
    collect (if is_in addr reply_to then reply_to else reply_to ++ (addr ∷ [])) rest

abbrev pub pointers : List Addr → List (Option Addr)
pointers [] = []
pointers (a ∷ rest) = some a ∷ pointers rest

-- `addrs := replyTo`, or every address of the table if that is nil.
unfoldable pub targets_of : List Addr → RemoteNodes → List (Option Addr)
targets_of [] remotes = addrs remotes
targets_of reply_to remotes = pointers reply_to

-- What a transmission reads.
pub record Moment : Type 0 where
  pub local : LocalNode
  pub remotes : RemoteNodes
  pub now : ℤ
  pub order : List ℕ

-- `replyTo` for the next round; `none` if the loop is over.
unfoldable pub after_event : Event → Option (List Addr)
unfolding collect
after_event (reply message) = some (collect [] message)
after_event notify = some []
after_event timer = some []
after_event done = none

-- The deferred call: the node without its features, to every address of the table.
unfoldable pub say_goodbye : Codec → Moment → Run (List Sent)
say_goodbye codec m = transmit codec (empty m.local) m.now (addrs m.remotes) m.order

-- The loop over the rounds that have happened, each with its event, and the moment of the deferred
-- call. The result has the transmissions in order.
unfoldable pub transmit_loop :
    Codec → List (Moment × Event) → Moment → List Addr → Run (List (List Sent))
unfolding after_event targets_of
transmit_loop codec [] last reply_to = returns []
transmit_loop codec ((m, event) ∷ rounds) last reply_to = do
  sent ← transmit codec m.local m.now (targets_of reply_to m.remotes) m.order
  elim (after_event event) [
    | none ↦ do goodbye ← say_goodbye codec last; returns (sent ∷ goodbye ∷ [])
    | some reply_to' ↦ do more ← transmit_loop codec rounds last reply_to'; returns (sent ∷ more)
  ]
