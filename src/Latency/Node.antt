-- ===== src/Latency/Node.antt =====
-- `Node` of latency-sim/src/main.rs: the packets that a node holds back, by the time they leave.
use fragging.Common.{ℕ, [], Option, none, some}
use fragging.Latency.Message.{Packet}
use fragging.Latency.Queue
use fragging.Latency.Queue.{Queue, first_time, pop_first}

pub record Node : Type 0 where
  pub ingress : Queue Packet

abbrev pub new : Node
new = record { ingress = [] }

unfoldable pub insert : ℕ → Packet → Node → Node
insert timestamp packet node = record { ingress = Queue.insert timestamp packet node.ingress }

abbrev pub next : Node → Option ℕ
next node = first_time node.ingress

-- The packet of the first entry, and the node without it; nothing where the code panics.
unfoldable pub pop : Node → Option (Packet × Node)
pop node = elim (pop_first node.ingress) [
  | none ↦ none
  | some (packet, rest) ↦ some (packet, record { ingress = rest })
]
