-- ===== src/ConnQueue.antt =====
-- The queues on which the listening thread of memcached-1.4/thread.c hands new connections to the workers,
-- with the free list of their items. A queue is held by its lock in each operation, so that an
-- operation is one step. An item is named by its address; those of one block are consecutive numbers.
pub mod Fifo
pub mod Steps
pub mod Pool
use reading_and_comprehense.Base.{ℕ, zero, suc, ◌+◌, ◌-◌, Option, none, some, List, [], ◌∷◌, update}
use reading_and_comprehense.Conn.{ConnState}

-- enum network_transport.
pub data Transport : Type 0 where
  local_transport tcp_transport udp_transport : Transport

-- struct conn_queue_item.
pub record CqItem : Type 0 where
  pub sfd : ℕ
  pub init_state : ConnState
  pub event_flags : ℕ
  pub read_buffer_size : ℕ
  pub transport : Transport
  pub next : Option ℕ

-- struct conn_queue.
pub record Cq : Type 0 where
  pub head : Option ℕ
  pub tail : Option ℕ

abbrev pub CqItems : Type 0
CqItems = ℕ → CqItem

abbrev pub set_next : ℕ → Option ℕ → CqItems → CqItems
set_next p n m = update m p (record (m p) { next = n })

unfoldable pub cq_init : Cq
cq_init = record { head = none; tail = none }

-- The tail of a queue that becomes empty.
unfoldable pub tail_after : Option ℕ → Option ℕ → Option ℕ
tail_after none tail = none
tail_after (some p) tail = tail

unfoldable pub cq_pop : CqItems → Cq → Option ℕ × Cq
cq_pop m cq = elim cq.head [
  | none ↦ (none, cq)
  | some item ↦
      (some item, record { head = (m item).next; tail = tail_after (m item).next cq.tail })
]

unfoldable pub cq_push : ℕ → CqItems × Cq → CqItems × Cq
cq_push item (m, cq) =
    let m1 = set_next item none m in
    elim cq.tail [
      | none ↦ (m1, record { head = some item; tail = some item })
      | some t ↦ (set_next t (some item) m1, record { head = cq.head; tail = some item })
    ]

abbrev pub items_per_alloc : ℕ
items_per_alloc = 64

-- The loop that links the items of a block behind `base`: `n` rounds from the index `i`.
unfoldable pub link_block : ℕ → ℕ → ℕ → CqItems → CqItems
link_block base zero i m = m
link_block base (suc n) i m =
    link_block base n (i + 1) (set_next (base + i - 1) (some (base + i)) m)

-- The items of the block but the first become free.
unfoldable pub add_block : ℕ → CqItems × Option ℕ → CqItems × Option ℕ
add_block base (m, freelist) = (
  set_next (base + items_per_alloc - 1) freelist (link_block base (items_per_alloc - 2) 2 m),
  some (base + 1),
)

-- The items and the head of the free list. `block` is what malloc returns, `others` what other threads do
-- to the free list between the two times that it is locked.
unfoldable pub cqi_new :
    Option ℕ
    → (CqItems × Option ℕ → CqItems × Option ℕ)
    → CqItems × Option ℕ
    → Option ℕ × (CqItems × Option ℕ)
cqi_new block others (m, some item) = (some item, (m, (m item).next))
cqi_new none others (m, none) = (none, (m, none))
cqi_new (some base) others (m, none) = (some base, add_block base (others (m, none)))

unfoldable pub cqi_free : ℕ → CqItems × Option ℕ → CqItems × Option ℕ
cqi_free item (m, freelist) = (set_next item freelist m, some item)
