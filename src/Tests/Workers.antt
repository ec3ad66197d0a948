-- ===== src/Tests/Workers.antt =====
-- The theorems on the queues of new connections, applied to one connection.
use reading_and_comprehense.Base.{ℕ, ◌≡◌, refl, none, some, List, [], ◌∷◌, arith}
use reading_and_comprehense.Base.{Option, inl}
use reading_and_comprehense.ConnQueue.{cqi_free}
use reading_and_comprehense.ConnQueue.Pool.{Freed}
use reading_and_comprehense.Conn.{conn_new_cmd}
use reading_and_comprehense.ConnQueue.{CqItems, Cq, Transport, cq_init, cq_pop, cq_push, cqi_new}
use reading_and_comprehense.ConnQueue.Fifo.{Linked, Absent, Shows}
use reading_and_comprehense.ConnQueue.Steps.{Steps, Kept, Steps-Kept, one_or_none}
use reading_and_comprehense.ConnQueue.Pool.{left_free, cqi_new-Linked}

abbrev cells : CqItems
cells = λ p. record {
  sfd = p;
  init_state = conn_new_cmd;
  event_flags = 18;
  read_buffer_size = 2048;
  transport = Transport.tcp_transport;
  next = none;
}

outside_empty : (x : ℕ) (l : List ℕ) → Shows cells cq_init l → Absent x l
unfolding cq_init
outside_empty x [] s = tt
outside_empty x (p ∷ l) s = absurd (ground (arith, s.linked.0))

abbrev pushed : CqItems × Cq
pushed = cq_push 7 (cells, cq_init)

pushed_popped :
    Steps pushed.0 (cq_pop pushed.0 pushed.1).1 (7 ∷ []) (one_or_none (cq_pop pushed.0 pushed.1).0)
pushed_popped = Steps.pop (Steps.push 7 (Steps.start cells) (outside_empty 7))

Steps-Kept_example :
    Kept pushed.0 (cq_pop pushed.0 pushed.1).1 (7 ∷ []) (one_or_none (cq_pop pushed.0 pushed.1).0)
Steps-Kept_example = Steps-Kept pushed_popped

-- Meanwhile another thread frees the item 7.
abbrev freed_7 : CqItems × Option ℕ → CqItems × Option ℕ
freed_7 (m, freelist) = cqi_free 7 (m, freelist)

free_7 : Freed freed_7 cells (some 100) (7 ∷ [])
unfolding cqi_free
free_7 = ((refl, refl), (inl (omega arith), tt))

cqi_new-Linked_example :
    ((cqi_new (some 100) freed_7 (cells, none)).0 ≡ some 100)
    × Linked
        (cqi_new (some 100) freed_7 (cells, none)).1.0
        (cqi_new (some 100) freed_7 (cells, none)).1.1
        (left_free (some 100) (7 ∷ []) [])
cqi_new-Linked_example = cqi_new-Linked cells none (some 100) freed_7 [] (7 ∷ []) refl free_7
