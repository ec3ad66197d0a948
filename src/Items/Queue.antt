-- ===== src/Items/Queue.antt =====
-- The LRU lists of memcached-1.4/items.c as the code keeps them: `heads`, `tails`, `sizes` and the
-- pointers `next` and `prev` of the items, with the list operations of the LRU crawler. A null
-- pointer is 0. Items has the same lists as lists of addresses.
pub mod Seg
pub mod Link
pub mod Unlink
pub mod Swing
pub mod Crawl
pub mod Pop
pub mod Append
use reading_and_comprehense.Base.{ℕ, ◌==◌, if◌then◌else◌, update}
use reading_and_comprehense.Memory.{add32, sub32}

-- `slabs_clsid` is the class of each item.
pub record Links : Type 0 where
  pub heads : ℕ → ℕ
  pub tails : ℕ → ℕ
  pub sizes : ℕ → ℕ
  pub next : ℕ → ℕ
  pub prev : ℕ → ℕ
  pub slabs_clsid : ℕ → ℕ

abbrev set_head : ℕ → ℕ → Links → Links
set_head id p q = record q { heads = update q.heads id p }

abbrev set_tail : ℕ → ℕ → Links → Links
set_tail id p q = record q { tails = update q.tails id p }

abbrev set_next : ℕ → ℕ → Links → Links
set_next p n q = record q { next = update q.next p n }

abbrev set_prev : ℕ → ℕ → Links → Links
set_prev p b q = record q { prev = update q.prev p b }

-- `if (p) p->next = n;` and the same for prev.
abbrev set_next? : ℕ → ℕ → Links → Links
set_next? p n q = if p == 0 then q else set_next p n q

abbrev set_prev? : ℕ → ℕ → Links → Links
set_prev? p b q = if p == 0 then q else set_prev p b q

-- item_link_q: the item is the new head.
unfoldable pub link_q : ℕ → Links → Links
link_q it q =
    let id = q.slabs_clsid it in
    let q1 = set_next it (q.heads id) (set_prev it 0 q) in
    let q2 = set_head id it (set_prev? (q1.next it) it q1) in
    let q3 = if q2.tails id == 0 then set_tail id it q2 else q2 in
    record q3 { sizes = update q3.sizes id (add32 (q3.sizes id) 1) }

-- crawler_unlink_q, and item_unlink_q but for the count.
unfoldable pub crawler_unlink_q : ℕ → Links → Links
crawler_unlink_q it q =
    let id = q.slabs_clsid it in
    let q1 = if q.heads id == it then set_head id (q.next it) q else q in
    let q2 = if q1.tails id == it then set_tail id (q1.prev it) q1 else q1 in
    let q3 = set_prev? (q2.next it) (q2.prev it) q2 in set_next? (q3.prev it) (q3.next it) q3

-- item_unlink_q.
unfoldable pub unlink_q : ℕ → Links → Links
unlink_q it q =
    let id = q.slabs_clsid it in
    let q1 = crawler_unlink_q it q in
    record q1 { sizes = update q1.sizes id (sub32 (q1.sizes id) 1) }

-- crawler_link_q: the crawler is the new tail.
unfoldable pub crawler_link_q : ℕ → Links → Links
crawler_link_q it q =
    let id = q.slabs_clsid it in
    let q1 = set_next it 0 (set_prev it (q.tails id) q) in
    let q2 = set_tail id it (set_next? (q1.prev it) it q1) in
    if q2.heads id == 0 then set_head id it q2 else q2

-- The end of crawler_crawl_q, the crawler trades places with the item before it: head and tail, and
-- the pointers.
unfoldable pub swing_ends : ℕ → Links → Links
swing_ends it q =
    let id = q.slabs_clsid it in
    let q1 = if q.heads id == q.prev it then set_head id it q else q in
    if q1.tails id == it then set_tail id (q1.prev it) q1 else q1

unfoldable pub swing_pointers : ℕ → Links → Links
swing_pointers it q =
    let q1 =
      if q.next it == 0
      then set_next (q.prev it) 0 q
      else set_prev (q.next it) (q.prev it) (set_next (q.prev it) (q.next it) q) in
    let q2 = set_next it (q1.prev it) q1 in
    let q3 = set_prev it (q2.prev (q2.next it)) q2 in
    let q4 = set_prev (q3.next it) it q3 in set_next? (q4.prev it) it q4

-- crawler_crawl_q: the item that the crawler has come to, or 0 at the head, where it is popped off.
unfoldable pub crawler_crawl_q : ℕ → Links → ℕ × Links
crawler_crawl_q it q =
    let id = q.slabs_clsid it in
    if q.prev it == 0
    then (0, if q.next it == 0 then q else set_prev (q.next it) 0 (set_head id (q.next it) q))
    else let q1 = swing_pointers it (swing_ends it q) in (q1.next it, q1)
