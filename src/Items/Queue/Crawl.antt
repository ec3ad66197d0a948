-- ===== src/Items/Queue/Crawl.antt =====
-- crawler_crawl_q of memcached-1.4/items.c moves the crawler one place towards the head of its list.
use reading_and_comprehense.Base.{
  ℕ, ◌≡◌, ◌≢◌, ◌⊎◌, ◌∙◌, true, false, List, [], ◌∷◌, ◌++◌, arith, ◌==◌, if◌then◌else◌, update,
}
use reading_and_comprehense.Items.Queue.{Links, swing_ends, swing_pointers, crawler_crawl_q}
use reading_and_comprehense.Items.Queue.Seg.{
  IsQueue, Shows, Shows-update, Shows-IsQueue, has, has-append,
}
use reading_and_comprehense.Items.Queue.Unlink.{prev_of-it, apart, apart_left, no_null}
use reading_and_comprehense.Items.Queue.Swing.{
  next_of-second, prev_of-second, apart-second, trade, pointers_ends, pointers_via,
}

module _ (q : Links) (it : ℕ) (l : List ℕ) (y : ℕ) (r : List ℕ)
    (s : IsQueue q (q.slabs_clsid it) (l ++ y ∷ it ∷ r)) where
  abbrev id : ℕ
  id = q.slabs_clsid it

  prev_is : q.prev it ≡ y
  prev_is = prev_of-second q.next q.prev 0 (q.heads id) l y it r (q.tails id) s

  zero_out : has 0 (l ++ y ∷ it ∷ r) ≡ false
  zero_out = no_null q.next q.prev 0 (q.heads id) (l ++ y ∷ it ∷ r) (q.tails id) s

  y_out : has y (it ∷ r) ≡ false
  y_out = apart q.next q.prev 0 (q.heads id) l y (it ∷ r) (q.tails id) s

  it_out : has it r ≡ false
  it_out = apart-second q.next q.prev 0 (q.heads id) l y it r (q.tails id) s

  behind : (q.next it ≡ 0) ⊎ (has (q.next it) r ≡ true)
  behind = next_of-second q.next q.prev 0 (q.heads id) l y it r (q.tails id) s

  before : ((l ≡ []) × (q.prev y ≡ 0)) ⊎ (has (q.prev y) l ≡ true)
  before = prev_of-it q.next q.prev 0 (q.heads id) l y (it ∷ r) (q.tails id) s

  y_zero : y ≢ 0
  y_zero = ground (arith, zero_out, has-append 0 l (y ∷ it ∷ r))

  it_zero : it ≢ 0
  it_zero = ground (arith, zero_out, has-append 0 l (y ∷ it ∷ r))

  y_next : y ≢ q.next it
  y_next = ground (arith, behind, y_out, y_zero)

  it_next : it ≢ q.next it
  it_next = ground (arith, behind, it_out, it_zero)

  pp_out : has (q.prev y) (y ∷ it ∷ r) ≡ false
  pp_out = ground (
    arith,
    before,
    zero_out,
    has-append 0 l (y ∷ it ∷ r),
    apart_left q.next q.prev 0 (q.heads id) l y (it ∷ r) (q.tails id) (q.prev y) s,
  )

  pp_it : q.prev y ≢ it
  pp_it = ground (arith, pp_out)

  pp_y : q.prev y ≢ y
  pp_y = ground (arith, pp_out)

  y_it : y ≢ it
  y_it = ground (arith, y_out)

  abbrev q' : Links
  q' = swing_pointers it (swing_ends it q)

  ends_same : (swing_ends it q).next ≡ q.next
  unfolding swing_ends
  ends_same = ground arith

  ends_same' : (swing_ends it q).prev ≡ q.prev
  unfolding swing_ends
  ends_same' = ground arith

  via :
      (a : ℕ)
      → (q'.next a ≡ (
          if it == a
          then y
          else if y == a
          then q.next it
          else if q.prev y == 0
          then q.next a
          else if q.prev y == a
          then it
          else q.next a))
        × (q'.prev a ≡ (
            if y == a
            then it
            else if it == a
            then q.prev y
            else if q.next it == 0
            then q.prev a
            else if q.next it == a
            then y
            else q.prev a))
  via =
      pointers_via (swing_ends it q) it y q.next q.prev ends_same ends_same' prev_is y_zero y_it
        it_next y_next pp_it pp_y

  swing_next :
      (a : ℕ)
      → q'.next a ≡ (
          if it == a
          then y
          else if y == a
          then q.next it
          else if q.prev y == 0
          then q.next a
          else if q.prev y == a
          then it
          else q.next a)
  swing_next a = (via a).0

  swing_prev :
      (a : ℕ)
      → q'.prev a ≡ (
          if y == a
          then it
          else if it == a
          then q.prev y
          else if q.next it == 0
          then q.prev a
          else if q.next it == a
          then y
          else q.prev a)
  swing_prev a = (via a).1

  swing_head : q'.heads id ≡ (if q.heads id == y then it else q.heads id)
  unfolding swing_ends
  swing_head = (pointers_ends (swing_ends it q) it id).0 ∙ ground (arith, prev_is)

  swing_tail : q'.tails id ≡ (if q.tails id == it then y else q.tails id)
  unfolding swing_ends
  swing_tail = (pointers_ends (swing_ends it q) it id).1 ∙ ground (arith, prev_is)

  swing_class : (a : ℕ) → q'.slabs_clsid a ≡ q.slabs_clsid a
  unfolding swing_ends
  swing_class a = (pointers_ends (swing_ends it q) it a).2 ∙ ground arith

  swing_others : (k : ℕ) → k ≢ id → (q'.heads k ≡ q.heads k) × (q'.tails k ≡ q.tails k)
  unfolding swing_ends
  swing_others k ne = (
    (pointers_ends (swing_ends it q) it k).0 ∙ ground arith,
    (pointers_ends (swing_ends it q) it k).1 ∙ ground arith,
  )

  swing-IsQueue : IsQueue q' id (l ++ it ∷ y ∷ r)
  swing-IsQueue =
      rw (swing_head, swing_tail)
        (trade q.next q.prev q'.next q'.prev it y swing_next swing_prev 0 (q.heads id) l r
          (q.tails id) zero_out s)

  swing-Shows :
      (lru : ℕ → List ℕ)
      → lru id ≡ l ++ y ∷ it ∷ r
      → Shows q lru
      → Shows q' (update lru id (l ++ it ∷ y ∷ r))
  swing-Shows lru e w =
      let new = swing-IsQueue in
      let mine : (a : ℕ) → has a (l ++ y ∷ it ∷ r) ≡ true → q.slabs_clsid a ≡ id =
        (λ a i. w.class id a (rw e i)) in
      let in_f = λ (a : ℕ). has-append a l (y ∷ it ∷ r) in
      let of_y = mine y (ground (arith, in_f y)) in
      let of_pp = mine (q.prev y) in
      let of_next = mine (q.next it) in
      Shows-update q q' lru id (l ++ it ∷ y ∷ r) w swing_class swing_others
        (λ a ne. (
          ground (arith, swing_next a, before, of_y, of_pp, in_f (q.prev y)),
          ground (arith, swing_prev a, behind, of_y, of_next, in_f (q.next it)),
        ))
        new (λ a i. ground (arith, mine a, in_f a, has-append a l (it ∷ y ∷ r)))

crawl_step :
    (q : Links) (it y : ℕ)
    → q.prev it ≡ y
    → y ≢ 0
    → crawler_crawl_q it q
      ≡ ((swing_pointers it (swing_ends it q)).next it, swing_pointers it (swing_ends it q))
unfolding crawler_crawl_q
crawl_step q it y at zero = ground arith

-- crawler_crawl_q lets the crawler and the item before it trade places and returns that item.
pub crawler_crawl_q-Shows :
    (q : Links) (it : ℕ) (lru : ℕ → List ℕ) (l : List ℕ) (y : ℕ) (r : List ℕ)
    → lru (q.slabs_clsid it) ≡ l ++ y ∷ it ∷ r
    → Shows q lru
    → ((crawler_crawl_q it q).0 ≡ y)
      × Shows (crawler_crawl_q it q).1 (update lru (q.slabs_clsid it) (l ++ it ∷ y ∷ r))
crawler_crawl_q-Shows q it lru l y r e w =
    let id = q.slabs_clsid it in
    let s = Shows-IsQueue q lru id (l ++ y ∷ it ∷ r) e w in
    let zero : y ≢ 0 = y_zero q it l y r s in
    let at = prev_is q it l y r s in
    let step = crawl_step q it y at zero in
    rw step (ground (arith, swing_next q it l y r s it), swing-Shows q it l y r s lru e w)
