-- ===== src/Items/Queue/Pop.antt =====
-- crawler_crawl_q of memcached-1.4/items.c at the head of a list, where the crawler leaves it.
use reading_and_comprehense.Base.{
  ℕ, ◌≡◌, ◌≢◌, refl, sym, true, List, [], ◌∷◌, arith, ◌==◌, if◌then◌else◌, update,
}
use reading_and_comprehense.Items.Queue.{Links, crawler_crawl_q, crawler_unlink_q}
use reading_and_comprehense.Items.Queue.Seg.{
  IsQueue, Shows, Shows-update, Shows-IsQueue, has, carry, last-has,
}
use reading_and_comprehense.Items.Queue.Unlink.{
  unlink_next, unlink_prev, unlink_head, unlink_tail, unlink_class, unlink_ends,
  crawler_unlink_q-Shows,
}
use reading_and_comprehense.Items.{remove_ptr}

pop_alone : (q : Links) (it : ℕ) → q.prev it ≡ 0 → q.next it ≡ 0 → crawler_crawl_q it q ≡ (0, q)
unfolding crawler_crawl_q
pop_alone q it p n = ground arith

abbrev pop_head : Links → ℕ → ℕ → Links
pop_head q it z = record q { heads = update q.heads (q.slabs_clsid it) z; prev = update q.prev z 0 }

pop_step :
    (q : Links) (it z : ℕ)
    → q.prev it ≡ 0
    → q.next it ≡ z
    → z ≢ 0
    → crawler_crawl_q it q ≡ (0, pop_head q it z)
unfolding crawler_crawl_q
pop_step q it z p n nz = ground arith

pop_head-Shows :
    (q : Links) (it : ℕ) (lru : ℕ → List ℕ) (z : ℕ) (r : List ℕ)
    → lru (q.slabs_clsid it) ≡ it ∷ z ∷ r
    → IsQueue q (q.slabs_clsid it) (it ∷ z ∷ r)
    → Shows q lru
    → Shows (crawler_unlink_q it (pop_head q it z)) (update lru (q.slabs_clsid it) (z ∷ r))
pop_head-Shows q it lru z r e s w =
    let id = q.slabs_clsid it in
    let q1 = pop_head q it z in
    let q2 = crawler_unlink_q it q1 in
    let rest = s.4 in
    let self : q1.next it ≢ it = ground arith in
    let mine : (a : ℕ) → has a (it ∷ z ∷ r) ≡ true → q.slabs_clsid a ≡ id =
      (λ a i. w.class id a (rw e i)) in
    let last = last-has q.next q.prev z (q.next z) r (q.tails id) (rest.4) in
    let same_next : (a : ℕ) → q2.next a ≡ q.next a =
      (λ a. ground (arith, unlink_next q1 it self a)) in
    let new_prev : (a : ℕ) → q2.prev a ≡ (if z == a then 0 else q.prev a) =
      (λ a. ground (arith, unlink_prev q1 it self a)) in
    Shows-update q q2 lru id (z ∷ r) w (λ a. unlink_class q1 it self a)
      (λ k ne. ground (arith, unlink_ends q1 it self k ne))
      (λ a ne. (same_next a, ground (arith, new_prev a, mine z)))
      (
        ground (arith, unlink_head q1 it self),
        rest.1,
        ground (arith, new_prev z),
        rest.3,
        carry q.next q.prev q2.next q2.prev z (q.next z) (q2.next z) r (q.tails id) (q2.tails id)
            (same_next z) (ground (arith, unlink_tail q1 it self, last)) (λ a i. same_next a)
            (λ a i. ground (arith, new_prev a)) (rest.4),
      )
      (λ a i. ground (arith, mine a))

remove_only : (it : ℕ) → remove_ptr it (it ∷ []) ≡ []
unfolding remove_ptr
remove_only it = ground arith

-- At the head of its list the crawler is popped off, and crawler_unlink_q, which follows, takes it out.
pub crawler_pop-Shows :
    (q : Links) (it : ℕ) (lru : ℕ → List ℕ) (r : List ℕ)
    → lru (q.slabs_clsid it) ≡ it ∷ r
    → Shows q lru
    → ((crawler_crawl_q it q).0 ≡ 0)
      × Shows (crawler_unlink_q it (crawler_crawl_q it q).1) (update lru (q.slabs_clsid it) r)
crawler_pop-Shows q it lru [] e w =
    let id = q.slabs_clsid it in
    let s = Shows-IsQueue q lru id (it ∷ []) e w in
    let alone : crawler_crawl_q it q ≡ (0, q) = pop_alone q it (s.2) ((s.4).0) in
    let out : remove_ptr it (lru id) ≡ [] = rw e (remove_only it) in
    rw alone (refl, rw (sym out) (crawler_unlink_q-Shows q it lru (rw e (ground arith)) w))
crawler_pop-Shows q it lru (z ∷ r) e w =
    let id = q.slabs_clsid it in
    let s = Shows-IsQueue q lru id (it ∷ z ∷ r) e w in
    let popped : crawler_crawl_q it q ≡ (0, pop_head q it z) =
      pop_step q it z (s.2) ((s.4).0) ((s.4).1) in
    rw popped (refl, pop_head-Shows q it lru z r e s w)
