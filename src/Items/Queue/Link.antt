-- ===== src/Items/Queue/Link.antt =====
-- item_link_q of memcached-1.4/items.c puts the item in front of its list.
use reading_and_comprehense.Base.{
  ℕ, ◌≡◌, ◌≢◌, ◌⊎◌, true, false, List, [], ◌∷◌, arith, ◌==◌, if◌then◌else◌, update,
}
use reading_and_comprehense.Items.Queue.{Links, link_q}
use reading_and_comprehense.Items.Queue.Seg.{
  IsQueue, Shows, Shows-update, head-has, has, carry, nonnull, last-has,
}

module _ (q : Links) (it : ℕ) where
  abbrev id : ℕ
  id = q.slabs_clsid it

  link_next : (a : ℕ) → (link_q it q).next a ≡ (if it == a then q.heads id else q.next a)
  unfolding link_q
  link_next a = ground arith

  link_prev :
      (a : ℕ)
      → it ≢ q.heads id
      → (link_q it q).prev a ≡ (
          if it == a
          then 0
          else if q.heads id == a
          then (if a == 0 then q.prev a else it)
          else q.prev a)
  unfolding link_q
  link_prev a ne = ground arith

  link_head : (link_q it q).heads id ≡ it
  unfolding link_q
  link_head = ground arith

  link_tail : (link_q it q).tails id ≡ (if q.tails id == 0 then it else q.tails id)
  unfolding link_q
  link_tail = ground arith

  pub link_q-IsQueue :
      (xs : List ℕ)
      → it ≢ 0
      → has it xs ≡ false
      → IsQueue q id xs
      → IsQueue (link_q it q) id (it ∷ xs)
  link_q-IsQueue [] nz out s = ground (arith, link_head, link_tail, link_next it, link_prev it)
  link_q-IsQueue (y ∷ ys) nz out s =
      let q' = link_q it q in
      let ne : it ≢ q.heads id = ground arith in
      let tail : q.tails id ≢ 0 = ground (
        arith,
        last-has q.next q.prev y (q.next y) ys (q.tails id) (s.4),
        nonnull q.next q.prev y (q.next y) ys (q.tails id) (q.tails id) (s.4),
      ) in
      (
        link_head,
        nz,
        ground (arith, link_prev it ne),
        out,
        (
          ground (arith, link_next it),
          s.1,
          ground (arith, link_prev y ne),
          s.3,
          carry q.next q.prev q'.next q'.prev y (q.next y) (q'.next y) ys (q.tails id) (q'.tails id)
              (ground (arith, link_next y)) (ground (arith, link_tail))
              (λ a i. ground (arith, link_next a)) (λ a i. ground (arith, link_prev a ne)) (s.4),
        ),
      )

  link_class : (a : ℕ) → (link_q it q).slabs_clsid a ≡ q.slabs_clsid a
  unfolding link_q
  link_class a = ground arith

  link_ends :
      (k : ℕ) → k ≢ id → ((link_q it q).heads k ≡ q.heads k) × ((link_q it q).tails k ≡ q.tails k)
  unfolding link_q
  link_ends k ne = (ground arith, ground arith)

  -- item_link_q puts the item in front of the list of its class and leaves the other lists alone.
  pub link_q-Shows :
      (lru : ℕ → List ℕ)
      → it ≢ 0
      → has it (lru id) ≡ false
      → Shows q lru
      → Shows (link_q it q) (update lru id (it ∷ lru id))
  link_q-Shows lru nz out w =
      let new = link_q-IsQueue (lru id) nz out (w.queue id) in
      let head : (q.heads id ≡ 0) ⊎ (has (q.heads id) (lru id) ≡ true) =
        head-has q.next q.prev 0 (q.heads id) (lru id) (q.tails id) (w.queue id) in
      let ne : it ≢ q.heads id = ground arith in
      Shows-update q (link_q it q) lru id (it ∷ lru id) w link_class link_ends
        (λ a other. (
          ground (arith, link_next a),
          ground (arith, link_prev a ne, head, w.class id (q.heads id)),
        ))
        new (λ a i. ground (arith, w.class id a))
