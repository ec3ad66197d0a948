-- ===== src/Items/Queue/Unlink.antt =====
-- item_unlink_q and crawler_unlink_q of memcached-1.4/items.c take the item out of its list.
use reading_and_comprehense.Base.{
  ℕ, ◌+◌, ◌-◌, ◌%◌, ◌^◌, ◌≡◌, ◌≢◌, ◌⊎◌, inl, inr, refl, true, false, List, [], ◌∷◌, ◌++◌, arith,
  Bool-cases, ◌==◌, if◌then◌else◌, update,
}
use reading_and_comprehense.Items.{remove_ptr}
use reading_and_comprehense.Items.Queue.{Links, crawler_unlink_q, unlink_q}
use reading_and_comprehense.Items.Queue.Seg.{
  Seg, IsQueue, Shows, Shows-update, Shows-IsQueue, has, carry, last-has, has-append,
}

-- Where the neighbours of an item in the middle of a segment stand.
pub prev_of-it :
    (next prev : ℕ → ℕ) (b h : ℕ) (l : List ℕ) (it : ℕ) (r : List ℕ) (t : ℕ)
    → Seg next prev b h (l ++ it ∷ r) t
    → ((l ≡ []) × (prev it ≡ b)) ⊎ (has (prev it) l ≡ true)
prev_of-it next prev b h [] it r t s = inl (refl, s.2)
prev_of-it next prev b h (x ∷ l) it r t s =
    ground (arith, prev_of-it next prev x (next x) l it r t (s.4))

pub next_of-it :
    (next prev : ℕ → ℕ) (b h : ℕ) (l : List ℕ) (it : ℕ) (r : List ℕ) (t : ℕ)
    → Seg next prev b h (l ++ it ∷ r) t
    → (next it ≡ 0) ⊎ (has (next it) r ≡ true)
next_of-it next prev b h [] it [] t s = inl ((s.4).0)
next_of-it next prev b h [] it (y ∷ r) t s = ground arith
next_of-it next prev b h (x ∷ l) it r t s = next_of-it next prev x (next x) l it r t (s.4)

-- An item is followed by `it` exactly if `it` points back to it.
pub joint :
    (next prev : ℕ → ℕ) (b h : ℕ) (l : List ℕ) (it : ℕ) (r : List ℕ) (t : ℕ)
    → has b (l ++ it ∷ r) ≡ false
    → Seg next prev b h (l ++ it ∷ r) t
    → ((h ≡ it) × (prev it ≡ b)) ⊎ ((h ≢ it) × (prev it ≢ b))
joint next prev b h [] it r t nb s = inl (s.0, s.2)
joint next prev b h (z ∷ l) it r t nb s = inr (
  ground (arith, has-append it l (it ∷ r)),
  ground (arith, prev_of-it next prev b h (z ∷ l) it r t s, has-append b l (it ∷ r)),
)

-- The two writes that close the gap.
module _ (next prev next' prev' : ℕ → ℕ) (it : ℕ)
    (nexts : (a : ℕ)
      → next' a ≡ (if prev it == 0 then next a else if prev it == a then next it else next a))
    (prevs : (a : ℕ)
      → prev' a ≡ (if next it == 0 then prev a else if next it == a then prev it else prev a)) where
  pub close_gap :
      (b h : ℕ) (l r : List ℕ) (t : ℕ)
      → b ≢ it
      → has b (l ++ it ∷ r) ≡ false
      → Seg next prev b h (l ++ it ∷ r) t
      → Seg next' prev' b (if h == it then next it else h) (l ++ r) (if t == it then prev it else t)
  close_gap b h [] [] t ne nb s = ground (arith)
  close_gap b h [] (y ∷ r) t ne nb s =
      let rest = s.4 in
      (
        ground arith,
        rest.1,
        ground (arith, prevs y),
        rest.3,
        carry next prev next' prev' y (next y) (next' y) r t (if t == it then prev it else t)
            (ground (arith, nexts y)) (ground (arith, last-has next prev y (next y) r t (rest.4)))
            (λ a i. ground (arith, nexts a, has-append a [] (y ∷ r)))
            (λ a i. ground (arith, prevs a)) (rest.4),
      )
  close_gap b h (x ∷ l) r t ne nb s =
      let ih = close_gap x (next x) l r t (ground (arith, has-append it l (it ∷ r))) (s.3) (s.4) in
      let out : x ≢ next it =
        ground (arith, next_of-it next prev b h (x ∷ l) it r t s, has-append x l (it ∷ r), s.1) in
      let after : next' x ≡ (if next x == it then next it else next x) =
        ground (arith, nexts x, s.1, joint next prev x (next x) l it r t (s.3) (s.4)) in
      (
        ground (arith, s.0, has-append it l (it ∷ r)),
        s.1,
        ground (arith, prevs x),
        ground (arith, has-append x l r, has-append x l (it ∷ r)),
        rw after ih,
      )

pub apart :
    (next prev : ℕ → ℕ) (b h : ℕ) (l : List ℕ) (it : ℕ) (r : List ℕ) (t : ℕ)
    → Seg next prev b h (l ++ it ∷ r) t
    → has it r ≡ false
apart next prev b h [] it r t s = s.3
apart next prev b h (x ∷ l) it r t s = apart next prev x (next x) l it r t (s.4)

pub no_null :
    (next prev : ℕ → ℕ) (b h : ℕ) (xs : List ℕ) (t : ℕ) → Seg next prev b h xs t → has 0 xs ≡ false
no_null next prev b h [] t s = refl
no_null next prev b h (x ∷ xs) t s = ground (arith, no_null next prev x (next x) xs t (s.4))

-- An item of a list splits it.
pub split_at :
    (it : ℕ) (xs : List ℕ)
    → has it xs ≡ true
    → (l : List ℕ) × (r : List ℕ) × (xs ≡ l ++ it ∷ r) × (remove_ptr it xs ≡ l ++ r)
unfolding remove_ptr
split_at it [] i = absurd (ground arith)
split_at it (x ∷ xs) i = elim (Bool-cases (x == it)) [
  | inl e ↦ ([], xs, ground arith, ground arith)
  | inr ne ↦
      let (l, r, e, f) = split_at it xs (ground arith) in (x ∷ l, r, ground arith, ground arith)
]

pub apart_left :
    (next prev : ℕ → ℕ) (b h : ℕ) (l : List ℕ) (it : ℕ) (r : List ℕ) (t a : ℕ)
    → Seg next prev b h (l ++ it ∷ r) t
    → has a l ≡ true
    → has a (it ∷ r) ≡ false
apart_left next prev b h [] it r t a s i = absurd (ground arith)
apart_left next prev b h (x ∷ l) it r t a s i =
    ground (arith, s.3, has-append x l (it ∷ r), apart_left next prev x (next x) l it r t a (s.4))

module _ (q : Links) (it : ℕ) (self : q.next it ≢ it) where
  abbrev pub id : ℕ
  id = q.slabs_clsid it

  abbrev pub q' : Links
  q' = crawler_unlink_q it q

  pub unlink_next :
      (a : ℕ)
      → q'.next a
        ≡ (if q.prev it == 0 then q.next a else if q.prev it == a then q.next it else q.next a)
  unfolding crawler_unlink_q
  unlink_next a = ground arith

  pub unlink_prev :
      (a : ℕ)
      → q'.prev a
        ≡ (if q.next it == 0 then q.prev a else if q.next it == a then q.prev it else q.prev a)
  unfolding crawler_unlink_q
  unlink_prev a = ground arith

  pub unlink_head : q'.heads id ≡ (if q.heads id == it then q.next it else q.heads id)
  unfolding crawler_unlink_q
  unlink_head = ground arith

  pub unlink_tail : q'.tails id ≡ (if q.tails id == it then q.prev it else q.tails id)
  unfolding crawler_unlink_q
  unlink_tail = ground arith

  pub unlink_class : (a : ℕ) → q'.slabs_clsid a ≡ q.slabs_clsid a
  unfolding crawler_unlink_q
  unlink_class a = ground arith

  pub unlink_ends : (k : ℕ) → k ≢ id → (q'.heads k ≡ q.heads k) × (q'.tails k ≡ q.tails k)
  unfolding crawler_unlink_q
  unlink_ends k ne = (ground arith, ground arith)

  unlink_parts :
      (lru : ℕ → List ℕ) (l r : List ℕ)
      → lru id ≡ l ++ it ∷ r
      → Shows q lru
      → Shows q' (update lru id (l ++ r))
  unlink_parts lru l r e w =
      let s = Shows-IsQueue q lru id (l ++ it ∷ r) e w in
      let n0 = no_null q.next q.prev 0 (q.heads id) (l ++ it ∷ r) (q.tails id) s in
      let split = has-append it l (it ∷ r) in
      let new : IsQueue q' id (l ++ r) =
        rw (unlink_head, unlink_tail)
          (close_gap q.next q.prev q'.next q'.prev it unlink_next unlink_prev 0 (q.heads id) l r
            (q.tails id) (ground (arith, split, has-append 0 l (it ∷ r))) n0 s) in
      let before = prev_of-it q.next q.prev 0 (q.heads id) l it r (q.tails id) s in
      let behind = next_of-it q.next q.prev 0 (q.heads id) l it r (q.tails id) s in
      let mine : (a : ℕ) → has a (l ++ it ∷ r) ≡ true → q.slabs_clsid a ≡ id =
        (λ a i. w.class id a (rw e i)) in
      Shows-update q q' lru id (l ++ r) w unlink_class unlink_ends
        (λ a ne. (
          ground
              (arith, unlink_next a, before, mine (q.prev it), has-append (q.prev it) l (it ∷ r)),
          ground
              (arith, unlink_prev a, behind, mine (q.next it), has-append (q.next it) l (it ∷ r)),
        ))
        new (λ a i. ground (arith, mine a, has-append a l r, has-append a l (it ∷ r)))

pub next_ne_self :
    (next prev : ℕ → ℕ) (b h : ℕ) (l : List ℕ) (it : ℕ) (r : List ℕ) (t : ℕ)
    → Seg next prev b h (l ++ it ∷ r) t
    → next it ≢ it
next_ne_self next prev b h l it r t s = ground (
  arith,
  next_of-it next prev b h l it r t s,
  apart next prev b h l it r t s,
  no_null next prev b h (l ++ it ∷ r) t s,
  has-append 0 l (it ∷ r),
)

-- crawler_unlink_q takes the item out of the list of its class and leaves the other lists alone.
pub crawler_unlink_q-Shows :
    (q : Links) (it : ℕ) (lru : ℕ → List ℕ)
    → has it (lru (q.slabs_clsid it)) ≡ true
    → Shows q lru
    → Shows
        (crawler_unlink_q it q)
        (update lru (q.slabs_clsid it) (remove_ptr it (lru (q.slabs_clsid it))))
crawler_unlink_q-Shows q it lru i w =
    let id = q.slabs_clsid it in
    let (l, r, e, f) = split_at it (lru id) i in
    let s = Shows-IsQueue q lru id (l ++ it ∷ r) e w in
    rw f (
      unlink_parts q it (next_ne_self q.next q.prev 0 (q.heads id) l it r (q.tails id) s) lru l r e
        w)

crawler_unlink_q_sizes : (q : Links) (it k : ℕ) → (crawler_unlink_q it q).sizes k ≡ q.sizes k
unfolding crawler_unlink_q
crawler_unlink_q_sizes q it k = ground arith

-- item_unlink_q takes the item out of the list of its class, counts one item less for that class and
-- leaves the other lists and counts alone.
pub unlink_q-Shows :
    (q : Links) (it : ℕ) (lru : ℕ → List ℕ)
    → has it (lru (q.slabs_clsid it)) ≡ true
    → Shows q lru
    → Shows (unlink_q it q) (update lru (q.slabs_clsid it) (remove_ptr it (lru (q.slabs_clsid it))))
      × ((k : ℕ)
          → (unlink_q it q).sizes k
            ≡ (if q.slabs_clsid it == k then (q.sizes k + (2 ^ 32 - 1)) % 2 ^ 32 else q.sizes k))
unfolding unlink_q
unlink_q-Shows q it lru i w =
    let s = crawler_unlink_q-Shows q it lru i w in
    (
      record { queue = s.queue; class = s.class },
      λ k.
          ground
            (arith, crawler_unlink_q_sizes q it k, crawler_unlink_q_sizes q it (q.slabs_clsid it)),
    )
