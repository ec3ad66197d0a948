-- ===== src/Items/Queue/Append.antt =====
-- crawler_link_q of memcached-1.4/items.c puts a crawler behind the last item of its list.
use mathlib.Core.Path.{subst}
use reading_and_comprehense.Base.{
  ℕ, ◌≡◌, ◌≢◌, refl, true, false, List, [], ◌∷◌, ◌++◌, arith, ◌==◌, if◌then◌else◌, update,
}
use reading_and_comprehense.Items.Queue.{Links, crawler_link_q}
use reading_and_comprehense.Items.Queue.Seg.{
  Seg, IsQueue, Shows, Shows-update, Shows-IsQueue, has, last-has, has-append, nonnull,
}

module _ (next prev next' prev' : ℕ → ℕ) (it t : ℕ) (it_zero : it ≢ 0)
    (nexts : (a : ℕ) → next' a ≡ (if it == a then 0 else if t == a then it else next a))
    (prevs : (a : ℕ) → prev' a ≡ (if it == a then t else prev a)) where
  pub add_last :
      (b h : ℕ) (xs : List ℕ)
      → has it xs ≡ false
      → Seg next prev b h xs t
      → Seg next' prev' b (if h == 0 then it else h) (xs ++ it ∷ []) it
  add_last b h [] out s = ground (arith, nexts it, prevs it)
  add_last b h (x ∷ xs) out s =
      let ih = add_last x (next x) xs (ground arith) (s.4) in
      let after : next' x ≡ (if next x == 0 then it else next x) = at_end x xs out (s.3) (s.4) in
      (
        ground (arith, s.0),
        s.1,
        ground (arith, prevs x, s.2),
        ground (arith, has-append x xs (it ∷ [])),
        rw after ih,
      )
    where
      at_end :
          (x : ℕ) (xs : List ℕ)
          → has it (x ∷ xs) ≡ false
          → has x xs ≡ false
          → Seg next prev x (next x) xs t
          → next' x ≡ (if next x == 0 then it else next x)
      at_end x [] out apart s = ground (arith, nexts x)
      at_end x (z ∷ xs) out apart s =
          ground (arith, nexts x, last-has next prev x (next x) (z ∷ xs) t s)

module _ (q : Links) (it : ℕ) (nz : it ≢ 0) where
  abbrev id : ℕ
  id = q.slabs_clsid it

  abbrev q' : Links
  q' = crawler_link_q it q

  link_next :
      (a : ℕ)
      → q.tails id ≢ 0
      → q.tails id ≢ it
      → q'.next a ≡ (if it == a then 0 else if q.tails id == a then it else q.next a)
  unfolding crawler_link_q
  link_next a t ne = ground arith

  link_prev : (a : ℕ) → q'.prev a ≡ (if it == a then q.tails id else q.prev a)
  unfolding crawler_link_q
  link_prev a = ground arith

  link_head : q'.heads id ≡ (if q.heads id == 0 then it else q.heads id)
  unfolding crawler_link_q
  link_head = ground arith

  link_tail : q'.tails id ≡ it
  unfolding crawler_link_q
  link_tail = ground arith

  link_class : (a : ℕ) → q'.slabs_clsid a ≡ q.slabs_clsid a
  unfolding crawler_link_q
  link_class a = ground arith

  link_ends : (k : ℕ) → k ≢ id → (q'.heads k ≡ q.heads k) × (q'.tails k ≡ q.tails k)
  unfolding crawler_link_q
  link_ends k ne = (ground arith, ground arith)

  link_nonempty :
      (lru : ℕ → List ℕ) (x : ℕ) (xs : List ℕ)
      → lru id ≡ x ∷ xs
      → has it (x ∷ xs) ≡ false
      → Shows q lru
      → Shows q' (update lru id (x ∷ xs ++ it ∷ []))
  link_nonempty lru x xs e out w =
      let s = Shows-IsQueue q lru id (x ∷ xs) e w in
      let t = q.tails id in
      let last : has t (x ∷ xs) ≡ true =
        ground (arith, last-has q.next q.prev 0 (q.heads id) (x ∷ xs) t s) in
      let tz : t ≢ 0 = nonnull q.next q.prev 0 (q.heads id) (x ∷ xs) t t s last in
      let ti : t ≢ it = ground (arith) in
      let mine : (a : ℕ) → has a (x ∷ xs) ≡ true → q.slabs_clsid a ≡ id =
        (λ a i. w.class id a (rw e i)) in
      let new : IsQueue q' id (x ∷ xs ++ it ∷ []) =
        rw (link_head, link_tail)
          (add_last q.next q.prev q'.next q'.prev it t nz (λ a. link_next a tz ti) link_prev 0
            (q.heads id) (x ∷ xs) out s) in
      Shows-update q q' lru id (x ∷ xs ++ it ∷ []) w link_class link_ends
        (λ a ne. (ground (arith, link_next a tz ti, mine t), ground (arith, link_prev a))) new
        (λ a i. ground (arith, mine a, has-append a (x ∷ xs) (it ∷ [])))

-- crawler_link_q puts the crawler behind the last item of its list and leaves the other lists alone.
pub crawler_link_q-Shows :
    (q : Links) (it : ℕ) (lru : ℕ → List ℕ)
    → it ≢ 0
    → lru (q.slabs_clsid it) ≢ []
    → has it (lru (q.slabs_clsid it)) ≡ false
    → Shows q lru
    → Shows
        (crawler_link_q it q)
        (update lru (q.slabs_clsid it) (lru (q.slabs_clsid it) ++ it ∷ []))
crawler_link_q-Shows q it lru nz filled out w = go (lru (q.slabs_clsid it)) refl
  where
    go :
        (xs : List ℕ)
        → lru (q.slabs_clsid it) ≡ xs
        → Shows (crawler_link_q it q) (update lru (q.slabs_clsid it) (xs ++ it ∷ []))
    go [] e = absurd (filled e)
    go (x ∷ xs) e = link_nonempty q it nz lru x xs e (subst (λ ys. has it ys ≡ false) e out) w
