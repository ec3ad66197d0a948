-- ===== src/Items/Queue/Swing.antt =====
-- The pointers of two neighbours of an LRU list of memcached-1.4/items.c that trade places.
use reading_and_comprehense.Base.{
  ℕ, ◌≡◌, ◌≢◌, ◌⊎◌, true, false, List, [], ◌∷◌, ◌++◌, arith, ◌==◌, if◌then◌else◌,
}
use reading_and_comprehense.Items.Queue.{Links, swing_pointers}
use reading_and_comprehense.Items.Queue.Seg.{Seg, has, carry, last-has, has-append}
use reading_and_comprehense.Items.Queue.Unlink.{next_of-it, joint}

pub next_of-second :
    (next prev : ℕ → ℕ) (b h : ℕ) (l : List ℕ) (y it : ℕ) (r : List ℕ) (t : ℕ)
    → Seg next prev b h (l ++ y ∷ it ∷ r) t
    → (next it ≡ 0) ⊎ (has (next it) r ≡ true)
next_of-second next prev b h [] y it r t s = next_of-it next prev y (next y) [] it r t (s.4)
next_of-second next prev b h (x ∷ l) y it r t s =
    next_of-second next prev x (next x) l y it r t (s.4)

pub prev_of-second :
    (next prev : ℕ → ℕ) (b h : ℕ) (l : List ℕ) (y it : ℕ) (r : List ℕ) (t : ℕ)
    → Seg next prev b h (l ++ y ∷ it ∷ r) t
    → prev it ≡ y
prev_of-second next prev b h [] y it r t s = (s.4).2
prev_of-second next prev b h (x ∷ l) y it r t s =
    prev_of-second next prev x (next x) l y it r t (s.4)

pub apart-second :
    (next prev : ℕ → ℕ) (b h : ℕ) (l : List ℕ) (y it : ℕ) (r : List ℕ) (t : ℕ)
    → Seg next prev b h (l ++ y ∷ it ∷ r) t
    → has it r ≡ false
apart-second next prev b h [] y it r t s = (s.4).3
apart-second next prev b h (x ∷ l) y it r t s = apart-second next prev x (next x) l y it r t (s.4)

-- The writes that let `it` and the item y before it trade places.
module _ (next prev next' prev' : ℕ → ℕ) (it y : ℕ)
    (nexts : (a : ℕ)
      → next' a ≡ (
          if it == a
          then y
          else if y == a
          then next it
          else if prev y == 0
          then next a
          else if prev y == a
          then it
          else next a))
    (prevs : (a : ℕ)
      → prev' a ≡ (
          if y == a
          then it
          else if it == a
          then prev y
          else if next it == 0
          then prev a
          else if next it == a
          then y
          else prev a)) where
  pub trade :
      (b h : ℕ) (l r : List ℕ) (t : ℕ)
      → has b (l ++ y ∷ it ∷ r) ≡ false
      → Seg next prev b h (l ++ y ∷ it ∷ r) t
      → Seg next' prev' b (if h == y then it else h) (l ++ it ∷ y ∷ r) (if t == it then y else t)
  trade b h [] [] t nb s = ground (arith, nexts it, nexts y, prevs it, prevs y)
  trade b h [] (z ∷ r) t nb s =
      let rest = (s.4).4 in
      (
        ground arith,
        ground arith,
        ground (arith, prevs it),
        ground arith,
        (
          ground (arith, nexts it),
          s.1,
          ground (arith, prevs y),
          ground arith,
          (
            ground (arith, nexts y),
            rest.1,
            ground (arith, prevs z),
            rest.3,
            carry next prev next' prev' z (next z) (next' z) r t (if t == it then y else t)
                (ground (arith, nexts z))
                (ground (arith, last-has next prev z (next z) r t (rest.4)))
                (λ a i. ground (arith, nexts a)) (λ a i. ground (arith, prevs a)) (rest.4),
          ),
        ),
      )
  trade b h (x ∷ l) r t nb s =
      let ih = trade x (next x) l r t (s.3) (s.4) in
      let apart_x = has-append x l (y ∷ it ∷ r) in
      let out : x ≢ next it =
        ground (arith, next_of-second next prev x (next x) l y it r t (s.4), apart_x, s.1) in
      let after : next' x ≡ (if next x == y then it else next x) =
        ground
          (arith, nexts x, s.1, apart_x, joint next prev x (next x) l y (it ∷ r) t (s.3) (s.4)) in
      (
        ground (arith, s.0, has-append y l (y ∷ it ∷ r)),
        s.1,
        ground (arith, prevs x, apart_x),
        ground (arith, has-append x l (it ∷ y ∷ r), apart_x),
        rw after ih,
      )

pub pointers_ends :
    (q : Links) (it k : ℕ)
    → ((swing_pointers it q).heads k ≡ q.heads k)
      × ((swing_pointers it q).tails k ≡ q.tails k)
      × ((swing_pointers it q).slabs_clsid k ≡ q.slabs_clsid k)
unfolding swing_pointers
pointers_ends q it k = (ground arith, ground arith, ground arith)

module _ (q : Links) (it y : ℕ) (at_y : q.prev it ≡ y) (y_zero : y ≢ 0) (y_it : y ≢ it)
    (it_next : it ≢ q.next it) (y_next : y ≢ q.next it) (pp_it : q.prev y ≢ it)
    (pp_y : q.prev y ≢ y) where
  pointers :
      (a : ℕ)
      → ((swing_pointers it q).next a ≡ (
          if it == a
          then y
          else if y == a
          then q.next it
          else if q.prev y == 0
          then q.next a
          else if q.prev y == a
          then it
          else q.next a))
        × ((swing_pointers it q).prev a ≡ (
            if y == a
            then it
            else if it == a
            then q.prev y
            else if q.next it == 0
            then q.prev a
            else if q.next it == a
            then y
            else q.prev a))
  unfolding swing_pointers
  pointers a = (ground arith, ground arith)

module _ (q : Links) (it y : ℕ) (next prev : ℕ → ℕ) (en : q.next ≡ next) (ep : q.prev ≡ prev)
    (at_y : prev it ≡ y) (y_zero : y ≢ 0) (y_it : y ≢ it) (it_next : it ≢ next it)
    (y_next : y ≢ next it) (pp_it : prev y ≢ it) (pp_y : prev y ≢ y) where
  pub pointers_via :
      (a : ℕ)
      → ((swing_pointers it q).next a ≡ (
          if it == a
          then y
          else if y == a
          then next it
          else if prev y == 0
          then next a
          else if prev y == a
          then it
          else next a))
        × ((swing_pointers it q).prev a ≡ (
            if y == a
            then it
            else if it == a
            then prev y
            else if next it == 0
            then prev a
            else if next it == a
            then y
            else prev a))
  pointers_via a =
      rw (← en, ← ep)
        (pointers q it y (rw ep at_y) y_zero y_it (rw en it_next) (rw en y_next) (rw ep pp_it)
          (rw ep pp_y) a)
