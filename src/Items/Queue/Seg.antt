-- ===== src/Items/Queue/Seg.antt =====
-- Doubly linked segments, for the lists of memcached-1.4/items.c.
use mathlib.Core.Path.{subst}
use reading_and_comprehense.Base.{
  ℕ, ◌≡◌, ◌≢◌, ◌⊎◌, inl, inr, refl, Bool, true, false, ◌||◌, List, [], ◌∷◌, ◌++◌, ◌∙◌, update,
  ==_iff, Bool-cases, arith, ◌==◌,
}
use reading_and_comprehense.Items.Queue.{Links}

abbrev pub has : ℕ → List ℕ → Bool
has a [] = false
has a (x ∷ xs) = x == a || has a xs

-- From `h`, which follows `b`, the pointers lead both ways through the distinct items `xs` to the
-- null pointer; `t` is the last item, or `b`.
abbrev pub Seg : (next prev : ℕ → ℕ) → ℕ → ℕ → List ℕ → ℕ → Type 0
Seg next prev b h [] t = (h ≡ 0) × (t ≡ b)
Seg next prev b h (x ∷ xs) t =
    (h ≡ x) × (x ≢ 0) × (prev x ≡ b) × (has x xs ≡ false) × Seg next prev x (next x) xs t

abbrev pub IsQueue : Links → ℕ → List ℕ → Type 0
IsQueue q id xs = Seg q.next q.prev 0 (q.heads id) xs (q.tails id)

pub frame :
    (next prev next' prev' : ℕ → ℕ) (b h : ℕ) (xs : List ℕ) (t : ℕ)
    → ((a : ℕ) → has a xs ≡ true → next' a ≡ next a)
    → ((a : ℕ) → has a xs ≡ true → prev' a ≡ prev a)
    → Seg next prev b h xs t
    → Seg next' prev' b h xs t
frame next prev next' prev' b h [] t sn sp s = s
frame next prev next' prev' b h (x ∷ xs) t sn sp s =
    let rest =
      frame next prev next' prev' x (next x) xs t (λ a i. sn a (ground arith))
        (λ a i. sp a (ground arith)) (s.4) in
    let n : next' x ≡ next x = sn x (ground arith) in
    (s.0, s.1, sp x (ground arith) ∙ s.2, s.3, rw n rest)

-- The same, with the ends given by equations.
pub carry :
    (next prev next' prev' : ℕ → ℕ) (b h h' : ℕ) (xs : List ℕ) (t t' : ℕ)
    → h' ≡ h
    → t' ≡ t
    → ((a : ℕ) → has a xs ≡ true → next' a ≡ next a)
    → ((a : ℕ) → has a xs ≡ true → prev' a ≡ prev a)
    → Seg next prev b h xs t
    → Seg next' prev' b h' xs t'
carry next prev next' prev' b h h' xs t t' eh et sn sp s =
    rw (eh, et) (frame next prev next' prev' b h xs t sn sp s)

pub has-append : (a : ℕ) (xs ys : List ℕ) → has a (xs ++ ys) ≡ (has a xs || has a ys)
has-append a [] ys = refl
has-append a (x ∷ xs) ys = ground (arith, has-append a xs ys)

-- The last item of a segment stands in it.
pub last-has :
    (next prev : ℕ → ℕ) (b h : ℕ) (xs : List ℕ) (t : ℕ)
    → Seg next prev b h xs t
    → ((xs ≡ []) × (t ≡ b)) ⊎ (has t xs ≡ true)
last-has next prev b h [] t s = inl (refl, s.1)
last-has next prev b h (x ∷ xs) t s = ground (arith, last-has next prev x (next x) xs t (s.4))

pub head-has :
    (next prev : ℕ → ℕ) (b h : ℕ) (xs : List ℕ) (t : ℕ)
    → Seg next prev b h xs t
    → (h ≡ 0) ⊎ (has h xs ≡ true)
head-has next prev b h [] t s = inl (s.0)
head-has next prev b h (x ∷ xs) t s = ground arith

pub nonnull :
    (next prev : ℕ → ℕ) (b h : ℕ) (xs : List ℕ) (t a : ℕ)
    → Seg next prev b h xs t
    → has a xs ≡ true
    → a ≢ 0
nonnull next prev b h [] t a s i = cc
nonnull next prev b h (x ∷ xs) t a s i = ground (arith, nonnull next prev x (next x) xs t a (s.4))

-- The lists of all classes: each shows its list of addresses, whose items are of the class.
pub record Shows (q : Links) (lru : ℕ → List ℕ) : Type 0 where
  pub queue : (k : ℕ) → IsQueue q k (lru k)
  pub class : (k a : ℕ) → has a (lru k) ≡ true → q.slabs_clsid a ≡ k

pub Shows-IsQueue :
    (q : Links) (lru : ℕ → List ℕ) (k : ℕ) (xs : List ℕ) → lru k ≡ xs → Shows q lru → IsQueue q k xs
Shows-IsQueue q lru k xs e w = subst (λ ys. IsQueue q k ys) e (w.queue k)

-- A change of one list that writes to items of its class alone.
pub Shows-update :
    (q q' : Links) (lru : ℕ → List ℕ) (id : ℕ) (xs : List ℕ)
    → Shows q lru
    → ((a : ℕ) → q'.slabs_clsid a ≡ q.slabs_clsid a)
    → ((k : ℕ) → k ≢ id → (q'.heads k ≡ q.heads k) × (q'.tails k ≡ q.tails k))
    → ((a : ℕ) → q.slabs_clsid a ≢ id → (q'.next a ≡ q.next a) × (q'.prev a ≡ q.prev a))
    → IsQueue q' id xs
    → ((a : ℕ) → has a xs ≡ true → q.slabs_clsid a ≡ id)
    → Shows q' (update lru id xs)
Shows-update q q' lru id xs w same ends ptrs new mine = record {
  queue = λ k. elim (Bool-cases (id == k)) [
    | inl e ↦ rw e (subst (λ c. IsQueue q' c xs) ((==_iff id k).0 e) new)
    | inr ne ↦
        let other : k ≢ id = λ e. ground arith in
        rw ne (
          carry q.next q.prev q'.next q'.prev 0 (q.heads k) (q'.heads k) (lru k) (q.tails k)
            (q'.tails k) ((ends k other).0) ((ends k other).1)
            (λ a i. (ptrs a (ground (arith, w.class k a))).0)
            (λ a i. (ptrs a (ground (arith, w.class k a))).1) (w.queue k))
  ];
  class = λ k a i. ground (arith, same a, mine a, w.class k a);
}
