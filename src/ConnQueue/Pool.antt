-- ===== src/ConnQueue/Pool.antt =====
-- The free list of the queue items in memcached-1.4/thread.c: cqi_new takes its first item, or the first of
-- a new block whose others become the free list; cqi_free gives an item back.
use mathlib.Core.Path.{subst}
use reading_and_comprehense.Base.{
  ℕ, zero, suc, ◌+◌, ◌-◌, ◌<◌, ◌≤◌, ◌≡◌, refl, sym, ap, ◌∙◌, Option, none, some, List, [], ◌∷◌,
  ◌++◌, ◌⊎◌, arith,
}
use reading_and_comprehense.ConnQueue.{
  add_block, CqItems, set_next, link_block, cqi_new, cqi_free, items_per_alloc,
}
use reading_and_comprehense.ConnQueue.Fifo.{
  Linked, Absent, update-Linked, set_next_other, set_next_self,
}

-- The `n` addresses from `a` on.
unfoldable pub block_from : ℕ → ℕ → List ℕ
block_from a zero = []
block_from a (suc n) = a ∷ block_from (a + 1) n

link_block_below :
    (base n i : ℕ) (m : CqItems) (a : ℕ) → a < base + i - 1 → link_block base n i m a ≡ m a
unfolding link_block
link_block_below base zero i m a h = refl
link_block_below base (suc n) i m a h =
    link_block_below base n (i + 1) _ a (omega arith)
    ∙ set_next_other m (base + i - 1) a (some (base + i)) (λ e. absurd (omega (arith, e)))

-- The items of the list are in front of the block or behind it.
abbrev pub OffBlock : ℕ → List ℕ → Type 0
OffBlock base [] = Unit
OffBlock base (p ∷ l) = ((p < base) ⊎ (base + items_per_alloc ≤ p)) × OffBlock base l

OffBlock-Absent :
    (base a : ℕ) (l : List ℕ) → OffBlock base l → base ≤ a → a < base + 64 → Absent a l
OffBlock-Absent base a [] o lo hi = tt
OffBlock-Absent base a (p ∷ l) o lo hi =
    (λ e. absurd (ground (arith, e, o.0)), OffBlock-Absent base a l o.1 lo hi)

link_block_off :
    (base n i : ℕ) (m : CqItems) (h : Option ℕ) (l : List ℕ)
    → 1 ≤ i
    → i + n ≤ 64
    → OffBlock base l
    → Linked m h l
    → Linked (link_block base n i m) h l
unfolding link_block
link_block_off base zero i m h l one fits o k = k
link_block_off base (suc n) i m h l one fits o k =
    link_block_off base n (i + 1) _ h l (omega arith) (omega (arith, fits)) o (
      update-Linked m (base + i - 1) _ h l
        (OffBlock-Absent base (base + i - 1) l o (omega (arith, one)) (omega (arith, fits))) k)

-- The pointers of a block once its last item `z` leads to the list `l`.
link_block-Linked :
    (base n i : ℕ) (m : CqItems) (z : ℕ) (freelist : Option ℕ) (l : List ℕ)
    → 1 ≤ i
    → z ≡ base + i - 1 + n
    → Linked (set_next z freelist (link_block base n i m)) freelist l
    → Linked
        (set_next z freelist (link_block base n i m))
        (some (base + i - 1))
        (block_from (base + i - 1) (suc n) ++ l)
unfolding link_block block_from
link_block-Linked base zero i m z freelist l h e k =
    let same : z ≡ base + i - 1 = omega (arith, e) in
    (
      refl,
      subst (λ g. Linked (set_next z freelist m) g l)
          (sym (
            subst (λ a. (set_next z freelist m a).next ≡ freelist) same
              (set_next_self m z freelist)))
          k,
    )
link_block-Linked base (suc n) i m z freelist l h e k =
    let m1 = set_next (base + i - 1) (some (base + i)) m in
    let m2 = set_next z freelist (link_block base n (i + 1) m1) in
    let here : base + (i + 1) - 1 ≡ base + i = omega (arith, h) in
    let next : base + i ≡ base + i - 1 + 1 = omega (arith, h) in
    let rest =
      link_block-Linked base n (i + 1) m1 z freelist l (omega arith) (omega (arith, e, h)) k in
    let first : (m2 (base + i - 1)).next ≡ some (base + (i + 1) - 1) =
      ap (λ c. c.next)
        (set_next_other (link_block base n (i + 1) m1) z (base + i - 1) freelist
          (λ q. absurd (omega (arith, q, e))))
      ∙ ap (λ c. c.next) (link_block_below base n (i + 1) m1 (base + i - 1) (omega (arith, h)))
      ∙ set_next_self m (base + i - 1) (some (base + i))
      ∙ ap some (sym here) in
    (
      refl,
      subst (λ g. Linked m2 g (block_from (base + i - 1 + 1) (suc n) ++ l)) (sym first)
          (subst (λ a. Linked m2 (some (base + (i + 1) - 1)) (block_from a (suc n) ++ l))
            (here ∙ next) rest),
    )

-- The free list that the other threads leave, where it was empty, before the block is added to it.
abbrev pub Freed : (CqItems × Option ℕ → CqItems × Option ℕ) → CqItems → Option ℕ → List ℕ → Type 0
Freed others m block l =
    Linked (others (m, none)).0 (others (m, none)).1 l
    × elim block [ none ↦ Unit | some base ↦ OffBlock base l ]

-- What is handed out, and what is left, of the free list and a block that malloc has or has not; `freed`
-- is what other threads have given back.
abbrev pub handed_out : Option ℕ → List ℕ → Option ℕ
handed_out block [] = block
handed_out block (p ∷ l) = some p

abbrev pub left_free : Option ℕ → List ℕ → List ℕ → List ℕ
left_free none freed [] = []
left_free (some base) freed [] = block_from (base + 1) 63 ++ freed
left_free block freed (p ∷ l) = l

add_block-Linked :
    (m : CqItems) (base : ℕ) (freelist : Option ℕ) (l : List ℕ)
    → OffBlock base l
    → Linked m freelist l
    → Linked
        (add_block base (m, freelist)).0
        (add_block base (m, freelist)).1
        (block_from (base + 1) 63 ++ l)
unfolding add_block
add_block-Linked m base freelist l o k =
    let z = base + items_per_alloc - 1 in
    let m1 = link_block base (items_per_alloc - 2) 2 m in
    let kept =
      update-Linked m1 z _ freelist l (OffBlock-Absent base z l o (omega arith) (omega arith)) (
        link_block_off base (items_per_alloc - 2) 2 m freelist l (omega arith) (omega arith) o k) in
    subst (λ a. Linked (set_next z freelist m1) (some a) (block_from a 63 ++ l)) (omega arith)
      (link_block-Linked base (items_per_alloc - 2) 2 m z freelist l (omega arith) (omega arith)
        kept)

taken :
    (m : CqItems) (p q : ℕ) (l : List ℕ)
    → Linked m (some p) (q ∷ l)
    → (◌≡◌ {A = Option ℕ} (some p) (some q)) × Linked m (m p).next l
taken m p q l k =
    let same : q ≡ p = ground (arith, k.0) in (k.0, subst (λ a. Linked m (m a).next l) same k.1)

-- cqi_new hands out the first free item and leaves the others. Where none is free, it hands out the first
-- item of a new block of 64, whose 63 others are free then in their order, in front of what other
-- threads have freed meanwhile outside the block; without memory it hands out none.
pub cqi_new-Linked :
    (m : CqItems) (freelist block : Option ℕ) (others : CqItems × Option ℕ → CqItems × Option ℕ)
    (l freed : List ℕ)
    → Linked m freelist l
    → Freed others m block freed
    → ((cqi_new block others (m, freelist)).0 ≡ handed_out block l)
      × Linked
          (cqi_new block others (m, freelist)).1.0
          (cqi_new block others (m, freelist)).1.1
          (left_free block freed l)
unfolding cqi_new
cqi_new-Linked m none none others [] freed k f = (refl, k)
cqi_new-Linked m none (some base) others [] freed k f =
    (refl, add_block-Linked (others (m, none)).0 base (others (m, none)).1 freed f.1 f.0)
cqi_new-Linked m (some p) block others [] freed k f = absurd (ground (arith, k))
cqi_new-Linked m none block others (q ∷ l) freed k f = absurd (ground (arith, k.0))
cqi_new-Linked m (some p) none others (q ∷ l) freed k f = taken m p q l k
cqi_new-Linked m (some p) (some base) others (q ∷ l) freed k f = taken m p q l k

-- cqi_free puts an item that is not free in front of the free list.
pub cqi_free-Linked :
    (m : CqItems) (freelist : Option ℕ) (x : ℕ) (l : List ℕ)
    → Absent x l
    → Linked m freelist l
    → Linked (cqi_free x (m, freelist)).0 (cqi_free x (m, freelist)).1 (x ∷ l)
unfolding cqi_free
cqi_free-Linked m freelist x l a k = (
  refl,
  subst (λ g. Linked (set_next x freelist m) g l) (sym (set_next_self m x freelist))
      (update-Linked m x _ freelist l a k),
)
