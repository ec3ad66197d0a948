-- ===== src/Items/Crawler/Loop.antt =====
-- The thread of the LRU crawler of memcached-1.4/items.c ends: every crawler comes to the head of its
-- list, however long locks and references keep the items alive.
use native.Mathlib.Decide.{ℕ_discrete}
use mathlib.Core.Path.{subst}
use reading_and_comprehense.Base.{
  ℕ, zero, suc, ◌+◌, ◌<◌, ◌≤◌, ◌≡◌, ◌≢◌, inl, inr, refl, sym, ap, ◌∙◌, true, false, arith, ltb,
  ◌==◌, if◌then◌else◌, Bool-cases, ==_iff,
}
use reading_and_comprehense.Assoc.Chain.{to_nat}
use reading_and_comprehense.Items.{largest_id}
use reading_and_comprehense.Items.Alloc.{Env}
use reading_and_comprehense.Items.Consistent.{count_ptr}
use reading_and_comprehense.Items.Crawler.{Crawl, enabled, crawl_class, crawl_classes, crawl_loop}
use reading_and_comprehense.Items.Crawler.Climb.{Placed, Passed, Outcome, ahead_of}
use reading_and_comprehense.Items.Crawler.Round.{crawl_class-Passed}

-- The enabled crawlers among the classes below `n`.
unfoldable pub tally : Crawl → ℕ → ℕ
tally c zero = 0
tally c (suc n) = to_nat (enabled c n) + tally c n

pub tally-le : (c : Crawl) (n : ℕ) → tally c n ≤ n
unfolding tally
tally-le c zero = omega arith
tally-le c (suc n) = ground (arith, tally-le c n)

tally_none : (c : Crawl) (n i : ℕ) → tally c n ≡ 0 → i < n → enabled c i ≡ false
unfolding tally
tally_none c zero i h lt = absurd (omega arith)
tally_none c (suc n) i h lt = ground (arith, tally_none c n i)

pub tally_same :
    (c c' : Crawl) (n : ℕ) → ((j : ℕ) → j < n → enabled c' j ≡ enabled c j) → tally c' n ≡ tally c n
unfolding tally
tally_same c c' zero same = refl
tally_same c c' (suc n) same =
    ground (arith, same n, tally_same c c' n (λ j lt. same j (omega arith)))

pub tally_off :
    (c c' : Crawl) (n i : ℕ)
    → ((j : ℕ) → j ≢ i → enabled c' j ≡ enabled c j)
    → i < n
    → enabled c i ≡ true
    → enabled c' i ≡ false
    → tally c' n + 1 ≡ tally c n
unfolding tally
tally_off c c' zero i same lt on off = absurd (omega arith)
tally_off c c' (suc n) i same lt on off = elim (Bool-cases (i == n)) [
  | inl e ↦ ground (arith, tally_same c c' n (λ j below. same j (ground arith)))
  | inr ne ↦ ground (arith, same n, tally_off c c' n i same)
]

-- crawler_count counts the enabled crawlers.
pub record Ready (c : Crawl) : Type 0 where
  pub placed : Placed c
  pub counted : c.crawlers.crawler_count ≡ tally c largest_id

pub tally_zero : (c : Crawl) (n : ℕ) → ((i : ℕ) → i < n → enabled c i ≡ false) → tally c n ≡ 0
unfolding tally
tally_zero c zero all_off = refl
tally_zero c (suc n) all_off =
    ground (arith, all_off n, tally_zero c n (λ i lt. all_off i (omega arith)))

-- Each crawler below the class `k` has less than `b` items before it, each other one at most `b`.
abbrev Within : ℕ → ℕ → Crawl → Type 0
Within b k c =
    (i : ℕ) → i < largest_id → enabled c i ≡ true → ahead_of c i < (if ltb i k then b else b + 1)

-- crawler_count is 0, no crawler is enabled and none stands in a list.
abbrev pub Ended : Crawl → Type 0
Ended c =
    (c.crawlers.crawler_count ≡ 0)
    × ((i j : ℕ)
        → i < largest_id
        → (enabled c i ≡ false) × (count_ptr (c.crawlers.crawler i) (c.store.lru j) ≡ 0))

module _ (env : Env) where
  all_same :
      (i : ℕ) (c c' : Crawl)
      → Passed i c c'
      → enabled c' i ≡ enabled c i
      → (j : ℕ) → enabled c' j ≡ enabled c j
  all_same i c c' s e j = elim (ℕ_discrete i j) [
    | yes at_i ↦ subst (λ k. enabled c' k ≡ enabled c k) at_i e
    | no ne ↦ s.same j (λ back. ne (sym back))
  ]

  class-Ready : (i : ℕ) (c : Crawl) → i < largest_id → Ready c → Ready (crawl_class env i c)
  class-Ready i c lt r =
      let c' = crawl_class env i c in
      let s = crawl_class-Passed env i c r.placed in
      record { placed = s.placed; counted = counts c' s s.outcome }
    where
      counts :
          (c' : Crawl)
          → Passed i c c'
          → Outcome i c c'
          → c'.crawlers.crawler_count ≡ tally c' largest_id
      counts c' s (inl (off, off', e)) =
          e
          ∙ r.counted
          ∙ sym (tally_same c c' largest_id (λ j below. all_same i c c' s (off' ∙ sym off) j))
      counts c' s (inr (inl (on, off', e))) = omega (
        arith,
        e,
        r.counted,
        tally-le c largest_id,
        tally_off c c' largest_id i s.same lt on off',
      )
      counts c' s (inr (inr (on, on', _, e))) =
          e
          ∙ r.counted
          ∙ sym (tally_same c c' largest_id (λ j below. all_same i c c' s (on' ∙ sym on) j))

  class-Within :
      (b i : ℕ) (c : Crawl)
      → i < largest_id
      → Ready c
      → Within b i c
      → Within b (i + 1) (crawl_class env i c)
  class-Within b i c lt r near j below on =
      let s = crawl_class-Passed env i c r.placed in
      ground (arith, s.same j, s.no_further j, s.outcome, near j)

  classes-Within :
      (b rounds i : ℕ) (c : Crawl)
      → i + rounds ≡ largest_id
      → Ready c
      → Within b i c
      → Ready (crawl_classes env rounds i c) × Within b largest_id (crawl_classes env rounds i c)
  unfolding crawl_classes
  classes-Within b zero i c e r near = (r, λ j below on. ground (arith, near j))
  classes-Within b (suc rounds) i c e r near =
      classes-Within b rounds (i + 1) (crawl_class env i c) (omega arith)
        (class-Ready i c (omega arith) r) (class-Within b i c (omega arith) r near)

  finished : (c : Crawl) → Ready c → c.crawlers.crawler_count ≡ 0 → Ended c
  finished c r e =
      let off : (i : ℕ) → i < largest_id → enabled c i ≡ false =
        (λ i lt. tally_none c largest_id i (sym r.counted ∙ e) lt) in
      (
        e,
        λ i j lt. (
          off i lt,
          elim (ℕ_discrete i j) [
            | yes same ↦
                subst (λ k. count_ptr (c.crawlers.crawler i) (c.store.lru k) ≡ 0) same
                  (r.placed.mine i ∙ ap to_nat (off i lt))
            | no ne ↦ r.placed.others i j ne
          ],
        ),
      )

  -- With fuel for more passes than there are items before any enabled crawler, the loop of the thread
  -- ends with crawler_count at 0, no crawler enabled and none left in a list.
  pub crawl_loop_ends :
      (fuel : ℕ) (c : Crawl)
      → Ready c
      → ((i : ℕ) → i < largest_id → enabled c i ≡ true → ahead_of c i < fuel)
      → Ended (crawl_loop env fuel c)
  unfolding crawl_loop
  crawl_loop_ends zero c r near = finished c r (
      r.counted
      ∙ tally_zero c largest_id (λ i lt. elim (Bool-cases (enabled c i)) [
        | inl on ↦ absurd (omega (arith, near i lt on))
        | inr off ↦ off
      ]))
  crawl_loop_ends (suc fuel) c r near = elim (Bool-cases (c.crawlers.crawler_count == 0)) [
    | inl e ↦ rw (e, crawl_loop) (finished c r ((==_iff c.crawlers.crawler_count 0).0 e))
    | inr more ↦
        let (r', near') =
          classes-Within fuel largest_id 0 c refl r (λ i lt on. ground (arith, near i)) in
        rw (more, crawl_loop)
          (crawl_loop_ends fuel (crawl_classes env largest_id 0 c) r'
            (λ i lt on. ground (arith, near' i)))
  ]
