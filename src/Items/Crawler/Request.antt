-- ===== src/Items/Crawler/Request.antt =====
-- lru_crawler_crawl of memcached-1.4/items.c puts a crawler behind each list that is asked for.
use mathlib.Core.Path.{subst}
use reading_and_comprehense.Base.{
  ℕ, zero, suc, ◌+◌, ◌<◌, ◌≤◌, ◌≡◌, ◌≢◌, inl, inr, refl, ◌∙◌, Bool, true, false, not, ◌&&◌, List,
  [], ◌∷◌, ◌++◌, arith, leb, ◌==◌, if◌then◌else◌, Bool-cases,
}
use reading_and_comprehense.Assoc.Chain.{to_nat}
use reading_and_comprehense.Memory.{add32}
use reading_and_comprehense.Items.{largest_id, item_at}
use reading_and_comprehense.Items.Consistent.{count_ptr}
use reading_and_comprehense.Items.Crawler.{Crawl, enabled, start_crawler, start_crawlers, is_empty}
use reading_and_comprehense.Items.Crawler.Climb.{Placed}
use reading_and_comprehense.Items.Crawler.Loop.{Ready, tally, tally-le, tally_off}

count-append : (p : ℕ) (xs ys : List ℕ) → count_ptr p (xs ++ ys) ≡ count_ptr p xs + count_ptr p ys
unfolding count_ptr
count-append p [] ys = omega arith
count-append p (x ∷ xs) ys = omega (arith, count-append p xs ys)

count_single : (p x : ℕ) → count_ptr p (x ∷ []) ≡ to_nat (x == p)
unfolding count_ptr
count_single p x = omega arith

module _ (sid : ℕ) (c : Crawl) where
  abbrev c' : Crawl
  c' = start_crawler sid c

  start_lru :
      (j : ℕ)
      → c'.store.lru j
        ≡ (if sid == j then c.store.lru j ++ c.crawlers.crawler j ∷ [] else c.store.lru j)
  unfolding start_crawler
  start_lru j = ground arith

  start_array : (j : ℕ) → c'.crawlers.crawler j ≡ c.crawlers.crawler j
  unfolding start_crawler
  start_array j = refl

  start_items : (p : ℕ) → p ≢ c.crawlers.crawler sid → item_at c'.store p ≡ item_at c.store p
  unfolding start_crawler
  start_items p ne = ground arith

  start_enabled : Placed c → (j : ℕ) → enabled c' j ≡ (if sid == j then true else enabled c j)
  unfolding start_crawler
  start_enabled w j = ground (arith, w.distinct sid j)

  start_count : c'.crawlers.crawler_count ≡ add32 c.crawlers.crawler_count 1
  unfolding start_crawler
  start_count = refl

  counted_at :
      (j k : ℕ)
      → count_ptr (c'.crawlers.crawler j) (c'.store.lru k)
        ≡ count_ptr (c.crawlers.crawler j) (c.store.lru k)
          + (if sid == k then to_nat (c.crawlers.crawler k == c.crawlers.crawler j) else 0)
  counted_at j k =
      rw (start_array j, start_lru k)
        (ground (
          arith,
          count-append (c.crawlers.crawler j) (c.store.lru k) (c.crawlers.crawler k ∷ []),
          count_single (c.crawlers.crawler j) (c.crawlers.crawler k),
        ))

  start-Placed : Placed c → enabled c sid ≡ false → Placed c'
  unfolding start_crawler
  start-Placed w off = record {
    distinct = λ i j ne. w.distinct i j ne;
    mine = λ j. rw (start_enabled w j) (ground (arith, counted_at j j, w.mine j));
    others = λ j k ne. ground (arith, counted_at j k, w.others j k, w.distinct j k);
  }

  start-Ready :
      Placed c
      → enabled c sid ≡ false
      → sid < largest_id
      → c.crawlers.crawler_count ≡ tally c largest_id
      → Ready c'
  start-Ready w off lt e = record {
    placed = start-Placed w off;
    counted = ground (
      arith,
      start_count,
      tally-le c largest_id,
      tally_off c' c largest_id sid (λ j ne. ground (arith, start_enabled w j)) lt
          (ground (arith, start_enabled w sid)) off,
    );
  }

-- Behind which lists a request puts its crawlers.
abbrev pub wanted : (ℕ → Bool) → Crawl → ℕ → Bool
wanted marks c i = marks i && not (is_empty (c.store.lru i))

-- The crawlers of the classes from `sid` on are started as wanted.
pub record Started (marks : ℕ → Bool) (sid : ℕ) (c c' : Crawl) : Type 0 where
  pub ready : Ready c'
  pub array : (i : ℕ) → c'.crawlers.crawler i ≡ c.crawlers.crawler i
  pub enables :
      (i : ℕ)
      → i < largest_id
      → enabled c' i ≡ (if leb sid i && wanted marks c i then true else enabled c i)
  pub lists :
      (i : ℕ)
      → i < largest_id
      → c'.store.lru i ≡ (
          if leb sid i && wanted marks c i
          then c.store.lru i ++ c.crawlers.crawler i ∷ []
          else c.store.lru i)
  pub items :
      (p : ℕ) → ((i : ℕ) → p ≢ c.crawlers.crawler i) → item_at c'.store p ≡ item_at c.store p

module _ (marks : ℕ → Bool) (sid : ℕ) (c c2 : Crawl) where
  skip-Started : wanted marks c sid ≡ false → Started marks (sid + 1) c c2 → Started marks sid c c2
  skip-Started no_want s =
      let here : (i : ℕ) → sid ≡ i → wanted marks c i ≡ false =
        (λ i e. subst (λ k. wanted marks c k ≡ false) e no_want) in
      record {
        ready = s.ready;
        array = s.array;
        enables = λ i lt. ground (arith, s.enables i lt, here i);
        lists = λ i lt. ground (arith, s.lists i lt, here i);
        items = s.items;
      }

  next-Started :
      Placed c
      → wanted marks c sid ≡ true
      → Started marks (sid + 1) (start_crawler sid c) c2
      → Started marks sid c c2
  next-Started w want s =
      let here : (i : ℕ) → sid ≡ i → wanted marks c i ≡ true =
        (λ i e. subst (λ k. wanted marks c k ≡ true) e want) in
      let there : (i : ℕ) → sid ≢ i → (start_crawler sid c).store.lru i ≡ c.store.lru i =
        (λ i ne. ground (arith, start_lru sid c i)) in
      record {
        ready = s.ready;
        array = λ i. s.array i ∙ start_array sid c i;
        enables = λ i lt. ground (arith, s.enables i lt, here i, there i, start_enabled sid c w i);
        lists = λ i lt.
            ground (arith, s.lists i lt, here i, there i, start_lru sid c i, start_array sid c i);
        items = λ p apart.
            s.items p (λ i. rw (start_array sid c i) (apart i)) ∙ start_items sid c p (apart sid);
      }

start_crawlers-Started :
    (marks : ℕ → Bool) (rounds sid : ℕ) (c : Crawl)
    → sid + rounds ≡ largest_id
    → Ready c
    → ((i : ℕ) → sid ≤ i → i < largest_id → enabled c i ≡ false)
    → Started marks sid c (start_crawlers marks rounds sid c)
unfolding start_crawlers
start_crawlers-Started marks zero sid c e r off = record {
  ready = r;
  array = λ i. refl;
  enables = λ i lt. ground arith;
  lists = λ i lt. ground arith;
  items = λ p ne. refl;
}
start_crawlers-Started marks (suc rounds) sid c e r off = elim (Bool-cases (wanted marks c sid)) [
  | inl want ↦ rw want (
      next-Started marks sid c _ r.placed want (
        start_crawlers-Started marks rounds (sid + 1) (start_crawler sid c) (omega arith)
          (start-Ready sid c r.placed (off sid (omega arith) (omega arith)) (omega arith) r.counted)
          (λ i le lt. ground (arith, start_enabled sid c r.placed i, off i))))
  | inr no_want ↦ rw no_want (
      skip-Started marks sid c _ no_want (
        start_crawlers-Started marks rounds (sid + 1) c (omega arith) r
          (λ i le lt. off i (omega arith) lt)))
]

pub start_all-Started :
    (marks : ℕ → Bool) (c : Crawl)
    → Ready c
    → ((i : ℕ) → i < largest_id → enabled c i ≡ false)
    → Started marks 0 c (start_crawlers marks largest_id 0 c)
start_all-Started marks c r off =
    start_crawlers-Started marks largest_id 0 c refl r (λ i le lt. off i lt)
