-- ===== src/Items/Crawler/Round.antt =====
-- crawl_class keeps the crawlers in their places: the cases of a round of the LRU crawler of
-- memcached-1.4/items.c.
use reading_and_comprehense.Base.{
  ℕ, ◌+◌, ◌-◌, ◌<◌, ◌≤◌, ◌≡◌, ◌≢◌, inl, inr, refl, sym, ap, ◌∙◌, true, Option, List, arith,
  Bool-cases, update,
}
use reading_and_comprehense.Assoc.Chain.{to_nat}
use reading_and_comprehense.Items.{item_at, remove_ptr}
use reading_and_comprehense.Items.Alloc.{Env}
use reading_and_comprehense.Items.Consistent.{count_ptr, count_ptr-remove}
use reading_and_comprehense.Items.Crawler.{
  Crawl, enabled, crawl_list, visit, retire, crawl_found, crawl_class, set_lru, spent,
}
use reading_and_comprehense.Items.Crawler.Climb.{
  ahead, ahead-remove, count-remove_other, Crawled, done, moved, crawl_list-Crawled, visit-lru,
  visit-others, Placed, Passed,
}

module _ (i : ℕ) (c : Crawl) (w : Placed c) (rem : ℕ → ℕ) (xs : List ℕ)
    (same : (q : ℕ) → q ≢ c.crawlers.crawler i → count_ptr q xs ≡ count_ptr q (c.store.lru i)) where
  abbrev p : ℕ
  p = c.crawlers.crawler i

  -- The state in which the crawler has moved in its list.
  abbrev at_xs : Crawl
  at_xs = record {
    crawlers = record (c.crawlers) { remaining = rem };
    store = set_lru i xs c.store;
  }

  retire-Passed :
      enabled c i ≡ true → count_ptr p (remove_ptr p xs) ≡ 0 → Passed i c (retire i at_xs)
  unfolding retire
  retire-Passed on gone = record {
    array = λ j. refl;
    same = λ j ne. ground (arith, w.distinct i j);
    no_further = λ j ne. ground arith;
    outcome = inr (inl (on, ground arith, refl));
    placed = record {
      distinct = w.distinct;
      mine = λ j. ground (arith, w.mine j, w.distinct i j);
      others = λ j k ne. ground (
        arith,
        w.others j k,
        w.distinct i j,
        count-remove_other (c.crawlers.crawler j) p xs,
        same (c.crawlers.crawler j),
      );
    };
  }

  visit-Passed :
      (env : Env) (x : ℕ)
      → enabled c i ≡ true
      → x ≢ p
      → 0 < count_ptr x (c.store.lru i)
      → ahead p xs + 1 ≡ ahead p (c.store.lru i)
      → count_ptr p xs ≡ count_ptr p (c.store.lru i)
      → Passed i c (record at_xs { store = visit env i x at_xs.store })
  visit-Passed env x on other here up once =
      let st' = visit env i x at_xs.store in
      let apart : (j : ℕ) → x ≢ c.crawlers.crawler j = (λ j. ground (arith, w.others j i)) in
      let items : (j : ℕ)
          → item_at st' (c.crawlers.crawler j) ≡ item_at c.store (c.crawlers.crawler j) =
        (λ j. visit-others env i x at_xs.store (c.crawlers.crawler j) (λ e. apart j (sym e))) in
      let flags : (j : ℕ) → enabled (record at_xs { store = st' }) j ≡ enabled c j =
        (λ j. rw (items j) refl) in
      let counts : (j k : ℕ)
          → count_ptr (c.crawlers.crawler j) (st'.lru k)
            ≡ count_ptr (c.crawlers.crawler j) (at_xs.store.lru k) =
        (λ j k. ground (
          arith,
          visit-lru env i x at_xs.store k,
          count-remove_other (c.crawlers.crawler j) x (at_xs.store.lru k),
          apart j,
        )) in
      let aheads : (j : ℕ)
          → ahead (c.crawlers.crawler j) (st'.lru j)
            ≤ ahead (c.crawlers.crawler j) (at_xs.store.lru j) =
        (λ j. ground (
          arith,
          visit-lru env i x at_xs.store j,
          ahead-remove (c.crawlers.crawler j) x (at_xs.store.lru j),
          apart j,
        )) in
      record {
        array = λ j. refl;
        same = λ j ne. flags j;
        no_further = λ j ne. ground (arith, aheads j);
        outcome = inr (inr (on, flags i ∙ on, ground (arith, aheads i), refl));
        placed = record {
          distinct = w.distinct;
          mine = λ j.
              counts j j
              ∙ (ground (arith, w.mine j, same (c.crawlers.crawler j), once)
                  ∙ ap to_nat (sym (flags j)));
          others = λ j k ne.
              counts j k
              ∙ ground (arith, w.others j k, same (c.crawlers.crawler j), w.distinct i j);
        };
      }

module _ (env : Env) (i : ℕ) (c : Crawl) (w : Placed c) where
  found-Passed :
      (r : Option ℕ × List ℕ)
      → enabled c i ≡ true
      → Crawled (c.crawlers.crawler i) (c.store.lru i) r
      → Passed i c (crawl_found env i c r)
  unfolding crawl_found
  found-Passed _ on (done {ys = xs} gone same) =
      retire-Passed i c w c.crawlers.remaining xs same on gone
  found-Passed _ on (moved {x} {ys = xs} other here up same) =
      let left = c.crawlers.remaining i in
      let rem = update c.crawlers.remaining i (left - 1) in
      let p' = c.crawlers.crawler i in
      elim (Bool-cases (spent left)) [
        | inl e ↦ rw e (
            retire-Passed i c w rem xs (λ q ne. same q) on
              (ground (arith, w.mine i, same p', count_ptr-remove p' p' xs)))
        | inr e ↦ rw e (visit-Passed i c w rem xs (λ q ne. same q) env x on other here up (same p'))
      ]

  -- One round for a class moves its crawler nearer to the head or takes it out of the list; no other
  -- crawler is enabled, disabled or set back, and all stay in their places.
  pub crawl_class-Passed : Passed i c (crawl_class env i c)
  unfolding crawl_class
  crawl_class-Passed = elim (Bool-cases (enabled c i)) [
    | inl on ↦ rw on (
        found-Passed (crawl_list (c.crawlers.crawler i) (c.store.lru i)) on
          (crawl_list-Crawled (c.crawlers.crawler i) (c.store.lru i) (w.mine i ∙ ap to_nat on)))
    | inr off ↦ rw off (record {
      array = λ j. refl;
      same = λ j ne. refl;
      no_further = λ j ne. omega arith;
      outcome = inl (off, off, refl);
      placed = w;
    })
  ]
