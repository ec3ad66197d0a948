-- ===== src/Items/Crawler/Command.antt =====
-- The answers of lru_crawler_crawl of memcached-1.4/items.c, and the run of the crawler that follows.
use reading_and_comprehense.Base.{
  ℕ, ◌+◌, ◌<◌, ◌≤◌, ◌≡◌, ◌⊎◌, refl, Bool, true, false, ◌&&◌, ◌||◌, none, some, List, [], ◌∷◌, arith,
  leb, ◌==◌, length, bytes_eq, length-append,
}
use reading_and_comprehense.Slabs.{power_smallest, power_max}
use reading_and_comprehense.Util.{safe_strtoul}
use reading_and_comprehense.Items.{largest_id}
use reading_and_comprehense.Items.Alloc.{Env}
use reading_and_comprehense.Items.Crawler.{
  Crawl, CrawlerResult, split_commas, item_crawler_thread, w_all,
}
use reading_and_comprehense.Items.Crawler.Climb.{ahead}
use reading_and_comprehense.Items.Crawler.Loop.{Ended, crawl_loop_ends}
use reading_and_comprehense.Items.Crawler.Request.{Started}

-- The words that name a class number, and whether one names the class `sid`.
unfoldable pub all_classes : List (List ℕ) → Bool
all_classes [] = true
all_classes (w ∷ ws) =
    (elim (safe_strtoul w) [ none ↦ false | some n ↦ leb power_smallest n && leb n power_max ])
    && all_classes ws

unfoldable pub named : List (List ℕ) → ℕ → Bool
named [] sid = false
named (w ∷ ws) sid = (elim (safe_strtoul w) [ none ↦ false | some n ↦ n == sid ]) || named ws sid

abbrev pub running : Crawl → Crawl
running c = record c { crawlers = record (c.crawlers) { lru_crawler_running = true } }

-- The answers: BUSY while the thread runs and BADCLASS change nothing; otherwise a crawler starts
-- behind each list that is asked for, or whose entry of the array was set before.
pub data Requested (lock_free : Bool) (tocrawl : ℕ → Bool) (slabs : List ℕ) (c : Crawl)
    : CrawlerResult × Crawl → Type 0 where
  busy : lock_free ≡ false → Requested lock_free tocrawl slabs c (CrawlerResult.crawler_running, c)
  bad :
      lock_free ≡ true
      → bytes_eq slabs w_all ≡ false
      → all_classes (split_commas [] slabs) ≡ false
      → Requested lock_free tocrawl slabs c (CrawlerResult.crawler_badclass, c)
  accepted :
      {c' : Crawl}
      → (marks : ℕ → Bool) → lock_free ≡ true
      → ((bytes_eq slabs w_all ≡ true) ⊎ (all_classes (split_commas [] slabs) ≡ true))
      → ((sid : ℕ)
          → sid < largest_id
          → marks sid
            ≡ (bytes_eq slabs w_all || (tocrawl sid || named (split_commas [] slabs) sid)))
      → Started marks 0 c c'
      → Requested lock_free tocrawl slabs c (CrawlerResult.crawler_ok, c')

-- The crawl that an accepted request starts ends: with fuel beyond the length of every list no crawler
-- is left.
ahead-le-length : (p : ℕ) (xs : List ℕ) → ahead p xs ≤ length xs
unfolding ahead
ahead-le-length p [] = omega arith
ahead-le-length p (x ∷ xs) = ground (arith, ahead-le-length p xs)

module _ (env : Env) (fuel : ℕ) (marks : ℕ → Bool) (c c' : Crawl)
    (short : (i : ℕ) → i < largest_id → length (c.store.lru i) + 1 < fuel) where
  -- The crawl that a request starts ends: with fuel for more passes than any list has items, and one
  -- more for each crawler, crawler_count comes down to 0, no crawler is enabled or in a list, and the
  -- thread reports that it sleeps.
  pub item_crawler_thread-Ended :
      Started marks 0 c c'
      → Ended (item_crawler_thread env fuel c')
        × ((item_crawler_thread env fuel c').crawlers.lru_crawler_running ≡ false)
  unfolding item_crawler_thread
  item_crawler_thread-Ended s =
      let ended = crawl_loop_ends env fuel c' s.ready (λ i lt on. ground (
        arith,
        s.lists i lt,
        short i lt,
        ahead-le-length (c'.crawlers.crawler i) (c'.store.lru i),
        length-append (c.store.lru i) (c.crawlers.crawler i ∷ []),
      )) in
      (ended, refl)
