-- ===== src/Items/Crawler.antt =====
-- The LRU crawler of memcached-1.4/items.c: its thread, which lets a pseudo item climb through the LRU
-- list of a class and drops the expired items that it meets, and the request that starts it. The
-- pointers of the lists are in Items.Queue. The thread holds lru_crawler_lock while it runs, so a
-- request starts only when no crawler is left.
pub mod Climb
pub mod Round
pub mod Loop
pub mod Request
pub mod Command
pub mod Drop
pub mod Reclaim
use reading_and_comprehense.Base.{
  ℕ, zero, suc, ◌+◌, ◌-◌, ◌%◌, ◌^◌, Bool, true, false, not, ◌&&◌, ◌||◌, Option, none, some, List,
  [], ◌∷◌, ◌++◌, ltb, leb, ◌==◌, if◌then◌else◌, update, bytes_eq,
}
use reading_and_comprehense.Memory.{Item, Flags, no_flags, add64, sub32, add32}
use reading_and_comprehense.Util.{safe_strtoul}
use reading_and_comprehense.Slabs.{power_smallest, power_max}
use reading_and_comprehense.Items.{
  Store, ItemStats, item_at, edit, refcount_incr, refcount_decr, remove_ptr, do_item_unlink,
  do_item_remove, largest_id,
}
use reading_and_comprehense.Items.Alloc.{Env, expired_or_flushed, edit_stats}

-- The array of crawlers, with the address of each, and the static variables about the thread. The
-- item part of a crawler is in the memory of the store.
pub record Crawlers : Type 0 where
  pub crawler : ℕ → ℕ
  pub remaining : ℕ → ℕ
  pub crawler_count : ℕ
  pub lru_crawler_running : Bool

pub record Crawl : Type 0 where
  pub crawlers : Crawlers
  pub store : Store

-- it_flags == 1.
abbrev pub enabled : Crawl → ℕ → Bool
enabled c i =
    let f = (item_at c.store (c.crawlers.crawler i)).flags in
    f.linked && not f.cas && not f.slabbed && not f.fetched

-- crawler_crawl_q on a list of addresses; an only crawler stays.
unfoldable pub crawl_list : ℕ → List ℕ → Option ℕ × List ℕ
crawl_list p [] = (none, [])
crawl_list p (x ∷ []) = (none, x ∷ [])
crawl_list p (x ∷ y ∷ xs) =
    let (found, rest) = crawl_list p (y ∷ xs) in
    if x == p then (none, y ∷ xs) else if y == p then (some x, p ∷ x ∷ xs) else (found, x ∷ rest)

abbrev pub set_lru : ℕ → List ℕ → Store → Store
set_lru i xs st = record st { lru = update st.lru i xs }

unfoldable pub item_crawler_evaluate : ℕ → ℕ → ℕ → Store → Store
item_crawler_evaluate search hv i st =
    let it = item_at st search in
    if expired_or_flushed st it
    then do_item_remove search (
        do_item_unlink search hv (
          edit_stats i
            (λ s. record s {
              crawler_reclaimed = add64 s.crawler_reclaimed 1;
              expired_unfetched =
                  if it.flags.fetched then s.expired_unfetched else add64 s.expired_unfetched 1;
            })
            st))
    else refcount_decr search st

-- The crawler of a class is done.
unfoldable pub retire : ℕ → Crawl → Crawl
retire i c =
    let p = c.crawlers.crawler i in
    let st = edit p (λ it. record it { flags = no_flags }) c.store in
    record {
      crawlers = record (c.crawlers) { crawler_count = sub32 c.crawlers.crawler_count 1 };
      store = set_lru i (remove_ptr p (st.lru i)) st;
    }

-- What the thread does with the item that it has come to.
unfoldable pub visit : Env → ℕ → ℕ → Store → Store
visit env i search st =
    let hv = env.hash (item_at st search).key in
    let st1 = refcount_incr search st in
    if not (env.trylock hv)
    then st
    else if not ((item_at st1 search).refcount == 2)
    then refcount_decr search st1
    else item_crawler_evaluate search hv i st1

-- `crawlers[i].remaining && --crawlers[i].remaining < 1`.
abbrev pub spent : ℕ → Bool
spent remaining = not (remaining == 0) && ltb (remaining - 1) 1

-- What follows crawler_crawl_q in the inner loop, with the item that was found and the list.
unfoldable pub crawl_found : Env → ℕ → Crawl → Option ℕ × List ℕ → Crawl
crawl_found env i c (none, xs) = retire i (record c { store = set_lru i xs c.store })
crawl_found env i c (some p, xs) =
    let left = c.crawlers.remaining i in
    let c1 : Crawl = record {
      crawlers = record (c.crawlers) { remaining = update c.crawlers.remaining i (left - 1) };
      store = set_lru i xs c.store;
    } in
    if spent left then retire i c1 else record c1 { store = visit env i p c1.store }

-- One round of the inner loop of item_crawler_thread.
unfoldable pub crawl_class : Env → ℕ → Crawl → Crawl
crawl_class env i c =
    if enabled c i
    then crawl_found env i c (crawl_list (c.crawlers.crawler i) (c.store.lru i))
    else c

-- The inner loop, over the classes from `i` on.
unfoldable pub crawl_classes : Env → ℕ → ℕ → Crawl → Crawl
crawl_classes env zero i c = c
crawl_classes env (suc rounds) i c = crawl_classes env rounds (i + 1) (crawl_class env i c)

-- `while (crawler_count)`, with fuel.
unfoldable pub crawl_loop : Env → ℕ → Crawl → Crawl
crawl_loop env zero c = c
crawl_loop env (suc fuel) c = elim (c.crawlers.crawler_count == 0) [
  | true ↦ c
  | false ↦ crawl_loop env fuel (crawl_classes env largest_id 0 c)
]

-- What item_crawler_thread does when it is woken.
unfoldable pub item_crawler_thread : Env → ℕ → Crawl → Crawl
item_crawler_thread env fuel c =
    let c1 = crawl_loop env fuel c in
    record c1 { crawlers = record (c1.crawlers) { lru_crawler_running = false } }

-- enum crawler_result_type.
pub data CrawlerResult : Type 0 where
  crawler_ok crawler_running crawler_badclass : CrawlerResult

-- The tokens of strtok_r(slabs, ","): the runs of other characters. `w` is the run before `s`.
unfoldable pub split_commas : List ℕ → List ℕ → List (List ℕ)
split_commas [] [] = []
split_commas (x ∷ w) [] = (x ∷ w) ∷ []
split_commas [] (c ∷ s) = split_commas (if c == b',' then [] else c ∷ []) s
split_commas (x ∷ w) (c ∷ s) = elim (c == b',') [
  | true ↦ (x ∷ w) ∷ split_commas [] s
  | false ↦ split_commas ((x ∷ w) ++ c ∷ []) s
]

-- `none` is a bad class.
unfoldable pub mark_classes : List (List ℕ) → (ℕ → Bool) → Option (ℕ → Bool)
mark_classes [] tocrawl = some tocrawl
mark_classes (p ∷ ps) tocrawl = elim (safe_strtoul p) [
  | none ↦ none
  | some sid ↦
      let rest = mark_classes ps (update tocrawl sid true) in
      if ltb sid power_smallest || ltb power_max sid then none else rest
]

-- The crawler of a class enters its list at the tail.
unfoldable pub start_crawler : ℕ → Crawl → Crawl
start_crawler sid c =
    let p = c.crawlers.crawler sid in
    let st =
      edit p
        (λ it. record it {
          nbytes = 0;
          key = [];
          flags = record no_flags { linked = true };
          time = 0;
          slabs_clsid = sid;
        })
        c.store in
    record {
      crawlers = record (c.crawlers) {
        remaining = update c.crawlers.remaining sid c.store.settings.lru_crawler_tocrawl;
        crawler_count = add32 c.crawlers.crawler_count 1;
      };
      store = set_lru sid (st.lru sid ++ p ∷ []) st;
    }

abbrev pub is_empty : List ℕ → Bool
is_empty [] = true
is_empty (x ∷ xs) = false

-- The last loop of lru_crawler_crawl, over the classes from `sid` on.
unfoldable pub start_crawlers : (ℕ → Bool) → ℕ → ℕ → Crawl → Crawl
start_crawlers tocrawl zero sid c = c
start_crawlers tocrawl (suc rounds) sid c =
    start_crawlers tocrawl rounds (sid + 1)
      (if tocrawl sid && not (is_empty (c.store.lru sid)) then start_crawler sid c else c)

abbrev pub w_all : List ℕ
w_all = b'a' ∷ b'l' ∷ b'l' ∷ []

-- `lock_free` is whether the trylock succeeds, `tocrawl` what the array holds before it is written.
unfoldable pub lru_crawler_crawl : Bool → (ℕ → Bool) → List ℕ → Crawl → CrawlerResult × Crawl
lru_crawler_crawl lock_free tocrawl slabs c =
    let marked : Option (ℕ → Bool) =
      if bytes_eq slabs w_all
      then some (λ sid. ltb sid largest_id || tocrawl sid)
      else mark_classes (split_commas [] slabs) tocrawl in
    if not lock_free then (CrawlerResult.crawler_running, c) else elim marked [
      | none ↦ (CrawlerResult.crawler_badclass, c)
      | some marks ↦
          let c1 = start_crawlers marks largest_id 0 c in
          (
            CrawlerResult.crawler_ok,
            record c1 { crawlers = record (c1.crawlers) { lru_crawler_running = true } },
          )
    ]
