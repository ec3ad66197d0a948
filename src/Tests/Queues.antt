-- ===== src/Tests/Queues.antt =====
-- The theorems on the lists of pointers, the LRU crawler and the page mover, applied to small lists.
use reading_and_comprehense.Base.{
  ℕ, ◌+◌, ◌≡◌, ◌⊎◌, refl, sym, true, false, List, [], ◌∷◌, arith, ◌==◌, if◌then◌else◌, update,
  Bool-cases, inl, inr, ◌∙◌, ◌^◌, ◌-◌, ◌%◌, some, bytes_eq_refl,
}
use reading_and_comprehense.Memory.{no_flags}
use reading_and_comprehense.Items.{Store, edit, remove_ptr, largest_id}
use reading_and_comprehense.Items.Consistent.{count_ptr, Consistent, stored}
use reading_and_comprehense.Items.Queue.{Links, unlink_q, crawler_crawl_q}
use reading_and_comprehense.Items.Queue.Seg.{Shows, IsQueue}
use reading_and_comprehense.Items.Queue.Unlink.{unlink_q-Shows}
use reading_and_comprehense.Items.Queue.Crawl.{crawler_crawl_q-Shows}
use reading_and_comprehense.Items.Crawler.{
  Crawl, item_crawler_thread, start_crawlers, visit, enabled,
}
use reading_and_comprehense.Items.Crawler.Climb.{Placed}
use reading_and_comprehense.Items.Crawler.Loop.{Ready, Ended, tally_zero}
use reading_and_comprehense.Items.Crawler.Request.{start_all-Started}
use reading_and_comprehense.Items.Crawler.Command.{item_crawler_thread-Ended}
use reading_and_comprehense.Items.Crawler.Reclaim.{doomed, Reclaimed, Kept, visit_lem}
use reading_and_comprehense.Items.Mover.{slab_rebalance_move}
use reading_and_comprehense.Items.Mover.Chunk.{copy-Consistent}
use reading_and_comprehense.Items.Mover.Sweep.{Sweeping}
use reading_and_comprehense.Items.Mover.Page.{MoveResult, slab_rebalance_move-MoveResult}
use reading_and_comprehense.Tests.{env, hash, empty_store, empty-Consistent, idle, key_a, fresh_a}
use reading_and_comprehense.Assoc.{assoc_insert}
use reading_and_comprehense.Assoc.Valid.{IsValid, insert-IsValid}
use reading_and_comprehense.Assoc.View.{find-insert}

-- Class 1 lists the items 10, 20 and 30.
abbrev links : Links
links = record {
  heads = λ k. if k == 1 then 10 else 0;
  tails = λ k. if k == 1 then 30 else 0;
  sizes = λ k. if k == 1 then 3 else 0;
  next = λ p. if p == 10 then 20 else if p == 20 then 30 else 0;
  prev = λ p. if p == 30 then 20 else if p == 20 then 10 else 0;
  slabs_clsid = λ _. 1;
}

abbrev lists : ℕ → List ℕ
lists k = if k == 1 then 10 ∷ 20 ∷ 30 ∷ [] else []

links-IsQueue : (k : ℕ) → IsQueue links k (lists k)
links-IsQueue k = elim (Bool-cases (k == 1)) [
  | inl e ↦ rw e (ground arith)
  | inr ne ↦ rw ne (omega arith)
]

links-Shows : Shows links lists
links-Shows = record { queue = links-IsQueue; class = λ k a h. ground arith }

unlink_q-Shows_example :
    Shows (unlink_q 20 links) (update lists 1 (remove_ptr 20 (10 ∷ 20 ∷ 30 ∷ [])))
    × ((k : ℕ)
        → (unlink_q 20 links).sizes k
          ≡ (if 1 == k then (links.sizes k + (2 ^ 32 - 1)) % 2 ^ 32 else links.sizes k))
unlink_q-Shows_example = unlink_q-Shows links 20 lists refl links-Shows

crawler_crawl_q-Shows_example :
    ((crawler_crawl_q 30 links).0 ≡ 20)
    × Shows (crawler_crawl_q 30 links).1 (update lists 1 (10 ∷ 30 ∷ 20 ∷ []))
crawler_crawl_q-Shows_example =
    crawler_crawl_q-Shows links 30 lists (10 ∷ []) 20 [] refl links-Shows

-- The crawlers stand at 1000 and behind it; class 1 lists the item at 200, which is linked, in the table
-- and expired.
abbrev old_store : Store
old_store =
    record (edit 200 (λ it. record it { flags = record no_flags { linked = true }; exptime = 5 })
      empty_store) {
        lru = λ k. if k == 1 then 200 ∷ [] else [];
        assoc = assoc_insert empty_store.assoc key_a 200 (hash key_a);
      }

old-IsValid : IsValid hash old_store.assoc
old-IsValid = insert-IsValid hash empty_store.assoc empty-Consistent.table key_a 200 fresh_a.absent

old_stored : stored hash old_store key_a ≡ some 200
old_stored = find-insert hash empty_store.assoc key_a key_a 200 ∙ rw (bytes_eq_refl key_a) refl

abbrev idle_crawl : Crawl
idle_crawl = record {
  crawlers = record {
    crawler = λ i. 1000 + i;
    remaining = λ _. 0;
    crawler_count = 0;
    lru_crawler_running = false;
  };
  store = old_store;
}

idle_off : (i : ℕ) → enabled idle_crawl i ≡ false
idle_off i = ground arith

idle-Placed : Placed idle_crawl
unfolding count_ptr
idle-Placed = record {
  distinct = λ i j ne. ground arith;
  mine = λ i. ground arith;
  others = λ i j ne. ground arith;
}

idle-Ready : Ready idle_crawl
idle-Ready = record {
  placed = idle-Placed;
  counted = sym (tally_zero idle_crawl largest_id (λ i lt. idle_off i));
}

item_crawler_thread-Ended_example :
    Ended (item_crawler_thread env 3 (start_crawlers (λ _. true) largest_id 0 idle_crawl))
    × ((item_crawler_thread env 3
          (start_crawlers (λ _. true) largest_id 0 idle_crawl)).crawlers.lru_crawler_running
        ≡ false)
item_crawler_thread-Ended_example =
    item_crawler_thread-Ended env 3 (λ _. true) idle_crawl
      (start_crawlers (λ _. true) largest_id 0 idle_crawl) (λ i lt. ground arith)
      (start_all-Started (λ _. true) idle_crawl idle-Ready (λ i lt. idle_off i))

visit_lem_example :
    ((doomed env 200 old_store ≡ true) × Reclaimed hash 1 200 old_store (visit env 1 200 old_store))
    ⊎ ((doomed env 200 old_store ≡ false) × Kept old_store (visit env 1 200 old_store))
visit_lem_example =
    visit_lem env 1 200 old_store (omega arith) refl (omega arith, omega arith) old-IsValid
      old_stored

-- A page of one chunk, at 200.
abbrev moving : Store
moving = record empty_store {
  rebalance = record idle {
    slab_start = 200;
    slab_end = 328;
    slab_pos = 200;
    s_clsid = 1;
    d_clsid = 2;
    signal = 2;
  };
}

moving-Consistent : Consistent hash moving
moving-Consistent = copy-Consistent empty_store moving refl (λ q. refl) refl refl empty-Consistent

moving-Sweeping : Sweeping env moving
moving-Sweeping = record {
  consistent = moving-Consistent;
  marked = λ p h. ground arith;
  narrow = λ p. ground arith;
  sized = omega arith;
  page = omega arith;
  width = omega arith;
  at = 0;
  aligned = omega arith;
  few = omega arith;
  swept = λ none k lt. absurd (omega arith);
}

slab_rebalance_move-MoveResult_example : MoveResult env moving (slab_rebalance_move env 1 moving).1
slab_rebalance_move-MoveResult_example =
    slab_rebalance_move-MoveResult env 1 moving moving-Sweeping (omega arith)
