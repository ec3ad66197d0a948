-- ===== src/Items.antt =====
-- Items in the cache (memcached-1.4/items.c, with the reference counts of memcached-1.4/thread.c):
-- the LRU list of each class, the hash table, and the operations that link, unlink, free, find and
-- expire items. The LRU list of a class is a list of addresses, its head first.
-- As in the build of the server (-DNDEBUG), assertions are not checked.
pub mod Consistent
pub mod Link
pub mod Unlink
pub mod Remove
pub mod Get
pub mod Update
pub mod Touch
pub mod Alloc
pub mod Queue
pub mod Crawler
pub mod Mover
use reading_and_comprehense.Base.{
  ℕ, zero, suc, ◌+◌, ◌-◌, ◌*◌, ◌%◌, ◌^◌, Bool, true, false, not, ◌&&◌, ◌||◌, Option, none, some,
  List, [], ◌∷◌, ltb, leb, ◌==◌, if◌then◌else◌, update, length,
}
use mathlib.Core.Option
use reading_and_comprehense.Assoc.Chain.{Key}
use reading_and_comprehense.Assoc.{Assoc, assoc_find, assoc_insert, assoc_delete}
use reading_and_comprehense.Memory.{
  Memory, Item, Flags, Settings, set_item, item_ntotal, item_set_cas, add16, sub16, add32, sub32,
  add64, sub64,
}
use reading_and_comprehense.Slabs.{do_slabs_free}
use reading_and_comprehense.Slabs.Reassign.{Rebalance}

-- itemstats_t.
pub record ItemStats : Type 0 where
  pub evicted : ℕ
  pub evicted_nonzero : ℕ
  pub evicted_time : ℕ
  pub reclaimed : ℕ
  pub outofmemory : ℕ
  pub tailrepairs : ℕ
  pub expired_unfetched : ℕ
  pub evicted_unfetched : ℕ
  pub crawler_reclaimed : ℕ
  pub lrutail_reflocked : ℕ

abbrev pub zero_stats : ItemStats
zero_stats = record {
  evicted = 0;
  evicted_nonzero = 0;
  evicted_time = 0;
  reclaimed = 0;
  outofmemory = 0;
  tailrepairs = 0;
  expired_unfetched = 0;
  evicted_unfetched = 0;
  crawler_reclaimed = 0;
  lrutail_reflocked = 0;
}

-- The state behind cache_lock and the item locks. `cas_id` is the static variable of get_cas_id; the
-- three counters are the items' part of `stats`.
pub record Store : Type 0 where
  pub memory : Memory
  pub assoc : Assoc
  pub lru : ℕ → List ℕ
  pub sizes : ℕ → ℕ
  pub itemstats : ℕ → ItemStats
  pub curr_bytes : ℕ
  pub curr_items : ℕ
  pub total_items : ℕ
  pub cas_id : ℕ
  pub settings : Settings
  pub current_time : ℕ
  pub rebalance : Rebalance

-- The item at an address.
abbrev pub item_at : Store → ℕ → Item
item_at st p = st.memory.items p

abbrev pub edit : ℕ → (Item → Item) → Store → Store
edit p f st = record st { memory = set_item p f st.memory }

-- get_cas_id.
unfoldable pub get_cas_id : Store → ℕ × Store
get_cas_id st = let id = add64 st.cas_id 1 in (id, record st { cas_id = id })

unfoldable pub refcount_incr : ℕ → Store → Store
refcount_incr p = edit p (λ it. record it { refcount = add16 it.refcount 1 })

unfoldable pub refcount_decr : ℕ → Store → Store
refcount_decr p = edit p (λ it. record it { refcount = sub16 it.refcount 1 })

unfoldable pub remove_ptr : ℕ → List ℕ → List ℕ
remove_ptr p [] = []
remove_ptr p (x ∷ xs) = if x == p then xs else x ∷ remove_ptr p xs

unfoldable pub item_link_q : ℕ → Store → Store
item_link_q p st =
    let id = (item_at st p).slabs_clsid in
    record st {
      lru = update st.lru id (p ∷ st.lru id);
      sizes = update st.sizes id (add32 (st.sizes id) 1);
    }

unfoldable pub item_unlink_q : ℕ → Store → Store
item_unlink_q p st =
    let id = (item_at st p).slabs_clsid in
    record st {
      lru = update st.lru id (remove_ptr p (st.lru id));
      sizes = update st.sizes id (sub32 (st.sizes id) 1);
    }

-- The first lines of do_item_link.
unfoldable pub mark_linked : ℕ → Store → Store
mark_linked p st =
    let st1 =
      edit p
        (λ it. record it { flags = record (it.flags) { linked = true }; time = st.current_time })
        st in
    record st1 {
      curr_bytes = add64 st1.curr_bytes (item_ntotal (item_at st1 p));
      curr_items = add32 st1.curr_items 1;
      total_items = add32 st1.total_items 1;
    }

-- `ITEM_set_cas(it, (settings.use_cas) ? get_cas_id() : 0)`.
unfoldable pub stamp_cas : ℕ → Store → Store
stamp_cas p st =
    let (id, st1) = get_cas_id st in
    if st.settings.use_cas then edit p (item_set_cas id) st1 else edit p (item_set_cas 0) st

unfoldable pub hash_insert : ℕ → ℕ → Store → Store
hash_insert p hv st = record st { assoc = assoc_insert st.assoc (item_at st p).key p hv }

-- assoc_delete; without the assertion a key that is not found changes nothing.
unfoldable pub hash_delete : ℕ → ℕ → Store → Store
hash_delete p hv st = record st {
  assoc = Option.get_or (assoc_delete st.assoc (item_at st p).key hv) st.assoc;
}

unfoldable pub do_item_link : ℕ → ℕ → Store → Store
do_item_link p hv st =
    refcount_incr p (item_link_q p (hash_insert p hv (stamp_cas p (mark_linked p st))))

unfoldable pub item_free : ℕ → Store → Store
item_free p st =
    let it = item_at st p in
    let st1 = edit p (λ i. record i { slabs_clsid = 0 }) st in
    record st1 { memory = do_slabs_free p (item_ntotal it) it.slabs_clsid st1.memory }

unfoldable pub do_item_remove : ℕ → Store → Store
do_item_remove p st =
    let st1 = refcount_decr p st in if (item_at st1 p).refcount == 0 then item_free p st1 else st1

-- The first lines of do_item_unlink.
unfoldable pub mark_unlinked : ℕ → Store → Store
mark_unlinked p st =
    let st1 = edit p (λ it. record it { flags = record (it.flags) { linked = false } }) st in
    record st1 {
      curr_bytes = sub64 st1.curr_bytes (item_ntotal (item_at st1 p));
      curr_items = sub32 st1.curr_items 1;
    }

-- do_item_unlink and do_item_unlink_nolock, which differ in the locking alone.
unfoldable pub do_item_unlink : ℕ → ℕ → Store → Store
do_item_unlink p hv st =
    if (item_at st p).flags.linked
    then do_item_remove p (item_unlink_q p (hash_delete p hv (mark_unlinked p st)))
    else st

abbrev pub item_update_interval : ℕ
item_update_interval = 60

-- do_item_update and do_item_update_nolock. The difference of the times is unsigned.
unfoldable pub do_item_update : ℕ → Store → Store
do_item_update p st =
    if ltb (item_at st p).time (sub32 st.current_time item_update_interval)
      && (item_at st p).flags.linked
    then item_link_q p (edit p (λ it. record it { time = st.current_time }) (item_unlink_q p st))
    else st

unfoldable pub do_item_replace : ℕ → ℕ → ℕ → Store → Store
do_item_replace p new_p hv st = do_item_link new_p hv (do_item_unlink p hv st)

-- The tests of do_item_get.
abbrev pub in_moving_slab : Store → ℕ → Bool
in_moving_slab st p =
    not (st.rebalance.signal == 0) && leb st.rebalance.slab_start p && ltb p st.rebalance.slab_end

abbrev pub flushed : Store → ℕ → Bool
flushed st p =
    not (st.settings.oldest_live == 0)
    && leb st.settings.oldest_live st.current_time
    && leb (item_at st p).time st.settings.oldest_live

abbrev pub expired : Store → ℕ → Bool
expired st p = not ((item_at st p).exptime == 0) && leb (item_at st p).exptime st.current_time

-- What do_item_get does with the item that it found and referenced.
unfoldable pub keep_or_drop : ℕ → ℕ → Store → Option ℕ × Store
keep_or_drop p hv st =
    if in_moving_slab st p || flushed st p || expired st p
    then (none, do_item_remove p (do_item_unlink p hv st))
    else (some p, edit p (λ it. record it { flags = record (it.flags) { fetched = true } }) st)

unfoldable pub do_item_get : Key → ℕ → Store → Option ℕ × Store
do_item_get key hv st = elim (assoc_find st.assoc key hv) [
  | none ↦ (none, st)
  | some p ↦ keep_or_drop p hv (refcount_incr p st)
]

unfoldable pub do_item_touch : Key → ℕ → ℕ → Store → Option ℕ × Store
do_item_touch key exptime hv st =
    let (found, st1) = do_item_get key hv st in
    elim found [
      | none ↦ (none, st1)
      | some p ↦ (some p, edit p (λ it. record it { exptime = exptime }) st1)
    ]

abbrev pub largest_id : ℕ
largest_id = 200

module _ (hash : Key → ℕ) where
  -- The walk of do_item_flush_expired over the LRU list of one class.
  unfoldable pub flush_list : List ℕ → Store → Store
  flush_list [] st = st
  flush_list (p ∷ ps) st =
      let it = item_at st p in
      let st1 = if it.flags.slabbed then st else do_item_unlink p (hash it.key) st in
      let rest = flush_list ps st1 in
      if not (it.time == 0) && leb st.settings.oldest_live it.time then rest else st

  unfoldable pub flush_classes : ℕ → ℕ → Store → Store
  flush_classes zero i st = st
  flush_classes (suc rounds) i st = flush_classes rounds (i + 1) (flush_list (st.lru i) st)

  unfoldable pub do_item_flush_expired : Store → Store
  do_item_flush_expired st =
      if st.settings.oldest_live == 0 then st else flush_classes largest_id 0 st
