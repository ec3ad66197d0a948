-- ===== src/Items/Alloc.antt =====
-- do_item_alloc and item_make_header of memcached-1.4/items.c: the size of an item, and the walk up
-- from the tail of the LRU list for an item to reuse or evict.
pub mod Header
pub mod Walk
use reading_and_comprehense.Base.{
  ℕ, zero, suc, ◌+◌, ◌-◌, ◌*◌, ◌%◌, ◌^◌, Bool, true, false, not, ◌&&◌, ◌||◌, Option, none, some,
  List, [], ◌∷◌, ◌++◌, ltb, leb, ◌==◌, if◌then◌else◌, update, length,
}
use mathlib.Core.Option
use reading_and_comprehense.Assoc.Chain.{Key}
use reading_and_comprehense.Memory.{
  Memory, Item, Flags, no_flags, Settings, sizeof_item, cas_size, item_ntotal, add32, add64, sub32,
}
use reading_and_comprehense.Memory.Int.{pos, negsuc}
use reading_and_comprehense.Slabs.{slabs_clsid, do_slabs_alloc, slabs_adjust_mem_requested}
use reading_and_comprehense.Slabs.Reassign.{slabs_reassign}
use reading_and_comprehense.Util.{signed_decimal}
use reading_and_comprehense.Items.{
  Store, ItemStats, item_at, edit, refcount_incr, refcount_decr, do_item_unlink, do_item_update,
}

-- What the operations read of other threads: the hash function set at the start, whether the lock of
-- a hash value and the lock of the page mover are free.
pub record Env : Type 0 where
  pub hash : Key → ℕ
  pub trylock : ℕ → Bool
  pub rebalance_free : Bool

-- The suffix " flags length\r\n" and the size. At most 26 of the 40 bytes of the buffer are used.
unfoldable pub make_suffix : ℕ → ℕ → List ℕ
make_suffix flags nbytes =
    b' ' ∷ (signed_decimal flags ++ (b' ' ∷ (signed_decimal (sub32 nbytes 2) ++ 13 ∷ 10 ∷ [])))

unfoldable pub item_make_header : ℕ → ℕ → ℕ → List ℕ × ℕ
item_make_header nkey flags nbytes =
    let suffix = make_suffix flags nbytes in (suffix, sizeof_item + nkey + length suffix + nbytes)

unfoldable pub total_size : Bool → ℕ → ℕ → ℕ → ℕ
total_size use_cas nkey flags nbytes =
    (item_make_header (nkey + 1) flags nbytes).1 + cas_size use_cas

unfoldable pub item_size_ok : Store → ℕ → ℕ → ℕ → Bool
item_size_ok st nkey flags nbytes =
    not (slabs_clsid st.memory (total_size st.settings.use_cas nkey flags nbytes) == 0)

-- `prev` in a list whose head comes first.
unfoldable pub prev_of : ℕ → List ℕ → Option ℕ
prev_of p [] = none
prev_of p (x ∷ []) = none
prev_of p (x ∷ y ∷ l) = if y == p then some x else prev_of p (y ∷ l)

unfoldable pub tail_of : List ℕ → Option ℕ
tail_of [] = none
tail_of (x ∷ []) = some x
tail_of (x ∷ y ∷ l) = tail_of (y ∷ l)

abbrev pub is_crawler : Item → Bool
is_crawler it =
    it.nbytes == 0
    && length it.key == 0
    && it.flags.linked
    && not it.flags.cas
    && not it.flags.slabbed
    && not it.flags.fetched

abbrev pub expired_or_flushed : Store → Item → Bool
expired_or_flushed st it =
    not (it.exptime == 0) && ltb it.exptime st.current_time
    || leb it.time st.settings.oldest_live && leb st.settings.oldest_live st.current_time

abbrev pub edit_stats : ℕ → (ItemStats → ItemStats) → Store → Store
edit_stats id f st = record st { itemstats = update st.itemstats id (f (st.itemstats id)) }

abbrev pub count_reflocked : ItemStats → ItemStats
count_reflocked s = record s { lrutail_reflocked = add64 s.lrutail_reflocked 1 }

abbrev pub count_repair : ItemStats → ItemStats
count_repair s = record s { tailrepairs = add64 s.tailrepairs 1 }

-- The variables of the loop when it is left, with `it` and `tried_alloc`.
pub record Walked : Type 0 where
  pub it : Option ℕ
  pub tried_alloc : Bool
  pub tries : ℕ
  pub search : Option ℕ
  pub store : Store

pub data Step : Type 0 where
  again : ℕ → ℕ → Store → Step
  stop : Option ℕ → Bool → ℕ → Store → Step

-- The item is taken off the table and the list and its chunk is kept. `none` is the abort of
-- slabs_adjust_mem_requested.
unfoldable pub reuse : ℕ → ℕ → ℕ → Store → Option Store
reuse p hv ntotal st =
    let it = item_at st p in
    Option.map
      (λ m.
        edit p (λ i. record i { slabs_clsid = 0 }) (do_item_unlink p hv (record st { memory = m })))
      (slabs_adjust_mem_requested it.slabs_clsid (item_ntotal it) ntotal st.memory)

module _ (env : Env) (id ntotal cur_hv : ℕ) where
  -- An item that others hold goes to the head of the list; if it has been there too long its leaked
  -- references are repaired.
  unfoldable pub skip_referenced : ℕ → ℕ → ℕ → ℕ → Store → Step
  skip_referenced p hv tries reflocked st =
      let st1 = refcount_decr p (do_item_update p st) in
      let st2 = edit_stats id count_reflocked st1 in
      let stale =
        not (st2.settings.tail_repair_time == 0)
        && ltb (add32 (item_at st2 p).time st2.settings.tail_repair_time) st2.current_time in
      let st3 =
        if stale
        then do_item_unlink p hv
            (edit p (λ it. record it { refcount = 1 }) (edit_stats id count_repair st2))
        else st2 in
      if ltb (reflocked - 1) 1
      then stop none false (tries + 1) st3
      else again tries (reflocked - 1) st3

  unfoldable pub take_expired : ℕ → ℕ → ℕ → Store → Option Step
  take_expired p hv tries st =
      let st1 =
        edit_stats id
          (λ s. record s {
            reclaimed = add64 s.reclaimed 1;
            expired_unfetched =
                if (item_at st p).flags.fetched
                then s.expired_unfetched
                else add64 s.expired_unfetched 1;
          })
          st in
      Option.map (λ st2. stop (some p) false tries (refcount_decr p st2)) (reuse p hv ntotal st1)

  -- The statistics of an eviction.
  unfoldable pub count_eviction : ℕ → Store → Store
  count_eviction p st =
      let it = item_at st p in
      edit_stats id
        (λ s. record s {
          evicted = add64 s.evicted 1;
          evicted_time = sub32 st.current_time it.time;
          evicted_nonzero =
              if it.exptime == 0 then s.evicted_nonzero else add64 s.evicted_nonzero 1;
          evicted_unfetched =
              if it.flags.fetched then s.evicted_unfetched else add64 s.evicted_unfetched 1;
        })
        st

  -- With slab_automove at 2 the class asks for a page of some other class.
  unfoldable pub ask_for_page : Store → Store
  ask_for_page st =
      if st.settings.slab_automove == 2
      then record st {
        rebalance =
            (slabs_reassign env.rebalance_free st.memory (negsuc 0) (pos id) st.rebalance).1;
      }
      else st

  unfoldable pub evict : ℕ → ℕ → ℕ → Store → Option Step
  evict p hv tries st =
      if st.settings.evict_to_free
      then Option.map (λ st1. stop (some p) true tries (refcount_decr p (ask_for_page st1)))
          (reuse p hv ntotal (count_eviction p st))
      else some (
          stop none true tries (
            refcount_decr p
              (edit_stats id (λ s. record s { outofmemory = add64 s.outofmemory 1 }) st)))

  unfoldable pub alloc_or_evict : ℕ → ℕ → ℕ → Store → Option Step
  alloc_or_evict p hv tries st =
      let (chunk, m) = do_slabs_alloc st.settings ntotal id st.memory in
      let st1 = record st { memory = m } in
      elim chunk [
        | some q ↦ some (stop (some q) false tries (refcount_decr p st1))
        | none ↦ evict p hv tries st1
      ]

  -- The body of the loop at the item p, with `tries` and `tries_lrutail_reflocked`.
  unfoldable pub walk_body : ℕ → ℕ → ℕ → Store → Option Step
  walk_body p tries reflocked st =
      let it = item_at st p in
      let hv = env.hash it.key in
      let st1 = refcount_incr p st in
      if is_crawler it
      then some (again tries reflocked st)
      else if hv == cur_hv || not (env.trylock hv)
      then some (again (tries - 1) reflocked st)
      else if not ((item_at st1 p).refcount == 2)
      then some (skip_referenced p hv tries reflocked st1)
      else if expired_or_flushed st1 (item_at st1 p)
      then take_expired p hv tries st1
      else alloc_or_evict p hv tries st1

  -- The loop, with fuel.
  unfoldable pub walk : ℕ → Option ℕ → ℕ → ℕ → Store → Option Walked
  walk zero search tries reflocked st =
      some (record { it = none; tried_alloc = false; tries = tries; search = search; store = st })
  walk (suc fuel) none tries reflocked st =
      some (record { it = none; tried_alloc = false; tries = tries; search = none; store = st })
  walk (suc fuel) (some p) zero reflocked st =
      some (record { it = none; tried_alloc = false; tries = 0; search = some p; store = st })
  walk (suc fuel) (some p) (suc tries) reflocked st = elim (walk_body p (suc tries) reflocked st) [
    | none ↦ none
    | some (again tries' reflocked' st') ↦ walk fuel (prev_of p (st.lru id)) tries' reflocked' st'
    | some (stop it tried tries' st') ↦
        some (record { it = it; tried_alloc = tried; tries = tries'; search = some p; store = st' })
  ]

-- The initialisation of the chunk. The data block is what the chunk held before.
unfoldable pub init_item : ℕ → ℕ → Key → ℕ → ℕ → ℕ → Store → Store
init_item p id key flags exptime nbytes st =
    edit p
      (λ it. record it {
        refcount = 1;
        slabs_clsid = id;
        flags = record no_flags { cas = st.settings.use_cas };
        key = key;
        nbytes = nbytes;
        exptime = exptime;
        suffix = make_suffix flags nbytes;
      })
      st

-- What follows the loop.
unfoldable pub finish_alloc : ℕ → ℕ → Key → ℕ → ℕ → ℕ → Walked → Option ℕ × Store
finish_alloc id ntotal key flags exptime nbytes w =
    let no_search : Bool = elim w.search [ none ↦ true | some _ ↦ false ] in
    let last = not w.tried_alloc && (w.tries == 0 || no_search) in
    let (chunk, m) = do_slabs_alloc w.store.settings ntotal id w.store.memory in
    let it = if last then chunk else w.it in
    let st = if last then record w.store { memory = m } else w.store in
    elim it [
      | none ↦ (none, edit_stats id (λ s. record s { outofmemory = add64 s.outofmemory 1 }) st)
      | some p ↦ (some p, init_item p id key flags exptime nbytes st)
    ]

abbrev pub max_tries : ℕ
max_tries = 5

abbrev pub max_reflocked : ℕ
max_reflocked = 1000

-- `none` is the abort. A walk makes a step at most 5 times for a busy lock, 1000 times for a
-- referenced item and once for each crawler that stands in the list.
unfoldable pub do_item_alloc : Env → Key → ℕ → ℕ → ℕ → ℕ → Store → Option (Option ℕ × Store)
do_item_alloc env key flags exptime nbytes cur_hv st =
    let ntotal = total_size st.settings.use_cas (length key) flags nbytes in
    let id = slabs_clsid st.memory ntotal in
    let fuel = max_tries + max_reflocked + length (st.lru id) + 1 in
    if id == 0
    then some (none, st)
    else Option.map (finish_alloc id ntotal key flags exptime nbytes)
        (walk env id ntotal cur_hv fuel (tail_of (st.lru id)) max_tries max_reflocked st)
