-- ===== src/Items/Crawler/Reclaim.antt =====
-- What the LRU crawler of memcached-1.4/items.c does with the item that it has come to.
use reading_and_comprehense.Base.{
  ℕ, ◌+◌, ◌^◌, ◌<◌, ◌≡◌, ◌≢◌, ◌⊎◌, inl, inr, refl, sym, none, some, bytes_eq, ◌∙◌, Bool, true,
  false, ◌&&◌, ◌∷◌, arith, ◌==◌, if◌then◌else◌, Bool-cases,
}
use reading_and_comprehense.Assoc.Chain.{Key}
use reading_and_comprehense.Assoc.Valid.{IsValid}
use reading_and_comprehense.Items.Consistent.{stored}
use reading_and_comprehense.Memory.{add64}
use reading_and_comprehense.Slabs.Alloc.{IsClass}
use reading_and_comprehense.Items.{
  Store, item_at, remove_ptr, refcount_incr, refcount_decr, do_item_remove, do_item_unlink,
}
use reading_and_comprehense.Items.Alloc.{Env, expired_or_flushed, edit_stats}
use reading_and_comprehense.Items.Crawler.{visit, item_crawler_evaluate}
use reading_and_comprehense.Items.Crawler.Drop.{drop-Dropped}

-- The tests that let the crawler drop an item: the lock of its key is free, nobody but the table holds
-- it, and it is expired or flushed.
abbrev pub doomed : Env → ℕ → Store → Bool
doomed env x st =
    env.trylock (env.hash (item_at st x).key)
    && (item_at st x).refcount == 1
    && expired_or_flushed st (item_at st x)

-- What a visit leaves of an item that it does not drop: everything.
pub record Kept (st st' : Store) : Type 0 where
  pub items : (q : ℕ) → item_at st' q ≡ item_at st q
  pub lru : (k : ℕ) → st'.lru k ≡ st.lru k
  pub assoc : st'.assoc ≡ st.assoc
  pub classes : (k : ℕ) → st'.memory.slabclass k ≡ st.memory.slabclass k
  pub stats : (k : ℕ) → st'.itemstats k ≡ st.itemstats k

pub record Reclaimed (hash : Key → ℕ) (i x : ℕ) (st st' : Store) : Type 0 where
  pub unlinked : (item_at st' x).flags.linked ≡ false
  pub unused : (item_at st' x).refcount ≡ 0
  pub slabbed : (item_at st' x).flags.slabbed ≡ true
  pub slots :
      (st'.memory.slabclass (item_at st x).slabs_clsid).slots
      ≡ x ∷ (st.memory.slabclass (item_at st x).slabs_clsid).slots
  pub list : st'.lru (item_at st x).slabs_clsid ≡ remove_ptr x (st.lru (item_at st x).slabs_clsid)
  pub counted : (st'.itemstats i).crawler_reclaimed ≡ add64 (st.itemstats i).crawler_reclaimed 1
  pub others : (q : ℕ) → q ≢ x → item_at st' q ≡ item_at st q
  pub table :
      (q : Key)
      → stored hash st' q ≡ (if bytes_eq (item_at st x).key q then none else stored hash st q)
  pub valid : IsValid hash st'.assoc

module _ (env : Env) (i x : ℕ) (st : Store) (narrow : (item_at st x).refcount + 1 < 2 ^ 16) where
  abbrev held_st : Store
  held_st = refcount_incr x st

  abbrev counted_st : Store
  counted_st =
      edit_stats i
        (λ s. record s {
          crawler_reclaimed = add64 s.crawler_reclaimed 1;
          expired_unfetched =
              if (item_at held_st x).flags.fetched
              then s.expired_unfetched
              else add64 s.expired_unfetched 1;
        })
        held_st

  bounce-Kept : Kept st (refcount_decr x held_st)
  unfolding refcount_incr refcount_decr
  bounce-Kept = record {
    items = λ q. ground arith;
    lru = λ k. refl;
    assoc = refl;
    classes = λ k. refl;
    stats = λ k. refl;
  }

  still_expired :
      expired_or_flushed held_st (item_at held_st x) ≡ expired_or_flushed st (item_at st x)
  unfolding refcount_incr
  still_expired = ground arith

  held_two : ((item_at held_st x).refcount == 2) ≡ ((item_at st x).refcount == 1)
  unfolding refcount_incr
  held_two = ground arith

  visit-cases : visit env i x st ≡ (
      if doomed env x st
      then do_item_remove x (do_item_unlink x (env.hash (item_at st x).key) counted_st)
      else if env.trylock (env.hash (item_at st x).key)
      then refcount_decr x held_st
      else st)
  unfolding visit item_crawler_evaluate
  visit-cases = elim (Bool-cases (env.trylock (env.hash (item_at st x).key))) [
    | inr busy ↦ rw busy refl
    | inl free ↦ elim (Bool-cases ((item_at st x).refcount == 1)) [
      | inr held ↦ rw (free, held, held_two, held) refl
      | inl ours ↦ elim (Bool-cases (expired_or_flushed st (item_at st x))) [
        | inl old ↦ rw (free, held_two, ours, still_expired, old) refl
        | inr live ↦ rw (free, held_two, ours, still_expired, live) refl
      ]
    ]
  ]

  visit-Kept : doomed env x st ≡ false → Kept st (visit env i x st)
  visit-Kept spared =
      rw (visit-cases, spared)
        (elim (Bool-cases (env.trylock (env.hash (item_at st x).key))) [
          | inl free ↦ rw free bounce-Kept
          | inr busy ↦ rw busy (record {
            items = λ q. refl;
            lru = λ k. refl;
            assoc = refl;
            classes = λ k. refl;
            stats = λ k. refl;
          })
        ])

  counted-two : doomed env x st ≡ true → (item_at counted_st x).refcount ≡ 2
  unfolding refcount_incr
  counted-two dead = ground arith

  counted-same :
      ((item_at counted_st x).flags.linked ≡ (item_at st x).flags.linked)
      × ((item_at counted_st x).slabs_clsid ≡ (item_at st x).slabs_clsid)
      × ((counted_st.itemstats i).crawler_reclaimed ≡ add64 (st.itemstats i).crawler_reclaimed 1)
  unfolding refcount_incr
  counted-same = (ground arith, ground arith, ground arith)

  counted-rest :
      (k : ℕ)
      → (counted_st.memory.slabclass k ≡ st.memory.slabclass k)
        × (counted_st.lru k ≡ st.lru k)
        × (counted_st.memory.power_largest ≡ st.memory.power_largest)
        × (counted_st.assoc ≡ st.assoc)
  unfolding refcount_incr
  counted-rest k = (refl, refl, refl, refl)

  counted-items :
      ((item_at counted_st x).key ≡ (item_at st x).key)
      × ((q : ℕ) → q ≢ x → item_at counted_st q ≡ item_at st q)
  unfolding refcount_incr
  counted-items = (ground arith, λ q ne. ground arith)

  counted-table :
      (q : Key)
      → (if bytes_eq (item_at counted_st x).key q then none else stored env.hash counted_st q)
        ≡ (if bytes_eq (item_at st x).key q then none else stored env.hash st q)
  unfolding refcount_incr
  counted-table q = ground arith

  visit-Reclaimed :
      doomed env x st ≡ true
      → (item_at st x).flags.linked ≡ true
      → IsClass st.memory (item_at st x).slabs_clsid
      → IsValid env.hash st.assoc
      → stored env.hash st (item_at st x).key ≡ some x
      → Reclaimed env.hash i x st (visit env i x st)
  visit-Reclaimed dead linked class valid present =
      let id = (item_at st x).slabs_clsid in
      let same = counted-same in
      let rest = counted-rest id in
      let d =
        drop-Dropped env.hash x counted_st (same.0 ∙ linked) (counted-two dead)
          (rw (same.1) (class.0), omega (arith, same.1, rest.2, class)) (rw (rest.3) valid)
          (rw (rest.3, counted-items.0) present) in
      rw (visit-cases, dead, sym counted-items.0)
        (record {
          unlinked = d.unlinked;
          unused = d.unused;
          slabbed = d.slabbed;
          slots = ground (arith, d.slots, same.1, rest.0);
          list = ground (arith, d.list, same.1, rest.1);
          counted = ground (arith, d.stats i, same.2);
          others = λ q ne. d.others q ne ∙ counted-items.1 q ne;
          table = λ q. d.table q ∙ counted-table q;
          valid = d.valid;
        })

  -- A visit of the crawler to a linked item that a valid table has under its key takes it out of the
  -- table and of its list and frees it, and counts that, exactly if the item's lock is free, only the
  -- table holds it and it is expired or flushed: its key is gone, every other key and item stays, and
  -- the table is still valid. Otherwise the items, the table, the lists, the classes and the counts stay
  -- as they were.
  pub visit_lem :
      (item_at st x).flags.linked ≡ true
      → IsClass st.memory (item_at st x).slabs_clsid
      → IsValid env.hash st.assoc
      → stored env.hash st (item_at st x).key ≡ some x
      → ((doomed env x st ≡ true) × Reclaimed env.hash i x st (visit env i x st))
        ⊎ ((doomed env x st ≡ false) × Kept st (visit env i x st))
  visit_lem linked class valid present = elim (Bool-cases (doomed env x st)) [
    | inl dead ↦ inl (dead, visit-Reclaimed dead linked class valid present)
    | inr spared ↦ inr (spared, visit-Kept spared)
  ]
