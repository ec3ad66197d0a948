-- ===== src/Items/Crawler/Drop.antt =====
-- How the LRU crawler of memcached-1.4/items.c takes an item out and frees it.
use reading_and_comprehense.Base.{
  ℕ, ◌^◌, ◌<◌, ◌≤◌, ◌≡◌, ◌≢◌, none, some, bytes_eq, ◌∙◌, true, false, ◌∷◌, arith, if◌then◌else◌,
}
use reading_and_comprehense.Assoc.{assoc_delete}
use reading_and_comprehense.Assoc.Chain.{Key}
use reading_and_comprehense.Assoc.Valid.{IsValid, delete-IsValid}
use reading_and_comprehense.Assoc.View.{find-delete_chain, delete_total}
use reading_and_comprehense.Items.Consistent.{stored}
use reading_and_comprehense.Slabs.Alloc.{IsClass}
use reading_and_comprehense.Items.{
  Store, item_at, remove_ptr, refcount_decr, item_free, do_item_remove, do_item_unlink,
  mark_unlinked, hash_delete, item_unlink_q,
}
use reading_and_comprehense.Items.Remove.{do_item_remove_last, do_item_remove-Released}
use reading_and_comprehense.Items.Crawler.Climb.{remove-lru}

-- An item that only the crawler and the table hold is taken out and freed.
pub record Dropped (hash : Key → ℕ) (st : Store) (x : ℕ) (st' : Store) : Type 0 where
  pub unlinked : (item_at st' x).flags.linked ≡ false
  pub unused : (item_at st' x).refcount ≡ 0
  pub slabbed : (item_at st' x).flags.slabbed ≡ true
  pub slots :
      (st'.memory.slabclass (item_at st x).slabs_clsid).slots
      ≡ x ∷ (st.memory.slabclass (item_at st x).slabs_clsid).slots
  pub list : st'.lru (item_at st x).slabs_clsid ≡ remove_ptr x (st.lru (item_at st x).slabs_clsid)
  pub stats : (k : ℕ) → st'.itemstats k ≡ st.itemstats k
  pub others : (q : ℕ) → q ≢ x → item_at st' q ≡ item_at st q
  pub table :
      (q : Key)
      → stored hash st' q ≡ (if bytes_eq (item_at st x).key q then none else stored hash st q)
  pub valid : IsValid hash st'.assoc

module _ (hash : Key → ℕ) (x : ℕ) (st : Store) (linked : (item_at st x).flags.linked ≡ true)
    (two : (item_at st x).refcount ≡ 2) (class : IsClass st.memory (item_at st x).slabs_clsid)
    (valid : IsValid hash st.assoc) (present : stored hash st (item_at st x).key ≡ some x) where
  abbrev hv : ℕ
  hv = hash (item_at st x).key

  abbrev taken : Store
  taken = item_unlink_q x (hash_delete x hv (mark_unlinked x st))

  unlinked_is : do_item_unlink x hv st ≡ do_item_remove x taken
  unfolding do_item_unlink
  unlinked_is = ground arith

  abbrev once : Store
  once = refcount_decr x taken

  once_is : do_item_unlink x hv st ≡ once
  unfolding do_item_remove refcount_decr mark_unlinked hash_delete item_unlink_q
  once_is = unlinked_is ∙ ground arith

  once-one : (item_at once x).refcount ≡ 1
  unfolding refcount_decr mark_unlinked hash_delete item_unlink_q
  once-one = ground arith

  once-flags : (item_at once x).flags.linked ≡ false
  unfolding refcount_decr mark_unlinked hash_delete item_unlink_q
  once-flags = ground arith

  once-class : (item_at once x).slabs_clsid ≡ (item_at st x).slabs_clsid
  unfolding refcount_decr mark_unlinked hash_delete item_unlink_q
  once-class = ground arith

  once-memory :
      (k : ℕ)
      → (once.memory.slabclass k ≡ st.memory.slabclass k)
        × (once.memory.power_largest ≡ st.memory.power_largest)
  unfolding refcount_decr mark_unlinked hash_delete item_unlink_q
  once-memory k = (ground arith, ground arith)

  once-lru : once.lru (item_at st x).slabs_clsid ≡ remove_ptr x (st.lru (item_at st x).slabs_clsid)
  unfolding refcount_decr mark_unlinked hash_delete item_unlink_q
  once-lru = ground arith

  once-stats : (k : ℕ) → once.itemstats k ≡ st.itemstats k
  unfolding refcount_decr mark_unlinked hash_delete item_unlink_q
  once-stats k = ground arith

  once-others : (q : ℕ) → q ≢ x → item_at once q ≡ item_at st q
  unfolding refcount_decr mark_unlinked hash_delete item_unlink_q
  once-others q ne = ground arith

  once-assoc : assoc_delete st.assoc (item_at st x).key hv ≡ some once.assoc
  unfolding refcount_decr mark_unlinked hash_delete item_unlink_q
  once-assoc =
      let (b, e) = delete_total hash st.assoc (item_at st x).key x present in ground (arith, e)

  remove-stats : (s : Store) (k : ℕ) → (do_item_remove x s).itemstats k ≡ s.itemstats k
  unfolding do_item_remove refcount_decr item_free
  remove-stats s k = ground arith

  pub drop-Dropped : Dropped hash st x (do_item_remove x (do_item_unlink x hv st))
  drop-Dropped =
      let held : 1 ≤ (item_at once x).refcount = omega (arith, once-one) in
      let narrow : (item_at once x).refcount < 2 ^ 16 = omega (arith, once-one) in
      let released = do_item_remove-Released once x held narrow in
      let last =
        do_item_remove_last once x held narrow once-one
          (rw once-class (class.0), omega (arith, once-class, (once-memory 0).1, class)) in
      rw once_is (record {
        unlinked = released.linked ∙ once-flags;
        unused = omega (arith, released.refcount, once-one);
        slabbed = last.2;
        slots = ground (arith, last.0, once-class, (once-memory (item_at st x).slabs_clsid).0);
        list = remove-lru x once (item_at st x).slabs_clsid ∙ once-lru;
        stats = λ k. remove-stats once k ∙ once-stats k;
        others = λ q ne. released.others q ne ∙ once-others q ne;
        table = λ q.
            rw (released.assoc)
              (find-delete_chain hash st.assoc once.assoc (item_at st x).key q valid once-assoc);
        valid =
            rw (released.assoc)
              (delete-IsValid hash st.assoc valid (item_at st x).key once.assoc once-assoc);
      })
