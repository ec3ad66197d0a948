-- ===== src/Items/Link.antt =====
-- do_item_link of memcached-1.4/items.c.
use reading_and_comprehense.Base.{
  ℕ, ◌+◌, ◌%◌, ◌^◌, ◌<◌, ◌≡◌, ◌≢◌, true, false, none, some, ◌∷◌, arith, ◌==◌, if◌then◌else◌, ◌⊎◌,
  inl, inr, bytes_eq, bytes_eq_refl, bytes_eq→eq,
}
use native.Mathlib.Decide.{ℕ_discrete}
use reading_and_comprehense.Assoc.Chain.{Key}
use reading_and_comprehense.Assoc.Valid.{insert-IsValid}
use reading_and_comprehense.Assoc.View.{find-insert}
use reading_and_comprehense.Assoc.{assoc_insert}
use reading_and_comprehense.Memory.{item_set_cas}
use reading_and_comprehense.Items.{
  Store, item_at, mark_linked, stamp_cas, get_cas_id, hash_insert, item_link_q, refcount_incr,
  do_item_link,
}
use reading_and_comprehense.Items.Consistent.{Consistent, stored, count_ptr}

-- An item that can be linked: its holder has the only reference, and no other item has its key.
pub record Linkable (hash : Key → ℕ) (st : Store) (p : ℕ) : Type 0 where
  pub unlinked : (item_at st p).flags.linked ≡ false
  pub absent : stored hash st (item_at st p).key ≡ none
  pub room : (item_at st p).refcount + 1 < 2 ^ 16

-- What do_item_link does to the item and to the rest of the store.
pub record Linked (hash : Key → ℕ) (st : Store) (p : ℕ) (st' : Store) : Type 0 where
  pub here : (item_at st' p).flags.linked ≡ true
  pub key : (item_at st' p).key ≡ (item_at st p).key
  pub value : (item_at st' p).value ≡ (item_at st p).value
  pub time : (item_at st' p).time ≡ st.current_time
  pub refcount : (item_at st' p).refcount ≡ (item_at st p).refcount + 1
  pub class : (item_at st' p).slabs_clsid ≡ (item_at st p).slabs_clsid
  pub others : (q : ℕ) → q ≢ p → item_at st' q ≡ item_at st q
  pub head :
      (c : ℕ) → st'.lru c ≡ (if (item_at st p).slabs_clsid == c then p ∷ st.lru c else st.lru c)
  pub sizes :
      (c : ℕ)
      → st'.sizes c
        ≡ (if (item_at st p).slabs_clsid == c then (st.sizes c + 1) % 2 ^ 32 else st.sizes c)
  pub assoc : st'.assoc ≡ assoc_insert st.assoc (item_at st p).key p (hash (item_at st p).key)
  pub table :
      (q : Key)
      → stored hash st' q ≡ (if bytes_eq (item_at st p).key q then some p else stored hash st q)

module _ (hash : Key → ℕ) (st : Store) (p : ℕ) where
  abbrev link : Store
  link = do_item_link p (hash (item_at st p).key) st

  pub do_item_link-Linked : Linkable hash st p → Linked hash st p link
  unfolding do_item_link mark_linked stamp_cas get_cas_id hash_insert item_link_q refcount_incr
      item_set_cas
  do_item_link-Linked fresh = record {
    here = ground arith;
    key = ground arith;
    value = ground arith;
    time = ground arith;
    refcount = ground (arith, fresh.room);
    class = ground arith;
    others = λ q ne. ground arith;
    head = λ c. ground arith;
    sizes = λ c. ground arith;
    assoc = ground arith;
    table = λ q. ground (arith, find-insert hash st.assoc (item_at st p).key q p);
  }

  module _ (c : Consistent hash st) (fresh : Linkable hash st p) where
    abbrev l : Linked hash st p link
    l = do_item_link-Linked fresh

    others : (i : ℕ) → (i ≡ p) ⊎ ((i ≢ p) × (item_at link i ≡ item_at st i))
    others i = elim (ℕ_discrete i p) [
      | yes same ↦ inl same
      | no other ↦ inr (other, l.others i other)
    ]

    -- do_item_link of an item whose key is absent keeps the store consistent.
    pub do_item_link-Consistent : Consistent hash link
    unfolding count_ptr
    do_item_link-Consistent = record {
      table = rw l.assoc (insert-IsValid hash st.assoc c.table (item_at st p).key p fresh.absent);
      found = λ q i h. ground (
        arith,
        l.table q,
        c.found q i,
        others i,
        l.here,
        l.key,
        bytes_eq→eq (item_at st p).key q,
        fresh.unlinked,
      );
      linked = λ i h. ground (
        arith,
        others i,
        l.table (item_at link i).key,
        l.key,
        c.linked i,
        bytes_eq_refl (item_at st p).key,
        bytes_eq→eq (item_at st p).key (item_at st i).key,
        fresh.absent,
      );
      held = λ i h. ground (arith, others i, l.refcount, c.held i);
      listed = λ i k h.
          ground (arith, others i, l.here, l.class, l.head k, c.listed i k, fresh.unlinked);
      once = λ i h. ground (
        arith,
        others i,
        l.class,
        l.head (item_at link i).slabs_clsid,
        c.once i,
        c.listed i (item_at st p).slabs_clsid,
        fresh.unlinked,
      );
      sized = λ k. ground (arith, l.sizes k, l.head k, c.sized k);
    }

    -- do_item_link marks an unlinked item whose key is absent as linked, stamps it with the time, puts
    -- it into the table under its key and at the head of the LRU list of its class, counts it, and
    -- takes one reference more. Its key and value, the other items, keys and lists stay as they were,
    -- and a consistent store stays consistent.
    pub do_item_link_lem : Linked hash st p link × Consistent hash link
    do_item_link_lem = (l, do_item_link-Consistent)
