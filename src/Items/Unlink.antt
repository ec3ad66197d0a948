-- ===== src/Items/Unlink.antt =====
-- The part of do_item_unlink of memcached-1.4/items.c that takes an item out of the table and out of
-- its LRU list.
use native.Mathlib.Decide.{ℕ_discrete}
use reading_and_comprehense.Base.{
  ℕ, ◌+◌, ◌-◌, ◌%◌, ◌^◌, ◌≡◌, ◌≢◌, refl, true, false, none, some, arith, ◌==◌, if◌then◌else◌,
  bytes_eq, bytes_eq_refl, bytes_eq→eq, ◌⊎◌, inl, inr,
}
use reading_and_comprehense.Assoc.{assoc_delete}
use reading_and_comprehense.Assoc.Chain.{Key}
use reading_and_comprehense.Assoc.Valid.{delete-IsValid}
use reading_and_comprehense.Assoc.View.{find-delete_chain, delete_total}
use reading_and_comprehense.Items.{
  Store, item_at, remove_ptr, mark_unlinked, hash_delete, item_unlink_q,
}
use reading_and_comprehense.Items.Consistent.{
  Consistent, stored, count_ptr-remove, length-remove_ptr,
}

-- do_item_unlink before the reference is dropped.
unfoldable pub detach : ℕ → ℕ → Store → Store
detach p hv st = item_unlink_q p (hash_delete p hv (mark_unlinked p st))

pub record Detached (hash : Key → ℕ) (st : Store) (p : ℕ) (st' : Store) : Type 0 where
  pub out : (item_at st' p).flags.linked ≡ false
  pub key : (item_at st' p).key ≡ (item_at st p).key
  pub value : (item_at st' p).value ≡ (item_at st p).value
  pub refcount : (item_at st' p).refcount ≡ (item_at st p).refcount
  pub class : (item_at st' p).slabs_clsid ≡ (item_at st p).slabs_clsid
  pub others : (q : ℕ) → q ≢ p → item_at st' q ≡ item_at st q
  pub list :
      (c : ℕ)
      → st'.lru c ≡ (if (item_at st p).slabs_clsid == c then remove_ptr p (st.lru c) else st.lru c)
  pub sizes :
      (c : ℕ)
      → st'.sizes c ≡ (
          if (item_at st p).slabs_clsid == c
          then (st.sizes c + 2 ^ 32 - 1) % 2 ^ 32
          else st.sizes c)
  pub assoc : assoc_delete st.assoc (item_at st p).key (hash (item_at st p).key) ≡ some st'.assoc
  pub settings : st'.settings ≡ st.settings
  pub now : st'.current_time ≡ st.current_time

module _ (hash : Key → ℕ) (st : Store) (p : ℕ) (c : Consistent hash st)
    (here : (item_at st p).flags.linked ≡ true) where
  abbrev gone : Store
  gone = detach p (hash (item_at st p).key) st

  pub detach-Detached : Detached hash st p gone
  unfolding detach mark_unlinked hash_delete item_unlink_q
  detach-Detached =
      let (b, e) = delete_total hash st.assoc (item_at st p).key p (c.linked p here) in
      record {
        out = ground arith;
        key = ground arith;
        value = ground arith;
        refcount = ground arith;
        class = ground arith;
        others = λ q ne. ground arith;
        list = λ k. ground arith;
        sizes = λ k. ground arith;
        assoc = ground (arith, e);
        settings = refl;
        now = refl;
      }

  abbrev d : Detached hash st p gone
  d = detach-Detached

  -- What the table shows afterwards: the key of the item is gone, and nothing else.
  pub stored-detach :
      (q : Key)
      → stored hash gone q ≡ (if bytes_eq (item_at st p).key q then none else stored hash st q)
  stored-detach q = find-delete_chain hash st.assoc gone.assoc (item_at st p).key q c.table d.assoc

  same_or_other : (i : ℕ) → (i ≡ p) ⊎ ((i ≢ p) × (item_at gone i ≡ item_at st i))
  same_or_other i = elim (ℕ_discrete i p) [
    | yes same ↦ inl same
    | no other ↦ inr (other, d.others i other)
  ]

  pub detach-Consistent : Consistent hash gone
  detach-Consistent = record {
    table = delete-IsValid hash st.assoc c.table (item_at st p).key gone.assoc d.assoc;
    found = λ q i h. ground (
      arith,
      same_or_other i,
      stored-detach q,
      c.found q i,
      bytes_eq→eq (item_at st p).key q,
      bytes_eq_refl q,
    );
    linked = λ i h. ground (
      arith,
      same_or_other i,
      d.out,
      stored-detach (item_at st i).key,
      c.linked i,
      c.linked p,
      bytes_eq→eq (item_at st p).key (item_at st i).key,
    );
    held = λ i h. ground (arith, same_or_other i, d.out, c.held i);
    listed = λ i k h.
        ground (
          arith,
          same_or_other i,
          d.list k,
          c.listed i k,
          c.once p,
          count_ptr-remove p i (st.lru k),
        );
    once = λ i h. ground (
      arith,
      same_or_other i,
      d.out,
      d.list (item_at st i).slabs_clsid,
      c.once i,
      c.once p,
      count_ptr-remove p i (st.lru (item_at st p).slabs_clsid),
    );
    sized = λ k. ground (
      arith,
      d.sizes k,
      d.list k,
      c.sized k,
      c.once p,
      length-remove_ptr p (st.lru (item_at st p).slabs_clsid),
    );
  }
