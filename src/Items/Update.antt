-- ===== src/Items/Update.antt =====
-- do_item_update of memcached-1.4/items.c: an item goes back to the head of its LRU list.
use native.Mathlib.Decide.{ℕ_discrete}
use reading_and_comprehense.Base.{
  ℕ, ◌+◌, ◌%◌, ◌^◌, ◌≡◌, ◌≢◌, Bool, ◌∷◌, arith, ltb, ◌==◌, if◌then◌else◌, ◌⊎◌, inl, inr, ◌&&◌,
}
use reading_and_comprehense.Assoc.Chain.{Key}
use reading_and_comprehense.Memory.{sub32}
use reading_and_comprehense.Items.{
  Store, item_at, item_update_interval, item_link_q, item_unlink_q, do_item_update, remove_ptr,
}
use reading_and_comprehense.Items.Consistent.{
  Consistent, count_ptr, count_ptr-remove, length-remove_ptr,
}

-- do_item_update moves the item, once a minute at most.
abbrev pub moves : ℕ → Store → Bool
moves p st =
    ltb (item_at st p).time (sub32 st.current_time item_update_interval)
    && (item_at st p).flags.linked

pub record Updated (st : Store) (p : ℕ) (st' : Store) : Type 0 where
  pub here :
      item_at st' p
      ≡ record (item_at st p) { time = if moves p st then st.current_time else (item_at st p).time }
  pub others : (q : ℕ) → q ≢ p → item_at st' q ≡ item_at st q
  pub list :
      (c : ℕ)
      → st'.lru c ≡ (
          if moves p st && (item_at st p).slabs_clsid == c
          then p ∷ remove_ptr p (st.lru c)
          else st.lru c)
  pub sizes :
      (c : ℕ)
      → st'.sizes c ≡ (
          if moves p st && (item_at st p).slabs_clsid == c
          then (sub32 (st.sizes c) 1 + 1) % 2 ^ 32
          else st.sizes c)
  pub assoc : st'.assoc ≡ st.assoc
  pub settings : st'.settings ≡ st.settings
  pub now : st'.current_time ≡ st.current_time

module _ (st : Store) (p : ℕ) where
  pub do_item_update-Updated : Updated st p (do_item_update p st)
  unfolding do_item_update item_link_q item_unlink_q
  do_item_update-Updated = record {
    here = ground arith;
    others = λ q ne. ground arith;
    list = λ c. ground arith;
    sizes = λ c. ground arith;
    assoc = ground arith;
    settings = ground arith;
    now = ground arith;
  }

  module _ (hash : Key → ℕ) (c : Consistent hash st) where
    abbrev u : Updated st p (do_item_update p st)
    u = do_item_update-Updated

    same_or_other : (i : ℕ) → (i ≡ p) ⊎ ((i ≢ p) × (item_at (do_item_update p st) i ≡ item_at st i))
    same_or_other i = elim (ℕ_discrete i p) [
      | yes same ↦ inl same
      | no other ↦ inr (other, u.others i other)
    ]

    -- do_item_update keeps the store consistent: the item stands in its list once, as before.
    pub do_item_update-Consistent : Consistent hash (do_item_update p st)
    unfolding count_ptr
    do_item_update-Consistent = record {
      table = rw u.assoc c.table;
      found = λ q i h. ground (arith, same_or_other i, u.here, u.assoc, c.found q i);
      linked = λ i h. ground (arith, same_or_other i, u.here, u.assoc, c.linked i);
      held = λ i h. ground (arith, same_or_other i, u.here, c.held i);
      listed = λ i k h. ground (
        arith,
        same_or_other i,
        u.here,
        u.list k,
        c.listed i k,
        count_ptr-remove p i (st.lru k),
        c.once p,
      );
      once = λ i h. ground (
        arith,
        same_or_other i,
        u.here,
        u.list (item_at (do_item_update p st) i).slabs_clsid,
        c.once i,
        c.once p,
        count_ptr-remove p i (st.lru (item_at st i).slabs_clsid),
      );
      sized = λ k.
          ground (arith, u.list k, u.sizes k, c.sized k, c.once p, length-remove_ptr p (st.lru k));
    }
