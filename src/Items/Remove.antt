-- ===== src/Items/Remove.antt =====
-- do_item_remove and do_item_unlink of memcached-1.4/items.c: the references to an item, and its
-- return to the slab allocator with the last one.
use native.Mathlib.Decide.{ℕ_discrete}
use reading_and_comprehense.Base.{
  ℕ, ◌+◌, ◌^◌, ◌<◌, ◌≤◌, ◌≡◌, ◌≢◌, ◌∙◌, true, false, none, ◌∷◌, arith, if◌then◌else◌, bytes_eq, ◌⊎◌,
  inl, inr,
}
use reading_and_comprehense.Assoc.Chain.{Key}
use reading_and_comprehense.Memory.{item_ntotal, sub64}
use reading_and_comprehense.Slabs.{do_slabs_free}
use reading_and_comprehense.Slabs.Alloc.{IsClass}
use reading_and_comprehense.Items.{
  Store, item_at, item_free, refcount_decr, do_item_remove, do_item_unlink,
}
use reading_and_comprehense.Items.Consistent.{Consistent, stored}
use reading_and_comprehense.Items.Unlink.{detach, detach-Detached, detach-Consistent, stored-detach}

-- What the drop of a reference leaves alone.
pub record Released (st : Store) (p : ℕ) (st' : Store) : Type 0 where
  pub linked : (item_at st' p).flags.linked ≡ (item_at st p).flags.linked
  pub key : (item_at st' p).key ≡ (item_at st p).key
  pub value : (item_at st' p).value ≡ (item_at st p).value
  pub refcount : (item_at st' p).refcount + 1 ≡ (item_at st p).refcount
  pub class : 2 ≤ (item_at st p).refcount → (item_at st' p).slabs_clsid ≡ (item_at st p).slabs_clsid
  pub others : (q : ℕ) → q ≢ p → item_at st' q ≡ item_at st q
  pub lru : (c : ℕ) → st'.lru c ≡ st.lru c
  pub sizes : (c : ℕ) → st'.sizes c ≡ st.sizes c
  pub assoc : st'.assoc ≡ st.assoc
  pub settings : st'.settings ≡ st.settings
  pub now : st'.current_time ≡ st.current_time

module _ (st : Store) (p : ℕ) (held : 1 ≤ (item_at st p).refcount)
    (narrow : (item_at st p).refcount < 2 ^ 16) where
  pub do_item_remove-Released : Released st p (do_item_remove p st)
  unfolding do_item_remove refcount_decr item_free do_slabs_free
  do_item_remove-Released = record {
    linked = ground arith;
    key = ground arith;
    value = ground arith;
    refcount = ground arith;
    class = ground arith;
    others = λ q ne. ground arith;
    lru = λ c. ground arith;
    sizes = λ c. ground arith;
    assoc = ground arith;
    settings = ground arith;
    now = ground arith;
  }

  -- The last reference gives the chunk back: it is the head of the free list of its class, whose
  -- requested bytes fall by the item's size.
  pub do_item_remove_last :
      (item_at st p).refcount ≡ 1
      → IsClass st.memory (item_at st p).slabs_clsid
      → (((do_item_remove p st).memory.slabclass (item_at st p).slabs_clsid).slots
          ≡ p ∷ (st.memory.slabclass (item_at st p).slabs_clsid).slots)
        × (((do_item_remove p st).memory.slabclass (item_at st p).slabs_clsid).requested
            ≡ sub64
                (st.memory.slabclass (item_at st p).slabs_clsid).requested
                (item_ntotal (item_at st p)))
        × ((item_at (do_item_remove p st) p).flags.slabbed ≡ true)
        × ((item_at (do_item_remove p st) p).slabs_clsid ≡ 0)
  unfolding do_item_remove refcount_decr item_free do_slabs_free item_ntotal
  do_item_remove_last last class = (ground arith, ground arith, ground arith, ground arith)

module _ (hash : Key → ℕ) (st : Store) (p : ℕ) (c : Consistent hash st)
    (narrow : (item_at st p).refcount < 2 ^ 16) where
  -- A linked item keeps the reference of the table and the list.
  pub do_item_remove-Consistent :
      1 ≤ (item_at st p).refcount
      → ((item_at st p).flags.linked ≡ true → 2 ≤ (item_at st p).refcount)
      → Consistent hash (do_item_remove p st)
  do_item_remove-Consistent held spare =
      let r = do_item_remove-Released st p held narrow in
      let same_or_other : (i : ℕ)
          → (i ≡ p) ⊎ ((i ≢ p) × (item_at (do_item_remove p st) i ≡ item_at st i)) =
        (λ i. elim (ℕ_discrete i p) [
          | yes same ↦ inl same
          | no other ↦ inr (other, r.others i other)
        ]) in
      record {
        table = rw r.assoc c.table;
        found = λ q i h. ground (arith, same_or_other i, r.assoc, c.found q i, r.linked, r.key);
        linked = λ i h. ground (arith, same_or_other i, r.assoc, c.linked i, r.linked, r.key);
        held = λ i h. ground (arith, same_or_other i, c.held i, r.refcount, r.linked, spare);
        listed = λ i k h.
            ground (arith, same_or_other i, r.lru k, c.listed i k, r.linked, r.class, spare);
        once = λ i h. ground (
          arith,
          same_or_other i,
          r.linked,
          r.class,
          spare,
          c.once i,
          r.lru (item_at (do_item_remove p st) i).slabs_clsid,
        );
        sized = λ k. ground (arith, r.sizes k, r.lru k, c.sized k);
      }

-- do_item_unlink takes the item out of the table and the list, and drops one reference.
pub record Unlinked (hash : Key → ℕ) (st : Store) (p : ℕ) (st' : Store) : Type 0 where
  pub out : (item_at st' p).flags.linked ≡ false
  pub key : (item_at st' p).key ≡ (item_at st p).key
  pub value : (item_at st' p).value ≡ (item_at st p).value
  pub refcount : (item_at st' p).refcount + 1 ≡ (item_at st p).refcount
  pub others : (q : ℕ) → q ≢ p → item_at st' q ≡ item_at st q
  pub table :
      (q : Key)
      → stored hash st' q ≡ (if bytes_eq (item_at st p).key q then none else stored hash st q)
  pub settings : st'.settings ≡ st.settings
  pub now : st'.current_time ≡ st.current_time
  pub consistent : Consistent hash st'

module _ (hash : Key → ℕ) (st : Store) (p : ℕ) (c : Consistent hash st)
    (narrow : (item_at st p).refcount < 2 ^ 16) where
  unlink_linked :
      (hv : ℕ)
      → (item_at st p).flags.linked ≡ true
      → do_item_unlink p hv st ≡ do_item_remove p (detach p hv st)
  unfolding do_item_unlink detach
  unlink_linked hv here = ground arith

  -- do_item_unlink of a linked item of a consistent store takes it out of the table and its list and
  -- drops one reference; no other item and no other key changes, and the store stays consistent.
  pub do_item_unlink-Unlinked :
      (item_at st p).flags.linked ≡ true
      → Unlinked hash st p (do_item_unlink p (hash (item_at st p).key) st)
  do_item_unlink-Unlinked here =
      let hv = hash (item_at st p).key in
      let g = detach p hv st in
      let d = detach-Detached hash st p c here in
      let cd = detach-Consistent hash st p c here in
      let held : 1 ≤ (item_at g p).refcount = rw d.refcount (c.held p here) in
      let narrow' : (item_at g p).refcount < 2 ^ 16 = rw d.refcount narrow in
      let r = do_item_remove-Released g p held narrow' in
      rw (unlink_linked hv here) (record {
        out = r.linked ∙ d.out;
        key = r.key ∙ d.key;
        value = r.value ∙ d.value;
        refcount = r.refcount ∙ d.refcount;
        others = λ q ne. r.others q ne ∙ d.others q ne;
        table = λ q. rw r.assoc (stored-detach hash st p c here q);
        settings = r.settings ∙ d.settings;
        now = r.now ∙ d.now;
        consistent =
            do_item_remove-Consistent hash g p cd narrow' held
              (λ l. absurd (ground (arith, d.out)));
      })
