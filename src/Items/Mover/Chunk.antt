-- ===== src/Items/Mover/Chunk.antt =====
-- One chunk of the page that slab_rebalance_move of memcached-1.4/slabs.c empties.
use reading_and_comprehense.Base.{
  ℕ, ◌+◌, ◌%◌, ◌^◌, ◌<◌, ◌≡◌, ◌≢◌, ◌⊎◌, inl, inr, refl, ap, ◌∙◌, true, false, arith, ◌==◌,
  Bool-cases, ==_iff, sym,
}
use reading_and_comprehense.Memory.{Item, no_flags, add16}
use reading_and_comprehense.Slabs.{do_slabs_free}
use reading_and_comprehense.Items.{
  Store, item_at, edit, refcount_incr, refcount_decr, item_free, do_item_remove, do_item_unlink,
  mark_unlinked, hash_delete, item_unlink_q,
}
use reading_and_comprehense.Items.Alloc.{Env}
use reading_and_comprehense.Items.Consistent.{Consistent}
use reading_and_comprehense.Items.Remove.{Unlinked, do_item_unlink-Unlinked}
use reading_and_comprehense.Items.Get.{edit-Consistent}
use reading_and_comprehense.Items.Mover.{
  MoveStatus, unlink_slot, release_chunk, inspect_chunk, settle_chunk, move_chunk, cleared_clsid,
}

-- A chunk that the mover has cleared.
abbrev pub IsClear : Item → Type 0
IsClear it = (it.slabs_clsid ≡ cleared_clsid) × (it.refcount ≡ 0) × (it.flags ≡ no_flags)

-- The class number 255 stands on cleared chunks alone.
abbrev pub Marked : Store → Type 0
Marked st = (p : ℕ) → (item_at st p).slabs_clsid ≡ cleared_clsid → IsClear (item_at st p)

-- The variables of the move, and the sizes of the chunks, are as before.
pub record SameMove (st st' : Store) : Type 0 where
  pub rebalance : st'.rebalance ≡ st.rebalance
  pub size : (k : ℕ) → (st'.memory.slabclass k).size ≡ (st.memory.slabclass k).size

remove-SameMove : (p : ℕ) (st : Store) → SameMove st (do_item_remove p st)
unfolding do_item_remove refcount_decr item_free do_slabs_free
remove-SameMove p st = record { rebalance = ground arith; size = λ k. ground arith }

unlink-SameMove : (p hv : ℕ) (st : Store) → SameMove st (do_item_unlink p hv st)
unfolding do_item_unlink mark_unlinked hash_delete item_unlink_q
unlink-SameMove p hv st =
    let r = remove-SameMove p (item_unlink_q p (hash_delete p hv (mark_unlinked p st))) in
    record { rebalance = ground (arith, r.rebalance); size = λ k. ground (arith, r.size k) }

-- An item that is not linked may be written to, as long as it stays so.
clear-Consistent :
    {hash : _} (st : Store) (p : ℕ) (f : Item → Item)
    → Consistent hash st
    → (item_at st p).flags.linked ≡ false
    → (f (item_at st p)).flags.linked ≡ false
    → Consistent hash (edit p f st)
clear-Consistent st p f c out still = record {
  table = c.table;
  found = λ q i h. ground (arith, c.found q i h);
  linked = λ i h. ground (arith, c.linked i);
  held = λ i h. ground (arith, c.held i);
  listed = λ i j h. ground (arith, c.listed i j h);
  once = λ i h. ground (arith, c.once i);
  sized = c.sized;
}

pub copy-Consistent :
    {hash : _} (st st' : Store)
    → st'.assoc ≡ st.assoc
    → ((q : ℕ) → item_at st' q ≡ item_at st q)
    → st'.lru ≡ st.lru
    → st'.sizes ≡ st.sizes
    → Consistent hash st
    → Consistent hash st'
copy-Consistent st st' assoc items lru sizes c = record {
  table = rw assoc c.table;
  found = λ q i h. ground (arith, c.found q i, items i, assoc);
  linked = λ i h. ground (arith, c.linked i, items i, assoc);
  held = λ i h. ground (arith, c.held i, items i);
  listed = λ i j h. ground (arith, c.listed i j, items i, lru);
  once = λ i h. ground (arith, c.once i, items i, lru);
  sized = λ k. rw (sizes, lru) (c.sized k);
}

-- What is left of a chunk and the store: cleared, or busy and as it was.
pub record Settled (env : Env) (p : ℕ) (st : Store) (r : ℕ × Store) : Type 0 where
  pub outcome :
      ((r.0 ≡ 0) × IsClear (item_at r.1 p) × (r.1.rebalance ≡ st.rebalance))
      ⊎ ((r.0 ≡ 1)
          × (item_at r.1 p ≡ item_at st p)
          × (r.1.rebalance
              ≡ record (st.rebalance) { busy_items = (st.rebalance.busy_items + 1) % 2 ^ 32 }))
  pub others : (q : ℕ) → q ≢ p → item_at r.1 q ≡ item_at st q
  pub size : (k : ℕ) → (r.1.memory.slabclass k).size ≡ (st.memory.slabclass k).size
  pub consistent : Consistent env.hash r.1

module _ (env : Env) (p : ℕ) (st : Store) (c : Consistent env.hash st) (marked : Marked st)
    (narrow : (item_at st p).refcount + 1 < 2 ^ 16) where
  abbrev st1 : Store
  st1 = refcount_incr p st

  incr-Consistent : Consistent env.hash st1
  unfolding refcount_incr
  incr-Consistent =
      edit-Consistent env.hash st p (λ it. record it { refcount = add16 it.refcount 1 }) c
        (record { linked = refl; key = refl; class = refl; held = λ l. ground arith })

  incr_same :
      (st1.rebalance ≡ st.rebalance)
      × ((k : ℕ) → (st1.memory.slabclass k).size ≡ (st.memory.slabclass k).size)
  unfolding refcount_incr
  incr_same = (refl, λ k. refl)

  incr_others : (q : ℕ) → q ≢ p → item_at st1 q ≡ item_at st q
  unfolding refcount_incr
  incr_others q ne = ground arith

  incr_here :
      ((item_at st1 p).refcount ≡ (item_at st p).refcount + 1)
      × ((item_at st1 p).flags ≡ (item_at st p).flags)
      × ((item_at st1 p).key ≡ (item_at st p).key)
  unfolding refcount_incr
  incr_here = (ground arith, ground arith, ground arith)

  unlinked :
      (item_at st p).refcount ≡ 1
      → (item_at st p).flags.linked ≡ true
      → Unlinked env.hash st1 p (do_item_unlink p (env.hash (item_at st p).key) st1)
  unlinked one linked = rw (← incr_here.2) (
      do_item_unlink-Unlinked env.hash st1 p incr-Consistent (omega (arith, incr_here.0))
        (ap (λ f. f.linked) (incr_here.1) ∙ linked))

  busy-Settled : Settled env p st (settle_chunk p MoveStatus.move_busy st1)
  unfolding settle_chunk refcount_incr refcount_decr
  busy-Settled =
      let same : (q : ℕ) → item_at (settle_chunk p MoveStatus.move_busy st1).1 q ≡ item_at st q =
        (λ q. ground arith) in
      record {
        outcome = inr (refl, same p, refl);
        others = λ q ne. same q;
        size = λ k. refl;
        consistent =
            copy-Consistent st (settle_chunk p MoveStatus.move_busy st1).1 refl same refl refl c;
      }

  locked-Settled : Settled env p st (settle_chunk p MoveStatus.move_locked st)
  unfolding settle_chunk
  locked-Settled = record {
    outcome = inr (refl, refl, refl);
    others = λ q ne. refl;
    size = λ k. refl;
    consistent =
        copy-Consistent st (settle_chunk p MoveStatus.move_locked st).1 refl (λ q. refl) refl refl
          c;
  }

  pass-Settled :
      (item_at st p).slabs_clsid ≡ cleared_clsid
      → Settled env p st (settle_chunk p MoveStatus.move_pass st)
  unfolding settle_chunk
  pass-Settled at_255 = record {
    outcome = inl (refl, marked p at_255, refl);
    others = λ q ne. refl;
    size = λ k. refl;
    consistent = c;
  }

  -- A free chunk.
  free-Settled :
      (item_at st p).refcount ≡ 0
      → Settled env p st
          (settle_chunk p MoveStatus.move_done (unlink_slot p st.rebalance.s_clsid st1))
  unfolding settle_chunk unlink_slot refcount_incr
  free-Settled none_held =
      let s2 = unlink_slot p st.rebalance.s_clsid st1 in
      let f : Item → Item =
        (λ it. record it { refcount = 0; flags = no_flags; slabs_clsid = cleared_clsid }) in
      let out : (item_at s2 p).flags.linked ≡ false = ground (arith, c.held p) in
      record {
        outcome = inl (refl, (ground arith, ground arith, ground arith), refl);
        others = λ q ne. ground arith;
        size = λ k. ground arith;
        consistent =
            clear-Consistent s2 p f
              (copy-Consistent st1 s2 refl (λ q. refl) refl refl incr-Consistent) out refl;
      }

  linked-Settled :
      (item_at st p).refcount ≡ 1
      → (item_at st p).flags.linked ≡ true
      → Settled env p st
          (settle_chunk p MoveStatus.move_done (do_item_unlink p (env.hash (item_at st p).key) st1))
  unfolding settle_chunk
  linked-Settled one linked =
      let hv = env.hash (item_at st p).key in
      let s2 = do_item_unlink p hv st1 in
      let f : Item → Item =
        (λ it. record it { refcount = 0; flags = no_flags; slabs_clsid = cleared_clsid }) in
      let u = unlinked one linked in
      let m = unlink-SameMove p hv st1 in
      record {
        outcome = inl (refl, (ground arith, ground arith, ground arith), m.rebalance ∙ incr_same.0);
        others = λ q ne. ground (arith, u.others q ne, incr_others q ne);
        size = λ k. m.size k ∙ incr_same.1 k;
        consistent = clear-Consistent s2 p f u.consistent u.out refl;
      }

  release-Settled : Settled env p st (
      settle_chunk p
        (release_chunk p (env.hash (item_at st p).key) st1).0
        (release_chunk p (env.hash (item_at st p).key) st1).1)
  unfolding release_chunk refcount_incr
  release-Settled = elim (Bool-cases ((item_at st1 p).refcount == 1)) [
    | inl free ↦ elim (Bool-cases (item_at st1 p).flags.slabbed) [
      | inl slabbed ↦
          rw (free, slabbed) (free-Settled (omega (arith, incr_here.0, (==_iff _ _).0 free)))
      | inr taken ↦ rw (free, taken) busy-Settled
    ]
    | inr used ↦ elim (Bool-cases ((item_at st1 p).refcount == 2)) [
      | inl one ↦ elim (Bool-cases (item_at st1 p).flags.linked) [
        | inl linked ↦
            rw (used, one, linked)
              (linked-Settled (omega (arith, incr_here.0, (==_iff _ _).0 one))
                (ap (λ f. f.linked) (sym incr_here.1) ∙ linked))
        | inr out ↦ rw (used, one, out) busy-Settled
      ]
      | inr more ↦ rw (used, more) busy-Settled
    ]
  ]

  inspect-Settled :
      Settled env p st (settle_chunk p (inspect_chunk env p st).0 (inspect_chunk env p st).1)
  unfolding inspect_chunk
  inspect-Settled = elim (Bool-cases ((item_at st p).slabs_clsid == cleared_clsid)) [
    | inl clear ↦ rw clear (pass-Settled ((==_iff _ _).0 clear))
    | inr filled ↦ elim (Bool-cases (env.trylock (env.hash (item_at st p).key))) [
      | inl free ↦ rw (filled, free) release-Settled
      | inr locked ↦ rw (filled, locked) locked-Settled
    ]
  ]

-- A chunk of a consistent store, whatever it holds, is either cleared, with its item taken out of the
-- table and the list, or counted as busy and left as it was; nothing else changes.
pub move_chunk-Settled :
    (env : Env) (st : Store)
    → Consistent env.hash st
    → Marked st
    → (item_at st st.rebalance.slab_pos).refcount + 1 < 2 ^ 16
    → Settled env st.rebalance.slab_pos st (move_chunk env st)
unfolding move_chunk
move_chunk-Settled env st c marked narrow =
    inspect-Settled env st.rebalance.slab_pos st c marked narrow
