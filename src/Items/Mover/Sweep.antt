-- ===== src/Items/Mover/Sweep.antt =====
-- The sweep of slab_rebalance_move of memcached-1.4/slabs.c over its page.
use mathlib.Core.Path.{subst}
use native.Mathlib.Decide.{ℕ_discrete}
use reading_and_comprehense.Base.{
  ℕ, zero, suc, ◌+◌, ◌*◌, ◌%◌, ◌^◌, ◌<◌, ◌≤◌, ◌≡◌, ◌⊎◌, inl, inr, refl, sym, ap, ◌∙◌, arith, leb,
  Bool-cases,
}
use reading_and_comprehense.Items.{Store, item_at}
use reading_and_comprehense.Items.Alloc.{Env}
use reading_and_comprehense.Items.Consistent.{Consistent}
use reading_and_comprehense.Items.Mover.{
  move_chunk, move_loop, cleared_clsid, on_rebalance, step_pos,
}
use reading_and_comprehense.Items.Mover.Chunk.{
  IsClear, Marked, Settled, move_chunk-Settled, copy-Consistent,
}

-- The size of the page's chunks, and the address of the chunk with the number `k`.
abbrev pub chunk_size : Store → ℕ
chunk_size st = (st.memory.slabclass st.rebalance.s_clsid).size

abbrev pub chunk_at : Store → ℕ → ℕ
chunk_at st k = st.rebalance.slab_start + k * chunk_size st

-- What holds during a move: `at` chunks lie behind the mover, and while none of them was busy all are
-- cleared.
pub record Sweeping (env : Env) (st : Store) : Type 0 where
  pub consistent : Consistent env.hash st
  pub marked : Marked st
  pub narrow : (p : ℕ) → (item_at st p).refcount + 1 < 2 ^ 16
  pub sized : 0 < chunk_size st
  pub page : st.rebalance.slab_start < st.rebalance.slab_end
  pub width : st.rebalance.slab_end < st.rebalance.slab_start + 2 ^ 32
  pub at : ℕ
  pub aligned : st.rebalance.slab_pos ≡ chunk_at st at
  pub few : st.rebalance.busy_items ≤ at
  pub swept :
      st.rebalance.busy_items ≡ 0
      → (k : ℕ) → k < at
      → (item_at st (chunk_at st k)).slabs_clsid ≡ cleared_clsid

mul_suc : (n s : ℕ) → (n + 1) * s ≡ n * s + s
mul_suc n s = grind arith

le_mul : (n s : ℕ) → 0 < s → n ≤ n * s
le_mul zero s h = omega arith
le_mul (suc n) s h = omega (arith, le_mul n s h, mul_suc n s)

module _ (env : Env) (st : Store) (w : Sweeping env st)
    (inside : st.rebalance.slab_pos < st.rebalance.slab_end) where
  abbrev p : ℕ
  p = st.rebalance.slab_pos

  abbrev moved : ℕ × Store
  moved = move_chunk env st

  abbrev next : Store
  next = on_rebalance (step_pos (moved.1.memory.slabclass moved.1.rebalance.s_clsid).size) moved.1

  settled : Settled env p st moved
  settled = move_chunk-Settled env st w.consistent w.marked (w.narrow p)

  -- The variables that a chunk leaves alone, and the count of busy items.
  fixed :
      (moved.1.rebalance.slab_start ≡ st.rebalance.slab_start)
      × (moved.1.rebalance.slab_end ≡ st.rebalance.slab_end)
      × (moved.1.rebalance.slab_pos ≡ st.rebalance.slab_pos)
      × (moved.1.rebalance.s_clsid ≡ st.rebalance.s_clsid)
      × (moved.1.rebalance.done ≡ st.rebalance.done)
  fixed = ground (arith, settled.outcome)

  same_size : (moved.1.memory.slabclass moved.1.rebalance.s_clsid).size ≡ chunk_size st
  same_size = rw (fixed.3) (settled.size st.rebalance.s_clsid)

  at_pos : (item_at next p ≡ item_at st p) ⊎ IsClear (item_at next p)
  at_pos = elim settled.outcome [ inl (_, clear, _) ↦ inr clear | inr (_, same, _) ↦ inl same ]

  busy :
      ((next.rebalance.busy_items ≡ st.rebalance.busy_items) × IsClear (item_at next p))
      ⊎ (next.rebalance.busy_items ≡ (st.rebalance.busy_items + 1) % 2 ^ 32)
  busy = elim settled.outcome [
    | inl (_, clear, e) ↦ inl (ap (λ r. r.busy_items) e, clear)
    | inr (_, _, e) ↦ inr (ap (λ r. r.busy_items) e)
  ]

  items : (q : ℕ) → (item_at next q ≡ item_at st q) ⊎ ((q ≡ p) × IsClear (item_at next q))
  items q = elim (ℕ_discrete q p) [
    | yes e ↦
        subst (λ a. (item_at next a ≡ item_at st a) ⊎ ((a ≡ p) × IsClear (item_at next a))) (sym e)
          (elim at_pos [ inl same ↦ inl same | inr clear ↦ inr (refl, clear) ])
    | no ne ↦ inl (settled.others q ne)
  ]

  no_wrap : st.rebalance.busy_items + 1 < 2 ^ 32
  no_wrap = omega (arith, inside, w.width, w.few, w.aligned, le_mul w.at (chunk_size st) w.sized)

  busy_step : next.rebalance.busy_items ≤ st.rebalance.busy_items + 1
  busy_step = ground (arith, busy, no_wrap)

  -- A count of 0 means that the chunk is cleared and that there was no busy one before.
  none_busy :
      next.rebalance.busy_items ≡ 0 → (st.rebalance.busy_items ≡ 0) × IsClear (item_at next p)
  none_busy z = ground (arith, busy, no_wrap)

  same_chunk : (k : ℕ) → chunk_at next k ≡ chunk_at st k
  same_chunk k = ground (arith, fixed, same_size)

  next-Sweeping : Sweeping env next
  next-Sweeping = record {
    consistent = copy-Consistent moved.1 next refl (λ q. refl) refl refl settled.consistent;
    marked = λ q h. ground (arith, items q, w.marked q);
    narrow = λ q. ground (arith, items q, w.narrow q);
    sized = rw same_size w.sized;
    page = ground (arith, fixed, w.page);
    width = ground (arith, fixed, w.width);
    at = w.at + 1;
    aligned = ground (arith, fixed, same_size, w.aligned, mul_suc w.at (chunk_size st));
    few = omega (arith, w.few, busy_step);
    swept = λ none k lt. elim (ℕ_discrete k w.at) [
      | yes e ↦
          let here : chunk_at next k ≡ p = same_chunk k ∙ ap (chunk_at st) e ∙ sym w.aligned in
          subst (λ a. (item_at next a).slabs_clsid ≡ cleared_clsid) (sym here)
            (((none_busy none).1).0)
      | no ne ↦ rw (same_chunk k) (
          ground
            (arith, items (chunk_at st k), w.swept (none_busy none).0 k (omega (arith, lt, ne))))
    ];
  }

  next_done : next.rebalance.done ≡ st.rebalance.done
  next_done = fixed.4

-- The loop stays in a sweep, and stops at the end of the page at the latest.
pub loop-Sweeping :
    (env : Env) (rounds was_busy : ℕ) (st : Store)
    → Sweeping env st
    → st.rebalance.slab_pos < st.rebalance.slab_end
    → Sweeping env (move_loop env rounds was_busy st).1
      × ((move_loop env rounds was_busy st).1.rebalance.done ≡ st.rebalance.done)
unfolding move_loop
loop-Sweeping env zero was_busy st w inside = (w, refl)
loop-Sweeping env (suc rounds) was_busy st w inside =
    let st2 = next env st w inside in
    let w2 = next-Sweeping env st w inside in
    let more = λ (h : st2.rebalance.slab_pos < st2.rebalance.slab_end).
      loop-Sweeping env rounds (was_busy + (move_chunk env st).0) st2 w2 h in
    elim (Bool-cases (leb st2.rebalance.slab_end st2.rebalance.slab_pos)) [
      | inl end ↦ rw end (w2, next_done env st w inside)
      | inr still ↦
          rw still ((more (ground arith)).0, (more (ground arith)).1 ∙ next_done env st w inside)
    ]
