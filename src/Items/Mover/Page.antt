-- ===== src/Items/Mover/Page.antt =====
-- The end of the page in slab_rebalance_move of memcached-1.4/slabs.c, and the call as a whole.
use native.Mathlib.Decide.{dec_lt}
use reading_and_comprehense.Base.{
  ℕ, ◌+◌, ◌*◌, ◌<◌, ◌≤◌, ◌≡◌, inl, inr, refl, ap, ◌∙◌, arith, leb, ◌==◌, Bool-cases,
}
use reading_and_comprehense.Items.{Store, item_at}
use reading_and_comprehense.Items.Alloc.{Env}
use reading_and_comprehense.Items.Consistent.{Consistent}
use reading_and_comprehense.Items.Mover.{move_loop, slab_rebalance_move, on_rebalance, end_page}
use reading_and_comprehense.Items.Mover.Chunk.{IsClear, copy-Consistent}
use reading_and_comprehense.Items.Mover.Sweep.{chunk_size, chunk_at, Sweeping, loop-Sweeping}

mul_mono : (a b s : ℕ) → a ≤ b → a * s ≤ b * s
mul_mono a b s h = grind arith

-- Every chunk of the page is cleared.
abbrev pub PageClear : Store → Type 0
PageClear st =
    (k : ℕ) → chunk_at st k < st.rebalance.slab_end → IsClear (item_at st (chunk_at st k))

-- A call either goes on, with the mover inside the page, or sets `done` and leaves a clear page.
pub data MoveResult (env : Env) (st : Store) : Store → Type 0 where
  goes_on :
      {st' : Store}
      → st'.rebalance.done ≡ st.rebalance.done
      → Sweeping env st'
      → st'.rebalance.slab_pos < st'.rebalance.slab_end
      → MoveResult env st st'
  page_done :
      {st' : Store}
      → st'.rebalance.done ≡ st.rebalance.done + 1
      → Consistent env.hash st'
      → PageClear st'
      → MoveResult env st st'

module _ (env : Env) (st : Store) (w : Sweeping env st) where
  past_all :
      st.rebalance.slab_end ≤ st.rebalance.slab_pos
      → (k : ℕ) → chunk_at st k < st.rebalance.slab_end
      → k < w.at
  past_all past k inside = elim (dec_lt k w.at) [
    | yes lt ↦ lt
    | no ge ↦ absurd (
        omega (arith, past, inside, w.aligned, mul_mono w.at k (chunk_size st) (omega (arith, ge))))
  ]

  restart : Store
  restart = on_rebalance (λ r. record r { slab_pos = r.slab_start; busy_items = 0 }) st

  finished : Store
  finished = on_rebalance (λ r. record r { done = r.done + 1 }) st

  restart-Sweeping : Sweeping env restart
  unfolding restart
  restart-Sweeping = record {
    consistent = copy-Consistent st restart refl (λ q. refl) refl refl w.consistent;
    marked = w.marked;
    narrow = w.narrow;
    sized = w.sized;
    page = w.page;
    width = w.width;
    at = 0;
    aligned = omega arith;
    few = omega arith;
    swept = λ _ k lt. absurd (omega arith);
  }

  end-MoveResult : MoveResult env st (on_rebalance end_page st)
  unfolding restart finished
  end-MoveResult = elim (Bool-cases (leb st.rebalance.slab_end st.rebalance.slab_pos)) [
    | inr still ↦ rw still (goes_on refl w (ground arith))
    | inl past ↦ elim (Bool-cases (st.rebalance.busy_items == 0)) [
      | inr some_busy ↦ rw (past, some_busy) (goes_on refl restart-Sweeping w.page)
      | inl none ↦
          rw (past, none)
            (page_done refl (copy-Consistent st finished refl (λ q. refl) refl refl w.consistent)
              (λ k inside.
                w.marked (chunk_at st k)
                  (w.swept (ground arith) k (past_all (ground arith) k inside))))
    ]
  ]

after_loop :
    (env : Env) (st st1 st2 : Store)
    → st1.rebalance.done ≡ st.rebalance.done
    → MoveResult env st1 st2
    → MoveResult env st st2
after_loop env st st1 _ e (goes_on d w inside) = goes_on (d ∙ e) w inside
after_loop env st st1 _ e (page_done d c clear) = page_done (d ∙ ap (λ (n : ℕ). n + 1) e) c clear

-- A call of slab_rebalance_move on a page that is being swept either goes on, with the mover inside the
-- page and the store consistent, or sets `done`; then the store is consistent and every chunk of the
-- page has the class number 255, no reference and no flag, so that no item is left in it.
pub slab_rebalance_move-MoveResult :
    (env : Env) (slab_bulk_check : ℕ) (st : Store)
    → Sweeping env st
    → st.rebalance.slab_pos < st.rebalance.slab_end
    → MoveResult env st (slab_rebalance_move env slab_bulk_check st).1
unfolding slab_rebalance_move
slab_rebalance_move-MoveResult env slab_bulk_check st w inside =
    let st1 = (move_loop env slab_bulk_check 0 st).1 in
    let (w1, same) = loop-Sweeping env slab_bulk_check 0 st w inside in
    after_loop env st st1 (on_rebalance end_page st1) same (end-MoveResult env st1 w1)
