-- ===== src/Items/Mover.antt =====
-- The page mover of memcached-1.4/slabs.c: slab_rebalance_move, which clears the chunks of a page one
-- by one, and the rounds of slab_rebalance_thread. Slabs.Reassign has the start and the end of a move.
pub mod Chunk
pub mod Sweep
pub mod Page
use reading_and_comprehense.Base.{
  ℕ, zero, suc, ◌+◌, ◌-◌, ◌%◌, ◌^◌, Bool, true, false, not, ◌&&◌, ltb, leb, ◌==◌, if◌then◌else◌,
}
use reading_and_comprehense.Memory.{Item, SlabClass, no_flags, set_class, sub32}
use reading_and_comprehense.Memory.Int.{ℤ, pos, lt_ℤ}
use reading_and_comprehense.Slabs.Reassign.{Rebalance, slab_rebalance_start, slab_rebalance_finish}
use reading_and_comprehense.Items.{
  Store, item_at, edit, refcount_incr, refcount_decr, remove_ptr, do_item_unlink,
}
use reading_and_comprehense.Items.Alloc.{Env}

-- enum move_status.
pub data MoveStatus : Type 0 where
  move_pass move_done move_busy move_locked : MoveStatus

abbrev pub cleared_clsid : ℕ
cleared_clsid = 255

-- A free chunk leaves the free list of its class.
unfoldable pub unlink_slot : ℕ → ℕ → Store → Store
unlink_slot p id st = record st {
  memory =
      set_class id (λ c. record c { slots = remove_ptr p c.slots; sl_curr = sub32 c.sl_curr 1 })
        st.memory;
}

-- What is done with a chunk whose lock is held, with the reference that the mover took.
unfoldable pub release_chunk : ℕ → ℕ → Store → MoveStatus × Store
release_chunk p hv st =
    let it = item_at st p in
    if it.refcount == 1
    then (if it.flags.slabbed
        then (MoveStatus.move_done, unlink_slot p st.rebalance.s_clsid st)
        else (MoveStatus.move_busy, st))
    else if it.refcount == 2
    then (if it.flags.linked
        then (MoveStatus.move_done, do_item_unlink p hv st)
        else (MoveStatus.move_busy, st))
    else (MoveStatus.move_busy, st)

unfoldable pub inspect_chunk : Env → ℕ → Store → MoveStatus × Store
inspect_chunk env p st =
    let hv = env.hash (item_at st p).key in
    if (item_at st p).slabs_clsid == cleared_clsid
    then (MoveStatus.move_pass, st)
    else if not (env.trylock hv)
    then (MoveStatus.move_locked, st)
    else release_chunk p hv (refcount_incr p st)

abbrev pub on_rebalance : (Rebalance → Rebalance) → Store → Store
on_rebalance f st = record st { rebalance = f st.rebalance }

abbrev pub add_busy : Rebalance → Rebalance
add_busy r = record r { busy_items = (r.busy_items + 1) % 2 ^ 32 }

-- The switch on the status: the store, and how much was_busy grows.
unfoldable pub settle_chunk : ℕ → MoveStatus → Store → ℕ × Store
settle_chunk p MoveStatus.move_done st =
    (0, edit p (λ it. record it { refcount = 0; flags = no_flags; slabs_clsid = cleared_clsid }) st)
settle_chunk p MoveStatus.move_busy st = (1, on_rebalance add_busy (refcount_decr p st))
settle_chunk p MoveStatus.move_locked st = (1, on_rebalance add_busy st)
settle_chunk p MoveStatus.move_pass st = (0, st)

-- The body of the loop, before the step to the next chunk.
unfoldable pub move_chunk : Env → Store → ℕ × Store
move_chunk env st =
    let p = st.rebalance.slab_pos in
    let (status, st1) = inspect_chunk env p st in settle_chunk p status st1

abbrev pub step_pos : ℕ → Rebalance → Rebalance
step_pos size r = record r { slab_pos = r.slab_pos + size }

-- The loop over at most `rounds` chunks, with was_busy so far.
unfoldable pub move_loop : Env → ℕ → ℕ → Store → ℕ × Store
move_loop env zero was_busy st = (was_busy, st)
move_loop env (suc rounds) was_busy st =
    let (busy, st1) = move_chunk env st in
    let size = (st1.memory.slabclass st1.rebalance.s_clsid).size in
    let st2 = on_rebalance (step_pos size) st1 in
    let rest = move_loop env rounds (was_busy + busy) st2 in
    if leb st2.rebalance.slab_end st2.rebalance.slab_pos then (was_busy + busy, st2) else rest

-- At the end of the page the mover starts again if a chunk was busy.
abbrev pub end_page : Rebalance → Rebalance
end_page r =
    if leb r.slab_end r.slab_pos
    then (if r.busy_items == 0
        then record r { done = r.done + 1 }
        else record r { slab_pos = r.slab_start; busy_items = 0 })
    else r

unfoldable pub slab_rebalance_move : Env → ℕ → Store → ℕ × Store
slab_rebalance_move env slab_bulk_check st =
    let (was_busy, st1) = move_loop env slab_bulk_check 0 st in
    (was_busy, on_rebalance end_page st1)

-- The first step of a round of slab_rebalance_thread: a requested move is started, or a started one
-- goes on.
unfoldable pub start_or_move : Env → ℕ → Store → Store
start_or_move env slab_bulk_check st =
    let (no_go, memory, r) = slab_rebalance_start st.memory st.rebalance in
    if st.rebalance.signal == 1
    then record st {
      memory = memory;
      rebalance = if lt_ℤ no_go (pos 0) then record r { signal = 0 } else r;
    }
    else if not (st.rebalance.signal == 0) && not (st.rebalance.slab_start == 0)
    then (slab_rebalance_move env slab_bulk_check st).1
    else st

-- A round of slab_rebalance_thread, without its waits.
unfoldable pub rebalance_round : Env → ℕ → Store → Store
rebalance_round env slab_bulk_check st =
    let st1 = start_or_move env slab_bulk_check st in
    if st1.rebalance.done == 0
    then st1
    else let (memory, r) = slab_rebalance_finish st1.settings st1.memory st1.rebalance in
      record st1 { memory = memory; rebalance = r }
