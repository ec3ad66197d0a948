-- ===== src/Slabs/Reassign.antt =====
-- Requests to move a page between slab classes (memcached-1.4/slabs.c): the checks of a request, its
-- start, and the hand-over of the emptied page.
pub mod Pick
pub mod Request
use reading_and_comprehense.Base.{
  ℕ, zero, suc, ◌+◌, ◌-◌, ◌*◌, Bool, true, false, not, ◌&&◌, ◌||◌, ltb, leb, ◌==◌, if◌then◌else◌,
  update,
}
use reading_and_comprehense.Memory.{Memory, SlabClass, Settings, set_class, add32, sub32}
use reading_and_comprehense.Memory.Int.{ℤ, pos, negsuc, eq_ℤ, lt_ℤ}
use reading_and_comprehense.Slabs.{
  power_smallest, grow_slab_list, memset_zero, split_slab_page_into_freelist,
}

-- enum reassign_result_type.
pub data ReassignResult : Type 0 where
  ok running badclass nospare src_dst_same : ReassignResult

-- struct slab_rebalance, slab_rebalance_signal, the static `cur` of slabs_reassign_pick_any, and the
-- two fields of `stats` that the mover keeps. A null pointer is 0.
pub record Rebalance : Type 0 where
  pub slab_start : ℕ
  pub slab_end : ℕ
  pub slab_pos : ℕ
  pub s_clsid : ℕ
  pub d_clsid : ℕ
  pub busy_items : ℕ
  pub done : ℕ
  pub signal : ℕ
  pub cur : ℕ
  pub slab_reassign_running : Bool
  pub slabs_moved : ℕ

abbrev pub next_class : Memory → ℕ → ℕ
next_class m cur = if ltb m.power_largest (cur + 1) then power_smallest else cur + 1

-- The loop of slabs_reassign_pick_any: the class, or -1, and the static variable.
unfoldable pub pick_loop : Memory → ℤ → ℕ → ℕ → ℤ × ℕ
pick_loop m dst zero cur = (negsuc 0, cur)
pick_loop m dst (suc tries) cur =
    let next = next_class m cur in
    let rest = pick_loop m dst tries next in
    if eq_ℤ (pos next) dst
    then rest
    else if ltb 1 (m.slabclass next).slabs
    then (pos next, next)
    else rest

unfoldable pub slabs_reassign_pick_any : Memory → ℤ → ℕ → ℤ × ℕ
slabs_reassign_pick_any m dst cur = pick_loop m dst (m.power_largest - power_smallest + 1) cur

abbrev pub class_number : ℤ → ℕ
class_number (pos n) = n
class_number (negsuc n) = 0

abbrev pub bad_class : Memory → ℤ → Bool
bad_class m id = lt_ℤ id (pos power_smallest) || lt_ℤ (pos m.power_largest) id

-- The checks behind the choice of the source.
unfoldable pub check_reassign : Memory → ℤ → ℤ → Rebalance → ReassignResult × Rebalance
check_reassign m src dst r =
    if bad_class m src || bad_class m dst
    then (badclass, r)
    else if ltb (m.slabclass (class_number src)).slabs 2
    then (nospare, r)
    else (ok, record r { s_clsid = class_number src; d_clsid = class_number dst; signal = 1 })

unfoldable pub do_slabs_reassign : Memory → ℤ → ℤ → Rebalance → ReassignResult × Rebalance
do_slabs_reassign m src dst r =
    let (picked, cur) = slabs_reassign_pick_any m dst r.cur in
    if not (r.signal == 0)
    then (running, r)
    else if eq_ℤ src dst
    then (src_dst_same, r)
    else if eq_ℤ src (negsuc 0)
    then check_reassign m picked dst (record r { cur = cur })
    else check_reassign m src dst r

-- `lock_free` is whether the trylock of slabs_rebalance_lock succeeds.
unfoldable pub slabs_reassign : Bool → Memory → ℤ → ℤ → Rebalance → ReassignResult × Rebalance
slabs_reassign lock_free m src dst r =
    if lock_free then do_slabs_reassign m src dst r else (running, r)

abbrev pub bad_pair : Memory → Rebalance → Bool
bad_pair m r =
    ltb r.s_clsid power_smallest
    || ltb m.power_largest r.s_clsid
    || ltb r.d_clsid power_smallest
    || ltb m.power_largest r.d_clsid
    || r.s_clsid == r.d_clsid

-- The last check decides the code: -3, else -1, else -2, else 0.
unfoldable pub slab_rebalance_start : Memory → Rebalance → ℤ × Memory × Rebalance
slab_rebalance_start m r =
    let (grown, m1) = grow_slab_list r.d_clsid m in
    let s_cls = m1.slabclass r.s_clsid in
    let start = s_cls.slab_list 0 in
    if ltb s_cls.slabs 2
    then (negsuc 2, m1, r)
    else if not grown
    then (negsuc 0, m1, r)
    else if bad_pair m r
    then (negsuc 1, m1, r)
    else (
      pos 0,
      set_class r.s_clsid (λ c. record c { killing = 1 }) m1,
      record r {
        slab_start = start;
        slab_end = start + s_cls.size * s_cls.perslab;
        slab_pos = start;
        done = 0;
        signal = 2;
        slab_reassign_running = true;
      },
    )

unfoldable pub slab_rebalance_finish : Settings → Memory → Rebalance → Memory × Rebalance
slab_rebalance_finish settings m r =
    let m1 =
      set_class r.s_clsid
        (λ c. record c {
          slab_list = update c.slab_list (c.killing - 1) (c.slab_list (c.slabs - 1));
          slabs = sub32 c.slabs 1;
          killing = 0;
        })
        m in
    let m2 = memset_zero r.slab_start settings.item_size_max m1 in
    let m3 =
      set_class r.d_clsid
        (λ c. record c {
          slab_list = update c.slab_list c.slabs r.slab_start;
          slabs = add32 c.slabs 1;
        })
        m2 in
    (
      split_slab_page_into_freelist r.slab_start r.d_clsid m3,
      record r {
        done = 0;
        s_clsid = 0;
        d_clsid = 0;
        slab_start = 0;
        slab_end = 0;
        slab_pos = 0;
        signal = 0;
        slab_reassign_running = false;
        slabs_moved = r.slabs_moved + 1;
      },
    )
