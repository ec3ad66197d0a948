-- ===== src/Slabs.antt =====
-- The slab allocator (memcached-1.4/slabs.c): classes of chunks, pages cut into a free list, and the
-- accounting. Assertions and the debugging prints are left out.
pub mod Clsid
pub mod Init
pub mod Alloc
pub mod Page
pub mod Cycle
pub mod Reassign
pub mod Automove
use reading_and_comprehense.Base.{
  ℕ, zero, suc, ◌+◌, ◌-◌, ◌*◌, ◌/◌, ◌%◌, ◌^◌, Bool, true, false, not, ◌&&◌, ◌||◌, Option, none,
  some, List, [], ◌∷◌, ltb, leb, ◌==◌, if◌then◌else◌, update,
}
use reading_and_comprehense.Memory.{
  Memory, SlabClass, Item, Settings, zero_class, zero_item, set_item, set_class, heap_alloc,
  sizeof_item, add32, sub32, add64, sub64,
}

abbrev pub power_smallest : ℕ
power_smallest = 1

abbrev pub power_max : ℕ
power_max = 200

abbrev pub chunk_align_bytes : ℕ
chunk_align_bytes = 8

-- The while loop of slabs_clsid, with the number of classes above `res`.
unfoldable pub clsid_loop : Memory → ℕ → ℕ → ℕ → ℕ
clsid_loop m size zero res = if ltb (m.slabclass res).size size then 0 else res
clsid_loop m size (suc above) res =
    let next = clsid_loop m size above (res + 1) in
    if ltb (m.slabclass res).size size then next else res

unfoldable pub slabs_clsid : Memory → ℕ → ℕ
slabs_clsid m size =
    if size == 0 then 0 else clsid_loop m size (m.power_largest - power_smallest) power_smallest

unfoldable pub align_chunk : ℕ → ℕ
align_chunk size =
    if size % chunk_align_bytes == 0
    then size
    else size + (chunk_align_bytes - size % chunk_align_bytes)

-- `scale size` is `size *= factor` and `fits size` is `size <= settings.item_size_max / factor`, both
-- in doubles.
module _ (settings : Settings) (scale : ℕ → ℕ) (fits : ℕ → Bool) where
  -- The while loop of slabs_init, with the rounds that are left before POWER_LARGEST: the class
  -- number at which it stops, and the classes.
  unfoldable pub init_loop : ℕ → ℕ → ℕ → (ℕ → SlabClass) → ℕ × (ℕ → SlabClass)
  init_loop zero i size classes = (i, classes)
  init_loop (suc rounds) i size classes =
      let chunk = align_chunk size in
      let c = record (classes i) { size = chunk; perslab = settings.item_size_max / chunk } in
      let rest = init_loop rounds (i + 1) (scale chunk) (update classes i c) in
      if fits size then rest else (i, classes)

  -- slabs_init without the preallocation of pages, which follows it.
  unfoldable pub slabs_init : ℕ → Bool → Memory → Memory
  slabs_init limit prealloc m =
      let (base, m1) = if prealloc then heap_alloc limit m else (none, m) in
      let got : Bool = elim base [ none ↦ false | some _ ↦ true ] in
      let (largest, classes) =
        init_loop (power_max - 1) power_smallest (sizeof_item + settings.chunk_size)
          (λ _. zero_class) in
      record m1 {
        slabclass =
            update classes largest
              (record (classes largest) { size = settings.item_size_max; perslab = 1 });
        mem_limit = limit;
        power_largest = largest;
        mem_base = base;
        mem_current = elim base [ none ↦ m.mem_current | some p ↦ p ];
        mem_avail = if got then limit else m.mem_avail;
      }

unfoldable pub grow_slab_list : ℕ → Memory → Bool × Memory
grow_slab_list id m =
    let p = m.slabclass id in
    if p.slabs == p.list_size
    then (let new_size = if p.list_size == 0 then 16 else p.list_size * 2 in
        let (new_list, m1) = heap_alloc (new_size * 8) m in
        elim new_list [
          | none ↦ (false, m1)
          | some _ ↦ (true, set_class id (λ c. record c { list_size = new_size }) m1)
        ])
    else (true, m)

unfoldable pub memory_allocate : ℕ → Memory → Option ℕ × Memory
memory_allocate size m = elim m.mem_base [
  | none ↦ heap_alloc size m
  | some _ ↦
      let aligned = align_chunk size in
      if ltb m.mem_avail size then (none, m) else (
        some m.mem_current,
        record m {
          mem_current = m.mem_current + aligned;
          mem_avail = if ltb aligned m.mem_avail then m.mem_avail - aligned else 0;
        },
      )
]

unfoldable pub do_slabs_free : ℕ → ℕ → ℕ → Memory → Memory
do_slabs_free ptr size id m =
    if ltb id power_smallest || ltb m.power_largest id
    then m
    else set_class id
        (λ c. record c {
          slots = ptr ∷ c.slots;
          sl_curr = add32 c.sl_curr 1;
          requested = sub64 c.requested size;
        })
        (set_item ptr (λ it. record it { flags = record (it.flags) { slabbed = true } }) m)

-- `rounds` chunks from `ptr` on.
unfoldable pub split_loop : ℕ → ℕ → ℕ → Memory → Memory
split_loop zero ptr id m = m
split_loop (suc rounds) ptr id m =
    split_loop rounds (ptr + (m.slabclass id).size) id (do_slabs_free ptr 0 id m)

unfoldable pub split_slab_page_into_freelist : ℕ → ℕ → Memory → Memory
split_slab_page_into_freelist ptr id m = split_loop (m.slabclass id).perslab ptr id m

unfoldable pub memset_zero : ℕ → ℕ → Memory → Memory
memset_zero ptr len m = record m {
  items = λ p. if leb ptr p && ltb p (ptr + len) then zero_item else m.items p;
}

abbrev pub page_len : Settings → SlabClass → ℕ
page_len settings p = if settings.slab_reassign then settings.item_size_max else p.size * p.perslab

-- What do_slabs_newslab does with its page.
unfoldable pub add_page : ℕ → ℕ → ℕ → Memory → Memory
add_page ptr len id m =
    let m1 = split_slab_page_into_freelist ptr id (memset_zero ptr len m) in
    record (set_class id
      (λ c. record c { slab_list = update c.slab_list c.slabs ptr; slabs = add32 c.slabs 1 }) m1) {
        mem_malloced = m1.mem_malloced + len;
      }

unfoldable pub do_slabs_newslab : Settings → ℕ → Memory → Bool × Memory
do_slabs_newslab settings id m =
    let p = m.slabclass id in
    let len = page_len settings p in
    if not (m.mem_limit == 0) && ltb m.mem_limit (m.mem_malloced + len) && ltb 0 p.slabs
    then (false, m)
    else (let (grown, m1) = grow_slab_list id m in
        if grown
        then (let (page, m2) = memory_allocate len m1 in
            elim page [ none ↦ (false, m2) | some ptr ↦ (true, add_page ptr len id m2) ])
        else (false, m1))

-- The last branch of do_slabs_alloc: the head of the free list.
unfoldable pub take_slot : ℕ → ℕ → Memory → Option ℕ × Memory
take_slot size id m = elim (m.slabclass id).slots [
  | [] ↦ (none, m)
  | it ∷ rest ↦ (
    some it,
    set_class id
        (λ c. record c {
          slots = rest;
          sl_curr = sub32 c.sl_curr 1;
          requested = add64 c.requested size;
        })
        m,
  )
]

unfoldable pub do_slabs_alloc : Settings → ℕ → ℕ → Memory → Option ℕ × Memory
do_slabs_alloc settings size id m =
    if ltb id power_smallest || ltb m.power_largest id
    then (none, m)
    else (let (room, m1) =
          if (m.slabclass id).sl_curr == 0 then do_slabs_newslab settings id m else (true, m) in
        if room && not ((m1.slabclass id).sl_curr == 0) then take_slot size id m1 else (none, m1))

-- `none` is the abort on an invalid class.
unfoldable pub slabs_adjust_mem_requested : ℕ → ℕ → ℕ → Memory → Option Memory
slabs_adjust_mem_requested id old ntotal m =
    if ltb id power_smallest || ltb m.power_largest id
    then none
    else some (set_class id (λ c. record c { requested = add64 (sub64 c.requested old) ntotal }) m)

-- The loop of slabs_preallocate over the classes; `none` is the exit.
unfoldable pub preallocate_loop : Settings → ℕ → ℕ → Memory → Option Memory
preallocate_loop settings zero i m = some m
preallocate_loop settings (suc rounds) i m =
    let (made, m1) = do_slabs_newslab settings i m in
    let rest = preallocate_loop settings rounds (i + 1) m1 in if made then rest else none

-- The loop stops at `maxslabs` classes or at POWER_LARGEST.
unfoldable pub slabs_preallocate : Settings → ℕ → Memory → Option Memory
slabs_preallocate settings maxslabs m =
    preallocate_loop settings (if ltb power_max maxslabs then power_max else maxslabs)
      power_smallest m
