-- ===== src/Slabs/Cycle.antt =====
-- Allocation and freeing of chunks in memcached-1.4/slabs.c, taken together.
use reading_and_comprehense.Base.{
  ℕ, ◌+◌, ◌^◌, ◌<◌, ◌≡◌, ap, arith, inl, inr, some, List, ◌∷◌, length, Option-cases,
}
use reading_and_comprehense.Memory.{Memory, Settings, add64, sub64}
use reading_and_comprehense.Slabs.{
  do_slabs_free, split_slab_page_into_freelist, memset_zero, add_page, page_len, do_slabs_newslab,
  grow_slab_list, memory_allocate, take_slot, do_slabs_alloc,
}
use reading_and_comprehense.Slabs.Alloc.{
  IsClass, IsCounted, free-IsCounted, split_loop-IsCounted, grow-Prepared, memory_allocate-Prepared,
}
use reading_and_comprehense.Slabs.Page.{Prepared-IsCounted, memset-Prepared}

module _ (settings : Settings) (id : ℕ) where
  add_page-IsCounted : (ptr len : ℕ) (m : Memory) → IsCounted m → IsCounted (add_page ptr len id m)
  unfolding add_page split_slab_page_into_freelist
  add_page-IsCounted ptr len m h j =
      let z = memset_zero ptr len m in
      ground (
        arith,
        split_loop-IsCounted (z.slabclass id).perslab ptr id z
            (Prepared-IsCounted id m z (memset-Prepared ptr len id m) h) j,
      )

  newslab-IsCounted : (m : Memory) → IsCounted m → IsCounted (do_slabs_newslab settings id m).1
  unfolding do_slabs_newslab
  newslab-IsCounted m h j =
      let len = page_len settings (m.slabclass id) in
      let g = grow_slab_list id m in
      let hg = Prepared-IsCounted id m g.1 (grow-Prepared id m) h in
      let a = memory_allocate len g.1 in
      let ha = Prepared-IsCounted id g.1 a.1 (memory_allocate-Prepared len id g.1) hg in
      elim (Option-cases a.0) [
        | inl none_left ↦ ground (arith, h j, hg j, ha j)
        | inr (ptr, page) ↦ ground (arith, h j, hg j, add_page-IsCounted ptr len a.1 ha j)
      ]

  take_slot-IsCounted : (size : ℕ) (m : Memory) → IsCounted m → IsCounted (take_slot size id m).1
  unfolding take_slot
  take_slot-IsCounted size m h j = ground (arith, h j)

  -- Allocation keeps the count of the free chunks, also when it has to cut a new page.
  pub alloc-IsCounted :
      (size : ℕ) (m : Memory) → IsCounted m → IsCounted (do_slabs_alloc settings size id m).1
  unfolding do_slabs_alloc
  alloc-IsCounted size m h j =
      let n = do_slabs_newslab settings id m in
      ground (
        arith,
        h j,
        newslab-IsCounted m h j,
        take_slot-IsCounted size m h j,
        take_slot-IsCounted size n.1 (newslab-IsCounted m h) j,
      )

  -- With a free chunk at hand, the head of the list is taken and no page is made.
  pub alloc_head :
      (size it : ℕ) (rest : List ℕ) (m : Memory)
      → IsClass m id
      → IsCounted m
      → (m.slabclass id).slots ≡ it ∷ rest
      → length (it ∷ rest) < 2 ^ 32
      → do_slabs_alloc settings size id m ≡ take_slot size id m
  unfolding do_slabs_alloc
  alloc_head size it rest m ok h e small = ground (arith, h id, ap length e)

  -- A chunk that is freed is the next one that its class hands out, and the class is then as it was
  -- before, but for the bytes counted as requested.
  pub alloc-free :
      (ptr old size : ℕ) (m : Memory)
      → IsClass m id
      → IsCounted m
      → length (m.slabclass id).slots + 1 < 2 ^ 32
      → ((do_slabs_alloc settings size id (do_slabs_free ptr old id m)).0 ≡ some ptr)
        × ((do_slabs_alloc settings size id (do_slabs_free ptr old id m)).1.slabclass id
            ≡ record (m.slabclass id) {
              requested = add64 (sub64 (m.slabclass id).requested old) size;
            })
  unfolding do_slabs_free take_slot
  alloc-free ptr old size m ok h small =
      let f = do_slabs_free ptr old id m in
      let c : IsCounted f = free-IsCounted ptr old id m h in
      let e : (f.slabclass id).slots ≡ ptr ∷ (m.slabclass id).slots = ground arith in
      let okf : IsClass f id = ground arith in
      let a = alloc_head size ptr (m.slabclass id).slots f okf c e (omega arith) in
      rw a (ground (arith, h id))
