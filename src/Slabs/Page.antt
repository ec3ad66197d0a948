-- ===== src/Slabs/Page.antt =====
-- do_slabs_newslab and do_slabs_alloc of memcached-1.4/slabs.c.
use reading_and_comprehense.Base.{
  ℕ, ◌+◌, ◌≤◌, ◌≡◌, ◌≢◌, refl, Bool, true, false, arith, ltb, ◌==◌, Bool-cases, ◌⊎◌, inl, inr,
  Option-cases, not, ◌&&◌,
}
use reading_and_comprehense.Memory.{Memory, Settings, add32}
use reading_and_comprehense.Slabs.{
  split_slab_page_into_freelist, memset_zero, add_page, page_len, do_slabs_newslab, grow_slab_list,
  memory_allocate,
}
use reading_and_comprehense.Slabs.Alloc.{
  IsClass, IsCounted, chunk_list, split_loop-Split, Prepared, grow-Prepared,
  memory_allocate-Prepared, Prepared-trans,
}

-- What a new page adds.
pub record NewPage (settings : Settings) (id : ℕ) (m m' : Memory) : Type 0 where
  pub ptr : ℕ
  pub slots :
      (m'.slabclass id).slots
      ≡ chunk_list (m.slabclass id).perslab ptr (m.slabclass id).size (m.slabclass id).slots
  pub slabs : (m'.slabclass id).slabs ≡ add32 (m.slabclass id).slabs 1
  pub others : (j : ℕ) → j ≢ id → m'.slabclass j ≡ m.slabclass j
  pub malloced : m'.mem_malloced ≡ m.mem_malloced + page_len settings (m.slabclass id)
  pub limited : (m.mem_limit ≡ 0) ⊎ (m'.mem_malloced ≤ m.mem_limit) ⊎ ((m.slabclass id).slabs ≡ 0)

-- What a failed attempt leaves alone: at most the array of the page addresses has grown.
pub record NoPage (id : ℕ) (m m' : Memory) : Type 0 where
  pub slots : (j : ℕ) → (m'.slabclass j).slots ≡ (m.slabclass j).slots
  pub slabs : (j : ℕ) → (m'.slabclass j).slabs ≡ (m.slabclass j).slabs
  pub malloced : m'.mem_malloced ≡ m.mem_malloced

abbrev pub PageResult : Settings → ℕ → Memory → Bool × Memory → Type 0
PageResult settings id m (true, m') = NewPage settings id m m'
PageResult settings id m (false, m') = NoPage id m m'

pub memset-Prepared : (ptr len id : ℕ) (m : Memory) → Prepared id m (memset_zero ptr len m)
unfolding memset_zero
memset-Prepared ptr len id m = record {
  slots = λ j. refl;
  slabs = λ j. refl;
  size = λ j. refl;
  perslab = λ j. refl;
  counted = λ j. refl;
  others = λ j ne. refl;
  malloced = refl;
  largest = refl;
}

pub Prepared-IsCounted : (id : ℕ) (m m' : Memory) → Prepared id m m' → IsCounted m → IsCounted m'
Prepared-IsCounted id m m' p h j = ground (arith, p.slots j, p.counted j, h j)

module _ (settings : Settings) (id : ℕ) where
  abbrev Limited : Memory → Memory → Type 0
  Limited m m' = (m.mem_limit ≡ 0) ⊎ (m'.mem_malloced ≤ m.mem_limit) ⊎ ((m.slabclass id).slabs ≡ 0)

  add_page-NewPage :
      (ptr : ℕ) (m m2 : Memory)
      → IsClass m id
      → Prepared id m m2
      → (m.mem_limit ≡ 0)
        ⊎ (m.mem_malloced + page_len settings (m.slabclass id) ≤ m.mem_limit)
        ⊎ ((m.slabclass id).slabs ≡ 0)
      → NewPage settings id m (add_page ptr (page_len settings (m.slabclass id)) id m2)
  unfolding add_page split_slab_page_into_freelist
  add_page-NewPage ptr m m2 ok p limit =
      let len = page_len settings (m.slabclass id) in
      let z = memset_zero ptr len m2 in
      let q = Prepared-trans id m m2 z p (memset-Prepared ptr len id m2) in
      let t = split_loop-Split (z.slabclass id).perslab ptr id z (rw q.largest ok) in
      record {
        ptr = ptr;
        slots = ground (arith, t.slots, q.slots id, q.size id, q.perslab id);
        slabs = ground (arith, t.slabs, q.slabs id);
        others = λ j ne. ground (arith, t.others j ne, q.others j ne);
        malloced = ground (arith, t.malloced, q.malloced);
        limited = ground (arith, t.malloced, q.malloced, limit);
      }

  Prepared-NoPage : (m m' : Memory) → Prepared id m m' → NoPage id m m'
  Prepared-NoPage m m' p = record { slots = p.slots; slabs = p.slabs; malloced = p.malloced }

  -- The test of the memory limit.
  abbrev over : Memory → Bool
  over m =
      not (m.mem_limit == 0)
      && ltb m.mem_limit (m.mem_malloced + page_len settings (m.slabclass id))
      && ltb 0 (m.slabclass id).slabs

  under_limit :
      (m : Memory)
      → over m ≡ false
      → (m.mem_limit ≡ 0)
        ⊎ (m.mem_malloced + page_len settings (m.slabclass id) ≤ m.mem_limit)
        ⊎ ((m.slabclass id).slabs ≡ 0)
  under_limit m e = ground arith

  -- A new page puts its chunks in front of the class's free list, counts one page and its bytes, and
  -- touches no other class; it keeps the memory limit unless the class had no page yet. A failed
  -- attempt changes no free list, no page count and no byte count.
  pub do_slabs_newslab-Page :
      (m : Memory) → IsClass m id → PageResult settings id m (do_slabs_newslab settings id m)
  unfolding do_slabs_newslab
  do_slabs_newslab-Page m ok =
      let len = page_len settings (m.slabclass id) in
      let g = grow_slab_list id m in
      let p = grow-Prepared id m in
      let a = memory_allocate len g.1 in
      let q = Prepared-trans id m g.1 a.1 p (memory_allocate-Prepared len id g.1) in
      elim (Bool-cases (over m)) [
        | inl e ↦ rw e (record { slots = λ j. refl; slabs = λ j. refl; malloced = refl })
        | inr e ↦ elim (Bool-cases g.0) [
          | inl grown ↦ elim (Option-cases a.0) [
            | inl no_page ↦ rw (e, grown, no_page) (Prepared-NoPage m a.1 q)
            | inr (ptr, page) ↦
                rw (e, grown, page) (add_page-NewPage ptr m a.1 ok q (under_limit m e))
          ]
          | inr stuck ↦ rw (e, stuck) (Prepared-NoPage m g.1 p)
        ]
      ]
