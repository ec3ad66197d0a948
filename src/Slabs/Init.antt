-- ===== src/Slabs/Init.antt =====
-- The chunk sizes that slabs_init of memcached-1.4/slabs.c computes.
use reading_and_comprehense.Base.{
  ℕ, zero, suc, ◌+◌, ◌-◌, ◌*◌, ◌%◌, ◌/◌, ◌<◌, ◌≤◌, ◌≡◌, refl, ◌∙◌, Bool, true, arith, Bool-cases,
  inl, inr, update,
}
use reading_and_comprehense.Memory.{Memory, SlabClass, Settings, zero_class, sizeof_item}
use reading_and_comprehense.Slabs.{
  init_loop, slabs_init, align_chunk, chunk_align_bytes, power_max, power_smallest,
}

align_chunk_lem : (s : ℕ) → (s ≤ align_chunk s) × (align_chunk s ≤ s + 7) × (align_chunk s % 8 ≡ 0)
unfolding align_chunk
align_chunk_lem s = ground arith

-- The factor is at least 1, and leaves room for the alignment under the largest item.
pub record Factor (settings : Settings) (scale : ℕ → ℕ) (fits : ℕ → Bool) : Type 0 where
  pub scale_grows : (s : ℕ) → s ≤ scale s
  pub fits_room : (s : ℕ) → fits s ≡ true → s + 7 ≤ settings.item_size_max

-- The classes from i up to the end L.
record Ladder (max i rounds size : ℕ) (before : ℕ → SlabClass) (L : ℕ) (C : ℕ → SlabClass)
    : Type 0 where
  low : i ≤ L
  high : L ≤ i + rounds
  kept : (j : ℕ) → j < i → C j ≡ before j
  aligned : (j : ℕ) → i ≤ j → j < L → (C j).size % chunk_align_bytes ≡ 0
  bound : (j : ℕ) → i ≤ j → j < L → (C j).size ≤ max
  whole : (j : ℕ) → i ≤ j → j < L → (C j).perslab * (C j).size ≤ max
  floor : (j : ℕ) → i ≤ j → j < L → size ≤ (C j).size
  mono : (j : ℕ) → i ≤ j → j + 1 < L → (C j).size ≤ (C (j + 1)).size

per_page : (max s : ℕ) → (max / s) * s ≤ max
per_page max s = grind arith

module _ (settings : Settings) (scale : ℕ → ℕ) (fits : ℕ → Bool)
    (factor : Factor settings scale fits) where
  abbrev max : ℕ
  max = settings.item_size_max

  stop : (i rounds size : ℕ) (classes : ℕ → SlabClass) → Ladder max i rounds size classes i classes
  stop i rounds size classes = record {
    low = omega arith;
    high = omega arith;
    kept = λ j p. refl;
    aligned = λ j p q. absurd (omega arith);
    bound = λ j p q. absurd (omega arith);
    whole = λ j p q. absurd (omega arith);
    floor = λ j p q. absurd (omega arith);
    mono = λ j p q. absurd (omega arith);
  }

  abbrev chunk_class : ℕ → SlabClass → SlabClass
  chunk_class size c = record c { size = align_chunk size; perslab = max / align_chunk size }

  grow :
      (i rounds size L : ℕ) (classes C : ℕ → SlabClass)
      → fits size ≡ true
      → Ladder max
          (i + 1)
          rounds
          (scale (align_chunk size))
          (update classes i (chunk_class size (classes i)))
          L
          C
      → Ladder max i (suc rounds) size classes L C
  grow i rounds size L classes C ok t =
      let here : C i ≡ chunk_class size (classes i) = t.kept i (omega arith) ∙ (ground arith) in
      let a = align_chunk_lem size in
      record {
        low = omega (arith, t.low);
        high = omega (arith, t.high);
        kept = λ j p. t.kept j (omega arith) ∙ (ground arith);
        aligned = λ j p q. ground (arith, here, a, t.aligned j);
        bound = λ j p q. ground (arith, here, a, t.bound j, factor.fits_room size);
        whole = λ j p q. ground (arith, here, per_page max (align_chunk size), t.whole j);
        floor = λ j p q. ground (arith, here, a, t.floor j, factor.scale_grows (align_chunk size));
        mono = λ j p q.
            ground (arith, here, t.mono j, t.floor (j + 1), factor.scale_grows (align_chunk size));
      }

  init_loop-Ladder :
      (rounds i size : ℕ) (classes : ℕ → SlabClass)
      → Ladder max i rounds size classes
          (init_loop settings scale fits rounds i size classes).0
          (init_loop settings scale fits rounds i size classes).1
  unfolding init_loop
  init_loop-Ladder zero i size classes = stop i 0 size classes
  init_loop-Ladder (suc rounds) i size classes = elim (Bool-cases (fits size)) [
    | inl ok ↦ rw ok (grow i rounds size _ classes _ ok (init_loop-Ladder rounds (i + 1) _ _))
    | inr full ↦ rw full (stop i (suc rounds) size classes)
  ]

  -- What slabs_init builds.
  pub record IsClasses (m : Memory) : Type 0 where
    pub largest : (power_smallest ≤ m.power_largest) × (m.power_largest ≤ power_max)
    pub top : (m.slabclass m.power_largest).size ≡ settings.item_size_max
    pub top_page : (m.slabclass m.power_largest).perslab ≡ 1
    pub aligned :
        (id : ℕ) → 1 ≤ id → id < m.power_largest → (m.slabclass id).size % chunk_align_bytes ≡ 0
    pub page :
        (id : ℕ)
        → 1 ≤ id
        → id ≤ m.power_largest
        → (m.slabclass id).perslab * (m.slabclass id).size ≤ settings.item_size_max
    pub ascending :
        (id : ℕ)
        → 1 ≤ id
        → id < m.power_largest
        → (m.slabclass id).size ≤ (m.slabclass (id + 1)).size

  -- With a growth factor of at least 1 that leaves 7 bytes for the alignment below the largest item
  -- size wherever a chunk is followed by another one (`factor`; slabs_init tests neither),
  -- slabs_init leaves at least one and at most 200 classes; the last holds one item of the largest
  -- size, the chunks of the others are aligned to 8 bytes, the chunks of a page fit into it, and the
  -- sizes never fall from one class to the next.
  pub slabs_init-IsClasses :
      (limit : ℕ) (prealloc : Bool) (m : Memory)
      → IsClasses (slabs_init settings scale fits limit prealloc m)
  unfolding slabs_init
  slabs_init-IsClasses limit prealloc m =
      let t =
        init_loop-Ladder (power_max - 1) power_smallest (sizeof_item + settings.chunk_size)
          (λ _. zero_class) in
      record {
        largest = (t.low, t.high);
        top = ground arith;
        top_page = ground arith;
        aligned = λ id p q. ground (arith, t.aligned id);
        page = λ id p q. ground (arith, t.whole id);
        ascending = λ id p q. ground (arith, t.mono id, t.bound id);
      }
