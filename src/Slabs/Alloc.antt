-- ===== src/Slabs/Alloc.antt =====
-- Pages, allocation and freeing of chunks in memcached-1.4/slabs.c.
use reading_and_comprehense.Base.{
  ℕ, zero, suc, ◌+◌, ◌%◌, ◌^◌, ◌≤◌, ◌≡◌, ◌≢◌, refl, ◌∙◌, arith, List, ◌∷◌, length,
}
use reading_and_comprehense.Memory.{Memory, heap_alloc}
use reading_and_comprehense.Slabs.{do_slabs_free, split_loop, grow_slab_list, memory_allocate}

abbrev pub IsClass : Memory → ℕ → Type 0
IsClass m id = (1 ≤ id) × (id ≤ m.power_largest)

-- The counter of free chunks is the length of the free list, as an unsigned int.
abbrev pub IsCounted : Memory → Type 0
IsCounted m = (id : ℕ) → (m.slabclass id).sl_curr ≡ length (m.slabclass id).slots % 2 ^ 32

-- The chunks of a page, each put in front of the free list.
unfoldable pub chunk_list : ℕ → ℕ → ℕ → List ℕ → List ℕ
chunk_list zero ptr size acc = acc
chunk_list (suc n) ptr size acc = chunk_list n (ptr + size) size (ptr ∷ acc)

pub free-IsCounted :
    (ptr size id : ℕ) (m : Memory) → IsCounted m → IsCounted (do_slabs_free ptr size id m)
unfolding do_slabs_free
free-IsCounted ptr size id m h j = ground (arith, h j)

pub split_loop-IsCounted :
    (n ptr id : ℕ) (m : Memory) → IsCounted m → IsCounted (split_loop n ptr id m)
unfolding split_loop
split_loop-IsCounted zero ptr id m h = h
split_loop-IsCounted (suc n) ptr id m h =
    split_loop-IsCounted n _ id _ (free-IsCounted ptr 0 id m h)

-- What cutting a page into chunks leaves alone, and the free list that it makes.
pub record Split (n ptr id : ℕ) (m m' : Memory) : Type 0 where
  pub slots :
      (m'.slabclass id).slots ≡ chunk_list n ptr (m.slabclass id).size (m.slabclass id).slots
  pub slabs : (m'.slabclass id).slabs ≡ (m.slabclass id).slabs
  pub size : (m'.slabclass id).size ≡ (m.slabclass id).size
  pub others : (j : ℕ) → j ≢ id → m'.slabclass j ≡ m.slabclass j
  pub malloced : m'.mem_malloced ≡ m.mem_malloced
  pub largest : m'.power_largest ≡ m.power_largest

pub free-Split :
    (ptr size id : ℕ) (m : Memory) → IsClass m id → Split 1 ptr id m (do_slabs_free ptr size id m)
unfolding do_slabs_free chunk_list
free-Split ptr size id m ok = record {
  slots = ground arith;
  slabs = ground arith;
  size = ground arith;
  others = λ j ne. ground arith;
  malloced = ground arith;
  largest = ground arith;
}

pub split_loop-Split :
    (n ptr id : ℕ) (m : Memory) → IsClass m id → Split n ptr id m (split_loop n ptr id m)
unfolding split_loop chunk_list
split_loop-Split zero ptr id m ok = record {
  slots = refl;
  slabs = refl;
  size = refl;
  others = λ j _. refl;
  malloced = refl;
  largest = refl;
}
split_loop-Split (suc n) ptr id m ok =
    let one = free-Split ptr 0 id m ok in
    let t =
      split_loop-Split n (ptr + (m.slabclass id).size) id (do_slabs_free ptr 0 id m)
        (rw one.largest ok) in
    record {
      slots = ground (arith, t.slots, one.slots, one.size);
      slabs = t.slabs ∙ one.slabs;
      size = t.size ∙ one.size;
      others = λ j ne. t.others j ne ∙ one.others j ne;
      malloced = t.malloced ∙ one.malloced;
      largest = t.largest ∙ one.largest;
    }

-- The first two steps change nothing that the page's classes show.
pub record Prepared (id : ℕ) (m m' : Memory) : Type 0 where
  pub slots : (j : ℕ) → (m'.slabclass j).slots ≡ (m.slabclass j).slots
  pub slabs : (j : ℕ) → (m'.slabclass j).slabs ≡ (m.slabclass j).slabs
  pub size : (j : ℕ) → (m'.slabclass j).size ≡ (m.slabclass j).size
  pub perslab : (j : ℕ) → (m'.slabclass j).perslab ≡ (m.slabclass j).perslab
  pub counted : (j : ℕ) → (m'.slabclass j).sl_curr ≡ (m.slabclass j).sl_curr
  pub others : (j : ℕ) → j ≢ id → m'.slabclass j ≡ m.slabclass j
  pub malloced : m'.mem_malloced ≡ m.mem_malloced
  pub largest : m'.power_largest ≡ m.power_largest

pub grow-Prepared : (id : ℕ) (m : Memory) → Prepared id m (grow_slab_list id m).1
unfolding grow_slab_list heap_alloc
grow-Prepared id m = record {
  slots = λ j. ground arith;
  slabs = λ j. ground arith;
  size = λ j. ground arith;
  perslab = λ j. ground arith;
  counted = λ j. ground arith;
  others = λ j ne. ground arith;
  malloced = ground arith;
  largest = ground arith;
}

pub memory_allocate-Prepared : (len id : ℕ) (m : Memory) → Prepared id m (memory_allocate len m).1
unfolding memory_allocate heap_alloc
memory_allocate-Prepared len id m = record {
  slots = λ j. ground arith;
  slabs = λ j. ground arith;
  size = λ j. ground arith;
  perslab = λ j. ground arith;
  counted = λ j. ground arith;
  others = λ j ne. ground arith;
  malloced = ground arith;
  largest = ground arith;
}

pub Prepared-trans : (id : ℕ) (a b c : Memory) → Prepared id a b → Prepared id b c → Prepared id a c
Prepared-trans id a b c p q = record {
  slots = λ j. q.slots j ∙ p.slots j;
  slabs = λ j. q.slabs j ∙ p.slabs j;
  size = λ j. q.size j ∙ p.size j;
  perslab = λ j. q.perslab j ∙ p.perslab j;
  counted = λ j. q.counted j ∙ p.counted j;
  others = λ j ne. q.others j ne ∙ p.others j ne;
  malloced = q.malloced ∙ p.malloced;
  largest = q.largest ∙ p.largest;
}
