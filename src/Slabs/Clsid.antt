-- ===== src/Slabs/Clsid.antt =====
-- slabs_clsid of memcached-1.4/slabs.c picks the first class that is large enough.
use reading_and_comprehense.Base.{
  ℕ, zero, suc, ◌+◌, ◌-◌, ◌<◌, ◌≤◌, ◌≡◌, refl, arith, ltb, ◌==◌, Bool-cases, ◌⊎◌, inl, inr,
}
use reading_and_comprehense.Memory.{Memory}
use reading_and_comprehense.Slabs.{clsid_loop, slabs_clsid, power_smallest}

abbrev pub chunk_size_of : Memory → ℕ → ℕ
chunk_size_of m id = (m.slabclass id).size

-- Class r is the first from `low` on whose chunks hold `size` bytes.
pub record IsFirstFit (m : Memory) (size low r : ℕ) : Type 0 where
  pub above : low ≤ r
  pub exists : r ≤ m.power_largest
  pub holds : size ≤ chunk_size_of m r
  pub first : (j : ℕ) → low ≤ j → j < r → chunk_size_of m j < size

abbrev pub NoneFits : Memory → ℕ → ℕ → Type 0
NoneFits m size low = (j : ℕ) → low ≤ j → j ≤ m.power_largest → chunk_size_of m j < size

-- What a class number that slabs_clsid returns says: 0 that nothing fits.
abbrev pub Answers : Memory → ℕ → ℕ → ℕ → Type 0
Answers m size low r = ((r ≡ 0) × NoneFits m size low) ⊎ IsFirstFit m size low r

widen :
    (m : Memory) (size low r : ℕ)
    → chunk_size_of m low < size
    → low ≤ m.power_largest
    → Answers m size (low + 1) r
    → Answers m size low r
widen m size low r small within (inl (e, none)) = inl (e, λ j p q. ground (arith, none j))
widen m size low r small within (inr t) = inr (record {
  above = omega (arith, t.above);
  exists = t.exists;
  holds = t.holds;
  first = λ j p q. ground (arith, t.first j);
})

clsid_loop-Answers :
    (m : Memory) (size above low : ℕ)
    → low + above ≡ m.power_largest
    → Answers m size low (clsid_loop m size above low)
unfolding clsid_loop
clsid_loop-Answers m size zero low e = elim (Bool-cases (ltb (chunk_size_of m low) size)) [
  | inl small ↦
      rw small (inl (refl, λ j p q. let e' : j ≡ low = omega arith in rw e' (ground arith)))
  | inr fits ↦ rw fits (
      inr (record {
        above = omega arith;
        exists = omega arith;
        holds = ground arith;
        first = λ j p q. absurd (omega arith);
      }))
]
clsid_loop-Answers m size (suc above) low e = elim (Bool-cases (ltb (chunk_size_of m low) size)) [
  | inl small ↦ rw small (
      widen m size low _ (ground arith) (omega arith)
        (clsid_loop-Answers m size above (low + 1) (omega arith)))
  | inr fits ↦ rw fits (
      inr (record {
        above = omega arith;
        exists = omega arith;
        holds = ground arith;
        first = λ j p q. absurd (omega arith);
      }))
]

-- slabs_clsid returns the first class whose chunks hold the size, and 0 exactly for the size 0 and a
-- size that no class holds.
pub slabs_clsid-Answers :
    (m : Memory) (size : ℕ)
    → 1 ≤ m.power_largest
    → ((size ≡ 0) × (slabs_clsid m size ≡ 0)) ⊎ Answers m size power_smallest (slabs_clsid m size)
unfolding slabs_clsid
slabs_clsid-Answers m size h = elim (Bool-cases (size == 0)) [
  | inl empty ↦ inl (ground arith)
  | inr full ↦ rw full (inr (clsid_loop-Answers m size (m.power_largest - 1) 1 (omega arith)))
]
