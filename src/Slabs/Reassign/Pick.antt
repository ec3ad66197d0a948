-- ===== src/Slabs/Reassign/Pick.antt =====
-- slabs_reassign_pick_any of memcached-1.4/slabs.c looks at every class once.
use reading_and_comprehense.Base.{
  ℕ, zero, suc, ◌+◌, ◌-◌, ◌≤◌, ◌≡◌, refl, Bool, true, false, arith, ltb, ◌==◌, if◌then◌else◌,
  Bool-cases, inl, inr,
}
use reading_and_comprehense.Memory.{Memory}
use reading_and_comprehense.Memory.Int.{ℤ, pos, negsuc, eq_ℤ}
use reading_and_comprehense.Slabs.{power_smallest}
use reading_and_comprehense.Slabs.Reassign.{next_class, pick_loop, slabs_reassign_pick_any}

-- Class j can give a page to dst.
abbrev pub spare : Memory → ℤ → ℕ → Bool
spare m dst j = if eq_ℤ (pos j) dst then false else ltb 1 (m.slabclass j).slabs

-- How many steps of the loop lead from cur to class j.
abbrev pub distance : Memory → ℕ → ℕ → ℕ
distance m cur j = if ltb cur j then j - cur else j + m.power_largest - cur

-- What a choice says.
abbrev pub Chosen : Memory → ℤ → (ℕ → Type 0) → ℤ → Type 0
Chosen m dst Seen (pos r) = (1 ≤ r) × (r ≤ m.power_largest) × (spare m dst r ≡ true)
Chosen m dst Seen (negsuc n) =
    (n ≡ 0) × ((j : ℕ) → 1 ≤ j → j ≤ m.power_largest → Seen j → spare m dst j ≡ false)

abbrev Within : Memory → ℕ → ℕ → ℕ → Type 0
Within m tries cur j = distance m cur j ≤ tries

skip :
    (m : Memory) (dst : ℤ) (tries cur : ℕ)
    → 1 ≤ m.power_largest
    → cur ≤ m.power_largest
    → spare m dst (next_class m cur) ≡ false
    → (r : ℤ) → Chosen m dst (Within m tries (next_class m cur)) r
    → Chosen m dst (Within m (suc tries) cur) r
skip m dst tries cur some_class within bad (pos r) h = h
skip m dst tries cur some_class within bad (negsuc n) h = (
  h.0,
  λ j p q d. elim (Bool-cases (j == next_class m cur)) [
    | inl here ↦ ground (arith, bad)
    | inr other ↦ h.1 j p q (ground arith)
  ],
)

pick_loop-Chosen :
    (m : Memory) (dst : ℤ) (tries cur : ℕ)
    → 1 ≤ m.power_largest
    → cur ≤ m.power_largest
    → Chosen m dst (Within m tries cur) (pick_loop m dst tries cur).0
unfolding pick_loop
pick_loop-Chosen m dst zero cur some_class within = (refl, λ j p q h. absurd (ground arith))
pick_loop-Chosen m dst (suc tries) cur some_class within =
    let next = next_class m cur in
    let rest = pick_loop-Chosen m dst tries next some_class (ground arith) in
    elim (Bool-cases (eq_ℤ (pos next) dst)) [
      | inl target ↦ rw target (skip m dst tries cur some_class within (rw target refl) _ rest)
      | inr other ↦ elim (Bool-cases (ltb 1 (m.slabclass next).slabs)) [
        | inl rich ↦ rw (other, rich) (ground arith, ground arith, rw (other, rich))
        | inr poor ↦
            rw (other, poor) (skip m dst tries cur some_class within (rw (other, poor)) _ rest)
      ]
    ]

complete :
    (m : Memory) (dst : ℤ) (cur : ℕ) (r : ℤ)
    → cur ≤ m.power_largest
    → Chosen m dst (Within m (m.power_largest - power_smallest + 1) cur) r
    → Chosen m dst (λ _. Unit {0}) r
complete m dst cur (pos r) within h = h
complete m dst cur (negsuc n) within h = (h.0, λ j p q _. h.1 j p q (ground arith))

-- slabs_reassign_pick_any returns a class other than dst that has two pages or more, and -1 exactly
-- if there is none, wherever its static variable stands.
pub slabs_reassign_pick_any-Chosen :
    (m : Memory) (dst : ℤ) (cur : ℕ)
    → 1 ≤ m.power_largest
    → cur ≤ m.power_largest
    → Chosen m dst (λ _. Unit {0}) (slabs_reassign_pick_any m dst cur).0
unfolding slabs_reassign_pick_any
slabs_reassign_pick_any-Chosen m dst cur some_class within =
    complete m dst cur _ within
      (pick_loop-Chosen m dst (m.power_largest - power_smallest + 1) cur some_class within)
