-- ===== src/Slabs/Automove/Decision.antt =====
-- When slab_automove_decision of memcached-1.4/slabs.c orders a move.
use reading_and_comprehense.Base.{ℕ, zero, suc, ◌+◌, ◌-◌, ◌<◌, ◌≤◌, ◌≡◌, ◌≢◌, refl, some, arith}
use reading_and_comprehense.Memory.{Memory, add32, sub64}
use reading_and_comprehense.Slabs.{power_smallest}
use reading_and_comprehense.Slabs.Automove.{
  Automove, Scan, scan_class, scan_loop, pick_winner, slab_automove_decision,
}

-- A class that evicted something since the last run.
abbrev pub Evicted : (ℕ → ℕ) → (ℕ → ℕ) → ℕ → Type 0
Evicted new old i = sub64 (new i) (old i) ≢ 0

-- What the scan has found among the classes from 1 up to i.
pub record Found (new : ℕ → ℕ) (m : Memory) (a : Automove) (i : ℕ) (s : Scan) : Type 0 where
  pub waiting : (j : ℕ) → i ≤ j → (s.old j ≡ a.evicted_old j) × (s.zeroes j ≡ a.slab_zeroes j)
  pub source_quiet :
      s.source ≢ 0
      → (s.source < i)
        × (sub64 (new s.source) (a.evicted_old s.source) ≡ 0)
        × (2 < (m.slabclass s.source).slabs)
        × (3 ≤ add32 (a.slab_zeroes s.source) 1)
  pub highest_most : (j : ℕ) → 1 ≤ j → j < i → sub64 (new j) (a.evicted_old j) ≤ s.evicted_max
  pub highest_is :
      s.highest_slab ≢ 0
      → (s.highest_slab < i)
        × (0 < s.evicted_max)
        × (sub64 (new s.highest_slab) (a.evicted_old s.highest_slab) ≡ s.evicted_max)
  pub none_highest : s.highest_slab ≡ 0 → s.evicted_max ≡ 0

scan_class-Found :
    (new : ℕ → ℕ) (m : Memory) (a : Automove) (i : ℕ) (s : Scan)
    → 1 ≤ i
    → Found new m a i s
    → Found new m a (i + 1) (scan_class new m i s)
unfolding scan_class
scan_class-Found new m a i s pos f = record {
  waiting = λ j p. ground (arith, f.waiting j, f.waiting i);
  source_quiet = ground (arith, f.source_quiet, f.waiting i);
  highest_most = λ j p q. ground (arith, f.highest_most j, f.waiting i);
  highest_is = ground (arith, f.highest_is, f.waiting i);
  none_highest = ground (arith, f.none_highest, f.waiting i);
}

scan_loop-Found :
    (new : ℕ → ℕ) (m : Memory) (a : Automove) (rounds i k : ℕ) (s : Scan)
    → 1 ≤ i
    → i + rounds ≡ k
    → Found new m a i s
    → Found new m a k (scan_loop new m rounds i s)
unfolding scan_loop
scan_loop-Found new m a zero i k s pos e f = let e' : i ≡ k = omega arith in rw (← e') f
scan_loop-Found new m a (suc rounds) i k s pos e f =
    scan_loop-Found new m a rounds (i + 1) k (scan_class new m i s) (omega arith) (omega arith)
      (scan_class-Found new m a i s pos f)

-- An order to move a page from class src to class dst.
pub record Ordered (now : ℕ) (new : ℕ → ℕ) (m : Memory) (a : Automove) (src dst : ℕ) : Type 0 where
  pub due : a.next_run ≤ now
  pub source : (1 ≤ src) × (src < m.power_largest)
  pub quiet : sub64 (new src) (a.evicted_old src) ≡ 0
  pub thrice_quiet : 3 ≤ add32 (a.slab_zeroes src) 1
  pub rich : 2 < (m.slabclass src).slabs
  pub target : (1 ≤ dst) × (dst < m.power_largest)
  pub most :
      (j : ℕ)
      → 1 ≤ j
      → j < m.power_largest
      → sub64 (new j) (a.evicted_old j) ≤ sub64 (new dst) (a.evicted_old dst)
  pub evicted : 0 < sub64 (new dst) (a.evicted_old dst)
  pub thrice_winner : (a.slab_winner ≡ dst) × (3 ≤ add32 a.slab_wins 1)
  pub differ : src ≢ dst

start :
    (new : ℕ → ℕ) (m : Memory) (a : Automove)
    → Found new m a 1 (record {
      source = 0;
      highest_slab = 0;
      evicted_max = 0;
      zeroes = a.slab_zeroes;
      old = a.evicted_old;
    })
start new m a = record {
  waiting = λ j p. (refl, refl);
  source_quiet = λ ne. absurd (ne refl);
  highest_most = λ j p q. absurd (omega arith);
  highest_is = λ ne. absurd (ne refl);
  none_highest = λ _. refl;
}

-- A page is ordered from src to dst only if the ten seconds are over, src has evicted nothing in this
-- run and the two before and has more than two pages, and dst has evicted most in this run and was
-- the winner of at least the two runs before; so the two differ.
pub slab_automove_decision-Ordered :
    (now : ℕ) (new : ℕ → ℕ) (m : Memory) (a : Automove) (src dst : ℕ)
    → 1 ≤ m.power_largest
    → (slab_automove_decision now new m a).0 ≡ some (src, dst)
    → Ordered now new m a src dst
unfolding slab_automove_decision pick_winner
slab_automove_decision-Ordered now new m a src dst some_class h =
    let f =
      scan_loop-Found new m a (m.power_largest - power_smallest) power_smallest m.power_largest _
        (omega arith) (omega arith) (start new m a) in
    record {
      due = ground (arith);
      source = ground (arith, f.source_quiet);
      quiet = ground (arith, f.source_quiet);
      thrice_quiet = ground (arith, f.source_quiet);
      rich = ground (arith, f.source_quiet);
      target = ground (arith, f.highest_is);
      most = λ j p q. ground (arith, f.highest_is, f.highest_most j);
      evicted = ground (arith, f.highest_is);
      thrice_winner = ground arith;
      differ = ground (arith, f.source_quiet, f.highest_is);
    }
