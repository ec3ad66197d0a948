-- ===== src/Slabs/Automove.antt =====
-- slab_automove_decision of memcached-1.4/slabs.c: which class gives a page to which.
pub mod Decision
use reading_and_comprehense.Base.{
  ℕ, zero, suc, ◌+◌, ◌-◌, Bool, true, false, not, ◌&&◌, Option, none, some, ltb, leb, ◌==◌,
  if◌then◌else◌, update,
}
use reading_and_comprehense.Memory.{Memory, add32, sub64}
use reading_and_comprehense.Slabs.{power_smallest}

-- The static variables of the function.
pub record Automove : Type 0 where
  pub evicted_old : ℕ → ℕ
  pub slab_zeroes : ℕ → ℕ
  pub slab_winner : ℕ
  pub slab_wins : ℕ
  pub next_run : ℕ

-- What the loop over the classes changes.
pub record Scan : Type 0 where
  pub source : ℕ
  pub highest_slab : ℕ
  pub evicted_max : ℕ
  pub zeroes : ℕ → ℕ
  pub old : ℕ → ℕ

-- One round of the loop: a class without evictions and with more than two pages may become the
-- source, any other one the highest.
unfoldable pub scan_class : (ℕ → ℕ) → Memory → ℕ → Scan → Scan
scan_class evicted_new m i s =
    let evicted_diff = sub64 (evicted_new i) (s.old i) in
    let quiet = add32 (s.zeroes i) 1 in
    if evicted_diff == 0 && ltb 2 (m.slabclass i).slabs
    then record s {
      zeroes = update s.zeroes i quiet;
      source = if s.source == 0 && leb 3 quiet then i else s.source;
      old = update s.old i (evicted_new i);
    }
    else record s {
      zeroes = update s.zeroes i 0;
      evicted_max = if ltb s.evicted_max evicted_diff then evicted_diff else s.evicted_max;
      highest_slab = if ltb s.evicted_max evicted_diff then i else s.highest_slab;
      old = update s.old i (evicted_new i);
    }

unfoldable pub scan_loop : (ℕ → ℕ) → Memory → ℕ → ℕ → Scan → Scan
scan_loop evicted_new m zero i s = s
scan_loop evicted_new m (suc rounds) i s =
    scan_loop evicted_new m rounds (i + 1) (scan_class evicted_new m i s)

-- The choice of the destination.
unfoldable pub pick_winner : ℕ → Automove → ℕ × Automove
pick_winner highest_slab a =
    if not (a.slab_winner == 0) && a.slab_winner == highest_slab
    then (let wins = add32 a.slab_wins 1 in
        (if leb 3 wins then a.slab_winner else 0, record a { slab_wins = wins }))
    else (0, record a { slab_wins = 1; slab_winner = highest_slab })

-- `evicted_new` is what item_stats_evictions fills in; the result is the source and the destination.
unfoldable pub slab_automove_decision : ℕ → (ℕ → ℕ) → Memory → Automove → Option (ℕ × ℕ) × Automove
slab_automove_decision current_time evicted_new m a =
    let s = scan_loop evicted_new m (m.power_largest - power_smallest) power_smallest (record {
      source = 0;
      highest_slab = 0;
      evicted_max = 0;
      zeroes = a.slab_zeroes;
      old = a.evicted_old;
    }) in
    let b = record a {
      evicted_old = s.old;
      slab_zeroes = s.zeroes;
      next_run = add32 current_time 10;
    } in
    let (dest, c) = pick_winner s.highest_slab b in
    if leb a.next_run current_time
    then (if not (s.source == 0) && not (dest == 0) then some (s.source, dest) else none, c)
    else (none, a)
