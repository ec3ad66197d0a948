-- ===== src/Tests/Pages.antt =====
-- The theorems on the slab allocator, applied to two slab classes.
use reading_and_comprehense.Base.{
  ℕ, ◌+◌, ◌*◌, ◌≡◌, refl, Bool, false, some, arith, leb, ◌==◌, if◌then◌else◌, ◌⊎◌,
}
use reading_and_comprehense.Memory.{Memory, add64, sub64}
use reading_and_comprehense.Slabs.{
  slabs_clsid, slabs_init, do_slabs_alloc, do_slabs_free, do_slabs_newslab, power_smallest,
}
use reading_and_comprehense.Slabs.Clsid.{Answers, slabs_clsid-Answers}
use reading_and_comprehense.Slabs.Init.{Factor, IsClasses, slabs_init-IsClasses}
use reading_and_comprehense.Slabs.Alloc.{IsCounted}
use reading_and_comprehense.Slabs.Page.{PageResult, do_slabs_newslab-Page}
use reading_and_comprehense.Slabs.Cycle.{alloc-free}
use reading_and_comprehense.Slabs.Reassign.{Rebalance}
use reading_and_comprehense.Slabs.Automove.{
  Automove, scan_loop, scan_class, pick_winner, slab_automove_decision,
}
use reading_and_comprehense.Slabs.Automove.Decision.{Ordered, slab_automove_decision-Ordered}
use reading_and_comprehense.Tests.{memory, settings, idle}

slabs_clsid-Answers_example :
    ((◌≡◌ {A = ℕ} 200 0) × (slabs_clsid memory 200 ≡ 0))
    ⊎ Answers memory 200 power_smallest (slabs_clsid memory 200)
slabs_clsid-Answers_example = slabs_clsid-Answers memory 200 (omega arith)

abbrev double : ℕ → ℕ
double s = s + s

abbrev below_half : ℕ → Bool
below_half s = leb (s * 2) 1024

double_factor : Factor settings double below_half
double_factor = record { scale_grows = λ s. omega arith; fits_room = λ s e. ground arith }

slabs_init-IsClasses_example :
    IsClasses settings double below_half double_factor
      (slabs_init settings double below_half 4096 false memory)
slabs_init-IsClasses_example =
    slabs_init-IsClasses settings double below_half double_factor 4096 false memory

memory-IsCounted : IsCounted memory
memory-IsCounted id = ground arith

alloc-free_example :
    ((do_slabs_alloc settings 90 1 (do_slabs_free 100 60 1 memory)).0 ≡ some 100)
    × ((do_slabs_alloc settings 90 1 (do_slabs_free 100 60 1 memory)).1.slabclass 1
        ≡ record (memory.slabclass 1) { requested = add64 (sub64 0 60) 90 })
alloc-free_example =
    alloc-free settings 1 100 60 90 memory (omega arith, omega arith) memory-IsCounted (omega arith)

do_slabs_newslab-Page_example : PageResult settings 1 memory (do_slabs_newslab settings 1 memory)
do_slabs_newslab-Page_example = do_slabs_newslab-Page settings 1 memory (omega arith, omega arith)

-- The page at 1000 of class 1 is empty and goes to class 2.
abbrev emptied : Rebalance
emptied = record idle {
  slab_start = 1000;
  slab_end = 2024;
  slab_pos = 2024;
  s_clsid = 1;
  d_clsid = 2;
  done = 1;
  signal = 2;
}

-- Class 1 has been quiet twice and class 2 has won twice, among three classes.
abbrev three_classes : Memory
three_classes = record memory { power_largest = 3 }

abbrev evictions : ℕ → ℕ
evictions i = if i == 2 then 5 else 0

abbrev twice : Automove
twice = record {
  evicted_old = λ _. 0;
  slab_zeroes = λ i. if i == 1 then 2 else 0;
  slab_winner = 2;
  slab_wins = 2;
  next_run = 30;
}

slab_automove_decision-Ordered_example : Ordered 40 evictions three_classes twice 1 2
unfolding slab_automove_decision scan_loop scan_class pick_winner
slab_automove_decision-Ordered_example =
    slab_automove_decision-Ordered 40 evictions three_classes twice 1 2 (omega arith) refl
