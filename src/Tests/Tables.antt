-- ===== src/Tests/Tables.antt =====
-- The theorems on the hash table, applied to a table of four buckets.
use reading_and_comprehense.Base.{◌≡◌, refl, true, false, none, some, arith}
use reading_and_comprehense.Assoc.{Assoc, assoc_insert, assoc_find, bulk_move, assoc_expand}
use reading_and_comprehense.Assoc.Chain.{find_chain}
use reading_and_comprehense.Assoc.Valid.{IsValid, expand-IsValid}
use reading_and_comprehense.Assoc.Run.{
  Map, put, insert, Reach, here, next, Shows, Reach-Shows, bulk_move_finishes,
}
use reading_and_comprehense.Tests.{hash, table, table-IsValid, key_a}

abbrev nothing : Map
nothing = λ q. none

table-Shows : Shows hash table nothing
unfolding assoc_find find_chain
table-Shows = record { valid = table-IsValid; same = λ q. refl }

one_insert :
    Reach hash table nothing
      (assoc_insert table key_a 200 (hash key_a))
      (put key_a (some 200) nothing)
one_insert = next here (insert table nothing key_a 200 refl)

Reach-Shows_example :
    Shows hash (assoc_insert table key_a 200 (hash key_a)) (put key_a (some 200) nothing)
Reach-Shows_example = Reach-Shows hash table-Shows one_insert

-- The table when its expansion has begun.
abbrev growing : Assoc
growing = assoc_expand true table

growing-IsValid : IsValid hash growing
growing-IsValid = expand-IsValid hash table table-IsValid true refl (omega arith)

bulk_move_finishes_example : (bulk_move hash 4 growing).expanding ≡ false
unfolding assoc_expand
bulk_move_finishes_example = bulk_move_finishes hash 4 growing growing-IsValid (omega arith)
