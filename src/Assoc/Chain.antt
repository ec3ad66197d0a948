-- ===== src/Assoc/Chain.antt =====
-- One collision chain of the hash table (memcached-1.4/assoc.c): the items linked by h_next, each
-- as its key and its address.
use reading_and_comprehense.Base.{
  ℕ, ◌+◌, Bool, true, false, Option, none, some, List, [], ◌∷◌, if◌then◌else◌, bytes_eq,
}

abbrev pub Key : Type 0
Key = List ℕ

abbrev pub Chain : Type 0
Chain = List (Key × ℕ)

-- The while loop of assoc_find.
unfoldable pub find_chain : Key → Chain → Option ℕ
find_chain key [] = none
find_chain key ((k, it) ∷ c) = if bytes_eq key k then some it else find_chain key c

-- The while loop of _hashitem_before with the unlinking of assoc_delete: none if the loop reaches
-- the end of the chain.
unfoldable pub delete_chain : Key → Chain → Option Chain
delete_chain key [] = none
delete_chain key ((k, it) ∷ c) =
    let rest = delete_chain key c in
    if bytes_eq key k then some c else elim rest [ none ↦ none | some d ↦ some ((k, it) ∷ d) ]

abbrev pub to_nat : Bool → ℕ
to_nat true = 1
to_nat false = 0

-- How many items of the chain have the key.
unfoldable pub count : Key → Chain → ℕ
count q [] = 0
count q ((k, it) ∷ c) = to_nat (bytes_eq q k) + count q c
