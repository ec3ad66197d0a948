-- ===== src/Items/Consistent.antt =====
-- What holds of the hash table, the LRU lists and the items of memcached-1.4/items.c between two
-- operations, while no LRU crawler is in a list.
use reading_and_comprehense.Base.{
  ℕ, ◌+◌, ◌%◌, ◌^◌, ◌<◌, ◌≤◌, ◌≡◌, true, Option, some, List, [], ◌∷◌, arith, ◌==◌, length,
}
use reading_and_comprehense.Assoc.Chain.{Key, to_nat}
use reading_and_comprehense.Assoc.Valid
use reading_and_comprehense.Assoc.View.{view}
use reading_and_comprehense.Items.{Store, item_at, remove_ptr}

-- How often an address stands in a list.
unfoldable pub count_ptr : ℕ → List ℕ → ℕ
count_ptr p [] = 0
count_ptr p (x ∷ xs) = to_nat (x == p) + count_ptr p xs

pub count_ptr-remove :
    (p q : ℕ) (xs : List ℕ)
    → 1 ≤ count_ptr p xs
    → count_ptr q (remove_ptr p xs) + to_nat (p == q) ≡ count_ptr q xs
unfolding count_ptr remove_ptr
count_ptr-remove p q [] h = absurd (omega arith)
count_ptr-remove p q (x ∷ xs) h = ground (arith, count_ptr-remove p q xs)

pub length-remove_ptr :
    (p : ℕ) (xs : List ℕ) → 1 ≤ count_ptr p xs → length (remove_ptr p xs) + 1 ≡ length xs
unfolding count_ptr remove_ptr
length-remove_ptr p [] h = absurd (omega arith)
length-remove_ptr p (x ∷ xs) h = ground (arith, length-remove_ptr p xs)

module _ (hash : Key → ℕ) where
  -- The address that the table holds for a key.
  abbrev pub stored : Store → Key → Option ℕ
  stored st q = view hash st.assoc q

  pub record Consistent (st : Store) : Type 0 where
    pub table : Valid.IsValid hash st.assoc
    pub found :
        (q : Key) (p : ℕ)
        → stored st q ≡ some p
        → ((item_at st p).flags.linked ≡ true) × ((item_at st p).key ≡ q)
    pub linked :
        (p : ℕ) → (item_at st p).flags.linked ≡ true → stored st (item_at st p).key ≡ some p
    pub held : (p : ℕ) → (item_at st p).flags.linked ≡ true → 1 ≤ (item_at st p).refcount
    pub listed :
        (p c : ℕ)
        → 0 < count_ptr p (st.lru c)
        → ((item_at st p).flags.linked ≡ true) × ((item_at st p).slabs_clsid ≡ c)
    pub once :
        (p : ℕ)
        → (item_at st p).flags.linked ≡ true
        → count_ptr p (st.lru (item_at st p).slabs_clsid) ≡ 1
    pub sized : (c : ℕ) → st.sizes c ≡ length (st.lru c) % 2 ^ 32
