-- ===== src/Assoc/Chains.antt =====
-- What the chain loops of memcached-1.4/assoc.c do to the items found and to the items counted.
use reading_and_comprehense.Base.{
  ◌+◌, ◌≤◌, ◌≡◌, refl, true, none, some, [], ◌∷◌, arith, inl, inr, Option-cases, if◌then◌else◌,
  bytes_eq, bytes_eq_refl, bytes_eq→eq, bytes_eq_comm,
}
use reading_and_comprehense.Assoc.Chain.{Key, Chain, find_chain, delete_chain, count, to_nat}

pub find-eq-none : (q : Key) (c : Chain) → count q c ≡ 0 → find_chain q c ≡ none
unfolding find_chain count
find-eq-none q [] h = refl
find-eq-none q ((k, it) ∷ c) h = ground (arith, find-eq-none q c)

pub count-eq-zero : (q : Key) (c : Chain) → find_chain q c ≡ none → count q c ≡ 0
unfolding find_chain count
count-eq-zero q [] h = refl
count-eq-zero q ((k, it) ∷ c) h = ground (arith, count-eq-zero q c)

pub bytes_eq_trans : (q k j : Key) → bytes_eq k j ≡ true → bytes_eq q j ≡ bytes_eq q k
bytes_eq_trans q k j h = rw (bytes_eq→eq k j h)

module _ (k q : Key) where
  -- A key that is not stored is not deleted; one that is stored once is gone from the rest.
  pub find-delete :
      (c d : Chain)
      → delete_chain k c ≡ some d
      → count q c ≤ 1
      → find_chain q d ≡ (if bytes_eq k q then none else find_chain q c)
  unfolding find_chain count delete_chain
  find-delete [] d h once = ground arith
  find-delete ((j, it) ∷ c) d h once = elim (Option-cases (delete_chain k c)) [
    | inl e ↦ ground (
      arith,
      bytes_eq_comm k q,
      bytes_eq→eq k j,
      bytes_eq→eq q j,
      bytes_eq_refl q,
      find-eq-none q c,
    )
    | inr (c', e) ↦ ground (
      arith,
      find-delete c c' e,
      bytes_eq_comm k q,
      bytes_eq→eq k j,
      bytes_eq→eq q j,
      bytes_eq→eq k q,
      bytes_eq_refl q,
      find-eq-none q c,
    )
  ]

  pub count-delete :
      (c d : Chain) → delete_chain k c ≡ some d → count q d + to_nat (bytes_eq k q) ≡ count q c
  unfolding count delete_chain
  count-delete [] d h = ground arith
  count-delete ((j, it) ∷ c) d h = elim (Option-cases (delete_chain k c)) [
    | inl e ↦ ground (arith, bytes_eq_comm k q, bytes_eq→eq k j, bytes_eq→eq q j, bytes_eq_refl q)
    | inr (c', e) ↦ ground (
      arith,
      count-delete c c' e,
      bytes_eq_comm k q,
      bytes_eq→eq k j,
      bytes_eq→eq q j,
      bytes_eq_refl q,
    )
  ]
