-- ===== src/Assoc/View.antt =====
-- What assoc_find of memcached-1.4/assoc.c returns after each operation, an expansion included.
use reading_and_comprehense.Base.{
  ℕ, ◌+◌, ◌-◌, ◌%◌, ◌≤◌, ◌<◌, ◌≡◌, refl, Bool, true, false, Option, none, some, [], ◌∷◌, arith, inl,
  inr, Bool-cases, Option-cases, if◌then◌else◌, ◌==◌, update, bytes_eq, bytes_eq→eq, bytes_eq_comm,
}
use native.Mathlib.Nat.{mod-lt}
use reading_and_comprehense.Assoc.Chain.{Key, Chain, find_chain, delete_chain, count}
use reading_and_comprehense.Assoc.Chains.{find-delete, find-eq-none}
use reading_and_comprehense.Assoc.Valid.{IsValid, no_wrap, pow_pos}
use reading_and_comprehense.Assoc.{
  Assoc, set_chain, mask, hashsize, u32_mod, move_chain, move_bucket, assoc_insert, assoc_delete,
  assoc_expand, assoc_start_expand, chain_of, assoc_find,
}

module _ (hash : Key → ℕ) where
  -- The table as a map.
  abbrev pub view : Assoc → Key → Option ℕ
  view a q = assoc_find a q (hash q)

  chain_once : (a : Assoc) (q : Key) → IsValid hash a → count q (chain_of a (hash q)) ≤ 1
  chain_once a q valid = ground (
    arith,
    valid.old_once q (mask (a.hashpower - 1) (hash q)),
    valid.primary_once q (mask a.hashpower (hash q)),
  )

  -- An insert changes what is found under its key and nothing else.
  pub find-insert :
      (a : Assoc) (k q : Key) (it : ℕ)
      → view (assoc_insert a k it (hash k)) q ≡ (if bytes_eq k q then some it else view a q)
  unfolding assoc_insert assoc_find assoc_start_expand find_chain
  find-insert a k q it = ground (arith, bytes_eq_comm k q, bytes_eq→eq k q)

  -- A delete of a stored key succeeds, and empties that key and nothing else.
  pub find-delete_chain :
      (a b : Assoc) (k q : Key)
      → IsValid hash a
      → assoc_delete a k (hash k) ≡ some b
      → view b q ≡ (if bytes_eq k q then none else view a q)
  unfolding assoc_delete assoc_find
  find-delete_chain a b k q valid h = elim (Option-cases (delete_chain k (chain_of a (hash k)))) [
    | inl e ↦ absurd (ground arith)
    | inr (c, e) ↦ ground (
      arith,
      find-delete k q (chain_of a (hash k)) c e,
      chain_once a k valid,
      chain_once a q valid,
      bytes_eq→eq k q,
    )
  ]

  delete-eq-none : (k : Key) (c : Chain) → delete_chain k c ≡ none → find_chain k c ≡ none
  unfolding delete_chain find_chain
  delete-eq-none k [] h = refl
  delete-eq-none k ((j, it) ∷ c) h = ground (arith, delete-eq-none k c)

  pub delete_total :
      (a : Assoc) (k : Key) (it : ℕ)
      → view a k ≡ some it
      → (b : Assoc) × (assoc_delete a k (hash k) ≡ some b)
  unfolding assoc_delete assoc_find
  delete_total a k it h = elim (Option-cases (delete_chain k (chain_of a (hash k)))) [
    | inl e ↦ absurd (ground (arith, delete-eq-none k (chain_of a (hash k)) e))
    | inr (c, e) ↦ (
      record (set_chain a (hash k) c) { hash_items = (a.hash_items + u32_mod - 1) % u32_mod },
      rw e,
    )
  ]

  pub find-expand :
      (calloc_ok : Bool) (a : Assoc) (q : Key)
      → a.expanding ≡ false
      → view (assoc_expand calloc_ok a) q ≡ view a q
  unfolding assoc_expand assoc_find
  find-expand false a q idle = refl
  find-expand true a q idle =
      let e : a.hashpower + 1 - 1 ≡ a.hashpower = omega arith in rw e (ground arith)

  find_move_absent :
      (power : ℕ) (q : Key) (c : Chain) (table : ℕ → Chain) (b : ℕ)
      → count q c ≡ 0
      → find_chain q (move_chain hash power c table b) ≡ find_chain q (table b)
  unfolding move_chain count find_chain
  find_move_absent power q [] table b h = refl
  find_move_absent power q ((k, it) ∷ c) table b h = ground (
    arith,
    find_move_absent power q c
        (update table (mask power (hash k)) ((k, it) ∷ table (mask power (hash k)))) b,
  )

  find_move :
      (power : ℕ) (q : Key) (c : Chain) (table : ℕ → Chain)
      → count q c ≤ 1
      → find_chain q (table (mask power (hash q))) ≡ none
      → find_chain q (move_chain hash power c table (mask power (hash q))) ≡ find_chain q c
  unfolding move_chain count find_chain
  find_move power q [] table once absent = absent
  find_move power q ((k, it) ∷ c) table once absent =
      let next = update table (mask power (hash k)) ((k, it) ∷ table (mask power (hash k))) in
      ground (
        arith,
        find_move power q c next,
        find_move_absent power q c next (mask power (hash q)),
        bytes_eq→eq q k,
      )

  -- The move of a bucket hides nothing and brings nothing back.
  pub find-move_bucket :
      (a : Assoc) (q : Key)
      → IsValid hash a
      → a.expanding ≡ true
      → view (move_bucket hash a) q ≡ view a q
  unfolding move_bucket assoc_find
  find-move_bucket a q valid busy =
      let m = mask (a.hashpower - 1) (hash q) in
      let c = a.old_hashtable a.expand_bucket in
      let below : m < hashsize (a.hashpower - 1) = mod-lt (hash q) (pow_pos (a.hashpower - 1)) in
      elim (Bool-cases (m == a.expand_bucket)) [
        | inl here ↦ ground (
          arith,
          no_wrap hash a valid busy,
          find_move a.hashpower q c a.primary_hashtable,
          valid.old_once q a.expand_bucket,
          valid.primary_moved q (mask a.hashpower (hash q)),
          find-eq-none q (a.primary_hashtable (mask a.hashpower (hash q))),
        )
        | inr other ↦ ground (
          arith,
          no_wrap hash a valid busy,
          find_move_absent a.hashpower q c a.primary_hashtable (mask a.hashpower (hash q)),
          valid.old_home q a.expand_bucket,
        )
      ]
