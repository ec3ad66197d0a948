-- ===== src/Assoc/Valid.antt =====
-- Where the items of the table of memcached-1.4/assoc.c stand, and that each operation keeps it so.
use reading_and_comprehense.Base.{
  ℕ, zero, suc, ◌+◌, ◌-◌, ◌*◌, ◌^◌, ◌%◌, ◌≤◌, ◌<◌, ◌≡◌, Bool, true, false, none, some, [], ◌∷◌,
  arith, inl, inr, Option-cases, if◌then◌else◌, ◌==◌, update, bytes_eq→eq,
}
use native.Mathlib.Nat.{pow-suc}
use reading_and_comprehense.Assoc.Chain.{Key, Chain, delete_chain, count}
use reading_and_comprehense.Assoc.Chains.{count-eq-zero, count-delete}
use reading_and_comprehense.Assoc.{
  Assoc, mask, hashsize, u32_mod, move_chain, move_bucket, assoc_insert, assoc_delete, assoc_expand,
  assoc_start_expand, chain_of, assoc_find,
}

pub pow_pos : (n : ℕ) → 0 < 2 ^ n
pow_pos zero = omega arith
pow_pos (suc n) = rw pow-suc (omega (arith, pow_pos n))

pub pow_pred : (n : ℕ) → 0 < n → 2 ^ (n - 1) * 2 ≡ 2 ^ n
pow_pred zero h = absurd (omega arith)
pow_pred (suc n) h = let e : suc n - 1 ≡ n = omega arith in rw (e, pow-suc)

module _ (hash : Key → ℕ) where
  -- A key is stored once, in the chain that its hash value names; during an expansion the primary
  -- table holds what stood in the buckets below expand_bucket, and the old one the rest.
  pub record IsValid (a : Assoc) : Type 0 where
    pub fits : hashsize a.hashpower ≤ u32_mod
    pub grown : a.expanding ≡ true → 0 < a.hashpower
    pub small : a.expanding ≡ true → a.expand_bucket < hashsize (a.hashpower - 1)
    pub primary_once : (q : Key) (b : ℕ) → count q (a.primary_hashtable b) ≤ 1
    pub primary_home :
        (q : Key) (b : ℕ) → 0 < count q (a.primary_hashtable b) → mask a.hashpower (hash q) ≡ b
    pub primary_moved :
        (q : Key) (b : ℕ)
        → 0 < count q (a.primary_hashtable b)
        → a.expanding ≡ true
        → mask (a.hashpower - 1) (hash q) < a.expand_bucket
    pub old_once : (q : Key) (b : ℕ) → a.expanding ≡ true → count q (a.old_hashtable b) ≤ 1
    pub old_home :
        (q : Key) (b : ℕ)
        → a.expanding ≡ true
        → 0 < count q (a.old_hashtable b)
        → mask (a.hashpower - 1) (hash q) ≡ b
    pub old_waiting :
        (q : Key) (b : ℕ)
        → a.expanding ≡ true
        → 0 < count q (a.old_hashtable b)
        → a.expand_bucket ≤ b

  module _ (a : Assoc) (valid : IsValid a) where
    pub insert-IsValid :
        (k : Key) (it : ℕ) → assoc_find a k (hash k) ≡ none → IsValid (assoc_insert a k it (hash k))
    unfolding assoc_insert assoc_find assoc_start_expand count
    insert-IsValid k it absent = record {
      fits = ground (arith, valid.fits);
      grown = ground arith;
      small = ground arith;
      primary_once = λ q b.
          ground
            (arith, valid.primary_once q b, bytes_eq→eq q k, count-eq-zero k (chain_of a (hash k)));
      primary_home = λ q b. ground (arith, valid.primary_home q b, bytes_eq→eq q k);
      primary_moved = λ q b. ground (arith, valid.primary_moved q b, bytes_eq→eq q k);
      old_once = λ q b.
          ground
            (arith, valid.old_once q b, bytes_eq→eq q k, count-eq-zero k (chain_of a (hash k)));
      old_home = λ q b. ground (arith, valid.old_home q b, bytes_eq→eq q k);
      old_waiting = λ q b. ground (arith, valid.old_waiting q b, bytes_eq→eq q k);
    }

    pub delete-IsValid : (k : Key) (b : Assoc) → assoc_delete a k (hash k) ≡ some b → IsValid b
    unfolding assoc_delete
    delete-IsValid k b h = elim (Option-cases (delete_chain k (chain_of a (hash k)))) [
      | inl e ↦ absurd (ground arith)
      | inr (c, e) ↦ record {
        fits = ground (arith, valid.fits);
        grown = ground arith;
        small = ground arith;
        primary_once = λ q i.
            ground (arith, valid.primary_once q i, count-delete k q (chain_of a (hash k)) c e);
        primary_home = λ q i.
            ground (arith, valid.primary_home q i, count-delete k q (chain_of a (hash k)) c e);
        primary_moved = λ q i.
            ground (arith, valid.primary_moved q i, count-delete k q (chain_of a (hash k)) c e);
        old_once =
            λ q i. ground (arith, valid.old_once q i, count-delete k q (chain_of a (hash k)) c e);
        old_home =
            λ q i. ground (arith, valid.old_home q i, count-delete k q (chain_of a (hash k)) c e);
        old_waiting = λ q i.
            ground (arith, valid.old_waiting q i, count-delete k q (chain_of a (hash k)) c e);
      }
    ]

    -- Beyond 2^32 buckets the bucket counter would wrap.
    pub expand-IsValid :
        (calloc_ok : Bool)
        → a.expanding ≡ false
        → hashsize (a.hashpower + 1) ≤ u32_mod
        → IsValid (assoc_expand calloc_ok a)
    unfolding assoc_expand count
    expand-IsValid false idle room = valid
    expand-IsValid true idle room =
        let e : a.hashpower + 1 - 1 ≡ a.hashpower = omega arith in
        record {
          fits = room;
          grown = λ _. omega arith;
          small = λ _. rw e (pow_pos a.hashpower);
          primary_once = λ q b. omega arith;
          primary_home = λ q b h. absurd (omega arith);
          primary_moved = λ q b h. absurd (omega arith);
          old_once = λ q b _. valid.primary_once q b;
          old_home = λ q b _ h. rw e (valid.primary_home q b h);
          old_waiting = λ q b _ h. omega arith;
        }

  count_move :
      (power : ℕ) (q : Key) (c : Chain) (table : ℕ → Chain) (b : ℕ)
      → count q (move_chain hash power c table b)
        ≡ (if mask power (hash q) == b then count q c + count q (table b) else count q (table b))
  unfolding move_chain count
  count_move power q [] table b = ground arith
  count_move power q ((k, it) ∷ c) table b = ground (
    arith,
    count_move power q c
        (update table (mask power (hash k)) ((k, it) ∷ table (mask power (hash k)))) b,
    bytes_eq→eq q k,
  )

  module _ (a : Assoc) (valid : IsValid a) where
    pub no_wrap : a.expanding ≡ true → (a.expand_bucket + 1) % u32_mod ≡ a.expand_bucket + 1
    no_wrap busy =
        omega (arith, valid.small busy, valid.fits, pow_pred a.hashpower (valid.grown busy))

    pub move_bucket-IsValid : a.expanding ≡ true → IsValid (move_bucket hash a)
    unfolding move_bucket count
    move_bucket-IsValid busy =
        let moves = λ (q : Key) (b : ℕ).
          count_move a.hashpower q (a.old_hashtable a.expand_bucket) a.primary_hashtable b in
        record {
          fits = ground (arith, valid.fits);
          grown = ground (arith, valid.grown busy);
          small = ground (arith, valid.small busy, no_wrap busy);
          primary_once = λ q b. ground (
            arith,
            moves q b,
            valid.primary_once q b,
            valid.old_once q a.expand_bucket,
            valid.primary_moved q b,
            valid.old_home q a.expand_bucket,
          );
          primary_home = λ q b. ground (arith, moves q b, valid.primary_home q b);
          primary_moved = λ q b. ground (
            arith,
            moves q b,
            no_wrap busy,
            valid.primary_moved q b,
            valid.old_home q a.expand_bucket,
          );
          old_once = λ q b. ground (arith, valid.old_once q b);
          old_home = λ q b. ground (arith, valid.old_home q b);
          old_waiting = λ q b. ground (arith, no_wrap busy, valid.old_waiting q b);
        }
