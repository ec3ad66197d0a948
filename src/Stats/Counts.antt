-- ===== src/Stats/Counts.antt =====
-- What the counters of memcached-1.4/stats.c count.
use reading_and_comprehense.Base.{
  ℕ, ◌+◌, ◌%◌, ◌≡◌, refl, ap, Bool, true, false, Option, none, some, List, [], ◌∷◌, arith,
  if◌then◌else◌, length, take, bytes_eq_refl, Bool-cases, Option-cases, inl, inr,
}
use mathlib.Core.Option
use reading_and_comprehense.Assoc.Chain.{Key}
use reading_and_comprehense.Stats.{
  Pfs, PrefixStats, prefix_of, prefix_hash_size, starts_with, new_pfs, edit_pfs, on_prefix,
}

-- The entry that stats_prefix_find returns from a chain.
unfoldable pub entry : List ℕ → List Pfs → Option Pfs
entry p [] = none
entry p (x ∷ l) = if starts_with p x.prefix then some x else entry p l

abbrev pub counted : (Key → ℕ) → List ℕ → PrefixStats → Option Pfs
counted hash p t = entry p (t.prefix_stats (hash p % prefix_hash_size))

take_all : (p : List ℕ) → take (length p) p ≡ p
take_all [] = refl
take_all (c ∷ p) = ap (◌∷◌ c) (take_all p)

starts_with_refl : (p : List ℕ) → starts_with p p ≡ true
unfolding starts_with
starts_with_refl p = rw (take_all p) (bytes_eq_refl p)

module _ (p : List ℕ) (f : Pfs → Pfs) (keeps : (x : Pfs) → (f x).prefix ≡ x.prefix) where
  -- The chain after an edit, or a new entry.
  abbrev edited : List Pfs → List Pfs
  edited l = elim (edit_pfs p f l) [ some l' ↦ l' | none ↦ f (new_pfs p) ∷ l ]

  edit_none : (l : List Pfs) → entry p l ≡ none → edit_pfs p f l ≡ none
  unfolding entry edit_pfs
  edit_none [] h = refl
  edit_none (x ∷ l) h = ground (arith, h, edit_none l)

  edit_some :
      (l : List Pfs) (x : Pfs)
      → entry p l ≡ some x
      → (l' : List Pfs) × (edit_pfs p f l ≡ some l') × (entry p l' ≡ some (f x))
  unfolding entry edit_pfs
  edit_some [] x h = absurd (ground (arith, h))
  edit_some (y ∷ l) x h = elim (Bool-cases (starts_with p y.prefix)) [
    | inl e ↦ (f y ∷ l, ground (arith, e), ground (arith, e, keeps y, h))
    | inr e ↦
        let (l', a, b) = edit_some l x (ground (arith, e, h)) in
        (y ∷ l', ground (arith, e, a), ground (arith, e, b))
  ]

  new_found : (l : List Pfs) → entry p (f (new_pfs p) ∷ l) ≡ some (f (new_pfs p))
  unfolding entry
  new_found l = ground (arith, keeps (new_pfs p), starts_with_refl p)

abbrev pub is_some {ℓ} : {A : Type ℓ} → Option A → Bool
is_some none = false
is_some (some a) = true

module _ (hash : Key → ℕ) (delimiter : ℕ) (key : Key) (f : Pfs → Pfs) (t : PrefixStats) where
  abbrev after : PrefixStats
  after = on_prefix hash delimiter key f t

  -- For a counter that keeps the prefix: a key with the delimiter counts in the one entry that its
  -- prefix finds. The entry is made with zero counters, and counted as a prefix, only if the table has
  -- none that the prefix finds.
  pub on_prefix-counted :
      ((x : Pfs) → (f x).prefix ≡ x.prefix)
      → (p : List ℕ) → prefix_of delimiter key ≡ some p
      → (counted hash p after ≡ some (f (Option.get_or (counted hash p t) (new_pfs p))))
        × (after.num_prefixes
            ≡ (if is_some (counted hash p t) then t.num_prefixes else t.num_prefixes + 1))
  unfolding on_prefix
  on_prefix-counted keeps p h = elim (Option-cases (counted hash p t)) [
    | inl e ↦ ground (
      arith,
      h,
      e,
      edit_none p f keeps (t.prefix_stats (hash p % prefix_hash_size)) e,
      new_found p f keeps (t.prefix_stats (hash p % prefix_hash_size)),
    )
    | inr (x, e) ↦
        let (l', a, b) = edit_some p f keeps (t.prefix_stats (hash p % prefix_hash_size)) x e in
        ground (arith, h, e, a, b)
  ]
