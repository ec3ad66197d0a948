-- ===== src/Stats.antt =====
-- The counters by key prefix of memcached-1.4/stats.c: a table of 256 chains. Its allocations do not
-- fail in the model. A prefix is kept without its terminating zero.
pub mod Counts
use reading_and_comprehense.Base.{
  ℕ, ◌+◌, ◌%◌, Bool, Option, none, some, List, [], ◌∷◌, ◌==◌, if◌then◌else◌, update, length, take,
  bytes_eq,
}
use reading_and_comprehense.Memory.{add64}
use reading_and_comprehense.Assoc.Chain.{Key}

pub record Pfs : Type 0 where
  pub prefix : List ℕ
  pub num_gets : ℕ
  pub num_sets : ℕ
  pub num_deletes : ℕ
  pub num_hits : ℕ

abbrev pub prefix_hash_size : ℕ
prefix_hash_size = 256

pub record PrefixStats : Type 0 where
  pub prefix_stats : ℕ → List Pfs
  pub num_prefixes : ℕ
  pub total_prefix_size : ℕ

-- stats_prefix_init, and what stats_prefix_clear leaves.
unfoldable pub stats_prefix_clear : PrefixStats
stats_prefix_clear = record { prefix_stats = λ i. []; num_prefixes = 0; total_prefix_size = 0 }

-- The bytes before the delimiter; `none` where the key has none before its end or a zero.
unfoldable pub prefix_of : ℕ → List ℕ → Option (List ℕ)
prefix_of delimiter [] = none
prefix_of delimiter (c ∷ key) =
    let rest : Option (List ℕ) = elim (prefix_of delimiter key) [
      | none ↦ none
      | some p ↦ some (c ∷ p)
    ] in
    if c == 0 then none else if c == delimiter then some [] else rest

-- strncmp(pfs->prefix, key, length) == 0, where the key's first `length` bytes are p: the stored prefix
-- starts with p.
unfoldable pub starts_with : List ℕ → List ℕ → Bool
starts_with p stored = bytes_eq (take (length p) stored) p

abbrev pub new_pfs : List ℕ → Pfs
new_pfs p = record { prefix = p; num_gets = 0; num_sets = 0; num_deletes = 0; num_hits = 0 }

unfoldable pub edit_pfs : List ℕ → (Pfs → Pfs) → List Pfs → Option (List Pfs)
edit_pfs p f [] = none
edit_pfs p f (x ∷ l) =
    let rest : Option (List Pfs) = elim (edit_pfs p f l) [
      | none ↦ none
      | some l' ↦ some (x ∷ l')
    ] in
    if starts_with p x.prefix then some (f x ∷ l) else rest

-- stats_prefix_find, and the edit of the entry that it returns.
unfoldable pub on_prefix : (Key → ℕ) → ℕ → Key → (Pfs → Pfs) → PrefixStats → PrefixStats
on_prefix hash delimiter key f t = elim (prefix_of delimiter key) [
  | none ↦ t
  | some p ↦
      let hashval = hash p % prefix_hash_size in
      elim (edit_pfs p f (t.prefix_stats hashval)) [
        | some l ↦ record t { prefix_stats = update t.prefix_stats hashval l }
        | none ↦ record t {
          prefix_stats = update t.prefix_stats hashval (f (new_pfs p) ∷ t.prefix_stats hashval);
          num_prefixes = t.num_prefixes + 1;
          total_prefix_size = t.total_prefix_size + length p;
        }
      ]
]

unfoldable pub stats_prefix_record_get : (Key → ℕ) → ℕ → Key → Bool → PrefixStats → PrefixStats
stats_prefix_record_get hash delimiter key is_hit = on_prefix hash delimiter key (λ x. record x {
  num_gets = add64 x.num_gets 1;
  num_hits = if is_hit then add64 x.num_hits 1 else x.num_hits;
})

unfoldable pub stats_prefix_record_delete : (Key → ℕ) → ℕ → Key → PrefixStats → PrefixStats
stats_prefix_record_delete hash delimiter key =
    on_prefix hash delimiter key (λ x. record x { num_deletes = add64 x.num_deletes 1 })

unfoldable pub stats_prefix_record_set : (Key → ℕ) → ℕ → Key → PrefixStats → PrefixStats
stats_prefix_record_set hash delimiter key =
    on_prefix hash delimiter key (λ x. record x { num_sets = add64 x.num_sets 1 })
