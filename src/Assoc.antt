-- ===== src/Assoc.antt =====
-- The hash table (memcached-1.4/assoc.c): two bucket arrays, of which the old one is read during an
-- expansion for the buckets that have not been moved yet. A bucket array is a function of the index.
pub mod Chain
pub mod Chains
pub mod Valid
pub mod View
pub mod Run
use reading_and_comprehense.Base.{
  ℕ, zero, suc, ◌+◌, ◌-◌, ◌*◌, ◌/◌, ◌%◌, ◌^◌, Bool, true, false, not, ◌&&◌, Option, none, some,
  List, [], ◌∷◌, ltb, leb, ◌==◌, if◌then◌else◌, update,
}
use mathlib.Core.Option
use Chain.{Key, find_chain, delete_chain}
use Chain

abbrev pub u32_mod : ℕ
u32_mod = 2 ^ 32

-- The last three fields are the hash table's part of `stats`.
pub record Assoc : Type 0 where
  pub hashpower : ℕ
  pub primary_hashtable : ℕ → Chain.Chain
  pub old_hashtable : ℕ → Chain.Chain
  pub hash_items : ℕ
  pub expanding : Bool
  pub started_expanding : Bool
  pub expand_bucket : ℕ
  pub hash_power_level : ℕ
  pub hash_bytes : ℕ
  pub hash_is_expanding : Bool

abbrev pub hashsize : ℕ → ℕ
hashsize n = 2 ^ n

-- `hv & hashmask(n)`.
abbrev pub mask : ℕ → ℕ → ℕ
mask n hv = hv % hashsize n

abbrev pub hash_power_default : ℕ
hash_power_default = 16

abbrev pub pointer_size : ℕ
pointer_size = 8

-- `none` is the exit after a failed calloc.
unfoldable pub assoc_init : Bool → ℕ → Option Assoc
assoc_init calloc_ok hashtable_init =
    let power = if hashtable_init == 0 then hash_power_default else hashtable_init in
    if calloc_ok
    then some (record {
      hashpower = power;
      primary_hashtable = λ _. [];
      old_hashtable = λ _. [];
      hash_items = 0;
      expanding = false;
      started_expanding = false;
      expand_bucket = 0;
      hash_power_level = power;
      hash_bytes = hashsize power * pointer_size;
      hash_is_expanding = false;
    })
    else none

-- The test by which find, insert and delete choose the table.
abbrev pub in_old : Assoc → ℕ → Bool
in_old a hv = a.expanding && leb a.expand_bucket (mask (a.hashpower - 1) hv)

abbrev pub chain_of : Assoc → ℕ → Chain.Chain
chain_of a hv =
    if in_old a hv
    then a.old_hashtable (mask (a.hashpower - 1) hv)
    else a.primary_hashtable (mask a.hashpower hv)

-- A write of that bucket.
abbrev pub set_chain : Assoc → ℕ → Chain.Chain → Assoc
set_chain a hv c =
    if in_old a hv
    then record a { old_hashtable = update a.old_hashtable (mask (a.hashpower - 1) hv) c }
    else record a { primary_hashtable = update a.primary_hashtable (mask a.hashpower hv) c }

unfoldable pub assoc_find : Assoc → Key → ℕ → Option ℕ
assoc_find a key hv = find_chain key (chain_of a hv)

unfoldable pub assoc_start_expand : Assoc → Assoc
assoc_start_expand a = if a.started_expanding then a else record a { started_expanding = true }

unfoldable pub assoc_insert : Assoc → Key → ℕ → ℕ → Assoc
assoc_insert a key it hv =
    let items = (a.hash_items + 1) % u32_mod in
    let b = record (set_chain a hv ((key, it) ∷ chain_of a hv)) { hash_items = items } in
    if not b.expanding && ltb (hashsize b.hashpower * 3 / 2) items then assoc_start_expand b else b

-- `none` is the failed assertion at the end.
unfoldable pub assoc_delete : Assoc → Key → ℕ → Option Assoc
assoc_delete a key hv =
    Option.map
      (λ c. record (set_chain a hv c) { hash_items = (a.hash_items + u32_mod - 1) % u32_mod })
      (delete_chain key (chain_of a hv))

unfoldable pub assoc_expand : Bool → Assoc → Assoc
assoc_expand calloc_ok a =
    if calloc_ok
    then record a {
      old_hashtable = a.primary_hashtable;
      primary_hashtable = λ _. [];
      hashpower = a.hashpower + 1;
      expanding = true;
      expand_bucket = 0;
      hash_power_level = a.hashpower + 1;
      hash_bytes = a.hash_bytes + hashsize (a.hashpower + 1) * pointer_size;
      hash_is_expanding = true;
    }
    else a

-- `hash` is the function pointer that hash_init sets.
module _ (hash : Key → ℕ) where
  -- The inner loop of assoc_maintenance_thread: every item goes to the head of its new chain.
  unfoldable pub move_chain : ℕ → Chain.Chain → (ℕ → Chain.Chain) → ℕ → Chain.Chain
  move_chain power [] table = table
  move_chain power ((key, it) ∷ c) table =
      let bucket = mask power (hash key) in
      move_chain power c (update table bucket ((key, it) ∷ table bucket))

  -- One round of the bulk move.
  unfoldable pub move_bucket : Assoc → Assoc
  move_bucket a =
      let moved = (a.expand_bucket + 1) % u32_mod in
      let b = record a {
        primary_hashtable =
            move_chain a.hashpower (a.old_hashtable a.expand_bucket) a.primary_hashtable;
        old_hashtable = update a.old_hashtable a.expand_bucket [];
        expand_bucket = moved;
      } in
      if moved == hashsize (a.hashpower - 1)
      then record b {
        expanding = false;
        hash_bytes = b.hash_bytes - hashsize (a.hashpower - 1) * pointer_size;
        hash_is_expanding = false;
      }
      else b

  -- The bulk move: at most `hash_bulk_move` buckets while the table is expanding.
  unfoldable pub bulk_move : ℕ → Assoc → Assoc
  bulk_move zero a = a
  bulk_move (suc n) a = elim a.expanding [ true ↦ bulk_move n (move_bucket a) | false ↦ a ]

  -- One round of the thread's loop up to the wait: the bulk move, and if nothing is left to move, an
  -- expansion may be asked for again. Once it is signalled, the round ends with assoc_expand.
  unfoldable pub maintenance_round : ℕ → Assoc → Assoc
  maintenance_round hash_bulk_move a =
      let b = bulk_move hash_bulk_move a in
      if b.expanding then b else record b { started_expanding = false }
