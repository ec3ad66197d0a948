-- ===== src/Assoc/Run.antt =====
-- Runs of the table of memcached-1.4/assoc.c: the workers' inserts and deletes interleaved with the
-- rounds of the maintenance thread, against a map that knows no buckets.
use native.Mathlib.Nat.{pow-le-pow_right}
use reading_and_comprehense.Base.{
  ℕ, zero, suc, ◌+◌, ◌-◌, ◌≤◌, ◌<◌, ◌≡◌, refl, ◌∙◌, Bool, true, false, Option, none, some, arith,
  inl, inr, Bool-cases, if◌then◌else◌, bytes_eq,
}
use reading_and_comprehense.Assoc.Chain.{Key, find_chain, count}
use reading_and_comprehense.Assoc.Valid.{
  IsValid, no_wrap, move_bucket-IsValid, expand-IsValid, insert-IsValid, delete-IsValid,
}
use reading_and_comprehense.Assoc.View.{
  view, find-insert, find-delete_chain, find-expand, find-move_bucket,
}
use reading_and_comprehense.Assoc.{
  Assoc, hashsize, u32_mod, move_bucket, bulk_move, maintenance_round, assoc_insert, assoc_delete,
  assoc_expand, assoc_find, assoc_init,
}

abbrev pub Map : Type 0
Map = Key → Option ℕ

abbrev pub put : Key → Option ℕ → Map → Map
put k v m q = if bytes_eq k q then v else m q

-- A fresh table is valid and finds nothing.
pub init-IsValid :
    (hash : Key → ℕ) (hashtable_init : ℕ) {a : Assoc}
    → hashtable_init ≤ 32
    → assoc_init true hashtable_init ≡ some a
    → IsValid hash a × ((q : Key) → view hash a q ≡ none)
unfolding assoc_init count assoc_find find_chain
init-IsValid hash n {a} small e =
    let power : a.hashpower ≤ 32 = ground arith in
    (
      record {
        fits = pow-le-pow_right (omega arith) power;
        grown = ground arith;
        small = ground arith;
        primary_once = λ q b. ground arith;
        primary_home = λ q b. ground arith;
        primary_moved = λ q b. ground arith;
        old_once = λ q b. ground arith;
        old_home = λ q b. ground arith;
        old_waiting = λ q b. ground arith;
      },
      λ q. ground arith,
    )

module _ (hash : Key → ℕ) where
  bulk_step_busy :
      (n : ℕ) (a : Assoc)
      → a.expanding ≡ true
      → bulk_move hash (suc n) a ≡ bulk_move hash n (move_bucket hash a)
  unfolding bulk_move
  bulk_step_busy n a busy = ground arith

  bulk_step_idle : (n : ℕ) (a : Assoc) → a.expanding ≡ false → bulk_move hash n a ≡ a
  unfolding bulk_move
  bulk_step_idle zero a idle = refl
  bulk_step_idle (suc n) a idle = ground arith

  bulk_step_zero : (a : Assoc) → bulk_move hash 0 a ≡ a
  unfolding bulk_move
  bulk_step_zero a = refl

  -- Moving buckets keeps the invariant and every lookup.
  pub bulk_move-same :
      (n : ℕ) (a : Assoc)
      → IsValid hash a
      → IsValid hash (bulk_move hash n a)
        × ((q : Key) → view hash (bulk_move hash n a) q ≡ view hash a q)
  bulk_move-same zero a valid = rw bulk_step_zero (valid, λ q. refl)
  bulk_move-same (suc n) a valid = elim (Bool-cases a.expanding) [
    | inl busy ↦
        let (v, same) =
          bulk_move-same n (move_bucket hash a) (move_bucket-IsValid hash a valid busy) in
        rw (bulk_step_busy n a busy) (v, λ q. same q ∙ find-move_bucket hash a q valid busy)
    | inr idle ↦ rw (bulk_step_idle (suc n) a idle) (valid, λ q. refl)
  ]

  abbrev pub remaining : Assoc → ℕ
  remaining a = if a.expanding then hashsize (a.hashpower - 1) - a.expand_bucket else 0

  remaining_move :
      (a : Assoc)
      → IsValid hash a
      → a.expanding ≡ true
      → remaining (move_bucket hash a) < remaining a
  unfolding move_bucket
  remaining_move a valid busy = ground (arith, no_wrap hash a valid busy, valid.small busy)

  -- The expansion ends: as many moves as there are buckets left turn `expanding` off.
  pub bulk_move_finishes :
      (n : ℕ) (a : Assoc)
      → IsValid hash a
      → remaining a ≤ n
      → (bulk_move hash n a).expanding ≡ false
  bulk_move_finishes zero a valid h = rw bulk_step_zero (ground (arith, valid.small))
  bulk_move_finishes (suc n) a valid h = elim (Bool-cases a.expanding) [
    | inl busy ↦ rw (bulk_step_busy n a busy) (
        bulk_move_finishes n (move_bucket hash a) (move_bucket-IsValid hash a valid busy)
          (omega (arith, remaining_move a valid busy)))
    | inr idle ↦ rw (bulk_step_idle (suc n) a idle) idle
  ]

  -- A step of a worker or of the maintenance thread, with what it does to the map. The code inserts
  -- only a key that is absent, and the table has fewer than 2^32 buckets. The thread waits, and is
  -- woken, only after a round that has left nothing to move, and only the thread starts an expansion.
  pub data Step : Assoc → Map → Assoc → Map → Type 0 where
    insert :
        (a : Assoc) (m : Map) (k : Key) (it : ℕ)
        → m k ≡ none
        → Step a m (assoc_insert a k it (hash k)) (put k (some it) m)
    delete :
        (a b : Assoc) (m : Map) (k : Key)
        → assoc_delete a k (hash k) ≡ some b
        → Step a m b (put k none m)
    maintain :
        (a : Assoc) (m : Map) (hash_bulk_move : ℕ)
        → Step a m (maintenance_round hash hash_bulk_move a) m
    wake :
        (a : Assoc) (m : Map) (calloc_ok : Bool)
        → a.expanding ≡ false
        → hashsize (a.hashpower + 1) ≤ u32_mod
        → Step a m (assoc_expand calloc_ok a) m

  pub data Reach (a : Assoc) (m : Map) : Assoc → Map → Type 0 where
    here : Reach a m a m
    next : {b c : Assoc} {n o : Map} → Reach a m b n → Step b n c o → Reach a m c o

  -- The table shows exactly the map.
  pub record Shows (a : Assoc) (m : Map) : Type 0 where
    pub valid : IsValid hash a
    pub same : (q : Key) → view hash a q ≡ m q

  started-IsValid :
      (a : Assoc) → IsValid hash a → IsValid hash (record a { started_expanding = false })
  started-IsValid a v = record {
    fits = v.fits;
    grown = v.grown;
    small = v.small;
    primary_once = v.primary_once;
    primary_home = v.primary_home;
    primary_moved = v.primary_moved;
    old_once = v.old_once;
    old_home = v.old_home;
    old_waiting = v.old_waiting;
  }

  started-view :
      (a : Assoc) (q : Key) → view hash (record a { started_expanding = false }) q ≡ view hash a q
  unfolding assoc_find
  started-view a q = refl

  if-Shows :
      (test : Bool) (a b : Assoc) (m : Map)
      → Shows a m
      → Shows b m
      → Shows (if test then a else b) m
  if-Shows true a b m sa sb = sa
  if-Shows false a b m sa sb = sb

  maintain-Shows : (a : Assoc) (m : Map) (n : ℕ) → Shows a m → Shows (maintenance_round hash n a) m
  unfolding maintenance_round
  maintain-Shows a m n s =
      let b = bulk_move hash n a in
      let (v, same) = bulk_move-same n a s.valid in
      if-Shows b.expanding b _ m (record { valid = v; same = λ q. same q ∙ s.same q })
        (record { valid = started-IsValid b v; same = λ q. started-view b q ∙ same q ∙ s.same q })

  Step-Shows : {a b : Assoc} {m n : Map} → Step a m b n → Shows a m → Shows b n
  Step-Shows (insert a m k it absent) s = record {
    valid = insert-IsValid hash a s.valid k it (s.same k ∙ absent);
    same = λ q. ground (arith, find-insert hash a k q it, s.same q);
  }
  Step-Shows (delete a b m k h) s = record {
    valid = delete-IsValid hash a s.valid k b h;
    same = λ q. ground (arith, find-delete_chain hash a b k q s.valid h, s.same q);
  }
  Step-Shows (maintain a m n) s = maintain-Shows a m n s
  Step-Shows (wake a m ok idle room) s = record {
    valid = expand-IsValid hash a s.valid ok idle room;
    same = λ q. find-expand hash ok a q idle ∙ s.same q;
  }

  -- From a valid table that shows a map, any run of inserts of absent keys, deletes, maintenance
  -- rounds and wake-ups, in any order, leads to a valid table that shows the map the run makes.
  pub Reach-Shows :
      {a : Assoc} {m : Map} {b : Assoc} {n : Map} → Shows a m → Reach a m b n → Shows b n
  Reach-Shows s here = s
  Reach-Shows s (next r st) = Step-Shows st (Reach-Shows s r)
