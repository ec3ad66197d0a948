-- ===== src/Binary/Delete.antt =====
-- process_bin_delete of memcached-1.4/memcached.c on a consistent store: which keys go, and the answer.
use reading_and_comprehense.Base.{
  ℕ, ◌^◌, ◌<◌, ◌≤◌, ◌≡◌, refl, sym, ap, Bool, true, not, ◌&&◌, ◌||◌, Option, none, some, arith,
  ◌==◌, if◌then◌else◌, bytes_eq, inl, inr, Bool-cases,
}
use reading_and_comprehense.Assoc.Chain.{Key}
use reading_and_comprehense.Memory.{item_get_cas}
use reading_and_comprehense.Items.{Store, item_at, do_item_remove}
use reading_and_comprehense.Items.Consistent.{Consistent, stored}
use reading_and_comprehense.Items.Get.{Room, Hit, GetResult}
use reading_and_comprehense.Items.Remove.{do_item_remove-Released, do_item_remove-Consistent}
use reading_and_comprehense.Items.Alloc.{Env}
use reading_and_comprehense.Storage.{item_get}
use reading_and_comprehense.Commands.Effects.{
  readable, drop_found, drop_found-Gone, found_or_not, get_lem,
}
use reading_and_comprehense.Binary.{BinStatus, BinServer, binary_get_key}
use reading_and_comprehense.Binary.Process.{
  bin_delete_found, bin_delete_after, record_delete, process_bin_delete,
}
use reading_and_comprehense.Binary.Told.{
  Told, error_store, response_store, response-Told, error-Told,
}

-- The CAS of the request fits that of the stored item.
unfoldable pub fits_stored : (Key → ℕ) → Store → Key → ℕ → Bool
fits_stored hash st key cas = elim (stored hash st key) [
  | none ↦ true
  | some p ↦ cas == 0 || cas == item_get_cas (item_at st p)
]

-- A live item with another CAS stays.
abbrev pub kept : (Key → ℕ) → Store → Key → ℕ → Bool
kept hash st key cas = readable hash st key && not (fits_stored hash st key cas)

abbrev pub delete_status : (Key → ℕ) → Store → Key → ℕ → BinStatus
delete_status hash st key cas =
    if readable hash st key
    then if fits_stored hash st key cas then BinStatus.success else BinStatus.key_eexists
    else BinStatus.key_enoent

pub record BinDeleted (hash : Key → ℕ) (st : Store) (key : Key) (cas : ℕ) (st' : Store)
    : Type 0 where
  pub table :
      (q : Key)
      → stored hash st' q
        ≡ (if bytes_eq key q && not (kept hash st key cas) then none else stored hash st q)
  pub consistent : Consistent hash st'

module _ (env : Env) (st : Store) (key : Key) (cas : ℕ) (c : Consistent env.hash st)
    (room : Room st) where
  fits_found : Option ℕ × Store → Bool
  fits_found (none, st1) = true
  fits_found (some p, st1) = cas == 0 || cas == item_get_cas (item_at st1 p)

  -- The store after the lookup `g`.
  after_delete : Option ℕ × Store → Store
  after_delete (none, st1) = st1
  after_delete (some p, st1) =
      if cas == 0 || cas == item_get_cas (item_at st1 p)
      then drop_found env st key c room (some p, st1)
      else do_item_remove p st1

  fits_found_lem :
      (p : ℕ) (st1 : Store)
      → Hit env.hash st key p st1
      → (cas == 0 || cas == item_get_cas (item_at st1 p)) ≡ fits_stored env.hash st key cas
  unfolding fits_stored item_get_cas
  fits_found_lem p st1 m = ground (arith, m.stored_here, m.item)

  mismatch-BinDeleted :
      (p : ℕ) (st1 : Store)
      → Hit env.hash st key p st1
      → kept env.hash st key cas ≡ true
      → BinDeleted env.hash st key cas (do_item_remove p st1)
  mismatch-BinDeleted p st1 m stays =
      let k = c.found key p m.stored_here in
      let narrow : (item_at st1 p).refcount < 2 ^ 16 = ground (arith, m.item, room p) in
      let held : 2 ≤ (item_at st1 p).refcount = ground (arith, m.item, c.held p k.0) in
      let r = do_item_remove-Released st1 p (omega (arith, held)) narrow in
      record {
        table = λ q. ground (arith, r.assoc, m.assoc, stays);
        consistent =
            do_item_remove-Consistent env.hash st1 p m.consistent narrow (omega (arith, held))
              (λ l. held);
      }

  after_delete-BinDeleted :
      (g : Option ℕ × Store)
      → GetResult env.hash st key g
      → BinDeleted env.hash st key cas (after_delete g)
  unfolding after_delete
  after_delete-BinDeleted (none, st1) m =
      let gone = found_or_not env st key c room (none, st1) m in
      record { table = λ q. ground (arith, gone, m.table q); consistent = m.consistent }
  after_delete-BinDeleted (some p, st1) m =
      let found = found_or_not env st key c room (some p, st1) m in
      let fits = fits_found_lem p st1 m in
      elim (Bool-cases (cas == 0 || cas == item_get_cas (item_at st1 p))) [
        | inl e ↦
            let d = drop_found-Gone env st key c room (some p, st1) m in
            rw e (record {
              table = λ q. ground (arith, d.table q, fits, e, found);
              consistent = d.consistent;
            })
        | inr e ↦ rw e (mismatch-BinDeleted p st1 m (ground (arith, fits, e, found)))
      ]

record_delete_same :
    (env : Env) (key : Key) (b : BinServer)
    → ((record_delete env key b).bin ≡ b.bin)
      × ((record_delete env key b).server.conn ≡ b.server.conn)
unfolding record_delete
record_delete_same env key b = (ground arith, ground arith)

module _ (env : Env) (st : Store) (key : Key) (c : Consistent env.hash st) (room : Room st) where
  found_store :
      (p : ℕ) (b : BinServer)
      → (bin_delete_found env p b).server.store
        ≡ after_delete env st key b.bin.header.cas c room (some p, b.server.store)
  unfolding bin_delete_found after_delete
  found_store p b =
      elim (Bool-cases
        (b.bin.header.cas == 0 || b.bin.header.cas == item_get_cas (item_at b.server.store p))) [
          | inl f ↦ rw f (ap (do_item_remove p) (response_store _))
          | inr f ↦ rw f (ap (do_item_remove p) (error_store BinStatus.key_eexists b))
        ]

  after_store :
      (g : Option ℕ × Store) (b : BinServer)
      → (bin_delete_after env g b).server.store ≡ after_delete env st key b.bin.header.cas c room g
  unfolding bin_delete_after after_delete
  after_store (none, st1) b = error_store BinStatus.key_enoent _
  after_store (some p, st1) b = found_store p _

  found-Told :
      (p : ℕ) (b : BinServer)
      → Told b.bin b.server.conn
          (if b.bin.header.cas == 0 || b.bin.header.cas == item_get_cas (item_at b.server.store p)
            then BinStatus.success
            else BinStatus.key_eexists)
          (bin_delete_found env p b)
  unfolding bin_delete_found
  found-Told p b =
      elim (Bool-cases
        (b.bin.header.cas == 0 || b.bin.header.cas == item_get_cas (item_at b.server.store p))) [
          | inl f ↦ rw f (response-Told _)
          | inr f ↦ rw f (error-Told BinStatus.key_eexists b refl refl)
        ]

  after-Told :
      (g : Option ℕ × Store) (b : BinServer)
      → GetResult env.hash st key g
      → Told b.bin b.server.conn
          (delete_status env.hash st key b.bin.header.cas)
          (bin_delete_after env g b)
  unfolding bin_delete_after
  after-Told (none, st1) b m =
      let gone = sym (found_or_not env st key c room (none, st1) m) in
      rw gone (error-Told BinStatus.key_enoent _ refl refl)
  after-Told (some p, st1) b m =
      let found = sym (found_or_not env st key c room (some p, st1) m) in
      let fits = sym (fits_found_lem env st key b.bin.header.cas c room p st1 m) in
      rw (found, fits) (found-Told p _)

-- A binary delete on a consistent store: a key whose live item has another CAS than the request asks
-- for stays, and the answer says that it exists; any other goes, and no other key changes, the answer
-- being a success where it was live and `not found` otherwise. The answer is one packet with that
-- status, except that nothing is sent for the success of a quiet delete (a command that is neither get
-- nor getk). The store stays consistent.
pub process_bin_delete-BinDeleted :
    (env : Env) (b : BinServer)
    → Consistent env.hash b.server.store
    → Room b.server.store
    → BinDeleted env.hash b.server.store
        (binary_get_key b)
        b.bin.header.cas
        (process_bin_delete env b).server.store
      × Told b.bin b.server.conn
          (delete_status env.hash b.server.store (binary_get_key b) b.bin.header.cas)
          (process_bin_delete env b)
unfolding process_bin_delete record_delete
process_bin_delete-BinDeleted env b c room =
    let st = b.server.store in
    let key = binary_get_key b in
    let g = item_get env key st in
    let m = get_lem env st key c room in
    let b1 = record_delete env key b in
    let same = record_delete_same env key b in
    let told = after-Told env st key c room g b1 m in
    (
      rw (after_store env st key c room g b1, same.0)
          (after_delete-BinDeleted env st key b.bin.header.cas c room g m),
      rw (same.0, same.1) at told,
    )
