-- ===== src/Storage/Arithmetic.antt =====
-- incr and decr on an item: do_add_delta of memcached-1.4/memcached.c.
use reading_and_comprehense.Base.{
  ℕ, ◌+◌, ◌-◌, ◌%◌, ◌^◌, Bool, not, ◌&&◌, Option, none, some, List, [], ◌∷◌, ltb, leb, ◌==◌,
  if◌then◌else◌, length, drop, replicate,
}
use mathlib.Core.Option
use reading_and_comprehense.Assoc.Chain.{Key}
use reading_and_comprehense.Memory.{item_get_cas, item_set_cas, add64}
use reading_and_comprehense.Util.{safe_strtoull, decimal}
use reading_and_comprehense.Items.{
  Store, item_at, edit, stamp_cas, do_item_get, do_item_remove, do_item_replace, do_item_update,
}
use reading_and_comprehense.Items.Alloc.{Env, do_item_alloc}
use reading_and_comprehense.Conn.{Server, on_store, on_slab, strtol}
use reading_and_comprehense.Storage.{write_value, c_string}

-- enum delta_result_type; `delta_ok` has the text of `buf` and the value for `cas`.
pub data DeltaResult : Type 0 where
  delta_ok : List ℕ → ℕ → DeltaResult
  delta_non_numeric delta_eom delta_item_not_found delta_item_cas_mismatch : DeltaResult

-- The unsigned sum wraps; the difference stops at 0.
unfoldable pub apply_delta : Bool → ℕ → ℕ → ℕ
apply_delta incr delta value =
    if incr then add64 value delta else if ltb value delta then 0 else value - delta

-- The number is written over the old one, with spaces up to the CRLF.
unfoldable pub delta_in_place : ℕ → List ℕ → Store → Store
delta_in_place it buf st =
    let st1 = stamp_cas it st in
    let nbytes = (item_at st1 it).nbytes in
    do_item_update it (
      write_value it (length buf) (replicate (nbytes - length buf - 2) b' ')
        (write_value it 0 buf st1))

-- A new item takes the place of the old one, whose CAS becomes that of the new one.
unfoldable pub delta_new_item : ℕ → ℕ → List ℕ → ℕ → Store → Store
delta_new_item it new_it buf hv st =
    let st1 = write_value new_it (length buf) (13 ∷ 10 ∷ []) (write_value new_it 0 buf st) in
    let st2 = do_item_replace it new_it hv st1 in
    let id = if st2.settings.use_cas then item_get_cas (item_at st2 new_it) else 0 in
    do_item_remove new_it (edit it (item_set_cas id) st2)

abbrev pub count_delta : Bool → ℕ → Server → Server
count_delta incr id sv =
    on_slab id
      (λ s.
        if incr
        then record s { incr_hits = add64 s.incr_hits 1 }
        else record s { decr_hits = add64 s.decr_hits 1 })
      sv

module _ (env : Env) where
  -- do_add_delta once the number is read; the last test drops the reference.
  unfoldable pub store_delta : ℕ → List ℕ → ℕ → Server → Option (DeltaResult × Server)
  store_delta it buf hv sv =
      let i = item_at sv.store it in
      let done : Store → DeltaResult × Server = λ st.
        (delta_ok buf (item_get_cas (item_at st it)), record sv { store = do_item_remove it st }) in
      if leb (length buf + 2) i.nbytes && i.refcount == 2
      then some (done (delta_in_place it buf sv.store))
      else if ltb 1 i.refcount
      then Option.map
          (λ r.
            let (new_it, st1) = r in
            elim new_it [
              | none ↦ (delta_eom, record sv { store = do_item_remove it st1 })
              | some p ↦ done (delta_new_item it p buf hv st1)
            ])
          (do_item_alloc env i.key (strtol (drop 1 i.suffix) % 2 ^ 32) i.exptime (length buf + 2) hv
            sv.store)
      else some
          (delta_item_not_found, if i.refcount == 1 then on_store (do_item_remove it) sv else sv)

  -- `cas` is 0 for a caller that passes no CAS.
  unfoldable pub do_add_delta : Key → Bool → ℕ → ℕ → ℕ → Server → Option (DeltaResult × Server)
  do_add_delta key incr delta cas hv sv =
      let (found, st) = do_item_get key hv sv.store in
      let sv1 = record sv { store = st } in
      elim found [
        | none ↦ some (delta_item_not_found, sv1)
        | some it ↦
            let i = item_at st it in
            if not (cas == 0) && not (item_get_cas i == cas)
            then some (delta_item_cas_mismatch, on_store (do_item_remove it) sv1)
            else elim (safe_strtoull (c_string i.value)) [
              | none ↦ some (delta_non_numeric, on_store (do_item_remove it) sv1)
              | some value ↦
                  store_delta it (decimal (apply_delta incr delta value)) hv
                    (count_delta incr i.slabs_clsid sv1)
            ]
      ]

  unfoldable pub add_delta : Key → Bool → ℕ → ℕ → Server → Option (DeltaResult × Server)
  add_delta key incr delta cas sv = do_add_delta key incr delta cas (env.hash key) sv
