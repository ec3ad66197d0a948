-- ===== src/Storage.antt =====
-- The storage commands of memcached-1.4/memcached.c on the items: do_store_item, complete_nread_ascii and
-- the data block of an item, with the wrappers of memcached-1.4/thread.c that lock by the key's hash
-- value. `none` is an abort of the slab allocator.
pub mod Arithmetic
pub mod Effects
pub mod Cases
pub mod Outcome
pub mod Append
pub mod Delta
pub mod Block
use reading_and_comprehense.Base.{
  ℕ, zero, suc, ◌+◌, ◌-◌, ◌*◌, ◌%◌, ◌^◌, Bool, true, false, not, ◌&&◌, ◌||◌, Option, none, some,
  List, [], ◌∷◌, ◌++◌, ltb, leb, ◌==◌, if◌then◌else◌, length, take, drop, replicate, bytes_eq,
}
use mathlib.Core.Option
use reading_and_comprehense.Assoc.Chain.{Key}
use reading_and_comprehense.Memory.{Item, item_get_cas, item_set_cas, add64, sub64, add32, sub32}
use reading_and_comprehense.Util.{safe_strtoull, decimal}
use reading_and_comprehense.Items.{
  Store, item_at, edit, stamp_cas, do_item_get, do_item_link, do_item_remove, do_item_replace,
  do_item_update, do_item_unlink, do_item_touch,
}
use reading_and_comprehense.Items.Alloc.{Env, do_item_alloc}
use reading_and_comprehense.Conn.{
  Nread, StoreResult, Server, Conn, ThreadStats, SlabStats, Reply, on_store, on_conn, on_stats,
  on_slab, out_string, strtol, re_stored, re_exists, re_not_found, re_not_stored, re_bad_chunk,
  conn_nread, conn_new_cmd, conn_closing,
}

-- memcpy into a data block: the bytes behind the copy stay.
unfoldable pub write_at : ℕ → List ℕ → List ℕ → List ℕ
write_at off bytes old = take off old ++ (bytes ++ drop (off + length bytes) old)

abbrev pub write_value : ℕ → ℕ → List ℕ → Store → Store
write_value p off bytes = edit p (λ it. record it { value = write_at off bytes it.value })

-- A string in C: the bytes before the first zero.
unfoldable pub c_string : List ℕ → List ℕ
c_string [] = []
c_string (c ∷ s) = if c == 0 then [] else c ∷ c_string s

-- ITEM_data: the data block, nbytes long.
unfoldable pub item_data : Item → List ℕ
item_data it = take it.nbytes it.value

-- The store that ends do_store_item: the references to the old and the combined item are dropped.
unfoldable pub finish_store : Option ℕ → Option ℕ → ℕ → StoreResult → Server → StoreResult × Server
finish_store old_it new_it it result sv =
    let drop_ref : Option ℕ → Store → Store =
      λ o st. elim o [ none ↦ st | some p ↦ do_item_remove p st ] in
    let sv1 = on_store (λ st. drop_ref new_it (drop_ref old_it st)) sv in
    let sv2 : Server = elim result [
      | StoreResult.stored ↦
          on_conn (λ c. record c { cas = item_get_cas (item_at sv1.store it) }) sv1
      | _ ↦ sv1
    ] in
    (result, sv2)

-- The item is linked in place of the old one, or as a new one.
unfoldable pub link_or_replace : Option ℕ → ℕ → ℕ → Server → Server
link_or_replace old_it it hv sv =
    let st : Store = elim old_it [
      | some o ↦ do_item_replace o it hv sv.store
      | none ↦ do_item_link it hv sv.store
    ] in
    on_conn (λ c. record c { cas = item_get_cas (item_at st it) }) (record sv { store = st })

-- The two data blocks without the CRLF between them.
unfoldable pub join_values : Bool → ℕ → ℕ → ℕ → Store → Store
join_values is_append new_it old_it it st =
    let old_data = item_data (item_at st old_it) in
    let new_data = item_data (item_at st it) in
    let old_bytes = (item_at st old_it).nbytes in
    let bytes = (item_at st it).nbytes in
    if is_append
    then write_value new_it (old_bytes - 2) new_data (write_value new_it 0 old_data st)
    else write_value new_it (bytes - 2) old_data (write_value new_it 0 new_data st)

unfoldable pub store_cas : ℕ → ℕ → ℕ → Server → StoreResult × Server
store_cas old_it it hv sv =
    let old = item_at sv.store old_it in
    if item_get_cas (item_at sv.store it) == item_get_cas old
    then finish_store (some old_it) none it StoreResult.stored (
        on_store (do_item_replace old_it it hv)
          (on_slab old.slabs_clsid (λ s. record s { cas_hits = add64 s.cas_hits 1 }) sv))
    else finish_store (some old_it) none it StoreResult.exists
        (on_slab old.slabs_clsid (λ s. record s { cas_badval = add64 s.cas_badval 1 }) sv)

-- What do_store_item does with a key that is not stored, and with one that is.
unfoldable pub store_absent : Nread → ℕ → ℕ → Server → StoreResult × Server
store_absent comm it hv sv = elim comm [
  | Nread.add ↦ finish_store none none it StoreResult.stored (link_or_replace none it hv sv)
  | Nread.set ↦ finish_store none none it StoreResult.stored (link_or_replace none it hv sv)
  | Nread.cas ↦
      finish_store none none it StoreResult.not_found
        (on_stats (λ s. record s { cas_misses = add64 s.cas_misses 1 }) sv)
  | _ ↦ finish_store none none it StoreResult.not_stored sv
]

abbrev pub store_reply : StoreResult → Reply
store_reply StoreResult.stored = re_stored
store_reply StoreResult.exists = re_exists
store_reply StoreResult.not_found = re_not_found
store_reply StoreResult.not_stored = re_not_stored

abbrev pub crlf : List ℕ
crlf = 13 ∷ 10 ∷ []

-- One round of the state conn_swallow: sbytes of input are thrown away.
unfoldable pub swallow_round : Server → Server
swallow_round sv =
    if sv.conn.sbytes == 0
    then on_conn (λ c. record c { state = conn_new_cmd }) sv
    else on_conn
        (λ c. record c {
          sbytes = c.sbytes - length (take c.sbytes c.rcurr);
          rcurr = drop c.sbytes c.rcurr;
        })
        sv

module _ (env : Env) where
  abbrev pub hash_of : ℕ → Store → ℕ
  hash_of p st = env.hash (item_at st p).key

  unfoldable pub item_get : Key → Store → Option ℕ × Store
  item_get key st = do_item_get key (env.hash key) st

  unfoldable pub item_touch : Key → ℕ → Store → Option ℕ × Store
  item_touch key exptime st = do_item_touch key exptime (env.hash key) st

  unfoldable pub item_unlink : ℕ → Store → Store
  item_unlink p st = do_item_unlink p (hash_of p st) st

  unfoldable pub item_alloc : Key → ℕ → ℕ → ℕ → Store → Option (Option ℕ × Store)
  item_alloc key flags exptime nbytes st = do_item_alloc env key flags exptime nbytes 0 st

  -- append and prepend of `it` to the item that is there.
  unfoldable pub combine : Bool → ℕ → ℕ → ℕ → Server → Option (StoreResult × Server)
  combine is_append old_it it hv sv =
      let old = item_at sv.store old_it in
      let i = item_at sv.store it in
      if not (item_get_cas i == 0) && not (item_get_cas i == item_get_cas old)
      then some (finish_store (some old_it) none it StoreResult.exists sv)
      else Option.map
          (λ r.
            let (new_it, st1) = r in
            elim new_it [
              | none ↦ (StoreResult.not_stored, record sv { store = do_item_remove old_it st1 })
              | some p ↦ finish_store (some old_it) (some p) p StoreResult.stored (
                  link_or_replace (some old_it) p hv
                    (record sv { store = join_values is_append p old_it it st1 }))
            ])
          (do_item_alloc env i.key (strtol old.suffix % 2 ^ 32) old.exptime
            (sub32 (add32 i.nbytes old.nbytes) 2) hv sv.store)

  unfoldable pub store_present : Nread → ℕ → ℕ → ℕ → Server → Option (StoreResult × Server)
  store_present comm o it hv sv = elim comm [
    | Nread.add ↦
        some (finish_store (some o) none it StoreResult.not_stored (on_store (do_item_update o) sv))
    | Nread.set ↦
        some (finish_store (some o) none it StoreResult.stored (link_or_replace (some o) it hv sv))
    | Nread.replace ↦
        some (finish_store (some o) none it StoreResult.stored (link_or_replace (some o) it hv sv))
    | Nread.append ↦ combine true o it hv sv
    | Nread.prepend ↦ combine false o it hv sv
    | Nread.cas ↦ some (store_cas o it hv sv)
  ]

  unfoldable pub do_store_item : ℕ → Nread → ℕ → Server → Option (StoreResult × Server)
  do_store_item it comm hv sv =
      let (old_it, st) = do_item_get (item_at sv.store it).key hv sv.store in
      let sv1 = record sv { store = st } in
      elim old_it [
        | none ↦ some (store_absent comm it hv sv1)
        | some o ↦ store_present comm o it hv sv1
      ]

  unfoldable pub store_item : ℕ → Nread → Server → Option (StoreResult × Server)
  store_item it comm sv = do_store_item it comm (hash_of it sv.store) sv

  -- The data block of c->item has arrived.
  unfoldable pub complete_nread_ascii : ℕ → Server → Option Server
  complete_nread_ascii it sv =
      let i = item_at sv.store it in
      let sv1 = on_slab i.slabs_clsid (λ s. record s { set_cmds = add64 s.set_cmds 1 }) sv in
      let answered : Option Server =
        if bytes_eq (take 2 (drop (i.nbytes - 2) i.value)) crlf
        then Option.map (λ r. out_string (store_reply (r.0)) (r.1)) (store_item it sv1.conn.cmd sv1)
        else some (out_string re_bad_chunk sv1) in
      Option.map (λ sv2. on_conn (λ c. record c { item = none }) (on_store (do_item_remove it) sv2))
        answered

  -- One round of the state conn_nread on the input that is there: bytes are copied to the data block.
  unfoldable pub nread_round : Server → Option Server
  nread_round sv = elim sv.conn.item [
    | none ↦ some sv
    | some it ↦
        if sv.conn.rlbytes == 0
        then complete_nread_ascii it sv
        else let c = sv.conn in
          let bytes = take c.rlbytes c.rcurr in
          some (
            on_conn
              (λ c. record c {
                ritem = c.ritem + length bytes;
                rlbytes = c.rlbytes - length bytes;
                rcurr = drop (length bytes) c.rcurr;
              })
              (on_store (write_value it c.ritem bytes) sv))
  ]
