-- ===== src/Binary/Update.antt =====
-- The handlers of the binary protocol in memcached-1.4/memcached.c that store: set, add and replace,
-- append and prepend, and the value that follows. `none` is an abort of the slab allocator, or a length
-- of the value that does not fit an int: the code goes on with a negative one, the model does not.
use reading_and_comprehense.Base.{
  ℕ, ◌+◌, ◌-◌, ◌^◌, not, Option, none, some, [], ltb, ◌==◌, if◌then◌else◌, take, drop,
}
use mathlib.Core.Option
use reading_and_comprehense.Assoc.Chain.{Key}
use reading_and_comprehense.Memory.{item_get_cas, item_set_cas, add64, sub32}
use reading_and_comprehense.Memory.Int.{ℤ, pos, negsuc}
use reading_and_comprehense.Stats.{stats_prefix_record_set}
use reading_and_comprehense.Items.{item_at, edit, do_item_remove}
use reading_and_comprehense.Items.Alloc.{Env, item_size_ok}
use reading_and_comprehense.Conn.{
  Nread, StoreResult, Server, on_store, on_slab, to_int, realtime, conn_nread, conn_swallow,
}
use reading_and_comprehense.Storage.{
  item_get, item_unlink, item_alloc, store_item, write_value, crlf,
}
use reading_and_comprehense.Binary.Opcode
use reading_and_comprehense.Binary.Header.{BinHeader}
use reading_and_comprehense.Binary.{
  BinSubstate, BinStatus, BinServer, on_server, on_bin, on_bin_conn, codes, write_bin_error,
  write_bin_response, out_of_memory, binary_get_key,
}
use reading_and_comprehense.Binary.Process.{be_value}

-- The int vlen of process_bin_update and process_bin_append_prepend, which has no extras.
unfoldable pub value_length : BinHeader → ℤ
value_length h = to_int 32 (sub32 h.bodylen (h.keylen + h.extlen))

-- process_bin_update's two switches: with a CAS, every command becomes cas.
unfoldable pub update_nread : ℕ → ℕ → Nread
update_nread cmd cas =
    if not (cas == 0)
    then Nread.cas
    else if cmd == Opcode.add
    then Nread.add
    else if cmd == Opcode.set
    then Nread.set
    else Nread.replace

unfoldable pub append_nread : ℕ → Nread
append_nread cmd = if cmd == Opcode.append then Nread.append else Nread.prepend

-- The item waits for its value.
unfoldable pub expect_value : ℕ → ℕ → Nread → BinServer → BinServer
expect_value it vlen comm b =
    on_bin (λ s. record s { substate = BinSubstate.read_set_value })
      (on_bin_conn
        (λ c. record c {
          cmd = comm;
          item = some it;
          ritem = 0;
          rlbytes = vlen;
          state = conn_nread;
        })
        b)

-- The answer where no item was allocated. Only the first branch sets the length that is swallowed.
unfoldable pub refuse_value : ℕ → ℕ → ℕ → BinServer → BinServer
refuse_value nkey flags vlen b =
    if item_size_ok b.server.store nkey flags (vlen + 2)
    then out_of_memory (codes "Out of memory allocating item") b
    else write_bin_error BinStatus.e2big vlen b

unfoldable pub swallow_value : BinServer → BinServer
swallow_value b = on_bin_conn (λ c. record c { write_and_go = conn_swallow }) b

-- The error for a result of store_item other than STORED.
unfoldable pub store_error : StoreResult → Nread → BinStatus
store_error StoreResult.stored comm = BinStatus.einval
store_error StoreResult.exists comm = BinStatus.key_eexists
store_error StoreResult.not_found comm = BinStatus.key_enoent
store_error StoreResult.not_stored Nread.add = BinStatus.key_eexists
store_error StoreResult.not_stored Nread.replace = BinStatus.key_enoent
store_error StoreResult.not_stored comm = BinStatus.not_stored

-- The answer to the command `comm`, which store_item leaves in c->cmd.
unfoldable pub answer_store : Nread → StoreResult → BinServer → BinServer
answer_store comm StoreResult.stored b = write_bin_response [] 0 0 b
answer_store comm result b = write_bin_error (store_error result comm) 0 b

-- The end of complete_update_bin: the answer, and the release of c->item.
unfoldable pub finish_update : ℕ → Nread → StoreResult × Server → BinServer → BinServer
finish_update it comm (result, sv) b =
    on_bin_conn (λ c. record c { item = none })
      (on_server (on_store (do_item_remove it)) (answer_store comm result (on_server (λ _. sv) b)))

module _ (env : Env) where
  -- A set that failed takes the old value out.
  unfoldable pub drop_stale : Key → Server → Server
  drop_stale key sv =
      let (found, st) = item_get env key sv.store in
      record sv {
        store = elim found [ none ↦ st | some p ↦ do_item_remove p (item_unlink env p st) ];
      }

  abbrev record_set : Key → BinServer → BinServer
  record_set key b =
      let settings = b.server.store.settings in
      if settings.detail_enabled
      then on_server
          (λ sv. record sv {
            prefixes = stats_prefix_record_set env.hash settings.prefix_delimiter key sv.prefixes;
          })
          b
      else b

  -- item_alloc for a value of `vlen` bytes, which the CRLF follows.
  unfoldable pub alloc_value : Key → ℕ → ℕ → ℤ → BinServer → Option (ℕ × Option ℕ × BinServer)
  alloc_value key flags exptime (negsuc n) b = none
  alloc_value key flags exptime (pos vlen) b =
      if ltb (vlen + 2) (2 ^ 31)
      then Option.map (λ r. (vlen, r.0, on_server (λ sv. record sv { store = r.1 }) b))
          (item_alloc env key flags exptime (vlen + 2) b.server.store)
      else none

  unfoldable pub process_bin_update : BinServer → Option BinServer
  process_bin_update b =
      let key = binary_get_key b in
      let h = b.bin.header in
      let flags = be_value (take 4 b.bin.body) in
      let expiration = be_value (take 4 (drop 4 b.bin.body)) in
      let b1 = record_set key b in
      let sv = b1.server in
      let exptime = realtime sv.process_started sv.store.current_time (pos expiration) in
      Option.map
        (λ r.
          let (vlen, it, b2) = r in
          elim it [
            | none ↦
                let b3 = refuse_value h.keylen flags vlen b2 in
                swallow_value
                  (if b3.bin.cmd == Opcode.set then on_server (drop_stale key) b3 else b3)
            | some p ↦
                expect_value p vlen
                  (update_nread b.bin.cmd
                    (item_get_cas (item_at (edit p (item_set_cas h.cas) b2.server.store) p)))
                  (on_server (on_store (edit p (item_set_cas h.cas))) b2)
          ])
        (alloc_value key flags exptime (value_length h) b1)

  unfoldable pub process_bin_append_prepend : BinServer → Option BinServer
  process_bin_append_prepend b =
      let key = binary_get_key b in
      let h = b.bin.header in
      Option.map
        (λ r.
          let (vlen, it, b2) = r in
          elim it [
            | none ↦ swallow_value (refuse_value h.keylen 0 vlen b2)
            | some p ↦
                expect_value p vlen (append_nread b.bin.cmd)
                  (on_server (on_store (edit p (item_set_cas h.cas))) b2)
          ])
        (alloc_value key 0 0 (to_int 32 (sub32 h.bodylen h.keylen)) (record_set key b))

  -- The value of c->item has arrived; the CRLF behind it is set here.
  unfoldable pub complete_update_bin : ℕ → BinServer → Option BinServer
  complete_update_bin it b =
      let i = item_at b.server.store it in
      let sv1 =
        on_store (write_value it (i.nbytes - 2) crlf)
          (on_slab i.slabs_clsid (λ s. record s { set_cmds = add64 s.set_cmds 1 }) b.server) in
      Option.map (λ r. finish_update it sv1.conn.cmd r b) (store_item env it sv1.conn.cmd sv1)
