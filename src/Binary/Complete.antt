-- ===== src/Binary/Complete.antt =====
-- complete_incr_bin and complete_nread_binary of memcached-1.4/memcached.c, and the rounds of the state
-- conn_nread for the binary protocol. The handlers of stat and of SASL are a parameter. `none` is an
-- abort.
use reading_and_comprehense.Base.{
  ℕ, ◌+◌, ◌-◌, Bool, true, false, ◌||◌, Option, none, some, List, ◌++◌, ◌==◌, if◌then◌else◌, length,
  take, drop,
}
use mathlib.Core.Option
use reading_and_comprehense.Assoc.Chain.{Key}
use reading_and_comprehense.Memory.{item_get_cas, add64}
use reading_and_comprehense.Memory.Int.{pos}
use reading_and_comprehense.Util.{decimal}
use reading_and_comprehense.Items.{item_at, do_item_remove}
use reading_and_comprehense.Items.Alloc.{Env}
use reading_and_comprehense.Conn.{Nread, StoreResult, Server, on_store, on_stats, strtoul, realtime}
use reading_and_comprehense.Storage.{item_alloc, store_item, write_value, crlf}
use reading_and_comprehense.Storage.Arithmetic.{
  DeltaResult, delta_ok, delta_non_numeric, delta_eom, delta_item_not_found,
  delta_item_cas_mismatch, add_delta,
}
use reading_and_comprehense.Binary.Opcode
use reading_and_comprehense.Binary.Header.{htonll}
use reading_and_comprehense.Binary.{
  BinSubstate, BinStatus, BinServer, on_server, on_bin, on_bin_conn, codes, write_bin_error,
  write_bin_response, out_of_memory, binary_get_key,
}
use reading_and_comprehense.Binary.Process.{
  be_value, process_bin_get_or_touch, process_bin_delete, process_bin_flush,
}
use reading_and_comprehense.Binary.Update.{
  process_bin_update, process_bin_append_prepend, complete_update_bin,
}

abbrev is_not_stored : StoreResult → Bool
is_not_stored StoreResult.not_stored = true
is_not_stored _ = false

unfoldable pub count_delta_miss : Bool → Server → Server
count_delta_miss incr sv =
    on_stats
      (λ s.
        if incr
        then record s { incr_misses = add64 s.incr_misses 1 }
        else record s { decr_misses = add64 s.decr_misses 1 })
      sv

-- The CAS of the new item goes with the answer.
unfoldable pub answer_initial : StoreResult → ℕ → ℕ → BinServer → BinServer
answer_initial result it initial b =
    if is_not_stored result
    then write_bin_error BinStatus.not_stored 0 b
    else write_bin_response (htonll initial) 0 0
        (on_bin_conn (λ c. record c { cas = item_get_cas (item_at b.server.store it) }) b)

module _ (env : Env) where
  -- A number that is not there is stored with the initial value.
  unfoldable pub store_initial : ℕ → List ℕ → ℕ → BinServer → Option BinServer
  store_initial it text initial b =
      Option.map
        (λ r.
          on_server (on_store (do_item_remove it))
            (answer_initial r.0 it initial (on_server (λ _. r.1) b)))
        (store_item env it Nread.add
          (on_store (λ st. write_value it (length text) crlf (write_value it 0 text st)) b.server))

  unfoldable pub incr_missing : Key → ℕ → ℕ → BinServer → Option BinServer
  incr_missing key initial expiration b =
      let sv = b.server in
      let text = decimal initial in
      let exptime = realtime sv.process_started sv.store.current_time (pos expiration) in
      if expiration == 0xffffffff
      then some (
          write_bin_error BinStatus.key_enoent 0
            (on_server (count_delta_miss (b.bin.cmd == Opcode.increment)) b))
      else elim (item_alloc env key 0 exptime (length text + 2) sv.store) [
        | none ↦ none
        | some (it, st) ↦
            let b1 = on_server (λ s. record s { store = st }) b in
            elim it [
              | none ↦ some (out_of_memory (codes "Out of memory allocating new item") b1)
              | some p ↦ store_initial p text initial b1
            ]
      ]

  unfoldable pub answer_delta : Key → ℕ → ℕ → DeltaResult → BinServer → Option BinServer
  answer_delta key initial expiration result b = elim result [
    | delta_ok text cas ↦ some (
        write_bin_response (htonll (strtoul text)) 0 0
          (on_bin_conn (λ c. record c { cas = if cas == 0 then c.cas else cas }) b))
    | delta_non_numeric ↦ some (write_bin_error BinStatus.delta_badval 0 b)
    | delta_eom ↦ some (out_of_memory (codes "Out of memory incrementing value") b)
    | delta_item_not_found ↦ incr_missing key initial expiration b
    | delta_item_cas_mismatch ↦ some (write_bin_error BinStatus.key_eexists 0 b)
  ]

  unfoldable pub complete_incr_bin : BinServer → Option BinServer
  complete_incr_bin b =
      let key = binary_get_key b in
      let delta = be_value (take 8 b.bin.body) in
      let initial = be_value (take 8 (drop 8 b.bin.body)) in
      let expiration = be_value (take 4 (drop 16 b.bin.body)) in
      elim (add_delta env key (b.bin.cmd == Opcode.increment) delta b.bin.header.cas b.server) [
        | none ↦ none
        | some (result, sv) ↦ answer_delta key initial expiration result (on_server (λ _. sv) b)
      ]

  module _ (outside : BinSubstate → BinServer → Option BinServer) where
    unfoldable pub complete_nread_binary : BinServer → Option BinServer
    complete_nread_binary b = elim b.bin.substate [
      | BinSubstate.reading_set_header ↦
          if b.bin.cmd == Opcode.append || b.bin.cmd == Opcode.prepend
          then process_bin_append_prepend env b
          else process_bin_update env b
      | BinSubstate.read_set_value ↦ elim b.server.conn.item [
        | none ↦ none
        | some it ↦ complete_update_bin env it b
      ]
      | BinSubstate.reading_get_key ↦ some (process_bin_get_or_touch env b)
      | BinSubstate.reading_touch_key ↦ some (process_bin_get_or_touch env b)
      | BinSubstate.reading_stat ↦ outside b.bin.substate b
      | BinSubstate.reading_del_header ↦ some (process_bin_delete env b)
      | BinSubstate.reading_incr_header ↦ complete_incr_bin b
      | BinSubstate.read_flush_exptime ↦ some (process_bin_flush env b)
      | BinSubstate.reading_sasl_auth ↦ outside b.bin.substate b
      | BinSubstate.reading_sasl_auth_data ↦ outside b.bin.substate b
      | BinSubstate.no_state ↦ none
      | BinSubstate.reading_cas_header ↦ none
    ]

    -- Where the bytes go that the state conn_nread reads: to the item for a value, behind the header
    -- of the request otherwise.
    unfoldable pub place_bytes : List ℕ → BinServer → BinServer
    place_bytes bytes b = elim b.bin.substate [
      | BinSubstate.read_set_value ↦ elim b.server.conn.item [
        | none ↦ b
        | some it ↦ on_server (on_store (write_value it b.server.conn.ritem bytes)) b
      ]
      | _ ↦ on_bin (λ s. record s { body = s.body ++ bytes }) b
    ]

    -- One round of the state conn_nread on the input that is there.
    unfoldable pub bin_nread_round : BinServer → Option BinServer
    bin_nread_round b =
        let c = b.server.conn in
        let bytes = take c.rlbytes c.rcurr in
        if c.rlbytes == 0
        then complete_nread_binary b
        else some (
            on_bin_conn
              (λ c1. record c1 {
                ritem = c1.ritem + length bytes;
                rlbytes = c1.rlbytes - length bytes;
                rcurr = drop (length bytes) c1.rcurr;
              })
              (place_bytes bytes b))
