-- ===== src/Binary/Process.antt =====
-- The handlers of the binary protocol in memcached-1.4/memcached.c that read or remove: get and touch,
-- delete, flush.
use reading_and_comprehense.Base.{
  ℕ, ◌+◌, ◌-◌, ◌*◌, ◌%◌, ◌^◌, Bool, true, false, not, ◌||◌, Option, none, some, List, [], ◌∷◌, ltb,
  ◌==◌, if◌then◌else◌, length, take,
}
use reading_and_comprehense.Assoc.Chain.{Key}
use reading_and_comprehense.Memory.{Item, item_get_cas, add64, sub32}
use reading_and_comprehense.Memory.Int.{pos}
use reading_and_comprehense.Stats.{stats_prefix_record_get, stats_prefix_record_delete}
use reading_and_comprehense.Items.{
  Store, item_at, do_item_remove, do_item_update, do_item_flush_expired,
}
use reading_and_comprehense.Items.Alloc.{Env}
use reading_and_comprehense.Conn.{
  Server, on_store, on_stats, on_slab, strtoul, realtime, conn_mwrite, conn_new_cmd,
}
use reading_and_comprehense.Storage.{item_get, item_touch, item_unlink}
use reading_and_comprehense.Commands.Control.{on_settings}
use reading_and_comprehense.Binary.Opcode
use reading_and_comprehense.Binary.Header.{htonl}
use reading_and_comprehense.Binary.{
  BinStatus, BinServer, on_server, on_bin_conn, add_bin_header, add_iov, write_bin_error,
  write_bin_response, binary_get_key,
}

-- A number in network byte order.
unfoldable pub value_from : ℕ → List ℕ → ℕ
value_from n [] = n
value_from n (b ∷ bytes) = value_from (n * 256 + b) bytes

unfoldable pub be_value : List ℕ → ℕ
be_value bytes = value_from 0 bytes

unfoldable pub should_touch : ℕ → Bool
should_touch cmd = cmd == Opcode.touch || cmd == Opcode.gat || cmd == Opcode.gatk

unfoldable pub should_return_key : ℕ → Bool
should_return_key cmd = cmd == Opcode.getk || cmd == Opcode.gatk

unfoldable pub should_return_value : ℕ → Bool
should_return_value cmd = not (cmd == Opcode.touch)

-- The data block less its CRLF.
unfoldable pub bin_value : Item → List ℕ
bin_value it = take (it.nbytes - 2) it.value

-- bodylen has 32 bits and nbytes is an int, so that the sum is one modulo 2^32.
unfoldable pub hit_bodylen : ℕ → ℕ → Item → ℕ
hit_bodylen cmd nkey it =
    let bodylen = 4 + sub32 it.nbytes 2 in
    if cmd == Opcode.touch
    then 4
    else if should_return_key cmd
    then (bodylen + nkey) % 2 ^ 32
    else bodylen % 2 ^ 32

unfoldable pub count_hit : ℕ → ℕ → Server → Server
count_hit cmd id sv =
    if should_touch cmd
    then on_slab id (λ s. record s { touch_hits = add64 s.touch_hits 1 })
        (on_stats (λ s. record s { touch_cmds = add64 s.touch_cmds 1 }) sv)
    else on_slab id (λ s. record s { get_hits = add64 s.get_hits 1 })
        (on_stats (λ s. record s { get_cmds = add64 s.get_cmds 1 }) sv)

unfoldable pub count_miss : ℕ → Server → Server
count_miss cmd sv =
    on_stats
      (λ s.
        if should_touch cmd
        then record s { touch_cmds = add64 s.touch_cmds 1; touch_misses = add64 s.touch_misses 1 }
        else record s { get_cmds = add64 s.get_cmds 1; get_misses = add64 s.get_misses 1 })
      sv

-- The answer: the header with the item's CAS, the flags, and what the command asks for.
unfoldable pub answer_hit : ℕ → Item → BinServer → BinServer
answer_hit nkey it b =
    let cmd = b.bin.cmd in
    let keylen = if should_return_key cmd then nkey else 0 in
    let b1 =
      add_iov (htonl (strtoul it.suffix))
        (add_bin_header BinStatus.success 4 keylen (hit_bodylen cmd nkey it) (item_get_cas it) b) in
    let b2 = if should_return_key cmd then add_iov (take nkey it.key) b1 else b1 in
    if should_return_value cmd then add_iov (bin_value it) b2 else b2

unfoldable pub bin_hit : ℕ → ℕ → BinServer → BinServer
bin_hit nkey p b =
    let b1 =
      on_server
        (λ sv.
          count_hit b.bin.cmd (item_at sv.store p).slabs_clsid (on_store (do_item_update p) sv))
        b in
    on_bin_conn (λ c. record c { state = conn_mwrite; write_and_go = conn_new_cmd; item = some p })
      (answer_hit nkey (item_at b1.server.store p) b1)

unfoldable pub bin_miss : Key → BinServer → BinServer
bin_miss key b =
    let b1 = on_server (count_miss b.bin.cmd) b in
    if b.server.conn.noreply
    then on_bin_conn (λ c. record c { state = conn_new_cmd }) b1
    else if should_return_key b.bin.cmd
    then on_bin_conn (λ c. record c { state = conn_mwrite; write_and_go = conn_new_cmd })
        (add_iov key
          (add_bin_header BinStatus.key_enoent 0 (length key) (length key) b.server.conn.cas b1))
    else write_bin_error BinStatus.key_enoent 0 b1

module _ (env : Env) where
  unfoldable pub bin_lookup : Key → BinServer → Option ℕ × Store
  bin_lookup key b =
      let sv = b.server in
      if should_touch b.bin.cmd
      then item_touch env key
          (realtime sv.process_started sv.store.current_time (pos (be_value (take 4 b.bin.body))))
          sv.store
      else item_get env key sv.store

  unfoldable pub record_get : Key → Bool → BinServer → BinServer
  record_get key is_hit b =
      let settings = b.server.store.settings in
      if settings.detail_enabled
      then on_server
          (λ sv. record sv {
            prefixes =
                stats_prefix_record_get env.hash settings.prefix_delimiter key is_hit sv.prefixes;
          })
          b
      else b

  -- process_bin_get_or_touch behind the lookup of the key.
  unfoldable pub bin_get_after : Key → Option ℕ × Store → BinServer → BinServer
  bin_get_after key (some p, st) b =
      record_get key true
        (bin_hit b.bin.header.keylen p (on_server (λ sv. record sv { store = st }) b))
  bin_get_after key (none, st) b =
      record_get key false (bin_miss key (on_server (λ sv. record sv { store = st }) b))

  unfoldable pub process_bin_get_or_touch : BinServer → BinServer
  process_bin_get_or_touch b = let key = binary_get_key b in bin_get_after key (bin_lookup key b) b

  unfoldable pub bin_delete_found : ℕ → BinServer → BinServer
  bin_delete_found p b =
      let cas = b.bin.header.cas in
      let it = item_at b.server.store p in
      let b1 =
        if cas == 0 || cas == item_get_cas it
        then write_bin_response [] 0 0 (
            on_server
              (λ sv.
                on_store (item_unlink env p) (
                  on_slab it.slabs_clsid (λ s. record s { delete_hits = add64 s.delete_hits 1 })
                    sv))
              b)
        else write_bin_error BinStatus.key_eexists 0 b in
      on_server (on_store (do_item_remove p)) b1

  unfoldable pub record_delete : Key → BinServer → BinServer
  record_delete key b =
      let settings = b.server.store.settings in
      if settings.detail_enabled
      then on_server
          (λ sv. record sv {
            prefixes =
                stats_prefix_record_delete env.hash settings.prefix_delimiter key sv.prefixes;
          })
          b
      else b

  -- process_bin_delete behind the lookup of the key.
  unfoldable pub bin_delete_after : Option ℕ × Store → BinServer → BinServer
  bin_delete_after (some p, st) b =
      bin_delete_found p (on_server (λ sv. record sv { store = st }) b)
  bin_delete_after (none, st) b =
      on_server (on_stats (λ s. record s { delete_misses = add64 s.delete_misses 1 }))
        (write_bin_error BinStatus.key_enoent 0 (on_server (λ sv. record sv { store = st }) b))

  unfoldable pub process_bin_delete : BinServer → BinServer
  process_bin_delete b =
      let key = binary_get_key b in
      bin_delete_after (item_get env key b.server.store) (record_delete key b)

  unfoldable pub process_bin_flush : BinServer → BinServer
  process_bin_flush b =
      let sv = b.server in
      let exptime = if b.bin.header.extlen == 4 then be_value (take 4 b.bin.body) else 0 in
      let now = sv.store.current_time in
      let oldest_live =
        if ltb 0 exptime
        then sub32 (realtime sv.process_started now (pos exptime)) 1
        else sub32 now 1 in
      if not sv.store.settings.flush_enabled
      then write_bin_error BinStatus.auth_error 0 b
      else write_bin_response [] 0 0 (
          on_server
            (λ s0.
              on_stats (λ s. record s { flush_cmds = add64 s.flush_cmds 1 })
                (on_store (do_item_flush_expired env.hash)
                  (on_settings (λ s. record s { oldest_live = oldest_live }) s0)))
            b)
