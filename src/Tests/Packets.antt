-- ===== src/Tests/Packets.antt =====
-- The theorems on the binary protocol, applied to requests for the key of the small cache.
use reading_and_comprehense.Base.{
  ℕ, ◌^◌, ◌<◌, ◌≡◌, refl, true, none, some, ◌+◌, List, [], ◌∷◌, arith, length, inl, inr,
}
use reading_and_comprehense.Memory.Int.{pos}
use reading_and_comprehense.Binary.Header.{BinHeader, print_header, read_header}
use reading_and_comprehense.Binary.{BinSubstate, BinServer, on_bin, on_bin_conn, binary_get_key}
use reading_and_comprehense.Binary.Dispatch.{
  BinConfig, bin_action, loud, begin_command, dispatch_bin_command, set_noreply, authenticated,
  run_action, bin_read_key,
}
use reading_and_comprehense.Binary.Process.{process_bin_delete}
use reading_and_comprehense.Binary.Update.{value_length}
use reading_and_comprehense.Binary.Packet.{read_header-print_header}
use reading_and_comprehense.Binary.Hit.{IsWhole}
use reading_and_comprehense.Binary.Bounds.{Dispatched}
use reading_and_comprehense.Binary.Begin.{begin_command-Dispatched}
use reading_and_comprehense.Binary.Quiet.{QuietOf, dispatch_quiet}
use reading_and_comprehense.Binary.Value.{begin_command-value_length}
use reading_and_comprehense.Binary.Told.{Told}
use reading_and_comprehense.Binary.Delete.{BinDeleted, delete_status, process_bin_delete-BinDeleted}
use reading_and_comprehense.Conn.{Nread, conn_nread}
use reading_and_comprehense.Storage.Cases.{alone}
use reading_and_comprehense.Binary.Stored.{UpdateDone, complete_update_bin-UpdateDone}
use reading_and_comprehense.Base.{◌∙◌, false, bytes_eq_refl}
use reading_and_comprehense.Items.{
  do_item_link, item_at, refcount_incr, item_link_q, hash_insert, stamp_cas, mark_linked,
  get_cas_id,
}
use reading_and_comprehense.Memory.{item_set_cas}
use reading_and_comprehense.Items.Consistent.{stored}
use reading_and_comprehense.Items.Get.{dead}
use reading_and_comprehense.Binary.Process.{should_touch, process_bin_get_or_touch}
use reading_and_comprehense.Binary.Found.{Served, process_bin_get_or_touch-Served}
use reading_and_comprehense.Tests.{linked_a}
use reading_and_comprehense.Tests.{
  hash, key_a, store, store-Consistent, store-Room, new_unlinked, server, env,
}

abbrev request : ℕ → ℕ → ℕ → BinHeader
request opcode extlen bodylen = record {
  magic = 0x80;
  opcode = opcode;
  keylen = 1;
  extlen = extlen;
  datatype = 0;
  reserved = 0;
  bodylen = bodylen;
  opaque = 77;
  cas = 9;
}

abbrev packet_server : ℕ → BinServer
packet_server opcode = record {
  server = server;
  bin = record {
    header = request opcode 0 1;
    cmd = opcode;
    substate = BinSubstate.no_state;
    keylen = 1;
    opaque = 77;
    authenticated = true;
    body = key_a;
  };
}

abbrev config : BinConfig
config = record { sasl = true; version = b'1' ∷ []; mechanisms = none }

no_mechanisms : (d : List ℕ) → config.mechanisms ≡ some d → length d < 2 ^ 32
no_mechanisms d h = ground (arith, h)

read_header-print_header_example :
    read_header (print_header (request 4 0 1) key_a) ≡ some (request 4 0 1, key_a)
read_header-print_header_example =
    read_header-print_header (request 4 0 1) key_a (omega arith) (omega arith) (omega arith)
      (omega arith) (omega arith)

begin_command-Dispatched_example :
    Dispatched (request 4 0 1) 4 0 (begin_command config (request 4 0 1) (packet_server 4))
begin_command-Dispatched_example =
    begin_command-Dispatched config (omega arith) no_mechanisms (request 4 0 1) (packet_server 4)

process_bin_delete-BinDeleted_example :
    BinDeleted hash store
      (binary_get_key (packet_server 4))
      9
      (process_bin_delete env (packet_server 4)).server.store
    × Told
        (packet_server 4).bin
        server.conn
        (delete_status hash store (binary_get_key (packet_server 4)) 9)
        (process_bin_delete env (packet_server 4))
process_bin_delete-BinDeleted_example =
    process_bin_delete-BinDeleted env (packet_server 4) store-Consistent store-Room

deleteq_of : QuietOf 0x14 4
unfolding QuietOf
deleteq_of = inl (omega arith, omega arith, refl)

dispatch_quiet_example :
    dispatch_bin_command config (on_bin (λ s. record s { cmd = 0x14 }) (packet_server 0x14))
    ≡ on_bin_conn
        (λ c. record c { noreply = true })
        (dispatch_bin_command config (on_bin (λ s. record s { cmd = 4 }) (packet_server 0x14)))
dispatch_quiet_example =
    dispatch_quiet config (packet_server 0x14) 0x14 4 deleteq_of (omega arith) refl (omega arith)

setq_reads :
    (begin_command config (request 0x11 8 14) (packet_server 0x11)).server.conn.state ≡ conn_nread
unfolding begin_command dispatch_bin_command set_noreply loud bin_action authenticated run_action
    bin_read_key
setq_reads = refl

begin_command-value_length_example :
    (v : ℕ) × (value_length (request 0x11 8 14) ≡ pos v)
    × ((begin_command config (request 0x11 8 14) (packet_server 0x11)).server.conn.rlbytes + v ≡ 14)
begin_command-value_length_example =
    begin_command-value_length config (request 0x11 8 14) (packet_server 0x11)
      (inr (omega arith, omega arith)) (omega arith) setq_reads

abbrev stored_server : BinServer
stored_server = on_bin_conn (λ c. record c { cmd = Nread.replace }) (packet_server 3)

complete_update_bin-UpdateDone_example : UpdateDone env stored_server 100 Nread.replace
unfolding alone
complete_update_bin-UpdateDone_example =
    complete_update_bin-UpdateDone env stored_server 100 new_unlinked store-Consistent store-Room
      refl

stored_200 : stored hash store (binary_get_key (packet_server 12)) ≡ some 200
unfolding binary_get_key
stored_200 = linked_a.table key_a ∙ rw (bytes_eq_refl key_a) refl

get_only : should_touch 12 ≡ false
unfolding should_touch
get_only = refl

live_200 : dead store 200 ≡ false
unfolding do_item_link refcount_incr item_link_q hash_insert stamp_cas mark_linked item_set_cas
    get_cas_id
live_200 = refl

item_200-IsWhole : IsWhole (item_at store 200) 1
unfolding do_item_link refcount_incr item_link_q hash_insert stamp_cas mark_linked item_set_cas
    get_cas_id
item_200-IsWhole = record {
  crlf = omega arith;
  block = omega arith;
  int = omega arith;
  key = omega arith;
  short = omega arith;
}

process_bin_get_or_touch-Served_example :
    Served
      (packet_server 12)
      200
      (item_at store 200)
      (process_bin_get_or_touch env (packet_server 12))
process_bin_get_or_touch-Served_example =
    process_bin_get_or_touch-Served env (packet_server 12) 200 store-Consistent store-Room get_only
      stored_200 live_200 item_200-IsWhole
