-- ===== src/Binary.antt =====
-- The binary protocol of memcached-1.4/memcached.c: the state of a connection that speaks it, and the
-- answers that it writes. The text of a piece of the answer is copied when it is added, so that what
-- is written over the write buffer later is in the piece already.
pub mod Opcode
pub mod Header
pub mod Dispatch
pub mod Process
pub mod Update
pub mod Complete
pub mod Packet
pub mod Hit
pub mod Found
pub mod Bounds
pub mod Begin
pub mod Quiet
pub mod Value
pub mod Told
pub mod Stored
pub mod Delete
use Prim.Native.Char.{code}
use Prim.Native.String.{String}
use reading_and_comprehense.Base.{
  ℕ, ◌%◌, ◌^◌, Bool, true, false, not, ◌||◌, Option, none, some, List, [], ◌∷◌, ◌++◌, ltb, ◌==◌,
  if◌then◌else◌, length, drop, take,
}
use reading_and_comprehense.Conn.{
  Server, Conn, on_conn, conn_mwrite, conn_new_cmd, conn_swallow, conn_closing,
}
use reading_and_comprehense.Binary.Opcode
use reading_and_comprehense.Binary.Header.{BinHeader, print_header, header_size}

-- enum bin_substates.
pub data BinSubstate : Type 0 where
  no_state reading_set_header reading_cas_header read_set_value reading_get_key : BinSubstate
  reading_stat reading_del_header reading_incr_header read_flush_exptime : BinSubstate
  reading_sasl_auth reading_sasl_auth_data reading_touch_key : BinSubstate

-- protocol_binary_response_status.
pub data BinStatus : Type 0 where
  success key_enoent key_eexists e2big einval not_stored delta_badval auth_error : BinStatus
  unknown_command enomem : BinStatus

-- The part of `conn` that only the binary protocol uses. `cmd` is c->cmd as long as it holds an opcode;
-- the NREAD_* that follows is in Conn. `body` holds the extras and the key, which the read buffer keeps
-- behind the header.
pub record Bin : Type 0 where
  pub header : BinHeader
  pub cmd : ℕ
  pub substate : BinSubstate
  pub keylen : ℕ
  pub opaque : ℕ
  pub authenticated : Bool
  pub body : List ℕ

pub record BinServer : Type 0 where
  pub server : Server
  pub bin : Bin

abbrev pub on_server : (Server → Server) → BinServer → BinServer
on_server f b = record b { server = f b.server }

abbrev pub on_bin : (Bin → Bin) → BinServer → BinServer
on_bin f b = record b { bin = f b.bin }

abbrev pub on_bin_conn : (Conn → Conn) → BinServer → BinServer
on_bin_conn f b = on_server (on_conn f) b

-- The code points of a text, which is ASCII.
abbrev pub codes : String → List ℕ
codes String.[] = []
codes (String.◌∷◌ c s) = code c ∷ codes s

abbrev pub status_code : BinStatus → ℕ
status_code BinStatus.success = 0x00
status_code BinStatus.key_enoent = 0x01
status_code BinStatus.key_eexists = 0x02
status_code BinStatus.e2big = 0x03
status_code BinStatus.einval = 0x04
status_code BinStatus.not_stored = 0x05
status_code BinStatus.delta_badval = 0x06
status_code BinStatus.auth_error = 0x20
status_code BinStatus.unknown_command = 0x81
status_code BinStatus.enomem = 0x82

-- The text for a status with no text of its own.
unfoldable pub error_text : BinStatus → List ℕ
error_text BinStatus.enomem = codes "Out of memory"
error_text BinStatus.unknown_command = codes "Unknown command"
error_text BinStatus.key_enoent = codes "Not found"
error_text BinStatus.einval = codes "Invalid arguments"
error_text BinStatus.key_eexists = codes "Data exists for key."
error_text BinStatus.e2big = codes "Too large."
error_text BinStatus.delta_badval = codes "Non-numeric server-side value for incr or decr"
error_text BinStatus.not_stored = codes "Not stored."
error_text BinStatus.auth_error = codes "Auth failure."
error_text BinStatus.success = codes "UNHANDLED ERROR"

-- The header of an answer. The lengths are cut to the widths of their fields.
unfoldable pub response_header : BinServer → ℕ → ℕ → ℕ → ℕ → ℕ → BinHeader
response_header b err hdr_len key_len body_len cas = record {
  magic = 0x81;
  opcode = b.bin.header.opcode;
  keylen = key_len % 2 ^ 16;
  extlen = hdr_len % 2 ^ 8;
  datatype = 0;
  reserved = err % 2 ^ 16;
  bodylen = body_len % 2 ^ 32;
  opaque = b.bin.opaque;
  cas = cas;
}

-- add_bin_header with the CAS that the header is sent with.
unfoldable pub add_bin_header : BinStatus → ℕ → ℕ → ℕ → ℕ → BinServer → BinServer
add_bin_header err hdr_len key_len body_len cas b =
    on_bin_conn
      (λ c. record c {
        iov =
            print_header (response_header b (status_code err) hdr_len key_len body_len cas) [] ∷ [];
      })
      b

unfoldable pub add_iov : List ℕ → BinServer → BinServer
add_iov bytes b = on_bin_conn (λ c. record c { iov = c.iov ++ bytes ∷ [] }) b

-- An empty body is no piece of the answer.
unfoldable pub add_body : List ℕ → BinServer → BinServer
add_body d b = if ltb 0 (length d) then add_iov d b else b

unfoldable pub write_bin_text : BinStatus → List ℕ → ℕ → BinServer → BinServer
write_bin_text err errstr swallow b =
    let b1 = add_bin_header err 0 0 (length errstr) b.server.conn.cas b in
    let b2 = add_body errstr b1 in
    on_bin_conn
      (λ c. record c {
        state = conn_mwrite;
        sbytes = if ltb 0 swallow then swallow else c.sbytes;
        write_and_go = if ltb 0 swallow then conn_swallow else conn_new_cmd;
      })
      b2

-- write_bin_error with no text. `swallow` is an int: with the top bit set it is negative.
unfoldable pub write_bin_error : BinStatus → ℕ → BinServer → BinServer
write_bin_error err swallow b =
    write_bin_text err (error_text err) (if ltb swallow (2 ^ 31) then swallow else 0) b

-- out_of_memory for the binary protocol: the text is the one without "SERVER_ERROR ".
unfoldable pub out_of_memory : List ℕ → BinServer → BinServer
out_of_memory text b = write_bin_text BinStatus.enomem text 0 b

-- A quiet command answers only where it is a get.
unfoldable pub write_bin_response : List ℕ → ℕ → ℕ → BinServer → BinServer
write_bin_response d hlen keylen b =
    let b1 = add_bin_header BinStatus.success hlen keylen (length d) b.server.conn.cas b in
    let b2 = add_body d b1 in
    if not b.server.conn.noreply || b.bin.cmd == Opcode.get || b.bin.cmd == Opcode.getk
    then on_bin_conn (λ c. record c { state = conn_mwrite; write_and_go = conn_new_cmd }) b2
    else on_bin_conn (λ c. record c { state = conn_new_cmd }) b

unfoldable pub handle_binary_protocol_error : BinServer → BinServer
handle_binary_protocol_error b =
    on_bin_conn (λ c. record c { write_and_go = conn_closing })
      (write_bin_error BinStatus.einval 0 b)

unfoldable pub binary_get_key : BinServer → List ℕ
binary_get_key b = take b.bin.header.keylen (drop b.bin.header.extlen b.bin.body)
