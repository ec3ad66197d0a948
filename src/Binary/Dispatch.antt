-- ===== src/Binary/Dispatch.antt =====
-- dispatch_bin_command and the binary part of try_read_command in memcached-1.4/memcached.c. The text of
-- the version, which the build generates, and the list of SASL mechanisms are parameters.
use reading_and_comprehense.Base.{
  ℕ, ◌+◌, Bool, true, false, not, ◌&&◌, ◌||◌, Option, none, some, List, [], ltb, leb, ◌==◌,
  if◌then◌else◌,
}
use reading_and_comprehense.Memory.{sub32}
use reading_and_comprehense.Conn.{conn_nread, conn_closing}
use reading_and_comprehense.Commands.{key_max_length}
use reading_and_comprehense.Binary.Opcode
use reading_and_comprehense.Binary.Header.{BinHeader, read_header}
use reading_and_comprehense.Binary.{
  BinSubstate, BinStatus, BinServer, on_bin, on_bin_conn, write_bin_error, write_bin_response,
  handle_binary_protocol_error,
}

-- What the server is built and started with: settings.sasl, VERSION, and what sasl_listmech returns.
pub record BinConfig : Type 0 where
  pub sasl : Bool
  pub version : List ℕ
  pub mechanisms : Option (List ℕ)

-- The read buffer grows as needed: its allocation does not fail.
unfoldable pub bin_read_key : BinSubstate → ℕ → BinServer → BinServer
bin_read_key next_substate extra b =
    on_bin_conn (λ c. record c { rlbytes = b.bin.keylen + extra; state = conn_nread })
      (on_bin (λ s. record s { substate = next_substate; body = [] }) b)

unfoldable pub authenticated : BinServer → Bool
authenticated b =
    b.bin.cmd == Opcode.sasl_list_mechs
    || b.bin.cmd == Opcode.sasl_auth
    || b.bin.cmd == Opcode.sasl_step
    || b.bin.cmd == Opcode.version
    || b.bin.authenticated

-- The first switch: the command that a quiet one stands for.
unfoldable pub loud : ℕ → Option ℕ
loud cmd =
    if cmd == Opcode.setq
    then some Opcode.set
    else if cmd == Opcode.addq
    then some Opcode.add
    else if cmd == Opcode.replaceq
    then some Opcode.replace
    else if cmd == Opcode.deleteq
    then some Opcode.delete
    else if cmd == Opcode.incrementq
    then some Opcode.increment
    else if cmd == Opcode.decrementq
    then some Opcode.decrement
    else if cmd == Opcode.quitq
    then some Opcode.quit
    else if cmd == Opcode.flushq
    then some Opcode.flush
    else if cmd == Opcode.appendq
    then some Opcode.append
    else if cmd == Opcode.prependq
    then some Opcode.prepend
    else if cmd == Opcode.getq
    then some Opcode.get
    else if cmd == Opcode.getkq
    then some Opcode.getk
    else if cmd == Opcode.gatq
    then some Opcode.gat
    else if cmd == Opcode.gatkq
    then some Opcode.gat
    else none

-- What the second switch decides on.
pub data BinAction : Type 0 where
  send_version send_noop send_quit list_mechs unknown protocol_error : BinAction
  read_key : BinSubstate → ℕ → BinAction

abbrev pub expect : Bool → BinAction → BinAction
expect test action = if test then action else BinAction.protocol_error

unfoldable pub bin_action : ℕ → ℕ → ℕ → ℕ → BinAction
bin_action cmd extlen keylen bodylen =
    let empty = extlen == 0 && keylen == 0 && bodylen == 0 in
    if cmd == Opcode.version
    then expect empty BinAction.send_version
    else if cmd == Opcode.flush
    then expect (keylen == 0 && bodylen == extlen && (extlen == 0 || extlen == 4))
        (BinAction.read_key BinSubstate.read_flush_exptime extlen)
    else if cmd == Opcode.noop
    then expect empty BinAction.send_noop
    else if cmd == Opcode.set || cmd == Opcode.add || cmd == Opcode.replace
    then expect (extlen == 8 && not (keylen == 0) && leb (keylen + 8) bodylen)
        (BinAction.read_key BinSubstate.reading_set_header 8)
    else if cmd == Opcode.getq || cmd == Opcode.get || cmd == Opcode.getkq || cmd == Opcode.getk
    then expect (extlen == 0 && bodylen == keylen && ltb 0 keylen)
        (BinAction.read_key BinSubstate.reading_get_key 0)
    else if cmd == Opcode.delete
    then expect (ltb 0 keylen && extlen == 0 && bodylen == keylen)
        (BinAction.read_key BinSubstate.reading_del_header extlen)
    else if cmd == Opcode.increment || cmd == Opcode.decrement
    then expect (ltb 0 keylen && extlen == 20 && bodylen == keylen + extlen)
        (BinAction.read_key BinSubstate.reading_incr_header 20)
    else if cmd == Opcode.append || cmd == Opcode.prepend
    then expect (ltb 0 keylen && extlen == 0) (BinAction.read_key BinSubstate.reading_set_header 0)
    else if cmd == Opcode.stat
    then expect (extlen == 0) (BinAction.read_key BinSubstate.reading_stat 0)
    else if cmd == Opcode.quit
    then expect empty BinAction.send_quit
    else if cmd == Opcode.sasl_list_mechs
    then expect empty BinAction.list_mechs
    else if cmd == Opcode.sasl_auth || cmd == Opcode.sasl_step
    then expect (extlen == 0 && not (keylen == 0))
        (BinAction.read_key BinSubstate.reading_sasl_auth 0)
    else if cmd == Opcode.touch
        || cmd == Opcode.gat
        || cmd == Opcode.gatq
        || cmd == Opcode.gatk
        || cmd == Opcode.gatkq
    then expect (extlen == 4 && not (keylen == 0))
        (BinAction.read_key BinSubstate.reading_touch_key 4)
    else BinAction.unknown

unfoldable pub set_noreply : BinServer → BinServer
set_noreply b =
    let noreply : Bool = elim (loud b.bin.cmd) [ none ↦ false | some cmd ↦ true ] in
    let cmd : ℕ = elim (loud b.bin.cmd) [ none ↦ b.bin.cmd | some cmd ↦ cmd ] in
    on_bin (λ s. record s { cmd = cmd }) (on_bin_conn (λ c. record c { noreply = noreply }) b)

unfoldable pub send_quit_answer : BinServer → BinServer
send_quit_answer b =
    let b1 = write_bin_response [] 0 0 b in
    on_bin_conn
      (λ c. record c {
        write_and_go = conn_closing;
        state = if c.noreply then conn_closing else c.state;
      })
      b1

module _ (config : BinConfig) where
  unfoldable pub bin_list_sasl_mechs : BinServer → BinServer
  bin_list_sasl_mechs b =
      if config.sasl
      then (let b1 = on_bin (λ s. record s { authenticated = false }) b in
          elim config.mechanisms [
            | none ↦ write_bin_error BinStatus.auth_error 0 b1
            | some result_string ↦ write_bin_response result_string 0 0 b1
          ])
      else write_bin_error BinStatus.unknown_command
          (sub32 b.bin.header.bodylen b.bin.header.keylen) b

  unfoldable pub run_action : BinAction → BinServer → BinServer
  run_action BinAction.send_version b = write_bin_response config.version 0 0 b
  run_action BinAction.send_noop b = write_bin_response [] 0 0 b
  run_action BinAction.send_quit b = send_quit_answer b
  run_action BinAction.list_mechs b = bin_list_sasl_mechs b
  run_action BinAction.unknown b = write_bin_error BinStatus.unknown_command b.bin.header.bodylen b
  run_action BinAction.protocol_error b = handle_binary_protocol_error b
  run_action (BinAction.read_key next_substate extra) b = bin_read_key next_substate extra b

  unfoldable pub dispatch_bin_command : BinServer → BinServer
  dispatch_bin_command b =
      let h = b.bin.header in
      let loud_noreply = on_bin_conn (λ c. record c { noreply = true }) b in
      let b1 = set_noreply b in
      if config.sasl && not (authenticated b)
      then on_bin_conn (λ c. record c { write_and_go = conn_closing })
          (write_bin_error BinStatus.auth_error 0 b)
      else if ltb key_max_length h.keylen
      then handle_binary_protocol_error loud_noreply
      else run_action (bin_action b1.bin.cmd h.extlen h.keylen h.bodylen) b1

  -- The header is taken in, and the command dispatched before the buffer moves on.
  unfoldable pub begin_command : BinHeader → BinServer → BinServer
  begin_command h b = dispatch_bin_command (
      on_bin (λ s. record s { header = h; cmd = h.opcode; keylen = h.keylen; opaque = h.opaque })
        (on_bin_conn (λ c. record c { iov = []; cas = 0 }) b))

  -- try_read_command for the binary protocol; `none` says that more input is needed.
  unfoldable pub try_read_binary : BinServer → Option BinServer
  try_read_binary b = elim (read_header b.server.conn.rcurr) [
    | none ↦ none
    | some (h, rest) ↦ some (
        if h.magic == 0x80
        then on_bin_conn (λ c. record c { rcurr = rest }) (begin_command h b)
        else on_bin (λ s. record s { header = h })
            (on_bin_conn (λ c. record c { state = conn_closing }) b))
  ]
