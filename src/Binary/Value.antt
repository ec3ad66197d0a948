-- ===== src/Binary/Value.antt =====
-- The length of the value that process_bin_update and process_bin_append_prepend of
-- memcached-1.4/memcached.c expect behind the key and the extras.
use reading_and_comprehense.Base.{
  ℕ, ◌+◌, ◌-◌, ◌^◌, ◌<◌, ◌≤◌, ◌≡◌, refl, Bool, true, false, not, ◌&&◌, [], arith, leb, ◌==◌, ◌⊎◌,
}
use reading_and_comprehense.Memory.Int.{pos}
use reading_and_comprehense.Conn.{conn_nread}
use reading_and_comprehense.Binary.Opcode
use reading_and_comprehense.Binary.Header.{BinHeader}
use reading_and_comprehense.Binary.{
  BinSubstate, BinStatus, BinServer, on_bin, on_bin_conn, handle_binary_protocol_error,
}
use reading_and_comprehense.Binary.Dispatch.{
  BinConfig, BinAction, loud, bin_action, dispatch_bin_command, begin_command, run_action,
  bin_read_key, set_noreply, expect,
}
use reading_and_comprehense.Binary.Quiet.{dispatch_runs, dispatch_reads}
use reading_and_comprehense.Binary.Update.{value_length}
use reading_and_comprehense.Binary.Bounds.{error_state}

set_action :
    (l e k n : ℕ)
    → 1 ≤ l
    → l ≤ 3
    → bin_action l e k n
      ≡ expect
          (e == 8 && not (k == 0) && leb (k + 8) n)
          (BinAction.read_key BinSubstate.reading_set_header 8)
unfolding bin_action
set_action l e k n p q = ground arith

-- The command of an add, set or replace once the first switch is done.
set_cmd :
    (b : BinServer)
    → ((1 ≤ b.bin.cmd) × (b.bin.cmd ≤ 3)) ⊎ ((17 ≤ b.bin.cmd) × (b.bin.cmd ≤ 19))
    → (1 ≤ (set_noreply b).bin.cmd) × ((set_noreply b).bin.cmd ≤ 3)
unfolding set_noreply loud
set_cmd b op = (ground (arith, op), ground (arith, op))

-- Where the connection is left by the second switch for an add, set or replace.
set_state :
    (config : BinConfig) (test : Bool) (b : BinServer)
    → (run_action config
        (expect test (BinAction.read_key BinSubstate.reading_set_header 8))
        b).server.conn.state
      ≡ conn_nread
    → (test ≡ true)
      × ((run_action config
            (expect test (BinAction.read_key BinSubstate.reading_set_header 8))
            b).server.conn.rlbytes
          ≡ b.bin.keylen + 8)
unfolding run_action bin_read_key
set_state config true b h = (refl, refl)
set_state config false b h =
    unfold handle_binary_protocol_error in ground (arith, h, error_state BinStatus.einval 0 b)

module _ (config : BinConfig) (h : BinHeader) (b : BinServer) where
  -- The connection that begin_command hands to dispatch_bin_command.
  abbrev begun : BinServer
  begun =
      on_bin (λ s. record s { header = h; cmd = h.opcode; keylen = h.keylen; opaque = h.opaque })
        (on_bin_conn (λ c. record c { iov = []; cas = 0 }) b)

  begun_keylen : (set_noreply begun).bin.keylen ≡ h.keylen
  unfolding set_noreply
  begun_keylen = refl

  -- A set, add or replace, quiet or not, with a body below 2 GB: where the connection goes on to read,
  -- the bytes that are read next and the value that process_bin_update then expects make up exactly the
  -- body, and the value is not of a negative length.
  pub begin_command-value_length :
      ((1 ≤ h.opcode) × (h.opcode ≤ 3)) ⊎ ((17 ≤ h.opcode) × (h.opcode ≤ 19))
      → h.bodylen < 2 ^ 31
      → (begin_command config h b).server.conn.state ≡ conn_nread
      → (v : ℕ) × (value_length h ≡ pos v)
        × ((begin_command config h b).server.conn.rlbytes + v ≡ h.bodylen)
  unfolding begin_command value_length
  begin_command-value_length op small reads =
      let s = set_cmd begun op in
      let act = set_action (set_noreply begun).bin.cmd h.extlen h.keylen h.bodylen s.0 s.1 in
      let d = dispatch_reads config begun reads in
      let test = h.extlen == 8 && not (h.keylen == 0) && leb (h.keylen + 8) h.bodylen in
      let to : dispatch_bin_command config begun
          ≡ run_action config (expect test (BinAction.read_key BinSubstate.reading_set_header 8))
              (set_noreply begun) =
        rw⁻¹ act (dispatch_runs config begun d.0 d.1) in
      let r = set_state config test (set_noreply begun) (rw⁻¹ to reads) in
      let fits : (h.extlen ≡ 8) × (h.keylen + 8 ≤ h.bodylen) =
        (ground (arith, r.0), ground (arith, r.0)) in
      (
        h.bodylen - (h.keylen + h.extlen),
        ground (arith, fits, small),
        rw to (omega (arith, r.1, begun_keylen, fits)),
      )
