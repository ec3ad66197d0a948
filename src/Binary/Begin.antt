-- ===== src/Binary/Begin.antt =====
-- dispatch_bin_command and the binary part of try_read_command in memcached-1.4/memcached.c as a whole.
use reading_and_comprehense.Base.{
  ℕ, ◌^◌, ◌<◌, ◌≡◌, refl, not, ◌&&◌, some, List, arith, ltb, length, inl, inr, Bool-cases,
}
use reading_and_comprehense.Commands.{key_max_length}
use reading_and_comprehense.Binary.Header.{BinHeader}
use reading_and_comprehense.Binary.{BinStatus, BinServer, handle_binary_protocol_error}
use reading_and_comprehense.Binary.Dispatch.{
  BinConfig, dispatch_bin_command, begin_command, set_noreply, authenticated,
}
use reading_and_comprehense.Binary.Bounds.{Dispatched, closing-Done, action-Done, set_noreply_quiet}

module _ (config : BinConfig) (version_short : length config.version < 2 ^ 32)
    (mechanisms_short : (d : List ℕ) → config.mechanisms ≡ some d → length d < 2 ^ 32) where
  dispatch-Dispatched :
      (b : BinServer)
      → b.bin.opaque ≡ b.bin.header.opaque
      → b.bin.keylen ≡ b.bin.header.keylen
      → Dispatched b.bin.header b.bin.cmd b.server.conn.cas (dispatch_bin_command config b)
  unfolding dispatch_bin_command set_noreply handle_binary_protocol_error
  dispatch-Dispatched b o k = elim (Bool-cases (config.sasl && not (authenticated b))) [
    | inl e ↦
        rw e (closing-Done config version_short mechanisms_short b.bin.cmd b o BinStatus.auth_error)
    | inr e ↦ elim (Bool-cases (ltb key_max_length b.bin.header.keylen)) [
      | inl f ↦
          rw (e, f)
            (closing-Done config version_short mechanisms_short b.bin.cmd _ o BinStatus.einval)
      | inr f ↦
          rw (e, f)
            (action-Done config version_short mechanisms_short b.bin.cmd (set_noreply b) o
              (set_noreply_quiet b) k (ground (arith, f)) _ refl)
    ]
  ]

  -- A binary request with the header `h`, whatever its opcode and its lengths are, leaves one of three
  -- things. Its key of at most 250 bytes and its extras of at most 20 are read next, which are together
  -- no longer than the body, except for append, prepend, stat, SASL and touch; or the answer is one
  -- packet that echoes the opcode and the opaque bytes, with the status and a body of the length in its
  -- header; or the command is one of the quiet ones, and the connection goes on or closes without one.
  pub begin_command-Dispatched :
      (h : BinHeader) (b : BinServer) → Dispatched h h.opcode 0 (begin_command config h b)
  unfolding begin_command
  begin_command-Dispatched h b = dispatch-Dispatched _ refl refl
