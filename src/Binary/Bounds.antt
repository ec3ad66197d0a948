-- ===== src/Binary/Bounds.antt =====
-- What dispatch_bin_command of memcached-1.4/memcached.c leaves: a request whose key and extras are read
-- next, or an answer.
use mathlib.Core.Path.{subst}
use reading_and_comprehense.Base.{
  ℕ, ◌+◌, ◌^◌, ◌<◌, ◌≤◌, ◌≡◌, refl, Bool, true, false, not, ◌||◌, some, List, [], arith, ◌==◌,
  if◌then◌else◌, length, ◌⊎◌, inl, inr, Bool-cases, Option-cases,
}
use reading_and_comprehense.Conn.{conn_nread, conn_mwrite, conn_new_cmd, conn_closing}
use reading_and_comprehense.Binary.Opcode
use reading_and_comprehense.Binary.Header.{BinHeader}
use reading_and_comprehense.Binary.{
  BinSubstate, BinStatus, BinServer, on_bin, on_bin_conn, error_text, write_bin_error,
  write_bin_text, add_bin_header, add_body, write_bin_response, handle_binary_protocol_error,
}
use reading_and_comprehense.Binary.Dispatch.{
  BinConfig, BinAction, bin_action, loud, run_action, set_noreply, bin_read_key, send_quit_answer,
  bin_list_sasl_mechs,
}
use reading_and_comprehense.Binary.Packet.{
  IsPacket, write_bin_error-IsPacket, write_bin_response-IsPacket,
}

-- The commands that are read without a look at the length of the body.
abbrev pub unchecked : ℕ → Bool
unchecked cmd =
    cmd == Opcode.append
    || cmd == Opcode.prepend
    || cmd == Opcode.stat
    || cmd == Opcode.sasl_auth
    || cmd == Opcode.sasl_step
    || cmd == Opcode.touch
    || cmd == Opcode.gat
    || cmd == Opcode.gatq
    || cmd == Opcode.gatk
    || cmd == Opcode.gatkq

pub bin_action-read :
    (cmd extlen keylen bodylen : ℕ) (s : BinSubstate) (extra : ℕ)
    → bin_action cmd extlen keylen bodylen ≡ BinAction.read_key s extra
    → (extra ≡ extlen) × (extra ≤ 20) × ((unchecked cmd ≡ true) ⊎ (keylen + extlen ≤ bodylen))
unfolding bin_action
bin_action-read cmd extlen keylen bodylen s extra h = (
  ground (arith, h),
  ground (arith, h),
  elim (Bool-cases (unchecked cmd)) [ inl e ↦ inl e | inr e ↦ inr (ground (arith, h, e)) ],
)

-- Where a command with the header `h` leaves the connection: the key and the extras are read next, at
-- most 270 bytes; or the answer is a packet; or the command is a quiet one.
pub data Dispatched (h : BinHeader) (cmd : ℕ) (cas : ℕ) (b' : BinServer) : Type 0 where
  reads :
      b'.server.conn.state ≡ conn_nread
      → b'.server.conn.rlbytes ≡ h.keylen + h.extlen
      → h.keylen ≤ 250
      → h.extlen ≤ 20
      → (unchecked b'.bin.cmd ≡ true) ⊎ (h.keylen + h.extlen ≤ h.bodylen)
      → Dispatched h cmd cas b'
  answers :
      (err : BinStatus) (body : List ℕ)
      → b'.server.conn.state ≡ conn_mwrite
      → IsPacket h.opcode h.opaque b'.server.conn.iov err 0 0 cas body
      → Dispatched h cmd cas b'
  quiet :
      (loud_cmd : ℕ)
      → loud cmd ≡ some loud_cmd
      → (b'.server.conn.state ≡ conn_new_cmd) ⊎ (b'.server.conn.state ≡ conn_closing)
      → Dispatched h cmd cas b'

pub error_state :
    (err : BinStatus) (swallow : ℕ) (b : BinServer)
    → (write_bin_error err swallow b).server.conn.state ≡ conn_mwrite
unfolding write_bin_error write_bin_text
error_state err swallow b = refl

pub response_ends :
    (d : List ℕ) (b : BinServer)
    → ((write_bin_response d 0 0 b).server.conn.state ≡ conn_mwrite)
      ⊎ (((write_bin_response d 0 0 b).server.conn.state ≡ conn_new_cmd)
          × (b.server.conn.noreply ≡ true))
unfolding write_bin_response
response_ends d b =
    elim (Bool-cases
      (not b.server.conn.noreply || b.bin.cmd == Opcode.get || b.bin.cmd == Opcode.getk)) [
        | inl e ↦ inl (rw e refl)
        | inr e ↦ inr (rw e refl, ground (arith, e))
      ]

pub set_noreply_quiet :
    (b : BinServer)
    → (set_noreply b).server.conn.noreply ≡ true
    → (cmd : ℕ) × (loud b.bin.cmd ≡ some cmd)
unfolding set_noreply
set_noreply_quiet b h = elim (Option-cases (loud b.bin.cmd)) [
  | inl e ↦ let no_reply : ◌≡◌ {A = Bool} false true = rw e at h in cc
  | inr (cmd, e) ↦ (cmd, e)
]

quit_iov :
    (b : BinServer)
    → (send_quit_answer b).server.conn.iov ≡ (write_bin_response [] 0 0 b).server.conn.iov
unfolding send_quit_answer
quit_iov b = refl

quit_state :
    (b : BinServer)
    → (send_quit_answer b).server.conn.state ≡ (
        if b.server.conn.noreply
        then conn_closing
        else (write_bin_response [] 0 0 b).server.conn.state)
unfolding send_quit_answer write_bin_response add_bin_header add_body
quit_state b = ground arith

loud_state :
    (b : BinServer)
    → b.server.conn.noreply ≡ false
    → (write_bin_response [] 0 0 b).server.conn.state ≡ conn_mwrite
unfolding write_bin_response
loud_state b h = ground (arith, h)

-- The connection after the first switch, for the opcode `cmd`.
module _ (config : BinConfig) (version_short : length config.version < 2 ^ 32)
    (mechanisms_short : (d : List ℕ) → config.mechanisms ≡ some d → length d < 2 ^ 32)
    (cmd : ℕ) where
  module _ (b : BinServer) (o : b.bin.opaque ≡ b.bin.header.opaque) where
    abbrev Done : BinServer → Type 0
    Done b' = Dispatched b.bin.header cmd b.server.conn.cas b'

    pub error-Done : (err : BinStatus) (swallow : ℕ) → Done (write_bin_error err swallow b)
    error-Done err swallow = answers err (error_text err) (error_state err swallow b) (
        subst
          (λ n.
            IsPacket b.bin.header.opcode n (write_bin_error err swallow b).server.conn.iov err 0 0
              b.server.conn.cas (error_text err))
          o (write_bin_error-IsPacket err swallow b))

    answered :
        (d : List ℕ)
        → length d < 2 ^ 32
        → (write_bin_response d 0 0 b).server.conn.state ≡ conn_mwrite
        → IsPacket b.bin.header.opcode b.bin.header.opaque
            (write_bin_response d 0 0 b).server.conn.iov
            BinStatus.success
            0
            0
            b.server.conn.cas
            d
    answered d h e =
        subst
          (λ n.
            IsPacket b.bin.header.opcode n (write_bin_response d 0 0 b).server.conn.iov
              BinStatus.success 0 0 b.server.conn.cas d)
          o (write_bin_response-IsPacket d b h e)

    -- An error after which the connection closes.
    pub closing-Done :
        (err : BinStatus)
        → Done
            (on_bin_conn (λ c. record c { write_and_go = conn_closing }) (write_bin_error err 0 b))
    closing-Done err = answers err (error_text err) (error_state err 0 b) (
        subst
          (λ n.
            IsPacket b.bin.header.opcode n (write_bin_error err 0 b).server.conn.iov err 0 0
              b.server.conn.cas (error_text err))
          o (write_bin_error-IsPacket err 0 b))

    read-Done :
        (s : BinSubstate) (extra : ℕ)
        → bin_action b.bin.cmd b.bin.header.extlen b.bin.header.keylen b.bin.header.bodylen
          ≡ BinAction.read_key s extra
        → b.bin.keylen ≡ b.bin.header.keylen
        → b.bin.header.keylen ≤ 250
        → Done (bin_read_key s extra b)
    unfolding bin_read_key
    read-Done s extra e k short =
        let r = bin_action-read _ _ _ _ s extra e in
        reads refl (omega (arith, k, r.0)) short (omega (arith, r.0, r.1)) r.2

    module _ (q : b.server.conn.noreply ≡ true → (loud_cmd : ℕ) × (loud cmd ≡ some loud_cmd)) where
      response-Done : (d : List ℕ) → length d < 2 ^ 32 → Done (write_bin_response d 0 0 b)
      response-Done d h = elim (response_ends d b) [
        | inl e ↦ answers BinStatus.success d e (answered d h e)
        | inr (e, no_reply) ↦ quiet (q no_reply).0 (q no_reply).1 (inl e)
      ]

      quit-Done : Done (send_quit_answer b)
      quit-Done = elim (Bool-cases b.server.conn.noreply) [
        | inl e ↦ quiet (q e).0 (q e).1 (inr (ground (arith, quit_state b, e)))
        | inr e ↦
            let state = loud_state b e in
            answers BinStatus.success [] (ground (arith, quit_state b, e, state))
              (rw (quit_iov b) (answered [] (omega arith) state))
      ]

  mechs-Done :
      (b : BinServer)
      → b.bin.opaque ≡ b.bin.header.opaque
      → (b.server.conn.noreply ≡ true → (loud_cmd : ℕ) × (loud cmd ≡ some loud_cmd))
      → Dispatched b.bin.header cmd b.server.conn.cas (bin_list_sasl_mechs config b)
  unfolding bin_list_sasl_mechs
  mechs-Done b o q =
      let b1 = on_bin (λ s. record s { authenticated = false }) b in
      elim (Bool-cases config.sasl) [
        | inl e ↦ elim (Option-cases config.mechanisms) [
          | inl f ↦ rw (e, f) (error-Done b1 o BinStatus.auth_error 0)
          | inr (d, f) ↦ rw (e, f) (response-Done b1 o q d (mechanisms_short d f))
        ]
        | inr e ↦ rw e (error-Done b o BinStatus.unknown_command _)
      ]

  pub action-Done :
      (b : BinServer)
      → b.bin.opaque ≡ b.bin.header.opaque
      → (b.server.conn.noreply ≡ true → (loud_cmd : ℕ) × (loud cmd ≡ some loud_cmd))
      → b.bin.keylen ≡ b.bin.header.keylen
      → b.bin.header.keylen ≤ 250
      → (a : BinAction)
      → bin_action b.bin.cmd b.bin.header.extlen b.bin.header.keylen b.bin.header.bodylen ≡ a
      → Dispatched b.bin.header cmd b.server.conn.cas (run_action config a b)
  unfolding run_action handle_binary_protocol_error
  action-Done b o q k short BinAction.send_version e =
      response-Done b o q config.version version_short
  action-Done b o q k short BinAction.send_noop e = response-Done b o q [] (omega arith)
  action-Done b o q k short BinAction.send_quit e = quit-Done b o q
  action-Done b o q k short BinAction.list_mechs e = mechs-Done b o q
  action-Done b o q k short BinAction.unknown e = error-Done b o BinStatus.unknown_command _
  action-Done b o q k short BinAction.protocol_error e = closing-Done b o BinStatus.einval
  action-Done b o q k short (BinAction.read_key s extra) e = read-Done b o s extra e k short
