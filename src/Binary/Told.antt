-- ===== src/Binary/Told.antt =====
-- What a client of the binary protocol of memcached-1.4/memcached.c is told: one packet, or nothing for
-- the success of a quiet command.
use reading_and_comprehense.Base.{
  ℕ, ◌≡◌, Bool, true, false, not, ◌&&◌, ◌||◌, List, [], arith, ◌==◌, ◌⊎◌, inl, inr, Bool-cases,
}
use reading_and_comprehense.Conn.{Conn, conn_mwrite, conn_new_cmd}
use reading_and_comprehense.Binary.Opcode
use reading_and_comprehense.Binary.{
  Bin, BinStatus, BinServer, error_text, add_bin_header, add_iov, add_body, write_bin_text,
  write_bin_error, write_bin_response,
}
use reading_and_comprehense.Binary.Packet.{
  IsPacket, write_bin_error-IsPacket, write_bin_response-IsPacket,
}
use reading_and_comprehense.Binary.Bounds.{error_state}

abbrev pub status_body : BinStatus → List ℕ
status_body BinStatus.success = []
status_body err = error_text err

abbrev pub is_success : BinStatus → Bool
is_success BinStatus.success = true
is_success _ = false

-- What a quiet command is not told of: a success, unless it is a get.
abbrev pub silent : Bin → Conn → BinStatus → Bool
silent bin conn err =
    conn.noreply && is_success err && not (bin.cmd == Opcode.get || bin.cmd == Opcode.getk)

-- The answer with the status `err` on a connection that was in the state `bin` and `conn`: nothing where
-- it is silent, and one packet anywhere else.
abbrev pub Told : Bin → Conn → BinStatus → BinServer → Type 0
Told bin conn err b' =
    ((silent bin conn err ≡ true)
      × (b'.server.conn.state ≡ conn_new_cmd)
      × (b'.server.conn.iov ≡ conn.iov))
    ⊎ ((silent bin conn err ≡ false)
        × (b'.server.conn.state ≡ conn_mwrite)
        × IsPacket bin.header.opcode bin.opaque b'.server.conn.iov err 0 0 conn.cas
            (status_body err))

pub error_store :
    (err : BinStatus) (b : BinServer) → (write_bin_error err 0 b).server.store ≡ b.server.store
unfolding write_bin_error write_bin_text add_body add_iov add_bin_header
error_store err b = ground arith

pub response_store : (b : BinServer) → (write_bin_response [] 0 0 b).server.store ≡ b.server.store
unfolding write_bin_response add_body add_bin_header
response_store b = ground arith

response_quiet :
    (b : BinServer)
    → silent b.bin b.server.conn BinStatus.success ≡ true
    → ((write_bin_response [] 0 0 b).server.conn.state ≡ conn_new_cmd)
      × ((write_bin_response [] 0 0 b).server.conn.iov ≡ b.server.conn.iov)
unfolding write_bin_response
response_quiet b h = (ground (arith, h), ground (arith, h))

response_loud :
    (b : BinServer)
    → silent b.bin b.server.conn BinStatus.success ≡ false
    → (write_bin_response [] 0 0 b).server.conn.state ≡ conn_mwrite
unfolding write_bin_response
response_loud b h = ground (arith, h)

pub response-Told :
    (b : BinServer) → Told b.bin b.server.conn BinStatus.success (write_bin_response [] 0 0 b)
response-Told b = elim (Bool-cases (silent b.bin b.server.conn BinStatus.success)) [
  | inl e ↦ let s = response_quiet b e in inl (e, s.0, s.1)
  | inr e ↦
      let s = response_loud b e in inr (e, s, write_bin_response-IsPacket [] b (omega arith) s)
]

-- An error is always told.
pub error-Told :
    (err : BinStatus) (b : BinServer)
    → is_success err ≡ false
    → status_body err ≡ error_text err
    → Told b.bin b.server.conn err (write_bin_error err 0 b)
error-Told err b e text =
    inr (ground (arith, e), error_state err 0 b, rw text (write_bin_error-IsPacket err 0 b))
