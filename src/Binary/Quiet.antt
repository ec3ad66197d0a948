-- ===== src/Binary/Quiet.antt =====
-- The quiet commands of the binary protocol in dispatch_bin_command of memcached-1.4/memcached.c.
use reading_and_comprehense.Base.{
  ℕ, ◌+◌, ◌≤◌, ◌≡◌, ◌≢◌, refl, Bool, true, false, not, ◌&&◌, none, some, arith, ◌⊎◌, inl, inr,
}
use reading_and_comprehense.Conn.{conn_nread}
use reading_and_comprehense.Binary.Opcode
use reading_and_comprehense.Binary.{
  BinSubstate, BinServer, on_bin, on_bin_conn, write_bin_error, write_bin_text, add_bin_header,
  add_body, response_header, error_text, add_iov, handle_binary_protocol_error,
}
use reading_and_comprehense.Binary.Dispatch.{
  BinConfig, BinAction, loud, bin_action, dispatch_bin_command, run_action, bin_read_key,
  set_noreply, authenticated, expect,
}

-- The opcodes of the protocol in numbers: the command `cmd` is the quiet form of `l`. The quiet form of
-- getting and touching with the key (0x24 for 0x23) is left out.
unfoldable pub QuietOf : ℕ → ℕ → Type 0
QuietOf cmd l =
    ((1 ≤ l) × (l ≤ 8) × (cmd ≡ l + 16))
    ⊎ ((14 ≤ l) × (l ≤ 15) × (cmd ≡ l + 11))
    ⊎ ((l ≡ 0) × (cmd ≡ 9))
    ⊎ ((l ≡ 12) × (cmd ≡ 13))
    ⊎ ((l ≡ 29) × (cmd ≡ 30))

-- The commands that have a quiet form.
abbrev OneOf : ℕ → Type 0
OneOf l =
    ((l ≡ Opcode.set) ⊎ (l ≡ Opcode.add) ⊎ (l ≡ Opcode.replace))
    ⊎ (l ≡ Opcode.delete)
    ⊎ ((l ≡ Opcode.increment) ⊎ (l ≡ Opcode.decrement))
    ⊎ (l ≡ Opcode.flush)
    ⊎ ((l ≡ Opcode.append) ⊎ (l ≡ Opcode.prepend))
    ⊎ ((l ≡ Opcode.get) ⊎ (l ≡ Opcode.getk))
    ⊎ (l ≡ Opcode.gat)

QuietOf-loud : (cmd l : ℕ) → QuietOf cmd l → loud cmd ≡ some l
unfolding loud QuietOf
QuietOf-loud cmd l q = ground (arith, q)

loud-none : (cmd l : ℕ) → QuietOf cmd l → loud l ≡ none
unfolding loud QuietOf
loud-none cmd l q = ground (arith, q)

QuietOf-OneOf : (cmd l : ℕ) → QuietOf cmd l → l ≢ Opcode.quit → OneOf l
unfolding QuietOf
QuietOf-OneOf cmd l q ne = ground (arith, q, ne)

Reads : BinAction → Type 0
Reads a =
    (a ≡ BinAction.protocol_error)
    ⊎ ((s : BinSubstate) × (extra : ℕ) × (a ≡ BinAction.read_key s extra))

expect-Reads :
    (test : Bool) (s : BinSubstate) (extra : ℕ) → Reads (expect test (BinAction.read_key s extra))
unfolding Reads
expect-Reads true s extra = inr (s, extra, refl)
expect-Reads false s extra = inl refl

-- What a command that has a quiet form does with a header: it reads on, or the header is in error.
bin_action-Reads :
    (l extlen keylen bodylen : ℕ) → OneOf l → Reads (bin_action l extlen keylen bodylen)
unfolding bin_action
bin_action-Reads l extlen keylen bodylen q = elim q [
  | inl (inl e) ↦ rw e (expect-Reads _ _ _)
  | inl (inr (inl e)) ↦ rw e (expect-Reads _ _ _)
  | inl (inr (inr e)) ↦ rw e (expect-Reads _ _ _)
  | inr (inl e) ↦ rw e (expect-Reads _ _ _)
  | inr (inr (inl (inl e))) ↦ rw e (expect-Reads _ _ _)
  | inr (inr (inl (inr e))) ↦ rw e (expect-Reads _ _ _)
  | inr (inr (inr (inl e))) ↦ rw e (expect-Reads _ _ _)
  | inr (inr (inr (inr (inl (inl e))))) ↦ rw e (expect-Reads _ _ _)
  | inr (inr (inr (inr (inl (inr e))))) ↦ rw e (expect-Reads _ _ _)
  | inr (inr (inr (inr (inr (inl (inl e)))))) ↦ rw e (expect-Reads _ _ _)
  | inr (inr (inr (inr (inr (inl (inr e)))))) ↦ rw e (expect-Reads _ _ _)
  | inr (inr (inr (inr (inr (inr e))))) ↦ rw e (expect-Reads _ _ _)
]

-- A command in place of the one that the request has.
abbrev as_command : ℕ → BinServer → BinServer
as_command cmd b = on_bin (λ s. record s { cmd = cmd }) b

refused-none :
    (config : BinConfig) (b : BinServer)
    → (config.sasl && not b.bin.authenticated) ≡ false
    → (config.sasl && not (authenticated b)) ≡ false
unfolding authenticated
refused-none config b h = ground (arith, h)

set_noreply_quiet :
    (b : BinServer) (cmd l : ℕ)
    → QuietOf cmd l
    → set_noreply (as_command cmd b)
      ≡ on_bin_conn (λ c. record c { noreply = true }) (set_noreply (as_command l b))
unfolding set_noreply
set_noreply_quiet b cmd l h = rw (QuietOf-loud cmd l h, loud-none cmd l h) refl

set_noreply_cmd :
    (b : BinServer) (cmd l : ℕ) → QuietOf cmd l → (set_noreply (as_command l b)).bin.cmd ≡ l
unfolding set_noreply
set_noreply_cmd b cmd l h = rw (loud-none cmd l h) refl

-- An action that reads on or finds an error in the header does not look at `noreply`.
action_quiet :
    (config : BinConfig) (a : BinAction) (b : BinServer)
    → Reads a
    → run_action config a (on_bin_conn (λ c. record c { noreply = true }) b)
      ≡ on_bin_conn (λ c. record c { noreply = true }) (run_action config a b)
unfolding Reads run_action bin_read_key handle_binary_protocol_error write_bin_error write_bin_text
    add_bin_header add_body response_header error_text add_iov
action_quiet config a b r = elim r [ inl e ↦ rw e refl | inr (s, extra, e) ↦ rw e refl ]

pub dispatch_runs :
    (config : BinConfig) (b : BinServer)
    → (config.sasl && not (authenticated b)) ≡ false
    → b.bin.header.keylen ≤ 250
    → dispatch_bin_command config b
      ≡ run_action config
          (bin_action
            (set_noreply b).bin.cmd
            b.bin.header.extlen
            b.bin.header.keylen
            b.bin.header.bodylen)
          (set_noreply b)
unfolding dispatch_bin_command
dispatch_runs config b a k = ground (arith, a, k)

-- Where the dispatch leaves the connection to be read on, it has come to the second switch.
pub dispatch_reads :
    (config : BinConfig) (b : BinServer)
    → (dispatch_bin_command config b).server.conn.state ≡ conn_nread
    → ((config.sasl && not (authenticated b)) ≡ false) × (b.bin.header.keylen ≤ 250)
unfolding dispatch_bin_command handle_binary_protocol_error write_bin_error write_bin_text
dispatch_reads config b h = (ground (arith, h), ground (arith, h))

-- The quiet form of a command, on a connection that may use it and with a key that is not too long, does
-- for every header what the command itself does, without a reply: the key and the extras are read, or
-- the error is answered, and the connection is the same but for `noreply`. Quitting, which answers at
-- once, is another case.
pub dispatch_quiet :
    (config : BinConfig) (b : BinServer) (cmd l : ℕ)
    → QuietOf cmd l
    → l ≢ Opcode.quit
    → (config.sasl && not b.bin.authenticated) ≡ false
    → b.bin.header.keylen ≤ 250
    → dispatch_bin_command config (as_command cmd b)
      ≡ on_bin_conn
          (λ c. record c { noreply = true })
          (dispatch_bin_command config (as_command l b))
dispatch_quiet config b cmd l q ne a k =
    let h = b.bin.header in
    let n = set_noreply (as_command l b) in
    let one : OneOf n.bin.cmd = rw (set_noreply_cmd b cmd l q) (QuietOf-OneOf cmd l q ne) in
    rw
      (
        dispatch_runs config (as_command cmd b) (refused-none config (as_command cmd b) a) k,
        dispatch_runs config (as_command l b) (refused-none config (as_command l b) a) k,
        set_noreply_quiet b cmd l q,
      )
      (action_quiet config (bin_action n.bin.cmd h.extlen h.keylen h.bodylen) n
        (bin_action-Reads n.bin.cmd h.extlen h.keylen h.bodylen one))
