-- ===== src/Binary/Packet.antt =====
-- The packets of the binary protocol of memcached-1.4/memcached.c: reading a header back, and the framing
-- of the answers.
use reading_and_comprehense.Base.{
  ℕ, ◌/◌, ◌%◌, ◌^◌, ◌<◌, ◌≡◌, refl, ap, ◌∙◌, not, ◌||◌, some, List, [], ◌∷◌, ◌++◌, arith, ◌==◌,
  length, inl, inr, Bool-cases,
}
use reading_and_comprehense.Binary.Opcode
use reading_and_comprehense.Conn.{ConnState, conn_mwrite, conn_new_cmd}
use reading_and_comprehense.Conn.Tokens.{append_nil}
use reading_and_comprehense.Binary.Header.{
  BinHeader, print_header, read_header, ntohs, ntohl, ntohll,
}
use reading_and_comprehense.Binary.{
  BinStatus, BinServer, status_code, error_text, response_header, add_bin_header, add_iov, add_body,
  write_bin_text, write_bin_error, write_bin_response,
}

-- The header with each number cut to the width of its field.
abbrev pub cut : BinHeader → BinHeader
cut h = record h {
  keylen = h.keylen % 2 ^ 16;
  reserved = h.reserved % 2 ^ 16;
  bodylen = h.bodylen % 2 ^ 32;
  opaque = h.opaque % 2 ^ 32;
  cas = h.cas % 2 ^ 64;
}

ntohs_lem : (n : ℕ) → ntohs (n / 256 % 256) (n % 256) ≡ n % 2 ^ 16
unfolding ntohs
ntohs_lem n = omega arith

ntohl_lem :
    (n : ℕ) → ntohl (n / 65536 / 256 % 256) (n / 65536 % 256) (n / 256 % 256) (n % 256) ≡ n % 2 ^ 32
unfolding ntohl ntohs
ntohl_lem n = omega arith

ntohll_lem :
    (n : ℕ)
    → ntohll
        (n / 2 ^ 32 / 65536 / 256 % 256)
        (n / 2 ^ 32 / 65536 % 256)
        (n / 2 ^ 32 / 256 % 256)
        (n / 2 ^ 32 % 256)
        (n / 65536 / 256 % 256)
        (n / 65536 % 256)
        (n / 256 % 256)
        (n % 256)
      ≡ n % 2 ^ 64
unfolding ntohll
ntohll_lem n = omega (arith, ntohl_lem (n / 2 ^ 32), ntohl_lem n)

pub read_header-print_header-cut :
    (h : BinHeader) (rest : List ℕ) → read_header (print_header h rest) ≡ some (cut h, rest)
unfolding read_header print_header
read_header-print_header-cut h rest = ground (
  arith,
  ntohs_lem h.keylen,
  ntohs_lem h.reserved,
  ntohl_lem h.bodylen,
  ntohl_lem h.opaque,
  ntohll_lem h.cas,
)

-- A header whose numbers fit their fields is read back as it was printed, and the bytes behind it are
-- what follows.
pub read_header-print_header :
    (h : BinHeader) (rest : List ℕ)
    → h.keylen < 2 ^ 16
    → h.reserved < 2 ^ 16
    → h.bodylen < 2 ^ 32
    → h.opaque < 2 ^ 32
    → h.cas < 2 ^ 64
    → read_header (print_header h rest) ≡ some (h, rest)
read_header-print_header h rest p q r s t = ground (arith, read_header-print_header-cut h rest)

abbrev pub concat : List (List ℕ) → List ℕ
concat [] = []
concat (bytes ∷ iov) = bytes ++ concat iov

print_header_append :
    (h : BinHeader) (a b : List ℕ) → print_header h a ++ b ≡ print_header h (a ++ b)
unfolding print_header
print_header_append h a b = refl

-- What the client reads in the pieces of an answer to a request with that opcode and those opaque
-- bytes.
pub record IsPacket (op opaque_bytes : ℕ) (iov : List (List ℕ)) (err : BinStatus)
    (keylen extlen cas : ℕ) (body : List ℕ) : Type 0 where
  pub header : BinHeader
  pub reads : read_header (concat iov) ≡ some (header, body)
  pub magic : header.magic ≡ 0x81
  pub opcode : header.opcode ≡ op
  pub opaque : header.opaque ≡ opaque_bytes % 2 ^ 32
  pub status : header.reserved ≡ status_code err
  pub key : header.keylen ≡ keylen
  pub extras : header.extlen ≡ extlen
  pub version : header.cas ≡ cas % 2 ^ 64
  pub bodylen : header.bodylen ≡ length body

status_code_lem : (err : BinStatus) → status_code err < 2 ^ 16
status_code_lem BinStatus.success = omega arith
status_code_lem BinStatus.key_enoent = omega arith
status_code_lem BinStatus.key_eexists = omega arith
status_code_lem BinStatus.e2big = omega arith
status_code_lem BinStatus.einval = omega arith
status_code_lem BinStatus.not_stored = omega arith
status_code_lem BinStatus.delta_badval = omega arith
status_code_lem BinStatus.auth_error = omega arith
status_code_lem BinStatus.unknown_command = omega arith
status_code_lem BinStatus.enomem = omega arith

module _ (b : BinServer) (err : BinStatus) (extlen keylen cas : ℕ) where
  abbrev printed : ℕ → List ℕ
  printed n = print_header (response_header b (status_code err) extlen keylen n cas) []

  -- A header and the pieces of the body behind it are a packet.
  pub pieces-IsPacket :
      (pieces : List (List ℕ))
      → length (concat pieces) < 2 ^ 32
      → extlen < 2 ^ 8
      → keylen < 2 ^ 16
      → IsPacket b.bin.header.opcode b.bin.opaque
          (printed (length (concat pieces)) ∷ pieces)
          err
          keylen
          extlen
          cas
          (concat pieces)
  unfolding response_header
  pieces-IsPacket pieces small e k =
      let h = response_header b (status_code err) extlen keylen (length (concat pieces)) cas in
      record {
        header = cut h;
        reads =
            ap read_header (print_header_append h [] (concat pieces))
            ∙ read_header-print_header-cut h (concat pieces);
        magic = refl;
        opcode = refl;
        opaque = refl;
        status = omega (arith, status_code_lem err);
        key = omega arith;
        extras = omega arith;
        version = refl;
        bodylen = omega arith;
      }

abbrev pub Answers : BinServer → BinServer → BinStatus → List ℕ → Type 0
Answers b b' err body =
    IsPacket b.bin.header.opcode b.bin.opaque b'.server.conn.iov err 0 0 b.server.conn.cas body

abbrev body_pieces : List ℕ → List (List ℕ)
body_pieces [] = []
body_pieces (c ∷ d) = (c ∷ d) ∷ []

concat-body_pieces : (d : List ℕ) → concat (body_pieces d) ≡ d
concat-body_pieces [] = refl
concat-body_pieces (c ∷ d) = append_nil (c ∷ d)

-- A header and a body that is one piece, or none.
body-IsPacket :
    (b : BinServer) (err : BinStatus) (extlen keylen cas : ℕ) (d : List ℕ)
    → length d < 2 ^ 32
    → extlen < 2 ^ 8
    → keylen < 2 ^ 16
    → IsPacket b.bin.header.opcode b.bin.opaque
        (printed b err extlen keylen cas (length d) ∷ body_pieces d)
        err
        keylen
        extlen
        cas
        d
body-IsPacket b err extlen keylen cas d h e k =
    rw (concat-body_pieces d) at
      (pieces-IsPacket b err extlen keylen cas (body_pieces d) (rw (concat-body_pieces d) h) e k)

add_body_iov :
    (d : List ℕ) (b : BinServer) (first : List ℕ)
    → b.server.conn.iov ≡ first ∷ []
    → (add_body d b).server.conn.iov ≡ first ∷ body_pieces d
unfolding add_body add_iov
add_body_iov [] b first h = ground (arith, h)
add_body_iov (c ∷ d) b first h = ground (arith, h)

-- An error with a text is a packet with that text as its body.
pub write_bin_text-IsPacket :
    (err : BinStatus) (text : List ℕ) (swallow : ℕ) (b : BinServer)
    → length text < 2 ^ 32
    → Answers b (write_bin_text err text swallow b) err text
unfolding write_bin_text add_bin_header
write_bin_text-IsPacket err text swallow b h =
    let iov = add_body_iov text (add_bin_header err 0 0 (length text) b.server.conn.cas b) _ refl in
    rw iov (body-IsPacket b err 0 0 b.server.conn.cas text h (omega arith) (omega arith))

error_text_short : (err : BinStatus) → length (error_text err) < 2 ^ 32
unfolding error_text
error_text_short BinStatus.success = omega arith
error_text_short BinStatus.key_enoent = omega arith
error_text_short BinStatus.key_eexists = omega arith
error_text_short BinStatus.e2big = omega arith
error_text_short BinStatus.einval = omega arith
error_text_short BinStatus.not_stored = omega arith
error_text_short BinStatus.delta_badval = omega arith
error_text_short BinStatus.auth_error = omega arith
error_text_short BinStatus.unknown_command = omega arith
error_text_short BinStatus.enomem = omega arith

pub write_bin_error-IsPacket :
    (err : BinStatus) (swallow : ℕ) (b : BinServer)
    → Answers b (write_bin_error err swallow b) err (error_text err)
unfolding write_bin_error
write_bin_error-IsPacket err swallow b =
    write_bin_text-IsPacket err (error_text err) _ b (error_text_short err)

-- write_bin_response answers with a packet, or is quiet and leaves the connection in conn_new_cmd.
pub write_bin_response-IsPacket :
    (d : List ℕ) (b : BinServer)
    → length d < 2 ^ 32
    → (write_bin_response d 0 0 b).server.conn.state ≡ conn_mwrite
    → Answers b (write_bin_response d 0 0 b) BinStatus.success d
unfolding write_bin_response add_bin_header
write_bin_response-IsPacket d b h loud =
    let b1 = add_bin_header BinStatus.success 0 0 (length d) b.server.conn.cas b in
    let iov = add_body_iov d b1 _ refl in
    let p =
      body-IsPacket b BinStatus.success 0 0 b.server.conn.cas d h (omega arith) (omega arith) in
    elim (Bool-cases
      (not b.server.conn.noreply || b.bin.cmd == Opcode.get || b.bin.cmd == Opcode.getk)) [
        | inl e ↦ rw (e, iov) p
        | inr e ↦ let quiet : ◌≡◌ {A = ConnState} conn_new_cmd conn_mwrite = rw e at loud in cc
      ]
