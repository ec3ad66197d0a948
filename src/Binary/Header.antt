-- ===== src/Binary/Header.antt =====
-- The header of a packet of the binary protocol (memcached-1.4/protocol_binary.h): 24 bytes, numbers in
-- network byte order. The opaque bytes, which the code copies as they are, are read as a number too.
use reading_and_comprehense.Base.{
  ℕ, ◌+◌, ◌*◌, ◌/◌, ◌%◌, ◌^◌, Option, none, some, List, [], ◌∷◌, ◌++◌,
}

-- protocol_binary_request_header after ntohs, ntohl and ntohll. A response has its status where a
-- request has the reserved bytes.
pub record BinHeader : Type 0 where
  pub magic : ℕ
  pub opcode : ℕ
  pub keylen : ℕ
  pub extlen : ℕ
  pub datatype : ℕ
  pub reserved : ℕ
  pub bodylen : ℕ
  pub opaque : ℕ
  pub cas : ℕ

-- htons, htonl and htonll, as the bytes in memory.
unfoldable pub htons : ℕ → List ℕ
htons n = (n / 256 % 256) ∷ (n % 256) ∷ []

unfoldable pub htonl : ℕ → List ℕ
unfolding htons
htonl n = htons (n / 65536) ++ htons n

unfoldable pub htonll : ℕ → List ℕ
unfolding htonl
htonll n = htonl (n / 2 ^ 32) ++ htonl n

unfoldable pub ntohs : ℕ → ℕ → ℕ
ntohs b1 b0 = b1 * 256 + b0

unfoldable pub ntohl : ℕ → ℕ → ℕ → ℕ → ℕ
unfolding ntohs
ntohl b3 b2 b1 b0 = ntohs b3 b2 * 65536 + ntohs b1 b0

unfoldable pub ntohll : ℕ → ℕ → ℕ → ℕ → ℕ → ℕ → ℕ → ℕ → ℕ
unfolding ntohl
ntohll b7 b6 b5 b4 b3 b2 b1 b0 = ntohl b7 b6 b5 b4 * 2 ^ 32 + ntohl b3 b2 b1 b0

abbrev pub header_size : ℕ
header_size = 24

-- The bytes of a header in front of `rest`.
unfoldable pub print_header : BinHeader → List ℕ → List ℕ
unfolding htons htonl htonll
print_header h rest =
    h.magic
    ∷ h.opcode
    ∷ (htons h.keylen
        ++ h.extlen
          ∷ h.datatype
          ∷ (htons h.reserved ++ (htonl h.bodylen ++ (htonl h.opaque ++ (htonll h.cas ++ rest)))))

-- The header that `bytes` begin with, and what follows it.
unfoldable pub read_header : List ℕ → Option (BinHeader × List ℕ)
unfolding ntohs ntohl ntohll
read_header
      (m ∷ op ∷ k1 ∷ k0 ∷ ext ∷ t ∷ r1 ∷ r0 ∷ b3 ∷ b2 ∷ b1 ∷ b0 ∷ o3 ∷ o2 ∷ o1 ∷ o0 ∷ c7 ∷ c6 ∷ c5
        ∷ c4 ∷ c3 ∷ c2 ∷ c1 ∷ c0 ∷ rest) =
    some (
      record {
        magic = m;
        opcode = op;
        keylen = ntohs k1 k0;
        extlen = ext;
        datatype = t;
        reserved = ntohs r1 r0;
        bodylen = ntohl b3 b2 b1 b0;
        opaque = ntohl o3 o2 o1 o0;
        cas = ntohll c7 c6 c5 c4 c3 c2 c1 c0;
      },
      rest,
    )
read_header _ = none
