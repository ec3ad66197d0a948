-- ===== src/Binary/Hit.antt =====
-- The answer of a get or touch of the binary protocol in memcached-1.4/memcached.c that finds its item.
use reading_and_comprehense.Base.{
  ℕ, ◌+◌, ◌-◌, ◌^◌, ◌<◌, ◌≤◌, ◌≡◌, zero, suc, length-append, refl, Bool, true, false, List, [], ◌∷◌,
  ◌++◌, arith, if◌then◌else◌, length, take, inl, inr, Bool-cases,
}
use reading_and_comprehense.Memory.{Item, item_get_cas}
use reading_and_comprehense.Conn.{strtoul}
use reading_and_comprehense.Binary.Header.{htonl, print_header}
use reading_and_comprehense.Binary.{BinStatus, BinServer, response_header, add_bin_header, add_iov}
use reading_and_comprehense.Binary.Process.{
  answer_hit, bin_value, should_return_key, should_return_value, hit_bodylen,
}
use reading_and_comprehense.Binary.Packet.{IsPacket, pieces-IsPacket, concat}

-- What the client is told of an item: the flags, the key where the command asks for it, and the value
-- except for touch.
abbrev pub told : Bool → Bool → ℕ → Item → List (List ℕ)
told with_key with_value nkey it =
    htonl (strtoul it.suffix)
    ∷ ((if with_key then take nkey it.key ∷ [] else [])
        ++ (if with_value then bin_value it ∷ [] else []))

abbrev pub hit_pieces : ℕ → ℕ → Item → List (List ℕ)
hit_pieces cmd nkey it = told (should_return_key cmd) (should_return_value cmd) nkey it

abbrev pub hit_keylen : ℕ → ℕ → ℕ
hit_keylen cmd nkey = if should_return_key cmd then nkey else 0

-- The data block and the key of an item have the lengths that it says, and are not too long.
pub record IsWhole (it : Item) (nkey : ℕ) : Type 0 where
  pub crlf : 2 ≤ it.nbytes
  pub block : it.nbytes ≤ length it.value
  pub int : it.nbytes < 2 ^ 31
  pub key : nkey ≤ length it.key
  pub short : nkey < 2 ^ 16

length-take_le {ℓ} : {A : Type ℓ} (n : ℕ) (xs : List A) → n ≤ length xs → length (take n xs) ≡ n
length-take_le zero xs h = refl
length-take_le (suc n) [] h = absurd (omega arith)
length-take_le (suc n) (x ∷ xs) h = omega (arith, length-take_le n xs (omega arith))

length-htonl : (n : ℕ) → length (htonl n) ≡ 4
unfolding htonl
length-htonl n = refl

module _ (nkey : ℕ) (it : Item) (w : IsWhole it nkey) where
  length-bin_value : length (bin_value it) ≡ it.nbytes - 2
  unfolding bin_value
  length-bin_value = length-take_le (it.nbytes - 2) it.value (omega (arith, w.block))

  length-told :
      (k v : Bool)
      → length (concat (told k v nkey it))
        ≡ 4 + (if k then nkey else 0) + (if v then it.nbytes - 2 else 0)
  length-told true true = omega (
    arith,
    length-append (htonl (strtoul it.suffix)) (take nkey it.key ++ (bin_value it ++ [])),
    length-append (take nkey it.key) (bin_value it ++ []),
    length-append (bin_value it) [],
    length-htonl (strtoul it.suffix),
    length-take_le nkey it.key w.key,
    length-bin_value,
  )
  length-told true false = omega (
    arith,
    length-append (htonl (strtoul it.suffix)) (take nkey it.key ++ []),
    length-append (take nkey it.key) [],
    length-htonl (strtoul it.suffix),
    length-take_le nkey it.key w.key,
  )
  length-told false true = omega (
    arith,
    length-append (htonl (strtoul it.suffix)) (bin_value it ++ []),
    length-append (bin_value it) [],
    length-htonl (strtoul it.suffix),
    length-bin_value,
  )
  length-told false false =
      omega (arith, length-append (htonl (strtoul it.suffix)) [], length-htonl (strtoul it.suffix))

  -- The length that the header gives is that of what is sent.
  length-hit_pieces : (cmd : ℕ) → length (concat (hit_pieces cmd nkey it)) ≡ hit_bodylen cmd nkey it
  unfolding hit_bodylen should_return_key should_return_value
  length-hit_pieces cmd =
      ground (
        arith,
        length-told (should_return_key cmd) (should_return_value cmd),
        w.crlf,
        w.int,
        w.short,
      )

  answer_hit_iov :
      (b : BinServer)
      → (answer_hit nkey it b).server.conn.iov
        ≡ print_header
            (response_header b 0 4
              (hit_keylen b.bin.cmd nkey)
              (hit_bodylen b.bin.cmd nkey it)
              (item_get_cas it))
            []
          ∷ hit_pieces b.bin.cmd nkey it
  unfolding answer_hit add_bin_header add_iov
  answer_hit_iov b = elim (Bool-cases (should_return_key b.bin.cmd)) [
    | inl e ↦ elim (Bool-cases (should_return_value b.bin.cmd)) [
      | inl f ↦ rw (e, f) refl
      | inr f ↦ rw (e, f) refl
    ]
    | inr e ↦ elim (Bool-cases (should_return_value b.bin.cmd)) [
      | inl f ↦ rw (e, f) refl
      | inr f ↦ rw (e, f) refl
    ]
  ]

  keylen_short : (cmd : ℕ) → hit_keylen cmd nkey < 2 ^ 16
  keylen_short cmd = ground (arith, w.short)

  body_short : (cmd : ℕ) → length (concat (hit_pieces cmd nkey it)) < 2 ^ 32
  body_short cmd =
      ground (arith, length-told (should_return_key cmd) (should_return_value cmd), w.int, w.short)

  -- A get or touch that finds a whole item answers with one packet: it echoes the opcode and the opaque
  -- bytes of the request, has the CAS of the item, and its body is the flags in four bytes, the key
  -- for getk and gatk, and the value less its CRLF except for touch; the length of the body in the
  -- header is right.
  pub answer_hit-IsPacket :
      (b : BinServer)
      → IsPacket b.bin.header.opcode b.bin.opaque
          (answer_hit nkey it b).server.conn.iov
          BinStatus.success
          (hit_keylen b.bin.cmd nkey)
          4
          (item_get_cas it)
          (concat (hit_pieces b.bin.cmd nkey it))
  answer_hit-IsPacket b =
      let p =
        pieces-IsPacket b BinStatus.success 4 (hit_keylen b.bin.cmd nkey) (item_get_cas it)
          (hit_pieces b.bin.cmd nkey it) (body_short b.bin.cmd) (omega arith)
          (keylen_short b.bin.cmd) in
      rw (answer_hit_iov b) (rw (length-hit_pieces b.bin.cmd) at p)
