-- ===== src/Util.antt =====
-- Numbers as text (memcached-1.4/util.c), over the C library's strtoull, strtoul and strtol, isspace,
-- strchr and the %llu and %d of snprintf. `unsigned long` and `long` have 64 bits, as on the platforms
-- that config.h describes. A string is the list of its bytes before the terminating zero. A signed
-- number is its two's complement bit pattern.
pub mod Decimal
pub mod Parse
pub mod Swap
use reading_and_comprehense.Base.{
  ℕ, zero, suc, ◌+◌, ◌-◌, ◌*◌, ◌/◌, ◌%◌, ◌^◌, Bool, true, false, not, ◌&&◌, ◌||◌, Option, none,
  some, List, [], ◌∷◌, ◌++◌, ltb, leb, ◌==◌, if◌then◌else◌,
}

abbrev pub u64_mod : ℕ
u64_mod = 2 ^ 64

abbrev pub u63_mod : ℕ
u63_mod = 2 ^ 63

abbrev pub isspace : ℕ → Bool
isspace c = c == b' ' || leb 9 c && leb c 13

abbrev pub isdigit : ℕ → Bool
isdigit c = leb b'0' c && leb c b'9'

unfoldable pub skip_space : List ℕ → List ℕ
skip_space [] = []
skip_space (c ∷ s) = if isspace c then skip_space s else c ∷ s

-- The sign, and what follows it.
unfoldable pub take_sign : List ℕ → Bool × List ℕ
take_sign [] = (false, [])
take_sign (c ∷ s) =
    if c == b'-' then (true, s) else if c == b'+' then (false, s) else (false, c ∷ s)

-- The digits from here on, added to those read before.
unfoldable pub scan : ℕ → List ℕ → ℕ × List ℕ
scan acc [] = (acc, [])
scan acc (c ∷ s) = if isdigit c then scan (acc * 10 + (c - b'0')) s else (acc, c ∷ s)

unfoldable pub starts_digit : List ℕ → Bool
starts_digit [] = false
starts_digit (c ∷ s) = isdigit c

-- What a conversion leaves: the number's magnitude and sign, endptr, and whether it moved.
pub record Scanned : Type 0 where
  pub negative : Bool
  pub magnitude : ℕ
  pub endptr : List ℕ
  pub moved : Bool

unfoldable pub scan_number : List ℕ → Scanned
scan_number str =
    let (negative, s) = take_sign (skip_space str) in
    let (n, rest) = scan 0 s in
    if starts_digit s
    then record { negative = negative; magnitude = n; endptr = rest; moved = true }
    else record { negative = false; magnitude = 0; endptr = str; moved = false }

-- strtoull and the 64-bit strtoul: a negated number wraps. `none` is ERANGE.
unfoldable pub unsigned_value : Scanned → Option ℕ
unsigned_value r =
    if leb u64_mod r.magnitude
    then none
    else some (if r.negative then (u64_mod - r.magnitude) % u64_mod else r.magnitude)

-- The 64-bit strtol.
unfoldable pub signed_value : Scanned → Option ℕ
signed_value r =
    if r.negative
    then (if ltb u63_mod r.magnitude then none else some ((u64_mod - r.magnitude) % u64_mod))
    else (if leb u63_mod r.magnitude then none else some r.magnitude)

-- `xisspace(*endptr) || (*endptr == '\0' && endptr != str)`.
unfoldable pub ends_well : List ℕ → Bool
ends_well [] = true
ends_well (c ∷ s) = isspace c

-- `strchr(str, '-') != NULL`.
unfoldable pub has_minus : List ℕ → Bool
has_minus [] = false
has_minus (c ∷ s) = c == b'-' || has_minus s

-- A parse that failed is `none`.
unfoldable pub safe_strtoull : List ℕ → Option ℕ
safe_strtoull str =
    let r = scan_number str in
    elim (unsigned_value r) [
      | none ↦ none
      | some ull ↦
          if not r.moved
          then none
          else if ends_well r.endptr
          then (if leb u63_mod ull && has_minus str then none else some ull)
          else none
    ]

-- `*out = l` keeps the low 32 bits.
unfoldable pub safe_strtoul : List ℕ → Option ℕ
safe_strtoul str =
    let r = scan_number str in
    elim (unsigned_value r) [
      | none ↦ none
      | some l ↦
          if not r.moved
          then none
          else if ends_well r.endptr
          then (if leb u63_mod l && has_minus str then none else some (l % 2 ^ 32))
          else none
    ]

unfoldable pub safe_strtoll : List ℕ → Option ℕ
safe_strtoll str =
    let r = scan_number str in
    elim (signed_value r) [
      | none ↦ none
      | some ll ↦ if not r.moved then none else if ends_well r.endptr then some ll else none
    ]

unfoldable pub safe_strtol : List ℕ → Option ℕ
safe_strtol str =
    let r = scan_number str in
    elim (signed_value r) [
      | none ↦ none
      | some l ↦
          if not r.moved then none else if ends_well r.endptr then some (l % 2 ^ 32) else none
    ]

-- `%llu`: at most 20 digits.
unfoldable pub digits_of : ℕ → ℕ → List ℕ
digits_of zero n = []
digits_of (suc f) n =
    let front = digits_of f (n / 10) in
    if ltb n 10 then (b'0' + n) ∷ [] else front ++ (b'0' + n % 10) ∷ []

unfoldable pub decimal : ℕ → List ℕ
decimal n = digits_of 20 n

-- `%d` of a 32-bit pattern.
unfoldable pub signed_decimal : ℕ → List ℕ
signed_decimal w = if ltb w (2 ^ 31) then decimal w else b'-' ∷ decimal (2 ^ 32 - w)

-- mc_swap64 of a little-endian machine: the loop over the eight bytes. ntohll and htonll are this.
unfoldable pub swap_loop : ℕ → ℕ → ℕ → ℕ
swap_loop zero rv n = rv
swap_loop (suc i) rv n = swap_loop i ((rv * 256 + n % 256) % u64_mod) (n / 256)

unfoldable pub mc_swap64 : ℕ → ℕ
mc_swap64 n = swap_loop 8 0 n
