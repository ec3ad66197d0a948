-- ===== src/Util/Parse.antt =====
-- What safe_strtoull, safe_strtoul, safe_strtoll and safe_strtol of memcached-1.4/util.c return.
use reading_and_comprehense.Base.{
  ℕ, ◌-◌, ◌%◌, ◌^◌, ◌<◌, ◌≡◌, refl, Bool, true, false, ◌&&◌, ◌||◌, none, some, arith, List, ◌∷◌,
  ◌++◌, ltb, leb, ◌==◌, if◌then◌else◌,
}
use reading_and_comprehense.Util.{
  u64_mod, u63_mod, scan_number, unsigned_value, signed_value, safe_strtoull, safe_strtoul,
  safe_strtoll, safe_strtol, starts_digit, decimal, skip_space, take_sign, has_minus,
}
use reading_and_comprehense.Util.Decimal.{
  Stops, Starts, decimal_bound, scan-decimal, Starts-decimal, has_minus-decimal,
}

-- The text of a number: an optional minus and the digits.
unfoldable pub number_text : Bool → ℕ → List ℕ
number_text true n = b'-' ∷ decimal n
number_text false n = decimal n

skip-Starts : (s : List ℕ) → Starts s → take_sign (skip_space s) ≡ (false, s)
unfolding take_sign skip_space
skip-Starts s st = rw st.shape (ground (arith, st.digit))

skip_minus : (s : List ℕ) → take_sign (skip_space (b'-' ∷ s)) ≡ (true, s)
unfolding take_sign skip_space
skip_minus s = refl

starts_lem : (s : List ℕ) → Starts s → starts_digit s ≡ true
unfolding starts_digit
starts_lem s st = rw st.shape st.digit

minus_minus : (s : List ℕ) → has_minus (b'-' ∷ s) ≡ true
unfolding has_minus
minus_minus s = refl

module _ (n : ℕ) (rest : List ℕ) (small : n < decimal_bound) (h : Stops rest) where
  pub scan_number_text :
      (neg : Bool)
      → scan_number (number_text neg n ++ rest)
        ≡ record { negative = neg; magnitude = n; endptr = rest; moved = true }
  unfolding scan_number number_text
  scan_number_text true = rw (
    skip_minus (decimal n ++ rest),
    scan-decimal n rest small h,
    starts_lem _ (Starts-decimal n rest small),
  )
  scan_number_text false = rw (
    skip-Starts _ (Starts-decimal n rest small),
    scan-decimal n rest small h,
    starts_lem _ (Starts-decimal n rest small),
  )

  has_minus_text : (neg : Bool) → has_minus (number_text neg n ++ rest) ≡ (neg || has_minus rest)
  unfolding number_text
  has_minus_text true = minus_minus (decimal n ++ rest)
  has_minus_text false = has_minus-decimal n rest small

  -- safe_strtoull of the printed number n, behind an optional minus and before text that begins with
  -- a white space or is empty: out of range is refused; a plain number is returned, unless it is at
  -- least 2^63 and a minus stands anywhere in the text that follows; of the negative numbers, minus
  -- zero is zero, those down to -2^63 are refused, and those below wrap to a positive number.
  pub safe_strtoull_text :
      (neg : Bool)
      → safe_strtoull (number_text neg n ++ rest) ≡ (
          if leb u64_mod n
          then none
          else if neg
          then (if n == 0 then some 0 else if leb n u63_mod then none else some (u64_mod - n))
          else (if leb u63_mod n && has_minus rest then none else some n))
  unfolding safe_strtoull unsigned_value
  safe_strtoull_text neg = ground (arith, h, scan_number_text neg, has_minus_text neg)

  -- safe_strtoul keeps the low 32 bits of the number that safe_strtoull reads.
  pub safe_strtoul_text :
      (neg : Bool)
      → safe_strtoul (number_text neg n ++ rest)
        ≡ elim (safe_strtoull (number_text neg n ++ rest)) [
          | none ↦ none
          | some v ↦ some (v % 2 ^ 32)
        ]
  unfolding safe_strtoul safe_strtoull unsigned_value
  safe_strtoul_text neg = ground (arith, h, scan_number_text neg, has_minus_text neg)

  -- safe_strtol accepts the 64-bit signed range, of which it keeps the low 32 bits.
  pub safe_strtol_text :
      (neg : Bool)
      → safe_strtol (number_text neg n ++ rest) ≡ (
          if neg
          then (if ltb u63_mod n then none else some ((u64_mod - n) % 2 ^ 32))
          else (if leb u63_mod n then none else some (n % 2 ^ 32)))
  unfolding safe_strtol signed_value
  safe_strtol_text neg = ground (arith, h, scan_number_text neg)

  pub safe_strtoll_text :
      (neg : Bool)
      → safe_strtoll (number_text neg n ++ rest) ≡ (
          if neg
          then (if ltb u63_mod n then none else some ((u64_mod - n) % u64_mod))
          else (if leb u63_mod n then none else some n))
  unfolding safe_strtoll signed_value
  safe_strtoll_text neg = ground (arith, h, scan_number_text neg)
