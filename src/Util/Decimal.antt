-- ===== src/Util/Decimal.antt =====
-- Printed numbers are read back, whatever follows them.
use reading_and_comprehense.Base.{
  ℕ, zero, suc, ◌+◌, ◌/◌, ◌%◌, ◌^◌, ◌<◌, ◌≡◌, refl, ◌∙◌, true, arith, List, [], ◌∷◌, ◌++◌, ltb,
  Bool-cases, inl, inr,
}
use mathlib.Core.List.{append_assoc}
use native.Mathlib.Nat.{pow-suc}
use reading_and_comprehense.Util.{scan, digits_of, decimal, isdigit, ends_well, has_minus}

-- Text that the digits stop at.
abbrev pub Stops : List ℕ → Type 0
Stops s = ends_well s ≡ true

scan-Stops : (n : ℕ) (rest : List ℕ) → Stops rest → scan n rest ≡ (n, rest)
unfolding scan ends_well
scan-Stops n [] h = refl
scan-Stops n (c ∷ s) h = ground arith

scan-digits_of :
    (f n : ℕ) (rest : List ℕ) → n < 10 ^ f → scan 0 (digits_of f n ++ rest) ≡ scan n rest
unfolding scan digits_of
scan-digits_of zero n rest h = let e : n ≡ 0 = omega arith in rw e
scan-digits_of (suc f) n rest h = elim (Bool-cases (ltb n 10)) [
  | inl small ↦ rw small (ground arith)
  | inr large ↦
      let h' : n / 10 < 10 ^ f = omega (arith, rw pow-suc at h) in
      rw (large, append_assoc, scan-digits_of f (n / 10) ((b'0' + n % 10) ∷ rest) h') (ground arith)
]

-- The first character is a digit.
pub record Starts (s : List ℕ) : Type 0 where
  pub c : ℕ
  pub rest : List ℕ
  pub shape : s ≡ c ∷ rest
  pub digit : isdigit c ≡ true

pub Starts-digits_of :
    (f n : ℕ) (rest : List ℕ) → n < 10 ^ suc f → Starts (digits_of (suc f) n ++ rest)
unfolding digits_of
Starts-digits_of zero n rest h =
    let h' : n < 10 = omega (arith, rw pow-suc at h) in
    let e : ltb n 10 ≡ true = ground arith in
    rw e (record { c = b'0' + n; rest = rest; shape = refl; digit = ground arith })
Starts-digits_of (suc f) n rest h = elim (Bool-cases (ltb n 10)) [
  | inl small ↦ rw small (record { c = b'0' + n; rest = rest; shape = refl; digit = ground arith })
  | inr large ↦
      let h' : n / 10 < 10 ^ suc f = omega (arith, rw pow-suc at h) in
      rw (large, append_assoc) (Starts-digits_of f (n / 10) ((b'0' + n % 10) ∷ rest) h')
]

has_minus-digits_of : (f n : ℕ) (rest : List ℕ) → has_minus (digits_of f n ++ rest) ≡ has_minus rest
unfolding digits_of has_minus
has_minus-digits_of zero n rest = refl
has_minus-digits_of (suc f) n rest = elim (Bool-cases (ltb n 10)) [
  | inl small ↦ rw small (ground arith)
  | inr large ↦
      rw (large, append_assoc, has_minus-digits_of f (n / 10) ((b'0' + n % 10) ∷ rest))
        (ground arith)
]

-- Twenty digits hold what the laws below are about.
abbrev pub decimal_bound : ℕ
decimal_bound = 10 ^ 20

module _ (n : ℕ) (rest : List ℕ) (small : n < decimal_bound) where
  pub scan-decimal : Stops rest → scan 0 (decimal n ++ rest) ≡ (n, rest)
  unfolding decimal
  scan-decimal h = scan-digits_of 20 n rest small ∙ scan-Stops n rest h

  pub Starts-decimal : Starts (decimal n ++ rest)
  unfolding decimal
  Starts-decimal = Starts-digits_of 19 n rest small

  pub has_minus-decimal : has_minus (decimal n ++ rest) ≡ has_minus rest
  unfolding decimal
  has_minus-decimal = has_minus-digits_of 20 n rest
