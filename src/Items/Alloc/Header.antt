-- ===== src/Items/Alloc/Header.antt =====
-- item_make_header of memcached-1.4/items.c: the suffix of an item and the size it is allocated with.
use native.Mathlib.Nat.{pow-suc}
use reading_and_comprehense.Base.{
  ℕ, zero, suc, ◌+◌, ◌-◌, ◌/◌, ◌%◌, ◌^◌, ◌<◌, ◌≤◌, ◌≡◌, refl, ap, ◌∙◌, Bool, true, none, some, List,
  [], ◌∷◌, ◌++◌, arith, ltb, if◌then◌else◌, length, length-append, Bool-cases, inl, inr, not,
}
use reading_and_comprehense.Assoc.Chain.{Key}
use reading_and_comprehense.Memory.{item_ntotal, sub32}
use reading_and_comprehense.Util.{
  Scanned, ends_well, digits_of, decimal, signed_decimal, scan_number, signed_value, skip_space,
}
use reading_and_comprehense.Util.Parse.{number_text, scan_number_text}
use reading_and_comprehense.Conn.{strtol}
use reading_and_comprehense.Items.{Store, item_at}
use reading_and_comprehense.Items.Alloc.{make_suffix, item_make_header, total_size, init_item}

length-digits_of : (f n k : ℕ) → n < 10 ^ suc k → length (digits_of f n) ≤ suc k
unfolding digits_of
length-digits_of zero n k h = omega arith
length-digits_of (suc f) n zero h =
    let e : ltb n 10 ≡ true = ground (arith, h) in rw e (omega arith)
length-digits_of (suc f) n (suc k) h = elim (Bool-cases (ltb n 10)) [
  | inl small ↦ rw small (omega arith)
  | inr large ↦
      let h' : n / 10 < 10 ^ suc k = omega (arith, rw pow-suc at h) in
      rw large (
        omega (
          arith,
          length-append (digits_of f (n / 10)) ((b'0' + n % 10) ∷ []),
          length-digits_of f (n / 10) k h',
        ))
]

length-signed : (w : ℕ) → w < 2 ^ 32 → length (signed_decimal w) ≤ 11
unfolding signed_decimal decimal
length-signed w h = elim (Bool-cases (ltb w (2 ^ 31))) [
  | inl small ↦ rw small (omega (arith, length-digits_of 20 w 9 (omega (arith, h))))
  | inr large ↦
      rw large (omega (arith, length-digits_of 20 (2 ^ 32 - w) 9 (ground (arith, large, h))))
]

skip_one : (s : List ℕ) → (scan_number s).moved ≡ true → scan_number (b' ' ∷ s) ≡ scan_number s
unfolding scan_number skip_space
skip_one s h = ground (arith, h)

signed_text :
    (w : ℕ)
    → w < 2 ^ 32
    → signed_decimal w
      ≡ number_text (not (ltb w (2 ^ 31))) (if ltb w (2 ^ 31) then w else 2 ^ 32 - w)
unfolding signed_decimal number_text
signed_text w h = ground arith

stops_at_space : (s : List ℕ) → ends_well (b' ' ∷ s) ≡ true
unfolding ends_well
stops_at_space s = refl

-- strtol on what the scan of its text leaves.
abbrev strtol_of : Scanned → ℕ
strtol_of r = elim (signed_value r) [
  | none ↦ if r.negative then 2 ^ 63 else 2 ^ 63 - 1
  | some v ↦ v
]

strtol_flags :
    (neg : Bool) (m : ℕ) (rest : List ℕ) (w : ℕ)
    → w < 2 ^ 32
    → neg ≡ not (ltb w (2 ^ 31))
    → m ≡ (if ltb w (2 ^ 31) then w else 2 ^ 32 - w)
    → strtol_of (record { negative = neg; magnitude = m; endptr = rest; moved = true }) % 2 ^ 32 ≡ w
unfolding signed_value
strtol_flags neg m rest w h hn hm = ground (arith, hn, hm, h)

module _ (flags nbytes : ℕ) (small : flags < 2 ^ 32) where
  -- The suffix fits into the 40 bytes of its buffer: it has 26 at most.
  pub make_suffix-bounded : length (make_suffix flags nbytes) ≤ 26
  unfolding make_suffix
  make_suffix-bounded = omega (
    arith,
    length-append (signed_decimal flags) (b' ' ∷ (signed_decimal (sub32 nbytes 2) ++ 13 ∷ 10 ∷ [])),
    length-append (signed_decimal (sub32 nbytes 2)) (13 ∷ 10 ∷ []),
    length-signed flags small,
    length-signed (sub32 nbytes 2) (omega arith),
  )

  -- append, prepend, incr and decr read the flags of an item back from its suffix, all 32 bits of them.
  pub make_suffix-flags : strtol (make_suffix flags nbytes) % 2 ^ 32 ≡ flags
  unfolding make_suffix
  make_suffix-flags =
      let m = if ltb flags (2 ^ 31) then flags else 2 ^ 32 - flags in
      let neg = not (ltb flags (2 ^ 31)) in
      let rest : List ℕ = b' ' ∷ (signed_decimal (sub32 nbytes 2) ++ 13 ∷ 10 ∷ []) in
      let scanned = scan_number_text m rest (ground arith) (stops_at_space _) neg in
      let all = skip_one (number_text neg m ++ rest) (ap (λ r. r.moved) scanned) ∙ scanned in
      ap (λ t. strtol (b' ' ∷ (t ++ rest)) % 2 ^ 32) (signed_text flags small)
      ∙ ap (λ r. strtol_of r % 2 ^ 32) all
      ∙ strtol_flags neg m rest flags small refl refl

module _ (p id : ℕ) (key : Key) (flags exptime nbytes : ℕ) (st : Store) where
  -- The size that do_item_alloc asks for is the size ITEM_ntotal that the item has once it is filled
  -- in, which is the size that is given back when it is freed.
  pub init_item-size :
      item_ntotal (item_at (init_item p id key flags exptime nbytes st) p)
      ≡ total_size st.settings.use_cas (length key) flags nbytes
  unfolding init_item total_size item_make_header item_ntotal
  init_item-size = ground arith
