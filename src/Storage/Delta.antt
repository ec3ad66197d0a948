-- ===== src/Storage/Delta.antt =====
-- The number that incr and decr of memcached-1.4/memcached.c leave in an item.
use mathlib.Core.List.{append_assoc}
use reading_and_comprehense.Base.{
  ℕ, zero, suc, ◌+◌, ◌-◌, ◌%◌, ◌/◌, ◌^◌, ◌<◌, ◌≤◌, ◌≡◌, refl, ap, ◌∙◌, true, false, some, List, ◌∷◌,
  ◌++◌, arith, ltb, length, drop, take_append, replicate, Bool-cases, inl, inr,
}
use reading_and_comprehense.Memory.{item_set_cas}
use reading_and_comprehense.Util.{decimal, digits_of, safe_strtoull, ends_well}
use reading_and_comprehense.Util.Parse.{number_text, safe_strtoull_text}
use reading_and_comprehense.Items.{Store, item_at, do_item_update, get_cas_id, stamp_cas}
use reading_and_comprehense.Items.Update.{do_item_update-Updated}
use reading_and_comprehense.Storage.{write_value, write_at, c_string}
use reading_and_comprehense.Storage.Arithmetic.{delta_in_place}
use reading_and_comprehense.Storage.Append.{drop_beyond, drop-drop, write_front, write_middle}

c_string_digits :
    (f n : ℕ) (rest : List ℕ) → c_string (digits_of f n ++ rest) ≡ digits_of f n ++ c_string rest
unfolding c_string digits_of
c_string_digits zero n rest = refl
c_string_digits (suc f) n rest = elim (Bool-cases (ltb n 10)) [
  | inl small ↦ rw small (ground arith)
  | inr large ↦
      rw (large, append_assoc, append_assoc, c_string_digits f (n / 10) ((b'0' + n % 10) ∷ rest))
        (ground arith)
]

length-replicate : (n c : ℕ) → length (replicate n c) ≡ n
length-replicate zero c = refl
length-replicate (suc n) c = ap suc (length-replicate n c)

module _ (st : Store) (it : ℕ) (buf : List ℕ) where
  abbrev old : List ℕ
  old = (item_at st it).value

  abbrev pad : ℕ
  pad = (item_at st it).nbytes - length buf - 2

  stamped :
      ((item_at (stamp_cas it st) it).value ≡ old)
      × ((item_at (stamp_cas it st) it).nbytes ≡ (item_at st it).nbytes)
  unfolding stamp_cas get_cas_id item_set_cas
  stamped = (ground arith, ground arith)

  written : Store
  written =
      write_value it (length buf)
        (replicate ((item_at (stamp_cas it st) it).nbytes - length buf - 2) b' ')
        (write_value it 0 buf (stamp_cas it st))

  written_value :
      (item_at written it).value
      ≡ write_at
          (length buf)
          (replicate ((item_at (stamp_cas it st) it).nbytes - length buf - 2) b' ')
          (write_at 0 buf (item_at (stamp_cas it st) it).value)
  unfolding written
  written_value = ground arith

  in_place_is : delta_in_place it buf st ≡ do_item_update it written
  unfolding delta_in_place written
  in_place_is = refl

  in_place :
      (item_at (delta_in_place it buf st) it).value
      ≡ write_at (length buf) (replicate pad b' ') (write_at 0 buf old)
  in_place =
      ap (λ s. (item_at s it).value) in_place_is
      ∙ ap (λ i. i.value) (do_item_update-Updated written it).here
      ∙ written_value
      ∙ rw (stamped.0, stamped.1) refl

  -- The number stands at the start of the data block, then spaces, then the last two bytes of the block
  -- and what follows them.
  pub delta_in_place-value :
      length buf + 2 ≤ (item_at st it).nbytes
      → (item_at (delta_in_place it buf st) it).value
        ≡ buf ++ (replicate pad b' ' ++ drop ((item_at st it).nbytes - 2) old)
  delta_in_place-value fits =
      in_place
      ∙ rw (write_front, write_middle, take_append)
          (ap (λ l. buf ++ (replicate pad b' ' ++ l))
            (drop_beyond (length buf + length (replicate pad b' ')) pad buf _
                (omega (arith, length-replicate pad b' '))
              ∙ drop-drop ((item_at st it).nbytes - 2) (0 + length buf) pad old
                  (omega (arith, fits))))

spaces_stop : (n : ℕ) (rest : List ℕ) → ends_well (c_string (replicate n b' ' ++ 13 ∷ rest)) ≡ true
unfolding ends_well c_string
spaces_stop zero rest = refl
spaces_stop (suc n) rest = refl

c_string-decimal :
    (n : ℕ) (rest : List ℕ) → c_string (decimal n ++ rest) ≡ decimal n ++ c_string rest
unfolding decimal
c_string-decimal n rest = c_string_digits 20 n rest

text_false :
    (n : ℕ) (rest : List ℕ)
    → n < 10 ^ 20
    → ends_well rest ≡ true
    → n < 2 ^ 63
    → safe_strtoull (decimal n ++ rest) ≡ some n
unfolding number_text
text_false n rest h stops small = safe_strtoull_text n rest h stops false ∙ ground arith

module _ (st : Store) (it v : ℕ) (rest : List ℕ) where
  -- A number below 2^63 that incr or decr writes into an item with room for it, whose block ends in
  -- CRLF, is the number that the next incr or decr reads there.
  pub delta_in_place-reads :
      v < 2 ^ 63
      → length (decimal v) + 2 ≤ (item_at st it).nbytes
      → drop ((item_at st it).nbytes - 2) (item_at st it).value ≡ 13 ∷ rest
      → safe_strtoull (c_string (item_at (delta_in_place it (decimal v) st) it).value) ≡ some v
  delta_in_place-reads small fits crlf =
      let spaces = replicate (pad st it (decimal v)) b' ' in
      let h : v < 10 ^ 20 = omega (arith, small) in
      ap (λ l. safe_strtoull (c_string l)) (delta_in_place-value st it (decimal v) fits)
      ∙ ap (λ l. safe_strtoull (c_string (decimal v ++ (spaces ++ l)))) crlf
      ∙ ap safe_strtoull (c_string-decimal v (spaces ++ 13 ∷ rest))
      ∙ text_false v (c_string (spaces ++ 13 ∷ rest)) h (spaces_stop (pad st it (decimal v)) rest)
          small
