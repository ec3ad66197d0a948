-- ===== src/Storage/Append.antt =====
-- The data blocks that append, prepend, incr and decr of memcached-1.4/memcached.c write.
use reading_and_comprehense.Base.{
  ℕ, zero, suc, ◌+◌, ◌-◌, ◌≤◌, ◌≡◌, refl, sym, ap, ◌∙◌, Bool, true, false, List, [], ◌∷◌, ◌++◌,
  arith, if◌then◌else◌, length, take, drop, take_append,
}
use reading_and_comprehense.Items.{Store, item_at}
use reading_and_comprehense.Storage.{write_at, item_data, join_values}

pub take_within : (n : ℕ) (a b : List ℕ) → n ≤ length a → take n (a ++ b) ≡ take n a
take_within zero a b h = refl
take_within (suc n) [] b h = absurd (omega (arith, h))
take_within (suc n) (x ∷ a) b h = ap (◌∷◌ x) (take_within n a b (omega (arith, h)))

pub take_beyond : (k n : ℕ) (a b : List ℕ) → k ≡ length a + n → take k (a ++ b) ≡ a ++ take n b
take_beyond k n [] b h = ap (λ i. take i b) (omega (arith, h))
take_beyond zero n (x ∷ a) b h = absurd (omega (arith, h))
take_beyond (suc k) n (x ∷ a) b h = ap (◌∷◌ x) (take_beyond k n a b (omega (arith, h)))

pub length-take : (n : ℕ) (a : List ℕ) → n ≤ length a → length (take n a) ≡ n
length-take zero a h = refl
length-take (suc n) [] h = absurd (omega (arith, h))
length-take (suc n) (x ∷ a) h = ap suc (length-take n a (omega (arith, h)))

pub drop_beyond : (k n : ℕ) (a b : List ℕ) → k ≡ length a + n → drop k (a ++ b) ≡ drop n b
drop_beyond k n [] b h = ap (λ i. drop i b) (omega (arith, h))
drop_beyond zero n (x ∷ a) b h = absurd (omega (arith, h))
drop_beyond (suc k) n (x ∷ a) b h = drop_beyond k n a b (omega (arith, h))

drop_nil : (k : ℕ) → ◌≡◌ {A = List ℕ} (drop k []) []
drop_nil zero = refl
drop_nil (suc k) = refl

pub drop-drop : (m i k : ℕ) (l : List ℕ) → m ≡ i + k → drop k (drop i l) ≡ drop m l
drop-drop m zero k l h = ap (λ j. drop j l) (omega (arith, h))
drop-drop m (suc i) k [] h = drop_nil k ∙ sym (drop_nil m)
drop-drop zero (suc i) k (x ∷ l) h = absurd (omega (arith, h))
drop-drop (suc m) (suc i) k (x ∷ l) h = drop-drop m i k l (omega (arith, h))

pub write_front : (block old : List ℕ) → write_at 0 block old ≡ block ++ drop (0 + length block) old
unfolding write_at
write_front block old = refl

pub write_middle :
    (n : ℕ) (block old : List ℕ)
    → write_at n block old ≡ take n old ++ (block ++ drop (n + length block) old)
unfolding write_at
write_middle n block old = refl

-- A block over the end of another, n bytes in.
overwrite_end :
    (n : ℕ) (first second old : List ℕ)
    → n ≤ length first
    → take (n + length second) (write_at n second (write_at 0 first old)) ≡ take n first ++ second
overwrite_end n first second old h =
    let rest = drop (0 + length first) old in
    let tail = drop (n + length second) (first ++ rest) in
    rw (write_front, write_middle, take_within n first rest h)
      (take_beyond (n + length second) (length second) (take n first) (second ++ tail)
          (omega (arith, length-take n first h))
        ∙ ap (take n first ++◌) (take_append second tail))

module _ (st : Store) (new_it old_it it : ℕ) where
  abbrev old_data : List ℕ
  old_data = item_data (item_at st old_it)

  abbrev new_data : List ℕ
  new_data = item_data (item_at st it)

  module _ (old_full : length old_data ≡ (item_at st old_it).nbytes)
      (full : length new_data ≡ (item_at st it).nbytes) (old_crlf : 2 ≤ (item_at st old_it).nbytes)
      (crlf : 2 ≤ (item_at st it).nbytes)
      (sized : (item_at st new_it).nbytes
        ≡ (item_at st it).nbytes + (item_at st old_it).nbytes - 2) where
    join_append :
        (item_at (join_values true new_it old_it it st) new_it).value
        ≡ write_at
            ((item_at st old_it).nbytes - 2)
            new_data
            (write_at 0 old_data (item_at st new_it).value)
    unfolding join_values
    join_append = ground arith

    join_prepend :
        (item_at (join_values false new_it old_it it st) new_it).value
        ≡ write_at
            ((item_at st it).nbytes - 2)
            old_data
            (write_at 0 new_data (item_at st new_it).value)
    unfolding join_values
    join_prepend = ground arith

    join_nbytes :
        (b : Bool)
        → (item_at (join_values b new_it old_it it st) new_it).nbytes ≡ (item_at st new_it).nbytes
    unfolding join_values
    join_nbytes b = ground arith

    data_is :
        (b : Bool)
        → item_data (item_at (join_values b new_it old_it it st) new_it)
          ≡ take
              (item_at st new_it).nbytes
              (item_at (join_values b new_it old_it it st) new_it).value
    unfolding item_data
    data_is b =
        ap (λ n. take n (item_at (join_values b new_it old_it it st) new_it).value) (join_nbytes b)

    -- The data of the item that append or prepend makes, for complete blocks that end in CRLF and an item
    -- with room for both: the first block without its CRLF, then the second, where append puts
    -- the old block first and prepend the new one.
    pub join_values-data :
        (is_append : Bool)
        → item_data (item_at (join_values is_append new_it old_it it st) new_it) ≡ (
            if is_append
            then take ((item_at st old_it).nbytes - 2) old_data ++ new_data
            else take ((item_at st it).nbytes - 2) new_data ++ old_data)
    join_values-data true =
        data_is true
        ∙ ap (λ v. take (item_at st new_it).nbytes v) join_append
        ∙ ap
            (λ n. take n (
              write_at ((item_at st old_it).nbytes - 2) new_data
                (write_at 0 old_data (item_at st new_it).value)))
            (omega (arith, sized, full, old_crlf))
        ∙ overwrite_end _ old_data new_data _ (omega (arith, old_full))
    join_values-data false =
        data_is false
        ∙ ap (λ v. take (item_at st new_it).nbytes v) join_prepend
        ∙ ap
            (λ n. take n (
              write_at ((item_at st it).nbytes - 2) old_data
                (write_at 0 new_data (item_at st new_it).value)))
            (omega (arith, sized, old_full, crlf))
        ∙ overwrite_end _ new_data old_data _ (omega (arith, full))
