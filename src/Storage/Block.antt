-- ===== src/Storage/Block.antt =====
-- The state conn_nread of memcached-1.4/memcached.c: the data block of an item, however its bytes arrive.
use mathlib.Core.List.{append_assoc}
use reading_and_comprehense.Base.{
  ℕ, zero, suc, ◌+◌, ◌-◌, ◌≤◌, ◌≡◌, refl, sym, ap, ◌∙◌, Option, none, some, List, [], ◌∷◌, ◌++◌,
  arith, length, take, drop, length-append, take_append,
}
use reading_and_comprehense.Conn.Tokens.{append_nil}
use reading_and_comprehense.Items.{item_at}
use reading_and_comprehense.Items.Alloc.{Env}
use reading_and_comprehense.Conn.{Server, on_conn, on_store}
use reading_and_comprehense.Storage.{write_at, write_value, nread_round}
use reading_and_comprehense.Storage.Append.{take_beyond, length-take, write_middle}

abbrev pub concat : List (List ℕ) → List ℕ
concat [] = []
concat (c ∷ cs) = c ++ concat cs

-- Each piece has a byte.
abbrev pub Pieces : List (List ℕ) → Type 0
Pieces [] = Unit
Pieces (c ∷ cs) = (1 ≤ length c) × Pieces cs

-- A round for each piece of input that arrives.
unfoldable pub feed : Env → List (List ℕ) → Server → Option Server
feed env [] sv = some sv
feed env (c ∷ cs) sv = elim (nread_round env (on_conn (λ k. record k { rcurr = c }) sv)) [
  | none ↦ none
  | some sv1 ↦ feed env cs sv1
]

abbrev pub block : ℕ → Server → List ℕ
block it sv = (item_at sv.store it).value

-- What arrives of a block.
pub record Filled (it : ℕ) (sv : Server) (bytes : List ℕ) (sv' : Server) : Type 0 where
  pub item : sv'.conn.item ≡ some it
  pub arrived : take sv'.conn.ritem (block it sv') ≡ take sv.conn.ritem (block it sv) ++ bytes
  pub more : sv'.conn.ritem ≡ sv.conn.ritem + length bytes
  pub left : sv'.conn.rlbytes + length bytes ≡ sv.conn.rlbytes
  pub inside : sv'.conn.ritem ≤ length (block it sv')

take_whole : (n : ℕ) (l : List ℕ) → length l ≤ n → take n l ≡ l
take_whole zero [] h = refl
take_whole (suc n) [] h = refl
take_whole zero (x ∷ l) h = absurd (omega (arith, h))
take_whole (suc n) (x ∷ l) h = ap (◌∷◌ x) (take_whole n l (omega (arith, h)))

written :
    (n : ℕ) (bytes old : List ℕ)
    → n ≤ length old
    → take (n + length bytes) (write_at n bytes old) ≡ take n old ++ bytes
written n bytes old h =
    ap (take (n + length bytes)) (write_middle n bytes old)
    ∙ take_beyond (n + length bytes) (length bytes) (take n old) _
        (omega (arith, length-take n old h))
    ∙ ap (take n old ++◌) (take_append bytes _)

written_length :
    (n : ℕ) (bytes old : List ℕ) → n ≤ length old → n + length bytes ≤ length (write_at n bytes old)
written_length n bytes old h = rw write_middle (
    omega (
      arith,
      length-take n old h,
      length-append (take n old) (bytes ++ drop (n + length bytes) old),
      length-append bytes (drop (n + length bytes) old),
    ))

module _ (env : Env) (it : ℕ) where
  -- The server after a round that copies all of a piece.
  copied : List ℕ → Server → Server
  copied c sv =
      on_conn
        (λ k. record k {
          ritem = k.ritem + length c;
          rlbytes = k.rlbytes - length c;
          rcurr = drop (length c) c;
        })
        (on_store (write_value it sv.conn.ritem c) sv)

  round_copies :
      (c : List ℕ) (sv : Server)
      → sv.conn.item ≡ some it
      → 1 ≤ length c
      → length c ≤ sv.conn.rlbytes
      → nread_round env (on_conn (λ k. record k { rcurr = c }) sv) ≡ some (copied c sv)
  unfolding nread_round copied
  round_copies c sv here some_byte fits = ground (arith, here, take_whole sv.conn.rlbytes c fits)

  feed_step :
      (c : List ℕ) (cs : List (List ℕ)) (sv sv1 : Server)
      → nread_round env (on_conn (λ k. record k { rcurr = c }) sv) ≡ some sv1
      → feed env (c ∷ cs) sv ≡ feed env cs sv1
  unfolding feed
  feed_step c cs sv sv1 e = rw (feed, e) refl

  copied-Filled :
      (c : List ℕ) (sv : Server)
      → sv.conn.item ≡ some it
      → sv.conn.ritem ≤ length (block it sv)
      → length c ≤ sv.conn.rlbytes
      → Filled it sv c (copied c sv)
  unfolding copied
  copied-Filled c sv here inside fits = record {
    item = here;
    arrived = ground (arith, written sv.conn.ritem c (block it sv) inside);
    more = refl;
    left = omega (arith, fits);
    inside = ground (arith, written_length sv.conn.ritem c (block it sv) inside);
  }

  -- While a data block is awaited, the input that arrives in pieces, none of them empty and all of them
  -- within what is awaited, is put into the block in its order, behind what has arrived before, and
  -- exactly its length is awaited less.
  pub feed-Filled :
      (cs : List (List ℕ)) (sv : Server)
      → Pieces cs
      → sv.conn.item ≡ some it
      → sv.conn.ritem ≤ length (block it sv)
      → length (concat cs) ≤ sv.conn.rlbytes
      → (sv' : Server) × (feed env cs sv ≡ some sv') × Filled it sv (concat cs) sv'
  unfolding feed
  feed-Filled [] sv pieces here inside fits = (
    sv,
    refl,
    record {
      item = here;
      arrived = sym (append_nil _);
      more = omega arith;
      left = omega arith;
      inside = inside;
    },
  )
  feed-Filled (c ∷ cs) sv pieces here inside fits =
      let l = length-append c (concat cs) in
      let fits_c : length c ≤ sv.conn.rlbytes = omega (arith, fits, l) in
      let f = copied-Filled c sv here inside fits_c in
      let sv1 = copied c sv in
      let (sv', e, g) =
        feed-Filled cs sv1 pieces.1 f.item f.inside (omega (arith, fits, l, f.left)) in
      (
        sv',
        feed_step c cs sv sv1 (round_copies c sv here pieces.0 fits_c) ∙ e,
        record {
          item = g.item;
          arrived = g.arrived ∙ ap (λ b. b ++ concat cs) f.arrived ∙ append_assoc _ c (concat cs);
          more = omega (arith, g.more, f.more, l);
          left = omega (arith, g.left, f.left, l);
          inside = g.inside;
        },
      )
