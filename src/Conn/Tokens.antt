-- ===== src/Conn/Tokens.antt =====
-- tokenize_command of memcached-1.4/memcached.c against the split of a command at its spaces.
pub mod Join
use reading_and_comprehense.Base.{
  ℕ, zero, suc, ◌+◌, ◌-◌, ◌≤◌, ◌<◌, ◌≡◌, ◌≢◌, refl, sym, ap, ◌∙◌, Bool, true, false, Option, none,
  some, List, [], ◌∷◌, ◌++◌, arith, ltb, leb, ◌==◌, if◌then◌else◌, length, Bool-cases, ◌⊎◌, inl,
  inr, length-append,
}
use reading_and_comprehense.Conn.{left_of, tokenize_from, tokenize_command, max_tokens}

-- The words of a text: the longest pieces without a space. `s` is the piece before the text.
unfoldable pub split_from : List ℕ → List ℕ → List (List ℕ)
split_from [] [] = []
split_from (x ∷ s) [] = (x ∷ s) ∷ []
split_from [] (c ∷ e) = split_from (if c == b' ' then [] else c ∷ []) e
split_from (x ∷ s) (c ∷ e) = elim (c == b' ') [
  | true ↦ (x ∷ s) ∷ split_from [] e
  | false ↦ split_from ((x ∷ s) ++ c ∷ []) e
]

abbrev pub split : List ℕ → List (List ℕ)
split text = split_from [] text

-- The words of what a round of the tokenizer has left.
abbrev pub split_rest : Option (List ℕ) → List (List ℕ)
split_rest none = []
split_rest (some r) = split r

abbrev pub rest_length : Option (List ℕ) → ℕ
rest_length none = 0
rest_length (some r) = length r

pub record Tokenized (n : ℕ) (text : List ℕ) (all : List (List ℕ))
    (t : List (List ℕ) × Option (List ℕ)) : Type 0 where
  pub words : t.0 ++ split_rest t.1 ≡ all
  pub few : n + length t.0 < max_tokens
  pub shorter :
      (r : List ℕ)
      → t.1 ≡ some r
      → (1 ≤ length r) × (length r < length text) × (n + length t.0 ≡ max_tokens - 1)

pub append_nil {ℓ} : {A : Type ℓ} (s : List A) → s ++ [] ≡ s
append_nil [] = refl
append_nil (x ∷ s) = ap (◌∷◌ x) (append_nil s)

pub append_one : (s : List ℕ) (c : ℕ) (e : List ℕ) → (s ++ c ∷ []) ++ e ≡ s ++ c ∷ e
append_one [] c e = refl
append_one (x ∷ s) c e = ap (◌∷◌ x) (append_one s c e)

split_left : (e : List ℕ) → split_rest (left_of e) ≡ split_from [] e
unfolding left_of split_from
split_left [] = refl
split_left (d ∷ e) = refl

left_length : (e r : List ℕ) → left_of e ≡ some r → (1 ≤ length r) × (length r ≡ length e)
unfolding left_of
left_length [] r h = ground arith
left_length (d ∷ e) r h = ground arith

token_step :
    (n x : ℕ) (s : List ℕ) (c : ℕ) (e : List ℕ)
    → tokenize_from n (x ∷ s) (c ∷ e) ≡ (
        if c == b' '
        then (if n + 1 == max_tokens - 1
            then ((x ∷ s) ∷ [], left_of e)
            else ((x ∷ s) ∷ (tokenize_from (n + 1) [] e).0, (tokenize_from (n + 1) [] e).1))
        else tokenize_from n ((x ∷ s) ++ c ∷ []) e)
unfolding tokenize_from
token_step n x s c e = ground arith

token_skip :
    (n c : ℕ) (e : List ℕ)
    → tokenize_from n [] (c ∷ e) ≡ tokenize_from n (if c == b' ' then [] else c ∷ []) e
unfolding tokenize_from
token_skip n c e = refl

pub split_skip :
    (c : ℕ) (e : List ℕ) → split_from [] (c ∷ e) ≡ split_from (if c == b' ' then [] else c ∷ []) e
unfolding split_from
split_skip c e = refl

pub split_step :
    (x : ℕ) (s : List ℕ) (c : ℕ) (e : List ℕ)
    → split_from (x ∷ s) (c ∷ e)
      ≡ (if c == b' ' then (x ∷ s) ∷ split_from [] e else split_from ((x ∷ s) ++ c ∷ []) e)
unfolding split_from
split_step x s c e = ground arith

tokenize_from-Tokenized :
    (n : ℕ) (s e : List ℕ)
    → n < max_tokens - 1
    → Tokenized n (s ++ e) (split_from s e) (tokenize_from n s e)
unfolding tokenize_from split_from
tokenize_from-Tokenized n [] [] h = record {
  words = refl;
  few = ground arith;
  shorter = λ r e. ground arith;
}
tokenize_from-Tokenized n (x ∷ s) [] h = record {
  words = refl;
  few = ground arith;
  shorter = λ r e. ground arith;
}
tokenize_from-Tokenized n [] (c ∷ e) h =
    rw (token_skip n c e, split_skip c e)
      (elim (Bool-cases (c == b' ')) [
        | inl blank ↦ rw blank (
            let t = tokenize_from-Tokenized n [] e h in
            record { words = t.words; few = t.few; shorter = λ r q. ground (arith, t.shorter r q) })
        | inr other ↦ rw other (tokenize_from-Tokenized n (c ∷ []) e h)
      ])
tokenize_from-Tokenized n (x ∷ s) (c ∷ e) h =
    rw (token_step n x s c e, split_step x s c e)
      (elim (Bool-cases (c == b' ')) [
        | inl blank ↦ rw blank (elim (Bool-cases (n + 1 == max_tokens - 1)) [
          | inl full ↦ rw full (record {
            words = ap (◌∷◌ (x ∷ s)) (split_left e);
            few = ground (arith, full);
            shorter = λ r q. ground (arith, full, left_length e r q, length-append s (c ∷ e));
          })
          | inr more ↦ rw more (
              let t = tokenize_from-Tokenized (n + 1) [] e (ground (arith, more)) in
              record {
                words = ap (◌∷◌ (x ∷ s)) t.words;
                few = omega (arith, t.few);
                shorter = λ r q. ground (arith, t.shorter r q, length-append s (c ∷ e));
              })
        ])
        | inr other ↦
            rw other
              (rw (append_one (x ∷ s) c e) at (tokenize_from-Tokenized n ((x ∷ s) ++ c ∷ []) e h))
      ])

module _ (command : List ℕ) where
  -- A round of the tokenizer takes the first words of the command, 7 at most, and leaves the text that
  -- holds the others: it is shorter than the command, and only left after 7 words.
  pub tokenize_command-Tokenized : Tokenized 0 command (split command) (tokenize_command command)
  unfolding tokenize_command
  tokenize_command-Tokenized = tokenize_from-Tokenized 0 [] command (omega arith)
