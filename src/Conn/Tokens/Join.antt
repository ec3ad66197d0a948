-- ===== src/Conn/Tokens/Join.antt =====
-- A command line made of words, and what tokenize_command of memcached-1.4/memcached.c reads from it.
use reading_and_comprehense.Base.{
  ℕ, ◌≤◌, ◌<◌, ◌≡◌, ◌≢◌, refl, sym, ap, ◌∙◌, Bool, true, false, List, [], ◌∷◌, ◌++◌, arith, ◌==◌,
  length, Option-cases, inl, inr, ◌&&◌, not,
}
use reading_and_comprehense.Conn.{tokenize_command, max_tokens}
use reading_and_comprehense.Conn.Tokens.{
  append_nil, split_from, split, split_rest, split_skip, split_step, append_one,
  tokenize_command-Tokenized,
}

unfoldable pub no_space : List ℕ → Bool
no_space [] = true
no_space (c ∷ s) = not (c == b' ') && no_space s

-- A word is not empty and has no space.
unfoldable pub is_word : List ℕ → Bool
is_word [] = false
is_word (c ∷ s) = not (c == b' ') && no_space s

unfoldable pub are_words : List (List ℕ) → Bool
are_words [] = true
are_words (w ∷ ws) = is_word w && are_words ws

-- The words with a space between them.
unfoldable pub join : List (List ℕ) → List ℕ
join [] = []
join (w ∷ []) = w
join (w ∷ v ∷ ws) = w ++ b' ' ∷ join (v ∷ ws)

split_no_space :
    (x : ℕ) (s w e : List ℕ)
    → no_space w ≡ true
    → split_from (x ∷ s) (w ++ e) ≡ split_from (x ∷ (s ++ w)) e
unfolding no_space
split_no_space x s [] e h = rw (append_nil s) refl
split_no_space x s (c ∷ w) e h =
    split_step x s c (w ++ e)
    ∙ ground (arith, h, split_no_space x (s ++ c ∷ []) w e, append_one s c w)

split_word :
    (x : ℕ) (w e : List ℕ) → is_word (x ∷ w) ≡ true → split ((x ∷ w) ++ e) ≡ split_from (x ∷ w) e
unfolding is_word
split_word x w e h = split_skip x (w ++ e) ∙ ground (arith, h, split_no_space x [] w e)

split_last : (x : ℕ) (w : List ℕ) → is_word (x ∷ w) ≡ true → split (x ∷ w) ≡ (x ∷ w) ∷ []
unfolding is_word split_from
split_last x w h = ap split (sym (append_nil (x ∷ w))) ∙ split_word x w [] h

split_first :
    (x : ℕ) (w e : List ℕ)
    → is_word (x ∷ w) ≡ true
    → split ((x ∷ w) ++ b' ' ∷ e) ≡ (x ∷ w) ∷ split e
split_first x w e h = split_word x w (b' ' ∷ e) h ∙ split_step x w b' ' e

word_of :
    (w : List ℕ) (ws : List (List ℕ))
    → are_words (w ∷ ws) ≡ true
    → (is_word w ≡ true) × (are_words ws ≡ true)
unfolding are_words
word_of w ws h = ground (arith, h)

empty_word : (ws : List (List ℕ)) → are_words ([] ∷ ws) ≢ true
unfolding are_words is_word
empty_word ws h = ground (arith, h)

join_cons : (w v : List ℕ) (ws : List (List ℕ)) → join (w ∷ v ∷ ws) ≡ w ++ b' ' ∷ join (v ∷ ws)
unfolding join
join_cons w v ws = refl

-- The words of a line made of words are these words.
pub split-join : (ws : List (List ℕ)) → are_words ws ≡ true → split (join ws) ≡ ws
split-join [] h = unfold split_from join in refl
split-join ([] ∷ ws) h = absurd (empty_word ws h)
split-join ((x ∷ w) ∷ []) h = unfold join in split_last x w (word_of (x ∷ w) [] h).0
split-join ((x ∷ w) ∷ v ∷ ws) h =
    let h' = word_of (x ∷ w) (v ∷ ws) h in
    ap split (join_cons (x ∷ w) v ws)
    ∙ split_first x w (join (v ∷ ws)) h'.0
    ∙ ap (◌∷◌ (x ∷ w)) (split-join (v ∷ ws) h'.1)

same_prefix : (a b c : List (List ℕ)) → a ++ b ≡ c → length c ≤ length a → (a ≡ c) × (b ≡ [])
same_prefix [] [] [] h l = (refl, refl)
same_prefix [] (x ∷ b) c h l = absurd (ground (arith, h, ap length h))
same_prefix [] [] (x ∷ c) h l = absurd (ground (arith, h))
same_prefix (x ∷ a) b [] h l = absurd (ground (arith, h))
same_prefix (x ∷ a) b (y ∷ c) h l = ground (arith, h, same_prefix a b c)

module _ (ws : List (List ℕ)) (h : are_words ws ≡ true) where
  -- A command line of at most 7 words with a space between them is tokenized into these words, and no
  -- word is left. (The 8 tokens of the source are the 7 words and the terminal token.)
  pub tokenize_command-join :
      length ws < max_tokens
      → ((tokenize_command (join ws)).0 ≡ ws) × (split_rest (tokenize_command (join ws)).1 ≡ [])
  tokenize_command-join few =
      let t = tokenize_command-Tokenized (join ws) in
      let tokens = (tokenize_command (join ws)).0 in
      let all = t.words ∙ split-join ws h in
      let enough : length ws ≤ length tokens = elim (Option-cases (tokenize_command (join ws)).1) [
        | inl e ↦ ground (arith, e, append_nil tokens, ap length all)
        | inr (r, e) ↦ omega (arith, few, (t.shorter r e).2)
      ] in
      same_prefix tokens (split_rest (tokenize_command (join ws)).1) ws all enough
