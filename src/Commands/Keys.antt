-- ===== src/Commands/Keys.antt =====
-- The keys of a get in memcached-1.4/memcached.c: the rounds of the tokenizer visit each word of the
-- command line once, in order.
use reading_and_comprehense.Base.{
  ℕ, zero, suc, ◌≤◌, ◌≡◌, refl, sym, ap, ◌∙◌, Bool, true, Option, none, some, List, [], ◌∷◌, ◌++◌,
  arith, length, drop, Option-cases, inl, inr,
}
use reading_and_comprehense.Assoc.Chain.{Key}
use reading_and_comprehense.Conn.{Server, on_conn, tokenize_command}
use reading_and_comprehense.Conn.Tokens.{
  append_nil, split, split_from, split_rest, rest_length, tokenize_command-Tokenized,
}
use reading_and_comprehense.Conn.Tokens.Join.{join, are_words, split-join}
use reading_and_comprehense.Items.Alloc.{Env}
use reading_and_comprehense.Commands.Get.{
  GetStep, go, stopped, get_key, get_keys, get_rounds, get_end, process_get_command,
}

module _ (env : Env) (return_cas : Bool) where
  abbrev after : GetStep → List Key → GetStep
  after (stopped sv) keys = stopped sv
  after (go sv) keys = get_keys env return_cas keys sv

  after_step :
      (a b : List Key) (g : GetStep)
      → ((sv : Server)
          → get_keys env return_cas (a ++ b) sv ≡ after (get_keys env return_cas a sv) b)
      → after g (a ++ b) ≡ after (after g a) b
  after_step a b (stopped sv) ih = refl
  after_step a b (go sv) ih = ih sv

  after_elim :
      (g : GetStep) (a : List Key)
      → ◌≡◌ {A = GetStep}
          (elim g [ stopped sv1 ↦ stopped sv1 | go sv1 ↦ get_keys env return_cas a sv1 ])
          (after g a)
  after_elim (stopped sv) a = refl
  after_elim (go sv) a = refl

  get_keys-cons :
      (k : Key) (a : List Key) (sv : Server)
      → get_keys env return_cas (k ∷ a) sv ≡ after (get_key env return_cas k sv) a
  unfolding get_keys
  get_keys-cons k a sv = after_elim (get_key env return_cas k sv) a

  get_keys-append :
      (a b : List Key) (sv : Server)
      → get_keys env return_cas (a ++ b) sv ≡ after (get_keys env return_cas a sv) b
  get_keys-append [] b sv = unfold get_keys in refl
  get_keys-append (k ∷ a) b sv =
      rw (get_keys-cons k (a ++ b) sv, get_keys-cons k a sv)
        (after_step a b (get_key env return_cas k sv) (get_keys-append a b))

  after_same :
      (g : GetStep) (more : List Key) (f : Server → GetStep)
      → ((sv1 : Server) → f sv1 ≡ get_keys env return_cas more sv1)
      → ◌≡◌ {A = GetStep} (elim g [ stopped sv1 ↦ stopped sv1 | go sv1 ↦ f sv1 ]) (after g more)
  after_same (stopped sv) more f h = refl
  after_same (go sv) more f h = h sv

  after_keys :
      (keys more : List Key) (sv : Server) (f : Server → GetStep)
      → ((sv1 : Server) → f sv1 ≡ get_keys env return_cas more sv1)
      → ◌≡◌ {A = GetStep}
          (elim (get_keys env return_cas keys sv) [ stopped sv1 ↦ stopped sv1 | go sv1 ↦ f sv1 ])
          (get_keys env return_cas (keys ++ more) sv)
  after_keys keys more sv f h =
      rw (get_keys-append keys more sv) (after_same (get_keys env return_cas keys sv) more f h)

  round_shorter :
      (r : List ℕ) (fuel : ℕ) → length r ≤ suc fuel → rest_length (tokenize_command r).1 ≤ fuel
  round_shorter r fuel h = elim (Option-cases (tokenize_command r).1) [
    | inl e ↦ ground (arith, e)
    | inr (r', e) ↦ ground (arith, e, ((tokenize_command-Tokenized r).shorter r' e).1)
  ]

  get_rounds-all :
      (fuel : ℕ) (keys : List Key) (rest : Option (List ℕ)) (sv : Server)
      → rest_length rest ≤ fuel
      → get_rounds env return_cas fuel keys rest sv
        ≡ get_keys env return_cas (keys ++ split_rest rest) sv
  unfolding get_rounds
  get_rounds-all fuel keys none sv h = rw (append_nil keys) refl
  get_rounds-all zero keys (some []) sv h = unfold split_from in rw (append_nil keys) refl
  get_rounds-all zero keys (some (c ∷ r)) sv h = absurd (omega (arith, h))
  get_rounds-all (suc fuel) keys (some r) sv h = after_keys keys (split r) sv _ (λ sv1.
      get_rounds-all fuel (tokenize_command r).0 (tokenize_command r).1 sv1 (round_shorter r fuel h)
      ∙ ap (λ l. get_keys env return_cas l sv1) (tokenize_command-Tokenized r).words)

  drop_append : (a b : List Key) → 1 ≤ length a → drop 1 (a ++ b) ≡ drop 1 a ++ b
  drop_append [] b h = absurd (omega (arith, h))
  drop_append (x ∷ a) b h = refl

  get_command :
      (tokens : List (List ℕ)) (rest : Option (List ℕ)) (sv : Server)
      → process_get_command env tokens rest return_cas sv
        ≡ get_end (
            get_keys env return_cas
              (drop 1 tokens ++ split_rest rest)
              (on_conn (λ c. record c { ilist = [] }) sv))
  unfolding process_get_command
  get_command tokens none sv = ap get_end (get_rounds-all 0 (drop 1 tokens) none _ (omega arith))
  get_command tokens (some r) sv =
      ap get_end (get_rounds-all (length r) (drop 1 tokens) (some r) _ (omega arith))

  -- A get whose command line is the words of `ws`, at least one, looks up the words after the first
  -- one by one in their order, however many rounds of the tokenizer the line takes, and ends the answer.
  pub process_get_command-keys :
      (ws : List (List ℕ)) (sv : Server)
      → are_words ws ≡ true
      → 1 ≤ length ws
      → process_get_command env
          (tokenize_command (join ws)).0
          (tokenize_command (join ws)).1
          return_cas
          sv
        ≡ get_end (get_keys env return_cas (drop 1 ws) (on_conn (λ c. record c { ilist = [] }) sv))
  process_get_command-keys ws sv h some_word =
      let t = tokenize_command-Tokenized (join ws) in
      let tokens = (tokenize_command (join ws)).0 in
      let rest = (tokenize_command (join ws)).1 in
      let all = t.words ∙ split-join ws h in
      let present : 1 ≤ length tokens = elim (Option-cases rest) [
        | inl e ↦ ground (arith, e, append_nil tokens, ap length all)
        | inr (r, e) ↦ omega (arith, (t.shorter r e).2)
      ] in
      get_command tokens rest sv
      ∙ ap (λ l. get_end (get_keys env return_cas l (on_conn (λ c. record c { ilist = [] }) sv)))
          (sym (drop_append tokens (split_rest rest) present) ∙ ap (drop 1) all)
