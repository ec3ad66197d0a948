-- ===== src/Tests/Texts.antt =====
-- The theorems on command lines, numbers and times, applied to small texts.
use reading_and_comprehense.Base.{
  ◌+◌, ℕ, ◌≡◌, ◌≢◌, refl, true, false, some, List, [], ◌∷◌, ◌++◌, arith, leb, drop,
}
use reading_and_comprehense.Memory.Int.{pos}
use reading_and_comprehense.Util.{safe_strtoull, ends_well}
use reading_and_comprehense.Util.Parse.{number_text, safe_strtoull_text}
use reading_and_comprehense.Conn.{tokenize_command, realtime, on_conn}
use reading_and_comprehense.Conn.Time.{deadline, realtime-deadline}
use reading_and_comprehense.Conn.Tokens.{Tokenized, split, tokenize_command-Tokenized}
use reading_and_comprehense.Conn.Tokens.Join.{join, are_words, is_word, no_space}
use reading_and_comprehense.Commands.Get.{process_get_command, get_end, get_keys}
use reading_and_comprehense.Commands.Keys.{process_get_command-keys}
use reading_and_comprehense.Commands.Words.{w_get}
use reading_and_comprehense.Stats.{Pfs}
use reading_and_comprehense.Tests.{server, env, key_a}

-- `get a a a a a a a a`: more keys than the tokenizer takes in one round.
abbrev many_keys : List (List ℕ)
many_keys = w_get ∷ key_a ∷ key_a ∷ key_a ∷ key_a ∷ key_a ∷ key_a ∷ key_a ∷ key_a ∷ []

tokenize_command-Tokenized_example :
    Tokenized 0 (join many_keys) (split (join many_keys)) (tokenize_command (join many_keys))
tokenize_command-Tokenized_example = tokenize_command-Tokenized (join many_keys)

process_get_command-keys_example :
    process_get_command env
      (tokenize_command (join many_keys)).0
      (tokenize_command (join many_keys)).1
      false
      server
    ≡ get_end
        (get_keys env false (drop 1 many_keys) (on_conn (λ c. record c { ilist = [] }) server))
unfolding are_words is_word no_space
process_get_command-keys_example =
    process_get_command-keys env false many_keys server refl (omega arith)

realtime-deadline_example :
    (realtime 1000000 10 (pos 3000000) ≢ 0)
    × (leb (realtime 1000000 10 (pos 3000000)) 20 ≡ leb (deadline 1000000 10 3000000) 1000020)
realtime-deadline_example =
    realtime-deadline 1000000 10 20 (omega arith) (omega arith) (omega arith) 3000000 (omega arith)
      (omega arith)

safe_strtoull_text_example : safe_strtoull (number_text true 18446744073709551615 ++ []) ≡ some 1
unfolding ends_well
safe_strtoull_text_example = safe_strtoull_text 18446744073709551615 [] (omega arith) refl true

-- One more get of the key `a:b`.
abbrev one_get : Pfs → Pfs
one_get x = record x { num_gets = x.num_gets + 1 }
