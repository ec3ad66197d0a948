-- ===== src/Commands/Dispatch/Lines.antt =====
-- The lines that try_read_command of memcached-1.4/memcached.c reads.
use reading_and_comprehense.Base.{ℕ, ◌≡◌, Bool, false, some, List, [], ◌∷◌, ◌++◌, arith, ◌==◌, ◌||◌}
use reading_and_comprehense.Commands.Dispatch.{split_line}

unfoldable pub bytes_in : ℕ → List ℕ → Bool
bytes_in b [] = false
bytes_in b (c ∷ s) = c == b || bytes_in b s

-- A line is cut at its first newline, and what follows the newline is kept for the next command.
pub split_line-append :
    (line after : List ℕ)
    → bytes_in 10 line ≡ false
    → split_line (line ++ 10 ∷ after) ≡ some (line, after)
unfolding split_line bytes_in
split_line-append [] after h = ground arith
split_line-append (c ∷ line) after h = ground (arith, split_line-append line after)
