-- ===== src/Commands/Words.antt =====
-- The words that memcached-1.4/memcached.c compares the tokens of a command with.
use reading_and_comprehense.Base.{ℕ, List, [], ◌∷◌}

abbrev pub w_get : List ℕ
w_get = b'g' ∷ b'e' ∷ b't' ∷ []

abbrev pub w_bget : List ℕ
w_bget = b'b' ∷ b'g' ∷ b'e' ∷ b't' ∷ []

abbrev pub w_add : List ℕ
w_add = b'a' ∷ b'd' ∷ b'd' ∷ []

abbrev pub w_set : List ℕ
w_set = b's' ∷ b'e' ∷ b't' ∷ []

abbrev pub w_replace : List ℕ
w_replace = b'r' ∷ b'e' ∷ b'p' ∷ b'l' ∷ b'a' ∷ b'c' ∷ b'e' ∷ []

abbrev pub w_prepend : List ℕ
w_prepend = b'p' ∷ b'r' ∷ b'e' ∷ b'p' ∷ b'e' ∷ b'n' ∷ b'd' ∷ []

abbrev pub w_append : List ℕ
w_append = b'a' ∷ b'p' ∷ b'p' ∷ b'e' ∷ b'n' ∷ b'd' ∷ []

abbrev pub w_cas : List ℕ
w_cas = b'c' ∷ b'a' ∷ b's' ∷ []

abbrev pub w_incr : List ℕ
w_incr = b'i' ∷ b'n' ∷ b'c' ∷ b'r' ∷ []

abbrev pub w_gets : List ℕ
w_gets = b'g' ∷ b'e' ∷ b't' ∷ b's' ∷ []

abbrev pub w_decr : List ℕ
w_decr = b'd' ∷ b'e' ∷ b'c' ∷ b'r' ∷ []

abbrev pub w_delete : List ℕ
w_delete = b'd' ∷ b'e' ∷ b'l' ∷ b'e' ∷ b't' ∷ b'e' ∷ []

abbrev pub w_touch : List ℕ
w_touch = b't' ∷ b'o' ∷ b'u' ∷ b'c' ∷ b'h' ∷ []

abbrev pub w_stats : List ℕ
w_stats = b's' ∷ b't' ∷ b'a' ∷ b't' ∷ b's' ∷ []

abbrev pub w_flush_all : List ℕ
w_flush_all = b'f' ∷ b'l' ∷ b'u' ∷ b's' ∷ b'h' ∷ b'_' ∷ b'a' ∷ b'l' ∷ b'l' ∷ []

abbrev pub w_version : List ℕ
w_version = b'v' ∷ b'e' ∷ b'r' ∷ b's' ∷ b'i' ∷ b'o' ∷ b'n' ∷ []

abbrev pub w_quit : List ℕ
w_quit = b'q' ∷ b'u' ∷ b'i' ∷ b't' ∷ []

abbrev pub w_shutdown : List ℕ
w_shutdown = b's' ∷ b'h' ∷ b'u' ∷ b't' ∷ b'd' ∷ b'o' ∷ b'w' ∷ b'n' ∷ []

abbrev pub w_slabs : List ℕ
w_slabs = b's' ∷ b'l' ∷ b'a' ∷ b'b' ∷ b's' ∷ []

abbrev pub w_reassign : List ℕ
w_reassign = b'r' ∷ b'e' ∷ b'a' ∷ b's' ∷ b's' ∷ b'i' ∷ b'g' ∷ b'n' ∷ []

abbrev pub w_automove : List ℕ
w_automove = b'a' ∷ b'u' ∷ b't' ∷ b'o' ∷ b'm' ∷ b'o' ∷ b'v' ∷ b'e' ∷ []

abbrev pub w_lru_crawler : List ℕ
w_lru_crawler = b'l' ∷ b'r' ∷ b'u' ∷ b'_' ∷ b'c' ∷ b'r' ∷ b'a' ∷ b'w' ∷ b'l' ∷ b'e' ∷ b'r' ∷ []

abbrev pub w_crawl : List ℕ
w_crawl = b'c' ∷ b'r' ∷ b'a' ∷ b'w' ∷ b'l' ∷ []

abbrev pub w_tocrawl : List ℕ
w_tocrawl = b't' ∷ b'o' ∷ b'c' ∷ b'r' ∷ b'a' ∷ b'w' ∷ b'l' ∷ []

abbrev pub w_sleep : List ℕ
w_sleep = b's' ∷ b'l' ∷ b'e' ∷ b'e' ∷ b'p' ∷ []

abbrev pub w_enable : List ℕ
w_enable = b'e' ∷ b'n' ∷ b'a' ∷ b'b' ∷ b'l' ∷ b'e' ∷ []

abbrev pub w_disable : List ℕ
w_disable = b'd' ∷ b'i' ∷ b's' ∷ b'a' ∷ b'b' ∷ b'l' ∷ b'e' ∷ []

abbrev pub w_verbosity : List ℕ
w_verbosity = b'v' ∷ b'e' ∷ b'r' ∷ b'b' ∷ b'o' ∷ b's' ∷ b'i' ∷ b't' ∷ b'y' ∷ []
