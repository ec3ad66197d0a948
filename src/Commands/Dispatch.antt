-- ===== src/Commands/Dispatch.antt =====
-- process_command of memcached-1.4/memcached.c, which chooses the handler of a command line, and the
-- part of try_read_command that cuts the text protocol's lines from the input.
pub mod Lines
use reading_and_comprehense.Base.{
  ℕ, zero, suc, ◌+◌, ◌-◌, ◌*◌, ◌%◌, ◌^◌, Bool, true, false, not, ◌&&◌, ◌||◌, Option, none, some,
  List, [], ◌∷◌, ◌++◌, ltb, leb, ◌==◌, if◌then◌else◌, length, take, drop, bytes_eq,
}
use mathlib.Core.Option
use reading_and_comprehense.Items.Alloc.{Env}
use reading_and_comprehense.Conn.{
  Nread, Server, Conn, Reply, on_conn, out_string, tokenize_command, re_error, re_version,
  re_no_shutdown, conn_closing,
}
use reading_and_comprehense.Storage.{c_string}
use reading_and_comprehense.Commands.{
  word, count_tokens, process_touch_command, process_arithmetic_command, process_delete_command,
}
use reading_and_comprehense.Commands.Update.{process_update_command}
use reading_and_comprehense.Commands.Get.{process_get_command}
use reading_and_comprehense.Commands.Words.{
  w_get, w_bget, w_add, w_set, w_replace, w_prepend, w_append, w_cas, w_incr, w_gets, w_decr,
  w_delete, w_touch, w_stats, w_flush_all, w_version, w_quit, w_shutdown, w_slabs, w_reassign,
  w_automove, w_lru_crawler, w_crawl, w_tocrawl, w_sleep, w_enable, w_disable, w_verbosity,
}
use reading_and_comprehense.Commands.Control.{
  process_verbosity_command, process_slabs_automove_command, process_flush_all,
  process_slabs_reassign, process_crawler_tocrawl, process_crawler_sleep,
}

-- The branches of process_command.
pub data Handler : Type 0 where
  h_get : Bool → Handler
  h_update : Nread → Bool → Handler
  h_arithmetic : Bool → Handler
  h_delete h_touch h_stats h_flush_all h_version h_quit h_shutdown : Handler
  h_slabs_reassign h_slabs_automove : Handler
  h_crawl h_tocrawl h_sleep h_crawler_enable h_crawler_disable : Handler
  h_verbosity h_error : Handler

abbrev pub between : ℕ → ℕ → ℕ → Bool
between lo hi n = leb lo n && leb n hi

unfoldable pub slabs_handler : ℕ → List ℕ → Handler
slabs_handler n sub =
    if n == 5 && bytes_eq sub w_reassign
    then h_slabs_reassign
    else if n == 4 && bytes_eq sub w_automove
    then h_slabs_automove
    else h_error

unfoldable pub crawler_handler : ℕ → List ℕ → Handler
crawler_handler n sub =
    if n == 4 && bytes_eq sub w_crawl
    then h_crawl
    else if n == 4 && bytes_eq sub w_tocrawl
    then h_tocrawl
    else if n == 4 && bytes_eq sub w_sleep
    then h_sleep
    else if n == 3 && bytes_eq sub w_enable
    then h_crawler_enable
    else if n == 3 && bytes_eq sub w_disable
    then h_crawler_disable
    else h_error

unfoldable pub update_command : List ℕ → Option Nread
update_command w =
    if bytes_eq w w_add
    then some Nread.add
    else if bytes_eq w w_set
    then some Nread.set
    else if bytes_eq w w_replace
    then some Nread.replace
    else if bytes_eq w w_prepend
    then some Nread.prepend
    else if bytes_eq w w_append
    then some Nread.append
    else none

-- The commands after the storage commands, by the number of tokens, the first and the second.
unfoldable pub other_handler : ℕ → List ℕ → List ℕ → Handler
other_handler n w sub =
    if between 7 8 n && bytes_eq w w_cas
    then h_update Nread.cas true
    else if between 4 5 n && bytes_eq w w_incr
    then h_arithmetic true
    else if leb 3 n && bytes_eq w w_gets
    then h_get true
    else if between 4 5 n && bytes_eq w w_decr
    then h_arithmetic false
    else if between 3 5 n && bytes_eq w w_delete
    then h_delete
    else if between 4 5 n && bytes_eq w w_touch
    then h_touch
    else if leb 2 n && bytes_eq w w_stats
    then h_stats
    else if between 2 4 n && bytes_eq w w_flush_all
    then h_flush_all
    else if n == 2 && bytes_eq w w_version
    then h_version
    else if n == 2 && bytes_eq w w_quit
    then h_quit
    else if n == 2 && bytes_eq w w_shutdown
    then h_shutdown
    else if ltb 1 n && bytes_eq w w_slabs
    then slabs_handler n sub
    else if ltb 1 n && bytes_eq w w_lru_crawler
    then crawler_handler n sub
    else if between 3 4 n && bytes_eq w w_verbosity
    then h_verbosity
    else h_error

unfoldable pub choose_handler : List (List ℕ) → Handler
choose_handler tokens =
    let n = count_tokens tokens in
    let w = word tokens 0 in
    let other = other_handler n w (word tokens 1) in
    if leb 3 n && (bytes_eq w w_get || bytes_eq w w_bget)
    then h_get false
    else if between 6 7 n
    then (elim (update_command w) [ some comm ↦ h_update comm false | none ↦ other ])
    else other

-- `outside` stands for the handlers of stats and of the crawler thread, which are not modelled.
module _ (env : Env) (stale : Bool)
    (outside : Handler → List (List ℕ) → Server → Option Server) where
  unfoldable pub run_handler : Handler → List (List ℕ) → Option (List ℕ) → Server → Option Server
  run_handler (h_get return_cas) tokens rest sv =
      some (process_get_command env tokens rest return_cas sv)
  run_handler (h_update comm handle_cas) tokens rest sv =
      process_update_command env tokens comm handle_cas sv
  run_handler (h_arithmetic incr) tokens rest sv = process_arithmetic_command env tokens incr sv
  run_handler h_delete tokens rest sv = some (process_delete_command env tokens sv)
  run_handler h_touch tokens rest sv = some (process_touch_command env tokens sv)
  run_handler h_stats tokens rest sv = outside h_stats tokens sv
  run_handler h_flush_all tokens rest sv = some (process_flush_all env stale tokens sv)
  run_handler h_version tokens rest sv = some (out_string re_version sv)
  run_handler h_quit tokens rest sv = some (on_conn (λ c. record c { state = conn_closing }) sv)
  run_handler h_shutdown tokens rest sv = some (
      if sv.store.settings.shutdown_command
      then on_conn (λ c. record c { state = conn_closing }) sv
      else out_string re_no_shutdown sv)
  run_handler h_slabs_reassign tokens rest sv = some (process_slabs_reassign env stale tokens sv)
  run_handler h_slabs_automove tokens rest sv = some (process_slabs_automove_command tokens sv)
  run_handler h_crawl tokens rest sv = outside h_crawl tokens sv
  run_handler h_tocrawl tokens rest sv = some (process_crawler_tocrawl tokens sv)
  run_handler h_sleep tokens rest sv = some (process_crawler_sleep tokens sv)
  run_handler h_crawler_enable tokens rest sv = outside h_crawler_enable tokens sv
  run_handler h_crawler_disable tokens rest sv = outside h_crawler_disable tokens sv
  run_handler h_verbosity tokens rest sv = some (process_verbosity_command tokens sv)
  run_handler h_error tokens rest sv = some (out_string re_error sv)

  unfoldable pub process_command : List ℕ → Server → Option Server
  process_command command sv =
      let (tokens, rest) = tokenize_command command in
      run_handler (choose_handler tokens) tokens rest (on_conn (λ c. record c { iov = [] }) sv)

-- memchr(rcurr, '\n', rbytes): the bytes before the newline, and those behind it.
unfoldable pub split_line : List ℕ → Option (List ℕ × List ℕ)
split_line [] = none
split_line (c ∷ s) =
    let rest = split_line s in
    if c == 10
    then some ([], s)
    else (elim rest [ none ↦ none | some (line, after) ↦ some (c ∷ line, after) ])

-- `(el - rcurr) > 1 && *(el - 1) == '\r'`: a carriage return after at least one byte is dropped.
unfoldable pub drop_cr : List ℕ → List ℕ
drop_cr [] = []
drop_cr (c ∷ []) = c ∷ []
drop_cr (c ∷ d ∷ []) = if d == 13 then c ∷ [] else c ∷ d ∷ []
drop_cr (c ∷ d ∷ e ∷ s) = c ∷ drop_cr (d ∷ e ∷ s)

-- The spaces at the start, counted, and what follows them.
unfoldable pub skip_blanks : ℕ → List ℕ → ℕ × List ℕ
skip_blanks n [] = (n, [])
skip_blanks n (c ∷ s) = if c == b' ' then skip_blanks (n + 1) s else (n, c ∷ s)

-- A long input without a newline may only be a get of many keys.
unfoldable pub too_long : List ℕ → Bool
too_long rcurr =
    let (blanks, ptr) = skip_blanks 0 rcurr in
    let is_get =
      bytes_eq (take 4 ptr) (w_get ++ b' ' ∷ []) || bytes_eq (take 5 ptr) (w_gets ++ b' ' ∷ []) in
    ltb 1024 (length rcurr) && (ltb 100 blanks || not is_get)

module _ (env : Env) (stale : Bool)
    (outside : Handler → List (List ℕ) → Server → Option Server) where
  -- The text protocol's part of try_read_command, with whether a command was dealt with. `none` is an
  -- abort.
  unfoldable pub try_read_command : Server → Option (Bool × Server)
  try_read_command sv = elim (split_line sv.conn.rcurr) [
    | none ↦ some (
        if too_long sv.conn.rcurr
        then (true, on_conn (λ c. record c { state = conn_closing }) sv)
        else (false, sv))
    | some (line, after) ↦
        Option.map (λ sv1. (true, on_conn (λ c. record c { rcurr = after }) sv1))
          (process_command env stale outside (c_string (drop_cr line)) sv)
  ]
