-- ===== src/Conn.antt =====
-- A client's connection and the thread that serves it (memcached-1.4/memcached.h, and out_string,
-- realtime, set_noreply_maybe and tokenize_command of memcached-1.4/memcached.c). The buffers of a
-- connection grow as needed: an allocation for them does not fail. Replies are named, the text of each
-- beside its constructor.
pub mod Tokens
pub mod Time
use reading_and_comprehense.Base.{
  ℕ, zero, suc, ◌+◌, ◌-◌, ◌*◌, ◌%◌, ◌^◌, Bool, true, false, not, ◌&&◌, ◌||◌, Option, none, some,
  List, [], ◌∷◌, ◌++◌, ltb, leb, ◌==◌, if◌then◌else◌, update, length, take, drop, bytes_eq,
}
use reading_and_comprehense.Assoc.Chain.{Key}
use reading_and_comprehense.Memory.{add64}
use reading_and_comprehense.Memory.Int.{ℤ, pos, negsuc}
use reading_and_comprehense.Util.{Scanned, scan_number, signed_value, unsigned_value}
use reading_and_comprehense.Items.{Store}
use reading_and_comprehense.Stats.{PrefixStats}

-- NREAD_*.
pub data Nread : Type 0 where
  add set replace append prepend cas : Nread

-- enum store_item_type.
pub data StoreResult : Type 0 where
  not_stored stored exists not_found : StoreResult

-- The states that the commands put a connection in.
pub data ConnState : Type 0 where
  conn_new_cmd conn_parse_cmd conn_nread conn_swallow conn_write conn_mwrite conn_closing :
      ConnState

pub data Reply : Type 0 where
  -- STORED, EXISTS, NOT_FOUND, NOT_STORED, DELETED, TOUCHED, OK, ERROR
  re_stored re_exists re_not_found re_not_stored re_deleted re_touched re_ok re_error : Reply
  -- CLIENT_ERROR bad command line format, and the one of delete with its usage
  re_bad_line re_delete_usage : Reply
  -- CLIENT_ERROR invalid exptime argument, invalid numeric delta argument, bad data chunk,
  -- cannot increment or decrement non-numeric value
  re_bad_exptime re_bad_delta re_bad_chunk re_non_numeric : Reply
  -- SERVER_ERROR object too large for cache, out of memory storing object, out of memory
  re_too_large re_oom_object re_oom : Reply
  -- CLIENT_ERROR flush_all not allowed, ERROR: shutdown not enabled, VERSION
  re_no_flush re_no_shutdown re_version : Reply
  -- CLIENT_ERROR slab reassignment disabled, BUSY, BADCLASS, NOSPARE, SAME
  re_no_reassign re_busy re_badclass re_nospare re_same : Reply
  -- CLIENT_ERROR sleep must be one second or less
  re_long_sleep : Reply
  -- the decimal number of incr and decr
  re_number : List ℕ → Reply

-- struct slab_stats and struct thread_stats.
pub record SlabStats : Type 0 where
  pub set_cmds : ℕ
  pub get_hits : ℕ
  pub touch_hits : ℕ
  pub delete_hits : ℕ
  pub cas_hits : ℕ
  pub cas_badval : ℕ
  pub incr_hits : ℕ
  pub decr_hits : ℕ

pub record ThreadStats : Type 0 where
  pub get_cmds : ℕ
  pub get_misses : ℕ
  pub touch_cmds : ℕ
  pub touch_misses : ℕ
  pub delete_misses : ℕ
  pub incr_misses : ℕ
  pub decr_misses : ℕ
  pub cas_misses : ℕ
  pub flush_cmds : ℕ
  pub slab_stats : ℕ → SlabStats

-- The part of `conn` that the text protocol uses. `rcurr` is the input that is read and not yet used,
-- `ritem` how much of the item's data block is filled, `iov` the pieces of a get's answer, `answers`
-- the replies of out_string, the last one first.
pub record Conn : Type 0 where
  pub state : ConnState
  pub write_and_go : ConnState
  pub noreply : Bool
  pub item : Option ℕ
  pub cmd : Nread
  pub cas : ℕ
  pub rcurr : List ℕ
  pub ritem : ℕ
  pub rlbytes : ℕ
  pub sbytes : ℕ
  pub ilist : List ℕ
  pub iov : List (List ℕ)
  pub answers : List Reply

pub record Server : Type 0 where
  pub store : Store
  pub stats : ThreadStats
  pub prefixes : PrefixStats
  pub conn : Conn
  pub process_started : ℕ

abbrev pub on_store : (Store → Store) → Server → Server
on_store f sv = record sv { store = f sv.store }

abbrev pub on_conn : (Conn → Conn) → Server → Server
on_conn f sv = record sv { conn = f sv.conn }

abbrev pub on_stats : (ThreadStats → ThreadStats) → Server → Server
on_stats f sv = record sv { stats = f sv.stats }

abbrev pub on_slab : ℕ → (SlabStats → SlabStats) → Server → Server
on_slab id f sv =
    on_stats (λ s. record s { slab_stats = update s.slab_stats id (f (s.slab_stats id)) }) sv

unfoldable pub out_string : Reply → Server → Server
out_string str sv =
    if sv.conn.noreply
    then on_conn (λ c. record c { noreply = false; state = conn_new_cmd }) sv
    else on_conn
        (λ c. record c {
          iov = [];
          answers = str ∷ c.answers;
          state = conn_write;
          write_and_go = conn_new_cmd;
        })
        sv

abbrev pub realtime_maxdelta : ℕ
realtime_maxdelta = 60 * 60 * 24 * 30

-- A time in the future becomes relative to the start of the server; rel_time_t has 32 bits.
unfoldable pub realtime : ℕ → ℕ → ℤ → ℕ
realtime started now (pos e) =
    if e == 0
    then 0
    else if ltb realtime_maxdelta e
    then (if leb e started then 1 else (e - started) % 2 ^ 32)
    else (e + now) % 2 ^ 32
realtime started now (negsuc n) = (now + (2 ^ 32 - (n + 1) % 2 ^ 32)) % 2 ^ 32

-- The values of strtol and strtoul, which stop at the ends of their range.
abbrev pub strtol : List ℕ → ℕ
strtol s =
    let r = scan_number s in
    elim (signed_value r) [ none ↦ if r.negative then 2 ^ 63 else 2 ^ 63 - 1 | some v ↦ v ]

abbrev pub strtoul : List ℕ → ℕ
strtoul s = elim (unsigned_value (scan_number s)) [ none ↦ 2 ^ 64 - 1 | some v ↦ v ]

-- A two's complement pattern as a number.
abbrev pub to_int : ℕ → ℕ → ℤ
to_int bits w = if ltb w (2 ^ (bits - 1)) then pos w else negsuc (2 ^ bits - w - 1)

abbrev pub max_tokens : ℕ
max_tokens = 8

-- `*e == '\0' ? NULL : e`.
unfoldable pub left_of : List ℕ → Option (List ℕ)
left_of [] = none
left_of (d ∷ e) = some (d ∷ e)

-- The tokens, and the value of the terminal token: what is left of the command, if anything is.
-- `s` is the part of the current token before `e`, and `n` the number of tokens before it.
unfoldable pub tokenize_from : ℕ → List ℕ → List ℕ → List (List ℕ) × Option (List ℕ)
tokenize_from n [] [] = ([], none)
tokenize_from n (x ∷ s) [] = ((x ∷ s) ∷ [], none)
tokenize_from n [] (c ∷ e) = tokenize_from n (if c == b' ' then [] else c ∷ []) e
tokenize_from n (x ∷ s) (c ∷ e) = elim (c == b' ') [
  | false ↦ tokenize_from n ((x ∷ s) ++ c ∷ []) e
  | true ↦ elim (n + 1 == max_tokens - 1) [
    | true ↦ ((x ∷ s) ∷ [], left_of e)
    | false ↦ let (ws, rest) = tokenize_from (n + 1) [] e in ((x ∷ s) ∷ ws, rest)
  ]
]

unfoldable pub tokenize_command : List ℕ → List (List ℕ) × Option (List ℕ)
tokenize_command command = tokenize_from 0 [] command

unfoldable pub last_token : List (List ℕ) → List ℕ
last_token [] = []
last_token (w ∷ []) = w
last_token (w ∷ v ∷ ws) = last_token (v ∷ ws)

abbrev pub noreply_word : List ℕ
noreply_word = b'n' ∷ b'o' ∷ b'r' ∷ b'e' ∷ b'p' ∷ b'l' ∷ b'y' ∷ []

-- tokens[ntokens - 2] is the last token before the terminal one.
unfoldable pub set_noreply_maybe : List (List ℕ) → Server → Bool × Server
set_noreply_maybe tokens sv =
    let sv1 =
      if bytes_eq (last_token tokens) noreply_word
      then on_conn (λ c. record c { noreply = true }) sv
      else sv in
    (sv1.conn.noreply, sv1)
