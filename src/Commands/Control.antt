-- ===== src/Commands/Control.antt =====
-- The commands of memcached-1.4/memcached.c that set the server: flush_all, verbosity, slabs reassign
-- and automove, the settings of the LRU crawler.
use reading_and_comprehense.Base.{
  ℕ, ◌%◌, ◌^◌, Bool, true, not, none, some, List, ltb, leb, ◌==◌, if◌then◌else◌,
}
use reading_and_comprehense.Memory.{Settings, sub32, add64}
use reading_and_comprehense.Memory.Int.{pos, lt_ℤ}
use reading_and_comprehense.Util.{safe_strtoul, scan_number, signed_value}
use reading_and_comprehense.Items.{do_item_flush_expired}
use reading_and_comprehense.Items.Alloc.{Env}
use reading_and_comprehense.Slabs.Reassign.{ReassignResult, slabs_reassign}
use reading_and_comprehense.Conn.{
  Server, Reply, on_store, on_stats, out_string, to_int, strtol, strtoul, realtime,
  set_noreply_maybe, re_ok, re_error, re_bad_line, re_no_flush, re_no_reassign, re_busy,
  re_badclass, re_nospare, re_same, re_long_sleep,
}
use reading_and_comprehense.Commands.{word, count_tokens}

abbrev pub on_settings : (Settings → Settings) → Server → Server
on_settings f = on_store (λ st. record st { settings = f st.settings })

-- `errno == ERANGE` after strtol, where `stale` says that errno was ERANGE before: strtol sets it, and
-- never clears it.
abbrev pub erange : Bool → List ℕ → Bool
erange stale s = elim (signed_value (scan_number s)) [ none ↦ true | some v ↦ stale ]

abbrev pub max_verbosity_level : ℕ
max_verbosity_level = 2

unfoldable pub process_verbosity_command : List (List ℕ) → Server → Server
process_verbosity_command tokens sv =
    let sv1 = (set_noreply_maybe tokens sv).1 in
    let level = strtoul (word tokens 1) % 2 ^ 32 in
    out_string re_ok (
      on_settings
        (λ s. record s {
          verbose = if ltb max_verbosity_level level then max_verbosity_level else level;
        })
        sv1)

unfoldable pub process_slabs_automove_command : List (List ℕ) → Server → Server
process_slabs_automove_command tokens sv =
    let sv1 = (set_noreply_maybe tokens sv).1 in
    let level = strtoul (word tokens 2) % 2 ^ 32 in
    if leb level 2
    then out_string re_ok (on_settings (λ s. record s { slab_automove = level }) sv1)
    else out_string re_error sv1

unfoldable pub flush_at : Env → ℕ → Server → Server
flush_at env oldest_live sv = out_string re_ok (
    on_store (do_item_flush_expired env.hash)
      (on_settings (λ s. record s { oldest_live = oldest_live }) sv))

unfoldable pub process_flush_all : Env → Bool → List (List ℕ) → Server → Server
process_flush_all env stale tokens sv =
    let sv1 =
      on_stats (λ s. record s { flush_cmds = add64 s.flush_cmds 1 })
        (set_noreply_maybe tokens sv).1 in
    let now = sv1.store.current_time in
    let exptime = to_int 64 (strtol (word tokens 1)) in
    if not sv1.store.settings.flush_enabled
    then out_string re_no_flush sv1
    else if count_tokens tokens == (if sv1.conn.noreply then 3 else 2)
    then flush_at env (sub32 now 1) sv1
    else if erange stale (word tokens 1)
    then out_string re_bad_line sv1
    else if lt_ℤ (pos 0) exptime
    then flush_at env (sub32 (realtime sv1.process_started now exptime) 1) sv1
    else flush_at env (sub32 now 1) sv1

abbrev pub reassign_reply : ReassignResult → Reply
reassign_reply ReassignResult.ok = re_ok
reassign_reply ReassignResult.running = re_busy
reassign_reply ReassignResult.badclass = re_badclass
reassign_reply ReassignResult.nospare = re_nospare
reassign_reply ReassignResult.src_dst_same = re_same

unfoldable pub process_slabs_reassign : Env → Bool → List (List ℕ) → Server → Server
process_slabs_reassign env stale tokens sv =
    let src = to_int 32 (strtol (word tokens 2) % 2 ^ 32) in
    let dst = to_int 32 (strtol (word tokens 3) % 2 ^ 32) in
    let failed = erange (erange stale (word tokens 2)) (word tokens 3) in
    let (result, rebalance) =
      slabs_reassign env.rebalance_free sv.store.memory src dst sv.store.rebalance in
    if not sv.store.settings.slab_reassign
    then out_string re_no_reassign sv
    else if failed
    then out_string re_bad_line sv
    else out_string (reassign_reply result)
        (on_store (λ st. record st { rebalance = rebalance }) sv)

unfoldable pub process_crawler_tocrawl : List (List ℕ) → Server → Server
process_crawler_tocrawl tokens sv = elim (safe_strtoul (word tokens 2)) [
  | none ↦ out_string re_bad_line sv
  | some tocrawl ↦
      out_string re_ok (on_settings (λ s. record s { lru_crawler_tocrawl = tocrawl }) sv)
]

unfoldable pub process_crawler_sleep : List (List ℕ) → Server → Server
process_crawler_sleep tokens sv = elim (safe_strtoul (word tokens 2)) [
  | none ↦ out_string re_bad_line sv
  | some tosleep ↦
      if ltb 1000000 tosleep
      then out_string re_long_sleep sv
      else out_string re_ok (on_settings (λ s. record s { lru_crawler_sleep = tosleep }) sv)
]
