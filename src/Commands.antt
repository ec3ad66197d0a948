-- ===== src/Commands.antt =====
-- The commands of the text protocol on keys in memcached-1.4/memcached.c: touch, incr and decr, and
-- delete; Get and Update have the others. `none` is an abort of the slab allocator.
pub mod Update
pub mod Get
pub mod Words
pub mod Control
pub mod Dispatch
pub mod Keys
pub mod Effects
use reading_and_comprehense.Base.{
  ℕ, zero, suc, ◌+◌, ◌-◌, ◌*◌, ◌%◌, ◌^◌, Bool, true, false, not, ◌&&◌, ◌||◌, Option, none, some,
  List, [], ◌∷◌, ◌++◌, ltb, leb, ◌==◌, if◌then◌else◌, length, take, drop, get_elem?, bytes_eq,
  update,
}
use mathlib.Core.Option
use reading_and_comprehense.Assoc.Chain.{Key}
use reading_and_comprehense.Memory.{Item, item_get_cas, item_set_cas, add64, add32}
use reading_and_comprehense.Memory.Int.{ℤ, pos, negsuc, lt_ℤ}
use reading_and_comprehense.Util.{safe_strtoull, safe_strtoul, safe_strtol, decimal}
use reading_and_comprehense.Stats.{
  stats_prefix_record_get, stats_prefix_record_delete, stats_prefix_record_set,
}
use reading_and_comprehense.Items.{Store, item_at, edit, do_item_remove, do_item_update}
use reading_and_comprehense.Items.Alloc.{Env, item_size_ok}
use reading_and_comprehense.Conn.{
  Nread, Server, Conn, ThreadStats, SlabStats, Reply, on_store, on_conn, on_stats, on_slab,
  out_string, to_int, realtime, realtime_maxdelta, tokenize_command, set_noreply_maybe, re_bad_line,
  re_too_large, re_oom_object, re_oom, re_bad_exptime, re_bad_delta, re_non_numeric, re_not_found,
  re_touched, re_deleted, re_delete_usage, re_number, conn_nread, conn_mwrite, conn_swallow,
}
use reading_and_comprehense.Storage.{item_get, item_touch, item_unlink, item_alloc, item_data}
use reading_and_comprehense.Storage.Arithmetic.{
  add_delta, delta_ok, delta_non_numeric, delta_eom, delta_item_not_found, delta_item_cas_mismatch,
}

abbrev pub key_max_length : ℕ
key_max_length = 250

-- The value of a token; a token that is not there is not read.
abbrev pub word : List (List ℕ) → ℕ → List ℕ
word tokens i = Option.get_or (get_elem? tokens i) []

-- ntokens counts the terminal token.
abbrev pub count_tokens : List (List ℕ) → ℕ
count_tokens tokens = length tokens + 1

-- The word after the key may be `0` or `noreply`, or the first and then the second.
unfoldable pub delete_valid : List (List ℕ) → Bool → Bool
delete_valid tokens sets_noreply =
    let hold_is_zero = bytes_eq (word tokens 2) (b'0' ∷ []) in
    count_tokens tokens == 4 && (hold_is_zero || sets_noreply)
    || count_tokens tokens == 5 && hold_is_zero && sets_noreply

module _ (env : Env) where
  unfoldable pub process_touch_command : List (List ℕ) → Server → Server
  process_touch_command tokens sv =
      let sv1 = (set_noreply_maybe tokens sv).1 in
      let key = word tokens 1 in
      if ltb key_max_length (length key)
      then out_string re_bad_line sv1
      else elim (safe_strtol (word tokens 2)) [
        | none ↦ out_string re_bad_exptime sv1
        | some exptime_int ↦
            let exptime =
              realtime sv1.process_started sv1.store.current_time (to_int 32 exptime_int) in
            let (found, st) = item_touch env key exptime sv1.store in
            elim found [
              | some p ↦
                  let sv2 = record sv1 { store = do_item_update p st } in
                  on_store (do_item_remove p) (
                    out_string re_touched (
                      on_slab (item_at sv2.store p).slabs_clsid
                        (λ s. record s { touch_hits = add64 s.touch_hits 1 })
                        (on_stats (λ s. record s { touch_cmds = add64 s.touch_cmds 1 }) sv2)))
              | none ↦ out_string re_not_found (
                  on_stats
                    (λ s. record s {
                      touch_cmds = add64 s.touch_cmds 1;
                      touch_misses = add64 s.touch_misses 1;
                    })
                    (record sv1 { store = st }))
            ]
      ]

  unfoldable pub process_arithmetic_command : List (List ℕ) → Bool → Server → Option Server
  process_arithmetic_command tokens incr sv =
      let sv1 = (set_noreply_maybe tokens sv).1 in
      let key = word tokens 1 in
      if ltb key_max_length (length key)
      then some (out_string re_bad_line sv1)
      else elim (safe_strtoull (word tokens 2)) [
        | none ↦ some (out_string re_bad_delta sv1)
        | some delta ↦
            Option.map
              (λ r.
                let (result, sv2) = r in
                elim result [
                  | delta_ok temp cas ↦ out_string (re_number temp) sv2
                  | delta_non_numeric ↦ out_string re_non_numeric sv2
                  | delta_eom ↦ out_string re_oom sv2
                  | delta_item_not_found ↦ out_string re_not_found (
                      on_stats
                        (λ s.
                          if incr
                          then record s { incr_misses = add64 s.incr_misses 1 }
                          else record s { decr_misses = add64 s.decr_misses 1 })
                        sv2)
                  | delta_item_cas_mismatch ↦ sv2
                ])
              (add_delta env key incr delta 0 sv1)
      ]

  unfoldable pub delete_key : Key → Server → Server
  delete_key key sv =
      let (found, st) = item_get env key sv.store in
      let sv1 = record sv {
        store = st;
        prefixes =
            if sv.store.settings.detail_enabled
            then stats_prefix_record_delete env.hash sv.store.settings.prefix_delimiter key
                sv.prefixes
            else sv.prefixes;
      } in
      elim found [
        | some p ↦ out_string re_deleted (
            on_store (λ s. do_item_remove p (item_unlink env p s))
              (on_slab (item_at st p).slabs_clsid
                (λ s. record s { delete_hits = add64 s.delete_hits 1 }) sv1))
        | none ↦
            out_string re_not_found
              (on_stats (λ s. record s { delete_misses = add64 s.delete_misses 1 }) sv1)
      ]

  unfoldable pub process_delete_command : List (List ℕ) → Server → Server
  process_delete_command tokens sv =
      let (sets_noreply, sv') = set_noreply_maybe tokens sv in
      let sv1 = if ltb 3 (count_tokens tokens) then sv' else sv in
      if ltb 3 (count_tokens tokens) && not (delete_valid tokens sets_noreply)
      then out_string re_delete_usage sv1
      else if ltb key_max_length (length (word tokens 1))
      then out_string re_bad_line sv1
      else delete_key (word tokens 1) sv1
