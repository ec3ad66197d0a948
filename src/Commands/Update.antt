-- ===== src/Commands/Update.antt =====
-- process_update_command of memcached-1.4/memcached.c: the command line of add, set, replace, append,
-- prepend and cas.
use reading_and_comprehense.Base.{
  ℕ, ◌+◌, ◌^◌, Bool, ◌||◌, Option, none, some, List, ltb, leb, if◌then◌else◌, length,
}
use mathlib.Core.Option
use reading_and_comprehense.Assoc.Chain.{Key}
use reading_and_comprehense.Memory.{item_set_cas, add32}
use reading_and_comprehense.Memory.Int.{ℤ, pos, lt_ℤ}
use reading_and_comprehense.Util.{safe_strtoull, safe_strtoul, safe_strtol}
use reading_and_comprehense.Stats.{stats_prefix_record_set}
use reading_and_comprehense.Items.{edit, do_item_remove}
use reading_and_comprehense.Items.Alloc.{Env, item_size_ok}
use reading_and_comprehense.Conn.{
  Nread, Server, on_store, on_conn, out_string, to_int, realtime, realtime_maxdelta,
  set_noreply_maybe, re_bad_line, re_too_large, re_oom_object, conn_nread, conn_swallow,
}
use reading_and_comprehense.Storage.{item_get, item_unlink, item_alloc}
use reading_and_comprehense.Commands.{key_max_length, word}

-- The numbers on the line of a storage command.
pub record UpdateLine : Type 0 where
  pub flags : ℕ
  pub exptime : ℤ
  pub vlen : ℕ
  pub req_cas_id : ℕ

unfoldable pub parse_update : List (List ℕ) → Bool → Option UpdateLine
parse_update tokens handle_cas = elim (safe_strtoul (word tokens 2)) [
  | none ↦ none
  | some flags ↦ elim (safe_strtol (word tokens 3)) [
    | none ↦ none
    | some exptime_int ↦ elim (safe_strtol (word tokens 4)) [
      | none ↦ none
      | some vlen ↦
          let exptime = to_int 32 exptime_int in
          let req = if handle_cas then safe_strtoull (word tokens 5) else some 0 in
          elim req [
            | none ↦ none
            | some req_cas_id ↦
                if leb (2 ^ 31) (add32 vlen 2) || leb (2 ^ 31) vlen
                then none
                else some (record {
                  flags = flags;
                  exptime = if lt_ℤ exptime (pos 0) then pos (realtime_maxdelta + 1) else exptime;
                  vlen = add32 vlen 2;
                  req_cas_id = req_cas_id;
                })
          ]
    ]
  ]
]

unfoldable pub update_accepted : ℕ → UpdateLine → Nread → Server → Server
update_accepted it line comm sv =
    on_conn
      (λ c. record c {
        item = some it;
        ritem = 0;
        rlbytes = line.vlen;
        cmd = comm;
        state = conn_nread;
      })
      (on_store (edit it (item_set_cas line.req_cas_id)) sv)

module _ (env : Env) where
  -- With no memory, a set takes the old value out, so that it is not read as the new one.
  unfoldable pub update_refused : Key → UpdateLine → Nread → Server → Server
  update_refused key line comm sv =
      let reply =
        if item_size_ok sv.store (length key) line.flags line.vlen
        then re_oom_object
        else re_too_large in
      let sv1 =
        on_conn (λ c. record c { write_and_go = conn_swallow; sbytes = line.vlen })
          (out_string reply sv) in
      let (found, st) = item_get env key sv1.store in
      let dropped : Server = record sv1 {
        store = elim found [ none ↦ st | some p ↦ do_item_remove p (item_unlink env p st) ];
      } in
      elim comm [ Nread.set ↦ dropped | _ ↦ sv1 ]

  unfoldable pub process_update_command : List (List ℕ) → Nread → Bool → Server → Option Server
  process_update_command tokens comm handle_cas sv =
      let sv1 = (set_noreply_maybe tokens sv).1 in
      let key = word tokens 1 in
      if ltb key_max_length (length key)
      then some (out_string re_bad_line sv1)
      else elim (parse_update tokens handle_cas) [
        | none ↦ some (out_string re_bad_line sv1)
        | some line ↦
            let exptime = realtime sv1.process_started sv1.store.current_time line.exptime in
            Option.map
              (λ r.
                let (it, st) = r in
                let sv2 = record sv1 {
                  store = st;
                  prefixes =
                      if st.settings.detail_enabled
                      then stats_prefix_record_set env.hash st.settings.prefix_delimiter key
                          sv1.prefixes
                      else sv1.prefixes;
                } in
                elim it [
                  | none ↦ update_refused key line comm sv2
                  | some p ↦ update_accepted p line comm sv2
                ])
              (item_alloc env key line.flags exptime line.vlen sv1.store)
      ]
