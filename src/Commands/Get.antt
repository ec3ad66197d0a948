-- ===== src/Commands/Get.antt =====
-- The commands get and gets of memcached-1.4/memcached.c. The pieces of the answer are copied when the
-- command runs.
use reading_and_comprehense.Base.{
  ℕ, zero, suc, ◌-◌, Bool, true, false, Option, none, some, List, [], ◌∷◌, ◌++◌, ltb, if◌then◌else◌,
  length, take, drop,
}
use reading_and_comprehense.Assoc.Chain.{Key}
use reading_and_comprehense.Memory.{Item, item_get_cas, add64}
use reading_and_comprehense.Util.{decimal}
use reading_and_comprehense.Stats.{stats_prefix_record_get}
use reading_and_comprehense.Items.{Store, item_at, do_item_remove, do_item_update}
use reading_and_comprehense.Items.Alloc.{Env}
use reading_and_comprehense.Conn.{
  Server, on_store, on_conn, on_stats, on_slab, out_string, tokenize_command, re_bad_line,
  conn_mwrite,
}
use reading_and_comprehense.Storage.{item_get, item_data}
use reading_and_comprehense.Commands.{key_max_length}

abbrev pub value_word : List ℕ
value_word = b'V' ∷ b'A' ∷ b'L' ∷ b'U' ∷ b'E' ∷ b' ' ∷ []

abbrev pub end_line : List ℕ
end_line = b'E' ∷ b'N' ∷ b'D' ∷ 13 ∷ 10 ∷ []

-- The pieces of the answer for one item.
unfoldable pub answer_of : Bool → Item → List (List ℕ)
answer_of return_cas it =
    if return_cas
    then value_word
      ∷ it.key
      ∷ take (length it.suffix - 2) it.suffix
      ∷ (b' ' ∷ (decimal (item_get_cas it) ++ 13 ∷ 10 ∷ []))
      ∷ item_data it
      ∷ []
    else value_word ∷ it.key ∷ (it.suffix ++ item_data it) ∷ []

pub data GetStep : Type 0 where
  go : Server → GetStep
  stopped : Server → GetStep

unfoldable pub remove_all : List ℕ → Store → Store
remove_all [] st = st
remove_all (p ∷ ps) st = remove_all ps (do_item_remove p st)

-- A key is too long: the items that are held are given back.
unfoldable pub get_stop : Server → Server
get_stop sv =
    let sv1 = out_string re_bad_line sv in
    on_conn (λ c. record c { ilist = [] }) (on_store (remove_all sv1.conn.ilist) sv1)

unfoldable pub get_hit : Bool → ℕ → Server → Server
get_hit return_cas p sv =
    let it = item_at sv.store p in
    let sv1 = on_conn (λ c. record c { iov = c.iov ++ answer_of return_cas it }) sv in
    let sv2 =
      on_stats (λ s. record s { get_cmds = add64 s.get_cmds 1 })
        (on_slab it.slabs_clsid (λ s. record s { get_hits = add64 s.get_hits 1 }) sv1) in
    on_conn (λ c. record c { ilist = p ∷ c.ilist }) (on_store (do_item_update p) sv2)

unfoldable pub get_miss : Server → Server
get_miss sv =
    on_stats (λ s. record s { get_misses = add64 s.get_misses 1; get_cmds = add64 s.get_cmds 1 }) sv

unfoldable pub get_end : GetStep → Server
get_end (stopped sv) = sv
get_end (go sv) = on_conn (λ c. record c { iov = c.iov ++ end_line ∷ []; state = conn_mwrite }) sv

module _ (env : Env) where
  -- One key of a get.
  unfoldable pub get_key : Bool → Key → Server → GetStep
  get_key return_cas key sv =
      let (found, st) = item_get env key sv.store in
      let detail = sv.store.settings.detail_enabled in
      let is_hit : Bool = elim found [ none ↦ false | some p ↦ true ] in
      let sv1 = record sv {
        store = st;
        prefixes =
            if detail
            then stats_prefix_record_get env.hash sv.store.settings.prefix_delimiter key is_hit
                sv.prefixes
            else sv.prefixes;
      } in
      if ltb key_max_length (length key)
      then stopped (get_stop sv)
      else go (elim found [ none ↦ get_miss sv1 | some p ↦ get_hit return_cas p sv1 ])

  unfoldable pub get_keys : Bool → List Key → Server → GetStep
  get_keys return_cas [] sv = go sv
  get_keys return_cas (key ∷ keys) sv = elim (get_key return_cas key sv) [
    | stopped sv1 ↦ stopped sv1
    | go sv1 ↦ get_keys return_cas keys sv1
  ]

  -- The outer loop: the command is tokenized 7 tokens at a time. Each round uses at least one byte of
  -- the command, so its length is fuel enough.
  unfoldable pub get_rounds : Bool → ℕ → List Key → Option (List ℕ) → Server → GetStep
  get_rounds return_cas fuel keys none sv = get_keys return_cas keys sv
  get_rounds return_cas zero keys (some rest) sv = get_keys return_cas keys sv
  get_rounds return_cas (suc fuel) keys (some rest) sv = elim (get_keys return_cas keys sv) [
    | stopped sv1 ↦ stopped sv1
    | go sv1 ↦
        let (tokens, rest') = tokenize_command rest in get_rounds return_cas fuel tokens rest' sv1
  ]

  unfoldable pub process_get_command : List (List ℕ) → Option (List ℕ) → Bool → Server → Server
  process_get_command tokens rest return_cas sv =
      let fuel : ℕ = elim rest [ none ↦ 0 | some r ↦ length r ] in
      get_end (
        get_rounds return_cas fuel (drop 1 tokens) rest (on_conn (λ c. record c { ilist = [] }) sv))
