-- ===== src/Binary/Stored.antt =====
-- complete_update_bin of memcached-1.4/memcached.c on a consistent store: a binary add, set or replace whose
-- value has arrived.
use reading_and_comprehense.Base.{
  ℕ, ◌-◌, ◌≡◌, refl, ap, ◌∙◌, Bool, if◌then◌else◌, true, false, none, some, arith,
}
use mathlib.Core.Option
use mathlib.Core.Path.{subst}
use reading_and_comprehense.Memory.{add64}
use reading_and_comprehense.Items.{Store, item_at, do_item_remove}
use reading_and_comprehense.Items.Consistent.{Consistent}
use reading_and_comprehense.Items.Get.{Room, edit-Consistent}
use reading_and_comprehense.Items.Alloc.{Env}
use reading_and_comprehense.Conn.{Nread, StoreResult, Server, Conn, on_store, on_slab}
use reading_and_comprehense.Storage.{store_item, write_value, write_at, crlf}
use reading_and_comprehense.Storage.Cases.{alone, outcome, live, cas_matches, Effect}
use reading_and_comprehense.Storage.Outcome.{do_store_item-outcome, cas_after}
use reading_and_comprehense.Binary.{BinStatus, BinServer, on_server}
use reading_and_comprehense.Binary.Update.{
  complete_update_bin, answer_store, store_error, finish_update,
}
use reading_and_comprehense.Binary.Told.{
  Told, error_store, response_store, response-Told, error-Told,
}

-- The status that the client is promised for a command that stores the item itself, by whether its key
-- is there to be read and has the CAS that the item has.
unfoldable pub promised : Nread → Bool → Bool → BinStatus
promised Nread.add present same = if present then BinStatus.key_eexists else BinStatus.success
promised Nread.replace present same = if present then BinStatus.success else BinStatus.key_enoent
promised Nread.cas present same =
    if present
    then (if same then BinStatus.success else BinStatus.key_eexists)
    else BinStatus.key_enoent
promised _ present same = BinStatus.success

abbrev store_status : StoreResult → Nread → BinStatus
store_status StoreResult.stored comm = BinStatus.success
store_status result comm = store_error result comm

status-promised :
    (comm : Nread) (present same : Bool)
    → alone comm ≡ true
    → store_status (outcome comm present same) comm ≡ promised comm present same
unfolding store_error outcome promised alone
status-promised Nread.add true same h = refl
status-promised Nread.add false same h = refl
status-promised Nread.set present same h = refl
status-promised Nread.replace true same h = refl
status-promised Nread.replace false same h = refl
status-promised Nread.append present same h = absurd (ground (arith, h))
status-promised Nread.prepend present same h = absurd (ground (arith, h))
status-promised Nread.cas true true h = refl
status-promised Nread.cas true false h = refl
status-promised Nread.cas false same h = refl

-- The store once the CRLF is behind the value.
abbrev pub ready : ℕ → Store → Store
ready it st = write_value it ((item_at st it).nbytes - 2) crlf st

answer_store-Told :
    (comm : Nread) (result : StoreResult) (b : BinServer)
    → Told b.bin b.server.conn (store_status result comm) (answer_store comm result b)
unfolding answer_store store_error
answer_store-Told comm StoreResult.stored b = response-Told b
answer_store-Told comm StoreResult.exists b = error-Told _ b refl refl
answer_store-Told comm StoreResult.not_found b = error-Told _ b refl refl
answer_store-Told Nread.add StoreResult.not_stored b = error-Told _ b refl refl
answer_store-Told Nread.set StoreResult.not_stored b = error-Told _ b refl refl
answer_store-Told Nread.replace StoreResult.not_stored b = error-Told _ b refl refl
answer_store-Told Nread.append StoreResult.not_stored b = error-Told _ b refl refl
answer_store-Told Nread.prepend StoreResult.not_stored b = error-Told _ b refl refl
answer_store-Told Nread.cas StoreResult.not_stored b = error-Told _ b refl refl

-- The end of the update on a connection that do_store_item has left as `conn`.
finish-Told :
    (it : ℕ) (comm : Nread) (r : StoreResult × Server) (b : BinServer) (conn : Conn)
    (err : BinStatus)
    → r.1.conn ≡ conn
    → store_status r.0 comm ≡ err
    → Told b.bin conn err (finish_update it comm r b)
unfolding finish_update
finish-Told it comm (result, sv) b conn err same status =
    let after = finish_update it comm (result, sv) b in
    subst (λ c. Told b.bin c err after) same
      (subst (λ s. Told b.bin sv.conn s after) status
        (answer_store-Told comm result (on_server (λ _. sv) b)))

answer_store_same :
    (comm : Nread) (result : StoreResult) (b : BinServer)
    → (answer_store comm result b).server.store ≡ b.server.store
unfolding answer_store
answer_store_same comm StoreResult.stored b = response_store b
answer_store_same comm StoreResult.exists b = error_store _ b
answer_store_same comm StoreResult.not_found b = error_store _ b
answer_store_same comm StoreResult.not_stored b = error_store _ b

module _ (env : Env) (b : BinServer) (it : ℕ) where
  -- What complete_update_bin has to do: the result and the store are those that do_store_item promises
  -- for the item with its CRLF, before the reference of the connection is dropped.
  pub record UpdateDone (comm : Nread) : Type 0 where
    pub result : StoreResult
    pub stored : Server
    pub after : BinServer
    pub returns : complete_update_bin env it b ≡ some after
    pub answer :
        result
        ≡ outcome comm
            (live env.hash (ready it b.server.store) it)
            (cas_matches env.hash (ready it b.server.store) it)
    pub effect : Effect env.hash (ready it b.server.store) it result stored.store
    pub released : after.server.store ≡ do_item_remove it stored.store
    pub told :
        Told b.bin
          (record (b.server.conn) { cas = cas_after it b.server.conn.cas (result, stored) })
          (promised comm
            (live env.hash (ready it b.server.store) it)
            (cas_matches env.hash (ready it b.server.store) it))
          after
    pub no_item : after.server.conn.item ≡ none

  ready-Consistent :
      Consistent env.hash b.server.store → Consistent env.hash (ready it b.server.store)
  ready-Consistent c =
      edit-Consistent env.hash b.server.store it
        (λ i. record i { value = write_at ((item_at b.server.store it).nbytes - 2) crlf i.value }) c
        (record { linked = refl; key = refl; class = refl; held = λ l. c.held it l })

  ready-Room : Room b.server.store → Room (ready it b.server.store)
  ready-Room room p = ground (arith, room p)

  abbrev counted : Server
  counted = on_store (ready it) (
      on_slab (item_at b.server.store it).slabs_clsid
        (λ s. record s { set_cmds = add64 s.set_cmds 1 }) b.server)

  -- A binary add, set, replace or cas whose value has arrived, on a consistent store and for an item that
  -- is not linked, stores the item with a CRLF behind its value exactly where do_store_item does, with
  -- the same effect on the table, and drops the reference of the connection. The answer is one packet
  -- with the CAS of a stored item: for a set a success; for add one unless the key is live, and else an
  -- error that the key exists; for replace one if the key is live, and else an error that it is not
  -- there; for cas one if the key is live with that CAS, and else the error that it has another or is
  -- not there. A quiet command (neither get nor getk) is sent nothing for a success.
  pub complete_update_bin-UpdateDone :
      (item_at b.server.store it).flags.linked ≡ false
      → Consistent env.hash b.server.store
      → Room b.server.store
      → alone b.server.conn.cmd ≡ true
      → UpdateDone b.server.conn.cmd
  unfolding complete_update_bin store_item finish_update
  complete_update_bin-UpdateDone out c room a =
      let comm = b.server.conn.cmd in
      let o =
        do_store_item-outcome env counted it comm (ground (arith, out)) (ready-Consistent c)
          (ready-Room room) a in
      record {
        result = o.result.0;
        stored = o.result.1;
        after = finish_update it comm o.result b;
        returns = ap (Option.map (λ r. finish_update it comm r b)) o.returns;
        answer = o.answer;
        effect = o.effect;
        released = ap (do_item_remove it) (answer_store_same comm o.result.0 _);
        told =
            finish-Told it comm o.result b _ _ o.conn
              (ap (λ r. store_status r comm) o.answer ∙ status-promised comm _ _ a);
        no_item = refl;
      }
