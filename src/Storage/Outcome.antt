-- ===== src/Storage/Outcome.antt =====
-- do_store_item of memcached-1.4/memcached.c for add, set, replace and cas: which commands store the
-- item, and what the table holds afterwards.
use reading_and_comprehense.Base.{
  ℕ, ◌≡◌, refl, ap, ◌∙◌, true, false, Option, none, some, arith, ◌==◌, Bool-cases, inl, inr,
}
use reading_and_comprehense.Assoc.Chain.{Key}
use reading_and_comprehense.Memory.{item_get_cas}
use reading_and_comprehense.Items.{Store, item_at, do_item_get}
use reading_and_comprehense.Items.Consistent.{Consistent}
use reading_and_comprehense.Items.Get.{Room, GetResult, do_item_get-GetResult}
use reading_and_comprehense.Items.Alloc.{Env}
use reading_and_comprehense.Conn.{Nread, StoreResult, Server}
use reading_and_comprehense.Storage.{
  store_absent, store_present, store_cas, finish_store, link_or_replace, do_store_item,
}
use reading_and_comprehense.Storage.Cases.{
  alone, outcome, key_of, live, cas_matches, Effect, not_live, absent_outcome, present_outcome,
  is_live,
}

-- The CAS that the connection has after do_store_item, with the one before.
unfoldable pub cas_after : ℕ → ℕ → StoreResult × Server → ℕ
cas_after it before (StoreResult.stored, sv) = item_get_cas (item_at sv.store it)
cas_after it before (_, sv) = before

-- The connection is left as it was, but for the CAS of a stored item.
abbrev pub SameConn : ℕ → Server → StoreResult × Server → Type 0
SameConn it sv r = r.1.conn ≡ record (sv.conn) { cas = cas_after it sv.conn.cas r }

SameConn-if : ℕ → Server → Option (StoreResult × Server) → Type 0
SameConn-if it sv none = Unit
SameConn-if it sv (some r) = SameConn it sv r

absent_conn : (comm : Nread) (it hv : ℕ) (sv : Server) → SameConn it sv (store_absent comm it hv sv)
unfolding store_absent finish_store link_or_replace cas_after
absent_conn Nread.add it hv sv = refl
absent_conn Nread.set it hv sv = refl
absent_conn Nread.replace it hv sv = refl
absent_conn Nread.append it hv sv = refl
absent_conn Nread.prepend it hv sv = refl
absent_conn Nread.cas it hv sv = refl

cas_conn : (o it hv : ℕ) (sv : Server) → SameConn it sv (store_cas o it hv sv)
unfolding store_cas finish_store cas_after
cas_conn o it hv sv =
    elim (Bool-cases (item_get_cas (item_at sv.store it) == item_get_cas (item_at sv.store o))) [
      | inl e ↦ rw e refl
      | inr e ↦ rw e refl
    ]

present_conn :
    (env : Env) (comm : Nread) (o it hv : ℕ) (sv : Server)
    → alone comm ≡ true
    → SameConn-if it sv (store_present env comm o it hv sv)
unfolding SameConn-if store_present finish_store link_or_replace alone cas_after
present_conn env Nread.add o it hv sv h = refl
present_conn env Nread.set o it hv sv h = refl
present_conn env Nread.replace o it hv sv h = refl
present_conn env Nread.append o it hv sv h = absurd (ground (arith, h))
present_conn env Nread.prepend o it hv sv h = absurd (ground (arith, h))
present_conn env Nread.cas o it hv sv h = cas_conn o it hv sv

module _ (env : Env) (sv : Server) (it : ℕ) (comm : Nread) where
  abbrev hash : Key → ℕ
  hash = env.hash

  -- What do_store_item has to do.
  pub record StoreOutcome : Type 0 where
    pub result : StoreResult × Server
    pub returns : do_store_item env it comm (hash (key_of hash sv.store it)) sv ≡ some result
    pub answer : result.0 ≡ outcome comm (live hash sv.store it) (cas_matches hash sv.store it)
    pub effect : Effect hash sv.store it result.0 result.1.store
    pub conn : SameConn it sv result

  -- do_store_item from the lookup on.
  after_get : Option ℕ × Store → Option (StoreResult × Server)
  after_get (none, st1) =
      some (store_absent comm it (hash (key_of hash sv.store it)) (record sv { store = st1 }))
  after_get (some o, st1) =
      store_present env comm o it (hash (key_of hash sv.store it)) (record sv { store = st1 })

  after_eta :
      (g : Option ℕ × Store)
      → ◌≡◌ {A = Option (StoreResult × Server)}
          (elim g.0 [
            | none ↦
                some (
                  store_absent comm it (hash (key_of hash sv.store it)) (record sv { store = g.1 }))
            | some o ↦
                store_present env comm o it
                  (hash (key_of hash sv.store it))
                  (record sv { store = g.1 })
          ])
          (after_get g)
  unfolding after_get
  after_eta (none, st1) = refl
  after_eta (some o, st1) = refl

  after_get_lem :
      do_store_item env it comm (hash (key_of hash sv.store it)) sv
      ≡ after_get (do_item_get (key_of hash sv.store it) (hash (key_of hash sv.store it)) sv.store)
  unfolding do_store_item after_get
  after_get_lem =
      after_eta (do_item_get (key_of hash sv.store it) (hash (key_of hash sv.store it)) sv.store)

  module _ (out : (item_at sv.store it).flags.linked ≡ false) (c : Consistent hash sv.store)
      (room : Room sv.store) where
    by_lookup :
        alone comm ≡ true
        → (found : Option ℕ) (st1 : Store)
        → do_item_get (key_of hash sv.store it) (hash (key_of hash sv.store it)) sv.store
          ≡ (found, st1)
        → GetResult hash sv.store (key_of hash sv.store it) (found, st1)
        → StoreOutcome
    unfolding after_get SameConn-if cas_after
    by_lookup h none st1 e m =
        let o = absent_outcome hash sv it st1 out c room m comm (cas_matches hash sv.store it) in
        record {
          result =
              store_absent comm it (hash (key_of hash sv.store it)) (record sv { store = st1 });
          returns = after_get_lem ∙ ap after_get e;
          answer = rw (not_live hash sv it st1 out c room m) o.0;
          effect = rw o.0 o.1;
          conn = absent_conn comm it (hash (key_of hash sv.store it)) (record sv { store = st1 });
        }
    by_lookup h (some p) st1 e m =
        let (r, eq, answer, effect) = present_outcome hash sv it st1 out c room p m env comm h in
        record {
          result = r;
          returns = after_get_lem ∙ ap after_get e ∙ eq;
          answer = rw (is_live hash sv it st1 out c room p m) answer;
          effect = rw answer effect;
          conn = rw eq at (
              present_conn env comm p it (hash (key_of hash sv.store it))
                (record sv { store = st1 }) h);
        }

    -- do_store_item on a consistent store, for an item that is not linked and a command other than
    -- append and prepend: add stores the item where its key is absent or not live, replace where it is
    -- live, set always, and cas where it is live and has the same CAS; the answer is NOT_STORED, or for
    -- cas NOT_FOUND and EXISTS, otherwise. A stored item is what the table has for its key, with its
    -- data, and no other key changes; without it the table keeps the live items. The store stays
    -- consistent, and the connection as it was but for the CAS of a stored item.
    pub do_store_item-outcome : alone comm ≡ true → StoreOutcome
    do_store_item-outcome h =
        by_lookup h _ _ refl (do_item_get-GetResult hash sv.store (key_of hash sv.store it) c room)
