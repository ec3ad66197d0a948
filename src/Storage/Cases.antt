-- ===== src/Storage/Cases.antt =====
-- What do_store_item of memcached-1.4/memcached.c does with a key that is not there, and with one that
-- is, for add, set, replace and cas.
use reading_and_comprehense.Base.{
  ℕ, ◌^◌, ◌<◌, ◌≤◌, ◌≡◌, ◌≢◌, refl, ap, ◌∙◌, Bool, true, false, none, some, arith, ◌==◌,
  if◌then◌else◌, bytes_eq, bytes_eq_refl, inl, inr, ◌&&◌, not,
}
use reading_and_comprehense.Assoc.Chain.{Key}
use reading_and_comprehense.Memory.{item_get_cas}
use reading_and_comprehense.Items.{
  Store, item_at, do_item_link, do_item_remove, do_item_replace, do_item_update,
}
use reading_and_comprehense.Items.Consistent.{Consistent, stored}
use reading_and_comprehense.Items.Get.{Room, dead, Hit, Missed}
use reading_and_comprehense.Items.Update.{do_item_update-Updated, do_item_update-Consistent}
use reading_and_comprehense.Items.Remove.{do_item_remove-Released, do_item_remove-Consistent}
use reading_and_comprehense.Items.Alloc.{Env}
use reading_and_comprehense.Conn.{Nread, StoreResult, Server}
use reading_and_comprehense.Storage.{
  finish_store, link_or_replace, store_cas, store_absent, store_present,
}
use reading_and_comprehense.Storage.Effects.{Placed, link-Placed, replace-Placed}

-- The commands that store the item itself, and no other made from it.
unfoldable pub alone : Nread → Bool
alone Nread.append = false
alone Nread.prepend = false
alone _ = true

-- What a command answers, by whether its key is there to be read and has the CAS that the item has.
unfoldable pub outcome : Nread → Bool → Bool → StoreResult
outcome Nread.add present same = if present then StoreResult.not_stored else StoreResult.stored
outcome Nread.set present same = StoreResult.stored
outcome Nread.cas present same =
    if present
    then (if same then StoreResult.stored else StoreResult.exists)
    else StoreResult.not_found
outcome _ present same = if present then StoreResult.stored else StoreResult.not_stored

module _ (hash : Key → ℕ) (st : Store) (it : ℕ) where
  abbrev pub key_of : Key
  key_of = (item_at st it).key

  -- The key is stored, and not flushed, expired or in a page that moves.
  unfoldable pub live : Bool
  live = elim (stored hash st key_of) [ none ↦ false | some p ↦ not (dead st p) ]

  unfoldable pub cas_matches : Bool
  cas_matches = elim (stored hash st key_of) [
    | none ↦ false
    | some p ↦ item_get_cas (item_at st it) == item_get_cas (item_at st p)
  ]

  -- Nothing is stored; a key that is there but not live has been taken out.
  pub record Kept (st' : Store) : Type 0 where
    pub table :
        (q : Key)
        → stored hash st' q ≡ (if not live && bytes_eq key_of q then none else stored hash st q)
    pub item : item_at st' it ≡ item_at st it
    pub consistent : Consistent hash st'

  abbrev pub Effect : StoreResult → Store → Type 0
  Effect StoreResult.stored st' = Placed hash st it st'
  Effect _ st' = Kept st'

module _ (hash : Key → ℕ) (sv : Server) (it : ℕ) where
  abbrev st : Store
  st = sv.store

  abbrev pub hv : ℕ
  hv = hash (item_at st it).key

  module _ (st1 : Store) (out : (item_at st it).flags.linked ≡ false) (c : Consistent hash st)
      (room : Room st) where
    abbrev sv1 : Server
    sv1 = record sv { store = st1 }

    module _ (m : Missed hash st (item_at st it).key st1) where
      pub not_live : live hash st it ≡ false
      unfolding live
      not_live = elim m.why [ inl e ↦ ground (arith, e) | inr (p, e, d) ↦ ground (arith, e, d) ]

      it_same : item_at st1 it ≡ item_at st it
      it_same = m.others it (λ e. ground (arith, out, (c.found (item_at st it).key it e).0))

      kept : Kept hash st it st1
      kept = record {
        table = λ q. ground (arith, m.table q, not_live);
        item = it_same;
        consistent = m.consistent;
      }

      placed : Placed hash st it (do_item_link it hv st1)
      placed =
          let p : Placed hash st1 it (do_item_link it hv st1) = rw (ap (λ i. i.key) it_same) at (
            link-Placed hash st1 it m.consistent (record {
              unlinked = ground (arith, it_same, out);
              absent =
                  ground (
                    arith,
                    it_same,
                    m.table (item_at st it).key,
                    bytes_eq_refl (item_at st it).key,
                  );
              room = ground (arith, it_same, room it);
            })) in
          record {
            table = λ q. ground (arith, p.table q, m.table q, it_same);
            value = ground (arith, p.value, it_same);
            held = ground (arith, p.held, it_same);
            consistent = p.consistent;
          }

      pub absent_outcome :
          (comm : Nread) (same : Bool)
          → ((store_absent comm it hv sv1).0 ≡ outcome comm false same)
            × Effect hash st it (outcome comm false same) (store_absent comm it hv sv1).1.store
      unfolding store_absent outcome finish_store link_or_replace
      absent_outcome Nread.add same = (refl, placed)
      absent_outcome Nread.set same = (refl, placed)
      absent_outcome Nread.replace same = (refl, kept)
      absent_outcome Nread.append same = (refl, kept)
      absent_outcome Nread.prepend same = (refl, kept)
      absent_outcome Nread.cas same = (refl, kept)

    module _ (p : ℕ) (m : Hit hash st (item_at st it).key p st1) where
      p_found : ((item_at st p).flags.linked ≡ true) × ((item_at st p).key ≡ (item_at st it).key)
      p_found = c.found (item_at st it).key p m.stored_here

      p_other : it ≢ p
      p_other e = ground (arith, e, out, p_found.0)

      hit_same : item_at st1 it ≡ item_at st it
      hit_same = m.others it p_other

      pub is_live : live hash st it ≡ true
      unfolding live
      is_live = ground (arith, m.stored_here, m.live)

      same_cas :
          (item_get_cas (item_at st1 it) == item_get_cas (item_at st1 p)) ≡ cas_matches hash st it
      unfolding cas_matches item_get_cas
      same_cas = ground (arith, hit_same, m.item, m.stored_here)

      p_linked : (item_at st1 p).flags.linked ≡ true
      p_linked = ground (arith, m.item, p_found)

      p_narrow : (item_at st1 p).refcount < 2 ^ 16
      p_narrow = ground (arith, m.item, room p)

      p_held : 2 ≤ (item_at st1 p).refcount
      p_held = ground (arith, m.item, c.held p p_found.0)

      -- The reference that the lookup took is given back.
      Kept-hit :
          (s : Store)
          → Consistent hash s
          → s.assoc ≡ st1.assoc
          → (item_at s p).refcount ≡ (item_at st1 p).refcount
          → ((q : ℕ) → q ≢ p → item_at s q ≡ item_at st1 q)
          → Kept hash st it (do_item_remove p s)
      Kept-hit s cs assoc_same ref others =
          let narrow : (item_at s p).refcount < 2 ^ 16 = omega (arith, ref, p_narrow) in
          let held : 1 ≤ (item_at s p).refcount = omega (arith, ref, p_held) in
          let r = do_item_remove-Released s p held narrow in
          record {
            table = λ q. ground (arith, r.assoc, assoc_same, m.assoc, is_live);
            item = ground (arith, r.others it p_other, others it p_other, hit_same);
            consistent =
                do_item_remove-Consistent hash s p cs narrow held (λ l. omega (arith, ref, p_held));
          }

      unchanged : Kept hash st it (do_item_remove p st1)
      unchanged = Kept-hit st1 m.consistent refl refl (λ q ne. refl)

      updated : Kept hash st it (do_item_remove p (do_item_update p st1))
      updated =
          let u = do_item_update-Updated st1 p in
          Kept-hit (do_item_update p st1) (do_item_update-Consistent st1 p hash m.consistent)
            u.assoc (ground (arith, u.here)) u.others

      replaced : Placed hash st it (do_item_remove p (do_item_replace p it hv st1))
      replaced =
          let r : Placed hash st1 it (do_item_remove p (do_item_replace p it hv st1)) =
            rw (ap (λ i. i.key) hit_same) at (
              replace-Placed hash st1 it m.consistent p p_linked (ground (arith, hit_same, out))
                (ground (arith, m.item, hit_same, p_found)) (ground (arith, hit_same, room it))
                p_narrow p_held) in
          record {
            table = λ q. ground (arith, r.table q, hit_same, m.assoc);
            value = ground (arith, r.value, hit_same);
            held = ground (arith, r.held, hit_same);
            consistent = r.consistent;
          }

      CasOutcome : Bool → Type 0
      CasOutcome same =
          ((store_cas p it hv sv1).0 ≡ outcome Nread.cas true same)
          × Effect hash st it (outcome Nread.cas true same) (store_cas p it hv sv1).1.store

      cas_outcome : (same : Bool) → cas_matches hash st it ≡ same → CasOutcome same
      unfolding CasOutcome store_cas outcome finish_store
      cas_outcome true e = rw (same_cas ∙ e) (refl, replaced)
      cas_outcome false e = rw (same_cas ∙ e) (refl, unchanged)

      abbrev pub PresentOutcome : Env → Nread → Bool → Type 0
      PresentOutcome env comm same =
          (r : StoreResult × Server) × (store_present env comm p it hv sv1 ≡ some r)
          × (r.0 ≡ outcome comm true same)
          × Effect hash st it (outcome comm true same) r.1.store

      pub present_outcome :
          (env : Env) (comm : Nread)
          → alone comm ≡ true
          → PresentOutcome env comm (cas_matches hash st it)
      unfolding store_present outcome finish_store link_or_replace alone CasOutcome
      present_outcome env Nread.add h = (_, refl, refl, updated)
      present_outcome env Nread.set h = (_, refl, refl, replaced)
      present_outcome env Nread.replace h = (_, refl, refl, replaced)
      present_outcome env Nread.append h = absurd (ground (arith, h))
      present_outcome env Nread.prepend h = absurd (ground (arith, h))
      present_outcome env Nread.cas h =
          let o = cas_outcome (cas_matches hash st it) refl in
          (store_cas p it hv sv1, refl, o.0, o.1)
