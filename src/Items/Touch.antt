-- ===== src/Items/Touch.antt =====
-- do_item_touch of memcached-1.4/items.c: a lookup that sets the expiry time.
use reading_and_comprehense.Base.{ℕ, ◌+◌, ◌≡◌, ◌≢◌, refl, true, false, Option, none, some, arith}
use reading_and_comprehense.Assoc.Chain.{Key}
use reading_and_comprehense.Items.{Store, item_at, edit, do_item_get, do_item_touch}
use reading_and_comprehense.Items.Consistent.{Consistent, stored}
use reading_and_comprehense.Items.Get.{
  edit-Consistent, Room, dead, Missed, GetResult, do_item_get-GetResult,
}

pub record Touched (hash : Key → ℕ) (st : Store) (key : Key) (exptime p : ℕ) (st' : Store)
    : Type 0 where
  pub stored_here : stored hash st key ≡ some p
  pub live : dead st p ≡ false
  pub item : item_at st' p ≡ record (item_at st p) {
    refcount = (item_at st p).refcount + 1;
    flags = record ((item_at st p).flags) { fetched = true };
    exptime = exptime;
  }
  pub others : (q : ℕ) → q ≢ p → item_at st' q ≡ item_at st q
  pub table : (q : Key) → stored hash st' q ≡ stored hash st q
  pub consistent : Consistent hash st'

abbrev pub TouchResult : (Key → ℕ) → Store → Key → ℕ → Option ℕ × Store → Type 0
TouchResult hash st key exptime (some p, st') = Touched hash st key exptime p st'
TouchResult hash st key exptime (none, st') = Missed hash st key st'

module _ (hash : Key → ℕ) (st : Store) (key : Key) (exptime : ℕ) (c : Consistent hash st)
    (room : Room st) where
  after_get : Option ℕ × Store → Option ℕ × Store
  after_get (none, st1) = (none, st1)
  after_get (some p, st1) = (some p, edit p (λ it. record it { exptime = exptime }) st1)

  after_eta :
      (g : Option ℕ × Store)
      → ◌≡◌ {A = Option ℕ × Store}
          (elim g.0 [
            | none ↦ (none, g.1)
            | some p ↦ (some p, edit p (λ it. record it { exptime = exptime }) g.1)
          ])
          (after_get g)
  unfolding after_get
  after_eta (none, st1) = refl
  after_eta (some p, st1) = refl

  touch_is : do_item_touch key exptime (hash key) st ≡ after_get (do_item_get key (hash key) st)
  unfolding do_item_touch
  touch_is = after_eta (do_item_get key (hash key) st)

  touched :
      (g : Option ℕ × Store)
      → GetResult hash st key g
      → TouchResult hash st key exptime (after_get g)
  unfolding after_get
  touched (none, st1) m = m
  touched (some p, st1) m = record {
    stored_here = m.stored_here;
    live = m.live;
    item = ground (arith, m.item);
    others = λ q ne. ground (arith, m.others q ne);
    table = λ q. ground (arith, m.assoc);
    consistent =
        edit-Consistent hash st1 p (λ it. record it { exptime = exptime }) m.consistent
          (record { linked = refl; key = refl; class = refl; held = m.consistent.held p });
  }

  -- do_item_touch on a consistent store is a hit where do_item_get is one: the item has the new expiry
  -- time, one more reference and the mark of a fetch, and no other item and no key changes. A miss is a
  -- miss of do_item_get.
  pub do_item_touch-TouchResult :
      TouchResult hash st key exptime (do_item_touch key exptime (hash key) st)
  do_item_touch-TouchResult =
      rw touch_is
        (touched (do_item_get key (hash key) st) (do_item_get-GetResult hash st key c room))
