-- ===== src/Storage/Effects.antt =====
-- What linking an item, in place of another or anew, does to the table and the items in
-- memcached-1.4/memcached.c.
use reading_and_comprehense.Base.{
  ℕ, ◌+◌, ◌^◌, ◌<◌, ◌≤◌, ◌≡◌, ◌≢◌, refl, sym, ap, true, false, some, arith, if◌then◌else◌, bytes_eq,
  bytes_eq_refl,
}
use reading_and_comprehense.Assoc.Chain.{Key}
use reading_and_comprehense.Items.{
  Store, item_at, do_item_link, do_item_unlink, do_item_remove, do_item_replace,
}
use reading_and_comprehense.Items.Consistent.{Consistent, stored}
use reading_and_comprehense.Items.Link.{
  Linkable, Linked, do_item_link-Linked, do_item_link-Consistent,
}
use reading_and_comprehense.Items.Remove.{
  Released, do_item_remove-Released, do_item_remove-Consistent, Unlinked, do_item_unlink-Unlinked,
}

-- The item `it` is what the table has for its key, its data is unchanged, and no other key has changed.
pub record Placed (hash : Key → ℕ) (st : Store) (it : ℕ) (st' : Store) : Type 0 where
  pub table :
      (q : Key)
      → stored hash st' q ≡ (if bytes_eq (item_at st it).key q then some it else stored hash st q)
  pub value : (item_at st' it).value ≡ (item_at st it).value
  pub held : (item_at st' it).refcount ≡ (item_at st it).refcount + 1
  pub consistent : Consistent hash st'

module _ (hash : Key → ℕ) (st : Store) (it : ℕ) (c : Consistent hash st) where
  pub link-Placed :
      Linkable hash st it → Placed hash st it (do_item_link it (hash (item_at st it).key) st)
  link-Placed fresh =
      let l = do_item_link-Linked hash st it fresh in
      record {
        table = l.table;
        value = l.value;
        held = l.refcount;
        consistent = do_item_link-Consistent hash st it c fresh;
      }

  module _ (o : ℕ) (linked : (item_at st o).flags.linked ≡ true)
      (out : (item_at st it).flags.linked ≡ false)
      (same_key : (item_at st o).key ≡ (item_at st it).key)
      (room : (item_at st it).refcount + 1 < 2 ^ 16) (narrow : (item_at st o).refcount < 2 ^ 16)
      (held : 2 ≤ (item_at st o).refcount) where
    different : it ≢ o
    different e = ground (arith, e, linked, out)

    abbrev hv : ℕ
    hv = hash (item_at st it).key

    abbrev s1 : Store
    s1 = do_item_unlink o hv st

    u : Unlinked hash st o s1
    u = rw same_key at (do_item_unlink-Unlinked hash st o c narrow linked)

    it_same : item_at s1 it ≡ item_at st it
    it_same = u.others it different

    fresh : Linkable hash s1 it
    fresh = record {
      unlinked = ground (arith, it_same, out);
      absent = ground (
        arith,
        it_same,
        u.table (item_at st it).key,
        same_key,
        bytes_eq_refl (item_at st it).key,
      );
      room = ground (arith, it_same, room);
    }

    abbrev s2 : Store
    s2 = do_item_link it hv s1

    l : Linked hash s1 it s2
    l = rw (ap (λ i. i.key) it_same) at (do_item_link-Linked hash s1 it fresh)

    linked-Consistent : Consistent hash s2
    linked-Consistent =
        rw (ap (λ i. i.key) it_same) at (do_item_link-Consistent hash s1 it u.consistent fresh)

    o_same : item_at s2 o ≡ item_at s1 o
    o_same = l.others o (λ e. different (sym e))

    released : Released s2 o (do_item_remove o s2)
    released =
        do_item_remove-Released s2 o (ground (arith, o_same, u.refcount, held))
          (ground (arith, o_same, u.refcount, narrow))

    replace_is : do_item_replace o it hv st ≡ s2
    unfolding do_item_replace
    replace_is = refl

    -- The old item, linked and referenced, is unlinked, the new one linked, and the reference to the old one
    -- dropped.
    pub replace-Placed : Placed hash st it (do_item_remove o (do_item_replace o it hv st))
    replace-Placed = rw replace_is (record {
      table = λ q. ground (arith, released.assoc, l.table q, u.table q, it_same, same_key);
      value = ground (arith, released.others it different, l.value, it_same);
      held = ground (arith, released.others it different, l.refcount, it_same);
      consistent =
          do_item_remove-Consistent hash s2 o linked-Consistent
            (ground (arith, o_same, u.refcount, narrow)) (ground (arith, o_same, u.refcount, held))
            (λ still. absurd (ground (arith, still, o_same, u.out)));
    })
