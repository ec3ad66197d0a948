-- ===== src/Items/Get.antt =====
-- do_item_get of memcached-1.4/items.c: the lookup with the lazy expiry.
use reading_and_comprehense.Base.{
  ℕ, ◌+◌, ◌^◌, ◌<◌, ◌≤◌, ◌≡◌, ◌≢◌, refl, ◌∙◌, Bool, true, false, Option, none, some, arith,
  if◌then◌else◌, bytes_eq, bytes_eq→eq, Option-cases, ◌⊎◌, inl, inr, Bool-cases, ◌||◌,
}
use reading_and_comprehense.Assoc.Chain.{Key}
use reading_and_comprehense.Memory.{Item, add16}
use reading_and_comprehense.Items.{
  Store, item_at, edit, refcount_incr, do_item_remove, do_item_unlink, keep_or_drop, do_item_get,
  in_moving_slab, flushed, expired,
}
use reading_and_comprehense.Items.Consistent.{Consistent, stored}
use reading_and_comprehense.Items.Remove.{
  do_item_remove-Released, do_item_remove-Consistent, Unlinked, do_item_unlink-Unlinked,
}

-- An edit that keeps an item's key, class and link, and the reference of a linked item.
pub record Keeps (a b : Item) : Type 0 where
  pub linked : b.flags.linked ≡ a.flags.linked
  pub key : b.key ≡ a.key
  pub class : b.slabs_clsid ≡ a.slabs_clsid
  pub held : a.flags.linked ≡ true → 1 ≤ b.refcount

pub edit-Consistent :
    (hash : Key → ℕ) (st : Store) (p : ℕ) (f : Item → Item)
    → Consistent hash st
    → Keeps (item_at st p) (f (item_at st p))
    → Consistent hash (edit p f st)
edit-Consistent hash st p f c k = record {
  table = c.table;
  found = λ q i h. ground (arith, c.found q i h, k.linked, k.key);
  linked = λ i h. ground (arith, c.linked i, k.linked, k.key);
  held = λ i h. ground (arith, c.held i, k.held, k.linked);
  listed = λ i j h. ground (arith, c.listed i j h, k.linked, k.class);
  once = λ i h. ground (arith, c.once i, k.linked, k.class);
  sized = c.sized;
}

-- The item cannot be handed out: its page is being moved, or it is flushed or expired.
abbrev pub dead : Store → ℕ → Bool
dead st p = in_moving_slab st p || flushed st p || expired st p

pub record Hit (hash : Key → ℕ) (st : Store) (key : Key) (p : ℕ) (st' : Store) : Type 0 where
  pub stored_here : stored hash st key ≡ some p
  pub live : dead st p ≡ false
  pub item : item_at st' p ≡ record (item_at st p) {
    refcount = (item_at st p).refcount + 1;
    flags = record ((item_at st p).flags) { fetched = true };
  }
  pub others : (q : ℕ) → q ≢ p → item_at st' q ≡ item_at st q
  pub assoc : st'.assoc ≡ st.assoc
  pub lru : st'.lru ≡ st.lru
  pub consistent : Consistent hash st'
  pub settings : st'.settings ≡ st.settings
  pub now : st'.current_time ≡ st.current_time

pub record Missed (hash : Key → ℕ) (st : Store) (key : Key) (st' : Store) : Type 0 where
  pub why :
      (stored hash st key ≡ none) ⊎ ((p : ℕ) × (stored hash st key ≡ some p) × (dead st p ≡ true))
  pub table : (q : Key) → stored hash st' q ≡ (if bytes_eq key q then none else stored hash st q)
  pub others : (q : ℕ) → stored hash st key ≢ some q → item_at st' q ≡ item_at st q
  pub consistent : Consistent hash st'
  pub settings : st'.settings ≡ st.settings
  pub now : st'.current_time ≡ st.current_time

abbrev pub GetResult : (Key → ℕ) → Store → Key → Option ℕ × Store → Type 0
GetResult hash st key (some p, st') = Hit hash st key p st'
GetResult hash st key (none, st') = Missed hash st key st'

-- The references to any item leave room for one more in the 16 bits of its counter.
abbrev pub Room : Store → Type 0
Room st = (p : ℕ) → (item_at st p).refcount + 1 < 2 ^ 16

module _ (hash : Key → ℕ) (st : Store) (key : Key) (c : Consistent hash st) (room : Room st) where
  incr-Consistent : (p : ℕ) → Consistent hash (refcount_incr p st)
  unfolding refcount_incr
  incr-Consistent p =
      edit-Consistent hash st p (λ it. record it { refcount = add16 it.refcount 1 }) c
        (record {
          linked = refl;
          key = refl;
          class = refl;
          held = λ l. ground (arith, room p, c.held p l);
        })

  -- The item behind the pointer that was found, once it is referenced.
  record Referenced (p : ℕ) (s1 : Store) : Type 0 where
    consistent : Consistent hash s1
    linked : (item_at s1 p).flags.linked ≡ true
    key_is : (item_at s1 p).key ≡ key
    held : 2 ≤ (item_at s1 p).refcount
    narrow : (item_at s1 p).refcount < 2 ^ 16
    others : (q : ℕ) → q ≢ p → item_at s1 q ≡ item_at st q
    assoc : s1.assoc ≡ st.assoc
    settings : s1.settings ≡ st.settings
    now : s1.current_time ≡ st.current_time

  referenced : (p : ℕ) → stored hash st key ≡ some p → Referenced p (refcount_incr p st)
  unfolding refcount_incr
  referenced p e =
      let k = c.found key p e in
      record {
        consistent = incr-Consistent p;
        linked = ground (arith, k);
        key_is = ground (arith, k);
        held = ground (arith, k, c.held p, room p);
        narrow = ground (arith, room p);
        others = λ q ne. ground arith;
        assoc = refl;
        settings = refl;
        now = refl;
      }

  drop_dead :
      (p : ℕ)
      → stored hash st key ≡ some p
      → dead st p ≡ true
      → Missed hash st key (do_item_remove p (do_item_unlink p (hash key) (refcount_incr p st)))
  drop_dead p e h =
      let s1 = refcount_incr p st in
      let t = referenced p e in
      let s2 = do_item_unlink p (hash key) s1 in
      let u : Unlinked hash s1 p s2 =
        rw t.key_is at (do_item_unlink-Unlinked hash s1 p t.consistent t.narrow t.linked) in
      let held : 1 ≤ (item_at s2 p).refcount = omega (arith, u.refcount, t.held) in
      let narrow : (item_at s2 p).refcount < 2 ^ 16 = omega (arith, u.refcount, t.narrow) in
      let r = do_item_remove-Released s2 p held narrow in
      record {
        why = inr (p, e, h);
        table = λ q. ground (arith, r.assoc, u.table q, t.key_is, t.assoc);
        others = λ q ne. ground (arith, r.others q, u.others q, t.others q, e);
        consistent =
            do_item_remove-Consistent hash s2 p u.consistent narrow held
              (λ l. absurd (ground (arith, u.out)));
        settings = r.settings ∙ u.settings ∙ t.settings;
        now = r.now ∙ u.now ∙ t.now;
      }

  same_dead : (p : ℕ) → dead (refcount_incr p st) p ≡ dead st p
  unfolding refcount_incr
  same_dead p = ground arith

  get_dead :
      (p : ℕ)
      → dead st p ≡ true
      → keep_or_drop p (hash key) (refcount_incr p st)
        ≡ (none, do_item_remove p (do_item_unlink p (hash key) (refcount_incr p st)))
  unfolding keep_or_drop
  get_dead p h = ground (arith, same_dead p)

  get_live :
      (p : ℕ)
      → dead st p ≡ false
      → keep_or_drop p (hash key) (refcount_incr p st) ≡ (
        some p,
        edit p
            (λ it. record it { flags = record (it.flags) { fetched = true } })
            (refcount_incr p st),
      )
  unfolding keep_or_drop
  get_live p h = ground (arith, same_dead p)

  keep_live :
      (p : ℕ)
      → stored hash st key ≡ some p
      → dead st p ≡ false
      → Hit hash st key p (
          edit p
            (λ it. record it { flags = record (it.flags) { fetched = true } })
            (refcount_incr p st))
  unfolding refcount_incr
  keep_live p e h = record {
    stored_here = e;
    live = h;
    item = ground (arith, room p);
    others = λ q ne. ground arith;
    assoc = refl;
    lru = refl;
    consistent =
        edit-Consistent hash (refcount_incr p st) p
          (λ it. record it { flags = record (it.flags) { fetched = true } }) (incr-Consistent p)
          (record { linked = refl; key = refl; class = refl; held = (incr-Consistent p).held p });
    settings = refl;
    now = refl;
  }

  get_none : stored hash st key ≡ none → do_item_get key (hash key) st ≡ (none, st)
  unfolding do_item_get
  get_none e = ground (arith, e)

  get_some :
      (p : ℕ)
      → stored hash st key ≡ some p
      → do_item_get key (hash key) st ≡ keep_or_drop p (hash key) (refcount_incr p st)
  unfolding do_item_get
  get_some p e = ground (arith, e)

  -- do_item_get on a consistent store: a key that is stored, in a page that stays, not flushed and not
  -- expired is a hit, which takes one reference and marks the item as fetched; otherwise it is a miss,
  -- after which the key is stored no more, and no other key or item has changed.
  pub do_item_get-GetResult : GetResult hash st key (do_item_get key (hash key) st)
  do_item_get-GetResult = elim (Option-cases (stored hash st key)) [
    | inl e ↦ rw (get_none e) (record {
      why = inl e;
      table = λ q. ground (arith, bytes_eq→eq key q, e);
      others = λ q ne. refl;
      consistent = c;
      settings = refl;
      now = refl;
    })
    | inr (p, e) ↦ elim (Bool-cases (dead st p)) [
      | inl h ↦ rw (get_some p e ∙ get_dead p h) (drop_dead p e h)
      | inr h ↦ rw (get_some p e ∙ get_live p h) (keep_live p e h)
    ]
  ]
