-- ===== src/Commands/Effects.antt =====
-- Commands of memcached-1.4/memcached.c that take a key out of the cache: delete, and a set that finds
-- no memory.
use reading_and_comprehense.Base.{
  ℕ, ◌^◌, ◌<◌, ◌≤◌, ◌≡◌, refl, ap, ◌∙◌, Bool, true, false, Option, none, some, ◌∷◌, arith,
  if◌then◌else◌, length, bytes_eq, inl, inr, not,
}
use reading_and_comprehense.Assoc.Chain.{Key}
use reading_and_comprehense.Items.{Store, item_at, do_item_remove}
use reading_and_comprehense.Items.Consistent.{Consistent, stored}
use reading_and_comprehense.Items.Get.{Room, dead, Hit, GetResult, do_item_get-GetResult}
use reading_and_comprehense.Items.Remove.{
  do_item_remove-Released, do_item_remove-Consistent, do_item_unlink-Unlinked,
}
use reading_and_comprehense.Items.Alloc.{Env, item_size_ok}
use reading_and_comprehense.Conn.{
  Nread, Server, Reply, out_string, re_deleted, re_not_found, re_oom_object, re_too_large,
}
use reading_and_comprehense.Storage.{item_get, item_unlink}
use reading_and_comprehense.Commands.{delete_key}
use reading_and_comprehense.Commands.Update.{update_refused, UpdateLine}

-- The key is in the table no more, and nothing else has changed in it.
pub record Gone (hash : Key → ℕ) (st : Store) (key : Key) (st' : Store) : Type 0 where
  pub table : (q : Key) → stored hash st' q ≡ (if bytes_eq key q then none else stored hash st q)
  pub consistent : Consistent hash st'

unfoldable pub readable : (Key → ℕ) → Store → Key → Bool
readable hash st key = elim (stored hash st key) [ none ↦ false | some p ↦ not (dead st p) ]

module _ (env : Env) (st : Store) (key : Key) (c : Consistent env.hash st) (room : Room st) where
  -- What the commands do with the item that they found.
  abbrev pub drop_found : Option ℕ × Store → Store
  drop_found (none, st1) = st1
  drop_found (some p, st1) = do_item_remove p (item_unlink env p st1)

  drop-Hit :
      (p : ℕ) (st1 : Store)
      → Hit env.hash st key p st1
      → Gone env.hash st key (drop_found (some p, st1))
  unfolding item_unlink
  drop-Hit p st1 m =
      let k = c.found key p m.stored_here in
      let linked : (item_at st1 p).flags.linked ≡ true = ground (arith, m.item, k) in
      let narrow : (item_at st1 p).refcount < 2 ^ 16 = ground (arith, m.item, room p) in
      let held : 2 ≤ (item_at st1 p).refcount = ground (arith, m.item, c.held p k.0) in
      let s = item_unlink env p st1 in
      let u = do_item_unlink-Unlinked env.hash st1 p m.consistent narrow linked in
      let narrow2 : (item_at s p).refcount < 2 ^ 16 = omega (arith, u.refcount, narrow) in
      let held2 : 1 ≤ (item_at s p).refcount = omega (arith, u.refcount, held) in
      let r = do_item_remove-Released s p held2 narrow2 in
      record {
        table = λ q. ground (arith, r.assoc, u.table q, m.assoc, m.item, k);
        consistent =
            do_item_remove-Consistent env.hash s p u.consistent narrow2 held2
              (λ l. absurd (ground (arith, l, u.out)));
      }

  pub drop_found-Gone :
      (g : Option ℕ × Store) → GetResult env.hash st key g → Gone env.hash st key (drop_found g)
  drop_found-Gone (none, st1) m = record { table = m.table; consistent = m.consistent }
  drop_found-Gone (some p, st1) m = drop-Hit p st1 m

  pub found_or_not :
      (g : Option ℕ × Store)
      → GetResult env.hash st key g
      → ◌≡◌ {A = Bool} (elim g.0 [ none ↦ false | some p ↦ true ]) (readable env.hash st key)
  unfolding readable
  found_or_not (none, st1) m = elim m.why [
    | inl e ↦ ground (arith, e)
    | inr (p, e, d) ↦ ground (arith, e, d)
  ]
  found_or_not (some p, st1) m = ground (arith, m.stored_here, m.live)

  pub get_lem : GetResult env.hash st key (item_get env key st)
  unfolding item_get
  get_lem = do_item_get-GetResult env.hash st key c room

out_string_store : (r : Reply) (sv : Server) → (out_string r sv).store ≡ sv.store
unfolding out_string
out_string_store r sv = ground arith

out_string_answers :
    (r : Reply) (sv : Server)
    → (out_string r sv).conn.answers
      ≡ (if sv.conn.noreply then sv.conn.answers else r ∷ sv.conn.answers)
unfolding out_string
out_string_answers r sv = ground arith

module _ (env : Env) (sv : Server) (key : Key) (c : Consistent env.hash sv.store)
    (room : Room sv.store) where
  delete_store :
      (g : Option ℕ × Store)
      → item_get env key sv.store ≡ g
      → (delete_key env key sv).store ≡ drop_found env sv.store key c room g
  unfolding delete_key
  delete_store (none, st1) e =
      rw (delete_key, e) (out_string_store re_not_found _ ∙ ap (λ g. g.1) e)
  delete_store (some p, st1) e =
      rw (delete_key, e)
        (out_string_store re_deleted _ ∙ ap (λ g. do_item_remove p (item_unlink env p g.1)) e)

  delete_answer :
      (g : Option ℕ × Store)
      → item_get env key sv.store ≡ g
      → (delete_key env key sv).conn.answers ≡ (
          if sv.conn.noreply
          then sv.conn.answers
          else (if (elim g.0 [ none ↦ false | some p ↦ true ]) then re_deleted else re_not_found)
            ∷ sv.conn.answers)
  unfolding delete_key
  delete_answer (none, st1) e = rw (delete_key, e) (out_string_answers re_not_found _)
  delete_answer (some p, st1) e = rw (delete_key, e) (out_string_answers re_deleted _)

  -- delete on a consistent store takes the key out of the table, and nothing else; the answer, unless
  -- the client wants none, is DELETED where the key was stored and live, NOT_FOUND otherwise.
  pub delete_key-Gone :
      Gone env.hash sv.store key (delete_key env key sv).store
      × ((delete_key env key sv).conn.answers ≡ (
          if sv.conn.noreply
          then sv.conn.answers
          else (if readable env.hash sv.store key then re_deleted else re_not_found)
            ∷ sv.conn.answers))
  delete_key-Gone =
      let g = item_get env key sv.store in
      let m = get_lem env sv.store key c room in
      (
        rw (delete_store g refl) (drop_found-Gone env sv.store key c room g m),
        rw (found_or_not env sv.store key c room g m) at (delete_answer g refl),
      )

  abbrev refusal : UpdateLine → Reply
  refusal line =
      if item_size_ok sv.store (length key) line.flags line.vlen
      then re_oom_object
      else re_too_large

  refused_lookup :
      (r : Reply) (g : Option ℕ × Store)
      → item_get env key sv.store ≡ g
      → item_get env key (out_string r sv).store ≡ g
  refused_lookup r g e = ap (item_get env key) (out_string_store r sv) ∙ e

  refused_store :
      (line : UpdateLine) (g : Option ℕ × Store)
      → item_get env key sv.store ≡ g
      → (update_refused env key line Nread.set sv).store ≡ drop_found env sv.store key c room g
  unfolding update_refused
  refused_store line (none, st1) e =
      let e' = refused_lookup (refusal line) (none, st1) e in
      rw (update_refused, e') (ap (λ g. g.1) e')
  refused_store line (some p, st1) e =
      let e' = refused_lookup (refusal line) (some p, st1) e in
      rw (update_refused, e') (ap (λ g. do_item_remove p (item_unlink env p g.1)) e')

  -- A set that gets no memory takes the key's old value out of the table, so that no client reads it
  -- after the refusal, and changes no other key.
  pub update_refused-Gone :
      (line : UpdateLine)
      → Gone env.hash sv.store key (update_refused env key line Nread.set sv).store
  update_refused-Gone line =
      let g = item_get env key sv.store in
      rw (refused_store line g refl)
        (drop_found-Gone env sv.store key c room g (get_lem env sv.store key c room))
