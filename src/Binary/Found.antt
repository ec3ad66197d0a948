-- ===== src/Binary/Found.antt =====
-- A get of the binary protocol in memcached-1.4/memcached.c for a key that is stored and live, from the
-- lookup to the answer.
use mathlib.Core.Path.{subst}
use reading_and_comprehense.Base.{
  ℕ, ◌+◌, ◌≡◌, refl, sym, ap, ◌∙◌, true, false, Option, none, some, arith, if◌then◌else◌, inl, inr,
}
use reading_and_comprehense.Assoc.Chain.{Key}
use reading_and_comprehense.Memory.{Item, item_get_cas}
use reading_and_comprehense.Items.{Store, item_at, do_item_update}
use reading_and_comprehense.Items.Consistent.{Consistent, stored}
use reading_and_comprehense.Items.Get.{Room, dead, Hit, GetResult}
use reading_and_comprehense.Items.Update.{moves, do_item_update-Updated}
use reading_and_comprehense.Items.Alloc.{Env}
use reading_and_comprehense.Conn.{Server, on_store, conn_mwrite, conn_new_cmd}
use reading_and_comprehense.Storage.{item_get}
use reading_and_comprehense.Commands.Effects.{get_lem}
use reading_and_comprehense.Binary.{BinStatus, BinServer, on_server, on_bin_conn, binary_get_key}
use reading_and_comprehense.Binary.Process.{
  should_touch, count_hit, answer_hit, bin_value, record_get, bin_hit, bin_get_after, bin_lookup,
  process_bin_get_or_touch,
}
use reading_and_comprehense.Binary.Packet.{IsPacket, concat}
use reading_and_comprehense.Binary.Hit.{IsWhole, hit_pieces, hit_keylen, answer_hit-IsPacket}

-- What a get that finds the item `p` leaves: the answer waits to be sent, and the item is held for it.
pub record Served (b : BinServer) (p : ℕ) (it : Item) (b' : BinServer) : Type 0 where
  pub packet :
      IsPacket b.bin.header.opcode b.bin.opaque b'.server.conn.iov BinStatus.success
        (hit_keylen b.bin.cmd b.bin.header.keylen)
        4
        (item_get_cas it)
        (concat (hit_pieces b.bin.cmd b.bin.header.keylen it))
  pub sending : b'.server.conn.state ≡ conn_mwrite
  pub item : b'.server.conn.item ≡ some p

count_hit_same :
    (cmd id : ℕ) (sv : Server)
    → ((count_hit cmd id sv).store ≡ sv.store) × ((count_hit cmd id sv).conn ≡ sv.conn)
unfolding count_hit
count_hit_same cmd id sv = (ground arith, ground arith)

bin_hit-Served :
    (b : BinServer) (p : ℕ) (it : Item)
    → item_at (do_item_update p b.server.store) p ≡ it
    → IsWhole it b.bin.header.keylen
    → Served b p it (bin_hit b.bin.header.keylen p b)
unfolding bin_hit
bin_hit-Served b p it e w =
    let nkey = b.bin.header.keylen in
    let b1 =
      on_server
        (λ sv.
          count_hit b.bin.cmd (item_at sv.store p).slabs_clsid (on_store (do_item_update p) sv))
        b in
    let same : item_at b1.server.store p ≡ it =
      ap (λ st. item_at st p) (count_hit_same b.bin.cmd _ (on_store (do_item_update p) b.server)).0
      ∙ e in
    subst
      (λ i. Served b p it (
        on_bin_conn
          (λ c. record c { state = conn_mwrite; write_and_go = conn_new_cmd; item = some p })
          (answer_hit nkey i b1)))
      (sym same) (record { packet = answer_hit-IsPacket nkey it w b1; sending = refl; item = refl })

record_get_same :
    (env : Env) (key : Key) (b : BinServer)
    → (record_get env key true b).server.conn ≡ b.server.conn
unfolding record_get
record_get_same env key b = ground arith

-- The item found, which has one more reference and the time of this access.
Hit-Served :
    (env : Env) (b : BinServer) (p : ℕ) (st1 : Store)
    → Hit env.hash b.server.store (binary_get_key b) p st1
    → IsWhole (item_at b.server.store p) b.bin.header.keylen
    → Served b p (item_at b.server.store p) (
        record_get env
          (binary_get_key b)
          true
          (bin_hit b.bin.header.keylen p (on_server (λ sv. record sv { store = st1 }) b)))
unfolding bin_value item_get_cas
Hit-Served env b p st1 m w =
    let b1 = on_server (λ sv. record sv { store = st1 }) b in
    let u = do_item_update-Updated st1 p in
    let old = item_at b.server.store p in
    let at : Item → Item =
      λ i. record i { time = if moves p st1 then st1.current_time else (item_at st1 p).time } in
    let it : Item =
      at (record old {
        refcount = old.refcount + 1;
        flags = record (old.flags) { fetched = true };
      }) in
    let e : item_at (do_item_update p st1) p ≡ it = u.here ∙ ap at m.item in
    let whole : IsWhole it b.bin.header.keylen = record {
      crlf = w.crlf;
      block = w.block;
      int = w.int;
      key = w.key;
      short = w.short;
    } in
    let s = bin_hit-Served b1 p it e whole in
    let same = record_get_same env (binary_get_key b) (bin_hit b.bin.header.keylen p b1) in
    record { packet = rw same s.packet; sending = rw same s.sending; item = rw same s.item }

after-Served :
    (env : Env) (b : BinServer) (p : ℕ) (g : Option ℕ × Store)
    → GetResult env.hash b.server.store (binary_get_key b) g
    → stored env.hash b.server.store (binary_get_key b) ≡ some p
    → dead b.server.store p ≡ false
    → IsWhole (item_at b.server.store p) b.bin.header.keylen
    → Served b p (item_at b.server.store p) (bin_get_after env (binary_get_key b) g b)
unfolding bin_get_after
after-Served env b p (none, st1) m here live w = elim m.why [
  | inl e ↦ absurd (ground (arith, e, here))
  | inr (q, e, d) ↦ absurd (ground (arith, e, d, here, live))
]
after-Served env b p (some q, st1) m here live w =
    let same : q ≡ p = ground (arith, m.stored_here, here) in
    subst
      (λ r.
        Served b r (item_at b.server.store r)
          (bin_get_after env (binary_get_key b) (some q, st1) b))
      same
      (Hit-Served env b q st1 m
        (subst (λ r. IsWhole (item_at b.server.store r) b.bin.header.keylen) (sym same) w))

-- A binary get, on a consistent store, of a key whose item is live and whole is answered with one packet:
-- the flags, the key if asked for, and the value of the item, with its CAS. The packet waits to be sent,
-- and the connection holds the item until then.
pub process_bin_get_or_touch-Served :
    (env : Env) (b : BinServer) (p : ℕ)
    → Consistent env.hash b.server.store
    → Room b.server.store
    → should_touch b.bin.cmd ≡ false
    → stored env.hash b.server.store (binary_get_key b) ≡ some p
    → dead b.server.store p ≡ false
    → IsWhole (item_at b.server.store p) b.bin.header.keylen
    → Served b p (item_at b.server.store p) (process_bin_get_or_touch env b)
unfolding process_bin_get_or_touch
process_bin_get_or_touch-Served env b p c room get here live w =
    let key = binary_get_key b in
    let g = item_get env key b.server.store in
    let lookup : bin_lookup env key b ≡ g = unfold bin_lookup in rw get refl in
    rw lookup (after-Served env b p g (get_lem env b.server.store key c room) here live w)
