-- ===== src/Slabs/Reassign/Request.antt =====
-- What a request to move a page does, on each of its answers, and what the hand-over does to the two
-- classes (memcached-1.4/slabs.c).
use reading_and_comprehense.Base.{
  ℕ, ◌+◌, ◌-◌, ◌^◌, ◌<◌, ◌≤◌, ◌≡◌, ◌≢◌, refl, Bool, true, false, arith, ltb, ◌==◌, if◌then◌else◌,
  Bool-cases, ◌⊎◌, inl, inr, ◌||◌,
}
use reading_and_comprehense.Memory.{Memory, Settings, add32, sub32, set_class}
use reading_and_comprehense.Memory.Int.{ℤ, pos, negsuc, eq_ℤ}
use reading_and_comprehense.Slabs.{memset_zero, split_slab_page_into_freelist}
use reading_and_comprehense.Slabs.Alloc.{IsClass, chunk_list, split_loop-Split}
use reading_and_comprehense.Slabs.Reassign.{
  Rebalance, ReassignResult, ok, check_reassign, do_slabs_reassign, slabs_reassign,
  slabs_reassign_pick_any, slab_rebalance_finish, bad_class,
}
use reading_and_comprehense.Slabs.Reassign.Pick.{Chosen, slabs_reassign_pick_any-Chosen}

-- An accepted request: the mover is told to take a page from a class that has two or more to another
-- class.
pub record Accepted (m : Memory) (src dst : ℤ) (r r' : Rebalance) : Type 0 where
  pub idle : r.signal ≡ 0
  pub told : r'.signal ≡ 1
  pub source : IsClass m r'.s_clsid
  pub target : IsClass m r'.d_clsid
  pub differ : r'.s_clsid ≢ r'.d_clsid
  pub rich : 2 ≤ (m.slabclass r'.s_clsid).slabs
  pub asked_source : (src ≡ pos r'.s_clsid) ⊎ (src ≡ negsuc 0)
  pub asked_target : dst ≡ pos r'.d_clsid

pub record Refused (r r' : Rebalance) : Type 0 where
  pub signal : r'.signal ≡ r.signal
  pub source : r'.s_clsid ≡ r.s_clsid
  pub target : r'.d_clsid ≡ r.d_clsid
  pub page : (r'.slab_start ≡ r.slab_start) × (r'.slab_pos ≡ r.slab_pos)

abbrev pub Answer : Memory → ℤ → ℤ → Rebalance → ReassignResult × Rebalance → Type 0
Answer m src dst r (ok, r') = Accepted m src dst r r'
Answer m src dst r (ReassignResult.running, r') = Refused r r'
Answer m src dst r (ReassignResult.badclass, r') = Refused r r'
Answer m src dst r (ReassignResult.nospare, r') = Refused r r'
Answer m src dst r (ReassignResult.src_dst_same, r') = Refused r r'

check-Answer :
    (m : Memory) (asked src dst : ℤ) (r r0 : Rebalance)
    → r0.signal ≡ 0
    → Refused r0 r
    → eq_ℤ src dst ≡ false
    → (asked ≡ src) ⊎ (asked ≡ negsuc 0)
    → Answer m asked dst r0 (check_reassign m src dst r)
unfolding check_reassign
check-Answer m asked (pos s) (pos d) r r0 idle same ne how =
    elim (Bool-cases (bad_class m (pos s) || bad_class m (pos d))) [
      | inl bad ↦ rw bad same
      | inr good ↦ elim (Bool-cases (ltb (m.slabclass s).slabs 2)) [
        | inl poor ↦ rw (good, poor) same
        | inr rich ↦
            rw (good, rich)
              (record {
                idle = idle;
                told = refl;
                source = ground arith;
                target = ground arith;
                differ = ground arith;
                rich = ground arith;
                asked_source = how;
                asked_target = refl;
              })
      ]
    ]
check-Answer m asked (pos s) (negsuc d) r r0 idle same ne how =
    let bad : bad_class m (pos s) || bad_class m (negsuc d) ≡ true = ground arith in rw bad same
check-Answer m asked (negsuc s) dst r r0 idle same ne how = same

refl-Refused : (r : Rebalance) (cur : ℕ) → Refused r (record r { cur = cur })
refl-Refused r cur = record { signal = refl; source = refl; target = refl; page = (refl, refl) }

unseen :
    (m : Memory) (dst s : ℤ)
    → eq_ℤ (negsuc 0) dst ≡ false
    → Chosen m dst (λ _. Unit {0}) s
    → eq_ℤ s dst ≡ false
unseen m (pos d) (pos s) ne h = ground arith
unseen m (negsuc d) (pos s) ne h = refl
unseen m (pos d) (negsuc s) ne h = refl
unseen m (negsuc d) (negsuc s) ne h = ground (arith, h.0)

eq_ℤ→eq : (a b : ℤ) → eq_ℤ a b ≡ true → a ≡ b
eq_ℤ→eq (pos a) (pos b) h = ground arith
eq_ℤ→eq (pos a) (negsuc b) h = ground arith
eq_ℤ→eq (negsuc a) (pos b) h = ground arith
eq_ℤ→eq (negsuc a) (negsuc b) h = ground arith

pub do_slabs_reassign-Answer :
    (m : Memory) (src dst : ℤ) (r : Rebalance)
    → 1 ≤ m.power_largest
    → r.cur ≤ m.power_largest
    → Answer m src dst r (do_slabs_reassign m src dst r)
unfolding do_slabs_reassign
do_slabs_reassign-Answer m src dst r some_class within =
    let same = refl-Refused r r.cur in
    let pick = slabs_reassign_pick_any m dst r.cur in
    elim (Bool-cases (r.signal == 0)) [
      | inr busy ↦ rw busy same
      | inl idle ↦ elim (Bool-cases (eq_ℤ src dst)) [
        | inl equal ↦ rw (idle, equal) same
        | inr ne ↦ elim (Bool-cases (eq_ℤ src (negsuc 0))) [
          | inr given ↦
              rw (idle, ne, given)
                (check-Answer m src src dst r r (ground arith) same ne (inl refl))
          | inl any ↦
              let e = eq_ℤ→eq src (negsuc 0) any in
              rw (idle, ne, any)
                (check-Answer m src pick.0 dst (record r { cur = pick.1 }) r (ground arith)
                  (refl-Refused r pick.1)
                  (unseen m dst pick.0 (rw e at ne)
                    (slabs_reassign_pick_any-Chosen m dst r.cur some_class within))
                  (inr e))
        ]
      ]
    ]

-- slabs_reassign, whether or not it gets the mover's lock: an accepted request found the mover idle,
-- and names two different valid classes, of which the source has at least two pages; every other
-- answer leaves the request of the mover as it was.
pub slabs_reassign-Answer :
    (lock_free : Bool) (m : Memory) (src dst : ℤ) (r : Rebalance)
    → 1 ≤ m.power_largest
    → r.cur ≤ m.power_largest
    → Answer m src dst r (slabs_reassign lock_free m src dst r)
unfolding slabs_reassign
slabs_reassign-Answer true m src dst r some_class within =
    do_slabs_reassign-Answer m src dst r some_class within
slabs_reassign-Answer false m src dst r some_class within = refl-Refused r r.cur

-- The hand-over of a page from class s to class d.
pub record Moved (m m' : Memory) (r r' : Rebalance) : Type 0 where
  pub taken : (m'.slabclass r.s_clsid).slabs + 1 ≡ (m.slabclass r.s_clsid).slabs
  pub given : (m'.slabclass r.d_clsid).slabs ≡ (m.slabclass r.d_clsid).slabs + 1
  pub chunks :
      (m'.slabclass r.d_clsid).slots
      ≡ chunk_list
          (m.slabclass r.d_clsid).perslab
          r.slab_start
          (m.slabclass r.d_clsid).size
          (m.slabclass r.d_clsid).slots
  pub kept : (m'.slabclass r.s_clsid).slots ≡ (m.slabclass r.s_clsid).slots
  pub others : (j : ℕ) → j ≢ r.s_clsid → j ≢ r.d_clsid → m'.slabclass j ≡ m.slabclass j
  pub malloced : m'.mem_malloced ≡ m.mem_malloced
  pub idle : r'.signal ≡ 0

abbrev handed : Settings → Memory → Rebalance → Memory
handed settings m r = memset_zero r.slab_start settings.item_size_max (
    set_class r.s_clsid
      (λ c. record c {
        slab_list = (λ j. if c.killing - 1 == j then c.slab_list (c.slabs - 1) else c.slab_list j);
        slabs = sub32 c.slabs 1;
        killing = 0;
      })
      m)

abbrev received : Memory → Rebalance → Memory
received m r =
    set_class r.d_clsid
      (λ c. record c {
        slab_list = (λ j. if c.slabs == j then r.slab_start else c.slab_list j);
        slabs = add32 c.slabs 1;
      })
      m

-- slab_rebalance_finish moves one page: the source counts one page less and the destination one more
-- and gets the chunks of the page in front of its free list; no other class and no byte count
-- changes, and the mover is idle again.
pub finish-Moved :
    (settings : Settings) (m : Memory) (r : Rebalance)
    → IsClass m r.d_clsid
    → r.s_clsid ≢ r.d_clsid
    → 1 ≤ (m.slabclass r.s_clsid).slabs
    → (m.slabclass r.s_clsid).slabs < 2 ^ 32
    → (m.slabclass r.d_clsid).slabs + 1 < 2 ^ 32
    → Moved m (slab_rebalance_finish settings m r).0 r (slab_rebalance_finish settings m r).1
unfolding slab_rebalance_finish split_slab_page_into_freelist memset_zero
finish-Moved settings m r okd ne some_page small_s small_d =
    let z = received (handed settings m r) r in
    let t = split_loop-Split (z.slabclass r.d_clsid).perslab r.slab_start r.d_clsid z okd in
    record {
      taken = ground (arith, t.others r.s_clsid);
      given = ground (arith, t.slabs);
      chunks = ground (arith, t.slots);
      kept = ground (arith, t.others r.s_clsid);
      others = λ j nes ned. ground (arith, t.others j ned);
      malloced = t.malloced;
      idle = refl;
    }
