-- ===== src/ConnQueue/Fifo.antt =====
-- The queues of memcached-1.4/thread.c as lists of addresses, first in, first out.
use mathlib.Core.Path.{subst}
use reading_and_comprehense.Base.{
  ℕ, ◌≡◌, ◌≢◌, refl, sym, ap, ◌∙◌, Option, none, some, List, [], ◌∷◌, ◌++◌, arith, update,
}
use reading_and_comprehense.ConnQueue.{CqItems, Cq, CqItem, set_next, cq_pop, cq_push, tail_after}

-- From `h` the pointers run through the items of the list, and end there.
abbrev pub Linked : CqItems → Option ℕ → List ℕ → Type 0
Linked m h [] = h ≡ none
Linked m h (p ∷ l) = (h ≡ some p) × Linked m (m p).next l

abbrev pub Absent : ℕ → List ℕ → Type 0
Absent p [] = Unit
Absent p (q ∷ l) = (p ≢ q) × Absent p l

abbrev pub Distinct : List ℕ → Type 0
Distinct [] = Unit
Distinct (p ∷ l) = Absent p l × Distinct l

abbrev pub last_of : List ℕ → Option ℕ
last_of [] = none
last_of (p ∷ []) = some p
last_of (p ∷ q ∷ l) = last_of (q ∷ l)

pub record Shows (m : CqItems) (cq : Cq) (l : List ℕ) : Type 0 where
  pub linked : Linked m cq.head l
  pub tail : cq.tail ≡ last_of l
  pub distinct : Distinct l

pub set_next_other : (m : CqItems) (p q : ℕ) (n : Option ℕ) → p ≢ q → set_next p n m q ≡ m q
set_next_other m p q n h = ground (arith, h)

pub set_next_self : (m : CqItems) (p : ℕ) (n : Option ℕ) → (set_next p n m p).next ≡ n
set_next_self m p n = ground arith

-- An item that is not in the list may change.
pub update-Linked :
    (m : CqItems) (p : ℕ) (c : CqItem) (h : Option ℕ) (l : List ℕ)
    → Absent p l
    → Linked m h l
    → Linked (update m p c) h l
update-Linked m p c h [] a k = k
update-Linked m p c h (q ∷ l) a k =
    let same : update m p c q ≡ m q = ground (arith, a.0) in
    (
      k.0,
      subst (λ g. Linked (update m p c) g l) (sym (ap (λ i. i.next) same))
          (update-Linked m p c (m q).next l a.1 k.1),
    )

-- What is left of a queue behind its first item.
abbrev behind : CqItems → Cq → ℕ → Cq
behind m cq p = record { head = (m p).next; tail = tail_after (m p).next cq.tail }

behind-Shows :
    (m : CqItems) (cq : Cq) (p : ℕ) (l : List ℕ) → Shows m cq (p ∷ l) → Shows m (behind m cq p) l
unfolding tail_after
behind-Shows m cq p [] s = record {
  linked = s.linked.1;
  tail = rw s.linked.1 refl;
  distinct = s.distinct.1;
}
behind-Shows m cq p (q ∷ l) s = record {
  linked = s.linked.1;
  tail = rw (s.linked.1).0 s.tail;
  distinct = s.distinct.1;
}

-- cq_pop of a queue gives its first item, and leaves the others.
pub cq_pop-Shows :
    (m : CqItems) (cq : Cq) (p : ℕ) (l : List ℕ)
    → Shows m cq (p ∷ l)
    → ((cq_pop m cq).0 ≡ some p) × Shows m (cq_pop m cq).1 l
unfolding cq_pop
cq_pop-Shows m cq p l s =
    let e : cq_pop m cq ≡ (some p, behind m cq p) = rw (cq_pop, s.linked.0) refl in
    (ap (λ r. r.0) e, subst (λ r. Shows m r.1 l) (sym e) (behind-Shows m cq p l s))

Absent-last : (p q t : ℕ) (l : List ℕ) → Absent p (q ∷ l) → last_of (q ∷ l) ≡ some t → p ≢ t
Absent-last p q t [] a e = ground (arith, a.0, e)
Absent-last p q t (x ∷ l) a e = Absent-last p x t l a.1 e

Absent-append : (p x : ℕ) (l : List ℕ) → Absent p l → p ≢ x → Absent p (l ++ x ∷ [])
Absent-append p x [] a h = (h, tt)
Absent-append p x (q ∷ l) a h = (a.0, Absent-append p x l a.1 h)

Distinct-append : (x : ℕ) (l : List ℕ) → Absent x l → Distinct l → Distinct (l ++ x ∷ [])
Distinct-append x [] a d = (tt, tt)
Distinct-append x (q ∷ l) a d =
    (Absent-append q x l d.0 (λ e. a.0 (sym e)), Distinct-append x l a.1 d.1)

last_of-append : (x : ℕ) (l : List ℕ) → last_of (l ++ x ∷ []) ≡ some x
last_of-append x [] = refl
last_of-append x (p ∷ []) = refl
last_of-append x (p ∷ q ∷ l) = last_of-append x (q ∷ l)

last_of-some : (p : ℕ) (l : List ℕ) → (t : ℕ) × (last_of (p ∷ l) ≡ some t)
last_of-some p [] = (p, refl)
last_of-some p (q ∷ l) = last_of-some q l

-- The pointer of the last item leads to a new one.
extend-Linked :
    (m : CqItems) (h : Option ℕ) (p : ℕ) (l : List ℕ) (t x : ℕ)
    → Linked m h (p ∷ l)
    → last_of (p ∷ l) ≡ some t
    → Distinct (p ∷ l)
    → x ≢ t
    → (m x).next ≡ none
    → Linked (set_next t (some x) m) h (p ∷ l ++ x ∷ [])
extend-Linked m h p [] t x k e d other ends =
    let same : p ≡ t = ground (arith, e) in
    (
      k.0,
      (
        rw same (set_next_self m t (some x)),
        ap (λ c. c.next) (set_next_other m t x (some x) (λ q. other (sym q))) ∙ ends,
      ),
    )
extend-Linked m h p (q ∷ l) t x k e d other ends =
    let differs = Absent-last p q t l d.0 e in
    (
      k.0,
      subst (λ g. Linked (set_next t (some x) m) g ((q ∷ l) ++ x ∷ []))
          (sym (ap (λ c. c.next) (set_next_other m t p (some x) (λ s. differs (sym s)))))
          (extend-Linked m (m p).next q l t x k.1 e d.1 other ends),
    )

push_more :
    (m : CqItems) (cq : Cq) (x p : ℕ) (l : List ℕ)
    → Absent x (p ∷ l)
    → Shows m cq (p ∷ l)
    → Shows (cq_push x (m, cq)).0 (cq_push x (m, cq)).1 ((p ∷ l) ++ x ∷ [])
unfolding cq_push
push_more m cq x p l a s =
    let (t, last) = last_of-some p l in
    let m1 = set_next x none m in
    let e : cq_push x (m, cq) ≡ (set_next t (some x) m1, record { head = cq.head; tail = some x }) =
      rw (cq_push, s.tail ∙ last) refl in
    subst (λ r. Shows r.0 r.1 ((p ∷ l) ++ x ∷ [])) (sym e)
      (record {
        linked =
            extend-Linked m1 cq.head p l t x (update-Linked m x _ cq.head (p ∷ l) a s.linked) last
              s.distinct (Absent-last x p t l a last) (set_next_self m x none);
        tail = sym (last_of-append x (p ∷ l));
        distinct = Distinct-append x (p ∷ l) a s.distinct;
      })

-- cq_push of an item that is not in a queue puts it at the end.
pub cq_push-Shows :
    (m : CqItems) (cq : Cq) (x : ℕ) (l : List ℕ)
    → Absent x l
    → Shows m cq l
    → Shows (cq_push x (m, cq)).0 (cq_push x (m, cq)).1 (l ++ x ∷ [])
unfolding cq_push
cq_push-Shows m cq x [] a s =
    let e : cq_push x (m, cq) ≡ (set_next x none m, record { head = some x; tail = some x }) =
      rw (cq_push, s.tail) refl in
    subst (λ r. Shows r.0 r.1 (x ∷ [])) (sym e)
      (record { linked = (refl, set_next_self m x none); tail = refl; distinct = (tt, tt) })
cq_push-Shows m cq x (p ∷ l) a s = push_more m cq x p l a s
