-- ===== src/ConnQueue/Steps.antt =====
-- The life of a queue of memcached-1.4/thread.c: one thread pushes, another pops, and items that are not in
-- the queue change.
use mathlib.Core.Path.{subst}
use reading_and_comprehense.Base.{
  ℕ, ◌≡◌, refl, sym, ap, ◌∙◌, Option, none, some, List, [], ◌∷◌, ◌++◌, arith, update,
}
use reading_and_comprehense.Conn.Tokens.{append_nil}
use reading_and_comprehense.ConnQueue.{CqItems, Cq, CqItem, cq_init, cq_pop, cq_push}
use reading_and_comprehense.ConnQueue.Fifo.{
  Absent, Shows, update-Linked, cq_pop-Shows, cq_push-Shows,
}

abbrev pub one_or_none : Option ℕ → List ℕ
one_or_none none = []
one_or_none (some p) = p ∷ []

-- The item is in no list that the queue shows.
abbrev pub IsOutside : CqItems → Cq → ℕ → Type 0
IsOutside m cq x = (l : List ℕ) → Shows m cq l → Absent x l

-- The items that were pushed and those that were popped so far, each in the order of time.
pub data Steps : CqItems → Cq → List ℕ → List ℕ → Type 0 where
  start : (m : CqItems) → Steps m cq_init [] []
  push :
      {m : CqItems} {cq : Cq} {ins outs : List ℕ} (x : ℕ)
      → Steps m cq ins outs
      → IsOutside m cq x
      → Steps (cq_push x (m, cq)).0 (cq_push x (m, cq)).1 (ins ++ x ∷ []) outs
  pop :
      {m : CqItems} {cq : Cq} {ins outs : List ℕ}
      → Steps m cq ins outs
      → Steps m (cq_pop m cq).1 ins (outs ++ one_or_none (cq_pop m cq).0)
  elsewhere :
      {m : CqItems} {cq : Cq} {ins outs : List ℕ} (x : ℕ) (c : CqItem)
      → Steps m cq ins outs
      → IsOutside m cq x
      → Steps (update m x c) cq ins outs

pub record Kept (m : CqItems) (cq : Cq) (ins outs : List ℕ) : Type 0 where
  pub waiting : List ℕ
  pub order : ins ≡ outs ++ waiting
  pub shows : Shows m cq waiting

append_assoc_one : (a b : List ℕ) (x : ℕ) → (a ++ b) ++ x ∷ [] ≡ a ++ (b ++ x ∷ [])
append_assoc_one [] b x = refl
append_assoc_one (y ∷ a) b x = ap (◌∷◌ y) (append_assoc_one a b x)

append_cons : (a l : List ℕ) (p : ℕ) → a ++ p ∷ l ≡ (a ++ p ∷ []) ++ l
append_cons [] l p = refl
append_cons (y ∷ a) l p = ap (◌∷◌ y) (append_cons a l p)

cq_pop_empty : (m : CqItems) (cq : Cq) → Shows m cq [] → cq_pop m cq ≡ (none, cq)
unfolding cq_pop
cq_pop_empty m cq s = ground (arith, s.linked)

pop-Kept :
    (m : CqItems) (cq : Cq) (ins outs waiting : List ℕ)
    → ins ≡ outs ++ waiting
    → Shows m cq waiting
    → Kept m (cq_pop m cq).1 ins (outs ++ one_or_none (cq_pop m cq).0)
pop-Kept m cq ins outs [] e s =
    subst (λ r. Kept m r.1 ins (outs ++ one_or_none r.0)) (sym (cq_pop_empty m cq s))
      (record { waiting = []; order = e ∙ sym (append_nil (outs ++ [])); shows = s })
pop-Kept m cq ins outs (p ∷ l) e s =
    let (first, rest) = cq_pop-Shows m cq p l s in
    record {
      waiting = l;
      order = e ∙ append_cons outs l p ∙ ap (λ o. (outs ++ one_or_none o) ++ l) (sym first);
      shows = rest;
    }

-- Whatever pushes of items that are not in the queue, pops and changes of other items follow one another,
-- the items that were pushed are those that were popped and then those that wait, all in the order of
-- the pushes; and the pointers of the queue run through those that wait.
pub Steps-Kept :
    {m : CqItems} {cq : Cq} {ins outs : List ℕ} → Steps m cq ins outs → Kept m cq ins outs
unfolding cq_init
Steps-Kept (start m) = record {
  waiting = [];
  order = refl;
  shows = record { linked = refl; tail = refl; distinct = tt };
}
Steps-Kept (push x steps out) =
    let k = Steps-Kept steps in
    record {
      waiting = k.waiting ++ x ∷ [];
      order = ap (λ l. l ++ x ∷ []) k.order ∙ append_assoc_one _ k.waiting x;
      shows = cq_push-Shows _ _ x k.waiting (out k.waiting k.shows) k.shows;
    }
Steps-Kept (pop steps) = let k = Steps-Kept steps in pop-Kept _ _ _ _ k.waiting k.order k.shows
Steps-Kept (elsewhere x c steps out) =
    let k = Steps-Kept steps in
    record {
      waiting = k.waiting;
      order = k.order;
      shows = record {
        linked = update-Linked _ x c _ k.waiting (out k.waiting k.shows) k.shows.linked;
        tail = k.shows.tail;
        distinct = k.shows.distinct;
      };
    }
