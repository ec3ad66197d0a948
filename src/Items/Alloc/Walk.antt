-- ===== src/Items/Alloc/Walk.antt =====
-- The walk of do_item_alloc in memcached-1.4/items.c ends: no list without crawler markers keeps it going.
use mathlib.Core.Option
use reading_and_comprehense.Base.{
  ℕ, zero, suc, ◌+◌, ◌-◌, ◌<◌, ◌≤◌, ◌≡◌, refl, sym, ◌∙◌, Bool, true, false, Option, none, some,
  arith, ltb, if◌then◌else◌, Bool-cases, inl, inr,
}
use reading_and_comprehense.Memory.{Memory}
use reading_and_comprehense.Slabs.{do_slabs_free, do_slabs_alloc}
use reading_and_comprehense.Items.{
  Store, ItemStats, item_at, edit, refcount_incr, refcount_decr, do_item_update, do_item_unlink,
  do_item_remove, item_free, item_unlink_q, item_link_q, hash_delete, mark_unlinked,
}
use reading_and_comprehense.Items.Alloc.{
  Env, Step, again, stop, Walked, is_crawler, edit_stats, count_reflocked, count_repair,
  skip_referenced, take_expired, evict, alloc_or_evict, walk_body, walk, prev_of,
}

-- No item is the marker of a crawler.
unfoldable pub NoCrawler : Store → Type 0
NoCrawler st = (q : ℕ) → is_crawler (item_at st q) ≡ false

update_plain : (p : ℕ) (st : Store) → NoCrawler st → NoCrawler (do_item_update p st)
unfolding NoCrawler do_item_update item_link_q item_unlink_q
update_plain p st h q = ground (arith, h q, h p)

incr_plain : (p : ℕ) (st : Store) → NoCrawler st → NoCrawler (refcount_incr p st)
unfolding NoCrawler refcount_incr
incr_plain p st h q = ground (arith, h q, h p)

decr_plain : (p : ℕ) (st : Store) → NoCrawler st → NoCrawler (refcount_decr p st)
unfolding NoCrawler refcount_decr
decr_plain p st h q = ground (arith, h q, h p)

remove_plain : (p : ℕ) (st : Store) → NoCrawler st → NoCrawler (do_item_remove p st)
unfolding NoCrawler do_item_remove refcount_decr item_free do_slabs_free
remove_plain p st h q = ground (arith, h q, h p)

detach_plain :
    (p hv : ℕ) (st : Store)
    → NoCrawler st
    → NoCrawler (item_unlink_q p (hash_delete p hv (mark_unlinked p st)))
unfolding NoCrawler item_unlink_q hash_delete mark_unlinked
detach_plain p hv st h q = ground (arith, h q, h p)

unlink_plain : (p hv : ℕ) (st : Store) → NoCrawler st → NoCrawler (do_item_unlink p hv st)
unfolding NoCrawler do_item_unlink
unlink_plain p hv st h q = elim (Bool-cases (item_at st p).flags.linked) [
  | inl e ↦ rw e (remove_plain p _ (detach_plain p hv st h) q)
  | inr e ↦ rw e (h q)
]

-- What a step of the walk that goes on has left: fewer tries, of one kind or the other.
Smaller : ℕ → ℕ → Option Step → Type 0
Smaller tries reflocked (some (again t r st)) = NoCrawler st × (t + r < tries + reflocked)
Smaller tries reflocked _ = Unit

if_plain : (b : Bool) (x y : Store) → NoCrawler x → NoCrawler y → NoCrawler (if b then x else y)
if_plain true x y hx hy = hx
if_plain false x y hx hy = hy

edit_plain :
    (p : ℕ) (st : Store) → NoCrawler st → NoCrawler (edit p (λ it. record it { refcount = 1 }) st)
unfolding NoCrawler
edit_plain p st h q = ground (arith, h q, h p)

stats_plain :
    (id : ℕ) (f : ItemStats → ItemStats) (st : Store)
    → NoCrawler st
    → NoCrawler (edit_stats id f st)
unfolding NoCrawler
stats_plain id f st h q = h q

stop-Smaller :
    (tries reflocked : ℕ) (it : Option ℕ) (tried : Bool) (n : ℕ) (st : Store)
    → Smaller tries reflocked (some (stop it tried n st))
unfolding Smaller
stop-Smaller tries reflocked it tried n st = tt

step-Smaller :
    (tries reflocked more : ℕ) (st : Store)
    → NoCrawler st
    → Smaller tries reflocked (
        some (
          if ltb (reflocked - 1) 1
          then stop none false more st
          else again tries (reflocked - 1) st))
unfolding Smaller
step-Smaller tries reflocked more st h = elim (Bool-cases (ltb (reflocked - 1) 1)) [
  | inl e ↦ rw e tt
  | inr e ↦ rw e (h, ground (arith, e))
]

mapped_stops :
    (tries reflocked : ℕ) (g : Store → Step) (o : Option Store)
    → ((s : Store) → Smaller tries reflocked (some (g s)))
    → Smaller tries reflocked (Option.map g o)
unfolding Smaller
mapped_stops tries reflocked g none h = tt
mapped_stops tries reflocked g (some s) h = h s

if_Smaller :
    (b : Bool) (tries reflocked : ℕ) (x y : Option Step)
    → Smaller tries reflocked x
    → Smaller tries reflocked y
    → Smaller tries reflocked (if b then x else y)
if_Smaller true tries reflocked x y hx hy = hx
if_Smaller false tries reflocked x y hx hy = hy

plain_at : (p : ℕ) (st : Store) → NoCrawler st → is_crawler (item_at st p) ≡ false
unfolding NoCrawler
plain_at p st h = h p

busy :
    (p tries reflocked : ℕ) (st : Store)
    → NoCrawler st
    → Smaller (suc tries) reflocked (some (again (suc tries - 1) reflocked st))
unfolding Smaller
busy p tries reflocked st h = (h, omega arith)

module _ (env : Env) (id ntotal cur_hv : ℕ) where
  skip-Smaller :
      (p hv tries reflocked : ℕ) (st : Store)
      → NoCrawler st
      → Smaller tries reflocked
          (some (skip_referenced env id ntotal cur_hv p hv tries reflocked st))
  unfolding skip_referenced
  skip-Smaller p hv tries reflocked st h =
      let h1 = stats_plain id count_reflocked _ (decr_plain p _ (update_plain p st h)) in
      step-Smaller tries reflocked (tries + 1) _ (
        if_plain _ _ _ (unlink_plain p hv _ (edit_plain p _ (stats_plain id count_repair _ h1))) h1)

  take-Smaller :
      (p hv tries reflocked tries' : ℕ) (st : Store)
      → Smaller tries reflocked (take_expired env id ntotal cur_hv p hv tries' st)
  unfolding take_expired
  take-Smaller p hv tries reflocked tries' st =
      mapped_stops tries reflocked _ _ (λ s. stop-Smaller tries reflocked _ _ _ _)

  evict-Smaller :
      (p hv tries reflocked tries' : ℕ) (st : Store)
      → Smaller tries reflocked (evict env id ntotal cur_hv p hv tries' st)
  unfolding evict
  evict-Smaller p hv tries reflocked tries' st =
      if_Smaller st.settings.evict_to_free tries reflocked _ _
        (mapped_stops tries reflocked _ _ (λ s. stop-Smaller tries reflocked _ _ _ _))
        (stop-Smaller tries reflocked _ _ _ _)

  alloc_of :
      (p hv tries reflocked tries' : ℕ) (st : Store) (g : Option ℕ × Memory)
      → Smaller tries reflocked (elim g.0 [
        | some q ↦ some (stop (some q) false tries' (refcount_decr p (record st { memory = g.1 })))
        | none ↦ evict env id ntotal cur_hv p hv tries' (record st { memory = g.1 })
      ])
  alloc_of p hv tries reflocked tries' st (none, m) = evict-Smaller p hv tries reflocked tries' _
  alloc_of p hv tries reflocked tries' st (some q, m) = stop-Smaller tries reflocked _ _ _ _

  alloc-Smaller :
      (p hv tries reflocked tries' : ℕ) (st : Store)
      → Smaller tries reflocked (alloc_or_evict env id ntotal cur_hv p hv tries' st)
  unfolding alloc_or_evict
  alloc-Smaller p hv tries reflocked tries' st =
      alloc_of p hv tries reflocked tries' st (do_slabs_alloc st.settings ntotal id st.memory)

  body-Smaller :
      (p tries reflocked : ℕ) (st : Store)
      → NoCrawler st
      → Smaller (suc tries) reflocked (walk_body env id ntotal cur_hv p (suc tries) reflocked st)
  unfolding walk_body
  body-Smaller p tries reflocked st h =
      let h1 = incr_plain p st h in
      rw (plain_at p st h) (
        if_Smaller _ (suc tries) reflocked _ _ (busy p tries reflocked st h) (
          if_Smaller _ (suc tries) reflocked _ _ (skip-Smaller p _ (suc tries) reflocked _ h1) (
            if_Smaller _ (suc tries) reflocked _ _
              (take-Smaller p _ (suc tries) reflocked (suc tries) _)
              (alloc-Smaller p _ (suc tries) reflocked (suc tries) _))))

  -- What follows a step, with the fuel that is left.
  after_step : ℕ → Option ℕ → ℕ → Option Step → Option Walked
  after_step fuel next p none = none
  after_step fuel next p (some (again tries reflocked st)) =
      walk env id ntotal cur_hv fuel next tries reflocked st
  after_step fuel next p (some (stop it tried tries st)) =
      some (record { it = it; tried_alloc = tried; tries = tries; search = some p; store = st })

  step_eta :
      (fuel : ℕ) (next : Option ℕ) (p : ℕ) (o : Option Step)
      → ◌≡◌ {A = Option Walked}
          (elim o [
            | none ↦ none
            | some (again tries' reflocked' st') ↦
                walk env id ntotal cur_hv fuel next tries' reflocked' st'
            | some (stop it tried tries' st') ↦ some (record {
              it = it;
              tried_alloc = tried;
              tries = tries';
              search = some p;
              store = st';
            })
          ])
          (after_step fuel next p o)
  unfolding after_step
  step_eta fuel next p none = refl
  step_eta fuel next p (some (again t r s)) = refl
  step_eta fuel next p (some (stop it tried t s)) = refl

  walk_step :
      (fuel p tries reflocked : ℕ) (st : Store)
      → walk env id ntotal cur_hv (suc fuel) (some p) (suc tries) reflocked st
        ≡ after_step fuel
            (prev_of p (st.lru id))
            p
            (walk_body env id ntotal cur_hv p (suc tries) reflocked st)
  unfolding walk after_step
  walk_step fuel p tries reflocked st =
      step_eta fuel (prev_of p (st.lru id)) p
        (walk_body env id ntotal cur_hv p (suc tries) reflocked st)

  same_after :
      (fuel tries reflocked : ℕ) (next : Option ℕ) (p : ℕ) (o : Option Step)
      → Smaller (suc tries) reflocked o
      → tries + reflocked ≤ fuel
      → ((t r : ℕ) (s : Store)
          → NoCrawler s
          → t + r ≤ fuel
          → walk env id ntotal cur_hv (suc fuel) next t r s
            ≡ walk env id ntotal cur_hv fuel next t r s)
      → after_step (suc fuel) next p o ≡ after_step fuel next p o
  unfolding after_step Smaller
  same_after fuel tries reflocked next p none h enough ih = refl
  same_after fuel tries reflocked next p (some (again t r s)) h enough ih =
      ih t r s h.0 (omega (arith, h.1, enough))
  same_after fuel tries reflocked next p (some (stop it tried t s)) h enough ih = refl

  -- Without markers of a crawler, the walk takes as many steps at most as there are tries of both kinds:
  -- with more fuel than their number the result is the same.
  pub walk_more :
      (fuel : ℕ) (search : Option ℕ) (tries reflocked : ℕ) (st : Store)
      → NoCrawler st
      → tries + reflocked ≤ fuel
      → walk env id ntotal cur_hv (suc fuel) search tries reflocked st
        ≡ walk env id ntotal cur_hv fuel search tries reflocked st
  unfolding walk
  walk_more zero none tries reflocked st h enough = refl
  walk_more zero (some p) zero reflocked st h enough = refl
  walk_more zero (some p) (suc tries) reflocked st h enough = absurd (omega (arith, enough))
  walk_more (suc fuel) none tries reflocked st h enough = refl
  walk_more (suc fuel) (some p) zero reflocked st h enough = refl
  walk_more (suc fuel) (some p) (suc tries) reflocked st h enough =
      walk_step (suc fuel) p tries reflocked st
      ∙ same_after fuel tries reflocked (prev_of p (st.lru id)) p _
          (body-Smaller p tries reflocked st h) (omega (arith, enough))
          (λ t r s hs more. walk_more fuel (prev_of p (st.lru id)) t r s hs more)
      ∙ sym (walk_step fuel p tries reflocked st)
