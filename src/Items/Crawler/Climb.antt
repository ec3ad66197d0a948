-- ===== src/Items/Crawler/Climb.antt =====
-- One round of the LRU crawler of memcached-1.4/items.c for one class: the crawler comes one place
-- nearer to the head of its list or is taken out, and the other crawlers stay.
use reading_and_comprehense.Base.{
  ℕ, ◌+◌, ◌<◌, ◌≤◌, ◌≡◌, ◌≢◌, ◌⊎◌, inl, inr, refl, ◌∙◌, true, false, Option, none, some, List, [],
  ◌∷◌, arith, ◌==◌, if◌then◌else◌, Bool-cases,
}
use reading_and_comprehense.Assoc.Chain.{to_nat}
use reading_and_comprehense.Memory.{sub32}
use reading_and_comprehense.Items.{
  Store, item_at, remove_ptr, refcount_incr, refcount_decr, item_free, do_item_remove,
  do_item_unlink, mark_unlinked, hash_delete, item_unlink_q,
}
use reading_and_comprehense.Slabs.{do_slabs_free}
use reading_and_comprehense.Items.Alloc.{Env, expired_or_flushed}
use reading_and_comprehense.Items.Consistent.{count_ptr}
use reading_and_comprehense.Items.Crawler.{Crawl, enabled, crawl_list, visit, item_crawler_evaluate}

-- The items before an address in a list.
unfoldable pub ahead : ℕ → List ℕ → ℕ
ahead p [] = 0
ahead p (x ∷ xs) = let n = ahead p xs in if x == p then 0 else n + 1

pub ahead-remove : (p x : ℕ) (xs : List ℕ) → x ≢ p → ahead p (remove_ptr x xs) ≤ ahead p xs
unfolding ahead remove_ptr
ahead-remove p x [] ne = omega arith
ahead-remove p x (y ∷ xs) ne = ground (arith, ahead-remove p x xs)

pub count-remove_other :
    (p x : ℕ) (xs : List ℕ) → x ≢ p → count_ptr p (remove_ptr x xs) ≡ count_ptr p xs
unfolding count_ptr remove_ptr
count-remove_other p x [] ne = refl
count-remove_other p x (y ∷ xs) ne = ground (arith, count-remove_other p x xs)

-- What crawl_list does with a list in which the crawler stands once.
pub data Crawled (p : ℕ) (xs : List ℕ) : Option ℕ × List ℕ → Type 0 where
  done :
      {ys : List ℕ}
      → count_ptr p (remove_ptr p ys) ≡ 0
      → ((q : ℕ) → q ≢ p → (count_ptr q ys ≡ count_ptr q xs))
      → Crawled p xs (none, ys)
  moved :
      {x : ℕ} {ys : List ℕ}
      → x ≢ p
      → 0 < count_ptr x xs
      → ahead p ys + 1 ≡ ahead p xs
      → ((q : ℕ) → count_ptr q ys ≡ count_ptr q xs)
      → Crawled p xs (some x, ys)

none_there : (p : ℕ) → count_ptr p [] ≢ 1
unfolding count_ptr
none_there p h = ground arith

tail_count : (p x : ℕ) (xs : List ℕ) → x ≢ p → count_ptr p (x ∷ xs) ≡ 1 → count_ptr p xs ≡ 1
unfolding count_ptr
tail_count p x xs ne h = ground arith

absent-remove : (p : ℕ) (xs : List ℕ) → count_ptr p xs ≡ 0 → count_ptr p (remove_ptr p xs) ≡ 0
unfolding count_ptr remove_ptr
absent-remove p [] h = refl
absent-remove p (x ∷ xs) h = ground (arith, absent-remove p xs)

cons-Crawled :
    (p x : ℕ) (xs : List ℕ) (r : Option ℕ × List ℕ)
    → x ≢ p
    → Crawled p xs r
    → Crawled p (x ∷ xs) (r.0, x ∷ r.1)
unfolding count_ptr ahead remove_ptr
cons-Crawled p x xs _ ne (done out same) =
    done (ground (arith, out)) (λ q other. ground (arith, same q other))
cons-Crawled p x xs _ ne (moved other here up same) =
    moved other (ground (arith, here)) (ground (arith, up)) (λ q. ground (arith, same q))

at_head :
    (p x y : ℕ) (xs : List ℕ)
    → count_ptr p (x ∷ y ∷ xs) ≡ 1
    → x ≡ p
    → Crawled p (x ∷ y ∷ xs) (none, y ∷ xs)
unfolding count_ptr
at_head p x y xs h e = done (absent-remove p (y ∷ xs) (ground arith)) (λ q other. ground arith)

swapped : (p x y : ℕ) (xs : List ℕ) → x ≢ p → y ≡ p → Crawled p (x ∷ y ∷ xs) (some x, p ∷ x ∷ xs)
unfolding count_ptr ahead
swapped p x y xs ne e = moved ne (ground arith) (ground arith) (λ q. ground arith)

only_one : (p x : ℕ) → count_ptr p (x ∷ []) ≡ 1 → Crawled p (x ∷ []) (none, x ∷ [])
unfolding count_ptr remove_ptr
only_one p x h = done (ground arith) (λ q other. refl)

pub crawl_list-Crawled : (p : ℕ) (xs : List ℕ) → count_ptr p xs ≡ 1 → Crawled p xs (crawl_list p xs)
unfolding crawl_list
crawl_list-Crawled p [] h = absurd (none_there p h)
crawl_list-Crawled p (x ∷ []) h = only_one p x h
crawl_list-Crawled p (x ∷ y ∷ xs) h = elim (Bool-cases (x == p)) [
  | inl e ↦ rw e (at_head p x y xs h (ground arith))
  | inr ne ↦ elim (Bool-cases (y == p)) [
    | inl e ↦ rw (ne, e) (swapped p x y xs (ground arith) (ground arith))
    | inr more ↦
        rw (ne, more)
          (cons-Crawled p x (y ∷ xs) (crawl_list p (y ∷ xs)) (ground arith)
            (crawl_list-Crawled p (y ∷ xs) (tail_count p x (y ∷ xs) (ground arith) h)))
  ]
]

module _ (x : ℕ) (st : Store) where
  pub remove-lru : (k : ℕ) → (do_item_remove x st).lru k ≡ st.lru k
  unfolding do_item_remove refcount_decr item_free
  remove-lru k = ground arith

  pub remove-others : (q : ℕ) → q ≢ x → item_at (do_item_remove x st) q ≡ item_at st q
  unfolding do_item_remove refcount_decr item_free do_slabs_free
  remove-others q ne = ground arith

module _ (x hv : ℕ) (st : Store) where
  pub unlink-lru :
      (k : ℕ)
      → ((do_item_unlink x hv st).lru k ≡ st.lru k)
        ⊎ ((do_item_unlink x hv st).lru k ≡ remove_ptr x (st.lru k))
  unfolding do_item_unlink mark_unlinked hash_delete item_unlink_q
  unlink-lru k =
      ground (arith, remove-lru x (item_unlink_q x (hash_delete x hv (mark_unlinked x st))) k)

  pub unlink-others : (q : ℕ) → q ≢ x → item_at (do_item_unlink x hv st) q ≡ item_at st q
  unfolding do_item_unlink mark_unlinked hash_delete item_unlink_q
  unlink-others q ne =
      ground (arith, remove-others x (item_unlink_q x (hash_delete x hv (mark_unlinked x st))) q)

module _ (x hv : ℕ) (st : Store) where
  abbrev dropped : Store
  dropped = do_item_remove x (do_item_unlink x hv st)

  drop-lru : (k : ℕ) → (dropped.lru k ≡ st.lru k) ⊎ (dropped.lru k ≡ remove_ptr x (st.lru k))
  drop-lru k = ground (arith, remove-lru x (do_item_unlink x hv st) k, unlink-lru x hv st k)

  drop-others : (q : ℕ) → q ≢ x → item_at dropped q ≡ item_at st q
  drop-others q ne = remove-others x (do_item_unlink x hv st) q ne ∙ unlink-others x hv st q ne

module _ (x hv i : ℕ) (st : Store) where
  evaluate-lru :
      (k : ℕ)
      → ((item_crawler_evaluate x hv i st).lru k ≡ st.lru k)
        ⊎ ((item_crawler_evaluate x hv i st).lru k ≡ remove_ptr x (st.lru k))
  unfolding item_crawler_evaluate refcount_decr
  evaluate-lru k = elim (Bool-cases (expired_or_flushed st (item_at st x))) [
    | inl e ↦ rw e (drop-lru x hv _ k)
    | inr e ↦ rw e (inl refl)
  ]

  evaluate-others : (q : ℕ) → q ≢ x → item_at (item_crawler_evaluate x hv i st) q ≡ item_at st q
  unfolding item_crawler_evaluate refcount_decr
  evaluate-others q ne = elim (Bool-cases (expired_or_flushed st (item_at st x))) [
    | inl e ↦ rw e (drop-others x hv _ q ne)
    | inr e ↦ rw e (ground arith)
  ]

-- What the crawler does with an item may take the item out of a list, and writes to it alone.
module _ (env : Env) (i x : ℕ) (st : Store) where
  pub visit-lru :
      (k : ℕ)
      → ((visit env i x st).lru k ≡ st.lru k) ⊎ ((visit env i x st).lru k ≡ remove_ptr x (st.lru k))
  unfolding visit refcount_incr refcount_decr
  visit-lru k =
      let hv = env.hash (item_at st x).key in
      elim (Bool-cases (env.trylock hv)) [
        | inr busy ↦ rw busy (inl refl)
        | inl free ↦ rw free (elim (Bool-cases ((item_at (refcount_incr x st) x).refcount == 2)) [
          | inr held ↦ rw held (inl refl)
          | inl ours ↦ rw ours (evaluate-lru x hv i (refcount_incr x st) k)
        ])
      ]

  pub visit-others : (q : ℕ) → q ≢ x → item_at (visit env i x st) q ≡ item_at st q
  unfolding visit refcount_incr refcount_decr
  visit-others q ne =
      let hv = env.hash (item_at st x).key in
      elim (Bool-cases (env.trylock hv)) [
        | inr busy ↦ rw busy refl
        | inl free ↦ rw free (elim (Bool-cases ((item_at (refcount_incr x st) x).refcount == 2)) [
          | inr held ↦ rw held (ground arith)
          | inl ours ↦ rw ours (evaluate-others x hv i (refcount_incr x st) q ne ∙ ground arith)
        ])
      ]

-- The crawlers stand in the lists: an enabled crawler once in the list of its class, no other anywhere.
pub record Placed (c : Crawl) : Type 0 where
  pub distinct : (i j : ℕ) → i ≢ j → c.crawlers.crawler i ≢ c.crawlers.crawler j
  pub mine : (i : ℕ) → count_ptr (c.crawlers.crawler i) (c.store.lru i) ≡ to_nat (enabled c i)
  pub others : (i j : ℕ) → i ≢ j → count_ptr (c.crawlers.crawler i) (c.store.lru j) ≡ 0

abbrev pub ahead_of : Crawl → ℕ → ℕ
ahead_of c i = ahead (c.crawlers.crawler i) (c.store.lru i)

-- The class has no crawler, or it is taken out, or it comes nearer to the head.
abbrev pub Outcome : ℕ → Crawl → Crawl → Type 0
Outcome i c c' =
    ((enabled c i ≡ false)
      × (enabled c' i ≡ false)
      × (c'.crawlers.crawler_count ≡ c.crawlers.crawler_count))
    ⊎ ((enabled c i ≡ true)
        × (enabled c' i ≡ false)
        × (c'.crawlers.crawler_count ≡ sub32 c.crawlers.crawler_count 1))
    ⊎ ((enabled c i ≡ true)
        × (enabled c' i ≡ true)
        × (ahead_of c' i < ahead_of c i)
        × (c'.crawlers.crawler_count ≡ c.crawlers.crawler_count))

-- A round for the class `i`.
pub record Passed (i : ℕ) (c c' : Crawl) : Type 0 where
  pub array : (j : ℕ) → c'.crawlers.crawler j ≡ c.crawlers.crawler j
  pub same : (j : ℕ) → j ≢ i → enabled c' j ≡ enabled c j
  pub no_further : (j : ℕ) → j ≢ i → ahead_of c' j ≤ ahead_of c j
  pub outcome : Outcome i c c'
  pub placed : Placed c'
