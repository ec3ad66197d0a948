-- ===== src/ObjectCache/Stack.antt =====
-- The free array of memcached-1.4/cache.c stays within its bounds and is a stack.
use reading_and_comprehense.Base.{
  ℕ, ◌≤◌, ◌≡◌, refl, Bool, true, false, Option, none, some, arith, ltb, length, ◌⊎◌, inl, inr,
  Bool-cases,
}
use reading_and_comprehense.ObjectCache.{Cache, cache_create, cache_alloc, cache_free}

-- The array has room for the free objects, and a length that doubling makes larger.
pub record InBounds (c : Cache) : Type 0 where
  pub fits : length c.ptr ≤ c.freetotal
  pub grows : 1 ≤ c.freetotal

pub create-InBounds : (c : Cache) → cache_create true ≡ some c → InBounds c
unfolding cache_create
create-InBounds c h = record { fits = ground arith; grows = ground arith }

module _ (c : Cache) (b : InBounds c) where
  pub alloc-InBounds :
      (malloced : Option ℕ) (constructed : ℕ → Bool)
      → InBounds (cache_alloc malloced constructed c).1
  unfolding cache_alloc
  alloc-InBounds malloced constructed = record {
    fits = ground (arith, b.fits);
    grows = ground (arith, b.grows);
  }

  module _ (realloc_ok : Bool) (p : ℕ) where
    abbrev freed : Option ℕ × Cache
    freed = cache_free realloc_ok p c

    -- An object that is given back to a cache within its bounds either is kept, within the bounds, and is
    -- the next one handed out, which leaves the free objects as they were; or there is no room and no
    -- memory for more, the object itself is freed, and the cache is as it was.
    pub cache_free-cache_alloc :
        (malloced : Option ℕ) (constructed : ℕ → Bool)
        → InBounds freed.1
          × (((freed.0 ≡ none)
                × ((cache_alloc malloced constructed freed.1).0 ≡ some p)
                × ((cache_alloc malloced constructed freed.1).1.ptr ≡ c.ptr))
              ⊎ ((freed.0 ≡ some p)
                  × (freed.1 ≡ c)
                  × (realloc_ok ≡ false)
                  × (length c.ptr ≡ c.freetotal)))
    unfolding cache_free cache_alloc
    cache_free-cache_alloc malloced constructed =
        elim (Bool-cases (ltb (length c.ptr) c.freetotal)) [
          | inl e ↦
              rw e (record { fits = ground (arith, e); grows = b.grows }, inl (refl, refl, refl))
          | inr e ↦ elim (Bool-cases realloc_ok) [
            | inl r ↦
                rw (e, r)
                  (
                    record {
                      fits = omega (arith, b.fits, b.grows);
                      grows = omega (arith, b.grows);
                    },
                    inl (refl, refl, refl),
                  )
            | inr r ↦ rw (e, r) (b, inr (refl, refl, refl, ground (arith, e, b.fits)))
          ]
        ]
