-- ===== src/ObjectCache.antt =====
-- The object cache of memcached-1.4/cache.c, as the server builds it, with NDEBUG: a stack of free
-- objects. The mutex makes each operation one step. What calloc, malloc, realloc and the constructor
-- answer are arguments.
pub mod Stack
use reading_and_comprehense.Base.{
  ℕ, ◌+◌, ◌*◌, Bool, true, false, Option, none, some, List, [], ◌∷◌, ltb, leb, if◌then◌else◌,
  length,
}

-- cache_t: `ptr` holds the freecurr free objects, the last one first.
pub record Cache : Type 0 where
  pub ptr : List ℕ
  pub freetotal : ℕ

abbrev pub initial_pool_size : ℕ
initial_pool_size = 64

unfoldable pub cache_create : Bool → Option Cache
cache_create calloc_ok =
    if calloc_ok then some (record { ptr = []; freetotal = initial_pool_size }) else none

-- The objects that are given to the destructor, if there is one, and to free.
unfoldable pub cache_destroy : Cache → List ℕ
cache_destroy c = c.ptr

unfoldable pub cache_alloc : Option ℕ → (ℕ → Bool) → Cache → Option ℕ × Cache
cache_alloc malloced constructed c = elim c.ptr [
  | ret ∷ rest ↦ (some ret, record c { ptr = rest })
  | [] ↦ elim malloced [
    | none ↦ (none, c)
    | some ret ↦ (if constructed ret then some ret else none, c)
  ]
]

-- The cache, and the object that is freed for want of room.
unfoldable pub cache_free : Bool → ℕ → Cache → Option ℕ × Cache
cache_free realloc_ok p c =
    if ltb (length c.ptr) c.freetotal
    then (none, record c { ptr = p ∷ c.ptr })
    else if realloc_ok
    then (none, record c { ptr = p ∷ c.ptr; freetotal = c.freetotal * 2 })
    else (some p, c)
