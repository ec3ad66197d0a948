-- ===== src/Memory.antt =====
-- The records that memcached-1.4/memcached.h declares for items and settings, the slab class of
-- memcached-1.4/slabs.c, and the memory that holds them: items are chunks, named by their address.
pub mod Int
use reading_and_comprehense.Base.{
  ℕ, ◌+◌, ◌-◌, ◌*◌, ◌%◌, ◌^◌, Bool, true, false, not, ◌&&◌, Option, none, some, List, [], ltb, leb,
  ◌==◌, if◌then◌else◌, length, update,
}

-- ITEM_LINKED, ITEM_CAS, ITEM_SLABBED and ITEM_FETCHED of it_flags.
pub record Flags : Type 0 where
  pub linked : Bool
  pub cas : Bool
  pub slabbed : Bool
  pub fetched : Bool

abbrev pub no_flags : Flags
no_flags = record { linked = false; cas = false; slabbed = false; fetched = false }

-- struct _stritem. The list links are in the lists that the item stands in; nkey and nsuffix are the
-- lengths of `key` and `suffix`, and `value` is the data block with its CRLF.
pub record Item : Type 0 where
  pub time : ℕ
  pub exptime : ℕ
  pub nbytes : ℕ
  pub refcount : ℕ
  pub flags : Flags
  pub slabs_clsid : ℕ
  pub cas : ℕ
  pub key : List ℕ
  pub suffix : List ℕ
  pub value : List ℕ

-- A chunk after memset.
abbrev pub zero_item : Item
zero_item = record {
  time = 0;
  exptime = 0;
  nbytes = 0;
  refcount = 0;
  flags = no_flags;
  slabs_clsid = 0;
  cas = 0;
  key = [];
  suffix = [];
  value = [];
}

abbrev pub sizeof_item : ℕ
sizeof_item = 48

abbrev pub cas_size : Bool → ℕ
cas_size has_cas = if has_cas then 8 else 0

-- ITEM_ntotal.
unfoldable pub item_ntotal : Item → ℕ
item_ntotal it =
    sizeof_item + length it.key + 1 + length it.suffix + it.nbytes + cas_size it.flags.cas

-- ITEM_get_cas and ITEM_set_cas.
unfoldable pub item_get_cas : Item → ℕ
item_get_cas it = if it.flags.cas then it.cas else 0

unfoldable pub item_set_cas : ℕ → Item → Item
item_set_cas v it = if it.flags.cas then record it { cas = v } else it

-- slabclass_t: `slots` is the free list, `slab_list` the array of page addresses.
pub record SlabClass : Type 0 where
  pub size : ℕ
  pub perslab : ℕ
  pub slots : List ℕ
  pub sl_curr : ℕ
  pub slabs : ℕ
  pub slab_list : ℕ → ℕ
  pub list_size : ℕ
  pub killing : ℕ
  pub requested : ℕ

abbrev pub zero_class : SlabClass
zero_class = record {
  size = 0;
  perslab = 0;
  slots = [];
  sl_curr = 0;
  slabs = 0;
  slab_list = λ _. 0;
  list_size = 0;
  killing = 0;
  requested = 0;
}

-- The part of `struct settings` that the modelled code reads.
pub record Settings : Type 0 where
  pub use_cas : Bool
  pub oldest_live : ℕ
  pub evict_to_free : Bool
  pub item_size_max : ℕ
  pub chunk_size : ℕ
  pub slab_reassign : Bool
  pub slab_automove : ℕ
  pub tail_repair_time : ℕ
  pub detail_enabled : Bool
  pub flush_enabled : Bool
  pub prefix_delimiter : ℕ
  pub verbose : ℕ
  pub lru_crawler : Bool
  pub lru_crawler_sleep : ℕ
  pub lru_crawler_tocrawl : ℕ
  pub shutdown_command : Bool

-- The static variables of slabs.c with the items. `heap_next` and `heap_left` are the C library's
-- heap: malloc hands out fresh blocks until it has none left.
pub record Memory : Type 0 where
  pub items : ℕ → Item
  pub slabclass : ℕ → SlabClass
  pub mem_limit : ℕ
  pub mem_malloced : ℕ
  pub power_largest : ℕ
  pub mem_base : Option ℕ
  pub mem_current : ℕ
  pub mem_avail : ℕ
  pub heap_next : ℕ
  pub heap_left : ℕ

abbrev pub set_item : ℕ → (Item → Item) → Memory → Memory
set_item p f m = record m { items = update m.items p (f (m.items p)) }

abbrev pub set_class : ℕ → (SlabClass → SlabClass) → Memory → Memory
set_class id f m = record m { slabclass = update m.slabclass id (f (m.slabclass id)) }

-- malloc, and realloc of an array whose contents the caller keeps.
unfoldable pub heap_alloc : ℕ → Memory → Option ℕ × Memory
heap_alloc size m =
    if leb size m.heap_left
    then (
      some m.heap_next,
      record m { heap_next = m.heap_next + size; heap_left = m.heap_left - size },
    )
    else (none, m)

-- Unsigned arithmetic.
abbrev pub add16 : ℕ → ℕ → ℕ
add16 a b = (a + b) % 2 ^ 16

abbrev pub sub16 : ℕ → ℕ → ℕ
sub16 a b = (a + 2 ^ 16 - b) % 2 ^ 16

abbrev pub add32 : ℕ → ℕ → ℕ
add32 a b = (a + b) % 2 ^ 32

abbrev pub sub32 : ℕ → ℕ → ℕ
sub32 a b = (a + 2 ^ 32 - b) % 2 ^ 32

abbrev pub add64 : ℕ → ℕ → ℕ
add64 a b = (a + b) % 2 ^ 64

abbrev pub sub64 : ℕ → ℕ → ℕ
sub64 a b = (a + 2 ^ 64 - b) % 2 ^ 64
