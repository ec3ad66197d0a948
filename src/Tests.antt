-- ===== src/Tests.antt =====
-- A small cache on which the theorems about memcached-1.4 are applied: two slab classes, a stored item
-- at the address 200, a new one with the same key at 100, and one at 300 with room for the data of both.
mod Tables
mod Stores
mod Pages
mod Texts
mod Queues
mod Packets
mod Workers
use reading_and_comprehense.Base.{
  ℕ, ◌+◌, ◌/◌, ◌^◌, ◌-◌, ◌<◌, ◌≤◌, ◌≡◌, ◌≢◌, refl, Bool, true, false, Option, none, some, List, [],
  ◌∷◌, arith, ltb, leb, ◌==◌, if◌then◌else◌, length, update, bytes_eq, Option-cases, ◌⊎◌, inl, inr,
}
use native.Mathlib.Decide.{ℕ_discrete}
use reading_and_comprehense.Assoc.{Assoc, assoc_find}
use reading_and_comprehense.Assoc.Chain.{Key, find_chain, count}
use reading_and_comprehense.Assoc.Valid
use reading_and_comprehense.Memory.{
  Item, Memory, SlabClass, Settings, no_flags, zero_item, zero_class,
}
use reading_and_comprehense.Slabs.Reassign.{Rebalance}
use reading_and_comprehense.Items.{Store, item_at, zero_stats, do_item_link}
use reading_and_comprehense.Items.Consistent.{Consistent, stored, count_ptr}
use reading_and_comprehense.Items.Link.{
  Linkable, Linked, do_item_link-Linked, do_item_link-Consistent,
}
use reading_and_comprehense.Items.Get.{Room}
use reading_and_comprehense.Items.Alloc.{Env}
use reading_and_comprehense.Items.Alloc.Walk.{NoCrawler}
use reading_and_comprehense.Stats.{stats_prefix_clear}
use reading_and_comprehense.Conn.{
  Server, Conn, ThreadStats, SlabStats, Nread, conn_parse_cmd, conn_new_cmd,
}

abbrev pub hash : Key → ℕ
hash key = length key

abbrev pub table : Assoc
table = record {
  hashpower = 2;
  primary_hashtable = λ _. [];
  old_hashtable = λ _. [];
  hash_items = 0;
  expanding = false;
  started_expanding = false;
  expand_bucket = 0;
  hash_power_level = 2;
  hash_bytes = 32;
  hash_is_expanding = false;
}

abbrev pub key_a : Key
key_a = b'a' ∷ []

abbrev pub item_a : ℕ → Item
item_a cas = record {
  time = 0;
  exptime = 0;
  nbytes = 4;
  refcount = 1;
  flags = record no_flags { cas = true };
  slabs_clsid = 1;
  cas = cas;
  key = key_a;
  suffix = b' ' ∷ b'0' ∷ b' ' ∷ b'2' ∷ 13 ∷ 10 ∷ [];
  value = b'4' ∷ b'1' ∷ 13 ∷ 10 ∷ [];
}

abbrev pub items : ℕ → Item
items p =
    if p == 200
    then item_a 5
    else if p == 100
    then item_a 1
    else if p == 300
    then record (item_a 2) { nbytes = 6; value = [] }
    else zero_item

abbrev pub small_class : ℕ → SlabClass
small_class size = record zero_class { size = size; perslab = 1024 / size; slabs = 3 }

abbrev pub memory : Memory
memory = record {
  items = items;
  slabclass =
      λ i. if i == 1 then small_class 128 else if i == 2 then small_class 512 else zero_class;
  mem_limit = 4096;
  mem_malloced = 0;
  power_largest = 2;
  mem_base = none;
  mem_current = 0;
  mem_avail = 0;
  heap_next = 1000;
  heap_left = 8192;
}

abbrev pub settings : Settings
settings = record {
  use_cas = true;
  oldest_live = 0;
  evict_to_free = true;
  item_size_max = 1024;
  chunk_size = 48;
  slab_reassign = true;
  slab_automove = 0;
  tail_repair_time = 0;
  detail_enabled = false;
  flush_enabled = true;
  prefix_delimiter = b':';
  verbose = 0;
  lru_crawler = false;
  lru_crawler_sleep = 100;
  lru_crawler_tocrawl = 0;
  shutdown_command = false;
}

abbrev pub idle : Rebalance
idle = record {
  slab_start = 0;
  slab_end = 0;
  slab_pos = 0;
  s_clsid = 0;
  d_clsid = 0;
  busy_items = 0;
  done = 0;
  signal = 0;
  cur = 1;
  slab_reassign_running = false;
  slabs_moved = 0;
}

abbrev pub empty_store : Store
empty_store = record {
  memory = memory;
  assoc = table;
  lru = λ _. [];
  sizes = λ _. 0;
  itemstats = λ _. zero_stats;
  curr_bytes = 0;
  curr_items = 0;
  total_items = 0;
  cas_id = 6;
  settings = settings;
  current_time = 10;
  rebalance = idle;
}

pub table-IsValid : Valid.IsValid hash table
unfolding count
table-IsValid = record {
  fits = omega arith;
  grown = λ e. ground arith;
  small = λ e. ground arith;
  primary_once = λ q b. ground arith;
  primary_home = λ q b e. ground arith;
  primary_moved = λ q b e f. ground arith;
  old_once = λ q b e. ground arith;
  old_home = λ q b e f. ground arith;
  old_waiting = λ q b e f. ground arith;
}

items_unlinked : (p : ℕ) → (items p).flags.linked ≡ false
items_unlinked p = ground arith

pub empty-Consistent : Consistent hash empty_store
unfolding assoc_find find_chain count_ptr
empty-Consistent = record {
  table = table-IsValid;
  found = λ q p h. ground arith;
  linked = λ p h. ground (arith, items_unlinked p);
  held = λ p h. ground (arith, items_unlinked p);
  listed = λ p c h. ground arith;
  once = λ p h. ground (arith, items_unlinked p);
  sized = λ c. ground arith;
}

pub fresh_a : Linkable hash empty_store 200
unfolding assoc_find find_chain
fresh_a = record { unlinked = refl; absent = refl; room = omega arith }

-- The store with the item at 200 in it.
abbrev pub store : Store
store = do_item_link 200 (hash key_a) empty_store

pub store-Consistent : Consistent hash store
store-Consistent = do_item_link-Consistent hash empty_store 200 empty-Consistent fresh_a

pub linked_a : Linked hash empty_store 200 store
linked_a = do_item_link-Linked hash empty_store 200 fresh_a

store_items : (p : ℕ) → (p ≡ 200) ⊎ ((p ≢ 200) × (item_at store p ≡ items p))
store_items p = elim (ℕ_discrete p 200) [
  | yes same ↦ inl same
  | no other ↦ inr (other, linked_a.others p other)
]

pub store-Room : Room store
store-Room p = ground (arith, store_items p, linked_a.refcount)

pub new_unlinked : (item_at store 100).flags.linked ≡ false
new_unlinked = ground (arith, linked_a.others 100 (λ e. absurd (omega (arith, e))))

abbrev pub zero_slab : SlabStats
zero_slab = record {
  set_cmds = 0;
  get_hits = 0;
  touch_hits = 0;
  delete_hits = 0;
  cas_hits = 0;
  cas_badval = 0;
  incr_hits = 0;
  decr_hits = 0;
}

abbrev pub server : Server
server = record {
  store = store;
  stats = record {
    get_cmds = 0;
    get_misses = 0;
    touch_cmds = 0;
    touch_misses = 0;
    delete_misses = 0;
    incr_misses = 0;
    decr_misses = 0;
    cas_misses = 0;
    flush_cmds = 0;
    slab_stats = λ _. zero_slab;
  };
  prefixes = stats_prefix_clear;
  conn = record {
    state = conn_parse_cmd;
    write_and_go = conn_new_cmd;
    noreply = false;
    item = none;
    cmd = Nread.set;
    cas = 0;
    rcurr = [];
    ritem = 0;
    rlbytes = 0;
    sbytes = 0;
    ilist = [];
    iov = [];
    answers = [];
  };
  process_started = 1000000;
}

abbrev pub env : Env
env = record { hash = hash; trylock = λ _. true; rebalance_free = true }

pub store_linked : (item_at store 200).flags.linked ≡ true
store_linked = linked_a.here

pub store_narrow : (item_at store 200).refcount < 2 ^ 16
store_narrow = omega (arith, linked_a.refcount)

pub store-NoCrawler : NoCrawler store
unfolding NoCrawler
store-NoCrawler q = ground (arith, store_items q, linked_a.key)
