-- ===== src/Tests/Stores.antt =====
-- The theorems on items and on the commands that read and change them, applied to a small cache.
use reading_and_comprehense.Base.{
  ℕ, true, Bool, none, false, ◌⊎◌, ◌≡◌, refl, true, some, [], ◌∷◌, ◌++◌, arith, if◌then◌else◌, take,
}
use reading_and_comprehense.Util.{safe_strtoull, decimal, digits_of}
use reading_and_comprehense.Items.{
  do_item_touch, item_at, do_item_get, do_item_link, do_item_unlink,
}
use reading_and_comprehense.Items.Consistent.{Consistent}
use reading_and_comprehense.Items.Link.{Linked, do_item_link_lem}
use reading_and_comprehense.Items.Remove.{Unlinked, do_item_unlink-Unlinked}
use reading_and_comprehense.Items.Touch.{TouchResult, do_item_touch-TouchResult}
use reading_and_comprehense.ObjectCache.{cache_free, cache_alloc}
use reading_and_comprehense.ObjectCache.Stack.{InBounds, cache_free-cache_alloc}
use reading_and_comprehense.Items.Get.{GetResult, do_item_get-GetResult}
use reading_and_comprehense.Items.Alloc.{walk}
use reading_and_comprehense.Items.Alloc.Walk.{walk_more}
use reading_and_comprehense.Conn.{Server, on_conn, Nread, re_deleted, re_not_found}
use reading_and_comprehense.Storage.{c_string, join_values, item_data}
use reading_and_comprehense.Storage.Arithmetic.{delta_in_place}
use reading_and_comprehense.Storage.Cases.{alone}
use reading_and_comprehense.Storage.Outcome.{StoreOutcome, do_store_item-outcome}
use reading_and_comprehense.Storage.Append.{join_values-data}
use reading_and_comprehense.Storage.Block.{feed, Filled, feed-Filled}
use reading_and_comprehense.Storage.Delta.{delta_in_place-reads}
use reading_and_comprehense.Commands.{delete_key}
use reading_and_comprehense.Commands.Update.{update_refused}
use reading_and_comprehense.Commands.Effects.{Gone, readable, delete_key-Gone, update_refused-Gone}
use reading_and_comprehense.Memory.Int.{pos}
use reading_and_comprehense.Tests.{
  hash, key_a, empty_store, empty-Consistent, fresh_a, store, store-Consistent, store-Room,
  new_unlinked, server, env, store_linked, store_narrow, store-NoCrawler,
}

do_store_item-outcome_example : StoreOutcome env server 100 Nread.replace
unfolding alone
do_store_item-outcome_example =
    do_store_item-outcome env server 100 Nread.replace new_unlinked store-Consistent store-Room refl

do_item_get-GetResult_example : GetResult hash store key_a (do_item_get key_a (hash key_a) store)
do_item_get-GetResult_example = do_item_get-GetResult hash store key_a store-Consistent store-Room

do_item_link_lem_example :
    Linked hash empty_store 200 (do_item_link 200 (hash key_a) empty_store)
    × Consistent hash (do_item_link 200 (hash key_a) empty_store)
do_item_link_lem_example = do_item_link_lem hash empty_store 200 empty-Consistent fresh_a

do_item_unlink-Unlinked_example :
    Unlinked hash store 200 (do_item_unlink 200 (hash (item_at store 200).key) store)
do_item_unlink-Unlinked_example =
    do_item_unlink-Unlinked hash store 200 store-Consistent store_narrow store_linked

delete_key-Gone_example :
    Gone hash store key_a (delete_key env key_a server).store
    × ((delete_key env key_a server).conn.answers
        ≡ (if readable hash store key_a then re_deleted else re_not_found) ∷ [])
delete_key-Gone_example = delete_key-Gone env server key_a store-Consistent store-Room

update_refused-Gone_example :
    Gone hash store key_a
      (update_refused env key_a
        (record { flags = 0; exptime = pos 0; vlen = 2000; req_cas_id = 0 })
        Nread.set
        server).store
update_refused-Gone_example =
    update_refused-Gone env server key_a store-Consistent store-Room
      (record { flags = 0; exptime = pos 0; vlen = 2000; req_cas_id = 0 })

walk_more_example :
    walk env 1 100 0 1006 (some 200) 5 1000 store ≡ walk env 1 100 0 1005 (some 200) 5 1000 store
walk_more_example = walk_more env 1 100 0 1005 (some 200) 5 1000 store store-NoCrawler (omega arith)

join_values-data_example :
    item_data (item_at (join_values true 300 200 100 empty_store) 300)
    ≡ take 2 (item_data (item_at empty_store 200)) ++ item_data (item_at empty_store 100)
unfolding item_data
join_values-data_example =
    join_values-data empty_store 300 200 100 refl refl (omega arith) (omega arith) refl true

delta_in_place-reads_example :
    safe_strtoull (c_string (item_at (delta_in_place 200 (decimal 42) empty_store) 200).value)
    ≡ some 42
unfolding decimal digits_of
delta_in_place-reads_example =
    delta_in_place-reads empty_store 200 42 (10 ∷ []) (omega arith) (omega arith) refl

-- The server waits for the four bytes of the item at 100.
abbrev waiting : Server
waiting = on_conn (λ c. record c { item = some 100; ritem = 0; rlbytes = 4 }) server

feed-Filled_example :
    (sv' : Server) × (feed env ((b'7' ∷ []) ∷ (13 ∷ 10 ∷ []) ∷ []) waiting ≡ some sv')
    × Filled 100 waiting (b'7' ∷ 13 ∷ 10 ∷ []) sv'
feed-Filled_example =
    feed-Filled env 100 ((b'7' ∷ []) ∷ (13 ∷ 10 ∷ []) ∷ []) waiting (omega arith, (omega arith, tt))
      refl (omega arith) (omega arith)

do_item_touch-TouchResult_example :
    TouchResult hash store key_a 50 (do_item_touch key_a 50 (hash key_a) store)
do_item_touch-TouchResult_example =
    do_item_touch-TouchResult hash store key_a 50 store-Consistent store-Room

cache_free-cache_alloc_example :
    InBounds (cache_free true 7 (record { ptr = []; freetotal = 1 })).1
    × ((((cache_free true 7 (record { ptr = []; freetotal = 1 })).0 ≡ none)
          × ((cache_alloc none
                (λ p. true)
                (cache_free true 7 (record { ptr = []; freetotal = 1 })).1).0
              ≡ some 7)
          × ((cache_alloc none
                (λ p. true)
                (cache_free true 7 (record { ptr = []; freetotal = 1 })).1).1.ptr
              ≡ []))
        ⊎ (((cache_free true 7 (record { ptr = []; freetotal = 1 })).0 ≡ some 7)
            × ((cache_free true 7 (record { ptr = []; freetotal = 1 })).1
                ≡ record { ptr = []; freetotal = 1 })
            × (◌≡◌ {A = Bool} true false)
            × (◌≡◌ {A = ℕ} 0 1)))
cache_free-cache_alloc_example =
    cache_free-cache_alloc (record { ptr = []; freetotal = 1 })
      (record { fits = omega arith; grows = omega arith }) true 7 none (λ p. true)
