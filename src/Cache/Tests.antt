-- ===== src/Cache/Tests.antt =====
-- The cache of the unit test `expires_and_evicts_introspection`, with room for two keys, and the
-- theorems about it. The values are numbers.
use fsspec_db.Prelude.{ℕ, ◌≡◌, refl, some, none, [], ◌∷◌, arith, if◌then◌else◌}
use fsspec_db.Prelude.Text.{codes, text_eq, member}
use fsspec_db.Cache.Defs.{
  IntrospectionCache, get_found, expired, lookup, remove, put, get, evict, evict_bounded,
  insert_entry, insert,
}
use fsspec_db.Cache.Invariant.{IsValid}
use fsspec_db.Cache.Insert.{victims, Inserted, insert_lem}
use fsspec_db.Cache.Recency.{insert-get}
use fsspec_db.Cache.Get.{get-IsValid, get-get, until, read_all, get-insert}

abbrev two_keys : IntrospectionCache ℕ
two_keys = record {
  options = record { ttl = some 60; max_entries = some 2 };
  entries =
      (codes "ls:/", record { inserted = 0; value = 7 })
      ∷ (codes "info:/", record { inserted = 5; value = 8 })
      ∷ [];
  recency = codes "ls:/" ∷ codes "info:/" ∷ [];
}

-- the key that was used last stays
evicts :
    insert 9 (codes "ls:/main") 3 two_keys
    ≡ some (record two_keys {
      entries =
          (codes "ls:/main", record { inserted = 9; value = 3 })
          ∷ (codes "info:/", record { inserted = 5; value = 8 })
          ∷ [];
      recency = codes "info:/" ∷ codes "ls:/main" ∷ [];
    })
unfolding insert insert_entry evict_bounded evict put remove
evicts = refl

two_keys-IsValid : IsValid two_keys
unfolding lookup member
two_keys-IsValid = record {
  agree = record {
    unique = (refl, (refl, tt));
    once = (refl, (refl, tt));
    same = λ k. ground arith;
  };
  within = omega arith;
}

get-IsValid_example : IsValid (get 61 (codes "ls:/") two_keys).1
get-IsValid_example = get-IsValid 61 (codes "ls:/") two_keys two_keys-IsValid

get-get_example :
    (get 62 (codes "info:/") (get 61 (codes "ls:/") two_keys).1).0
    ≡ (get 62 (codes "info:/") two_keys).0
get-get_example = get-get 61 62 (codes "ls:/") (codes "info:/") two_keys (omega arith)

insert_lem_example :
    (c' : IntrospectionCache ℕ) × (insert 9 (codes "ls:/main") 3 two_keys ≡ some c')
    × Inserted (codes "ls:/main") (record { inserted = 9; value = 3 }) two_keys c'
insert_lem_example = insert_lem 9 (codes "ls:/main") 3 two_keys two_keys-IsValid refl

get-insert_example :
    (c' : IntrospectionCache ℕ) × (insert 9 (codes "ls:/main") 3 two_keys ≡ some c')
    × ((get 68 (codes "ls:/main") (read_all ((20, codes "info:/") ∷ []) c')).0 ≡ (
        if text_eq (codes "ls:/main") (codes "ls:/main")
        then until (some 60) 9 68 3
        else if member (codes "ls:/main") (victims (codes "ls:/main") two_keys)
        then none
        else (get 68 (codes "ls:/main") two_keys).0))
get-insert_example =
    get-insert 9 68 (codes "ls:/main") (codes "ls:/main") 3 ((20, codes "info:/") ∷ []) two_keys
      two_keys-IsValid refl (omega arith, omega arith)

old_read : (get 20 (codes "ls:/") two_keys).0 ≡ some 7
unfolding get get_found lookup expired
old_read = refl

insert-get_example :
    (c' : IntrospectionCache ℕ) × (insert 20 (codes "ls:/main") 3 (get 20 (codes "ls:/") two_keys).1
      ≡ some c')
    × ((get 20 (codes "ls:/") c').0 ≡ some 7)
insert-get_example =
    insert-get 20 (codes "ls:/") (codes "ls:/main") 7 3 two_keys two_keys-IsValid (omega arith) refl
      old_read
