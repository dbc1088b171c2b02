-- ===== src/Cache/Defs.antt =====
-- rust/src/fs.rs: the introspection cache. Values are of any type. A clock reading is a number, and
-- `elapsed` is the difference to the present reading, 0 if that is earlier, as for `Instant`.
use fsspec_db.Prelude.{
  ℕ, ◌-◌, Bool, false, not, Option, none, some, List, [], ◌∷◌, ◌++◌, length, keep, ltb, leb, ◌==◌,
  if◌then◌else◌,
}
use fsspec_db.Prelude.Text.{Text, text_eq}

pub record CacheOptions : Type 0 where
  pub ttl : Option ℕ
  pub max_entries : Option ℕ

-- `IntrospectionCacheOptions::default()`; the times are in the units of the clock, seconds here
unfoldable pub default_options : CacheOptions
default_options = record { ttl = some 300; max_entries = some 1024 }

pub record CacheEntry (V : Type 0) : Type 0 where
  pub inserted : ℕ
  pub value : V

-- `entries` is the hash map, whose order is not observed; `recency` has the oldest key first.
pub record IntrospectionCache (V : Type 0) : Type 0 where
  pub options : CacheOptions
  pub entries : List (Text × CacheEntry V)
  pub recency : List Text

-- `recency.retain(|candidate| candidate != key)`
abbrev pub forget : Text → List Text → List Text
forget key = keep (λ candidate. not (text_eq candidate key))

abbrev pub is_zero_bound : Option ℕ → Bool
is_zero_bound none = false
is_zero_bound (some n) = n == 0

module _ {V : Type 0} where
  -- the operations of `HashMap` that the cache calls
  unfoldable pub lookup : Text → List (Text × CacheEntry V) → Option (CacheEntry V)
  lookup key [] = none
  lookup key ((k, e) ∷ m) = if text_eq k key then some e else lookup key m

  unfoldable pub remove : Text → List (Text × CacheEntry V) → List (Text × CacheEntry V)
  remove key [] = []
  remove key ((k, e) ∷ m) = if text_eq k key then remove key m else (k, e) ∷ remove key m

  unfoldable pub put : Text → CacheEntry V → List (Text × CacheEntry V) → List (Text × CacheEntry V)
  put key e m = (key, e) ∷ remove key m

  -- `self.options.ttl.is_some_and(|ttl| entry.inserted.elapsed() >= ttl)`
  unfoldable pub expired : Option ℕ → ℕ → CacheEntry V → Bool
  expired none now e = false
  expired (some ttl) now e = leb ttl (now - e.inserted)

  -- `IntrospectionCache::new`
  unfoldable pub new : CacheOptions → IntrospectionCache V
  new options = record { options = options; entries = []; recency = [] }

  -- `get`, on what the map holds for the key
  unfoldable pub get_found :
      ℕ → Text → Option (CacheEntry V) → IntrospectionCache V → Option V × IntrospectionCache V
  get_found now key none c = (none, c)
  get_found now key (some e) c =
      if expired c.options.ttl now e
      then (none, record c { entries = remove key c.entries; recency = forget key c.recency })
      else (some e.value, record c { recency = forget key c.recency ++ key ∷ [] })

  unfoldable pub get : ℕ → Text → IntrospectionCache V → Option V × IntrospectionCache V
  get now key c = get_found now key (lookup key c.entries) c

  -- The loop of `insert`. Each round takes the oldest key off `recency`, so the recursion is on that
  -- list. Where it is empty and the map is still too large, the code would not end: `none`.
  unfoldable pub evict :
      ℕ → List (Text × CacheEntry V) → List Text → Option (List (Text × CacheEntry V) × List Text)
  evict max_entries entries [] =
      if ltb max_entries (length entries) then none else some (entries, [])
  evict max_entries entries (oldest ∷ rest) =
      let next = evict max_entries (remove oldest entries) rest in
      if ltb max_entries (length entries) then next else some (entries, oldest ∷ rest)

  -- the `if let` around the loop
  unfoldable pub evict_bounded :
      Option ℕ
      → List (Text × CacheEntry V)
      → List Text
      → Option (List (Text × CacheEntry V) × List Text)
  evict_bounded none entries recency = some (entries, recency)
  evict_bounded (some max_entries) entries recency = evict max_entries entries recency

  -- `insert` behind the test for a bound of 0
  unfoldable pub insert_entry : ℕ → Text → V → IntrospectionCache V → Option (IntrospectionCache V)
  insert_entry now key value c =
      let recency = forget key c.recency ++ key ∷ [] in
      let entries = put key (record { inserted = now; value = value }) c.entries in
      elim (evict_bounded c.options.max_entries entries recency) [
        | none ↦ none
        | some (entries', recency') ↦ some (record c { entries = entries'; recency = recency' })
      ]

  -- `None` for a loop that does not end
  unfoldable pub insert : ℕ → Text → V → IntrospectionCache V → Option (IntrospectionCache V)
  insert now key value c =
      if is_zero_bound c.options.max_entries then some c else insert_entry now key value c

  unfoldable pub clear : IntrospectionCache V → IntrospectionCache V
  clear c = record c { entries = []; recency = [] }
