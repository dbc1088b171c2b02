-- ===== src/Cache/Insert.antt =====
-- Inserting into the cache: the loop ends, and at most one key is evicted.
use fsspec_db.Prelude.{
  ℕ, suc, ◌-◌, ◌≡◌, refl, ◌≢◌, Bool, false, not, Option, none, some, List, [], ◌∷◌, ◌++◌, length,
  take, drop, arith, if◌then◌else◌, Bool-cases, inl, inr, ltb,
}
use fsspec_db.Prelude.Text.{Text, text_eq, text_eq_iff, member}
use fsspec_db.Cache.Defs.{
  CacheEntry, IntrospectionCache, lookup, put, forget, evict_bounded, insert_entry, is_zero_bound,
  insert,
}
use fsspec_db.Cache.Keys.{has, lookup-put, length-remove, remove_absent}
use fsspec_db.Cache.Invariant.{
  Agree, IsValid, Within, Agree-nil, without, evict_lem, Agree-without, length-without,
  lookup-without, Agree-put,
}

forget_absent : (k : Text) (r : List Text) → member k r ≡ false → forget k r ≡ r
unfolding member
forget_absent k [] h = refl
forget_absent k (t ∷ r) h = ground (arith, forget_absent k r, text_eq_iff t k, text_eq_iff k t)

abbrev pub is_full : ℕ → Option ℕ → Bool
is_full n none = false
is_full n (some most) = not (ltb n most)

-- How many keys are too many.
abbrev surplus : ℕ → Option ℕ → ℕ
surplus n none = 0
surplus n (some most) = n - most

first_key :
    (k : Text) (r : List Text) → forget k r ≡ r → r ≢ [] → take 1 (forget k r ++ k ∷ []) ≡ take 1 r
first_key k [] p n = absurd (n refl)
first_key k (o ∷ r) p n = rw p

module _ {V : Type 0} where
  length-put :
      (k : Text) (e : CacheEntry V) (m : List (Text × CacheEntry V)) (r : List Text)
      → Agree m r
      → length (put k e m) ≡ (if has k m then length m else suc (length m))
  unfolding put
  length-put k e m r h = elim (Bool-cases (has k m)) [
    | inl b ↦ rw b (length-remove k m h.unique b)
    | inr b ↦ rw (b, remove_absent k m b)
  ]

  -- The keys that inserting `key` evicts: the least recently used one, if `key` is new and the
  -- cache is full.
  abbrev pub victims : Text → IntrospectionCache V → List Text
  victims key c =
      if has key c.entries
      then []
      else if is_full (length c.entries) c.options.max_entries
      then take 1 c.recency
      else []

  nonempty :
      (k : Text) (m : List (Text × CacheEntry V)) (r : List Text)
      → Agree m r
      → length m ≢ 0
      → r ≢ []
  nonempty k m r h n p = let e : m ≡ [] = Agree-nil m (rw p at h) in n (rw e)

  evict_bounded_lem :
      (bound : Option ℕ) (m : List (Text × CacheEntry V)) (r : List Text)
      → Agree m r
      → evict_bounded bound m r
        ≡ some (without (take (surplus (length m) bound) r) m, drop (surplus (length m) bound) r)
  unfolding evict_bounded
  evict_bounded_lem none m r h = refl
  evict_bounded_lem (some most) m r h = evict_lem most m r h

  within_lem :
      (bound : Option ℕ) (m : List (Text × CacheEntry V)) (r : List Text)
      → Agree m r
      → Within (length (without (take (surplus (length m) bound) r) m)) bound
  within_lem none m r h = tt
  within_lem (some most) m r h = omega (arith, length-without (length m - most) m r h)

  take_front :
      (bound : Option ℕ) (k : Text) (e : CacheEntry V) (m : List (Text × CacheEntry V))
      (r : List Text)
      → Agree m r
      → Within (length m) bound
      → is_zero_bound bound ≡ false
      → take (surplus (length (put k e m)) bound) (forget k r ++ k ∷ [])
        ≡ (if has k m then [] else if is_full (length m) bound then take 1 r else [])
  take_front none k e m r h w z = ground arith
  take_front (some most) k e m r h w z = elim (Bool-cases (has k m)) [
    | inl b ↦
        let none_left : length (put k e m) - most ≡ 0 = ground (arith, length-put k e m r h) in
        rw (none_left, b)
    | inr b ↦ elim (Bool-cases (ltb (length m) most)) [
      | inl room ↦
          let none_left : length (put k e m) - most ≡ 0 = ground (arith, length-put k e m r h) in
          rw (none_left, b, room)
      | inr full ↦
          let one_left : length (put k e m) - most ≡ 1 = ground (arith, length-put k e m r h) in
          rw (one_left, b, full)
            (first_key k r (forget_absent k r (ground (arith, h.same k)))
              (nonempty k m r h (ground arith)))
    ]
  ]

  -- The cache after an insertion.
  pub record Inserted (key : Text) (e : CacheEntry V) (c c' : IntrospectionCache V) : Type 0 where
    pub valid : IsValid c'
    pub options : c'.options ≡ c.options
    pub found :
        (j : Text)
        → lookup j c'.entries ≡ (
            if text_eq key j
            then some e
            else if member j (victims key c)
            then none
            else lookup j c.entries)

  module _ (now : ℕ) (key : Text) (value : V) (c : IntrospectionCache V) (v : IsValid c) where
    abbrev entry : CacheEntry V
    entry = record { inserted = now; value = value }

    abbrev all_entries : List (Text × CacheEntry V)
    all_entries = put key entry c.entries

    abbrev all_keys : List Text
    all_keys = forget key c.recency ++ key ∷ []

    victims_lem : member key (victims key c) ≡ false
    unfolding member
    victims_lem = go c.recency (v.agree.same key)
      where
        go :
            (r : List Text)
            → has key c.entries ≡ member key r
            → member key (
                if has key c.entries
                then []
                else if is_full (length c.entries) c.options.max_entries
                then take 1 r
                else [])
              ≡ false
        go [] h = ground arith
        go (t ∷ r) h = ground arith

    found_lem :
        (z : is_zero_bound c.options.max_entries ≡ false) (j : Text)
        → lookup j (
            without
              (take (surplus (length all_entries) c.options.max_entries) all_keys)
              all_entries)
          ≡ (if text_eq key j
              then some entry
              else if member j (victims key c)
              then none
              else lookup j c.entries)
    found_lem z j =
        rw
          (
            lookup-without j (take (surplus (length all_entries) c.options.max_entries) all_keys)
                all_entries,
            take_front c.options.max_entries key entry c.entries c.recency v.agree v.within z,
          )
          (ground (arith, lookup-put j key entry c.entries, victims_lem, text_eq_iff key j))

    -- Inserting into a valid cache whose bound is not 0 ends with a valid cache, which holds the new
    -- value, and every other entry as it was, but for the one evicted.
    pub insert_lem :
        is_zero_bound c.options.max_entries ≡ false
        → (c' : IntrospectionCache V) × (insert now key value c ≡ some c') × Inserted key entry c c'
    unfolding insert insert_entry
    insert_lem z =
        let bound = c.options.max_entries in
        let n = surplus (length all_entries) bound in
        let agree = Agree-put key entry c.entries c.recency v.agree in
        (
          record c { entries = without (take n all_keys) all_entries; recency = drop n all_keys },
          rw (z, insert_entry)
              (rw (evict_bounded_lem bound all_entries all_keys agree, insert_entry)),
          record {
            valid = record {
              agree = Agree-without n all_entries all_keys agree;
              within = within_lem bound all_entries all_keys agree;
            };
            options = refl;
            found = λ j. found_lem z j;
          },
        )
