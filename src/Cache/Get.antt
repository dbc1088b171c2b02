-- ===== src/Cache/Get.antt =====
-- Reading the cache: what a read returns after an insertion and after other reads.
use fsspec_db.Prelude.{
  ℕ, ◌+◌, ◌≤◌, ap, ◌∙◌, List, [], ◌∷◌, ltb, ◌≡◌, ◌⊎◌, refl, true, false, Option, none, some, arith,
  if◌then◌else◌, Bool-cases, Option-cases, inl, inr,
}
use fsspec_db.Prelude.Text.{Text, text_eq, text_eq_iff, member}
use fsspec_db.Cache.Defs.{
  CacheEntry, IntrospectionCache, lookup, expired, get_found, get, insert, is_zero_bound,
}
use fsspec_db.Cache.Keys.{lookup-remove, length-remove-le}
use fsspec_db.Cache.Invariant.{IsValid, Within, Agree-use, Agree-remove}
use fsspec_db.Cache.Insert.{victims, Inserted, insert_lem}

Within-le : (m n : ℕ) (bound : Option ℕ) → m ≤ n → Within n bound → Within m bound
Within-le m n none h w = tt
Within-le m n (some most) h w = omega arith

-- The times from the first to the last do not go back.
abbrev pub InOrder : ℕ → List (ℕ × Text) → ℕ → Type 0
InOrder t [] now = t ≤ now
InOrder t ((u, k) ∷ reads) now = (t ≤ u) × InOrder u reads now

InOrder-le : (reads : List (ℕ × Text)) (t now : ℕ) → InOrder t reads now → t ≤ now
InOrder-le [] t now h = h
InOrder-le ((u, k) ∷ reads) t now (h, hs) = let l = InOrder-le reads u now hs in omega arith

module _ {V : Type 0} where
  -- The value that a lookup gives, unless it is too old.
  abbrev pub fresh : Option ℕ → ℕ → Option (CacheEntry V) → Option V
  fresh ttl now none = none
  fresh ttl now (some e) = if expired ttl now e then none else some e.value

  pub get_value :
      (now : ℕ) (key : Text) (c : IntrospectionCache V)
      → (get now key c).0 ≡ fresh c.options.ttl now (lookup key c.entries)
  unfolding get get_found
  get_value now key c = ground arith

  pub get_options :
      (now : ℕ) (key : Text) (c : IntrospectionCache V) → (get now key c).1.options ≡ c.options
  unfolding get get_found
  get_options now key c = ground arith

  pub get-lookup :
      (now : ℕ) (key j : Text) (c : IntrospectionCache V)
      → (lookup j (get now key c).1.entries ≡ lookup j c.entries)
        ⊎ ((fresh c.options.ttl now (lookup j c.entries) ≡ none)
            × (lookup j (get now key c).1.entries ≡ none))
  unfolding get get_found
  get-lookup now key j c = ground (arith, lookup-remove j key c.entries, text_eq_iff key j)

  -- A read keeps the cache valid.
  pub get-IsValid :
      (now : ℕ) (key : Text) (c : IntrospectionCache V) → IsValid c → IsValid (get now key c).1
  unfolding get get_found
  get-IsValid now key c v = elim (Option-cases (lookup key c.entries)) [
    | inl n ↦ rw (n, get_found) v
    | inr (e, s) ↦ elim (Bool-cases (expired c.options.ttl now e)) [
      | inl old ↦
          rw (s, get_found)
            (rw old (record {
              agree = Agree-remove key c.entries c.recency v.agree;
              within =
                  Within-le _ _ c.options.max_entries (length-remove-le key c.entries) v.within;
            }))
      | inr young ↦
          rw (s, get_found)
            (rw young (record {
              agree = Agree-use key c.entries c.recency v.agree (rw s);
              within = v.within;
            }))
    ]
  ]

  expired_later :
      (ttl : Option ℕ) (now later : ℕ) (e : CacheEntry V)
      → now ≤ later
      → expired ttl now e ≡ true
      → expired ttl later e ≡ true
  unfolding expired
  expired_later none now later e h k = k
  expired_later (some t) now later e h k = ground arith

  fresh_later :
      (ttl : Option ℕ) (now later : ℕ) (found : Option (CacheEntry V))
      → now ≤ later
      → fresh ttl now found ≡ none
      → fresh ttl later found ≡ none
  fresh_later ttl now later none h k = refl
  fresh_later ttl now later (some e) h k = ground (arith, expired_later ttl now later e h)

  -- A read changes no later read: of whatever key, as long as the clock does not go back.
  pub get-get :
      (now later : ℕ) (key j : Text) (c : IntrospectionCache V)
      → now ≤ later
      → (get later j (get now key c).1).0 ≡ (get later j c).0
  get-get now later key j c h = elim (get-lookup now key j c) [
    | inl same ↦
        rw (get_value later j (get now key c).1, get_value later j c, get_options now key c, same)
    | inr (stale, gone) ↦
        rw (get_value later j (get now key c).1, get_value later j c, get_options now key c, gone)
          (rw (fresh_later c.options.ttl now later (lookup j c.entries) h stale))
  ]

  pub get-Inserted :
      (now : ℕ) (key j : Text) (e : CacheEntry V) (c c' : IntrospectionCache V)
      → Inserted key e c c'
      → (get now j c').0 ≡ (
          if text_eq key j
          then (if expired c.options.ttl now e then none else some e.value)
          else if member j (victims key c)
          then none
          else (get now j c).0)
  get-Inserted now key j e c c' done =
      rw (get_value now j c', get_value now j c, done.options, done.found j) (ground arith)

  -- The value until the time to live has passed since `t`, and nothing from then on.
  abbrev pub until : Option ℕ → ℕ → ℕ → V → Option V
  until none t now value = some value
  until (some ttl) t now value = if ltb now (t + ttl) then some value else none

  until_lem :
      (ttl : Option ℕ) (t now : ℕ) (value : V)
      → t ≤ now
      → (if expired ttl now (record { inserted = t; value = value }) then none else some value)
        ≡ until ttl t now value
  unfolding expired
  until_lem none t now value h = refl
  until_lem (some ttl) t now value h = ground arith

  -- reads of keys, each at a time
  abbrev pub read_all : List (ℕ × Text) → IntrospectionCache V → IntrospectionCache V
  read_all [] c = c
  read_all ((u, k) ∷ reads) c = read_all reads (get u k c).1

  get-read_all :
      (reads : List (ℕ × Text)) (t now : ℕ) (j : Text) (c : IntrospectionCache V)
      → InOrder t reads now
      → (get now j (read_all reads c)).0 ≡ (get now j c).0
  get-read_all [] t now j c h = refl
  get-read_all ((u, k) ∷ reads) t now j c (h, hs) =
      get-read_all reads u now j (get u k c).1 hs ∙ get-get u now k j c (InOrder-le reads u now hs)

  -- After an insertion at the time t into a valid cache whose bound is not 0, and any reads, at times
  -- that do not go back, a read gives the inserted value for its key before t + ttl, or always where
  -- there is no time to live, and nothing from then on; nothing for the key that was evicted; and for
  -- every other key what it would have given without the insertion and the reads.
  pub get-insert :
      (t now : ℕ) (key j : Text) (value : V) (reads : List (ℕ × Text)) (c : IntrospectionCache V)
      → IsValid c
      → is_zero_bound c.options.max_entries ≡ false
      → InOrder t reads now
      → (c' : IntrospectionCache V) × (insert t key value c ≡ some c')
        × ((get now j (read_all reads c')).0 ≡ (
            if text_eq key j
            then until c.options.ttl t now value
            else if member j (victims key c)
            then none
            else (get now j c).0))
  get-insert t now key j value reads c v z h =
      let (c', p, added) = insert_lem t key value c v z in
      (
        c',
        p,
        get-read_all reads t now j c' h
            ∙ get-Inserted now key j _ c c' added
            ∙ ap
                (λ found.
                  if text_eq key j
                  then found
                  else if member j (victims key c)
                  then none
                  else (get now j c).0)
                (until_lem c.options.ttl t now value (InOrder-le reads t now h)),
      )
