-- ===== src/Cache/Invariant.antt =====
-- What every operation of the cache keeps, and that its eviction loop ends.
use fsspec_db.Prelude.{
  ℕ, zero, suc, ◌-◌, ◌≤◌, ◌≡◌, refl, true, Option, none, some, List, [], ◌∷◌, ◌++◌, length, take,
  drop, arith, if◌then◌else◌, Bool-cases, inl, inr, ltb,
}
use fsspec_db.Prelude.Text.{Text, text_eq_iff, member}
use fsspec_db.Prelude.Text.Laws.{text_eq_refl}
use fsspec_db.Cache.Defs.{CacheEntry, IntrospectionCache, lookup, remove, put, forget, evict}
use fsspec_db.Cache.Keys.{
  member-forget, member-snoc, Once, Once-forget, Once-snoc, lookup-remove, lookup-put, has, Unique,
  has-remove, Unique-remove, Unique-put, length-remove,
}

abbrev pub Within : ℕ → Option ℕ → Type 0
Within n none = Unit
Within n (some most) = n ≤ most

module _ {V : Type 0} where
  -- The map and the order of use have the same keys, each once.
  pub record Agree (m : List (Text × CacheEntry V)) (r : List Text) : Type 0 where
    pub unique : Unique m
    pub once : Once r
    pub same : (k : Text) → has k m ≡ member k r

  pub record IsValid (c : IntrospectionCache V) : Type 0 where
    pub agree : Agree c.entries c.recency
    pub within : Within (length c.entries) c.options.max_entries

  -- The keys of `ks` are no longer bound.
  abbrev pub without : List Text → List (Text × CacheEntry V) → List (Text × CacheEntry V)
  without [] m = m
  without (k ∷ ks) m = without ks (remove k m)

  pub Agree-nil : (m : List (Text × CacheEntry V)) → Agree m [] → m ≡ []
  unfolding member lookup
  Agree-nil [] h = refl
  Agree-nil ((k, e) ∷ m) h = ground (arith, h.same k, text_eq_refl k)

  pub Agree-tail :
      (k : Text) (m : List (Text × CacheEntry V)) (r : List Text)
      → Agree m (k ∷ r)
      → Agree (remove k m) r
  unfolding member
  Agree-tail k m r h = record {
    unique = Unique-remove k m h.unique;
    once = h.once.1;
    same = λ j. ground (arith, h.same j, lookup-remove j k m, text_eq_iff j k, text_eq_iff k j);
  }

  length-tail :
      (k : Text) (m : List (Text × CacheEntry V)) (r : List Text)
      → Agree m (k ∷ r)
      → suc (length (remove k m)) ≡ length m
  unfolding member
  length-tail k m r h = length-remove k m h.unique (ground (arith, h.same k, text_eq_refl k))

  -- The loop ends; it takes as many keys as there are too many, the oldest first.
  pub evict_lem :
      (most : ℕ) (m : List (Text × CacheEntry V)) (r : List Text)
      → Agree m r
      → evict most m r ≡ some (without (take (length m - most) r) m, drop (length m - most) r)
  unfolding evict
  evict_lem most m [] h = rw (Agree-nil m h) (ground arith)
  evict_lem most m (k ∷ r) h = elim (Bool-cases (ltb most (length m))) [
    | inl e ↦
        let one_more : length m - most ≡ suc (length (remove k m) - most) =
          ground (arith, length-tail k m r h) in
        rw (e, one_more) (evict_lem most (remove k m) r (Agree-tail k m r h))
    | inr e ↦ let enough : length m - most ≡ 0 = ground arith in rw (e, enough)
  ]

  -- What is taken away is the front of the order of use, from both.
  pub Agree-without :
      (n : ℕ) (m : List (Text × CacheEntry V)) (r : List Text)
      → Agree m r
      → Agree (without (take n r) m) (drop n r)
  Agree-without zero m r h = h
  Agree-without (suc n) m [] h = h
  Agree-without (suc n) m (k ∷ r) h = Agree-without n (remove k m) r (Agree-tail k m r h)

  pub length-without :
      (n : ℕ) (m : List (Text × CacheEntry V)) (r : List Text)
      → Agree m r
      → length (without (take n r) m) ≤ length m - n
  length-without zero m r h = omega arith
  length-without (suc n) m [] h = rw (Agree-nil m h) (omega arith)
  length-without (suc n) m (k ∷ r) h =
      omega (arith, length-without n (remove k m) r (Agree-tail k m r h), length-tail k m r h)

  pub lookup-without :
      (j : Text) (ks : List Text) (m : List (Text × CacheEntry V))
      → lookup j (without ks m) ≡ (if member j ks then none else lookup j m)
  unfolding member
  lookup-without j [] m = refl
  lookup-without j (k ∷ ks) m = ground (
    arith,
    lookup-without j ks (remove k m),
    lookup-remove j k m,
    text_eq_iff j k,
    text_eq_iff k j,
  )

  -- A key that is put, or only used, comes last in the order of use.
  pub Agree-put :
      (k : Text) (e : CacheEntry V) (m : List (Text × CacheEntry V)) (r : List Text)
      → Agree m r
      → Agree (put k e m) (forget k r ++ k ∷ [])
  Agree-put k e m r h = record {
    unique = Unique-put k e m h.unique;
    once =
        Once-snoc k (forget k r) (Once-forget k r h.once)
          (ground (arith, member-forget k k r, text_eq_refl k));
    same = λ j.
        ground
          (arith, h.same j, lookup-put j k e m, member-snoc j k (forget k r), member-forget j k r);
  }

  pub Agree-use :
      (k : Text) (m : List (Text × CacheEntry V)) (r : List Text)
      → Agree m r
      → has k m ≡ true
      → Agree m (forget k r ++ k ∷ [])
  Agree-use k m r h b = record {
    unique = h.unique;
    once =
        Once-snoc k (forget k r) (Once-forget k r h.once)
          (ground (arith, member-forget k k r, text_eq_refl k));
    same = λ j.
        ground
          (arith, h.same j, member-snoc j k (forget k r), member-forget j k r, text_eq_iff k j);
  }

  pub Agree-remove :
      (k : Text) (m : List (Text × CacheEntry V)) (r : List Text)
      → Agree m r
      → Agree (remove k m) (forget k r)
  Agree-remove k m r h = record {
    unique = Unique-remove k m h.unique;
    once = Once-forget k r h.once;
    same = λ j. ground (arith, h.same j, has-remove j k m, member-forget j k r);
  }
