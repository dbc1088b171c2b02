-- ===== src/Cache/Keys.antt =====
-- Keys: of the map, and in the order of use.
use fsspec_db.Prelude.{
  suc, ◌≤◌, ◌≡◌, refl, Bool, true, false, not, ◌&&◌, ◌||◌, none, some, List, [], ◌∷◌, ◌++◌, length,
  arith, if◌then◌else◌, is_some,
}
use fsspec_db.Prelude.Text.{Text, text_eq, text_eq_iff, member}
use fsspec_db.Cache.Defs.{CacheEntry, lookup, remove, put, forget}

pub member-forget :
    (j k : Text) (r : List Text) → member j (forget k r) ≡ (not (text_eq k j) && member j r)
unfolding member
member-forget j k [] = ground arith
member-forget j k (t ∷ r) =
    ground (arith, member-forget j k r, text_eq_iff j t, text_eq_iff t k, text_eq_iff k j)

pub member-snoc :
    (j k : Text) (r : List Text) → member j (r ++ k ∷ []) ≡ (member j r || text_eq k j)
unfolding member
member-snoc j k [] = ground (arith, text_eq_iff j k, text_eq_iff k j)
member-snoc j k (t ∷ r) = ground (arith, member-snoc j k r)

-- No key twice.
abbrev pub Once : List Text → Type 0
Once [] = Unit
Once (k ∷ r) = (member k r ≡ false) × Once r

pub Once-forget : (k : Text) (r : List Text) → Once r → Once (forget k r)
Once-forget k [] h = tt
Once-forget k (t ∷ r) h = ground (arith, Once-forget k r h.1, member-forget t k r)

pub Once-snoc : (k : Text) (r : List Text) → Once r → member k r ≡ false → Once (r ++ k ∷ [])
unfolding member
Once-snoc k [] h m = (refl, tt)
Once-snoc k (t ∷ r) h m = ground (arith, Once-snoc k r h.1, member-snoc t k r, text_eq_iff k t)

module _ {V : Type 0} where
  pub lookup-remove :
      (j k : Text) (m : List (Text × CacheEntry V))
      → lookup j (remove k m) ≡ (if text_eq k j then none else lookup j m)
  unfolding lookup remove
  lookup-remove j k [] = ground arith
  lookup-remove j k ((i, e) ∷ m) =
      ground (arith, lookup-remove j k m, text_eq_iff i k, text_eq_iff i j, text_eq_iff k j)

  pub lookup-put :
      (j k : Text) (e : CacheEntry V) (m : List (Text × CacheEntry V))
      → lookup j (put k e m) ≡ (if text_eq k j then some e else lookup j m)
  unfolding lookup put
  lookup-put j k e m = ground (arith, lookup-remove j k m)

  abbrev pub has : Text → List (Text × CacheEntry V) → Bool
  has k m = is_some (lookup k m)

  -- No key is bound twice.
  abbrev pub Unique : List (Text × CacheEntry V) → Type 0
  Unique [] = Unit
  Unique (p ∷ m) = (has p.0 m ≡ false) × Unique m

  pub has-remove :
      (j k : Text) (m : List (Text × CacheEntry V))
      → has j (remove k m) ≡ (not (text_eq k j) && has j m)
  has-remove j k m = ground (arith, lookup-remove j k m)

  pub Unique-remove : (k : Text) (m : List (Text × CacheEntry V)) → Unique m → Unique (remove k m)
  unfolding remove
  Unique-remove k [] h = tt
  Unique-remove k ((i, e) ∷ m) h = ground (arith, Unique-remove k m h.1, lookup-remove i k m)

  pub Unique-put :
      (k : Text) (e : CacheEntry V) (m : List (Text × CacheEntry V)) → Unique m → Unique (put k e m)
  unfolding put
  Unique-put k e m h = (ground (arith, lookup-remove k k m, text_eq_iff k k), Unique-remove k m h)

  pub remove_absent : (k : Text) (m : List (Text × CacheEntry V)) → has k m ≡ false → remove k m ≡ m
  unfolding remove lookup
  remove_absent k [] h = refl
  remove_absent k ((i, e) ∷ m) h = ground (arith, remove_absent k m)

  -- Taking a key away shortens the map by one, if the key is there.
  pub length-remove :
      (k : Text) (m : List (Text × CacheEntry V))
      → Unique m
      → has k m ≡ true
      → suc (length (remove k m)) ≡ length m
  unfolding remove lookup
  length-remove k [] u h = cc
  length-remove k ((i, e) ∷ m) u h =
      ground (arith, length-remove k m u.1, remove_absent i m u.0, text_eq_iff i k)

  pub length-remove-le :
      (k : Text) (m : List (Text × CacheEntry V)) → length (remove k m) ≤ length m
  unfolding remove
  length-remove-le k [] = omega arith
  length-remove-le k ((i, e) ∷ m) = ground (arith, length-remove-le k m)
