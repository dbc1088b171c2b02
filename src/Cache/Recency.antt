-- ===== src/Cache/Recency.antt =====
-- Eviction takes the key that was used least recently: a key that has just been read is not taken.
use fsspec_db.Prelude.{
  ℕ, ◌≤◌, ◌≡◌, ◌≢◌, refl, ap, ◌∙◌, true, false, Option, none, some, List, [], ◌∷◌, ◌++◌, length,
  take, arith,
}
use fsspec_db.Prelude.Text.{Text, text_eq, member}
use fsspec_db.Prelude.Text.Laws.{text_eq_refl}
use fsspec_db.Cache.Defs.{
  CacheEntry, IntrospectionCache, forget, get_found, get, insert, remove, is_zero_bound,
}
use fsspec_db.Cache.Keys.{member-forget, has, length-remove}
use fsspec_db.Cache.Invariant.{Agree, Agree-nil, Agree-tail, IsValid}
use fsspec_db.Cache.Insert.{is_full, victims, insert_lem}
use fsspec_db.Cache.Get.{get-IsValid, get-get, get_options, get-Inserted}

-- There is room for two entries.
abbrev pub HasRoom : Option ℕ → Type 0
HasRoom none = Unit
HasRoom (some most) = 2 ≤ most

HasRoom-bound : (bound : Option ℕ) → HasRoom bound → is_zero_bound bound ≡ false
HasRoom-bound none h = refl
HasRoom-bound (some most) h = ground arith

not_full : (n : ℕ) (bound : Option ℕ) → HasRoom bound → n ≤ 1 → is_full n bound ≡ false
not_full n none h l = refl
not_full n (some most) h l = ground arith

first_other :
    (key : Text) (front : List Text)
    → member key front ≡ false
    → front ≢ []
    → member key (take 1 (front ++ key ∷ [])) ≡ false
unfolding member
first_other key [] h n = absurd (n refl)
first_other key (t ∷ front) h n = ground arith

module _ {V : Type 0} where
  alone : (key : Text) (m : List (Text × CacheEntry V)) → Agree m (key ∷ []) → length m ≤ 1
  unfolding member
  alone key m a =
      let there : has key m ≡ true = a.same key ∙ (rw (text_eq_refl key) refl) in
      let gone = ap length (Agree-nil (remove key m) (Agree-tail key m [] a)) in
      let all = length-remove key m a.unique there in omega arith

  -- the order of use behind a read that gives a value
  recency-get :
      (now : ℕ) (key : Text) (c : IntrospectionCache V) (value : V)
      → (get now key c).0 ≡ some value
      → (get now key c).1.recency ≡ forget key c.recency ++ key ∷ []
  unfolding get get_found
  recency-get now key c value h = ground arith

  victims_lem :
      (new key : Text) (front : List Text) (c : IntrospectionCache V)
      → IsValid c
      → HasRoom c.options.max_entries
      → c.recency ≡ front ++ key ∷ []
      → member key front ≡ false
      → member key (victims new c) ≡ false
  unfolding member
  victims_lem new key [] c v room e f =
      let full : is_full (length c.entries) c.options.max_entries ≡ false =
        not_full (length c.entries) c.options.max_entries room
          (alone key c.entries (rw e at v.agree)) in
      rw full (ground arith)
  victims_lem new key (t ∷ front) c v room e f =
      let other = first_other key (t ∷ front) f (λ q. cc) in rw e (ground arith)

  -- In a valid cache with room for two entries, a value that a read gives outlasts an insertion under
  -- another key at the same time, whatever is evicted for it: the insertion ends, and a read at that
  -- time gives the value again.
  pub insert-get :
      (now : ℕ) (key new : Text) (value added : V) (c : IntrospectionCache V)
      → IsValid c
      → HasRoom c.options.max_entries
      → text_eq new key ≡ false
      → (get now key c).0 ≡ some value
      → (c' : IntrospectionCache V) × (insert now new added (get now key c).1 ≡ some c')
        × ((get now key c').0 ≡ some value)
  insert-get now key new value added c v room other hit =
      let c₁ = (get now key c).1 in
      let v₁ = get-IsValid now key c v in
      let room₁ : HasRoom c₁.options.max_entries = rw (get_options now key c) room in
      let (c', p, done) =
        insert_lem now new added c₁ v₁ (HasRoom-bound c₁.options.max_entries room₁) in
      let kept =
        victims_lem new key (forget key c.recency) c₁ v₁ room₁ (recency-get now key c value hit)
          (member-forget key key c.recency ∙ rw (text_eq_refl key) refl) in
      (
        c',
        p,
        get-Inserted now new key _ c₁ c' done
            ∙ rw (other, kept) (get-get now now key key c (omega arith) ∙ hit),
      )
