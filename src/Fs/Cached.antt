-- ===== src/Fs/Cached.antt =====
-- The cached listings are those that the database would give.
use fsspec_db.Prelude.{
  ℕ, ◌≡◌, refl, sym, ap, ◌∙◌, inl, inr, true, Option, none, some, List, arith, Bool-cases,
  Option-cases,
}
use fsspec_db.Prelude.Text.{Text, text_eq, text_eq_iff, member}
use fsspec_db.Error.{ok}
use fsspec_db.Sql.Parser.{SqlParser}
use fsspec_db.Cache.Defs.{CacheEntry, IntrospectionCache, lookup, get, insert, is_zero_bound, clear}
use fsspec_db.Cache.Invariant.{IsValid, Within}
use fsspec_db.Cache.Insert.{victims, Inserted, insert_lem}
use fsspec_db.Cache.Get.{fresh, get_value, get-lookup, get-IsValid}
use fsspec_db.Stream.Open.{Result-cases}
use fsspec_db.Stream.Codec.{Bytes, Registry, InfoOps}
use fsspec_db.Fs.Database.{InsertMode}
use fsspec_db.Fs.Dispatch.{ls_db}
use fsspec_db.Fs.Errors.{FsResult, failed, done, map_err, from_db}
use fsspec_db.Fs.Write.{
  Store, CachedIntrospection, listing, info, DatabaseFs, cached_listing, ls_key, ls_fresh, ls,
  write_bytes, write_bytes_to_database,
}

same_path : (path other : Text) → text_eq (ls_key path) (ls_key other) ≡ true → path ≡ other
same_path path other h = (text_eq_iff path other).0 h

some_injective : {A : Type 0} {a b : A} → ◌≡◌ {A = Option A} (some a) (some b) → a ≡ b
some_injective h = cc

insert-zero :
    {V : Type 0} (now : ℕ) (key : Text) (value : V) (c : IntrospectionCache V)
    → is_zero_bound c.options.max_entries ≡ true
    → insert now key value c ≡ some c
unfolding insert
insert-zero now key value c z = rw z refl

cached_listing_lem :
    {Info : Type 0} (found : Option (CachedIntrospection Info)) {entries : List Info}
    → cached_listing found ≡ some entries
    → found ≡ some (listing entries)
unfolding cached_listing
cached_listing_lem none h = cc
cached_listing_lem (some (listing xs)) h = ap (λ ys. some (listing ys)) (some_injective h)
cached_listing_lem (some (info i)) h = cc

fresh_value :
    {V : Type 0} (ttl : Option ℕ) (now : ℕ) (e : CacheEntry V) (value : V)
    → fresh ttl now (some e) ≡ some value
    → e.value ≡ value
fresh_value ttl now e value h = ground arith

empty-Within : (bound : Option ℕ) → Within 0 bound
empty-Within none = tt
empty-Within (some most) = omega arith

clear-IsValid : {V : Type 0} (c : IntrospectionCache V) → IsValid (clear c)
unfolding clear lookup member
clear-IsValid c = record {
  agree = record { unique = tt; once = tt; same = λ k. refl };
  within = empty-Within c.options.max_entries;
}

module _ {R : Registry} (S : Store R) (I : InfoOps) (p : SqlParser) where
  -- What the cache holds for the listing of a path is what the database lists there.
  abbrev pub Answers :
      S.State → Text → Option (CacheEntry (CachedIntrospection I.FileInfo)) → Type 0
  Answers s path none = Unit
  Answers s path (some e) =
      (entries : List I.FileInfo)
      → e.value ≡ listing entries
      → ls_db I p (S.told s) path ≡ ok entries

  Answers-Inserted :
      (s : S.State) (path other : Text) (now : ℕ) (entries : List I.FileInfo)
      (c c' : IntrospectionCache (CachedIntrospection I.FileInfo))
      → ls_db I p (S.told s) path ≡ ok entries
      → Answers s other (lookup (ls_key other) c.entries)
      → Inserted (ls_key path) (record { inserted = now; value = listing entries }) c c'
      → Answers s other (lookup (ls_key other) c'.entries)
  Answers-Inserted s path other now entries c c' h a added =
      rw (added.found (ls_key other)) (elim (Bool-cases (text_eq (ls_key path) (ls_key other))) [
        | inl e ↦ rw e (λ xs q.
            rw (sym (same_path path other e)) (h ∙ (let same : entries ≡ xs = cc in ap ok same)))
        | inr e ↦ rw e (elim (Bool-cases (member (ls_key other) (victims (ls_key path) c))) [
          | inl m ↦ rw m tt
          | inr m ↦ rw m a
        ])
      ])

  cached_answer :
      (s : S.State) (path : Text) (found : Option (CacheEntry (CachedIntrospection I.FileInfo)))
      (ttl : Option ℕ) (now : ℕ) (entries : List I.FileInfo)
      → Answers s path found
      → fresh ttl now found ≡ some (listing entries)
      → ls_db I p (S.told s) path ≡ ok entries
  cached_answer s path none ttl now entries a h = cc
  cached_answer s path (some e) ttl now entries a h =
      a entries (fresh_value ttl now e (listing entries) h)

module _ {R : Registry} {S : Store R} {I : InfoOps} (p : SqlParser) where
  pub record Coherent (fs : DatabaseFs S I) : Type 0 where
    pub valid : IsValid fs.cache
    pub answers :
        (path : Text) → Answers S I p fs.state path (lookup (ls_key path) fs.cache.entries)

  -- What a listing leaves: the answer of the database, and a file system as before.
  pub record Listed (path : Text) (fs : DatabaseFs S I)
      (out : FsResult (List I.FileInfo) × DatabaseFs S I) : Type 0 where
    pub answer : out.0 ≡ map_err (ls_db I p (S.told fs.state) path)
    pub state : out.1.state ≡ fs.state
    pub coherent : Coherent out.1

  get-Coherent :
      (now : ℕ) (key : Text) (fs : DatabaseFs S I)
      → Coherent fs
      → Coherent (record fs { cache = (get now key fs.cache).1 })
  get-Coherent now key fs c = record {
    valid = get-IsValid now key fs.cache c.valid;
    answers = λ path. elim (get-lookup now key (ls_key path) fs.cache) [
      | inl same ↦ rw same (c.answers path)
      | inr (old, gone) ↦ rw gone tt
    ];
  }

  ls_fresh-Listed :
      (now : ℕ) (path : Text) (fs : DatabaseFs S I)
      → Coherent fs
      → (out : FsResult (List I.FileInfo) × DatabaseFs S I) × (ls_fresh p now path fs ≡ some out)
        × Listed path fs out
  unfolding ls_fresh
  ls_fresh-Listed now path fs c = elim (Result-cases (ls_db I p (S.told fs.state) path)) [
    | inl (e, q) ↦ (
      (failed (from_db e), fs),
      rw (q, ls_fresh) refl,
      record { answer = sym (ap map_err q); state = refl; coherent = c },
    )
    | inr (entries, q) ↦ elim (Bool-cases (is_zero_bound fs.cache.options.max_entries)) [
      | inl z ↦ (
        (done entries, fs),
        rw (q, ls_fresh)
            (rw (insert-zero now (ls_key path) (listing entries) fs.cache z, ls_fresh) refl),
        record { answer = sym (ap map_err q); state = refl; coherent = c },
      )
      | inr z ↦
          let (cache, i, added) =
            insert_lem now (ls_key path) (listing entries) fs.cache c.valid z in
          (
            (done entries, record fs { cache = cache }),
            rw (q, ls_fresh) (rw (i, ls_fresh) refl),
            record {
              answer = sym (ap map_err q);
              state = refl;
              coherent = record {
                valid = added.valid;
                answers = λ other.
                    Answers-Inserted S I p fs.state path other now entries fs.cache cache q
                      (c.answers other) added;
              };
            },
          )
    ]
  ]

  -- Listing a path on a file system whose cached listings are the database's ends, answers what the
  -- database would answer, an error as the file system's error for it, and leaves the cached listings
  -- so.
  pub ls-Listed :
      (now : ℕ) (path : Text) (fs : DatabaseFs S I)
      → Coherent fs
      → (out : FsResult (List I.FileInfo) × DatabaseFs S I) × (ls p now path fs ≡ some out)
        × Listed path fs out
  unfolding ls
  ls-Listed now path fs c =
      elim (Option-cases (cached_listing (get now (ls_key path) fs.cache).0)) [
        | inl n ↦
            let (out, q, listed) =
              ls_fresh-Listed now path _ (get-Coherent now (ls_key path) fs c) in
            (
              out,
              rw (n, ls) q,
              record { answer = listed.answer; state = listed.state; coherent = listed.coherent },
            )
        | inr (entries, e) ↦ (
          (done entries, record fs { cache = (get now (ls_key path) fs.cache).1 }),
          rw (e, ls) refl,
          record {
            answer = sym (
                ap map_err (
                  cached_answer S I p fs.state path (lookup (ls_key path) fs.cache.entries)
                    fs.cache.options.ttl now entries (c.answers path)
                    (sym (get_value now (ls_key path) fs.cache) ∙ cached_listing_lem _ e)));
            state = refl;
            coherent = get-Coherent now (ls_key path) fs c;
          },
        )
      ]

  -- Where a write succeeds, the cached listings are the database's, whatever they were before and
  -- whatever the write changed.
  pub write_bytes-Coherent :
      (path : Text) (bytes : Bytes) (mode : InsertMode) (fs : DatabaseFs S I) (n : ℕ)
      → (write_bytes path bytes mode fs).0 ≡ ok n
      → Coherent (write_bytes path bytes mode fs).1
  unfolding write_bytes clear lookup
  write_bytes-Coherent path bytes mode fs n h =
      elim (Result-cases (write_bytes_to_database S path bytes mode fs.state).0) [
        | inl (e, q) ↦ absurd (ground arith)
        | inr (written, q) ↦
            rw (q, write_bytes) (record { valid = clear-IsValid fs.cache; answers = λ other. tt })
      ]
