-- ===== src/Fs/Calls.antt =====
-- rust/src/fs.rs: the other calls of `DatabaseFs`: information through the cache, uploads, opening for
-- writing, and what a database refuses.
use fsspec_db.Prelude.{ℕ, Bool, Option, none, some, ◌++◌, if◌then◌else◌}
use fsspec_db.Prelude.Text.{Text, codes}
use fsspec_db.Error.{DbError, IoError, Result, ok, err, ◌>>=◌}
use fsspec_db.Sql.Parser.{SqlParser}
use fsspec_db.Cache.Defs.{get, insert, clear}
use fsspec_db.Stream.Codec.{Bytes, Registry, InfoOps}
use fsspec_db.Fs.Database.{InsertMode, Database}
use fsspec_db.Fs.Dispatch.{info_db}
use fsspec_db.Fs.Errors.{FsError, FsResult, failed, done, from_db}
use fsspec_db.Fs.Write.{
  Store, CachedIntrospection, info, DatabaseFs, write_bytes, write_bytes_to_database, write_target,
}

-- `OpenMode`
pub data OpenMode : Type 0 where
  read write append exclusive : OpenMode

unfoldable pub rm_file : Text → FsResult (Unit {0})
rm_file path =
    failed (FsError.not_supported (codes "database delete is not supported yet: " ++ path))

unfoldable pub cp_file : Text → Text → FsResult (Unit {0})
cp_file src dst = failed (
    FsError.not_supported
      (codes "database copy is not supported yet: " ++ (src ++ (codes " -> " ++ dst))))

unfoldable pub mkdir : Text → Bool → FsResult (Unit {0})
mkdir path create_parents =
    failed (FsError.not_supported (codes "database DDL is not supported yet: " ++ path))

unfoldable pub rmdir : Text → FsResult (Unit {0})
rmdir path = failed (FsError.not_supported (codes "database DDL is not supported yet: " ++ path))

-- a cached piece of information, if there is one
unfoldable pub cached_info : {Info : Type 0} → Option (CachedIntrospection Info) → Option Info
cached_info (some (info i)) = some i
cached_info _ = none

abbrev pub info_key : Text → Text
info_key path = codes "info:" ++ path

module _ {R : Registry} {S : Store R} {I : InfoOps} where
  -- `invalidate_cache`
  unfoldable pub invalidate_cache : DatabaseFs S I → DatabaseFs S I
  invalidate_cache fs = record fs { cache = clear fs.cache }

  -- `info` behind the look into the cache; `none` if the insertion did not end
  unfoldable pub info_fresh :
      SqlParser → ℕ → Text → DatabaseFs S I → Option (FsResult I.FileInfo × DatabaseFs S I)
  info_fresh p now path fs = elim (info_db I p (S.told fs.state) path) [
    | err e ↦ some (failed (from_db e), fs)
    | ok found ↦ elim (insert now (info_key path) (info found) fs.cache) [
      | none ↦ none
      | some cache ↦ some (done found, record fs { cache = cache })
    ]
  ]

  -- `info`, at a reading of the clock
  unfoldable pub info_cached :
      SqlParser → ℕ → Text → DatabaseFs S I → Option (FsResult I.FileInfo × DatabaseFs S I)
  info_cached p now path fs =
      let found = get now (info_key path) fs.cache in
      let fs' = record fs { cache = found.1 } in
      elim (cached_info found.0) [ some i ↦ some (done i, fs') | none ↦ info_fresh p now path fs' ]

  -- the end of `put_file`, by what the write gave
  abbrev uploaded : Result ℕ × DatabaseFs S I → FsResult (Unit {0}) × DatabaseFs S I
  uploaded (err e, fs) = (failed (from_db e), fs)
  uploaded (ok written, fs) = (done tt, invalidate_cache fs)

  -- `put_file`, by what reading the local file gave; `from_io` is fsspec_rs's conversion
  unfoldable pub put_file :
      (IoError → FsError)
      → (Text → Bytes × Option IoError)
      → Text
      → Text
      → DatabaseFs S I
      → FsResult (Unit {0}) × DatabaseFs S I
  put_file from_io read_local local remote fs =
      let (bytes, failure) = read_local local in
      elim failure [
        | some e ↦ (failed (from_io e), fs)
        | none ↦ uploaded (write_bytes remote bytes InsertMode.truncate fs)
      ]

-- the match on the mode, which is called with a mode that writes
unfoldable pub upload_mode : OpenMode → Result InsertMode
upload_mode OpenMode.write = ok InsertMode.truncate
upload_mode OpenMode.append = ok InsertMode.append
upload_mode _ = err (DbError.other (codes "internal error: entered unreachable code"))

abbrev forget_count : Result ℕ → FsResult (Unit {0})
forget_count (err e) = failed (from_db e)
forget_count (ok written) = done tt

module _ {R : Registry} (S : Store R) where
  -- the closure that a file opened for writing uploads its bytes with
  unfoldable pub upload : Text → InsertMode → Bytes → S.State → FsResult (Unit {0}) × S.State
  upload path mode bytes state =
      let out = write_bytes_to_database S path bytes mode state in (forget_count out.0, out.1)

  -- `open_write_db`, by the closure of the file that it opens
  unfoldable pub open_write_db :
      Text → OpenMode → Bool → Database R → Result (Bytes → S.State → FsResult (Unit {0}) × S.State)
  open_write_db path mode autocommit db =
      if autocommit
      then (do
        target ← write_target S db path
        insert_mode ← upload_mode mode
        ok (upload path insert_mode))
      else err (
          DbError.not_supported
            (codes "autocommit=False is not supported for database relation writes"))
