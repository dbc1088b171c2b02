-- ===== src/Fs/Open.antt =====
-- From a path to its bytes: what a file opened for reading shows.
use fsspec_db.Prelude.{
  ℕ, ◌≡◌, refl, sym, ap, ◌∙◌, Bool, true, if◌then◌else◌, inl, inr, Option-cases, false, Option,
  none, some, List,
}
use fsspec_db.Prelude.Text.{Text}
use fsspec_db.Error.{ok, >>=-eq-ok}
use fsspec_db.Path.Defs.{DataFormat, DbPathKind, DbPath}
use fsspec_db.Path.Parse.{parse}
use fsspec_db.Types.{RelationInfo, Dialect}
use fsspec_db.Sql.Parser.{SqlParser}
use fsspec_db.Sql.Statements.{SelectOptions, no_options, select_sql}
use fsspec_db.Stream.Codec.{Bytes, Item, Registry, InfoOps}
use fsspec_db.Stream.Defs.{EncodedDbFile, open_file}
use fsspec_db.Stream.Cursor.{readable}
use fsspec_db.Stream.Refines.{Refines}
use fsspec_db.Stream.Open.{encoding, open_file-Refines}
use fsspec_db.Fs.Database.{Database}
use fsspec_db.Fs.Infos.{relation_data_file}
use fsspec_db.Fs.Options.{select_options_from_query}
use fsspec_db.Fs.Applied.{IsLimit, Applied}
use fsspec_db.Fs.Query.{select_options_from_query_lem}
use fsspec_db.Sql.Quoting.{FitsLimit, IsSelect, select_sql-IsSelect}
use fsspec_db.Prelude.Decimal.{parse_u64-le}
use fsspec_db.Fs.Dispatch.{required_relation, required_schema}
use fsspec_db.Fs.Read.{OpenedFile, encoded, is_sql, open_select, open_kind, open_read}

module _ {R : Registry} (I : InfoOps) (p : SqlParser) (debug : Text → Text) (db : Database R) where
  -- The success of opening, by its steps.
  pub open_read-encoding :
      (path : Text) (parsed : DbPath) (format : DataFormat) (schema relation : Text)
      (info : RelationInfo) (options : SelectOptions) (sql : Text)
      (rows : R.Schema × List (Item R.Batch)) (full : Bytes)
      → parse path ≡ ok parsed
      → parsed.kind ≡ DbPathKind.relation_data format
      → is_sql format ≡ false
      → required_relation parsed ≡ ok (schema, relation)
      → db.relation_info schema relation ≡ ok info
      → select_options_from_query p db.dialect parsed.query ≡ ok options
      → select_sql debug db.dialect schema relation options ≡ ok sql
      → db.query sql ≡ ok rows
      → encoding R rows.0 rows.1 format ≡ some full
      → (f : EncodedDbFile R I) × (open_read debug I p db path ≡ ok (encoded f))
        × Refines f (readable full (relation_data_file I db.dialect schema relation info format))
  unfolding open_read open_kind open_select
  open_read-encoding path parsed format schema relation info options sql rows full a b c e f g h i
        j =
      let (file, opened, refines) =
        open_file-Refines rows.0 rows.1 format
          (relation_data_file I db.dialect schema relation info format) full j in
      (
        file,
        rw (a, open_kind)
            (rw (b, open_kind)
              (rw (e, open_kind)
                (rw (f, c, open_kind)
                  (rw (g, open_select)
                    (rw (h, open_select) (rw (i, open_select) (rw (opened, open_select)))))))),
        refines,
      )

-- A file whose whole encoding exists is the cursor at the start of it.
abbrev pub Shows :
    {R : Registry} {I : InfoOps} → Option Bytes → I.FileInfo → EncodedDbFile R I → Type 0
Shows none info f = Unit
Shows (some full) info f = Refines f (readable full info)

open_file-Shows :
    {R : Registry} {I : InfoOps} (schema : R.Schema) (reader : List (Item R.Batch))
    (format : DataFormat) (info : I.FileInfo) (f : EncodedDbFile R I) (full : Option Bytes)
    → encoding R schema reader format ≡ full
    → open_file {I = I} schema reader format info ≡ ok f
    → Shows full info f
open_file-Shows schema reader format info f none e h = tt
open_file-Shows {R} {I} schema reader format info f (some full) e h =
    let (f', opened, refines) =
      open_file-Refines {R = R} {I = I} schema reader format info full e in
    let same : f' ≡ f = cc in rw same at refines

limit_fits :
    (p : SqlParser) (d : Dialect) (found : Option Text) (limit : Option ℕ)
    → IsLimit found none limit
    → FitsLimit limit
limit_fits p d none limit h = rw h tt
limit_fits p d (some v) limit (n, e, q) = rw q (parse_u64-le v n e)

else_lem :
    {A : Type 0} (test : Bool) (x : A) {y z : A}
    → test ≡ false
    → (if test then x else y) ≡ z
    → y ≡ z
else_lem true x h e = absurd (cc)
else_lem false x h e = e

names_lem :
    (parsed : DbPath) (names : Text × Text)
    → required_relation parsed ≡ ok names
    → (parsed.schema ≡ some names.0) × (parsed.relation ≡ some names.1)
unfolding required_relation required_schema
names_lem parsed names h = elim (Option-cases parsed.schema) [
  | inl e ↦ let h' = rw (e, required_relation) at h in absurd (cc)
  | inr (s, e) ↦ elim (Option-cases parsed.relation) [
    | inl g ↦ let h' = rw (e, g, required_relation) at h in absurd (cc)
    | inr (r, g) ↦ let h' = rw (e, g, required_relation) at h in (cc, cc)
  ]
]

module _ {R : Registry} (I : InfoOps) (p : SqlParser) (debug : Text → Text) (db : Database R) where
  -- The file is the data of the relation that the path names: the answer to a select of that relation
  -- with the options of the path's query, encoded in the format.
  pub record IsData (parsed : DbPath) (format : DataFormat) (file : OpenedFile R I) : Type 0 where
    pub schema : Text
    pub relation : Text
    pub info : RelationInfo
    pub options : SelectOptions
    pub sql : Text
    pub rows : R.Schema × List (Item R.Batch)
    pub stream : EncodedDbFile R I
    pub has_schema : parsed.schema ≡ some schema
    pub has_relation : parsed.relation ≡ some relation
    pub known : db.relation_info schema relation ≡ ok info
    pub chosen : Applied p db.dialect parsed.query no_options options
    pub selects : IsSelect debug db.dialect sql schema relation options
    pub answered : db.query sql ≡ ok rows
    pub is_stream : file ≡ encoded stream
    pub shows :
        Shows
          (encoding R rows.0 rows.1 format)
          (relation_data_file I db.dialect schema relation info format)
          stream

  open_select-IsData :
      (parsed : DbPath) (format : DataFormat) (schema relation : Text) (info : RelationInfo)
      (file : OpenedFile R I)
      → parsed.schema ≡ some schema
      → parsed.relation ≡ some relation
      → db.relation_info schema relation ≡ ok info
      → open_select debug I p db schema relation info format parsed.query ≡ ok file
      → IsData parsed format file
  unfolding open_select
  open_select-IsData parsed format schema relation info file a b c h =
      let (options, e, h₁) = >>=-eq-ok (select_options_from_query p db.dialect parsed.query) _ h in
      let (sql, f, h₂) = >>=-eq-ok (select_sql debug db.dialect schema relation options) _ h₁ in
      let (rows, g, h₃) = >>=-eq-ok (db.query sql) _ h₂ in
      let (stream, k, h₄) = >>=-eq-ok (open_file {I = I} rows.0 rows.1 format _) _ h₃ in
      let chosen = (select_options_from_query_lem p db.dialect parsed.query options).0 e in
      record {
        schema = schema;
        relation = relation;
        info = info;
        options = options;
        sql = sql;
        rows = rows;
        stream = stream;
        has_schema = a;
        has_relation = b;
        known = c;
        chosen = chosen;
        selects =
            select_sql-IsSelect debug db.dialect schema relation options sql
              (limit_fits p db.dialect _ options.limit chosen.limit) f;
        answered = g;
        is_stream = cc;
        shows = open_file-Shows rows.0 rows.1 format _ stream _ refl k;
      }

  -- Where the data of a relation, in a format that is not SQL, is opened, the database has been asked
  -- for the relation that the path names and has answered a select that reads back as one of that
  -- schema and relation with the columns, the predicate and the limit that the path's query chooses;
  -- and if the rows of the answer have an encoding in the path's format, the file reads as it.
  pub open_read-IsData :
      (path : Text) (parsed : DbPath) (format : DataFormat) (file : OpenedFile R I)
      → parse path ≡ ok parsed
      → parsed.kind ≡ DbPathKind.relation_data format
      → is_sql format ≡ false
      → open_read debug I p db path ≡ ok file
      → IsData parsed format file
  unfolding open_read open_kind
  open_read-IsData path parsed format file a b c h =
      let opened : open_kind debug I p db path parsed parsed.kind ≡ ok file = rw a at h in
      let h₁ = sym (ap (λ k. open_kind debug I p db path parsed k) b) ∙ opened in
      let (names, e, h₂) = >>=-eq-ok (required_relation parsed) _ h₁ in
      let (info, f, h₃) = >>=-eq-ok (db.relation_info names.0 names.1) _ h₂ in
      let (s, r) = names_lem parsed names e in
      open_select-IsData parsed format names.0 names.1 info file s r f
        (else_lem (is_sql format) _ c h₃)
