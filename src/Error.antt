-- ===== src/Error.antt =====
-- rust/src/error.rs: `DbError`, its display, and its conversions.
-- Errors of other crates (Arrow, Parquet, the interchange codecs) are kept by the text they
-- display as, which is all that the crate takes from them.
use fsspec_db.Prelude.{◌≡◌, refl, Bool, ◌||◌, Option, none, some, List, ◌++◌, if◌then◌else◌}
use fsspec_db.Prelude.Text.{Text, codes, text_eq}

-- `io::ErrorKind`, as far as the crate names kinds
pub data IoErrorKind : Type 0 where
  not_found permission_denied already_exists : IoErrorKind
  invalid_input invalid_data unsupported other : IoErrorKind

-- `io::Error`
pub record IoError : Type 0 where
  pub kind : IoErrorKind
  pub message : Text

pub data DbError : Type 0 where
  not_found permission_denied already_exists : Text → DbError
  not_a_directory is_a_directory invalid_argument not_supported : Text → DbError
  io : IoError → DbError
  arrow parquet other : Text → DbError

-- `Result<A>`
pub data Result {ℓ} (Value : Type ℓ) : Type ℓ where
  err : DbError → Result Value
  ok : Value → Result Value

infixl 5 ◌>>=◌
-- `?`
abbrev pub ◌>>=◌ {κ ℓ} :
    {A : Type κ} {B : Type ℓ} (result : Result A) (next : A → Result B) → Result B
err failure >>= next = err failure
ok value >>= next = next value

-- `option.ok_or_else(|| e)`
abbrev pub ok_or {ℓ} : {A : Type ℓ} → Option A → DbError → Result A
ok_or none e = err e
ok_or (some a) e = ok a

-- `iter.map(f).collect::<Result<Vec<_>>>()`
unfoldable pub collect {ℓ κ} : {A : Type ℓ} {B : Type κ} → (A → Result B) → List A → Result (List B)
collect f List.[] = ok List.[]
collect f (List.◌∷◌ a as') = do b ← f a; bs ← collect f as'; ok (List.◌∷◌ b bs)

-- The two halves of a `?` that gave a value.
pub >>=-eq-ok {κ ℓ} :
    {A : Type κ} {B : Type ℓ} (result : Result A) (next : A → Result B) {last : B}
    → (result >>= next) ≡ ok last
    → (value : A) × (result ≡ ok value) × (next value ≡ ok last)
>>=-eq-ok (err failure) next given = cc
>>=-eq-ok (ok value) next given = (value, refl, given)

pub ok_injective {ℓ} : {A : Type ℓ} {a b : A} → ◌≡◌ {A = Result A} (ok a) (ok b) → a ≡ b
ok_injective h = cc

pub err_injective {ℓ} : {A : Type ℓ} {d e : DbError} → ◌≡◌ {A = Result A} (err d) (err e) → d ≡ e
err_injective h = cc

pub err-ok {ℓ} : {A : Type ℓ} {e : DbError} {a : A} → ¬ (◌≡◌ {A = Result A} (err e) (ok a))
err-ok h = cc

pub collect-cons {ℓ κ} :
    {A : Type ℓ} {B : Type κ} (f : A → Result B) (a : A) (rest : List A) {bs : List B}
    → collect f (List.◌∷◌ a rest) ≡ ok bs
    → (b : B) × (cs : List B) × (f a ≡ ok b) × (collect f rest ≡ ok cs) × (bs ≡ List.◌∷◌ b cs)
unfolding collect
collect-cons f a rest h =
    let (b, p, h') = >>=-eq-ok (f a) _ h in
    let (cs, q, h'') = >>=-eq-ok (collect f rest) _ h' in (b, cs, p, q, cc)

-- `fmt::Display for DbError`
abbrev pub display : DbError → Text
display (DbError.not_found msg) = codes "not found: " ++ msg
display (DbError.permission_denied msg) = codes "permission denied: " ++ msg
display (DbError.already_exists msg) = codes "already exists: " ++ msg
display (not_a_directory msg) = codes "not a directory: " ++ msg
display (is_a_directory msg) = codes "is a directory: " ++ msg
display (invalid_argument msg) = codes "invalid argument: " ++ msg
display (not_supported msg) = codes "not supported: " ++ msg
display (io e) = codes "I/O error: " ++ e.message
display (arrow e) = codes "Arrow error: " ++ e
display (parquet e) = codes "Parquet error: " ++ e
display (DbError.other msg) = msg

-- `From<io::Error> for DbError`
unfoldable pub from_io : IoError → DbError
from_io e = elim e.kind [
  | IoErrorKind.not_found ↦ DbError.not_found e.message
  | IoErrorKind.permission_denied ↦ DbError.permission_denied e.message
  | IoErrorKind.already_exists ↦ DbError.already_exists e.message
  | _ ↦ io e
]

-- `InterchangeError`, as `from_interchange` takes it apart
pub data InterchangeError : Type 0 where
  arrow parquet other : Text → InterchangeError

-- `From<InterchangeError> for DbError`
unfoldable pub from_interchange : InterchangeError → DbError
from_interchange (InterchangeError.arrow e) = DbError.arrow e
from_interchange (InterchangeError.parquet e) = DbError.parquet e
from_interchange (InterchangeError.other e) = DbError.other e

-- `sqlx::error::ErrorKind`
pub data SqlErrorKind : Type 0 where
  unique_violation foreign_key_violation not_null_violation check_violation : SqlErrorKind
  exclusion_violation other : SqlErrorKind

-- `sqlx::Error`, as `from_sqlx` takes it apart
pub data SqlxError : Type 0 where
  row_not_found : SqlxError
  io : IoError → SqlxError
  database : SqlErrorKind → Text → Option Text → SqlxError
  other : Text → SqlxError

unfoldable pub is_access_code : Text → Bool
is_access_code code =
    text_eq code (codes "28000")
    || text_eq code (codes "28P01")
    || text_eq code (codes "1044")
    || text_eq code (codes "1045")

-- `err.code()…unwrap_or_default()`
abbrev code_text : Option Text → Text
code_text none = List.[]
code_text (some code) = code

-- `From<sqlx::Error> for DbError`
unfoldable pub from_sqlx : SqlxError → DbError
unfolding from_io is_access_code
from_sqlx row_not_found = DbError.not_found (codes "row not found")
from_sqlx (SqlxError.io e) = from_io e
from_sqlx (database kind message code) = elim kind [
  | unique_violation ↦ DbError.already_exists message
  | SqlErrorKind.other ↦
      if is_access_code (code_text code)
      then DbError.permission_denied message
      else DbError.other message
  | _ ↦ invalid_argument message
]
from_sqlx (SqlxError.other e) = DbError.other e
