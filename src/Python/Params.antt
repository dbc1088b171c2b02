-- ===== src/Python/Params.antt =====
-- rust/python/database.rs: the parameters of a query, from Python and to Python.
use fsspec_db.Prelude.{Bool, List, [], ◌∷◌, if◌then◌else◌}
use fsspec_db.Prelude.Text.{Text, codes}
use fsspec_db.Prelude.Int.{ℤ}
use fsspec_db.Stream.Codec.{Bytes}
use fsspec_db.Backend.Driver.{Floats, DbValue}
use fsspec_db.Python.Errors.{PyResult, raised, returned, value_error, ◌>>=◌}

-- The values of Python that can be parameters, as PyO3 makes and reads them. `is_bool` and `is_bytes`
-- are casts; `items` are what an iteration gives, each item or the error that ends it.
pub record ParamValues (F : Floats) : Type 1 where
  pub Value : Type 0
  pub nothing : Value
  pub of_bool : Bool → Value
  pub of_int : ℤ → Value
  pub of_float : F.Float → Value
  pub of_text : Text → Value
  pub of_bytes : Bytes → Value
  pub is_none : Value → Bool
  pub is_bool : Value → Bool
  pub is_bytes : Value → Bool
  pub as_bool : Value → PyResult Bool
  pub as_i64 : Value → PyResult ℤ
  pub as_f64 : Value → PyResult F.Float
  pub as_text : Value → PyResult Text
  pub as_bytes : Value → PyResult Bytes
  pub items : Value → PyResult (List (PyResult Value))

module _ {F : Floats} (V : ParamValues F) where
  -- `extract(..).map(..)`
  abbrev mapped : {A : Type 0} → (A → DbValue F) → PyResult A → PyResult (DbValue F)
  mapped f (raised e) = raised e
  mapped f (returned a) = returned (f a)

  -- `if let Ok(value) = extract(..) { return .. }`
  abbrev or_else :
      {A : Type 0} → (A → DbValue F) → PyResult A → PyResult (DbValue F) → PyResult (DbValue F)
  or_else f (raised e) rest = rest
  or_else f (returned a) rest = returned (f a)

  unfoldable pub py_value_to_db_value : V.Value → PyResult (DbValue F)
  py_value_to_db_value value =
      let bytes =
        if V.is_bytes value
        then mapped DbValue.binary (V.as_bytes value)
        else raised (value_error (codes "unsupported query parameter type")) in
      if V.is_none value
      then returned DbValue.null
      else if V.is_bool value
      then mapped DbValue.bool (V.as_bool value)
      else or_else DbValue.int64 (V.as_i64 value) (
          or_else DbValue.float64 (V.as_f64 value) (or_else DbValue.string (V.as_text value) bytes))

  -- the loop of `py_params_to_db_values`
  unfoldable pub convert_items : List (PyResult V.Value) → PyResult (List (DbValue F))
  convert_items [] = returned []
  convert_items (item ∷ items) =
      let rest = convert_items items in
      item >>= λ value.
      py_value_to_db_value value >>= λ param. rest >>= λ params. returned (param ∷ params)

  unfoldable pub py_params_to_db_values : V.Value → PyResult (List (DbValue F))
  py_params_to_db_values params = V.items params >>= convert_items

  unfoldable pub param_to_py : DbValue F → V.Value
  param_to_py DbValue.null = V.nothing
  param_to_py (DbValue.bool value) = V.of_bool value
  param_to_py (DbValue.int64 value) = V.of_int value
  param_to_py (DbValue.float64 value) = V.of_float value
  param_to_py (DbValue.string value) = V.of_text value
  param_to_py (DbValue.binary value) = V.of_bytes value

  -- `db_params_to_py`, by the items of its list
  unfoldable pub db_params_to_py : List (DbValue F) → List V.Value
  db_params_to_py [] = []
  db_params_to_py (param ∷ params) = param_to_py param ∷ db_params_to_py params
