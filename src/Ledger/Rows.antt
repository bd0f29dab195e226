-- ===== src/Ledger/Rows.antt =====
-- Rows of a JSONL ledger: what `json.loads` gives for a line, `data.get(key)`, and `==` on values.
mod Values
mod Equality
pub use Values.{
  Json, Items, Fields, null, boolean, integer, str, array, object, nil, cons, end, field,
}
unfoldable pub use Values.{json_eq}
pub use Equality.{json_eq_refl, json_eq→eq, json_eq_sym, json_eq_trans}
use deviatdd.Prelude.{
  String, Bool, true, false, not, ◌==◌, Option, none, some, List, [], ◌∷◌, str_eq, if◌then◌else◌,
}

-- A decoded object. A repeated key does not occur: `json.loads` keeps one value for each.
abbrev pub Row : Type 0
Row = List (String × Json)

-- `data.get(key)`: a missing key and a JSON null both read as `None`.
unfoldable pub get : String → Row → Json
get key [] = null
get key ((k, v) ∷ row) = if str_eq k key then v else get key row

-- `data.get(key, default)` tells a missing key from a null.
unfoldable pub lookup : String → Row → Option Json
lookup key [] = none
lookup key ((k, v) ∷ row) = if str_eq k key then some v else lookup key row

-- A value that Python's `or` keeps.
abbrev pub truthy : Json → Bool
truthy null = false
truthy (boolean b) = b
truthy (integer n) = not (n == 0)
truthy (str s) = not (str_eq s "")
truthy (array nil) = false
truthy (array (cons _ _)) = true
truthy (object end) = false
truthy (object (field _ _ _)) = true

-- One stripped line of a ledger file: empty, refused by `json.loads`, an object, or another value,
-- on which `.get` raises AttributeError.
pub data Line : Type 0 where
  blank malformed scalar : Line
  row : Row → Line
