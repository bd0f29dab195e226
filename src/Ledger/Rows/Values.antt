-- ===== src/Ledger/Rows/Values.antt =====
-- JSON values, and Python's `==` on them.
use deviatdd.Prelude.{ℕ, String, Bool, true, false, ◌&&◌, str_eq, ◌==◌}

mutual
  pub data Json : Type 0 where
    null : Json
    boolean : Bool → Json
    integer : ℕ → Json
    str : String → Json
    array : Items → Json
    object : Fields → Json

  pub data Items : Type 0 where
    nil : Items
    cons : Json → Items → Items

  pub data Fields : Type 0 where
    end : Fields
    field : String → Json → Fields → Fields

abbrev bool_eq : Bool → Bool → Bool
bool_eq true true = true
bool_eq false false = true
bool_eq _ _ = false

unfoldable mutual
  pub json_eq : Json → Json → Bool
  json_eq null null = true
  json_eq (boolean a) (boolean b) = bool_eq a b
  json_eq (integer m) (integer n) = m == n
  json_eq (str s) (str t) = str_eq s t
  json_eq (array xs) (array ys) = items_eq xs ys
  json_eq (object fs) (object gs) = fields_eq fs gs
  json_eq _ _ = false

  pub items_eq : Items → Items → Bool
  items_eq nil nil = true
  items_eq (cons x xs) (cons y ys) = json_eq x y && items_eq xs ys
  items_eq _ _ = false

  -- Nested objects that one serialiser writes have their fields in one order.
  pub fields_eq : Fields → Fields → Bool
  fields_eq end end = true
  fields_eq (field k v fs) (field j w gs) = str_eq k j && (json_eq v w && fields_eq fs gs)
  fields_eq _ _ = false
