-- ===== src/Ledger/Rows/Equality.antt =====
-- `==` on JSON values is equality.
use deviatdd.Prelude.{
  ◌≡◌, refl, true, false, ◌&&◌, arith, str_eq, str_eq_refl, str_eq→eq, &&-true, bool_ext,
}
use deviatdd.Ledger.Rows.Values.{
  Json, Items, Fields, null, boolean, integer, str, array, object, nil, cons, end, field, json_eq,
  items_eq, fields_eq,
}

mutual
  unfolding json_eq items_eq fields_eq

  json_eq_self : (v : Json) → json_eq v v ≡ true
  json_eq_self null = refl
  json_eq_self (boolean true) = refl
  json_eq_self (boolean false) = refl
  json_eq_self (integer n) = ground arith
  json_eq_self (str s) = str_eq_refl s
  json_eq_self (array xs) = items_eq_self xs
  json_eq_self (object fs) = fields_eq_self fs

  items_eq_self : (xs : Items) → items_eq xs xs ≡ true
  items_eq_self nil = refl
  items_eq_self (cons x xs) = ground (arith, json_eq_self x, items_eq_self xs)

  fields_eq_self : (fs : Fields) → fields_eq fs fs ≡ true
  fields_eq_self end = refl
  fields_eq_self (field k v fs) = ground (arith, str_eq_refl k, json_eq_self v, fields_eq_self fs)

mutual
  unfolding json_eq items_eq fields_eq

  json_eq_sound : (v w : Json) → json_eq v w ≡ true → v ≡ w
  json_eq_sound null null h = refl
  json_eq_sound (boolean a) (boolean b) h = ground arith
  json_eq_sound (integer m) (integer n) h = ground arith
  json_eq_sound (str s) (str t) h = ground (arith, str_eq→eq s t h)
  json_eq_sound (array xs) (array ys) h = ground (arith, items_eq_sound xs ys h)
  json_eq_sound (object fs) (object gs) h = ground (arith, fields_eq_sound fs gs h)
  json_eq_sound _ _ h = cc

  items_eq_sound : (xs ys : Items) → items_eq xs ys ≡ true → xs ≡ ys
  items_eq_sound nil nil h = refl
  items_eq_sound (cons x xs) (cons y ys) h = ground (arith, json_eq_sound x y, items_eq_sound xs ys)
  items_eq_sound _ _ h = cc

  fields_eq_sound : (fs gs : Fields) → fields_eq fs gs ≡ true → fs ≡ gs
  fields_eq_sound end end h = refl
  fields_eq_sound (field k v fs) (field j w gs) h =
      let (k_eq, rest) = &&-true (str_eq k j) (json_eq v w && fields_eq fs gs) h in
      let (v_eq, fs_eq) = &&-true (json_eq v w) (fields_eq fs gs) rest in
      cc (str_eq→eq k j k_eq, json_eq_sound v w v_eq, fields_eq_sound fs gs fs_eq)
  fields_eq_sound _ _ h = cc

pub json_eq_refl : (v : Json) → json_eq v v ≡ true
json_eq_refl v = json_eq_self v

pub json_eq→eq : (v w : Json) → json_eq v w ≡ true → v ≡ w
json_eq→eq v w h = json_eq_sound v w h

pub json_eq_sym : (v w : Json) → json_eq v w ≡ json_eq w v
json_eq_sym v w =
    bool_ext _ _ (λ h. rw (json_eq→eq v w h) (json_eq_refl w))
      (λ h. rw (json_eq→eq w v h) (json_eq_refl v))

pub json_eq_trans : (u v w : Json) → json_eq u v ≡ true → json_eq u w ≡ json_eq v w
json_eq_trans u v w h = rw (json_eq→eq u v h)
