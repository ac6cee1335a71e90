-- ===== src/State/Json.antt =====
-- The JSON values of a team's state. A number is the text that `JSON.stringify` writes for it, and a
-- key whose value is `undefined` is absent.
use octeam.Prelude.{
  ℕ, suc, ◌≡◌, refl, String, Bool, true, false, not, ◌&&◌, Option, none, some, arith, str_eq,
  eq_iff, if◌then◌else◌, Bool-cases, inl, inr, ap,
}

mutual
  pub data Json : Type 0 where
    null : Json
    boolean : Bool → Json
    number text : String → Json
    array : Items → Json
    object : Fields → Json

  pub data Items : Type 0 where
    no_item : Items
    item : Json → Items → Items

  pub data Fields : Type 0 where
    no_field : Fields
    field : String → Json → Fields → Fields

abbrev bool_eq : Bool → Bool → Bool
bool_eq true b = b
bool_eq false b = not b

-- `JSON.stringify(a) === JSON.stringify(b)`, which compares the keys in their order.
unfoldable mutual
  pub json_equal : Json → Json → Bool
  json_equal null null = true
  json_equal (boolean a) (boolean b) = bool_eq a b
  json_equal (number a) (number b) = str_eq a b
  json_equal (text a) (text b) = str_eq a b
  json_equal (array xs) (array ys) = items_equal xs ys
  json_equal (object fs) (object gs) = fields_equal fs gs
  json_equal _ _ = false

  pub items_equal : Items → Items → Bool
  items_equal no_item no_item = true
  items_equal (item x xs) (item y ys) = json_equal x y && items_equal xs ys
  items_equal _ _ = false

  pub fields_equal : Fields → Fields → Bool
  fields_equal no_field no_field = true
  fields_equal (field j x fs) (field k y gs) = str_eq j k && json_equal x y && fields_equal fs gs
  fields_equal _ _ = false

-- `jsonEqual(a, c)` where `a` may be `undefined`
abbrev pub same_json : Option Json → Json → Bool
same_json none c = false
same_json (some a) c = json_equal a c

unfoldable pub count_items : Items → ℕ
count_items no_item = 0
count_items (item x xs) = suc (count_items xs)

-- `object[key]`
unfoldable pub find : String → Fields → Option Json
find key no_field = none
find key (field k v fs) = let later = find key fs in if str_eq k key then some v else later

-- `object[key] = value`
unfoldable pub put : String → Json → Fields → Fields
put key value no_field = field key value no_field
put key value (field k v fs) =
    let later = put key value fs in if str_eq k key then field key value fs else field k v later

-- The fields whose key passes a test.
unfoldable pub keep_fields : (String → Bool) → Fields → Fields
keep_fields test no_field = no_field
keep_fields test (field k v fs) =
    let later = keep_fields test fs in if test k then field k v later else later

-- No key twice.
abbrev pub HasUniqueKeys : Fields → Type 0
HasUniqueKeys no_field = Unit
HasUniqueKeys (field k v fs) = (find k fs ≡ none) × HasUniqueKeys fs

pub find-put :
    (key other : String) (value : Json) (fs : Fields)
    → find other (put key value fs) ≡ (if str_eq key other then some value else find other fs)
unfolding find put
find-put key other value no_field = refl
find-put key other value (field k v fs) =
    ground (arith, find-put key other value fs, eq_iff k key, eq_iff k other, eq_iff key other)

pub find-keep_fields :
    (test : String → Bool) (key : String) (fs : Fields)
    → find key (keep_fields test fs) ≡ (if test key then find key fs else none)
unfolding find keep_fields
find-keep_fields test key no_field = ground arith
find-keep_fields test key (field k v fs) = elim (Bool-cases (str_eq k key)) [
  | inl same_key ↦
      let e : k ≡ key = (eq_iff k key).0 same_key in
      ground (arith, same_key, find-keep_fields test key fs, ap test e)
  | inr other ↦ ground (arith, other, find-keep_fields test key fs)
]

mutual
  unfolding json_equal

  pub json_equal_refl : (x : Json) → json_equal x x ≡ true
  json_equal_refl null = refl
  json_equal_refl (boolean true) = refl
  json_equal_refl (boolean false) = refl
  json_equal_refl (number n) = ground (arith, eq_iff n n)
  json_equal_refl (text t) = ground (arith, eq_iff t t)
  json_equal_refl (array xs) = items_equal_refl xs
  json_equal_refl (object fs) = fields_equal_refl fs

  items_equal_refl : (xs : Items) → items_equal xs xs ≡ true
  items_equal_refl no_item = refl
  items_equal_refl (item x xs) = ground (arith, json_equal_refl x, items_equal_refl xs)

  fields_equal_refl : (fs : Fields) → fields_equal fs fs ≡ true
  fields_equal_refl no_field = refl
  fields_equal_refl (field k v fs) =
      ground (arith, eq_iff k k, json_equal_refl v, fields_equal_refl fs)
