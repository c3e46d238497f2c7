-- ===== src/Json/Equality.antt =====
-- Python's `==` on JSON values. Booleans, integers and floats compare as numbers, and two
-- objects are equal if they have the same keys with equal values, in any order.
use openevent_modules_im.Prelude.{ℕ, suc, ◌*◌, ◌^◌, String, Bool, true, false, ◌&&◌}
use openevent_modules_im.Prelude.{none, some, ◌≡◌, refl, ◌==◌, string_eq, nat_eq}
use openevent_modules_im.Prelude.{arith}
use openevent_modules_im.Json.Values.{
  ℤ, pos, negsuc, Json, null, bool, int, float, str, arr, obj, Items, nil, cons, Fields, end, field,
  find, size,
}

-- `m / 2 ^ k == n / 2 ^ l`
same_number : ℤ → ℕ → ℤ → ℕ → Bool
same_number (pos m) k (pos n) l = m * 2 ^ l == n * 2 ^ k
same_number (negsuc m) k (negsuc n) l = suc m * 2 ^ l == suc n * 2 ^ k
same_number (pos m) k (negsuc n) l = false
same_number (negsuc m) k (pos n) l = false

-- `True` is 1.
number : Bool → ℤ
number true = pos 1
number false = pos 0

is_number : ℤ → ℕ → Json → Bool
unfolding number same_number
is_number m k (bool b) = same_number m k (number b) 0
is_number m k (int n) = same_number m k n 0
is_number m k (float n l) = same_number m k n l
is_number m k v = false

unfoldable mutual
  unfolding is_number

  pub json_eq : Json → Json → Bool
  json_eq null y = elim y [ null ↦ true | _ ↦ false ]
  json_eq (bool b) y = is_number (number b) 0 y
  json_eq (int n) y = is_number n 0 y
  json_eq (float n l) y = is_number n l y
  json_eq (str s) y = elim y [ str t ↦ s == t | _ ↦ false ]
  json_eq (arr xs) y = elim y [ arr ys ↦ items_eq xs ys | _ ↦ false ]
  json_eq (obj f) y = elim y [ obj g ↦ size f == size g && fields_within f g | _ ↦ false ]

  pub items_eq : Items → Items → Bool
  items_eq nil ys = elim ys [ nil ↦ true | cons y zs ↦ false ]
  items_eq (cons x xs) ys = elim ys [ nil ↦ false | cons y zs ↦ json_eq x y && items_eq xs zs ]

  -- Every key of the first object is in the second, with an equal value.
  pub fields_within : Fields → Fields → Bool
  fields_within end g = true
  fields_within (field k v f) g =
      elim (find k g) [ none ↦ false | some w ↦ json_eq v w ] && fields_within f g

-- `==` on two objects.
unfoldable pub fields_eq : Fields → Fields → Bool
unfolding json_eq items_eq fields_within
fields_eq f g = size f == size g && fields_within f g

-- No object in the value has a key twice.
unfoldable mutual
  pub IsWellFormed : Json → Type 0
  IsWellFormed (arr xs) = AreWellFormed xs
  IsWellFormed (obj f) = IsObject f
  IsWellFormed v = Unit {0}

  pub AreWellFormed : Items → Type 0
  AreWellFormed nil = Unit {0}
  AreWellFormed (cons x xs) = IsWellFormed x × AreWellFormed xs

  pub IsObject : Fields → Type 0
  IsObject end = Unit {0}
  IsObject (field k v f) = (find k f ≡ none) × IsWellFormed v × IsObject f

abbrev Agrees : Fields → Fields → Type 0
Agrees end g = Unit {0}
Agrees (field k v f) g = (find k g ≡ some v) × Agrees f g

Agrees-field :
    (f g : Fields) (k : String) (v : Json) → find k f ≡ none → Agrees f g → Agrees f (field k v g)
unfolding find
Agrees-field end g k v h a = tt
Agrees-field (field j w f) g k v h a = (ground arith, Agrees-field f g k v (ground arith) a.1)

Agrees-refl : (f : Fields) → IsObject f → Agrees f f
unfolding find IsWellFormed
Agrees-refl end h = tt
Agrees-refl (field k v f) h = (ground arith, Agrees-field f f k v h.0 (Agrees-refl f h.2))

mutual
  unfolding json_eq items_eq fields_within IsWellFormed AreWellFormed IsObject is_number same_number

  json_eq_same : (v : Json) → IsWellFormed v → json_eq v v ≡ true
  json_eq_same null h = refl
  json_eq_same (bool true) h = ground arith
  json_eq_same (bool false) h = ground arith
  json_eq_same (int (pos n)) h = ground arith
  json_eq_same (int (negsuc n)) h = ground arith
  json_eq_same (float (pos n) l) h = ground arith
  json_eq_same (float (negsuc n) l) h = ground arith
  json_eq_same (str s) h = ground arith
  json_eq_same (arr xs) h = items_eq_same xs h
  json_eq_same (obj f) h = ground (arith, fields_within_same f f h (Agrees-refl f h))

  items_eq_same : (xs : Items) → AreWellFormed xs → items_eq xs xs ≡ true
  items_eq_same nil h = refl
  items_eq_same (cons x xs) h = ground (arith, json_eq_same x h.0, items_eq_same xs h.1)

  fields_within_same : (f g : Fields) → IsObject f → Agrees f g → fields_within f g ≡ true
  fields_within_same end g h a = refl
  fields_within_same (field k v f) g h a =
      ground (arith, json_eq_same v h.1, fields_within_same f g h.2 a.1)

-- `==` is reflexive on objects whose keys are distinct.
pub fields_eq_refl : (f : Fields) → IsObject f → fields_eq f f ≡ true
unfolding fields_eq
fields_eq_refl f h = ground (arith, fields_within_same f f h (Agrees-refl f h))

-- So on any value in which no object has a key twice.
pub json_eq_refl : (v : Json) → IsWellFormed v → json_eq v v ≡ true
json_eq_refl v h = json_eq_same v h
