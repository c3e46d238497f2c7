-- ===== src/Json/Values.antt =====
-- JSON values, and Python's integers.
use openevent_modules_im.Prelude.{ℕ, suc, String, Bool, Option, none, some, ◌≡◌, refl}
use openevent_modules_im.Prelude.{◌==◌, if◌then◌else◌, string_eq, is_some, arith}

-- `negsuc n` is -(n + 1).
pub data ℤ : Type 0 where
  pos : ℕ → ℤ
  negsuc : ℕ → ℤ

mutual
  pub data Json : Type 0 where
    null : Json
    bool : Bool → Json
    int : ℤ → Json
    float : ℤ → ℕ → Json
    str : String → Json
    arr : Items → Json
    obj : Fields → Json

  pub data Items : Type 0 where
    nil : Items
    cons : Json → Items → Items

  pub data Fields : Type 0 where
    end : Fields
    field : String → Json → Fields → Fields

-- `d[k]`, with `none` for a missing key.
unfoldable pub find : String → Fields → Option Json
find k end = none
find k (field j v f) = if k == j then some v else find k f

-- `k in d`
unfoldable pub has : String → Fields → Bool
has k f = is_some (find k f)

-- `d.get(k, default)`
unfoldable pub get_default : String → Json → Fields → Json
get_default k d f = elim (find k f) [ none ↦ d | some v ↦ v ]

-- `d.get(k)`, which is None for a missing key.
unfoldable pub get : String → Fields → Json
unfolding get_default
get k f = get_default k null f

-- `d[k] = v`
unfoldable pub put : String → Json → Fields → Fields
put k v end = field k v end
put k v (field j w f) = if k == j then field j v f else field j w (put k v f)

-- `d.update(e)`
unfoldable pub update : Fields → Fields → Fields
update d end = d
update d (field k v f) = update (put k v d) f

-- `len(d)`
unfoldable pub size : Fields → ℕ
size end = 0
size (field k v f) = suc (size f)

pub find-put :
    (j k : String) (v : Json) (f : Fields)
    → find j (put k v f) ≡ (if j == k then some v else find j f)
unfolding find put
find-put j k v end = refl
find-put j k v (field i w f) = ground (arith, find-put j k v f)
