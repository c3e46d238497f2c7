-- ===== src/Sdk/Principals.antt =====
-- Where `reject_source_principal` finds the key `source_principal`.
use openevent_modules_im.Prelude.{
  ◌≡◌, ◌≢◌, ◌⊎◌, inl, inr, refl, sym, true, false, string_eq, if◌then◌else◌, arith, Result, ok,
  raise, ◌>>◌,
}
use openevent_modules_im.Json.{
  Json, null, bool, int, float, str, arr, obj, Items, nil, cons, Fields, end, field, has, find,
}
use openevent_modules_im.Sdk.Normalizer.{
  malformed, reject_source_principal, reject_children, reject_items,
}

-- No key of the object is `source_principal`.
abbrev OwnKeys : Fields → Type 0
OwnKeys end = Unit {0}
OwnKeys (field k v f) = (k ≢ "source_principal") × OwnKeys f

-- No object in the value, at any depth, has the key `source_principal`.
unfoldable mutual
  pub NamesNoPrincipal : Json → Type 0
  NamesNoPrincipal (obj f) = OwnKeys f × NoValueNames f
  NamesNoPrincipal (arr xs) = NoItemNames xs
  NamesNoPrincipal v = Unit {0}

  pub NoValueNames : Fields → Type 0
  NoValueNames end = Unit {0}
  NoValueNames (field k v f) = NamesNoPrincipal v × NoValueNames f

  pub NoItemNames : Items → Type 0
  NoItemNames nil = Unit {0}
  NoItemNames (cons x xs) = NamesNoPrincipal x × NoItemNames xs

-- The value where `P` holds, and MalformedPayloadError where it does not.
pub data Decides {A : Type 0} (P : Type 0) (a : A) : Result A → Type 0 where
  clear : P → Decides P a (ok a)
  named : ¬ P → Decides P a (raise malformed)

both_Decide :
    (P Q : Type 0) {m n : Result (Unit {0})}
    → Decides P tt m
    → Decides Q tt n
    → Decides (P × Q) tt (m >> n)
both_Decide P Q (clear p) (clear q) = clear (p, q)
both_Decide P Q (clear p) (named found) = named (λ pq. found pq.1)
both_Decide P Q (named found) d = named (λ pq. found pq.0)

pub reject_then :
    {A : Type 0} {P : Type 0} (a : A) {m : Result (Unit {0})}
    → Decides P tt m
    → Decides P a (m >> ok a)
reject_then a (clear p) = clear p
reject_then a (named found) = named found

own_keys :
    (f : Fields)
    → ((has "source_principal" f ≡ true) × (¬ OwnKeys f))
      ⊎ ((has "source_principal" f ≡ false) × OwnKeys f)
unfolding has find
own_keys end = inr (refl, tt)
own_keys (field k v f) = elim (string_eq.dec "source_principal" k) [
  | yes same ↦ inl (ground arith, λ h. h.0 (sym same))
  | no other ↦ elim (own_keys f) [
    | inl (h, key) ↦ inl (ground arith, λ h'. key h'.1)
    | inr (h, keys) ↦ inr (ground arith, (λ e. other (sym e), keys))
  ]
]

keys_first :
    (f : Fields)
    → Decides (NoValueNames f) tt (reject_children f)
    → Decides
        (OwnKeys f × NoValueNames f)
        tt
        (if has "source_principal" f then raise malformed else reject_children f)
keys_first f d = elim (own_keys f) [
  | inl (h, key) ↦ rw h (named (λ both. key both.0))
  | inr (h, keys) ↦ rw h (with_keys keys d)
]
  where
    with_keys :
        {m : Result (Unit {0})}
        → OwnKeys f
        → Decides (NoValueNames f) tt m
        → Decides (OwnKeys f × NoValueNames f) tt m
    with_keys keys (clear p) = clear (keys, p)
    with_keys keys (named found) = named (λ both. found both.1)

mutual
  unfolding reject_source_principal reject_children reject_items NamesNoPrincipal NoValueNames
      NoItemNames

  pub reject_source_principal-Decides :
      (v : Json) → Decides (NamesNoPrincipal v) tt (reject_source_principal v)
  reject_source_principal-Decides (obj f) = keys_first f (reject_children-Decides f)
  reject_source_principal-Decides (arr xs) = reject_items-Decides xs
  reject_source_principal-Decides null = clear tt
  reject_source_principal-Decides (bool b) = clear tt
  reject_source_principal-Decides (int n) = clear tt
  reject_source_principal-Decides (float m n) = clear tt
  reject_source_principal-Decides (str s) = clear tt

  reject_children-Decides : (f : Fields) → Decides (NoValueNames f) tt (reject_children f)
  reject_children-Decides end = clear tt
  reject_children-Decides (field k v f) =
      both_Decide (NamesNoPrincipal v) (NoValueNames f) (reject_source_principal-Decides v)
        (reject_children-Decides f)

  reject_items-Decides : (xs : Items) → Decides (NoItemNames xs) tt (reject_items xs)
  reject_items-Decides nil = clear tt
  reject_items-Decides (cons x xs) =
      both_Decide (NamesNoPrincipal x) (NoItemNames xs) (reject_source_principal-Decides x)
        (reject_items-Decides xs)
