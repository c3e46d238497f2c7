-- ===== src/Config/Checks.antt =====
-- What the checks of a single value accept, and what they raise for another.
use openevent_modules_im.Prelude.{
  ℕ, suc, ◌≤◌, ◌≡◌, ◌≢◌, ◌⊎◌, inl, inr, refl, sym, subst, String, Bool, true, false, List, ◌==◌,
  string_eq, nat_eq, if◌then◌else◌, arith, Result, ok, raise, Error, error, config_error, other,
  error_class,
}
use openevent_modules_im.Prelude.Ensuring.{Ensured, accepted, refused, either}
use openevent_modules_im.Json.{Json, int, pos, negsuc, float, obj, Fields, str}
use openevent_modules_im.Sdk.Normalizer.{uint64_max, malformed, require_uint64}
use openevent_modules_im.Config.Values.{
  invalid_config, config_obj, config_str, reject_removed_fields, positive_uint64, positive_int,
  non_negative_int, positive_number, on_malformed, has_any,
}

-- A value that has `P`, or a refusal.
abbrev pub IsRefusal : Error → Type 0
IsRefusal e = (error_class e ≡ config_error) ⊎ (e ≡ error other)

abbrev pub Ensures : {A : Type 0} → (A → Type 0) → Result A → Type 0
Ensures P r = Ensured IsRefusal P r

invalid_config-IsRefusal : IsRefusal invalid_config
unfolding error_class
invalid_config-IsRefusal = inl refl

module _ {A : Type 0} {P : A → Type 0} where
  pub refuse : Ensures P (raise invalid_config)
  refuse = refused invalid_config-IsRefusal

  pub unless :
      (b : Bool) {r : Result A}
      → (b ≡ false → Ensures P r)
      → Ensures P (if b then raise invalid_config else r)
  unless true h = refuse
  unless false h = h refl

pub config_obj-Ensures : (v : Json) → Ensures (λ f. Unit) (config_obj v)
unfolding config_obj
config_obj-Ensures (obj f) = accepted tt
config_obj-Ensures v = refuse

abbrev pub IsText : String → Type 0
IsText s = s ≢ ""

pub config_str-Ensures : (v : Json) → Ensures IsText (config_str v)
unfolding config_str
config_str-Ensures (str s) = unless (s == "") (λ h. accepted (ground arith))
config_str-Ensures v = refuse

abbrev pub IsPrincipal : ℕ → Type 0
IsPrincipal n = (1 ≤ n) × (n ≤ uint64_max)

refused_value :
    {A : Type 0} {P : A → Type 0}
    → Ensures P (raise (on_malformed malformed (error_class malformed)))
unfolding on_malformed error_class
refused_value = refused (inl refl)

number_bounds : (n m : ℕ) → require_uint64 (int (pos n)) true ≡ ok m → IsPrincipal m
unfolding require_uint64
number_bounds n m h = grind arith

malformed_only : (n : ℕ) (e : Error) → require_uint64 (int (pos n)) true ≡ raise e → e ≡ malformed
unfolding require_uint64
malformed_only n e h = grind arith

pub positive_uint64-Ensures : (v : Json) → Ensures IsPrincipal (positive_uint64 v)
unfolding positive_uint64 require_uint64
positive_uint64-Ensures (int (pos n)) = by_result (require_uint64 (int (pos n)) true) refl
  where
    by_result :
        (r : Result ℕ)
        → require_uint64 (int (pos n)) true ≡ r
        → Ensures IsPrincipal
            (elim r [ ok n ↦ ok n | raise e ↦ raise (on_malformed e (error_class e)) ])
    by_result (ok m) h = accepted (number_bounds n m h)
    by_result (raise e) h =
        subst (λ e. Ensures IsPrincipal (raise (on_malformed e (error_class e))))
          (sym (malformed_only n e h)) refused_value
positive_uint64-Ensures v = refused_value

pub positive_int-Ensures : (v : Json) → Ensures (λ n. 1 ≤ n) (positive_int v)
unfolding positive_int
positive_int-Ensures (int (pos (suc n))) = accepted (omega arith)
positive_int-Ensures v = refuse

pub non_negative_int-Ensures : (v : Json) → Ensures (λ n. Unit) (non_negative_int v)
unfolding non_negative_int
non_negative_int-Ensures (int (pos n)) = accepted tt
non_negative_int-Ensures v = refuse

pub reject_removed_fields-Ensures :
    (f : Fields) (names : List String) → Ensures (λ u. Unit) (reject_removed_fields f names)
unfolding reject_removed_fields
reject_removed_fields-Ensures f names = unless (has_any names f) (λ h. accepted tt)

pub positive_number-Ensures : (v : Json) → Ensures (λ u. Unit) (positive_number v)
unfolding positive_number
positive_number-Ensures (int (pos (suc n))) = either _ (λ h. refused (inr refl)) (λ h. accepted tt)
positive_number-Ensures (int (negsuc n)) = either _ (λ h. refused (inr refl)) (λ h. refuse)
positive_number-Ensures (float (pos (suc m)) e) = accepted tt
positive_number-Ensures v = refuse
