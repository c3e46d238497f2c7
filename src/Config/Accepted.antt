-- ===== src/Config/Accepted.antt =====
-- What holds of the parsed configuration, by the loops over the arrays.
use openevent_modules_im.Prelude.{
  ℕ, ◌≤◌, ◌≡◌, ◌⊎◌, refl, subst, String, true, ◌&&◌, ◌||◌, not, Option, none, some, List, [], ◌∷◌,
  ◌++◌, ◌==◌, string_eq, Eq, if_ind, length-append, nat_eq, if◌then◌else◌, ltb, is_some, All, Dict,
  lookup, insert, length, arith, Result, raise,
}
use openevent_modules_im.Json.{
  Json, null, bool, int, float, str, obj, arr, Fields, get, Items, nil, cons,
}
use openevent_modules_im.Models.{ProviderConfig, MappingEntry}
use openevent_modules_im.Config.Values.{config_identity_type, invalid_config, non_empty_array}
use openevent_modules_im.Config.Parsing.{
  each_item, non_empty_items, parse_principal_token, parse_principal_tokens, parse_provider,
  parse_providers, parse_mapping, parse_mappings, is_app_id, validate_provider_refs, parse_object,
  parse_config,
}
use openevent_modules_im.Prelude.Ensuring.{accepted, refused, ensure, either}
use openevent_modules_im.Config.Checks.{
  Ensures, refuse, unless, config_obj-Ensures, config_str-Ensures, positive_uint64-Ensures,
  reject_removed_fields-Ensures,
}
use openevent_modules_im.Config.Valid.{
  IsValidProvider, IsValidToken, IsValidMapping, RefersTo, Valid, parse_worker-Ensures,
  parse_openevent-Ensures, parse_retry-Ensures, parse_settings-Ensures,
}

module _ {R : Type 0} {P Q : R → Type 0} (round : Json → R → Result R)
    (weaken : (r : R) → Q r → P r) (one : (v : Json) (r : R) → P r → Ensures Q (round v r)) where
  each_item-Ensures : (items : Items) (r : R) → Q r → Ensures Q (each_item round items r)
  unfolding each_item
  each_item-Ensures nil r q = accepted q
  each_item-Ensures (cons v items) r q =
      ensure (one v r (weaken r q)) λ r' q'. each_item-Ensures items r' q'

  non_empty_items-Ensures : (raw : Json) (r : R) → P r → Ensures Q (non_empty_items round raw r)
  unfolding non_empty_items non_empty_array each_item
  non_empty_items-Ensures (arr (cons v items)) r p =
      ensure (one v r p) λ r' q. each_item-Ensures items r' q
  non_empty_items-Ensures v r p = refuse

module _ {K V : Type 0} ⦃e : Eq K⦄ (P : K × V → Type 0) where
  All-insert : (k : K) (v : V) (d : Dict K V) → P (k, v) → All P d → All P (insert k v d)
  unfolding insert
  All-insert k v [] p all = (p, tt)
  All-insert k v ((j, w) ∷ d) p (q, all) =
      if_ind (All P) (k == j) _ _ (λ same. (subst (λ i. P (i, v)) (ground arith) p, all))
        (λ other. (q, All-insert k v d p all))

  length-insert : (k : K) (v : V) (d : Dict K V) → 1 ≤ length (insert k v d)
  unfolding insert
  length-insert k v [] = omega arith
  length-insert k v ((j, w) ∷ d) = ground arith

module _ {A : Type 0} (P : A → Type 0) where
  All-append_last : (a : A) (xs : List A) → P a → All P xs → All P (xs ++ a ∷ [])
  All-append_last a [] p all = (p, tt)
  All-append_last a (x ∷ xs) p (q, all) = (q, All-append_last a xs p all)

-- What has been parsed of an array, with an item at least.
abbrev Some : {A : Type 0} → (A → Type 0) → List A → Type 0
Some P xs = (1 ≤ length xs) × All P xs

parse_principal_token-Ensures :
    (worker_principal : ℕ) (v : Json) (d : Dict ℕ String)
    → All (IsValidToken worker_principal) d
    → Ensures (Some (IsValidToken worker_principal)) (parse_principal_token worker_principal v d)
unfolding parse_principal_token
parse_principal_token-Ensures worker_principal v d all = ensure (config_obj-Ensures v) λ item t.
    ensure (positive_uint64-Ensures _) λ principal bounds.
      unless (principal == worker_principal) λ differ.
        unless (is_some (lookup principal d)) λ fresh. ensure (config_str-Ensures _) λ token text.
          accepted (
            length-insert (IsValidToken worker_principal) principal token d,
            All-insert _ principal token d (bounds, ground arith, text) all,
          )

parse_provider-Ensures :
    (v : Json) (d : Dict String ProviderConfig)
    → All IsValidProvider d
    → Ensures (Some IsValidProvider) (parse_provider v d)
unfolding parse_provider
parse_provider-Ensures v d all = ensure (config_obj-Ensures v) λ item t.
    ensure (reject_removed_fields-Ensures item _) λ u t'. ensure (config_str-Ensures _) λ name text.
      unless (not (name == "feishu") && not (name == "lark")) λ known.
        unless (is_some (lookup name d)) λ fresh.
          ensure (parse_settings-Ensures name item) λ p (named, sync). accepted (
            length-insert IsValidProvider name p d,
            All-insert _ name p d (ground arith, named, sync) all,
          )

config_identity_type-Ensures :
    (v : Json) → Ensures (λ s. (s ≡ "user") ⊎ (s ≡ "bot")) (config_identity_type v)
unfolding config_identity_type
config_identity_type-Ensures v = ensure (config_str-Ensures v) λ s text.
    either (s == "user" || s == "bot") (λ known. accepted ground arith) (λ unknown. refuse)

parse_mapping-Ensures :
    (v : Json) (ms : List MappingEntry)
    → All IsValidMapping ms
    → Ensures (Some IsValidMapping) (parse_mapping v ms)
unfolding parse_mapping
parse_mapping-Ensures v ms all = ensure (config_obj-Ensures v) λ item t.
    ensure (reject_removed_fields-Ensures item _) λ u t'.
      ensure (config_str-Ensures _) λ provider a.
        ensure (config_identity_type-Ensures _) λ identity_type b.
          ensure (config_str-Ensures _) λ external_user_id c.
            ensure (positive_uint64-Ensures _) λ principal d.
              ensure (config_str-Ensures _) λ session_id e.
                ensure (positive_uint64-Ensures _) λ channel_id f. accepted (
                  omega (arith, length-append ms _),
                  All-append_last IsValidMapping _ ms (a, b, c, d, e, f) all,
                )

app_id : (id : String) (v : Json) → is_app_id id v ≡ true → v ≡ str id
unfolding is_app_id
app_id id (str s) h = ground arith
app_id id null h = absurd (cc)
app_id id (bool b) h = absurd (cc)
app_id id (int n) h = absurd (cc)
app_id id (float m n) h = absurd (cc)
app_id id (arr xs) h = absurd (cc)
app_id id (obj f) h = absurd (cc)

validate_provider_refs-Ensures :
    (providers : Dict String ProviderConfig) (ms : List MappingEntry)
    → Ensures (λ u. All (RefersTo providers) ms) (validate_provider_refs providers ms)
unfolding validate_provider_refs
validate_provider_refs-Ensures providers [] = accepted tt
validate_provider_refs-Ensures providers (m ∷ ms) =
    by_provider (lookup m.provider providers) refl (validate_provider_refs-Ensures providers ms)
  where
    further :
        {r : Result Unit} (p : ProviderConfig)
        → lookup m.provider providers ≡ some p
        → (m.identity_type ≡ "bot" → get "app_id" p.credentials ≡ str m.external_user_id)
        → Ensures (λ u. All (RefersTo providers) ms) r
        → Ensures (λ u. All (RefersTo providers) (m ∷ ms)) r
    further p known bot (accepted h) = accepted ((p, known, bot), h)
    further p known bot (refused h) = refused h

    by_provider :
        {r : Result Unit} (o : Option ProviderConfig)
        → lookup m.provider providers ≡ o
        → Ensures (λ u. All (RefersTo providers) ms) r
        → Ensures
            (λ u. All (RefersTo providers) (m ∷ ms))
            (elim o [
              | none ↦ raise invalid_config
              | some p ↦
                  if m.identity_type == "bot"
                    && not (is_app_id m.external_user_id (get "app_id" p.credentials))
                  then raise invalid_config
                  else r
            ])
    by_provider none known rest = refuse
    by_provider (some p) known rest =
        unless
          (m.identity_type == "bot"
            && not (is_app_id m.external_user_id (get "app_id" p.credentials)))
          λ right. further p known (λ is_bot. app_id m.external_user_id _ (ground arith)) rest

parse_object-Ensures : (f : Fields) → Ensures Valid (parse_object f)
unfolding parse_object parse_principal_tokens parse_providers parse_mappings
parse_object-Ensures f = ensure (config_str-Ensures _) λ version text.
    unless (not (version == "v1")) λ v1. ensure (config_obj-Ensures _) λ worker_raw t.
      ensure (parse_worker-Ensures worker_raw) λ worker valid_worker.
        ensure (config_obj-Ensures _) λ openevent_raw t1.
          ensure (parse_openevent-Ensures openevent_raw) λ openevent target.
            ensure (config_obj-Ensures _) λ retry_raw t2.
              ensure (parse_retry-Ensures retry_raw) λ retry attempts.
                ensure
                  (non_empty_items-Ensures (parse_principal_token worker.principal) (λ r q. q.1)
                    (parse_principal_token-Ensures worker.principal) _ [] tt)
                  λ tokens (some_token, valid_tokens).
                    ensure
                      (non_empty_items-Ensures parse_provider (λ r q. q.1) parse_provider-Ensures _
                        [] tt)
                      λ providers (some_provider, valid_providers).
                        unless (ltb 1 (length providers)) λ one.
                          ensure
                            (non_empty_items-Ensures parse_mapping (λ r q. q.1)
                              parse_mapping-Ensures _ [] tt)
                            λ mappings (some_mapping, valid_mappings).
                              ensure (validate_provider_refs-Ensures providers mappings)
                                λ u references. ensure (config_obj-Ensures _) λ logging t3.
                                  accepted (record {
                                    version_1 = ground arith;
                                    worker = valid_worker;
                                    target = target;
                                    attempts = attempts;
                                    some_token = some_token;
                                    tokens = valid_tokens;
                                    one_provider = ground arith;
                                    providers = valid_providers;
                                    some_mapping = some_mapping;
                                    mappings = valid_mappings;
                                    references = references;
                                  })

-- A configuration that `parse_config` accepts is valid: its version is v1, the ids are positive uint64,
-- the texts are not empty, there is a token, none for the worker, exactly one provider, feishu or
-- lark, with limits that are positive and a page of at most 50, and mappings that all refer to
-- that provider, those of a bot by the id of its app. For another value it raises ConfigError, or
-- the OverflowError of `float`.
pub parse_config-Valid : (raw : Json) → Ensures Valid (parse_config raw)
unfolding parse_config
parse_config-Valid raw = ensure (config_obj-Ensures raw) λ f t. parse_object-Ensures f
