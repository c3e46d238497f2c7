-- ===== src/Config/Parsing.antt =====
-- The loops of config.py over an array, and `parse_config`.
use openevent_modules_im.Prelude.{
  ℕ, String, Bool, false, ◌&&◌, not, none, some, List, [], ◌∷◌, ◌++◌, ◌==◌, string_eq, nat_eq,
  if◌then◌else◌, ltb, length, Dict, lookup, insert, is_some, Result, ok, raise, ◌>>=◌, ◌>>◌,
}
use openevent_modules_im.Json.{Json, str, obj, Items, nil, cons, Fields, end, get, get_default}
use openevent_modules_im.Models.{ProviderConfig, MappingEntry, SyncerConfig}
use openevent_modules_im.Config.Sections.{
  parse_worker, parse_openevent, parse_retry, parse_settings,
}
use openevent_modules_im.Config.Values.{
  invalid_config, config_obj, config_str, config_identity_type, reject_removed_fields,
  positive_uint64, non_empty_array,
}

-- A round of the loop of `_parse_principal_tokens`.
unfoldable pub parse_principal_token : ℕ → Json → Dict ℕ String → Result (Dict ℕ String)
parse_principal_token worker_principal raw result = do
  item ← config_obj raw
  principal ← positive_uint64 (get "principal" item)
  if principal == worker_principal
      then raise invalid_config
      else if is_some (lookup principal result)
      then raise invalid_config
      else do token ← config_str (get "token" item); ok (insert principal token result)

-- A loop over an array, where `result` is what the rounds so far have made.
unfoldable pub each_item : {R : Type 0} → (Json → R → Result R) → Items → R → Result R
each_item round nil result = ok result
each_item round (cons item items) result = do next ← round item result; each_item round items next

-- The loop over an array that is not empty.
unfoldable pub non_empty_items : {R : Type 0} → (Json → R → Result R) → Json → R → Result R
non_empty_items round raw result = do
  (item, items) ← non_empty_array raw
  each_item round (cons item items) result

unfoldable pub parse_principal_tokens : Json → ℕ → Result (Dict ℕ String)
parse_principal_tokens raw worker_principal =
    non_empty_items (parse_principal_token worker_principal) raw []

-- A round of the loop of `_parse_providers`.
unfoldable pub parse_provider :
    Json → Dict String ProviderConfig → Result (Dict String ProviderConfig)
parse_provider raw result = do
  item ← config_obj raw
  reject_removed_fields item ("adapter" ∷ "enabled" ∷ [])
  name ← config_str (get "name" item)
  if not (name == "feishu") && not (name == "lark")
      then raise invalid_config
      else if is_some (lookup name result)
      then raise invalid_config
      else do provider ← parse_settings name item; ok (insert name provider result)

unfoldable pub parse_providers : Json → Result (Dict String ProviderConfig)
parse_providers raw = non_empty_items parse_provider raw []

-- A round of the loop of `_parse_mappings`.
unfoldable pub parse_mapping : Json → List MappingEntry → Result (List MappingEntry)
parse_mapping raw result = do
  item ← config_obj raw
  reject_removed_fields item ("status" ∷ [])
  provider ← config_str (get "provider" item)
  identity_type ← config_identity_type (get_default "identity_type" (str "user") item)
  external_user_id ← config_str (get "external_user_id" item)
  principal ← positive_uint64 (get "principal" item)
  session_id ← config_str (get "session_id" item)
  channel_id ← positive_uint64 (get "channel_id" item)
  ok (
      result
      ++ record {
        provider = provider;
        identity_type = identity_type;
        external_user_id = external_user_id;
        principal = principal;
        session_id = session_id;
        channel_id = channel_id;
      }
        ∷ [])

unfoldable pub parse_mappings : Json → Result (List MappingEntry)
parse_mappings raw = non_empty_items parse_mapping raw []

-- `external_user_id == credentials["app_id"]`, which has been checked to be a text.
unfoldable pub is_app_id : String → Json → Bool
is_app_id external_user_id (str app_id) = external_user_id == app_id
is_app_id external_user_id value = false

unfoldable pub validate_provider_refs :
    Dict String ProviderConfig → List MappingEntry → Result (Unit {0})
validate_provider_refs providers [] = ok tt
validate_provider_refs providers (mapping ∷ mappings) =
    let rest = validate_provider_refs providers mappings in
    elim (lookup mapping.provider providers) [
      | none ↦ raise invalid_config
      | some provider ↦
          if mapping.identity_type == "bot"
            && not (is_app_id mapping.external_user_id (get "app_id" provider.credentials))
          then raise invalid_config
          else rest
    ]

unfoldable pub parse_object : Fields → Result SyncerConfig
parse_object raw = do
  version ← config_str (get "version" raw)
  if not (version == "v1") then raise invalid_config else do
    worker_raw ← config_obj (get "worker" raw)
    worker ← parse_worker worker_raw
    openevent_raw ← config_obj (get "openevent" raw)
    openevent ← parse_openevent openevent_raw
    retry_raw ← config_obj (get_default "retry" (obj end) raw)
    retry ← parse_retry retry_raw
    principal_tokens ← parse_principal_tokens (get "principal_tokens" raw) worker.principal
    providers ← parse_providers (get "providers" raw)
    if ltb 1 (length providers) then raise invalid_config else do
      mappings ← parse_mappings (get "mappings" raw)
      validate_provider_refs providers mappings
      logging ← config_obj (get_default "logging" (obj end) raw)
      ok (record {
        version = version;
        worker = worker;
        openevent = openevent;
        retry = retry;
        principal_tokens = principal_tokens;
        providers = providers;
        mappings = mappings;
        logging = logging;
      })

unfoldable pub parse_config : Json → Result SyncerConfig
parse_config raw = config_obj raw >>= λ root. parse_object root
