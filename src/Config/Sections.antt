-- ===== src/Config/Sections.antt =====
-- The sections of a configuration that have no loop.
use openevent_modules_im.Prelude.{
  ℕ, String, none, some, [], ◌∷◌, string_eq, nat_eq, if◌then◌else◌, ltb, Result, ok, raise, ◌>>=◌,
  ◌>>◌,
}
use openevent_modules_im.Json.{Json, int, pos, obj, Fields, end, find, get, get_default}
use openevent_modules_im.Models.{
  WorkerConfig, OpenEventConfig, RetryConfig, ProviderSyncConfig, ProviderConfig,
}
use openevent_modules_im.Config.Values.{
  invalid_config, config_obj, config_str, reject_removed_fields, positive_uint64, positive_int,
  non_negative_int, positive_number,
}

abbrev natural : ℕ → Json
natural n = int (pos n)

unfoldable pub parse_worker : Fields → Result WorkerConfig
parse_worker raw = do
  principal ← positive_uint64 (get "principal" raw)
  token ← config_str (get "token" raw)
  shutdown_timeout_ms ← non_negative_int (get_default "shutdown_timeout_ms" (natural 10000) raw)
  ok (record { principal = principal; token = token; shutdown_timeout_ms = shutdown_timeout_ms })

unfoldable pub parse_openevent : Fields → Result OpenEventConfig
parse_openevent raw = do
  reject_removed_fields raw ("rpc_timeout_seconds" ∷ [])
  target ← config_str (get "target" raw)
  ok (record { target = target })

unfoldable pub parse_retry : Fields → Result RetryConfig
parse_retry raw = do
  reject_removed_fields raw (
      "provider_send_max_attempts" ∷ "provider_send_retry_delay_ms" ∷ "publish_initial_backoff_ms"
      ∷ "publish_max_backoff_ms" ∷ [])
  publish_max_attempts ← positive_int (get_default "publish_max_attempts" (natural 5) raw)
  publish_retry_delay_ms ← non_negative_int (get_default "publish_retry_delay_ms" (natural 200) raw)
  idle_sleep_ms ← non_negative_int (get_default "idle_sleep_ms" (natural 200) raw)
  ok (record {
    publish_max_attempts = publish_max_attempts;
    publish_retry_delay_ms = publish_retry_delay_ms;
    idle_sleep_ms = idle_sleep_ms;
  })

unfoldable pub parse_sync : Fields → Result ProviderSyncConfig
parse_sync raw = do
  reject_removed_fields raw
      ("mode" ∷ "interval_ms" ∷ "startup_lookback_ms" ∷ "history_interval_ms" ∷ [])
  history_retry_delay_ms ←
      non_negative_int (get_default "history_retry_delay_ms" (natural 1000) raw)
  history_overlap_ms ← non_negative_int (get_default "history_overlap_ms" (natural 300000) raw)
  history_lookback_ms ← positive_int (get_default "history_lookback_ms" (natural 300000) raw)
  page_size ← positive_int (get_default "page_size" (natural 50) raw)
  event_queue_size ← positive_int (get_default "event_queue_size" (natural 1000) raw)
  ok (record {
    history_retry_delay_ms = history_retry_delay_ms;
    history_overlap_ms = history_overlap_ms;
    history_lookback_ms = history_lookback_ms;
    page_size = page_size;
    event_queue_size = event_queue_size;
  })

-- `if name in options: check(options[name])`
unfoldable pub checked_option :
    {A : Type 0} → String → (Json → Result A) → Fields → Result (Unit {0})
checked_option name check options = elim (find name options) [
  | none ↦ ok tt
  | some value ↦ check value >> ok tt
]

-- The checks of credentials and options.
unfoldable pub check_credentials : Fields → Result (Unit {0})
check_credentials credentials = do
  config_str (get "app_id" credentials)
  config_str (get "app_secret" credentials)
  ok tt

unfoldable pub check_options : Fields → Result (Unit {0})
check_options options = do
  checked_option "api_base_url" config_str options
  checked_option "timeout_seconds" positive_number options
  checked_option "event_connect_timeout_seconds" positive_number options
  checked_option "event_reconnect_timeout_seconds" positive_number options

-- The rest of a round of `_parse_providers`, from the provider's sync settings on.
unfoldable pub parse_settings : String → Fields → Result ProviderConfig
parse_settings name item = do
  sync_raw ← config_obj (get "sync" item)
  sync ← parse_sync sync_raw
  credentials ← config_obj (get "credentials" item)
  if ltb 50 sync.page_size then raise invalid_config else do
    check_credentials credentials
    options ← config_obj (get_default "options" (obj end) item)
    check_options options
    ok (record { name = name; sync = sync; credentials = credentials; options = options })
