-- ===== src/Config/Valid.antt =====
-- What makes a configuration valid, and that the sections without a loop are.
use openevent_modules_im.Prelude.{
  ℕ, ◌≤◌, ◌≡◌, ◌≢◌, ◌⊎◌, refl, String, Option, none, some, string_eq, nat_eq, ltb, All, Dict,
  lookup, length, arith, Result, ok, ◌>>◌,
}
use openevent_modules_im.Json.{Json, str, Fields, get, find}
use openevent_modules_im.Models.{
  WorkerConfig, ProviderSyncConfig, ProviderConfig, MappingEntry, SyncerConfig,
}
use openevent_modules_im.Config.Sections.{
  parse_worker, parse_openevent, parse_retry, parse_sync, checked_option, check_credentials,
  check_options, parse_settings,
}
use openevent_modules_im.Prelude.Ensuring.{accepted, ensure}
use openevent_modules_im.Config.Checks.{
  Ensures, unless, IsText, IsPrincipal, config_obj-Ensures, config_str-Ensures,
  positive_uint64-Ensures, positive_int-Ensures, non_negative_int-Ensures,
  reject_removed_fields-Ensures, positive_number-Ensures,
}

abbrev pub IsValidWorker : WorkerConfig → Type 0
IsValidWorker w = IsPrincipal w.principal × IsText w.token

abbrev pub IsValidSync : ProviderSyncConfig → Type 0
IsValidSync s =
    (1 ≤ s.history_lookback_ms) × (1 ≤ s.page_size) × (s.page_size ≤ 50) × (1 ≤ s.event_queue_size)

-- A provider under its name.
abbrev pub IsValidProvider : String × ProviderConfig → Type 0
IsValidProvider (name, p) =
    ((name ≡ "feishu") ⊎ (name ≡ "lark")) × (p.name ≡ name) × IsValidSync p.sync

-- A token of a principal that is not the worker.
abbrev pub IsValidToken : ℕ → ℕ × String → Type 0
IsValidToken worker_principal (principal, token) =
    IsPrincipal principal × (principal ≢ worker_principal) × IsText token

abbrev pub IsValidMapping : MappingEntry → Type 0
IsValidMapping m =
    IsText m.provider
    × ((m.identity_type ≡ "user") ⊎ (m.identity_type ≡ "bot"))
    × IsText m.external_user_id
    × IsPrincipal m.principal
    × IsText m.session_id
    × IsPrincipal m.channel_id

-- The provider of the mapping is configured, and a bot goes by the id of its app.
abbrev pub RefersTo : Dict String ProviderConfig → MappingEntry → Type 0
RefersTo providers m =
    (p : ProviderConfig) × (lookup m.provider providers ≡ some p)
    × (m.identity_type ≡ "bot" → get "app_id" p.credentials ≡ str m.external_user_id)

pub record Valid (c : SyncerConfig) : Type 0 where
  pub version_1 : c.version ≡ "v1"
  pub worker : IsValidWorker c.worker
  pub target : IsText c.openevent.target
  pub attempts : 1 ≤ c.retry.publish_max_attempts
  pub some_token : 1 ≤ length c.principal_tokens
  pub tokens : All (IsValidToken c.worker.principal) c.principal_tokens
  pub one_provider : length c.providers ≡ 1
  pub providers : All IsValidProvider c.providers
  pub some_mapping : 1 ≤ length c.mappings
  pub mappings : All IsValidMapping c.mappings
  pub references : All (RefersTo c.providers) c.mappings

pub parse_worker-Ensures : (f : Fields) → Ensures IsValidWorker (parse_worker f)
unfolding parse_worker
parse_worker-Ensures f = ensure (positive_uint64-Ensures _) λ principal valid.
    ensure (config_str-Ensures _)
      λ token text. ensure (non_negative_int-Ensures _) λ timeout t. accepted (valid, text)

pub parse_openevent-Ensures : (f : Fields) → Ensures (λ c. IsText c.target) (parse_openevent f)
unfolding parse_openevent
parse_openevent-Ensures f =
    ensure (reject_removed_fields-Ensures f _)
      λ u t. ensure (config_str-Ensures _) λ target text. accepted text

pub parse_retry-Ensures : (f : Fields) → Ensures (λ c. 1 ≤ c.publish_max_attempts) (parse_retry f)
unfolding parse_retry
parse_retry-Ensures f = ensure (reject_removed_fields-Ensures f _) λ u t.
    ensure (positive_int-Ensures _) λ attempts positive.
      ensure (non_negative_int-Ensures _)
        λ delay t'. ensure (non_negative_int-Ensures _) λ sleep t''. accepted positive

parse_sync-Ensures :
    (f : Fields)
    → Ensures
        (λ s. (1 ≤ s.history_lookback_ms) × (1 ≤ s.page_size) × (1 ≤ s.event_queue_size))
        (parse_sync f)
unfolding parse_sync
parse_sync-Ensures f = ensure (reject_removed_fields-Ensures f _) λ u t.
    ensure (non_negative_int-Ensures _) λ delay t'.
      ensure (non_negative_int-Ensures _) λ overlap t''.
        ensure (positive_int-Ensures _) λ lookback p.
          ensure (positive_int-Ensures _)
            λ size p'. ensure (positive_int-Ensures _) λ queue p''. accepted (p, p', p'')

checked_option-Ensures :
    {A : Type 0} {P : A → Type 0} (name : String) (check : Json → Result A) (f : Fields)
    → ((v : Json) → Ensures P (check v))
    → Ensures (λ u. Unit) (checked_option name check f)
unfolding checked_option
checked_option-Ensures name check f h = by_value (find name f)
  where
    by_value :
        (o : Option Json)
        → Ensures
            (λ u. Unit)
            (elim o as (λ x. Result Unit) [ none ↦ ok tt | some v ↦ check v >> ok tt ])
    by_value none = accepted tt
    by_value (some v) = ensure (h v) λ a p. accepted tt

check_credentials-Ensures : (f : Fields) → Ensures (λ u. Unit) (check_credentials f)
unfolding check_credentials
check_credentials-Ensures f =
    ensure (config_str-Ensures _) λ id t. ensure (config_str-Ensures _) λ secret t'. accepted tt

check_options-Ensures : (f : Fields) → Ensures (λ u. Unit) (check_options f)
unfolding check_options
check_options-Ensures f = ensure (checked_option-Ensures _ _ f config_str-Ensures) λ u t.
    ensure (checked_option-Ensures _ _ f positive_number-Ensures) λ u' t'.
      ensure (checked_option-Ensures _ _ f positive_number-Ensures)
        λ u'' t''. checked_option-Ensures _ _ f positive_number-Ensures

pub parse_settings-Ensures :
    (name : String) (f : Fields)
    → Ensures (λ p. (p.name ≡ name) × IsValidSync p.sync) (parse_settings name f)
unfolding parse_settings
parse_settings-Ensures name f = ensure (config_obj-Ensures _) λ raw t.
    ensure (parse_sync-Ensures raw) λ sync (lookback, size, queue).
      ensure (config_obj-Ensures _) λ credentials t'. unless (ltb 50 sync.page_size) λ small.
        ensure (check_credentials-Ensures credentials) λ u t''.
          ensure (config_obj-Ensures _) λ options t3.
            ensure (check_options-Ensures options)
              λ u' t4. accepted (refl, (lookback, size, ground arith, queue))
