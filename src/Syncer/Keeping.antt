-- ===== src/Syncer/Keeping.antt =====
-- The calls that the syncer makes of the `RuntimeState`.
use openevent_modules_im.Prelude.{
  ℕ, ◌≡◌, refl, String, ◌&&◌, not, List, map, ◌==◌, contains, string_eq, nat_eq, list_eq, Result,
  ok, raise, Error, caused_by, fatal_syncer, runtime_error,
}
use openevent_modules_im.Prelude.Actions.{Action, throw, of_result, try_except, ◌>>=◌}
use openevent_modules_im.Prelude.Keeping.{Keeps, result-Keeps, bind-Keeps, try-Keeps, if-Keeps}
use openevent_modules_im.Json.{Json}
use openevent_modules_im.Models.{MappingEntry}
use openevent_modules_im.OpenEvent.{Message}
use openevent_modules_im.Sdk.Model.{ParsedMessage}
use openevent_modules_im.Client.Parse.{parse_message}
use openevent_modules_im.Mapping.Index.{owns_channel, provider_session}
use openevent_modules_im.State.Model.{RuntimeState}
use openevent_modules_im.State.Closing.{Step, request, result, synced, Reach, next}
use openevent_modules_im.Processor.Model.{ProcessorState}
use openevent_modules_im.Processor.Keeping.{HasReached}
use openevent_modules_im.Syncer.Messages.{
  conflict, conflict_is_fatal, entries_of, peers_of, change_state, validate_sync_record,
  validate_message_roles, replay, process_history, process_history_message, process_live,
  process_live_message,
}
use openevent_modules_im.Syncer.Startup.{within}

-- The same of the processor alone.
abbrev pub IsReached : {W : Type 0} → ProcessorState W → Type 0
IsReached p = Reach p.state

module _ {W : Type 0} where
  conflict_is_fatal-Keeps :
      {A : Type 0} (e : Error) → Keeps (IsReached {W = W}) (conflict_is_fatal {A = A} e)
  unfolding conflict_is_fatal
  conflict_is_fatal-Keeps e = record { kept = λ s r. r }

  pub entries_of-Keeps : (c : ℕ) → Keeps (IsReached {W = W}) (entries_of c)
  unfolding entries_of
  entries_of-Keeps c = record { kept = λ s r. r }

  peers_of-Keeps : (c principal : ℕ) → Keeps (IsReached {W = W}) (peers_of c principal)
  unfolding peers_of
  peers_of-Keeps c principal = record { kept = λ s r. r }

  changed-Reach :
      (p : ProcessorState W) (f : Result RuntimeState)
      → Reach p.state
      → ((s : RuntimeState) → f ≡ ok s → Step p.state s)
      → Reach
          (elim f as (λ x. Result (Unit {0}) × ProcessorState W) [
            | ok s ↦ (ok tt, record p { state = s })
            | raise e ↦ (raise e, p)
          ]).1.state
  changed-Reach p (ok s) r step = next r (step s refl)
  changed-Reach p (raise e) r step = r

  change_state-Keeps :
      (f : RuntimeState → Result RuntimeState)
      → ((s s' : RuntimeState) → f s ≡ ok s' → Step s s')
      → Keeps (IsReached {W = W}) (change_state f)
  unfolding change_state
  change_state-Keeps f step = record {
    kept = λ p r. changed-Reach p (f p.state) r (λ s h. step p.state s h);
  }

  validate_sync_record-Keeps :
      (entries : List MappingEntry) (parsed : ParsedMessage)
      → Keeps (IsReached {W = W}) (validate_sync_record entries parsed)
  unfolding validate_sync_record
  validate_sync_record-Keeps entries parsed =
      if-Keeps IsReached (not (contains (map (λ item. item.principal) entries) parsed.principal)) _
        _ (result-Keeps IsReached (raise conflict))
        (bind-Keeps IsReached _ _ (peers_of-Keeps parsed.channel_id parsed.principal) λ expected.
          if-Keeps IsReached (parsed.recipients == expected) _ _ (result-Keeps IsReached (ok tt))
            (result-Keeps IsReached (raise conflict)))

  validate_message_roles-Keeps :
      (worker_principal : ℕ) (parsed : ParsedMessage)
      → Keeps (IsReached {W = W}) (validate_message_roles worker_principal parsed)
  unfolding validate_message_roles
  validate_message_roles-Keeps worker_principal parsed =
      bind-Keeps IsReached _ _ (entries_of-Keeps parsed.channel_id) λ entries.
        if-Keeps IsReached (parsed.kind == "sync.record") _ _
          (validate_sync_record-Keeps entries parsed)
          (if-Keeps IsReached
            (parsed.kind == "send.result" && not (parsed.principal == worker_principal)) _ _
            (result-Keeps IsReached (raise conflict)) (result-Keeps IsReached (ok tt)))

  replay-Keeps :
      (parsed : ParsedMessage) (provider session_id : String)
      → Keeps (IsReached {W = W}) (replay parsed provider session_id)
  unfolding replay
  replay-Keeps parsed provider session_id =
      if-Keeps IsReached (parsed.kind == "send.request") _ _
        (change_state-Keeps _ (λ s s' h. request parsed h))
        (if-Keeps IsReached (parsed.kind == "send.result") _ _
          (change_state-Keeps _ (λ s s' h. result parsed provider session_id h))
          (if-Keeps IsReached (parsed.kind == "sync.record") _ _
            (change_state-Keeps _ (λ s s' h. synced parsed provider session_id h))
            (result-Keeps IsReached (ok tt))))

  module _ {Bytes : Type 0} (loads : Bytes → Result Json) (worker_principal : ℕ) where
    replayed-Keeps :
        (parsed : ParsedMessage) (r : Result (String × String))
        → Keeps (IsReached {W = W}) (of_result r >>= λ session. replay parsed session.0 session.1)
    replayed-Keeps parsed r =
        bind-Keeps IsReached (of_result r) _ (result-Keeps IsReached r)
          λ session. replay-Keeps parsed session.0 session.1

    process_history-Keeps :
        (parsed : ParsedMessage)
        → Keeps (IsReached {W = W}) (process_history loads worker_principal parsed)
    unfolding process_history
    process_history-Keeps parsed = record {
      kept = λ p r.
          (if-Keeps IsReached (not (owns_channel p.mapping parsed.channel_id)) _ _
              (result-Keeps IsReached (ok tt))
              (bind-Keeps IsReached _ _ (validate_message_roles-Keeps worker_principal parsed) λ x.
                record {
                  kept = λ p r.
                      (replayed-Keeps parsed (provider_session p.mapping parsed.channel_id)).kept p
                        r;
                })).kept
            p r;
    }

    parsed-Keeps :
        (c : Error → Error) (r : Result ParsedMessage)
        → Keeps (IsReached {W = W}) (try_except (of_result r) (λ e. throw (c e)))
    parsed-Keeps c r =
        try-Keeps IsReached (of_result r) _ (result-Keeps IsReached r)
          λ e. result-Keeps IsReached (raise (c e))

    pub process_history_message-Keeps :
        (message : Message Bytes)
        → Keeps (IsReached {W = W}) (process_history_message loads worker_principal message)
    unfolding process_history_message
    process_history_message-Keeps message =
        bind-Keeps IsReached _ _
          (parsed-Keeps (λ e. caused_by runtime_error e) (parse_message loads message))
          process_history-Keeps

    process_live-Keeps :
        (parsed : ParsedMessage)
        → Keeps (IsReached {W = W}) (process_live loads worker_principal parsed)
    unfolding process_live
    process_live-Keeps parsed = record {
      kept = λ p r.
          (if-Keeps IsReached (not (owns_channel p.mapping parsed.channel_id)) _ _
              (result-Keeps IsReached (ok tt))
              (bind-Keeps IsReached _ _
                (try-Keeps IsReached _ _ (validate_message_roles-Keeps worker_principal parsed)
                  conflict_is_fatal-Keeps)
                λ x.
                  if-Keeps IsReached (not (parsed.kind == "send.request")) _ _
                    (result-Keeps IsReached (ok tt))
                    (try-Keeps IsReached _ _ (change_state-Keeps _ (λ s s' h. request parsed h))
                      conflict_is_fatal-Keeps))).kept
            p r;
    }

    pub process_live_message-Keeps :
        (message : Message Bytes)
        → Keeps (IsReached {W = W}) (process_live_message loads worker_principal message)
    unfolding process_live_message
    process_live_message-Keeps message =
        bind-Keeps IsReached _ _
          (parsed-Keeps (λ e. caused_by fatal_syncer e) (parse_message loads message))
          process_live-Keeps

  pub within-Keeps :
      {A : Type 0} (m : Action (ProcessorState W) A)
      → Keeps IsReached m
      → Keeps HasReached (within m)
  within-Keeps m k = record { kept = λ (p, w) r. k.kept p r }
