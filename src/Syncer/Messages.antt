-- ===== src/Syncer/Messages.antt =====
-- What `P2PSyncer` does with a message of the history and with a live one. An action is on the state
-- of the processor, which holds the mapping and the `RuntimeState`.
use openevent_modules_im.Prelude.{
  ℕ, String, Bool, true, false, List, map, ◌==◌, ◌&&◌, not, contains, string_eq, nat_eq, list_eq,
  if◌then◌else◌, Result, ok, raise, Error, error, caused_by, Class, fatal_syncer, runtime_error,
  state_conflict, error_class,
}
use openevent_modules_im.Prelude.Actions.{
  Action, pure, throw, of_result, try_except, get_state, ◌>>=◌, ◌>>◌,
}
use openevent_modules_im.Json.{Json}
use openevent_modules_im.Models.{MappingEntry}
use openevent_modules_im.OpenEvent.{Message}
use openevent_modules_im.Sdk.Model.{ParsedMessage}
use openevent_modules_im.Client.Parse.{parse_message}
use openevent_modules_im.Mapping.Index.{
  entries_for_channel, peer_principals, owns_channel, provider_session,
}
use openevent_modules_im.Processor.Model.{ProcessorState}
use openevent_modules_im.State.Model.{RuntimeState}
use openevent_modules_im.State.Requests.{add_send_request}
use openevent_modules_im.State.Results.{add_send_result, add_sync_record}

abbrev pub conflict : Error
conflict = error state_conflict

unfoldable pub is_class_conflict : Class → Bool
is_class_conflict state_conflict = true
is_class_conflict c = false

-- `except StateConflictError as exc: raise FatalSyncerError(...) from exc`
unfoldable pub conflict_is_fatal {ℓ} : {S : Type ℓ} {A : Type 0} → Error → S → Result A × S
conflict_is_fatal e s =
    (raise (if is_class_conflict (error_class e) then caused_by fatal_syncer e else e), s)

module _ {W : Type 0} where
  -- The lookups of the mapping, which can add an empty entry to its `defaultdict`.
  unfoldable pub entries_of : ℕ → Action (ProcessorState W) (List MappingEntry)
  entries_of channel_id p =
      let (entries, mapping) = entries_for_channel p.mapping channel_id in
      (ok entries, record p { mapping = mapping })

  unfoldable pub peers_of : ℕ → ℕ → Action (ProcessorState W) (List ℕ)
  peers_of channel_id principal p =
      let (peers, mapping) = peer_principals p.mapping channel_id principal in
      (ok peers, record p { mapping = mapping })

  -- A call of the `RuntimeState` that changes nothing where it raises.
  unfoldable pub change_state :
      (RuntimeState → Result RuntimeState) → Action (ProcessorState W) (Unit {0})
  change_state f p = elim (f p.state) [
    | ok state ↦ (ok tt, record p { state = state })
    | raise e ↦ (raise e, p)
  ]

  -- The roles of a sync.record, with the entries of its channel.
  unfoldable pub validate_sync_record :
      List MappingEntry → ParsedMessage → Action (ProcessorState W) (Unit {0})
  validate_sync_record entries parsed =
      if not (contains (map (λ item. item.principal) entries) parsed.principal)
      then throw conflict
      else do
        expected_recipients ← peers_of parsed.channel_id parsed.principal
        if parsed.recipients == expected_recipients then pure tt else throw conflict

  -- `_validate_message_roles`, with the principal of the worker.
  unfoldable pub validate_message_roles : ℕ → ParsedMessage → Action (ProcessorState W) (Unit {0})
  validate_message_roles worker_principal parsed = do
    entries ← entries_of parsed.channel_id
    if parsed.kind == "sync.record"
        then validate_sync_record entries parsed
        else if parsed.kind == "send.result" && not (parsed.principal == worker_principal)
        then throw conflict
        else pure tt

  -- The end of `_process_history_message`, for a message of the provider's session.
  unfoldable pub replay : ParsedMessage → String → String → Action (ProcessorState W) (Unit {0})
  replay parsed provider session_id =
      if parsed.kind == "send.request"
      then change_state (λ s. add_send_request s parsed)
      else if parsed.kind == "send.result"
      then change_state (λ s. add_send_result s parsed provider session_id)
      else if parsed.kind == "sync.record"
      then change_state (λ s. add_sync_record s parsed provider session_id)
      else pure tt

  module _ {Bytes : Type 0} (loads : Bytes → Result Json) (worker_principal : ℕ) where
    -- `_process_history_message` from the parsed message on.
    unfoldable pub process_history : ParsedMessage → Action (ProcessorState W) (Unit {0})
    process_history parsed = do
      p ← get_state
      if not (owns_channel p.mapping parsed.channel_id) then pure tt else do
        validate_message_roles worker_principal parsed
        p ← get_state
        (provider, session_id) ← of_result (provider_session p.mapping parsed.channel_id)
        replay parsed provider session_id

    unfoldable pub process_history_message : Message Bytes → Action (ProcessorState W) (Unit {0})
    process_history_message message = do
      parsed ←
          try_except (of_result (parse_message loads message))
            (λ e. throw (caused_by runtime_error e))
      process_history parsed

    -- `_process_live_message` from the parsed message on.
    unfoldable pub process_live : ParsedMessage → Action (ProcessorState W) (Unit {0})
    process_live parsed = do
      p ← get_state
      if not (owns_channel p.mapping parsed.channel_id) then pure tt else do
        try_except (validate_message_roles worker_principal parsed) conflict_is_fatal
        if not (parsed.kind == "send.request")
            then pure tt
            else try_except (change_state (λ s. add_send_request s parsed)) conflict_is_fatal

    unfoldable pub process_live_message : Message Bytes → Action (ProcessorState W) (Unit {0})
    process_live_message message = do
      parsed ←
          try_except (of_result (parse_message loads message))
            (λ e. throw (caused_by fatal_syncer e))
      process_live parsed
