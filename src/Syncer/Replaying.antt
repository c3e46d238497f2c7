-- ===== src/Syncer/Replaying.antt =====
-- A live send.request, against the same message of the history.
use openevent_modules_im.Prelude.{
  ℕ, ◌≡◌, ◌≢◌, ◌↔◌, inl, inr, refl, sym, ap, subst₂, String, true, false, ◌==◌, string_eq,
  Bool-cases, arith, Result, ok, raise, Error,
}
use openevent_modules_im.Prelude.Actions.{Action, try_except, ◌>>=◌, ◌>>◌}
use openevent_modules_im.Json.{Json}
use openevent_modules_im.Models.{SyncerConfig}
use openevent_modules_im.Sdk.Model.{ParsedMessage}
use openevent_modules_im.Mapping.Index.{
  Session, build, owns_channel, provider_session, entries_for_channel,
}
use openevent_modules_im.Mapping.Pairs.{build-IsP2P}
use openevent_modules_im.State.Model.{RuntimeState}
use openevent_modules_im.State.Requests.{add_send_request}
use openevent_modules_im.Processor.Model.{ProcessorState}
use openevent_modules_im.Syncer.Messages.{
  conflict_is_fatal, entries_of, change_state, validate_message_roles, replay, process_history,
  process_live,
}

try-ok :
    {S A : Type 0} (m : Action S A) (handler : Error → Action S A) (s t : S) (a : A)
    → m s ≡ (ok a, t)
    → try_except m handler s ≡ (ok a, t)
try-ok {S} {A} m handler s t a h =
    ap
      (λ (r : Result A × S). elim r.0 as (λ x. Result A × S) [
        | ok b ↦ (ok b, r.1)
        | raise e ↦ handler e r.1
      ])
      h

request_ne_record : ◌≢◌ {A = String} "send.request" "sync.record"
request_ne_record e = cc

request_ne_result : ◌≢◌ {A = String} "send.request" "send.result"
request_ne_result e = cc

-- Both leave the same processor, and both return or neither.
abbrev pub Same :
    {W : Type 0}
    → Result (Unit {0}) × ProcessorState W
    → Result (Unit {0}) × ProcessorState W
    → Type 0
Same r r' = (r.1 ≡ r'.1) × ((r.0 ≡ ok tt) ↔ (r'.0 ≡ ok tt))

module _ {W : Type 0} (p : ProcessorState W) where
  changed-Same :
      (f : RuntimeState → Result RuntimeState)
      → Same (try_except (change_state f) conflict_is_fatal p) (change_state f p)
  unfolding change_state conflict_is_fatal
  changed-Same f = by_result (f p.state)
    where
      by_result :
          (r : Result RuntimeState)
          → Same
              (try_except
                (λ (q : ProcessorState W). elim r as (λ x. Result (Unit {0}) × ProcessorState W) [
                  | ok state ↦ (ok tt, record q { state = state })
                  | raise e ↦ (raise e, q)
                ])
                conflict_is_fatal
                p)
              (elim r as (λ x. Result (Unit {0}) × ProcessorState W) [
                | ok state ↦ (ok tt, record p { state = state })
                | raise e ↦ (raise e, p)
              ])
      by_result (ok s) = (refl, (λ h. h, λ h. h))
      by_result (raise e) = (refl, (λ h. cc, λ h. cc))

  foreign_Same :
      {Bytes : Type 0} (loads : Bytes → Result Json) (worker_principal : ℕ) (parsed : ParsedMessage)
      → owns_channel p.mapping parsed.channel_id ≡ false
      → Same
          (process_live loads worker_principal parsed p)
          (process_history loads worker_principal parsed p)
  unfolding process_live process_history
  foreign_Same loads worker_principal parsed foreign = rw foreign (refl, (λ h. h, λ h. h))

  module _ (parsed : ParsedMessage) (is_request : parsed.kind ≡ "send.request") where
    no_record : (parsed.kind == "sync.record") ≡ false
    no_record = ground (arith, request_ne_record)

    no_result : (parsed.kind == "send.result") ≡ false
    no_result = ground (arith, request_ne_result)

    request : (parsed.kind == "send.request") ≡ true
    request = ground arith

    roles_lem :
        (worker_principal : ℕ)
        → (entries_for_channel p.mapping parsed.channel_id).1 ≡ p.mapping
        → validate_message_roles worker_principal parsed p ≡ (ok tt, p)
    unfolding validate_message_roles entries_of
    roles_lem worker_principal same = rw (no_record, no_result, same) refl

    module _ {Bytes : Type 0} (loads : Bytes → Result Json) (worker_principal : ℕ)
        (owned : owns_channel p.mapping parsed.channel_id ≡ true)
        (same : (entries_for_channel p.mapping parsed.channel_id).1 ≡ p.mapping) where
      live_lem :
          process_live loads worker_principal parsed p
          ≡ try_except (change_state (λ s. add_send_request s parsed)) conflict_is_fatal p
      unfolding process_live
      live_lem =
          rw
            (
              owned,
              ◌>>◌,
              ◌>>=◌,
              try-ok (validate_message_roles worker_principal parsed) conflict_is_fatal p p tt
                  (roles_lem worker_principal same),
              request,
            )
            refl

      history_lem :
          (session : Session)
          → provider_session p.mapping parsed.channel_id ≡ ok session
          → process_history loads worker_principal parsed p
            ≡ change_state (λ s. add_send_request s parsed) p
      unfolding process_history replay
      history_lem session known =
          rw (owned, ◌>>◌, ◌>>=◌, roles_lem worker_principal same, known, request) refl

  -- Over a mapping that `_build` accepts, a parsed send.request does the same to the processor whether
  -- it comes from the history or live, and it is accepted in both cases or in none.
  pub process_live-process_history :
      {Bytes : Type 0} (loads : Bytes → Result Json) (worker_principal : ℕ) (config : SyncerConfig)
      (parsed : ParsedMessage)
      → build config ≡ ok p.mapping
      → parsed.kind ≡ "send.request"
      → Same
          (process_live loads worker_principal parsed p)
          (process_history loads worker_principal parsed p)
  process_live-process_history loads worker_principal config parsed built is_request =
      elim (Bool-cases (owns_channel p.mapping parsed.channel_id)) [
        | inr foreign ↦ foreign_Same loads worker_principal parsed foreign
        | inl owned ↦
            let (session, known, _, same) = build-IsP2P config parsed.channel_id built owned in
            subst₂ Same (sym (live_lem parsed is_request loads worker_principal owned same))
              (sym (history_lem parsed is_request loads worker_principal owned same session known))
              (changed-Same (λ s. add_send_request s parsed))
      ]
