-- ===== src/Client/Publish.antt =====
-- The publishing methods of `ImProtocolClient`. The `while` loop of `_reconcile_uncertain_publish` is
-- given a number of pages that is enough for it, because a page that does not advance is an error.
use openevent_modules_im.Prelude.{
  ℕ, zero, suc, ◌-◌, String, Bool, true, false, ◌&&◌, not, Option, none, some, List, [], ◌∷◌, map,
  ◌==◌, if◌then◌else◌, ltb, leb, nat_eq, list_eq, Eq, Result, Error, error, caused_by,
  runtime_error, publish_failed, StatusCode, unauthenticated, permission_denied, not_found,
  invalid_argument, resource_exhausted, class_code, error_class,
}
use openevent_modules_im.Prelude.Actions.{Action, pure, throw, of_result, try_except, ◌>>=◌, ◌>>◌}
use openevent_modules_im.Json.{Json, int, pos, Fields}
use openevent_modules_im.OpenEvent.{Message, FetchResponse, OpenEventClient}
use openevent_modules_im.Sdk.Model.{SendRequestInput, SendResultInput, SyncRecordInput}
use openevent_modules_im.Sdk.Normalizer.{require_uint64, normalize_recipients}
use openevent_modules_im.Sdk.Codec.{encode_send_request, encode_send_result, encode_sync_record}

-- `require_uint64` on a number that is not negative.
unfoldable pub uint64 : ℕ → Bool → Result ℕ
uint64 n positive = require_uint64 (int (pos n)) positive

-- The keyword arguments of `_publish`.
pub record Outgoing (Bytes : Type 0) : Type 0 where
  pub principal : ℕ
  pub token : String
  pub channel_id : ℕ
  pub payload : Bytes
  pub recipients : List ℕ

-- `_rpc_status_code`, where no code is no `RpcError`, or one whose `code()` raises.
unfoldable pub own_status_code : Error → Option StatusCode
own_status_code e = elim (class_code (error_class e)) [ none ↦ none | some code ↦ code ]

-- `status_code in _GUARANTEED_NOT_COMMITTED`
unfoldable pub is_never_committed : Option StatusCode → Bool
is_never_committed (some unauthenticated) = true
is_never_committed (some permission_denied) = true
is_never_committed (some not_found) = true
is_never_committed (some invalid_argument) = true
is_never_committed (some resource_exhausted) = true
is_never_committed code = false

-- `raise PublishFailedError(...) from e`, with its two flags.
abbrev pub failed_from : Bool → Bool → Error → Error
failed_from retry_safe outcome_unknown e = caused_by (publish_failed retry_safe outcome_unknown) e

abbrev pub number : ℕ → Json
number n = int (pos n)

module _ {Bytes : Type 0} ⦃eq : Eq Bytes⦄ (out : Outgoing Bytes) where
  unfoldable pub matches_publish : Message Bytes → Bool
  matches_publish message =
      message.principal == out.principal
      && message.channel_id == out.channel_id
      && message.recipients == out.recipients
      && message.payload == out.payload

  -- The loop over a page: the `seq` of the first message up to `max_seq` that matches.
  unfoldable pub find_publish : ℕ → List (Message Bytes) → Option ℕ
  find_publish max_seq [] = none
  find_publish max_seq (message ∷ messages) =
      if not (ltb max_seq message.seq) && matches_publish message
      then some message.seq
      else find_publish max_seq messages

  module _ {W : Type 0} (openevent : OpenEventClient W Bytes) where
    unfoldable pub get_pre_publish_max_seq : Action W ℕ
    get_pre_publish_max_seq =
        try_except
          (do
            max_seq ← openevent.get_status out.principal out.token
            of_result (uint64 max_seq false))
          (λ e. throw (failed_from true false e))

    -- What follows a page: the message, or the rest of the loop.
    unfoldable pub after_page :
        ℕ → ℕ → (ℕ → Action W (Option ℕ)) → FetchResponse Bytes → Action W (Option ℕ)
    after_page max_seq from_seq rest response = elim (find_publish max_seq response.messages) [
      | some seq ↦ do seq' ← of_result (uint64 seq true); pure (some seq')
      | none ↦ do
        next_seq ← of_result (uint64 response.next_seq true)
        if leb next_seq from_seq then throw (error runtime_error) else rest next_seq
    ]

    -- A round of the loop from `from_seq` on, with what follows it.
    unfoldable pub scan_page : ℕ → (ℕ → Action W (Option ℕ)) → ℕ → Action W (Option ℕ)
    scan_page max_seq rest from_seq = if ltb max_seq from_seq then pure none else do
      response ← openevent.fetch out.principal out.token from_seq 1000 false (out.channel_id ∷ [])
      after_page max_seq from_seq rest response

    -- The loop, with the number of pages that are left.
    unfoldable pub scan_pages : ℕ → ℕ → ℕ → Action W (Option ℕ)
    scan_pages max_seq zero from_seq = pure none
    scan_pages max_seq (suc left) from_seq =
        scan_page max_seq (λ next_seq. scan_pages max_seq left next_seq) from_seq

    unfoldable pub scan : ℕ → ℕ → Action W (Option ℕ)
    scan max_seq from_seq = scan_pages max_seq (suc max_seq - from_seq) from_seq

    -- The `try` of `_reconcile_uncertain_publish`.
    unfoldable pub find_committed : ℕ → Action W (Option ℕ)
    find_committed pre_publish_max_seq = do
      max_seq ← openevent.get_status out.principal out.token
      reconcile_max_seq ← of_result (uint64 max_seq false)
      if ltb reconcile_max_seq pre_publish_max_seq
          then throw (error runtime_error)
          else scan reconcile_max_seq (suc pre_publish_max_seq)

    unfoldable pub reconcile_uncertain_publish : ℕ → Error → Action W ℕ
    reconcile_uncertain_publish pre_publish_max_seq publish_error = do
      found ←
          try_except (find_committed pre_publish_max_seq)
            (λ e. throw (failed_from false true publish_error))
      elim found [ some seq ↦ pure seq | none ↦ throw (failed_from true false publish_error) ]

    -- The `try` of `_publish`.
    unfoldable pub publish_once : Action W ℕ
    publish_once = do
      response ←
          openevent.publish_auto_seq out.principal out.token out.channel_id out.payload
            out.recipients
      elim response [ none ↦ throw (error runtime_error) | some seq ↦ of_result (uint64 seq true) ]

    -- The `except` of `_publish`.
    unfoldable pub publish_error : ℕ → Error → Action W ℕ
    publish_error pre_publish_max_seq e =
        if is_never_committed (own_status_code e)
        then throw (failed_from false false e)
        else reconcile_uncertain_publish pre_publish_max_seq e

    unfoldable pub publish : Action W ℕ
    publish = do
      of_result (uint64 out.principal true)
      of_result (uint64 out.channel_id true)
      pre_publish_max_seq ← get_pre_publish_max_seq
      try_except publish_once (publish_error pre_publish_max_seq)

module _ {W Bytes : Type 0} ⦃eq : Eq Bytes⦄ (openevent : OpenEventClient W Bytes)
    (dumps : Fields → Bytes) where
  -- The three methods, which differ in what they encode and in what they do to the recipients.
  unfoldable pub publish_encoded : ℕ → String → ℕ → Result Bytes → Result (List ℕ) → Action W ℕ
  publish_encoded principal token channel_id encoded normalized = do
    payload ← of_result encoded
    recipients ← of_result normalized
    publish
        (record {
          principal = principal;
          token = token;
          channel_id = channel_id;
          payload = payload;
          recipients = recipients;
        })
        openevent

  unfoldable pub publish_send_request :
      ℕ → String → ℕ → SendRequestInput → Option (List ℕ) → Action W ℕ
  publish_send_request principal token channel_id req recipients =
      publish_encoded principal token channel_id (encode_send_request dumps req) (
        normalize_recipients (elim recipients [ none ↦ none | some l ↦ some (map number l) ]) false)

  unfoldable pub publish_send_result : ℕ → String → ℕ → List ℕ → SendResultInput → Action W ℕ
  publish_send_result principal token channel_id recipients req =
      publish_encoded principal token channel_id (encode_send_result dumps req)
        (normalize_recipients (some (map number recipients)) false)

  unfoldable pub publish_sync_record : ℕ → String → ℕ → List ℕ → SyncRecordInput → Action W ℕ
  publish_sync_record principal token channel_id recipients req =
      publish_encoded principal token channel_id (encode_sync_record dumps req)
        (normalize_recipients (some (map number recipients)) true)
