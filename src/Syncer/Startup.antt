-- ===== src/Syncer/Startup.antt =====
-- `_validate_channels`, `_validate_channel_members` and `_start_message_pullers` of syncer.py.
use openevent_modules_im.Prelude.{
  ℕ, String, Bool, true, false, List, [], ◌∷◌, map, ◌==◌, ◌&&◌, not, contains, string_eq, nat_eq,
  if◌then◌else◌, Option, Dict, insert, Result, ok, raise, error, caused_by, config_error,
  syncer_stopped, is_decode_error, other,
}
use openevent_modules_im.Prelude.Actions.{Action, pure, throw, of_result, get_state, ◌>>=◌, ◌>>◌}
use openevent_modules_im.Json.{Json, str, obj, get}
use openevent_modules_im.OpenEvent.{Channel}
use openevent_modules_im.Mapping.Index.{channel_ids, provider_session}
use openevent_modules_im.Puller.Pull.{start}
use openevent_modules_im.Processor.Model.{ProcessorState, MessagePuller}
use openevent_modules_im.Processor.Outbound.{beyond}
use openevent_modules_im.Syncer.Model.{Syncer, bad_config, session_highwater}
use openevent_modules_im.Syncer.Messages.{entries_of}

-- `json.loads(channel.description)`, with the `except json.JSONDecodeError`.
unfoldable pub loaded : Result Json → Result Json
loaded (ok v) = ok v
loaded (raise e) = raise (if is_decode_error e then caused_by config_error e else e)

-- `value == text`
unfoldable pub is_text : String → Json → Bool
is_text s (str t) = t == s
is_text s v = false

-- The tests on the description; one that is no object has no `get`.
unfoldable pub check_description : String → String → Json → Result (Unit {0})
check_description provider session_id (obj description) =
    if is_text provider (get "provider" description)
      && is_text session_id (get "session_id" description)
      && is_text "p2p" (get "session_type" description)
    then ok tt
    else raise bad_config
check_description provider session_id description = raise (error other)

unfoldable pub has_all : List ℕ → List ℕ → Bool
has_all members [] = true
has_all members (n ∷ ns) = contains members n && has_all members ns

abbrev pub within : {W A : Type 0} → Action (ProcessorState W) A → Action (ProcessorState W × W) A
within m (p, w) = let (result, p') = m p in (result, (p', w))

module _ {W Bytes : Type 0} (syncer : Syncer W Bytes) where
  open syncer use {worker, around}

  unfoldable pub validate_channel_members : ℕ → Channel → Action (ProcessorState W × W) (Unit {0})
  validate_channel_members channel_id channel =
      if not (channel.visibility == around.visibility_private) then throw bad_config else do
        entries ← within (entries_of channel_id)
        if has_all channel.members (worker.worker_principal ∷ map (λ item. item.principal) entries)
            then pure tt
            else throw bad_config

  -- The body of the loop of `_validate_channels` on an answer.
  unfoldable pub validate_channel : ℕ → Channel → Action (ProcessorState W × W) (Unit {0})
  validate_channel channel_id channel =
      if not (channel.protocol == "im.v1") then throw bad_config else do
        description ← of_result (loaded (around.loads_text channel.description))
        (p, _) ← get_state
        (provider, session_id) ← of_result (provider_session p.mapping channel_id)
        of_result (check_description provider session_id description)
        validate_channel_members channel_id channel

  unfoldable pub validate_each : List ℕ → Action (ProcessorState W × W) (Unit {0})
  validate_each [] = pure tt
  validate_each (channel_id ∷ ids) = do
    stopped ← beyond worker.stop_event.is_set
    if stopped then throw (error syncer_stopped) else do
      channel ←
          beyond
            (around.openevent.get_channel worker.worker_principal worker.worker_token channel_id)
      validate_channel channel_id channel
      validate_each ids

  unfoldable pub validate_channels : Action (ProcessorState W × W) (Unit {0})
  validate_channels = do (p, _) ← get_state; validate_each (channel_ids p.mapping)

  -- `puller.start(...)`, which leaves the puller changed where it raises, too.
  unfoldable pub start_puller :
      String → MessagePuller W → Dict String (Option ℕ) → Action (ProcessorState W × W) (Unit {0})
  start_puller provider puller highwater (p, w) =
      let (result, (state, w')) =
        start puller.adapter worker.now puller.config highwater (puller.state, w) in
      (
        result,
        (
          record p {
            message_pullers = insert provider (record puller { state = state }) p.message_pullers;
          },
          w',
        ),
      )

  unfoldable pub start_each :
      Dict String (MessagePuller W) → Action (ProcessorState W × W) (Unit {0})
  start_each [] = pure tt
  start_each ((provider, puller) ∷ pullers) = do
    (p, _) ← get_state
    highwater ← of_result (session_highwater p.mapping p.state provider (channel_ids p.mapping))
    start_puller provider puller highwater
    start_each pullers

  unfoldable pub start_message_pullers : Action (ProcessorState W × W) (Unit {0})
  start_message_pullers = do (p, _) ← get_state; start_each p.message_pullers
