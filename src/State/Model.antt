-- ===== src/State/Model.antt =====
-- The data of state.py: the keys, the tasks and results, `RuntimeState`, and how two requests or two
-- results are compared. A set is a list, and a dict an association list.
use native.Mathlib.Decide.{ℕ_discrete}
use openevent_modules_im.Prelude.{
  ℕ, String, Bool, ◌&&◌, Option, List, [], ◌∷◌, ◌==◌, contains, if◌then◌else◌, nat_eq, string_eq,
  option_eq, list_eq, Eq, String-discrete, Dict, Result, ok, raise, Error, error, state_conflict,
  untyped,
}
use openevent_modules_im.Json.{Json, str, obj, Fields}
use openevent_modules_im.Json.Equality.{json_eq, fields_eq}

-- (provider, session_id, channel_id, provider_message_id)
abbrev pub InboundKey : Type 0
InboundKey = String × String × ℕ × String

InboundKey-discrete : Discrete InboundKey
unfolding String-discrete ℕ_discrete
InboundKey-discrete = hlevel (String-discrete, ℕ_discrete)

instance unfoldable pub inbound_key_eq : Eq InboundKey
unfolding InboundKey-discrete
inbound_key_eq = record { dec = InboundKey-discrete }

pub record OutboundTask : Type 0 where
  pub seq : ℕ
  pub channel_id : ℕ
  pub principal : ℕ
  pub request_id : String
  pub msg_type : String
  pub content : Fields

-- `provider_message_id` is whatever the payload holds there, with `null` for None.
pub record TerminalResult : Type 0 where
  pub seq : ℕ
  pub channel_id : ℕ
  pub principal : ℕ
  pub recipients : List ℕ
  pub request_id : String
  pub prev_seq : Option ℕ
  pub status : String
  pub provider_message_id : Json

-- (seq, request_id)
abbrev pub HeapEntry : Type 0
HeapEntry = ℕ × String

HeapEntry-discrete : Discrete HeapEntry
unfolding String-discrete ℕ_discrete
HeapEntry-discrete = hlevel (String-discrete, ℕ_discrete)

instance unfoldable pub heap_entry_eq : Eq HeapEntry
unfolding HeapEntry-discrete
heap_entry_eq = record { dec = HeapEntry-discrete }

pub record RuntimeState : Type 0 where
  pub inbound_seen : List InboundKey
  pub completed_request_ids : List String
  pub canonical_requests_by_id : Dict String OutboundTask
  pub terminal_results_by_id : Dict String TerminalResult
  pub requests_by_id : Dict String OutboundTask
  pub pending_heap : List HeapEntry
  pub blocked_by_channel : Dict ℕ String
  pub send_result_by_provider_message : Dict InboundKey ℕ
  pub latest_event_ms_by_channel : Dict ℕ ℕ

abbrev pub initial : RuntimeState
initial = record {
  inbound_seen = [];
  completed_request_ids = [];
  canonical_requests_by_id = [];
  terminal_results_by_id = [];
  requests_by_id = [];
  pending_heap = [];
  blocked_by_channel = [];
  send_result_by_provider_message = [];
  latest_event_ms_by_channel = [];
}

-- `s.add(x)`
unfoldable pub add_to {ℓ} : {A : Type ℓ} ⦃e : Eq A⦄ → A → List A → List A
add_to x xs = if contains xs x then xs else x ∷ xs

unfoldable pub same_send_request : OutboundTask → OutboundTask → Bool
same_send_request left right =
    left.channel_id == right.channel_id
    && left.principal == right.principal
    && left.request_id == right.request_id
    && left.msg_type == right.msg_type
    && fields_eq left.content right.content

unfoldable pub same_send_result : TerminalResult → TerminalResult → Bool
same_send_result left right =
    left.channel_id == right.channel_id
    && left.principal == right.principal
    && left.recipients == right.recipients
    && left.request_id == right.request_id
    && left.prev_seq == right.prev_seq
    && left.status == right.status
    && json_eq left.provider_message_id right.provider_message_id

abbrev pub conflict : Error
conflict = error state_conflict

-- A value where the source relies on a string, or on an object.
unfoldable pub expect_str : Json → Result String
expect_str (str s) = ok s
expect_str v = raise (error untyped)

unfoldable pub expect_object : Json → Result Fields
expect_object (obj f) = ok f
expect_object v = raise (error untyped)
