-- ===== src/Tests/Mapping.antt =====
-- A configuration with one channel, between a user and a bot.
use openevent_modules_im.Prelude.{
  ◌≡◌, ◌≢◌, ◌↔◌, inl, refl, String, true, string_eq, nat_eq, option_eq, pair_eq, list_eq, some, [],
  ◌∷◌, Member, ok, lookup, insert, distinct, same_set,
}
use openevent_modules_im.Json.{end}
use openevent_modules_im.Models.{SyncerConfig, MappingEntry, RetryConfig, ProviderSyncConfig}
use openevent_modules_im.Mapping.Index.{
  Session, external_key_eq, P2PMappingIndex, group, add_entry, add_entries, add_session,
  add_channel, add_channels, build, provider_session, channel_for_provider_session, owns_channel,
  entries_for_channel, touch_channel, principal_for_external_user, sender_external_user_id,
  peer_principals, user_token,
}
use openevent_modules_im.Mapping.Channels.{build-IsPaired}
use openevent_modules_im.Mapping.Pairs.{IsP2P, build-IsP2P, peer_principals-IsP2P}
use openevent_modules_im.Mapping.Entries.{build-round_trip}

abbrev user_entry : MappingEntry
user_entry = record {
  provider = "lark";
  identity_type = "user";
  external_user_id = "ou_1";
  principal = 20;
  session_id = "oc_1";
  channel_id = 7;
}

abbrev bot_entry : MappingEntry
bot_entry = record user_entry { identity_type = "bot"; external_user_id = "cli_1"; principal = 30 }

abbrev pub sync_config : ProviderSyncConfig
sync_config = record {
  history_retry_delay_ms = 1000;
  history_overlap_ms = 300;
  history_lookback_ms = 500;
  page_size = 50;
  event_queue_size = 2;
}

abbrev pub retry_config : RetryConfig
retry_config = record {
  publish_max_attempts = 3;
  publish_retry_delay_ms = 200;
  idle_sleep_ms = 200;
}

abbrev pub config : SyncerConfig
config = record {
  version = "1";
  worker = record { principal = 1; token = "w"; shutdown_timeout_ms = 10000 };
  openevent = record { target = "localhost" };
  retry = retry_config;
  principal_tokens = (20, "t20") ∷ (30, "t30") ∷ [];
  providers =
      ("lark", record { name = "lark"; sync = sync_config; credentials = end; options = end }) ∷ [];
  mappings = user_entry ∷ bot_entry ∷ [];
  logging = end;
}

abbrev pub index : P2PMappingIndex
index = record {
  config = config;
  by_channel = (7, user_entry ∷ bot_entry ∷ []) ∷ [];
  channel_session = (7, ("lark", "oc_1")) ∷ [];
  session_channel = (("lark", "oc_1"), 7) ∷ [];
  external_by_channel =
      ((7, "lark", "user", "ou_1"), user_entry) ∷ ((7, "lark", "bot", "cli_1"), bot_entry) ∷ [];
  principal_by_channel = ((7, 20), user_entry) ∷ ((7, 30), bot_entry) ∷ [];
}

pub built : build config ≡ ok index
unfolding build group add_channels add_channel add_entries add_entry add_session lookup insert
    distinct same_set string_eq nat_eq external_key_eq pair_eq
built = refl

pub owned : owns_channel index 7 ≡ true
unfolding owns_channel lookup nat_eq
owned = refl

build-IsPaired_example :
    (provider_session index 7 ≡ ok ("lark", "oc_1"))
    ↔ (channel_for_provider_session index "lark" "oc_1" ≡ ok 7)
build-IsPaired_example = build-IsPaired config built 7 "lark" "oc_1"

build-IsP2P_example :
    (s : Session) × (provider_session index 7 ≡ ok s)
    × IsP2P (entries_for_channel index 7).0 s
    × ((entries_for_channel index 7).1 ≡ index)
build-IsP2P_example = build-IsP2P config 7 built owned

user_in_channel : Member user_entry (entries_for_channel index 7).0
unfolding entries_for_channel touch_channel lookup nat_eq
user_in_channel = inl refl

peer_principals-IsP2P_example :
    (b : MappingEntry) × Member b (entries_for_channel index 7).0
    × (b.principal ≢ user_entry.principal)
    × (peer_principals index 7 20 ≡ (b.principal ∷ [], index))
peer_principals-IsP2P_example =
    peer_principals-IsP2P config 7 user_entry built owned user_in_channel

build-round_trip_example :
    (principal_for_external_user index 7 "lark" "ou_1" "user" ≡ ok 20)
    × (sender_external_user_id index 7 20 (some "user") ≡ ok "ou_1")
    × (owns_channel index 7 ≡ true)
    × ((token : String) × (user_token index 20 ≡ ok token))
build-round_trip_example = build-round_trip config user_entry built (inl refl)
