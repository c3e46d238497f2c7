-- ===== src/Mapping/Index.antt =====
-- `P2PMappingIndex` of im_p2p_syncer/mapping.py. The constructor is `build`; its dicts are
-- association lists in insertion order, and `_by_channel` is a `defaultdict(list)`.
use native.Mathlib.Decide.{ℕ_discrete}
use openevent_modules_im.Prelude.{
  ℕ, String, Bool, true, ◌&&◌, not, Option, none, some, List, [], ◌∷◌, ◌++◌, map, ◌==◌, length,
  if◌then◌else◌, nat_eq, string_eq, pair_eq, Eq, String-discrete, Dict, lookup, insert, is_some,
  distinct, same_set, sorted, Result, ok, raise, Error, error, config_error, key_error, ◌>>=◌, ◌>>◌,
  require,
}
use openevent_modules_im.Models.{SyncerConfig, MappingEntry, ProviderConfig}

abbrev pub Session : Type 0
Session = String × String

-- (channel_id, provider, identity_type, external_user_id)
abbrev pub ExternalKey : Type 0
ExternalKey = ℕ × String × String × String

ExternalKey-discrete : Discrete ExternalKey
unfolding String-discrete ℕ_discrete
ExternalKey-discrete = hlevel (String-discrete, ℕ_discrete)

instance unfoldable pub external_key_eq : Eq ExternalKey
unfolding ExternalKey-discrete
external_key_eq = record { dec = ExternalKey-discrete }

pub record P2PMappingIndex : Type 0 where
  pub config : SyncerConfig
  pub by_channel : Dict ℕ (List MappingEntry)
  pub channel_session : Dict ℕ Session
  pub session_channel : Dict Session ℕ
  pub external_by_channel : Dict ExternalKey MappingEntry
  pub principal_by_channel : Dict (ℕ × ℕ) MappingEntry

abbrev pub bad_config : Error
bad_config = error config_error

-- `d[k]` raises KeyError for a missing key.
unfoldable pub item {ℓ} : {A : Type ℓ} → Option A → Result A
item none = raise (error key_error)
item (some v) = ok v

unfoldable pub filter_map_by {ℓ κ} :
    {A : Type ℓ} {B : Type κ} → (A → Bool) → (A → B) → List A → List B
filter_map_by p f [] = []
filter_map_by p f (x ∷ xs) = let rest = filter_map_by p f xs in if p x then f x ∷ rest else rest

-- `self._by_channel[channel_id]`: a missing key is added with the empty list.
unfoldable pub touch_channel : ℕ → P2PMappingIndex → List MappingEntry × P2PMappingIndex
touch_channel channel_id m = elim (lookup channel_id m.by_channel) [
  | none ↦ ([], record m { by_channel = insert channel_id [] m.by_channel })
  | some entries ↦ (entries, m)
]

unfoldable pub channel_ids : P2PMappingIndex → List ℕ
channel_ids m = sorted (map (λ e. e.0) m.by_channel)

unfoldable pub owns_channel : P2PMappingIndex → ℕ → Bool
owns_channel m channel_id = is_some (lookup channel_id m.by_channel)

unfoldable pub entries_for_channel : P2PMappingIndex → ℕ → List MappingEntry × P2PMappingIndex
entries_for_channel m channel_id = touch_channel channel_id m

unfoldable pub provider_session : P2PMappingIndex → ℕ → Result Session
provider_session m channel_id = item (lookup channel_id m.channel_session)

unfoldable pub channel_for_provider_session : P2PMappingIndex → String → String → Result ℕ
channel_for_provider_session m provider session_id =
    item (lookup (provider, session_id) m.session_channel)

unfoldable pub provider_config_for_channel : P2PMappingIndex → ℕ → Result ProviderConfig
unfolding provider_session
provider_config_for_channel m channel_id = do
  (provider, _) ← provider_session m channel_id
  item (lookup provider m.config.providers)

unfoldable pub sender_external_user_id : P2PMappingIndex → ℕ → ℕ → Option String → Result String
sender_external_user_id m channel_id principal identity_type = do
  entry ← item (lookup (channel_id, principal) m.principal_by_channel)
  elim identity_type [
    | none ↦ ok entry.external_user_id
    | some t ↦
        if entry.identity_type == t then ok entry.external_user_id else raise (error key_error)
  ]

unfoldable pub principal_for_external_user :
    P2PMappingIndex → ℕ → String → String → String → Result ℕ
principal_for_external_user m channel_id provider external_user_id identity_type = do
  entry ←
      item (lookup (channel_id, provider, identity_type, external_user_id) m.external_by_channel)
  ok entry.principal

unfoldable pub peer_principals : P2PMappingIndex → ℕ → ℕ → List ℕ × P2PMappingIndex
peer_principals m channel_id principal =
    let (entries, m') = touch_channel channel_id m in
    (sorted (filter_map_by (λ e. not (e.principal == principal)) (λ e. e.principal) entries), m')

unfoldable pub user_token : P2PMappingIndex → ℕ → Result String
user_token m principal = item (lookup principal m.config.principal_tokens)

-- The first loop of `_build`.
unfoldable pub group : List MappingEntry → Dict ℕ (List MappingEntry) → Dict ℕ (List MappingEntry)
group [] d = d
group (e ∷ es) d =
    group es
      (insert e.channel_id (elim (lookup e.channel_id d) [ none ↦ [] | some l ↦ l ] ++ e ∷ []) d)

-- The body of the loop over a channel's entries.
unfoldable pub add_entry : ℕ → MappingEntry → P2PMappingIndex → Result P2PMappingIndex
add_entry channel_id e m = do
  require (is_some (lookup e.principal m.config.principal_tokens)) bad_config
  let external_key : ExternalKey = (channel_id, e.provider, e.identity_type, e.external_user_id)
  require (not (is_some (lookup external_key m.external_by_channel))) bad_config
  let principal_key : ℕ × ℕ = (channel_id, e.principal)
  require (not (is_some (lookup principal_key m.principal_by_channel))) bad_config
  ok (record m {
    external_by_channel = insert external_key e m.external_by_channel;
    principal_by_channel = insert principal_key e m.principal_by_channel;
  })

unfoldable pub add_entries : ℕ → List MappingEntry → P2PMappingIndex → Result P2PMappingIndex
add_entries channel_id [] m = ok m
add_entries channel_id (e ∷ es) m = do m' ← add_entry channel_id e m; add_entries channel_id es m'

abbrev pub session_of : MappingEntry → Session
session_of e = (e.provider, e.session_id)

-- The end of the loop body: the channel's one session.
unfoldable pub add_session : ℕ → List Session → P2PMappingIndex → Result P2PMappingIndex
add_session channel_id (session ∷ []) m = do
  require (elim (lookup session m.session_channel) [ none ↦ true | some c ↦ c == channel_id ])
      bad_config
  ok (record m {
    session_channel = insert session channel_id m.session_channel;
    channel_session = insert channel_id session m.channel_session;
  })
add_session channel_id sessions m = raise bad_config

unfoldable pub add_channel : ℕ → List MappingEntry → P2PMappingIndex → Result P2PMappingIndex
add_channel channel_id entries m = do
  require (length (distinct (map (λ e. e.principal) entries)) == 2 && length entries == 2)
      bad_config
  require (same_set (map (λ e. e.identity_type) entries) ("user" ∷ "bot" ∷ [])) bad_config
  m' ← add_entries channel_id entries m
  add_session channel_id (distinct (map session_of entries)) m'

unfoldable pub add_channels : Dict ℕ (List MappingEntry) → P2PMappingIndex → Result P2PMappingIndex
add_channels [] m = ok m
add_channels ((channel_id, entries) ∷ rest) m = do
  m' ← add_channel channel_id entries m
  add_channels rest m'

-- `P2PMappingIndex(config)`
unfoldable pub build : SyncerConfig → Result P2PMappingIndex
build config =
    let by_channel = group config.mappings [] in
    add_channels by_channel (record {
      config = config;
      by_channel = by_channel;
      channel_session = [];
      session_channel = [];
      external_by_channel = [];
      principal_by_channel = [];
    })
