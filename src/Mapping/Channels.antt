-- ===== src/Mapping/Channels.antt =====
-- The loop of `_build` over the channels: channels and their sessions.
use openevent_modules_im.Prelude.{
  ℕ, ◌≡◌, ◌≢◌, ◌↔◌, inl, inr, refl, sym, subst, String, true, none, some, List, [], ◌∷◌, map,
  length, distinct, same_set, nat_eq, string_eq, option_eq, list_eq, pair_eq, arith, insert, lookup,
  lookup-insert, lookup-nil, Dict, lookup-cons, ok, >>=-eq-ok,
}
use openevent_modules_im.Models.{SyncerConfig, MappingEntry}
use openevent_modules_im.Mapping.Index.{
  Session, external_key_eq, P2PMappingIndex, group, add_channel, add_channels, build, session_of,
  item, provider_session, channel_for_provider_session,
}
use openevent_modules_im.Mapping.Sessions.{
  add_entries-SameSessions, IsPaired, with_session-IsPaired, add_channel-parts,
}

abbrev pub NodupKeys : Dict ℕ (List MappingEntry) → Type 0
NodupKeys [] = Unit {0}
NodupKeys ((c, es) ∷ d) = (lookup c d ≡ none) × NodupKeys d

-- What the checks of `_build` leave of a channel: two entries with distinct principals, a user and
-- a bot, and the one session.
pub record IsPair (es : List MappingEntry) (s : Session) : Type 0 where
  pub two : length es ≡ 2
  pub principals : length (distinct (map (λ e. e.principal) es)) ≡ 2
  pub identities : same_set (map (λ e. e.identity_type) es) ("user" ∷ "bot" ∷ []) ≡ true
  pub sessions : distinct (map session_of es) ≡ s ∷ []

pub record ChannelAdded (c : ℕ) (es : List MappingEntry) (m n : P2PMappingIndex) : Type 0 where
  pub session : Session
  pub pair : IsPair es session
  pub paired : IsPaired n
  pub here : lookup c n.channel_session ≡ some session
  pub others : (d : ℕ) → d ≢ c → lookup d n.channel_session ≡ lookup d m.channel_session
  pub config : n.config ≡ m.config
  pub by_channel : n.by_channel ≡ m.by_channel

add_channel-ChannelAdded :
    (c : ℕ) (es : List MappingEntry) (m : P2PMappingIndex) {n : P2PMappingIndex}
    → IsPaired m
    → lookup c m.channel_session ≡ none
    → add_channel c es m ≡ ok n
    → ChannelAdded c es m n
add_channel-ChannelAdded c es m {n} p new h =
    let (principals, two, identities, k, entered, added) = add_channel-parts c es m h in
    let same = add_entries-SameSessions c es m entered in
    let session = added.session in
    let new_k : lookup c k.channel_session ≡ none = ground (arith, same.channel_session) in
    let paired_k : IsPaired k = record {
      session_of_channel = rw (same.channel_session, same.session_channel) p.session_of_channel;
      channel_of_session = rw (same.channel_session, same.session_channel) p.channel_of_session;
    } in
    let unused : lookup session k.session_channel ≡ none = elim added.allowed [
      | inl free ↦ free
      | inr taken ↦ absurd (ground (arith, paired_k.channel_of_session c session taken))
    ] in
    record {
      session = session;
      pair = record {
        two = two;
        principals = principals;
        identities = identities;
        sessions = added.only;
      };
      paired =
          subst IsPaired (sym added.result)
            (with_session-IsPaired c session k new_k unused paired_k);
      here = ground (arith, added.result, lookup-insert c c session k.channel_session);
      others = λ d other.
          ground (
            arith,
            added.result,
            lookup-insert d c session k.channel_session,
            same.channel_session,
          );
      config = ground (arith, added.result, same.config);
      by_channel = ground (arith, added.result, same.by_channel);
    }

pub record ChannelsAdded (d : Dict ℕ (List MappingEntry)) (m n : P2PMappingIndex) : Type 0 where
  pub paired : IsPaired n
  pub each :
      (c : ℕ) (es : List MappingEntry)
      → lookup c d ≡ some es
      → (s : Session) × (lookup c n.channel_session ≡ some s) × IsPair es s
  pub others : (c : ℕ) → lookup c d ≡ none → lookup c n.channel_session ≡ lookup c m.channel_session
  pub config : n.config ≡ m.config
  pub by_channel : n.by_channel ≡ m.by_channel

add_channels-ChannelsAdded :
    (d : Dict ℕ (List MappingEntry)) (m : P2PMappingIndex) {n : P2PMappingIndex}
    → NodupKeys d
    → IsPaired m
    → ((c : ℕ) → lookup c d ≢ none → lookup c m.channel_session ≡ none)
    → add_channels d m ≡ ok n
    → ChannelsAdded d m n
unfolding add_channels
add_channels-ChannelsAdded [] m {n} u p fresh h =
    let e : m ≡ n = ground arith in
    subst (ChannelsAdded [] m) e (record {
      paired = p;
      each = λ c es found. absurd (ground (arith, lookup-nil {V = List MappingEntry} c));
      others = λ c absent. refl;
      config = refl;
      by_channel = refl;
    })
add_channels-ChannelsAdded ((c, es) ∷ d) m {n} u p fresh h =
    let (k, first, rest) = >>=-eq-ok (add_channel c es m) _ h in
    let new : lookup c m.channel_session ≡ none =
      fresh c (λ e. ground (arith, lookup-cons c c es d)) in
    let one = add_channel-ChannelAdded c es m p new first in
    let fresh_k : (j : ℕ) → lookup j d ≢ none → lookup j k.channel_session ≡ none = λ j found.
      ground (
        arith,
        u.0,
        one.others j,
        fresh j (λ e. found (ground (arith, u.0, lookup-cons j c es d))),
      ) in
    let more = add_channels-ChannelsAdded d k u.1 one.paired fresh_k rest in
    record {
      paired = more.paired;
      each = λ j fs found. elim (nat_eq.dec j c) [
        | yes same ↦
            let these : es ≡ fs = ground (arith, lookup-cons j c es d) in
            (
              one.session,
              ground (arith, more.others j, one.here, u.0),
              subst (λ l. IsPair l one.session) these one.pair,
            )
        | no other ↦ more.each j fs (ground (arith, lookup-cons j c es d))
      ];
      others = λ j absent. ground (arith, lookup-cons j c es d, more.others j, one.others j);
      config = ground (arith, more.config, one.config);
      by_channel = ground (arith, more.by_channel, one.by_channel);
    }

insert-NodupKeys :
    (c : ℕ) (es : List MappingEntry) (d : Dict ℕ (List MappingEntry))
    → NodupKeys d
    → NodupKeys (insert c es d)
unfolding insert
insert-NodupKeys c es [] u = (lookup-nil c, tt)
insert-NodupKeys c es ((b, fs) ∷ d) u =
    ground (arith, insert-NodupKeys c es d u.1, lookup-insert b c es d)

group-NodupKeys :
    (es : List MappingEntry) (d : Dict ℕ (List MappingEntry)) → NodupKeys d → NodupKeys (group es d)
unfolding group
group-NodupKeys [] d u = u
group-NodupKeys (e ∷ es) d u = group-NodupKeys es _ (insert-NodupKeys e.channel_id _ d u)

abbrev pub empty_index : SyncerConfig → P2PMappingIndex
empty_index config = record {
  config = config;
  by_channel = group config.mappings [];
  channel_session = [];
  session_channel = [];
  external_by_channel = [];
  principal_by_channel = [];
}

pub build-ChannelsAdded :
    (config : SyncerConfig) {m : P2PMappingIndex}
    → build config ≡ ok m
    → ChannelsAdded (group config.mappings []) (empty_index config) m
unfolding build
build-ChannelsAdded config h =
    add_channels-ChannelsAdded (group config.mappings []) (empty_index config)
      (group-NodupKeys config.mappings [] tt)
      (record {
        session_of_channel = λ c s e. absurd (ground (arith, lookup-nil {V = Session} c));
        channel_of_session = λ c s e. absurd (ground (arith, lookup-nil {V = ℕ} s));
      })
      (λ c e. lookup-nil c) h

-- In a mapping that `_build` accepts, the channel of a provider session and the session of a
-- channel are inverse to one another.
pub build-IsPaired :
    (config : SyncerConfig) {m : P2PMappingIndex}
    → build config ≡ ok m
    → (c : ℕ) (provider session_id : String)
    → (provider_session m c ≡ ok (provider, session_id))
      ↔ (channel_for_provider_session m provider session_id ≡ ok c)
unfolding provider_session channel_for_provider_session item
build-IsPaired config {m} h c provider session_id =
    let p = (build-ChannelsAdded config h).paired in
    (
      λ e. ground (arith, p.session_of_channel c (provider, session_id)),
      λ e. ground (arith, p.channel_of_session c (provider, session_id)),
    )
