-- ===== src/Mapping/Pairs.antt =====
-- The two participants of a channel in a mapping that `_build` accepts.
use openevent_modules_im.Prelude.{
  ℕ, ◌≡◌, ◌≢◌, ◌⊎◌, inl, inr, refl, sym, ◌∙◌, ap, subst, String, true, not, List, [], ◌∷◌, ◌==◌,
  length, distinct, same_set, nat_eq, string_eq, option_eq, list_eq, pair_eq, arith, Option-cases,
  lookup, Member, ok, sorted,
}
use openevent_modules_im.Models.{SyncerConfig, MappingEntry}
use openevent_modules_im.Mapping.Index.{
  Session, external_key_eq, P2PMappingIndex, build, session_of, item, provider_session,
  owns_channel, entries_for_channel, touch_channel,
}
use openevent_modules_im.Mapping.Index.{peer_principals, filter_map_by}
use openevent_modules_im.Mapping.Channels.{IsPair, build-ChannelsAdded}

-- Two entries with different principals, one a user and one a bot, both in the session.
pub record IsP2P (es : List MappingEntry) (s : Session) : Type 0 where
  pub first : MappingEntry
  pub second : MappingEntry
  pub both : es ≡ first ∷ second ∷ []
  pub principals : first.principal ≢ second.principal
  pub identities :
      ((first.identity_type ≡ "user") × (second.identity_type ≡ "bot"))
      ⊎ ((first.identity_type ≡ "bot") × (second.identity_type ≡ "user"))
  pub first_session : session_of first ≡ s
  pub second_session : session_of second ≡ s

principals_differ :
    (a b : MappingEntry)
    → length (distinct (a.principal ∷ b.principal ∷ [])) ≡ 2
    → a.principal ≢ b.principal
unfolding distinct
principals_differ a b h e = ground arith

user_ne_bot : ◌≢◌ {A = String} "user" "bot"
user_ne_bot e = cc

identities_lem :
    (p q : String)
    → same_set (p ∷ q ∷ []) ("user" ∷ "bot" ∷ []) ≡ true
    → ((p ≡ "user") × (q ≡ "bot")) ⊎ ((p ≡ "bot") × (q ≡ "user"))
unfolding same_set
identities_lem p q h = ground (arith, user_ne_bot)

sessions_agree : (s t u : Session) → distinct (s ∷ t ∷ []) ≡ u ∷ [] → (s ≡ u) × (t ≡ u)
unfolding distinct
sessions_agree s t u h = ground arith

IsPair-IsP2P : (es : List MappingEntry) (s : Session) → IsPair es s → IsP2P es s
IsPair-IsP2P [] s p = absurd (omega (arith, p.two))
IsPair-IsP2P (a ∷ []) s p = absurd (omega (arith, p.two))
IsPair-IsP2P (a ∷ b ∷ c ∷ es) s p = absurd (omega (arith, p.two))
IsPair-IsP2P (a ∷ b ∷ []) s p =
    let (in_first, in_second) = sessions_agree (session_of a) (session_of b) s p.sessions in
    record {
      first = a;
      second = b;
      both = refl;
      principals = principals_differ a b p.principals;
      identities = identities_lem a.identity_type b.identity_type p.identities;
      first_session = in_first;
      second_session = in_second;
    }

-- In a mapping that `_build` accepts, every owned channel has a session and exactly two entries:
-- they have different principals, one is a user and one a bot, and both are in that session.
-- Reading the entries of such a channel does not change the mapping.
pub build-IsP2P :
    (config : SyncerConfig) {m : P2PMappingIndex} (c : ℕ)
    → build config ≡ ok m
    → owns_channel m c ≡ true
    → (s : Session) × (provider_session m c ≡ ok s)
      × IsP2P (entries_for_channel m c).0 s
      × ((entries_for_channel m c).1 ≡ m)
unfolding owns_channel provider_session item entries_for_channel touch_channel
build-IsP2P config {m} c h owned =
    let b = build-ChannelsAdded config h in
    elim (Option-cases (lookup c m.by_channel)) [
      | inl missing ↦ absurd (ground arith)
      | inr (es, found) ↦
          let (s, here, pair) = b.each c es (ground (arith, b.by_channel)) in
          (s, ground arith, rw (found, touch_channel) (IsPair-IsP2P es s pair), ground arith)
    ]

abbrev pub others : ℕ → List MappingEntry → List ℕ
others p es = sorted (filter_map_by (λ e. not (e.principal == p)) (λ e. e.principal) es)

pub others_first :
    (x y : MappingEntry)
    → x.principal ≢ y.principal
    → others x.principal (x ∷ y ∷ []) ≡ y.principal ∷ []
unfolding sorted filter_map_by
others_first x y h = ground arith

pub others_second :
    (x y : MappingEntry)
    → x.principal ≢ y.principal
    → others y.principal (x ∷ y ∷ []) ≡ x.principal ∷ []
unfolding sorted filter_map_by
others_second x y h = ground arith

pub peer_principals-entries :
    (m : P2PMappingIndex) (c p : ℕ) (es : List MappingEntry)
    → entries_for_channel m c ≡ (es, m)
    → peer_principals m c p ≡ (others p es, m)
unfolding peer_principals entries_for_channel
peer_principals-entries m c p es h = rw h

-- In a mapping that `_build` accepts, the peers of a participant of an owned channel are the one
-- other participant.
pub peer_principals-IsP2P :
    (config : SyncerConfig) {m : P2PMappingIndex} (c : ℕ) (a : MappingEntry)
    → build config ≡ ok m
    → owns_channel m c ≡ true
    → Member a (entries_for_channel m c).0
    → (b : MappingEntry) × Member b (entries_for_channel m c).0
      × (b.principal ≢ a.principal)
      × (peer_principals m c a.principal ≡ (b.principal ∷ [], m))
peer_principals-IsP2P config {m} c a h owned member =
    let (_, _, pair, same) = build-IsP2P config c h owned in
    let x = pair.first in
    let y = pair.second in
    let entries : entries_for_channel m c ≡ (x ∷ y ∷ [], m) = ground (arith, pair.both, same) in
    let peers = λ (p : ℕ). peer_principals-entries m c p (x ∷ y ∷ []) entries in
    elim (subst (Member a) pair.both member) [
      | inl first ↦ (
        y,
        subst (Member y) (sym pair.both) (inr (inl refl)),
        λ e. pair.principals (sym (e ∙ ap (λ (z : MappingEntry). z.principal) first)),
        rw (first, peers x.principal, others_first x y pair.principals),
      )
      | inr (inl second) ↦ (
        x,
        subst (Member x) (sym pair.both) (inl refl),
        λ e. pair.principals (e ∙ ap (λ (z : MappingEntry). z.principal) second),
        rw (second, peers y.principal, others_second x y pair.principals),
      )
      | inr (inr none_left) ↦ absurd none_left
    ]
