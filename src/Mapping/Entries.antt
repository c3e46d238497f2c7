-- ===== src/Mapping/Entries.antt =====
-- The entries of the configuration in a mapping that `_build` accepts.
use openevent_modules_im.Prelude.{
  ℕ, ◌≡◌, inl, inr, refl, sym, subst, String, true, none, some, List, [], ◌∷◌, ◌++◌, nat_eq,
  string_eq, option_eq, list_eq, pair_eq, arith, Option-cases, insert, lookup, lookup-insert,
  lookup-nil, Dict, lookup-cons, is_some, Member, ok, >>=-eq-ok,
}
use openevent_modules_im.Models.{SyncerConfig, MappingEntry}
use openevent_modules_im.Mapping.Index.{
  Session, ExternalKey, external_key_eq, P2PMappingIndex, group, add_entry, add_entries,
  add_channel, add_channels, build, item, owns_channel,
}
use openevent_modules_im.Mapping.Index.{
  sender_external_user_id, principal_for_external_user, user_token,
}
use openevent_modules_im.Mapping.Sessions.{Added, add_channel-parts}
use openevent_modules_im.Mapping.Channels.{empty_index, build-ChannelsAdded}

abbrev external_key : ℕ → MappingEntry → ExternalKey
external_key c e = (c, e.provider, e.identity_type, e.external_user_id)

-- The entry is found under its external user and under its principal, which has a token.
record IsIndexed (c : ℕ) (m : P2PMappingIndex) (e : MappingEntry) : Type 0 where
  external : lookup (external_key c e) m.external_by_channel ≡ some e
  by_principal : lookup (c, e.principal) m.principal_by_channel ≡ some e
  has_token : is_some (lookup e.principal m.config.principal_tokens) ≡ true

-- What is indexed stays indexed.
abbrev Keeps : P2PMappingIndex → P2PMappingIndex → Type 0
Keeps m n = (c : ℕ) (e : MappingEntry) → IsIndexed c m e → IsIndexed c n e

add_entry-IsIndexed :
    (c : ℕ) (e : MappingEntry) (m : P2PMappingIndex) {n : P2PMappingIndex}
    → add_entry c e m ≡ ok n
    → IsIndexed c n e
unfolding add_entry
add_entry-IsIndexed c e m h = ground (
  arith,
  lookup-insert (external_key c e) (external_key c e) e m.external_by_channel,
  lookup-insert (c, e.principal) (c, e.principal) e m.principal_by_channel,
)

add_entry-Keeps :
    (c : ℕ) (e : MappingEntry) (m : P2PMappingIndex) {n : P2PMappingIndex}
    → add_entry c e m ≡ ok n
    → Keeps m n
unfolding add_entry
add_entry-Keeps c e m h d f i = ground (
  arith,
  i.external,
  i.by_principal,
  lookup-insert (external_key d f) (external_key c e) e m.external_by_channel,
  lookup-insert (d, f.principal) (c, e.principal) e m.principal_by_channel,
)

add_entries-IsIndexed :
    (c : ℕ) (es : List MappingEntry) (m : P2PMappingIndex) {n : P2PMappingIndex}
    → add_entries c es m ≡ ok n
    → Keeps m n × ((e : MappingEntry) → Member e es → IsIndexed c n e)
unfolding add_entries
add_entries-IsIndexed c [] m {n} h =
    let same : m ≡ n = ground arith in
    (subst (Keeps m) same (λ d f i. i), λ e member. absurd member)
add_entries-IsIndexed c (e ∷ es) m {n} h =
    let (k, first, rest) = >>=-eq-ok (add_entry c e m) _ h in
    let (keeps, indexed) = add_entries-IsIndexed c es k rest in
    (
      λ d f i. keeps d f (add_entry-Keeps c e m first d f i),
      λ f member. elim member [
        | inl here ↦ subst (IsIndexed c n) (sym here) (keeps c e (add_entry-IsIndexed c e m first))
        | inr there ↦ indexed f there
      ],
    )

Added-Keeps : (c : ℕ) (ss : List Session) (m n : P2PMappingIndex) → Added c ss m n → Keeps m n
Added-Keeps c ss m n a d f i = ground (arith, a.result, i.external, i.by_principal, i.has_token)

add_channels-IsIndexed :
    (d : Dict ℕ (List MappingEntry)) (m : P2PMappingIndex) {n : P2PMappingIndex}
    → add_channels d m ≡ ok n
    → Keeps m n
      × ((c : ℕ) (es : List MappingEntry) (e : MappingEntry)
          → lookup c d ≡ some es
          → Member e es
          → IsIndexed c n e)
unfolding add_channels
add_channels-IsIndexed [] m {n} h =
    let same : m ≡ n = ground arith in
    (
      subst (Keeps m) same (λ d f i. i),
      λ c es e found member. absurd (ground (arith, lookup-nil {V = List MappingEntry} c)),
    )
add_channels-IsIndexed ((c, es) ∷ d) m {n} h =
    let (k, first, rest) = >>=-eq-ok (add_channel c es m) _ h in
    let (_, _, _, k', entered, added) = add_channel-parts c es m first in
    let (keeps, indexed) = add_channels-IsIndexed d k rest in
    let (keeps', indexed') = add_entries-IsIndexed c es m entered in
    (
      λ b f i. keeps b f (Added-Keeps c _ k' k added b f (keeps' b f i)),
      λ b fs f found member. elim (nat_eq.dec b c) [
        | yes same ↦
            let these : es ≡ fs = ground (arith, lookup-cons b c es d) in
            subst (λ a. IsIndexed a n f) (sym same)
              (keeps c f
                (Added-Keeps c _ k' k added c f (indexed' f (subst (Member f) (sym these) member))))
        | no other ↦ indexed b fs f (ground (arith, lookup-cons b c es d)) member
      ],
    )

abbrev Holds : MappingEntry → Dict ℕ (List MappingEntry) → Type 0
Holds e d = (l : List MappingEntry) × (lookup e.channel_id d ≡ some l) × Member e l

Member-append_left :
    (a : MappingEntry) (xs ys : List MappingEntry) → Member a xs → Member a (xs ++ ys)
Member-append_left a [] ys m = absurd m
Member-append_left a (x ∷ xs) ys (inl e) = inl e
Member-append_left a (x ∷ xs) ys (inr m) = inr (Member-append_left a xs ys m)

Member-append_last : (a : MappingEntry) (xs : List MappingEntry) → Member a (xs ++ a ∷ [])
Member-append_last a [] = inl refl
Member-append_last a (x ∷ xs) = inr (Member-append_last a xs)

abbrev so_far : MappingEntry → Dict ℕ (List MappingEntry) → List MappingEntry
so_far e d = elim (lookup e.channel_id d) [ none ↦ [] | some l ↦ l ]

step_keeps :
    (e f : MappingEntry) (d : Dict ℕ (List MappingEntry))
    → Holds f d
    → Holds f (insert e.channel_id (so_far e d ++ e ∷ []) d)
step_keeps e f d (l, found, member) = elim (nat_eq.dec f.channel_id e.channel_id) [
  | yes same ↦ (
    l ++ e ∷ [],
    ground (arith, lookup-insert f.channel_id e.channel_id (so_far e d ++ e ∷ []) d),
    Member-append_left f l (e ∷ []) member,
  )
  | no other ↦
      (l, ground (arith, lookup-insert f.channel_id e.channel_id (so_far e d ++ e ∷ []) d), member)
]

group-keeps :
    (f : MappingEntry) (es : List MappingEntry) (d : Dict ℕ (List MappingEntry))
    → Holds f d
    → Holds f (group es d)
unfolding group
group-keeps f [] d h = h
group-keeps f (e ∷ es) d h = group-keeps f es _ (step_keeps e f d h)

group-Holds :
    (f : MappingEntry) (es : List MappingEntry) (d : Dict ℕ (List MappingEntry))
    → Member f es
    → Holds f (group es d)
unfolding group
group-Holds f [] d m = absurd m
group-Holds f (e ∷ es) d (inr m) = group-Holds f es _ m
group-Holds f (e ∷ es) d (inl same) =
    subst (λ g. Holds g (group (e ∷ es) d)) (sym same)
      (group-keeps e es _ (
        so_far e d ++ e ∷ [],
        ground (arith, lookup-insert e.channel_id e.channel_id (so_far e d ++ e ∷ []) d),
        Member-append_last e (so_far e d),
      ))

-- In a mapping that `_build` accepts, each entry of the configuration is found both ways: its
-- external user stands for its principal, and its principal, under its identity type, for its
-- external user. The channel is owned, and the principal has a token.
pub build-round_trip :
    (config : SyncerConfig) {m : P2PMappingIndex} (e : MappingEntry)
    → build config ≡ ok m
    → Member e config.mappings
    → (principal_for_external_user m e.channel_id e.provider e.external_user_id e.identity_type
        ≡ ok e.principal)
      × (sender_external_user_id m e.channel_id e.principal (some e.identity_type)
          ≡ ok e.external_user_id)
      × (owns_channel m e.channel_id ≡ true)
      × ((token : String) × (user_token m e.principal ≡ ok token))
unfolding build principal_for_external_user sender_external_user_id owns_channel user_token item
build-round_trip config {m} e h member =
    let (l, found, listed) = group-Holds e config.mappings [] member in
    let i =
      (add_channels-IsIndexed (group config.mappings []) (empty_index config) h).1 e.channel_id l e
        found listed in
    let b = build-ChannelsAdded config h in
    elim (Option-cases (lookup e.principal m.config.principal_tokens)) [
      | inl missing ↦ absurd (ground (arith, i.has_token))
      | inr (token, has) ↦ (
        ground (arith, i.external),
        ground (arith, i.by_principal),
        ground (arith, b.by_channel),
        (token, ground arith),
      )
    ]
