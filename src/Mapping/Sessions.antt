-- ===== src/Mapping/Sessions.antt =====
-- Channels and provider sessions: what `_build` accepts.
use openevent_modules_im.Prelude.{
  ℕ, ◌≡◌, ◌⊎◌, inl, inr, refl, true, ◌&&◌, none, some, List, [], ◌∷◌, map, ◌==◌, length, distinct,
  same_set, nat_eq, string_eq, option_eq, list_eq, pair_eq, arith, Bool-cases, insert, lookup,
  lookup-insert, ok, >>=-eq-ok, ◌>>=◌,
}
use openevent_modules_im.Models.{MappingEntry}
use openevent_modules_im.Mapping.Index.{
  Session, external_key_eq, P2PMappingIndex, add_entry, add_entries, add_session, add_channel,
  session_of,
}

-- Nothing that a successful `add_entries` changes is about sessions.
pub record SameSessions (m n : P2PMappingIndex) : Type 0 where
  pub config : n.config ≡ m.config
  pub by_channel : n.by_channel ≡ m.by_channel
  pub channel_session : n.channel_session ≡ m.channel_session
  pub session_channel : n.session_channel ≡ m.session_channel

add_entry-SameSessions :
    (c : ℕ) (e : MappingEntry) (m : P2PMappingIndex) {n : P2PMappingIndex}
    → add_entry c e m ≡ ok n
    → SameSessions m n
unfolding add_entry
add_entry-SameSessions c e m h = ground arith

pub add_entries-SameSessions :
    (c : ℕ) (es : List MappingEntry) (m : P2PMappingIndex) {n : P2PMappingIndex}
    → add_entries c es m ≡ ok n
    → SameSessions m n
unfolding add_entries
add_entries-SameSessions c [] m h = ground arith
add_entries-SameSessions c (e ∷ es) m h =
    let (k, first, rest) = >>=-eq-ok (add_entry c e m) _ h in
    ground (arith, add_entry-SameSessions c e m first, add_entries-SameSessions c es k rest)

-- A session's channel is the channel whose session it is.
pub record IsPaired (m : P2PMappingIndex) : Type 0 where
  pub session_of_channel :
      (c : ℕ) (s : Session)
      → lookup c m.channel_session ≡ some s
      → lookup s m.session_channel ≡ some c
  pub channel_of_session :
      (c : ℕ) (s : Session)
      → lookup s m.session_channel ≡ some c
      → lookup c m.channel_session ≡ some s

abbrev pub with_session : ℕ → Session → P2PMappingIndex → P2PMappingIndex
with_session c s m = record m {
  session_channel = insert s c m.session_channel;
  channel_session = insert c s m.channel_session;
}

pub with_session-IsPaired :
    (c : ℕ) (s : Session) (m : P2PMappingIndex)
    → lookup c m.channel_session ≡ none
    → lookup s m.session_channel ≡ none
    → IsPaired m
    → IsPaired (with_session c s m)
with_session-IsPaired c s m new unused p = record {
  session_of_channel = λ d t h. ground (
    arith,
    lookup-insert d c s m.channel_session,
    lookup-insert t s c m.session_channel,
    p.session_of_channel d t,
  );
  channel_of_session = λ d t h. ground (
    arith,
    lookup-insert d c s m.channel_session,
    lookup-insert t s c m.session_channel,
    p.channel_of_session d t,
  );
}

-- What a successful `add_session` did.
pub record Added (c : ℕ) (ss : List Session) (m n : P2PMappingIndex) : Type 0 where
  pub session : Session
  pub only : ss ≡ session ∷ []
  pub allowed :
      (lookup session m.session_channel ≡ none) ⊎ (lookup session m.session_channel ≡ some c)
  pub result : n ≡ with_session c session m

add_session-Added :
    (c : ℕ) (ss : List Session) (m : P2PMappingIndex) {n : P2PMappingIndex}
    → add_session c ss m ≡ ok n
    → Added c ss m n
unfolding add_session
add_session-Added c [] m h = absurd (ground arith)
add_session-Added c (s ∷ t ∷ ss) m h = absurd (ground arith)
add_session-Added c (s ∷ []) m {n} h = record {
  session = s;
  only = refl;
  allowed = ground arith;
  result = ground arith;
}

pub add_channel-parts :
    (c : ℕ) (es : List MappingEntry) (m : P2PMappingIndex) {n : P2PMappingIndex}
    → add_channel c es m ≡ ok n
    → (length (distinct (map (λ e. e.principal) es)) ≡ 2)
      × (length es ≡ 2)
      × (same_set (map (λ e. e.identity_type) es) ("user" ∷ "bot" ∷ []) ≡ true)
      × (k : P2PMappingIndex) × (add_entries c es m ≡ ok k)
      × Added c (distinct (map session_of es)) k n
unfolding add_channel
add_channel-parts c es m {n} h =
    elim (Bool-cases
      (length (distinct (map (λ (e : MappingEntry). e.principal) es)) == 2 && length es == 2)) [
        | inr bad ↦ absurd (ground arith)
        | inl two ↦
            elim (Bool-cases
              (same_set (map (λ (e : MappingEntry). e.identity_type) es) ("user" ∷ "bot" ∷ []))) [
                | inr bad ↦ absurd (ground arith)
                | inl both ↦
                    let rest : (add_entries c es m >>= λ k.
                    add_session c (distinct (map session_of es)) k)
                        ≡ ok n =
                      ground arith in
                    let (k, entered, added) = >>=-eq-ok (add_entries c es m) _ rest in
                    (ground arith, ground arith, both, k, entered, add_session-Added c _ k added)
              ]
      ]
