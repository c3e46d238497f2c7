-- ===== src/Puller/Sound.antt =====
-- The invariant of a puller: what its queues hold, and which sessions it knows.
use openevent_modules_im.Prelude.{
  ℕ, ◌≡◌, ◌≤◌, inl, inr, refl, sym, subst₂, String, true, ◌&&◌, Option, none, some, List, [], ◌∷◌,
  ◌++◌, ◌==◌, length, if◌then◌else◌, nat_eq, string_eq, arith, Bool-cases, Dict, lookup, insert,
  lookup-insert, is_some, All, Result, ok, raise,
}
use openevent_modules_im.Models.{ProviderEvent, ProviderSyncConfig, HistoryPage}
use openevent_modules_im.Puller.Model.{
  HistoryScan, SessionPullState, PullerState, handoff, map_values,
}
use openevent_modules_im.Puller.Pull.{element, append_events, accept_page, finish_page, settle_page}

-- The event that a session has in flight.
unfoldable pub flight : String → PullerState → Option ProviderEvent
flight session_id p = elim (lookup session_id p.sessions) [ none ↦ none | some st ↦ st.in_flight ]

abbrev pub Of : String → String → ProviderEvent → Type 0
Of provider session_id e = (e.provider ≡ provider) × (e.session_id ≡ session_id)

-- The events of a session are the provider's, and are that session's.
pub record SoundSession (provider session_id : String) (st : SessionPullState) : Type 0 where
  pub queued : All (Of provider session_id) st.history_events
  pub flying : (e : ProviderEvent) → st.in_flight ≡ some e → Of provider session_id e

-- Besides, every session in the rotation is known, a live event is of the provider and of a known
-- session, and the queue of live events keeps its bound.
pub record Sound (provider : String) (limit : ℕ) (p : PullerState) : Type 0 where
  pub each :
      (session_id : String) (st : SessionPullState)
      → lookup session_id p.sessions ≡ some st
      → SoundSession provider session_id st
  pub rotation :
      (i : ℕ) (session_id : String)
      → element p.session_order i ≡ some session_id
      → is_some (lookup session_id p.sessions) ≡ true
  pub live :
      All
        (λ e. (e.provider ≡ provider) × (is_some (lookup e.session_id p.sessions) ≡ true))
        p.live_events
  pub bounded : length p.live_events ≤ limit

pub All-map :
    {A : Type 0} {P Q : A → Type 0} (xs : List A) → ((a : A) → P a → Q a) → All P xs → All Q xs
All-map [] f h = tt
All-map (x ∷ xs) f h = (f x h.0, All-map xs f h.1)

pub All-append :
    {A : Type 0} (P : A → Type 0) (xs ys : List A) → All P xs → All P ys → All P (xs ++ ys)
All-append P [] ys h k = k
All-append P (x ∷ xs) ys h k = (h.0, All-append P xs ys h.1 k)

module _ (provider : String) (limit : ℕ) where
  -- A known session takes a new state.
  pub insert-Sound :
      (p : PullerState) (session_id : String) (old st : SessionPullState)
      → Sound provider limit p
      → lookup session_id p.sessions ≡ some old
      → SoundSession provider session_id st
      → Sound provider limit (record p { sessions = insert session_id st p.sessions })
  insert-Sound p session_id old st v known s = record {
    each = λ j t h. elim (string_eq.dec j session_id) [
      | yes same ↦
          subst₂ (SoundSession provider) (sym same)
            (ground (arith, lookup-insert j session_id st p.sessions)) s
      | no other ↦ v.each j t (ground (arith, lookup-insert j session_id st p.sessions))
    ];
    rotation = λ i j h. ground (arith, v.rotation i j h, lookup-insert j session_id st p.sessions);
    live =
        All-map p.live_events
          (λ e h. (h.0, ground (arith, h.1, lookup-insert e.session_id session_id st p.sessions)))
          v.live;
    bounded = v.bounded;
  }

pub flight-insert :
    (p : PullerState) (session_id j : String) (st : SessionPullState)
    → flight j (record p { sessions = insert session_id st p.sessions })
      ≡ (if j == session_id then st.in_flight else flight j p)
unfolding flight
flight-insert p session_id j st = ground (arith, lookup-insert j session_id st p.sessions)

pub lookup-map_values {ℓ} :
    {V : Type ℓ} (f : V → V) (k : String) (d : Dict String V)
    → lookup k (map_values f d) ≡ elim (lookup k d) [ none ↦ none | some v ↦ some (f v) ]
unfolding map_values lookup
lookup-map_values f k [] = refl
lookup-map_values f k ((j, v) ∷ d) = ground (arith, lookup-map_values f k d)

pub handoff-SoundSession :
    (provider session_id : String) (config : ProviderSyncConfig) (now_ms : ℕ)
    (st : SessionPullState)
    → SoundSession provider session_id st
    → SoundSession provider session_id (handoff config now_ms st)
unfolding handoff
handoff-SoundSession provider session_id config now_ms st s = record {
  queued = s.queued;
  flying = s.flying;
}

append_events-Of :
    (provider session_id : String) (queue es : List ProviderEvent)
    → All (Of provider session_id) queue
    → All (Of provider session_id) (append_events provider session_id queue es).1
unfolding append_events
append_events-Of provider session_id queue [] h = h
append_events-Of provider session_id queue (e ∷ es) h =
    elim (Bool-cases (e.provider == provider && e.session_id == session_id)) [
      | inl fits ↦ rw fits (
          append_events-Of provider session_id (queue ++ e ∷ []) es (
            All-append (Of provider session_id) queue (e ∷ []) h
              ((ground arith, ground arith), tt)))
      | inr other ↦ rw other h
    ]

settle_page-SoundSession :
    (provider session_id : String) (checked : Result (Unit {0})) (scan : HistoryScan)
    (token : Option String) (st : SessionPullState)
    → SoundSession provider session_id st
    → SoundSession provider session_id (settle_page checked scan token st).1
      × ((settle_page checked scan token st).1.in_flight ≡ st.in_flight)
unfolding settle_page finish_page
settle_page-SoundSession provider session_id (raise e) scan token st s = (s, refl)
settle_page-SoundSession provider session_id (ok x) scan none st s =
    (record { queued = s.queued; flying = s.flying }, refl)
settle_page-SoundSession provider session_id (ok x) scan (some t) st s =
    (record { queued = s.queued; flying = s.flying }, refl)

pub accept_page-SoundSession :
    (provider session_id : String) (scan : HistoryScan) (page : HistoryPage) (st : SessionPullState)
    → SoundSession provider session_id st
    → SoundSession provider session_id (accept_page provider session_id scan page st).1
      × ((accept_page provider session_id scan page st).1.in_flight ≡ st.in_flight)
unfolding accept_page
accept_page-SoundSession provider session_id scan page st s =
    settle_page-SoundSession provider session_id _ scan page.next_page_token _ (record {
      queued = append_events-Of provider session_id st.history_events page.events s.queued;
      flying = s.flying;
    })
