-- ===== src/Puller/Delivery.antt =====
-- What delivering an event does to what is in flight.
use openevent_modules_im.Prelude.{
  ℕ, ◌≡◌, ◌≢◌, ◌≤◌, inl, inr, sym, ◌∙◌, subst, String, true, Option, none, some, List, [], ◌∷◌,
  ◌==◌, length, if◌then◌else◌, nat_eq, string_eq, arith, Bool-cases, lookup, insert, is_some, All,
  Result, ok, ok_injective, some_injective,
}
use openevent_modules_im.Models.{ProviderEvent}
use openevent_modules_im.Puller.Model.{SessionPullState, PullerState, take_live, deliver}
use openevent_modules_im.Puller.Sound.{Of, flight, Sound, insert-Sound, flight-insert}
use openevent_modules_im.Puller.Quiet.{Quiet}

-- No event, and nothing in flight changes; or an event of the provider, whose session had none in
-- flight and now has this one, while the other sessions keep theirs.
abbrev pub Taken : String → Option ProviderEvent → PullerState → PullerState → Type 0
Taken provider none p q = (j : String) → flight j q ≡ flight j p
Taken provider (some e) p q =
    (e.provider ≡ provider)
    × (flight e.session_id p ≡ none)
    × (flight e.session_id q ≡ some e)
    × ((j : String) → j ≢ e.session_id → flight j q ≡ flight j p)

-- What a call that started at `p` left behind.
pub record Took (provider : String) (limit : ℕ) (p : PullerState)
    (r : Result (Option ProviderEvent)) (q : PullerState) : Type 0 where
  pub sound : Sound provider limit q
  pub taken : (o : Option ProviderEvent) → r ≡ ok o → Taken provider o p q

module _ (provider : String) (limit : ℕ) where
  Taken-Quiet :
      (o : Option ProviderEvent) (p q r : PullerState)
      → Quiet provider limit p q
      → Taken provider o q r
      → Taken provider o p r
  Taken-Quiet none p q r quiet t = λ j. t j ∙ quiet.flights j
  Taken-Quiet (some e) p q r quiet (ours, free, flying, others) = (
    ours,
    sym (quiet.flights e.session_id) ∙ free,
    flying,
    λ j other. others j other ∙ quiet.flights j,
  )

  pub Took-Quiet :
      (p q : PullerState) (res : Result (Option ProviderEvent)) (r : PullerState)
      → Quiet provider limit p q
      → Took provider limit q res r
      → Took provider limit p res r
  Took-Quiet p q res r quiet t = record {
    sound = t.sound;
    taken = λ o e. Taken-Quiet o p q r quiet (t.taken o e);
  }

  -- A session with nothing in flight, and the event that it is about to deliver.
  pub record Delivers (p : PullerState) (session_id : String) (st : SessionPullState)
      (e : ProviderEvent) (live : List ProviderEvent) : Type 0 where
    pub sound : Sound provider limit p
    pub old : SessionPullState
    pub known : lookup session_id p.sessions ≡ some old
    pub free : old.in_flight ≡ none
    pub queued : All (Of provider session_id) st.history_events
    pub its : Of provider session_id e
    pub left :
        All (λ x. (x.provider ≡ provider) × (is_some (lookup x.session_id p.sessions) ≡ true)) live
    pub bounded : length live ≤ limit

  pub deliver-Took :
      (index : ℕ) (p : PullerState) (session_id : String) (st : SessionPullState)
      (e : ProviderEvent) (live : List ProviderEvent)
      → Delivers p session_id st e live
      → Took provider limit p
          (ok (some e))
          (deliver index session_id st e (record p { live_events = live }))
  unfolding deliver flight
  deliver-Took index p session_id st e live d = record {
    sound = record {
      each = sound.each;
      rotation = sound.rotation;
      live = sound.live;
      bounded = sound.bounded;
    };
    taken = λ o h. subst (λ a. Taken provider a p q) (ok_injective h) took;
  }
    where
      trimmed : Sound provider limit (record p { live_events = live })
      trimmed = record {
        each = d.sound.each;
        rotation = d.sound.rotation;
        live = d.left;
        bounded = d.bounded;
      }

      st' : SessionPullState
      st' = record st { in_flight = some e }

      q : PullerState
      q = deliver index session_id st e (record p { live_events = live })

      sound :
          Sound provider limit
            (record p { live_events = live; sessions = insert session_id st' p.sessions })
      sound =
          insert-Sound provider limit (record p { live_events = live }) session_id d.old st' trimmed
            d.known
            (record {
              queued = d.queued;
              flying = λ x h. subst (Of provider session_id) (some_injective h) d.its;
            })

      at : (j : String) → flight j q ≡ (if j == session_id then some e else flight j p)
      at j = flight-insert p session_id j st'

      took : Taken provider (some e) p q
      took = (
        d.its.0,
        ground (arith, d.its, d.known, d.free),
        ground (arith, d.its, at e.session_id),
        λ j other. ground (arith, d.its, at j),
      )

  -- The queue of live events, without the one that is taken.
  pub take_live_lem :
      (Q : ProviderEvent → Type 0) (session_id : String) (es : List ProviderEvent)
      {e : ProviderEvent}
      → All Q es
      → (take_live session_id es).0 ≡ some e
      → Q e
        × (e.session_id ≡ session_id)
        × All Q (take_live session_id es).1
        × (length (take_live session_id es).1 ≤ length es)
  unfolding take_live
  take_live_lem Q session_id [] h found = absurd (ground arith)
  take_live_lem Q session_id (x ∷ xs) {e} h found = elim (Bool-cases (x.session_id == session_id)) [
    | inl here ↦
        let same : x ≡ e = ground arith in
        rw here (subst Q same h.0, ground arith, h.1, omega arith)
    | inr there ↦
        let (q, its, rest, shorter) = take_live_lem Q session_id xs h.1 (ground arith) in
        rw there (q, its, (h.0, rest), omega (arith, shorter))
  ]
