-- ===== src/Puller/Quiet.antt =====
-- What a puller does before it takes an event: the invariant, and the events in flight.
use openevent_modules_im.Prelude.{
  ℕ, ◌≡◌, inl, inr, refl, ◌∙◌, subst, String, true, false, ◌&&◌, Option, none, some, [], ◌∷◌, ◌++◌,
  ◌==◌, length, length-append, if◌then◌else◌, nat_eq, string_eq, arith, if_ind, Option-cases,
  lookup, is_some, Result, ok, raise, leb, ltb,
}
use openevent_modules_im.Prelude.Actions.{Action, pure, throw, ◌>>=◌, ◌>>◌, and_then}
use openevent_modules_im.Models.{ProviderEvent, ProviderSyncConfig}
use openevent_modules_im.Adapter.{ProviderAdapter, Clock}
use openevent_modules_im.Puller.Model.{SessionPullState, PullerState, handoff, map_values, runtime}
use openevent_modules_im.Puller.Pull.{
  outside, update_puller, raise_stream_error, schedule_reconnect_handoff, collect_live_event,
  refresh,
}
use openevent_modules_im.Puller.Sound.{
  flight, SoundSession, Sound, All-append, All-map, lookup-map_values, handoff-SoundSession,
}

pub record Quiet (provider : String) (limit : ℕ) (p q : PullerState) : Type 0 where
  pub sound : Sound provider limit p → Sound provider limit q
  pub flights : (session_id : String) → flight session_id q ≡ flight session_id p

Quiet-refl : (provider : String) (limit : ℕ) (p : PullerState) → Quiet provider limit p p
Quiet-refl provider limit p = record { sound = λ v. v; flights = λ j. refl }

Quiet-trans :
    (provider : String) (limit : ℕ) (p q r : PullerState)
    → Quiet provider limit p q
    → Quiet provider limit q r
    → Quiet provider limit p r
Quiet-trans provider limit p q r a b = record {
  sound = λ v. b.sound (a.sound v);
  flights = λ j. b.flights j ∙ a.flights j;
}

module _ {W : Type 0} (adapter : ProviderAdapter W) (now : Clock W)
    (config : ProviderSyncConfig) where
  abbrev pub Still : PullerState → PullerState → Type 0
  Still = Quiet adapter.provider_name config.event_queue_size

  abbrev pub IsQuiet : {A : Type 0} → Action (PullerState × W) A → Type 0
  IsQuiet m = (p : PullerState) (w : W) → Still p (m (p, w)).1.0

  and_then-Quiet :
      {A B : Type 0} (p : PullerState) (r : Result A) (f : A → Action (PullerState × W) B)
      (q : PullerState) (w : W)
      → Still p q
      → ((a : A) → IsQuiet (f a))
      → Still p (and_then r f (q, w)).1.0
  and_then-Quiet p (ok a) f q w first rest = Quiet-trans _ _ p q _ first (rest a q w)
  and_then-Quiet p (raise e) f q w first rest = first

  >>=-IsQuiet :
      {A B : Type 0} (m : Action (PullerState × W) A) (f : A → Action (PullerState × W) B)
      → IsQuiet m
      → ((a : A) → IsQuiet (f a))
      → IsQuiet (m >>= f)
  >>=-IsQuiet m f h k p w = let (r, (q, w')) = m (p, w) in and_then-Quiet p r f q w' (h p w) k

  pub outside-IsQuiet : {A : Type 0} (m : Action W A) → IsQuiet (outside m)
  outside-IsQuiet m p w = Quiet-refl _ _ p

  raise_stream_error-IsQuiet : IsQuiet (raise_stream_error adapter now config)
  unfolding raise_stream_error
  raise_stream_error-IsQuiet =
      >>=-IsQuiet (outside adapter.event_stream_error) _
        (outside-IsQuiet adapter.event_stream_error)
        (elim [ none ↦ λ p w. Quiet-refl _ _ p | some e ↦ λ p w. Quiet-refl _ _ p ])

  handed :
      (now_ms : ℕ) {p : PullerState}
      → Sound adapter.provider_name config.event_queue_size p
      → (j : String) (t : SessionPullState)
      → lookup j (map_values (handoff config now_ms) p.sessions) ≡ some t
      → SoundSession adapter.provider_name j t
  handed now_ms {p} v j t h = elim (Option-cases (lookup j p.sessions)) [
    | inl missing ↦ absurd (ground (arith, lookup-map_values (handoff config now_ms) j p.sessions))
    | inr (old, known) ↦
        let e : handoff config now_ms old ≡ t =
          ground (arith, lookup-map_values (handoff config now_ms) j p.sessions) in
        subst (SoundSession adapter.provider_name j) e
          (handoff-SoundSession adapter.provider_name j config now_ms old (v.each j old known))
  ]

  handoff_quiet :
      (p : PullerState) (generation now_ms : ℕ)
      → Still p (record p {
        stream_generation = generation;
        sessions = map_values (handoff config now_ms) p.sessions;
      })
  unfolding flight handoff
  handoff_quiet p generation now_ms = record {
    sound = λ v. record {
      each = handed now_ms v;
      rotation = λ i j h.
          ground (arith, v.rotation i j h, lookup-map_values (handoff config now_ms) j p.sessions);
      live =
          All-map p.live_events
            (λ e h. (
              h.0,
              ground
                  (arith, h.1, lookup-map_values (handoff config now_ms) e.session_id p.sessions),
            ))
            v.live;
      bounded = v.bounded;
    };
    flights = λ j. ground (arith, lookup-map_values (handoff config now_ms) j p.sessions);
  }

  generation_quiet :
      (p : PullerState) (generation : ℕ) → Still p (record p { stream_generation = generation })
  unfolding flight
  generation_quiet p generation = record {
    sound =
        λ v. record { each = v.each; rotation = v.rotation; live = v.live; bounded = v.bounded };
    flights = λ j. refl;
  }

  abbrev on_reconnect : ℕ → Action (PullerState × W) (Unit {0})
  on_reconnect generation = do
    update_puller (λ p. record p { stream_generation = generation })
    now_ms ← outside now
    update_puller (λ p. record p { sessions = map_values (handoff config now_ms) p.sessions })

  reconnected :
      (p : PullerState) (generation : ℕ) (w : W) → Still p (on_reconnect generation (p, w)).1.0
  reconnected p generation w = after (now w).0 (now w).1
    where
      after :
          (r : Result ℕ) (w' : W)
          → Still p
              (and_then r
                (λ now_ms.
                  update_puller
                    (λ p. record p { sessions = map_values (handoff config now_ms) p.sessions }))
                (record p { stream_generation = generation }, w')).1.0
      after (ok now_ms) w' = handoff_quiet p generation now_ms
      after (raise e) w' = generation_quiet p generation

  schedule_reconnect_handoff-IsQuiet : IsQuiet (schedule_reconnect_handoff adapter now config)
  unfolding schedule_reconnect_handoff
  schedule_reconnect_handoff-IsQuiet =
      >>=-IsQuiet (outside adapter.event_stream_generation) _
        (outside-IsQuiet adapter.event_stream_generation)
        λ generation p w.
          if_ind (λ (m : Action (PullerState × W) (Unit {0})). Still p (m (p, w)).1.0)
            (ltb generation p.stream_generation) _ _ (λ back. Quiet-refl _ _ p)
            λ ahead.
              if_ind (λ (m : Action (PullerState × W) (Unit {0})). Still p (m (p, w)).1.0)
                (generation == p.stream_generation) _ _ (λ same. Quiet-refl _ _ p)
                (λ newer. reconnected p generation w)

  live_quiet :
      (p : PullerState) (e : ProviderEvent)
      → leb config.event_queue_size (length p.live_events) ≡ false
      → e.provider ≡ adapter.provider_name
      → is_some (lookup e.session_id p.sessions) ≡ true
      → Still p (record p { live_events = p.live_events ++ e ∷ [] })
  unfolding flight
  live_quiet p e room ours known = record {
    sound = λ v. record {
      each = v.each;
      rotation = v.rotation;
      live = All-append _ p.live_events (e ∷ []) v.live ((ours, known), tt);
      bounded = ground (arith, length-append p.live_events (e ∷ []), v.bounded);
    };
    flights = λ j. refl;
  }

  abbrev accept : PullerState → Option ProviderEvent → Action (PullerState × W) (Unit {0})
  accept p taken = elim taken [
    | none ↦ pure tt
    | some event ↦
        if event.provider == adapter.provider_name && is_some (lookup event.session_id p.sessions)
        then update_puller (λ p. record p { live_events = p.live_events ++ event ∷ [] })
        else throw runtime
  ]

  collect_live_event-IsQuiet : IsQuiet (collect_live_event adapter now config)
  unfolding collect_live_event
  collect_live_event-IsQuiet p w =
      if_ind (λ (m : Action (PullerState × W) (Unit {0})). Still p (m (p, w)).1.0)
        (leb config.event_queue_size (length p.live_events)) _ _ (λ full. Quiet-refl _ _ p)
        λ room. queued room (adapter.take_event w).0 (adapter.take_event w).1
    where
      queued :
          leb config.event_queue_size (length p.live_events) ≡ false
          → (r : Result (Option ProviderEvent)) (w' : W)
          → Still p (and_then r (accept p) (p, w')).1.0
      queued room (raise e) w' = Quiet-refl _ _ p
      queued room (ok none) w' = Quiet-refl _ _ p
      queued room (ok (some event)) w' =
          if_ind (λ (m : Action (PullerState × W) (Unit {0})). Still p (m (p, w')).1.0)
            (event.provider == adapter.provider_name
              && is_some (lookup event.session_id p.sessions))
            _ _ (λ fits. live_quiet p event room (ground arith) (ground arith))
            (λ strange. Quiet-refl _ _ p)

  both-IsQuiet :
      (m n : Action (PullerState × W) (Unit {0})) → IsQuiet m → IsQuiet n → IsQuiet (m >> n)
  both-IsQuiet m n a b = >>=-IsQuiet m (λ x. n) a (λ x. b)

  pub refresh-IsQuiet : IsQuiet (refresh adapter now config)
  unfolding refresh
  refresh-IsQuiet = both-IsQuiet watch _ raise_stream_error-IsQuiet (
      both-IsQuiet reconnect _ schedule_reconnect_handoff-IsQuiet (
        both-IsQuiet (collect_live_event adapter now config) _ collect_live_event-IsQuiet (
          both-IsQuiet watch reconnect raise_stream_error-IsQuiet
            schedule_reconnect_handoff-IsQuiet)))
    where
      watch : Action (PullerState × W) (Unit {0})
      watch = raise_stream_error adapter now config

      reconnect : Action (PullerState × W) (Unit {0})
      reconnect = schedule_reconnect_handoff adapter now config
