-- ===== src/Puller/Acknowledging.antt =====
-- What `acknowledge` accepts, and what it leaves.
use openevent_modules_im.Prelude.{
  ℕ, ◌≡◌, ◌≢◌, inl, inr, refl, sym, ◌∙◌, subst, String, none, some, ==_refl, if◌then◌else◌,
  string_eq, arith, Option-cases, lookup, insert, lookup-insert, ok, ltb,
}
use openevent_modules_im.Models.{ProviderEvent, ProviderSyncConfig}
use openevent_modules_im.Adapter.{ProviderAdapter, Clock}
use openevent_modules_im.Puller.Model.{SessionPullState, PullerState, same_key, acknowledge}
use openevent_modules_im.Puller.Sound.{flight, Sound, insert-Sound}
use openevent_modules_im.Puller.Pull.{take_message}
use openevent_modules_im.Puller.Delivery.{Took}
use openevent_modules_im.Puller.Taking.{take_message-Took}

-- The session state that `acknowledge` puts.
abbrev acknowledged : ProviderEvent → SessionPullState → SessionPullState
acknowledged e st = record st {
  confirmed_event_ms = elim st.confirmed_event_ms [
    | none ↦ some e.event_ms
    | some c ↦ if ltb c e.event_ms then some e.event_ms else some c
  ];
  in_flight = none;
}

-- The acknowledged event was the one in flight, by its message id, and no longer is.
pub record Acknowledged (provider : String) (limit : ℕ) (e : ProviderEvent) (p q : PullerState)
    : Type 0 where
  pub flew : ProviderEvent
  pub in_flight : flight e.session_id p ≡ some flew
  pub message : flew.provider_message_id ≡ e.provider_message_id
  pub sound : Sound provider limit q
  pub landed : flight e.session_id q ≡ none
  pub others : (j : String) → j ≢ e.session_id → flight j q ≡ flight j p

module _ (provider : String) (limit : ℕ) (p : PullerState) (e : ProviderEvent) where
  -- If `acknowledge` accepts an event, the event in flight in its session has its message id; then
  -- the session has none in flight, the other sessions keep theirs, and the invariant holds.
  pub acknowledge-Acknowledged :
      {q : PullerState}
      → Sound provider limit p
      → acknowledge provider e p ≡ ok q
      → Acknowledged provider limit e p q
  unfolding acknowledge flight same_key
  acknowledge-Acknowledged {q} v h = elim (Option-cases (lookup e.session_id p.sessions)) [
    | inl missing ↦ absurd (ground arith)
    | inr (st, known) ↦ elim (Option-cases st.in_flight) [
      | inl idle ↦ absurd (ground arith)
      | inr (flew, flying) ↦
          let done : record p { sessions = insert e.session_id (acknowledged e st) p.sessions }
              ≡ q =
            ground arith in
          let s = v.each e.session_id st known in
          record {
            flew = flew;
            in_flight = ground arith;
            message = ground arith;
            sound = subst (Sound provider limit) done (
                insert-Sound provider limit p e.session_id st (acknowledged e st) v known
                  (record { queued = s.queued; flying = λ f k. absurd (ground arith) }));
            landed =
                ground
                  (arith, lookup-insert e.session_id e.session_id (acknowledged e st) p.sessions);
            others = λ j other.
                ground (arith, lookup-insert j e.session_id (acknowledged e st) p.sessions);
          }
    ]
  ]

  -- The event that is in flight in its session, of the puller's provider, is accepted.
  acknowledge-in_flight :
      e.provider ≡ provider
      → flight e.session_id p ≡ some e
      → (q : PullerState) × (acknowledge provider e p ≡ ok q)
  unfolding acknowledge flight same_key
  acknowledge-in_flight ours flying = elim (Option-cases (lookup e.session_id p.sessions)) [
    | inl missing ↦ absurd (ground arith)
    | inr (st, known) ↦ (
      record p { sessions = insert e.session_id (acknowledged e st) p.sessions },
      ground (
        arith,
        ==_refl e.provider,
        ==_refl e.session_id,
        ==_refl e.provider_message_id,
        ==_refl provider,
      ),
    )
  ]

module _ {W : Type 0} (adapter : ProviderAdapter W) (now : Clock W)
    (config : ProviderSyncConfig) where
  open adapter use {provider_name}
  open config use {event_queue_size}

  -- An event that `take_message` returns can be acknowledged: `acknowledge` accepts it, the invariant
  -- holds afterwards, and every session has in flight what it had before the event was taken.
  pub take_message-acknowledge :
      (p q : PullerState) (w w' : W) (e : ProviderEvent)
      → Sound provider_name event_queue_size p
      → take_message adapter now config (p, w) ≡ (ok (some e), (q, w'))
      → (r : PullerState) × (acknowledge provider_name e q ≡ ok r)
        × Sound provider_name event_queue_size r
        × ((j : String) → flight j r ≡ flight j p)
  take_message-acknowledge p q w w' e v h =
      let t =
        subst (λ x. Took provider_name event_queue_size p x.0 x.1.0) h
          (take_message-Took adapter now config p w v) in
      let (ours, free, flying, others) = t.taken (some e) refl in
      let (r, accepted) = acknowledge-in_flight provider_name event_queue_size q e ours flying in
      let a = acknowledge-Acknowledged provider_name event_queue_size q e t.sound accepted in
      (
        r,
        accepted,
        a.sound,
        λ j. elim (string_eq.dec j e.session_id) [
          | yes same ↦ subst (λ i. flight i r ≡ flight i p) (sym same) (a.landed ∙ sym free)
          | no other ↦ a.others j other ∙ others j other
        ],
      )
