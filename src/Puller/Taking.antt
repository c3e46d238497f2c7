-- ===== src/Puller/Taking.antt =====
-- The rounds of `take_message`, and what it returns.
use openevent_modules_im.Prelude.{
  ℕ, ◌≡◌, ◌+◌, ◌%◌, zero, suc, refl, String, Option, none, some, length, nat_eq, string_eq, if_ind,
  lookup, error, key_error, Result, ok, raise,
}
use openevent_modules_im.Prelude.Actions.{Action, pure, throw, ◌>>=◌, get_state, and_then}
use openevent_modules_im.Models.{ProviderEvent, ProviderSyncConfig}
use openevent_modules_im.Adapter.{ProviderAdapter, Clock}
use openevent_modules_im.Puller.Model.{SessionPullState, PullerState}
use openevent_modules_im.Puller.Pull.{
  outside, element, visit_session, visit_known, visit, rounds, refresh, take_next, take_message,
}
use openevent_modules_im.Puller.Sound.{Sound}
use openevent_modules_im.Puller.Quiet.{Quiet, IsQuiet, refresh-IsQuiet, outside-IsQuiet}
use openevent_modules_im.Puller.Delivery.{Took, Took-Quiet}
use openevent_modules_im.Puller.Offers.{TookAt, nothing, failed}
use openevent_modules_im.Puller.Polling.{poll_session-Took}

module _ {W : Type 0} (adapter : ProviderAdapter W) (now : Clock W)
    (config : ProviderSyncConfig) where
  open adapter use {provider_name}
  open config use {event_queue_size}

  module _ (now_ms index : ℕ) (session_id : String) where
    visit_known-Took :
        (p : PullerState) (w : W)
        → Sound provider_name event_queue_size p
        → TookAt adapter now config p (
            visit_known adapter now config now_ms index session_id
              (lookup session_id p.sessions)
              (p, w))
    unfolding visit_known visit_session
    visit_known-Took p w v = found (lookup session_id p.sessions) refl
      where
        idle :
            (st : SessionPullState) (o : Option ProviderEvent)
            → lookup session_id p.sessions ≡ some st
            → st.in_flight ≡ o
            → TookAt adapter now config p
                (visit_session adapter now config now_ms index session_id st o (p, w))
        idle st (some e) known flying = nothing adapter now config p w v
        idle st none known free =
            poll_session-Took adapter now config now_ms index session_id p st w
              (record { sound = v; known = known; free = free })

        found :
            (o : Option SessionPullState)
            → lookup session_id p.sessions ≡ o
            → TookAt adapter now config p
                (visit_known adapter now config now_ms index session_id o (p, w))
        found none missing = failed adapter now config p _ p w v
        found (some st) known = idle st st.in_flight known refl

  visit-Took :
      (now_ms offset : ℕ) (p : PullerState) (w : W)
      → Sound provider_name event_queue_size p
      → TookAt adapter now config p (visit adapter now config now_ms offset (p, w))
  unfolding visit
  visit-Took now_ms offset p w v = go (element p.session_order index)
    where
      index : ℕ
      index = (p.session_cursor + offset) % length p.session_order

      go :
          (o : Option String)
          → TookAt adapter now config p (
              (elim o as (λ x. Action (PullerState × W) (Option ProviderEvent)) [
                | none ↦ throw (error key_error)
                | some session_id ↦
                    visit_known adapter now config now_ms index session_id
                      (lookup session_id p.sessions)
              ])
                (p, w))
      go none = failed adapter now config p _ p w v
      go (some session_id) = visit_known-Took now_ms index session_id p w v

  rounds-Took :
      (left offset now_ms : ℕ) (p : PullerState) (w : W)
      → Sound provider_name event_queue_size p
      → TookAt adapter now config p (rounds adapter now config left offset now_ms (p, w))
  unfolding rounds
  rounds-Took zero offset now_ms p w v = nothing adapter now config p w v
  rounds-Took (suc left) offset now_ms p w v =
      let (r, (q, w')) = visit adapter now config now_ms offset (p, w) in
      next r q w' (visit-Took now_ms offset p w v) (rounds-Took left (offset + 1) now_ms q w')
    where
      next :
          (r : Result (Option ProviderEvent)) (q : PullerState) (w' : W)
          → Took provider_name event_queue_size p r q
          → (Sound provider_name event_queue_size q
              → TookAt adapter now config q
                  (rounds adapter now config left (offset + 1) now_ms (q, w')))
          → TookAt adapter now config p (
              and_then r
                (λ taken. elim taken [
                  | some event ↦ pure (some event)
                  | none ↦ rounds adapter now config left (offset + 1) now_ms
                ])
                (q, w'))
      next (raise e) q w' t more = failed adapter now config p e q w' t.sound
      next (ok (some e)) q w' t more = t
      next (ok none) q w' t more =
          Took-Quiet provider_name event_queue_size p q _ _
            (record { sound = λ v. t.sound; flights = t.taken none refl }) (more t.sound)

  -- A step that keeps the invariant and what is in flight, before one that takes an event.
  then_Took :
      {A : Type 0} (m : Action (PullerState × W) A)
      (f : A → Action (PullerState × W) (Option ProviderEvent)) (p : PullerState) (w : W)
      → IsQuiet adapter now config m
      → Sound provider_name event_queue_size p
      → ((a : A) (q : PullerState) (w' : W)
          → Sound provider_name event_queue_size q
          → TookAt adapter now config q (f a (q, w')))
      → TookAt adapter now config p ((m >>= f) (p, w))
  then_Took {A} m f p w quiet v more = let (r, (q, w')) = m (p, w) in go r q w' (quiet p w)
    where
      go :
          (r : Result A) (q : PullerState) (w' : W)
          → Quiet provider_name event_queue_size p q
          → TookAt adapter now config p (and_then r f (q, w'))
      go (raise e) q w' k = failed adapter now config p e q w' (k.sound v)
      go (ok a) q w' k =
          Took-Quiet provider_name event_queue_size p q _ _ k (more a q w' (k.sound v))

  take_next-Took :
      (p : PullerState) (w : W)
      → Sound provider_name event_queue_size p
      → TookAt adapter now config p (take_next adapter now config (p, w))
  unfolding take_next
  take_next-Took p w v =
      then_Took (outside now)
        (λ now_ms.
          get_state >>= λ s. rounds adapter now config (length (s.0).session_order) 0 now_ms)
        p w (outside-IsQuiet adapter now config now) v
        λ now_ms q w' u. rounds-Took (length q.session_order) 0 now_ms q w' u

  -- `take_message` keeps the invariant of the puller, also where it raises. If it returns an event,
  -- that is an event of the provider, of a session that had no event in flight; the event is then in
  -- flight in its session, and every other session keeps what it had in flight. If it returns
  -- nothing, nothing in flight changes.
  pub take_message-Took :
      (p : PullerState) (w : W)
      → Sound provider_name event_queue_size p
      → TookAt adapter now config p (take_message adapter now config (p, w))
  unfolding take_message
  take_message-Took p w v =
      if_ind
        (λ (m : Action (PullerState × W) (Option ProviderEvent)).
          TookAt adapter now config p (m (p, w)))
        p.started _ _
        (λ yes.
          then_Took (refresh adapter now config) (λ x. take_next adapter now config) p w
            (refresh-IsQuiet adapter now config) v (λ x. take_next-Took))
        (λ no. failed adapter now config p _ p w v)
