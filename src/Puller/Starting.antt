-- ===== src/Puller/Starting.antt =====
-- The puller that `start` leaves.
use openevent_modules_im.Prelude.{
  ℕ, zero, suc, ◌≡◌, refl, sym, ◌∙◌, subst, String, Bool, true, false, ◌||◌, Option, some, List, [],
  ◌∷◌, map, ◌==◌, contains, length, if_ind, leb, string_eq, arith, Dict, lookup, is_some, Result,
  ok, raise,
}
use openevent_modules_im.Prelude.Actions.{Action, and_then, ◌>>=◌}
use openevent_modules_im.Models.{ProviderSyncConfig}
use openevent_modules_im.Adapter.{ProviderAdapter, Clock}
use openevent_modules_im.Puller.Model.{
  SessionPullState, PullerState, fresh_puller, new_session, new_sessions, insert_str, sorted_str,
}
use openevent_modules_im.Puller.Pull.{element, outside, update_puller, start}
use openevent_modules_im.Puller.Sound.{SoundSession, Sound}

element-contains :
    (xs : List String) (i : ℕ) (j : String) → element xs i ≡ some j → contains xs j ≡ true
unfolding element
element-contains [] i j h = absurd (ground arith)
element-contains (x ∷ xs) zero j h = ground arith
element-contains (x ∷ xs) (suc i) j h = ground (arith, element-contains xs i j h)

contains-insert_str :
    (s j : String) (xs : List String) → contains (insert_str s xs) j ≡ (j == s || contains xs j)
unfolding insert_str
contains-insert_str s j [] = refl
contains-insert_str s j (x ∷ xs) = ground (arith, contains-insert_str s j xs)

contains-sorted_str : (j : String) (xs : List String) → contains (sorted_str xs) j ≡ contains xs j
unfolding sorted_str
contains-sorted_str j [] = refl
contains-sorted_str j (x ∷ xs) =
    ground (arith, contains-insert_str x j (sorted_str xs), contains-sorted_str j xs)

contains-keys :
    (j : String) (d : Dict String SessionPullState)
    → contains (map (λ e. e.0) d) j ≡ is_some (lookup j d)
unfolding lookup
contains-keys j [] = refl
contains-keys j ((k, st) ∷ d) = ground (arith, contains-keys j d)

module _ (config : ProviderSyncConfig) (now_ms : ℕ) where
  new_session-SoundSession :
      (provider j : String) (c : Option ℕ) → SoundSession provider j (new_session config now_ms c)
  unfolding new_session
  new_session-SoundSession provider j c = record {
    queued = tt;
    flying = λ e h. absurd (ground arith);
  }

  new_sessions-SoundSession :
      (provider j : String) (st : SessionPullState) (d : Dict String (Option ℕ))
      → lookup j (new_sessions config now_ms d) ≡ some st
      → SoundSession provider j st
  unfolding new_sessions lookup
  new_sessions-SoundSession provider j st [] h = absurd (ground arith)
  new_sessions-SoundSession provider j st ((k, c) ∷ d) h = elim (string_eq.dec j k) [
    | yes same ↦
        let e : new_session config now_ms c ≡ st = ground arith in
        subst (SoundSession provider j) e (new_session-SoundSession provider j c)
    | no other ↦ new_sessions-SoundSession provider j st d (ground arith)
  ]

fresh-Sound : (provider : String) (limit : ℕ) → Sound provider limit fresh_puller
unfolding element lookup
fresh-Sound provider limit = record {
  each = λ j st h. absurd (ground arith);
  rotation = λ i j h. absurd (ground arith);
  live = tt;
  bounded = omega arith;
}

-- Starting one, with its sessions.
abbrev with_sessions : ProviderSyncConfig → ℕ → Dict String (Option ℕ) → PullerState → PullerState
with_sessions config now_ms d p =
    let sessions = new_sessions config now_ms d in
    record p { sessions = sessions; session_order = sorted_str (map (λ e. e.0) sessions) }

with_sessions-Sound :
    (provider : String) (limit : ℕ) (config : ProviderSyncConfig) (now_ms generation : ℕ)
    (on : Bool) (d : Dict String (Option ℕ))
    → Sound provider limit (record (with_sessions config now_ms d fresh_puller) {
      stream_generation = generation;
      started = on;
    })
with_sessions-Sound provider limit config now_ms generation on d = record {
  each = λ j st h. new_sessions-SoundSession config now_ms provider j st d h;
  rotation = λ i j h.
      let d' = new_sessions config now_ms d in
      sym (contains-keys j d')
      ∙ sym (contains-sorted_str j (map (λ e. e.0) d'))
      ∙ element-contains (sorted_str (map (λ e. e.0) d')) i j h;
  live = tt;
  bounded = omega arith;
}

module _ {W : Type 0} (adapter : ProviderAdapter W) (now : Clock W)
    (config : ProviderSyncConfig) where
  -- A new puller that `start` is called on satisfies the invariant of the puller, whatever the
  -- adapter and the clock do, and also where `start` raises.
  pub start-Sound :
      (d : Dict String (Option ℕ)) (w : W)
      → Sound adapter.provider_name config.event_queue_size
          (start adapter now config d (fresh_puller, w)).1.0
  unfolding start
  start-Sound d w =
      if_ind
        (λ (m : Action (PullerState × W) (Unit {0})).
          Sound provider limit (m (fresh_puller, w)).1.0)
        (leb (length d) 0) _ _ (λ empty. fresh-Sound provider limit)
        λ some_session. streaming (adapter.start_event_stream (map (λ e. e.0) d) w).0 _
    where
      provider : String
      provider = adapter.provider_name

      limit : ℕ
      limit = config.event_queue_size

      finish : ℕ → Action (PullerState × W) (Unit {0})
      finish generation =
          update_puller (λ p. record p { stream_generation = generation; started = true })

      timed : ℕ → Action (PullerState × W) (Unit {0})
      timed now_ms = update_puller (with_sessions config now_ms d) >>= λ x.
          outside adapter.event_stream_generation >>= finish

      generated :
          (now_ms : ℕ) (r : Result ℕ) (w : W)
          → Sound provider limit
              (and_then {S = PullerState × W} r finish
                (with_sessions config now_ms d fresh_puller, w)).1.0
      generated now_ms (ok generation) w =
          with_sessions-Sound provider limit config now_ms generation true d
      generated now_ms (raise e) w = with_sessions-Sound provider limit config now_ms 0 false d

      clocked :
          (r : Result ℕ) (w : W)
          → Sound provider limit (and_then {S = PullerState × W} r timed (fresh_puller, w)).1.0
      clocked (ok now_ms) w =
          let (r, w') = adapter.event_stream_generation w in generated now_ms r w'
      clocked (raise e) w = fresh-Sound provider limit

      streaming :
          (r : Result (Unit {0})) (w : W)
          → Sound provider limit
              (and_then {S = PullerState × W} r (λ x. outside now >>= timed) (fresh_puller, w)).1.0
      streaming (ok x) w = let (r, w') = now w in clocked r w'
      streaming (raise e) w = fresh-Sound provider limit
