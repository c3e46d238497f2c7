-- ===== src/Client/Published.antt =====
-- What a whole `_publish` says about the log of a `Service`.
use openevent_modules_im.Prelude.{
  ℕ, ◌≤◌, ◌<◌, ◌≡◌, ◌⊎◌, refl, sym, ◌∙◌, subst, inl, inr, Bool, true, false, Option, none, some, Eq,
  nat_eq, list_eq, arith, Member, Result, ok, raise, Error, error, runtime_error, Class, rpc_error,
  StatusCode, unauthenticated, permission_denied, not_found, invalid_argument, resource_exhausted,
  error_class, class_code,
}
use openevent_modules_im.Prelude.Actions.{Action, throw, of_result, and_then, try_except, ◌>>=◌}
use openevent_modules_im.OpenEvent.{Message, OpenEventClient}
use openevent_modules_im.Sdk.Normalizer.{require_uint64}
use openevent_modules_im.Client.Publish.{
  Outgoing, uint64, own_status_code, is_never_committed, failed_from, get_pre_publish_max_seq,
  publish_once, publish_error, publish,
}
use openevent_modules_im.Client.Service.{
  Service, Refuses, no_token, no_permission, no_target, bad_request, no_room,
}
use openevent_modules_im.Client.Finding.{uint64-ok}
use openevent_modules_im.Client.Committed.{Outcome, Sent, same-NotCommitted, publish_error-Outcome}

uint64-raise :
    (n : ℕ) (positive : Bool) (e : Error)
    → uint64 n positive ≡ raise e
    → ¬ (is_never_committed (own_status_code e) ≡ true)
unfolding uint64 require_uint64 is_never_committed own_status_code class_code error_class
uint64-raise n positive e h = grind arith

class-Refuses :
    (c : Class)
    → is_never_committed (elim (class_code c) [ none ↦ none | some code ↦ code ]) ≡ true
    → (code : StatusCode) × (c ≡ rpc_error (some code)) × Refuses code
unfolding is_never_committed class_code
class-Refuses (rpc_error (some unauthenticated)) h = (_, refl, no_token)
class-Refuses (rpc_error (some permission_denied)) h = (_, refl, no_permission)
class-Refuses (rpc_error (some not_found)) h = (_, refl, no_target)
class-Refuses (rpc_error (some invalid_argument)) h = (_, refl, bad_request)
class-Refuses (rpc_error (some resource_exhausted)) h = (_, refl, no_room)
class-Refuses c h = absurd (cc)

never_committed-Refuses :
    (e : Error)
    → is_never_committed (own_status_code e) ≡ true
    → (code : StatusCode) × (error_class e ≡ rpc_error (some code)) × Refuses code
unfolding own_status_code
never_committed-Refuses e h = class-Refuses (error_class e) h

module _ {W Bytes : Type 0} ⦃eq : Eq Bytes⦄ (out : Outgoing Bytes)
    (openevent : OpenEventClient W Bytes) where
  module _ (service : Service openevent out.principal) where
    open service use {log, max_seq}

    abbrev answer : W → Result (Option ℕ) × W
    answer =
        openevent.publish_auto_seq out.principal out.token out.channel_id out.payload out.recipients

    numbered-Outcome :
        (before w : W) (n seq : ℕ) (r : Result ℕ)
        → uint64 seq true ≡ r
        → (answer w).0 ≡ ok (some seq)
        → n ≤ max_seq w
        → Sent out openevent service before (answer w).1 n
        → Outcome out openevent service before
            (try_except (of_result r) (publish_error out openevent n) (answer w).1)
    numbered-Outcome before w n seq (ok seq') valid answered known sent =
        let (later, member) =
          service.publish_ok out.token out.channel_id out.payload out.recipients w seq answered in
        record {
          message = record {
            seq = seq;
            channel_id = out.channel_id;
            principal = out.principal;
            recipients = out.recipients;
            payload = out.payload;
          };
          published = member;
          asked = (refl, refl, refl, refl);
          numbered = sym (uint64-ok seq true seq' valid);
          fresh =
              λ m old. omega (arith, sent.old m old, later, known, uint64-ok seq true seq' valid);
          only = λ m here. elim (sent.new m here) [
            | inl old ↦ inl old
            | inr new ↦ inr (sent.single m _ here member new (omega (arith, later, known)))
          ];
        }
    numbered-Outcome before w n seq (raise e) valid answered known sent =
        publish_error-Outcome out openevent service before (answer w).1 n e sent
          λ never. absurd (uint64-raise seq true e valid never)

    -- The answer of PublishAutoSeq, and the `except` where there is no valid number in it.
    answered-Outcome :
        (before w : W) (n : ℕ) (r : Result (Option ℕ))
        → (answer w).0 ≡ r
        → log w ≡ log before
        → n ≤ max_seq w
        → Sent out openevent service before (answer w).1 n
        → Outcome out openevent service before (
            try_except
              (and_then r (λ response. elim response [
                | none ↦ throw (error runtime_error)
                | some seq ↦ of_result (uint64 seq true)
              ]))
              (publish_error out openevent n)
              (answer w).1)
    unfolding is_never_committed own_status_code class_code error_class
    answered-Outcome before w n (raise e) answered same known sent =
        publish_error-Outcome out openevent service before (answer w).1 n e sent λ never.
          let (code, of_code, refuses) = never_committed-Refuses e never in
          service.refused out.token out.channel_id out.payload out.recipients w e code answered
            of_code refuses
          ∙ same
    answered-Outcome before w n (ok none) answered same known sent =
        publish_error-Outcome out openevent service before (answer w).1 n _ sent λ never. cc
    answered-Outcome before w n (ok (some seq)) answered same known sent =
        numbered-Outcome before w n seq (uint64 seq true) refl answered known sent

    Outcome-unchanged :
        {A : Type 0} (before w : W) (r : Result A) (f : A → Action W ℕ)
        → log w ≡ log before
        → ((a : A) → r ≡ ok a → Outcome out openevent service before (f a w))
        → Outcome out openevent service before (and_then r f w)
    Outcome-unchanged before w (ok a) f same h = h a refl
    Outcome-unchanged before w (raise e) f same h =
        inr (same-NotCommitted out openevent service before w same)

    known-Outcome :
        (w : W) (status n : ℕ)
        → (openevent.get_status out.principal out.token w).0 ≡ ok status
        → uint64 status false ≡ ok n
        → Outcome out openevent service w (
            try_except
              (publish_once out openevent)
              (publish_error out openevent n)
              (openevent.get_status out.principal out.token w).1)
    unfolding publish_once
    known-Outcome w status n known valid =
        answered-Outcome w w1 n (answer w1).0 refl same at_least (record {
          old = old;
          new = λ m here. elim (added m here) [
            | inl o ↦ inl o
            | inr new ↦ inr (omega (arith, new, at_least))
          ];
          single = λ m m' here here' new new'.
              service.publish_single out.token out.channel_id out.payload out.recipients w1 m m'
                here here' (later m here new) (later m' here' new');
        })
      where
        w1 : W
        w1 = (openevent.get_status out.principal out.token w).1

        same : log w1 ≡ log w
        same = service.status_log out.token w

        exact : n ≡ status
        exact = uint64-ok status false n valid

        at_least : n ≤ max_seq w1
        at_least = omega (arith, exact, service.status_max out.token w status known)

        old : (m : Message Bytes) → Member m (log w) → m.seq ≤ n
        old m member = omega (arith, exact, service.status_bound out.token w status known m member)

        added :
            (m : Message Bytes)
            → Member m (log (answer w1).1)
            → Member m (log w) ⊎ (max_seq w1 < m.seq)
        added m here =
            elim (service.publish_new out.token out.channel_id out.payload out.recipients w1 m
              here) [ inl o ↦ inl (subst (Member m) same o) | inr new ↦ inr new ]

        later : (m : Message Bytes) → Member m (log (answer w1).1) → n < m.seq → max_seq w1 < m.seq
        later m here new = elim (added m here) [
          | inl o ↦ absurd (omega (arith, old m o, new))
          | inr l ↦ l
        ]

    -- The first GetStatus, and what follows it.
    status-Outcome :
        (w : W) (status : Result ℕ)
        → (openevent.get_status out.principal out.token w).0 ≡ status
        → Outcome out openevent service w (
            (try_except
                  (and_then status (λ n. of_result (uint64 n false)))
                  (λ e. throw (failed_from true false e))
                >>= λ n. try_except (publish_once out openevent) (publish_error out openevent n))
              (openevent.get_status out.principal out.token w).1)
    status-Outcome w (raise e) known =
        inr (same-NotCommitted out openevent service w _ (service.status_log out.token w))
    status-Outcome w (ok status) known = by_answer (uint64 status false) refl
      where
        by_answer :
            (r : Result ℕ)
            → uint64 status false ≡ r
            → Outcome out openevent service w (
                (try_except (of_result r) (λ e. throw (failed_from true false e)) >>= λ n.
                try_except (publish_once out openevent) (publish_error out openevent n))
                  (openevent.get_status out.principal out.token w).1)
        by_answer (raise e) valid =
            inr (same-NotCommitted out openevent service w _ (service.status_log out.token w))
        by_answer (ok n) valid = known-Outcome w status n known valid

    -- For a principal that publishes nothing elsewhere at the same time, `_publish` returns a number only
    -- if a message with that number, and with the principal, channel, recipients and payload that
    -- were asked for, is published and is the one message that was not published before. It raises
    -- an error only if no such message has been published since, or if the error says that the
    -- outcome is unknown.
    pub publish-Outcome : (w : W) → Outcome out openevent service w (publish out openevent w)
    unfolding publish get_pre_publish_max_seq
    publish-Outcome w = Outcome-unchanged w w (uint64 out.principal true) _ refl λ principal valid.
        Outcome-unchanged w w (uint64 out.channel_id true) _ refl λ channel_id valid'.
          status-Outcome w (openevent.get_status out.principal out.token w).0 refl
