-- ===== src/Client/Once.antt =====
-- `_publish_with_retry` of loop.py on `_publish`: what its attempts say about the log together.
use openevent_modules_im.Prelude.{
  ℕ, suc, ◌≤◌, ◌≡◌, ◌⊎◌, inl, inr, refl, sym, ◌∙◌, subst, ap, Bool, true, false, ◌||◌, Eq, Member,
  Result, ok, raise, Error, error, caused_by, is_outcome_unknown, is_retry_safe, class_retry_safe,
  is_class_unknown, error_class, arith,
}
use openevent_modules_im.Prelude.Actions.{Action}
use openevent_modules_im.OpenEvent.{Message, OpenEventClient}
use openevent_modules_im.Client.Publish.{Outgoing, publish}
use openevent_modules_im.Client.Service.{Service}
use openevent_modules_im.Client.Finding.{IsMatch}
use openevent_modules_im.Client.Committed.{NotCommitted, Outcome}
use openevent_modules_im.Client.Published.{publish-Outcome}
use openevent_modules_im.Client.Keeping.{publish-Keeps}
use openevent_modules_im.Client.Reported.{
  Reported, Reports, invalid, rejected, not_committed, uncertain, publish-Reports,
}
use openevent_modules_im.Processor.Model.{Worker}
use openevent_modules_im.Processor.Retry.{is_retryable, publish_with_retry}
use openevent_modules_im.Processor.Attempts.{
  Failures, no_failure, failure, Last, published, too_large, unsafe, spent, stopped, wait_failed,
  publish_with_retry-Ended,
}

-- The error, or one of its causes, says that the outcome is unknown.
unfoldable pub is_any_unknown : Error → Bool
is_any_unknown (error c) = is_class_unknown c
is_any_unknown (caused_by c e) = is_class_unknown c || is_any_unknown e

head-unknown : (e : Error) → is_outcome_unknown e ≡ true → is_any_unknown e ≡ true
unfolding is_any_unknown is_outcome_unknown error_class
head-unknown (error c) h = h
head-unknown (caused_by c e) h = ground arith

true_not_false : ¬ (true ≡ false)
true_not_false h = cc

retryable-known : (e : Error) → Reported e → is_retryable e ≡ true → is_outcome_unknown e ≡ false
unfolding is_retryable is_retry_safe class_retry_safe is_outcome_unknown error_class
    is_class_unknown
retryable-known e invalid h = refl
retryable-known e (rejected never) h = refl
retryable-known e not_committed h = refl
retryable-known e (uncertain perhaps) h = ground arith

module _ {W Bytes : Type 0} ⦃eq : Eq Bytes⦄ (out : Outgoing Bytes)
    (openevent : OpenEventClient W Bytes) (service : Service openevent out.principal)
    (worker : Worker W)
    (wait_log : (ms : ℕ) (w : W)
      → service.log (worker.stop_event.wait ms w).1 ≡ service.log w) where
  abbrev attempt : Action W ℕ
  attempt = publish out openevent

  by_run : (w : W) (r : Result ℕ × W) → attempt w ≡ r → Outcome out openevent service w r
  by_run w r run =
      subst (Outcome out openevent service w) run (publish-Outcome out openevent service w)

  report : (w w1 : W) (e : Error) → attempt w ≡ (raise e, w1) → Reported e
  report w w1 e run = subst (Reports {W = W}) run (publish-Reports out openevent w)

  failed :
      (w w1 : W) (e : Error)
      → attempt w ≡ (raise e, w1)
      → is_retryable e ≡ true
      → NotCommitted out openevent service w w1
  failed w w1 e run again = elim (by_run w (raise e, w1) run) [
    | inl unknown ↦
        absurd (true_not_false (sym unknown ∙ retryable-known e (report w w1 e run) again))
    | inr not_there ↦ not_there
  ]

  waited :
      (w1 w2 : W) (r : Result Bool) (ms : ℕ)
      → worker.stop_event.wait ms w1 ≡ (r, w2)
      → service.log w2 ≡ service.log w1
  waited w1 w2 r ms run = ap (λ x. service.log x.1) (sym run) ∙ wait_log ms w1

  -- One message of what is to be published is new, and has the number `seq`.
  pub record PublishedOnce (before after : W) (seq : ℕ) : Type 0 where
    pub message : Message Bytes
    pub published : Member message (service.log after)
    pub asked : IsMatch out openevent message
    pub numbered : message.seq ≡ seq
    pub new : ¬ Member message (service.log before)
    pub only :
        (m : Message Bytes)
        → Member m (service.log after)
        → IsMatch out openevent m
        → Member m (service.log before) ⊎ (m ≡ message)

  -- Published once where the last attempt returns. Where it raises, an error says that the outcome is
  -- unknown, or nothing is published.
  abbrev pub AllAttempts : W → Result ℕ × W → Type 0
  AllAttempts before (ok seq, after) = PublishedOnce before after seq
  AllAttempts before (raise e, after) =
      (is_any_unknown e ≡ true) ⊎ NotCommitted out openevent service before after

  failures-NotCommitted :
      (n : ℕ) (w w' : W) → Failures worker attempt n w w' → NotCommitted out openevent service w w'
  failures-NotCommitted n w w' no_failure = λ m here match. here
  failures-NotCommitted n w w' (failure {e = e} {w1 = w1} {w2 = w2} run again pause more) =
      λ m here match.
        failed w w1 e run again m
          (subst (Member m) (waited w1 w2 (ok false) worker.retry.publish_retry_delay_ms pause)
            (failures-NotCommitted _ w2 w' more m here match))
          match

  failures-kept :
      (n : ℕ) (w w' : W)
      → Failures worker attempt n w w'
      → (m : Message Bytes) → Member m (service.log w)
      → Member m (service.log w')
  failures-kept n w w' no_failure m here = here
  failures-kept n w w' (failure {e = e} {w1 = w1} {w2 = w2} run again pause more) m here =
      failures-kept _ w2 w' more m (
        subst (Member m) (sym (waited w1 w2 (ok false) worker.retry.publish_retry_delay_ms pause)) (
          subst (λ x. Member m (service.log x.1)) run
            ((publish-Keeps out openevent service m).kept w here)))

  -- After failed attempts from `before` on, an attempt that does not commit either.
  still-NotCommitted :
      (before w w1 : W)
      → NotCommitted out openevent service before w
      → NotCommitted out openevent service w w1
      → NotCommitted out openevent service before w1
  still-NotCommitted before w w1 h k = λ m here match. h m (k m here match) match

  paused :
      (before w w1 w2 : W) (r : Result Bool) (e : Error)
      → NotCommitted out openevent service before w
      → attempt w ≡ (raise e, w1)
      → is_retryable e ≡ true
      → worker.stop_event.wait worker.retry.publish_retry_delay_ms w1 ≡ (r, w2)
      → NotCommitted out openevent service before w2
  paused before w w1 w2 r e none run again pause = λ m here match.
      still-NotCommitted before w w1 none (failed w w1 e run again) m
        (subst (Member m) (waited w1 w2 r worker.retry.publish_retry_delay_ms pause) here) match

  last-Outcome :
      (before w : W) (left : ℕ) (r : Result ℕ × W)
      → NotCommitted out openevent service before w
      → ((m : Message Bytes) → Member m (service.log before) → Member m (service.log w))
      → Last worker attempt left w r
      → AllAttempts before r
  unfolding is_any_unknown is_class_unknown
  last-Outcome before w left r none kept (published {seq = seq} {w1 = w1} run) =
      let c = by_run w (ok seq, w1) run in
      record {
        message = c.message;
        published = c.published;
        asked = c.asked;
        numbered = c.numbered;
        new = λ old. absurd (omega (arith, c.numbered, c.fresh c.message (kept c.message old)));
        only = λ m here match. elim (c.only m here) [
          | inl old ↦ inl (none m old match)
          | inr new ↦ inr new
        ];
      }
  last-Outcome before w left r none kept (too_large {e = e} {w1 = w1} run large) =
      elim (by_run w (raise e, w1) run) [
        | inl unknown ↦ inl (head-unknown e unknown)
        | inr not_there ↦ inr (still-NotCommitted before w w1 none not_there)
      ]
  last-Outcome before w left r none kept (unsafe {e = e} {w1 = w1} run small final) =
      elim (by_run w (raise e, w1) run) [
        | inl unknown ↦ inl (head-unknown e unknown)
        | inr not_there ↦ inr (still-NotCommitted before w w1 none not_there)
      ]
  last-Outcome before w left r none kept (spent {e = e} {w1 = w1} run again) =
      inr (still-NotCommitted before w w1 none (failed w w1 e run again))
  last-Outcome before w left r none kept (stopped {e = e} {w1 = w1} {w2 = w2} run again pause) =
      inr (paused before w w1 w2 (ok true) e none run again pause)
  last-Outcome before w left r none kept
        (wait_failed {e = e} {e' = e'} {w1 = w1} {w2 = w2} run again pause) =
      inr (paused before w w1 w2 (raise e') e none run again pause)

  -- If a wait publishes nothing and at least one attempt is allowed, `_publish_with_retry` on `_publish`
  -- returns a number only if, over all its attempts, exactly one message of those that were asked for
  -- has been added, and has that number. It raises an error only if none has been added, or if the
  -- error or one of its causes says that the outcome is unknown.
  pub publish_with_retry-PublishedOnce :
      (w : W)
      → 1 ≤ worker.retry.publish_max_attempts
      → AllAttempts w (publish_with_retry worker attempt w)
  publish_with_retry-PublishedOnce w some =
      let e = publish_with_retry-Ended worker attempt w some in
      last-Outcome w e.before_last (suc e.left) _
        (failures-NotCommitted e.failed w e.before_last e.failures)
        (failures-kept e.failed w e.before_last e.failures) e.last
