-- ===== src/Processor/Attempts.antt =====
-- The attempts of `_publish_with_retry`, against a relation of what may follow what.
use openevent_modules_im.Prelude.{
  ℕ, zero, suc, ◌+◌, ◌≤◌, ◌≡◌, refl, Bool, true, false, not, if◌then◌else◌, nat_eq, arith, if_ind,
  Result, ok, raise, Error, caused_by, syncer_stopped,
}
use openevent_modules_im.Prelude.Actions.{Action, throw, and_then, ◌>>=◌}
use openevent_modules_im.Processor.Model.{Worker, fatal_from, is_resource_exhausted}
use openevent_modules_im.Processor.Retry.{
  is_retryable, is_last, publish_failure, attempts, publish_with_retry,
}

module _ {W : Type 0} (worker : Worker W) (publish : Action W ℕ) where
  open worker use {retry, stop_event}

  -- `n` attempts that failed, each with an error that allows another, and each with a wait after it
  -- that was not interrupted.
  pub data Failures : ℕ → W → W → Type 0 where
    no_failure : {w : W} → Failures 0 w w
    failure :
        {n : ℕ} {e : Error} {w w1 w2 w3 : W}
        → publish w ≡ (raise e, w1)
        → is_retryable e ≡ true
        → stop_event.wait retry.publish_retry_delay_ms w1 ≡ (ok false, w2)
        → Failures n w2 w3
        → Failures (suc n) w w3

  -- How the last attempt ends, which is one of `left` that are left.
  pub data Last : ℕ → W → Result ℕ × W → Type 0 where
    published : {left seq : ℕ} {w w1 : W} → publish w ≡ (ok seq, w1) → Last left w (ok seq, w1)
    too_large :
        {left : ℕ} {e : Error} {w w1 : W}
        → publish w ≡ (raise e, w1)
        → is_resource_exhausted e ≡ true
        → Last left w (raise e, w1)
    unsafe :
        {left : ℕ} {e : Error} {w w1 : W}
        → publish w ≡ (raise e, w1)
        → is_resource_exhausted e ≡ false
        → is_retryable e ≡ false
        → Last left w (raise (fatal_from e), w1)
    spent :
        {e : Error} {w w1 : W}
        → publish w ≡ (raise e, w1)
        → is_retryable e ≡ true
        → Last 1 w (raise (fatal_from e), w1)
    stopped :
        {left : ℕ} {e : Error} {w w1 w2 : W}
        → publish w ≡ (raise e, w1)
        → is_retryable e ≡ true
        → stop_event.wait retry.publish_retry_delay_ms w1 ≡ (ok true, w2)
        → Last (suc left) w (raise (caused_by syncer_stopped e), w2)
    wait_failed :
        {left : ℕ} {e e' : Error} {w w1 w2 : W}
        → publish w ≡ (raise e, w1)
        → is_retryable e ≡ true
        → stop_event.wait retry.publish_retry_delay_ms w1 ≡ (raise e', w2)
        → Last (suc left) w (raise e', w2)

  pub record Ended (allowed : ℕ) (w : W) (r : Result ℕ × W) : Type 0 where
    pub failed : ℕ
    pub left : ℕ
    pub before_last : W
    pub within : failed + suc left ≡ allowed
    pub failures : Failures failed w before_last
    pub last : Last (suc left) before_last r

  at_once : {left : ℕ} {w : W} {r : Result ℕ × W} → Last (suc left) w r → Ended (suc left) w r
  at_once {left} {w} l = record {
    failed = 0;
    left = left;
    before_last = w;
    within = omega arith;
    failures = no_failure;
    last = l;
  }

  one_more :
      {allowed : ℕ} {e : Error} {w w1 w2 : W} {r : Result ℕ × W}
      → publish w ≡ (raise e, w1)
      → is_retryable e ≡ true
      → stop_event.wait retry.publish_retry_delay_ms w1 ≡ (ok false, w2)
      → Ended allowed w2 r
      → Ended (suc allowed) w r
  one_more h again waited e = record {
    failed = suc e.failed;
    left = e.left;
    before_last = e.before_last;
    within = omega (arith, e.within);
    failures = failure h again waited e.failures;
    last = e.last;
  }

  waited-Ended :
      (left : ℕ) (e : Error) (w w1 w2 : W) (b : Result Bool)
      → publish w ≡ (raise e, w1)
      → is_retryable e ≡ true
      → stop_event.wait retry.publish_retry_delay_ms w1 ≡ (b, w2)
      → Ended (suc left) w2 (attempts worker (suc left) publish w2)
      → Ended (suc (suc left)) w (
          and_then b
            (λ stopped.
              if stopped
              then throw (caused_by syncer_stopped e)
              else attempts worker (suc left) publish)
            w2)
  waited-Ended left e w w1 w2 (ok true) h again waited more = at_once (stopped h again waited)
  waited-Ended left e w w1 w2 (ok false) h again waited more = one_more h again waited more
  waited-Ended left e w w1 w2 (raise e') h again waited more = at_once (wait_failed h again waited)

  failure-Ended :
      (left : ℕ) (e : Error) (w w1 : W)
      → publish w ≡ (raise e, w1)
      → ((n : ℕ) → left ≡ suc n → (v : W) → Ended left v (attempts worker left publish v))
      → Ended
          (suc left)
          w
          (publish_failure worker (is_last worker left) (attempts worker left publish) e w1)
  unfolding publish_failure is_last
  failure-Ended left e w w1 h more =
      if_ind (λ (m : Action W ℕ). Ended (suc left) w (m w1)) (is_resource_exhausted e) _ _
        (λ large. at_once (too_large h large))
        λ small.
          if_ind (λ (m : Action W ℕ). Ended (suc left) w (m w1)) (not (is_retryable e)) _ _
            (λ no. at_once (unsafe h small (ground arith)))
            λ yes. more_left left (ground arith) more
    where
      on_wait : ℕ → Action W ℕ
      on_wait k = stop_event.wait retry.publish_retry_delay_ms >>= λ stopped.
          if stopped then throw (caused_by syncer_stopped e) else attempts worker k publish

      more_left :
          (k : ℕ)
          → is_retryable e ≡ true
          → ((n : ℕ) → k ≡ suc n → (v : W) → Ended k v (attempts worker k publish v))
          → Ended (suc k) w ((if is_last worker k then throw (fatal_from e) else on_wait k) w1)
      more_left zero again rest = at_once (spent h again)
      more_left (suc k) again rest =
          let (b, w2) = stop_event.wait retry.publish_retry_delay_ms w1 in
          waited-Ended k e w w1 w2 b h again refl (rest k refl _)

  attempt-Ended :
      (left : ℕ) (w : W) (r : Result ℕ) (w1 : W)
      → publish w ≡ (r, w1)
      → ((n : ℕ) → left ≡ suc n → (v : W) → Ended left v (attempts worker left publish v))
      → Ended (suc left) w (elim r as (λ x. Result ℕ × W) [
        | ok a ↦ (ok a, w1)
        | raise e ↦ publish_failure worker (is_last worker left) (attempts worker left publish) e w1
      ])
  attempt-Ended left w (ok seq) w1 h rest = at_once (published h)
  attempt-Ended left w (raise e) w1 h rest = failure-Ended left e w w1 h rest

  attempts-Ended : (left : ℕ) (w : W) → Ended (suc left) w (attempts worker (suc left) publish w)
  unfolding attempts
  attempts-Ended zero w =
      attempt-Ended zero w (publish w).0 (publish w).1 refl (λ n h v. absurd (omega arith))
  attempts-Ended (suc k) w =
      attempt-Ended (suc k) w (publish w).0 (publish w).1 refl (λ n h v. attempts-Ended k v)

  pub publish_with_retry-Ended :
      (w : W)
      → 1 ≤ retry.publish_max_attempts
      → Ended retry.publish_max_attempts w (publish_with_retry worker publish w)
  unfolding publish_with_retry
  publish_with_retry-Ended w h = allowed retry.publish_max_attempts h
    where
      allowed : (n : ℕ) → 1 ≤ n → Ended n w (attempts worker n publish w)
      allowed zero h = absurd (omega arith)
      allowed (suc left) h = attempts-Ended left w
