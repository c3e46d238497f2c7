-- ===== src/Processor/Retry.antt =====
-- `_publish_with_retry` of loop.py. An attempt is an action on the world outside; the attempts that
-- are left stand for the `range`.
use openevent_modules_im.Prelude.{
  is_retry_safe, ℕ, zero, suc, Bool, true, false, ◌&&◌, not, if◌then◌else◌, nat_eq, Error,
  caused_by, syncer_stopped,
}
use openevent_modules_im.Prelude.Actions.{Action, throw, try_except, ◌>>=◌}
use openevent_modules_im.Processor.Model.{
  Worker, fatal, fatal_from, is_resource_exhausted, is_transient_publish_error,
}

-- The error allows another attempt.
unfoldable pub is_retryable : Error → Bool
is_retryable e = is_retry_safe e && is_transient_publish_error e

module _ {W : Type 0} (worker : Worker W) where
  open worker use {retry, stop_event}

  -- After attempt fails with `e`: `again` is the rest of the loop, `last` whether no attempt is left.
  unfoldable pub publish_failure : Bool → Action W ℕ → Error → Action W ℕ
  publish_failure last again e =
      if is_resource_exhausted e
      then throw e
      else if not (is_retryable e)
      then throw (fatal_from e)
      else if last
      then throw (fatal_from e)
      else do
        stopped ← stop_event.wait retry.publish_retry_delay_ms
        if stopped then throw (caused_by syncer_stopped e) else again

  -- `attempt == publish_max_attempts`, from the attempts that are left after this one.
  unfoldable pub is_last : ℕ → Bool
  is_last zero = true
  is_last (suc left) = false

  unfoldable pub attempts : ℕ → Action W ℕ → Action W ℕ
  attempts zero publish = throw fatal
  attempts (suc left) publish =
      try_except publish (publish_failure (is_last left) (attempts left publish))

  unfoldable pub publish_with_retry : Action W ℕ → Action W ℕ
  publish_with_retry publish = attempts retry.publish_max_attempts publish
