-- ===== src/Client/Reported.antt =====
-- What `_publish` raises.
use openevent_modules_im.Prelude.{
  ℕ, ◌≡◌, refl, sym, subst, Bool, true, false, Option, none, some, Eq, if_ind, Result, ok, raise,
  Error, arith,
}
use openevent_modules_im.Prelude.Actions.{
  Action, pure, throw, of_result, and_then, try_except, ◌>>=◌,
}
use openevent_modules_im.OpenEvent.{OpenEventClient}
use openevent_modules_im.Sdk.Normalizer.{require_uint64, malformed}
use openevent_modules_im.Client.Publish.{
  Outgoing, uint64, own_status_code, is_never_committed, failed_from, get_pre_publish_max_seq,
  find_committed, reconcile_uncertain_publish, publish_once, publish_error, publish,
}

pub data Reported : Error → Type 0 where
  invalid : Reported malformed
  rejected :
      {cause : Error}
      → is_never_committed (own_status_code cause) ≡ true
      → Reported (failed_from false false cause)
  not_committed : {cause : Error} → Reported (failed_from true false cause)
  uncertain :
      {cause : Error}
      → is_never_committed (own_status_code cause) ≡ false
      → Reported (failed_from false true cause)

-- A result whose error is reported.
abbrev pub Reports : {W : Type 0} → Result ℕ × W → Type 0
Reports (ok seq, w) = Unit
Reports (raise e, w) = Reported e

uint64-error : (n : ℕ) (positive : Bool) (e : Error) → uint64 n positive ≡ raise e → e ≡ malformed
unfolding uint64 require_uint64
uint64-error n positive e h = grind arith

uint64-Reports :
    {W : Type 0} (n : ℕ) (w : W) (f : ℕ → Action W ℕ)
    → ((m : ℕ) → Reports (f m w))
    → Reports (and_then (uint64 n true) f w)
uint64-Reports n w f h = by_result (uint64 n true) refl
  where
    by_result : (r : Result ℕ) → uint64 n true ≡ r → Reports (and_then r f w)
    by_result (ok m) valid = h m
    by_result (raise e) failed = subst Reported (sym (uint64-error n true e failed)) invalid

module _ {W Bytes : Type 0} ⦃eq : Eq Bytes⦄ (out : Outgoing Bytes)
    (openevent : OpenEventClient W Bytes) where
  found-Reports :
      (r : Result (Option ℕ)) (after w : W) (e : Error)
      → is_never_committed (own_status_code e) ≡ false
      → Reports (
          (try_except (λ w. (r, after)) (λ e'. throw (failed_from false true e)) >>= λ found.
          elim found [ some seq ↦ pure seq | none ↦ throw (failed_from true false e) ])
            w)
  found-Reports (ok (some seq)) after w e h = tt
  found-Reports (ok none) after w e h = not_committed
  found-Reports (raise e') after w e h = uncertain h

  publish_error-Reports : (n : ℕ) (e : Error) (w : W) → Reports (publish_error out openevent n e w)
  unfolding publish_error reconcile_uncertain_publish
  publish_error-Reports n e w =
      if_ind (λ (a : Action W ℕ). Reports (a w)) (is_never_committed (own_status_code e)) _ _
        (λ never. rejected never)
        (λ perhaps.
          let (r, after) = find_committed out openevent n w in found-Reports r after w e perhaps)

  except-Reports :
      (n : ℕ) (r : Result ℕ) (after w : W)
      → Reports (try_except (λ w. (r, after)) (publish_error out openevent n) w)
  except-Reports n (ok seq) after w = tt
  except-Reports n (raise e) after w = publish_error-Reports n e after

  status-Reports :
      (r : Result ℕ) (after w : W)
      → Reports (
          (try_except (λ w. (r, after)) (λ e. throw (failed_from true false e)) >>= λ n.
          try_except (publish_once out openevent) (publish_error out openevent n))
            w)
  status-Reports (ok n) after w =
      let (r, w') = publish_once out openevent after in except-Reports n r w' after
  status-Reports (raise e) after w = not_committed

  -- An error that `_publish` raises is MalformedPayloadError, or it is PublishFailedError from a
  -- cause. That error says that another attempt is safe or that the outcome is unknown, but never
  -- both. It says neither only if the cause is an RpcError with a code that rejects the request,
  -- and that the outcome is unknown only if it is not.
  pub publish-Reports : (w : W) → Reports (publish out openevent w)
  unfolding publish get_pre_publish_max_seq
  publish-Reports w = uint64-Reports out.principal w _ λ principal.
      uint64-Reports out.channel_id w _ λ channel_id.
        let (r, after) =
          (openevent.get_status out.principal out.token >>= λ n. of_result (uint64 n false)) w in
        status-Reports r after w
