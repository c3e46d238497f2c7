-- ===== src/Client/Committed.antt =====
-- What the `except` of `_publish` says about the log of a `Service`.
use openevent_modules_im.Prelude.{
  ℕ, suc, ◌-◌, ◌≤◌, ◌<◌, ◌≡◌, ◌⊎◌, refl, sym, subst, inl, inr, true, false, Option, none, some, Eq,
  nat_eq, list_eq, ltb, arith, if_ind, Member, Result, ok, raise, Error, error_class,
  is_outcome_unknown, is_class_unknown,
}
use openevent_modules_im.Prelude.Actions.{Action, pure, throw, and_then, try_except, ◌>>=◌}
use openevent_modules_im.OpenEvent.{Message, OpenEventClient}
use openevent_modules_im.Client.Publish.{
  Outgoing, uint64, own_status_code, is_never_committed, failed_from, scan, find_committed,
  reconcile_uncertain_publish, publish_error,
}
use openevent_modules_im.Client.Service.{Service}
use openevent_modules_im.Client.Finding.{uint64-ok, IsMatch, Found, scan_pages-Found}

module _ {W Bytes : Type 0} ⦃eq : Eq Bytes⦄ (out : Outgoing Bytes)
    (openevent : OpenEventClient W Bytes) where
  module _ (service : Service openevent out.principal) where
    open service use {log, max_seq}

    -- A message that `_publish` is to publish, with the number `seq`, which is greater than the number
    -- of each message that the principal had published before.
    pub record Committed (before after : W) (seq : ℕ) : Type 0 where
      pub message : Message Bytes
      pub published : Member message (log after)
      pub asked : IsMatch out openevent message
      pub numbered : message.seq ≡ seq
      pub fresh : (m : Message Bytes) → Member m (log before) → m.seq < seq
      pub only : (m : Message Bytes) → Member m (log after) → Member m (log before) ⊎ (m ≡ message)

    -- No such message is published but those that had been published before.
    abbrev pub NotCommitted : W → W → Type 0
    NotCommitted before after =
        (m : Message Bytes) → Member m (log after) → IsMatch out openevent m → Member m (log before)

    -- Committed where it returns. Where it raises, the error says that the outcome is unknown, or it
    -- is not committed.
    abbrev pub Outcome : W → Result ℕ × W → Type 0
    Outcome before (ok seq, after) = Committed before after seq
    Outcome before (raise e, after) = (is_outcome_unknown e ≡ true) ⊎ NotCommitted before after

    pub same-NotCommitted : (before after : W) → log after ≡ log before → NotCommitted before after
    same-NotCommitted before after same m member match = subst (Member m) same member

    -- What has happened between the first GetStatus, which answers `n`, and the `except` of `_publish`.
    pub record Sent (before after : W) (n : ℕ) : Type 0 where
      pub old : (m : Message Bytes) → Member m (log before) → m.seq ≤ n
      pub new : (m : Message Bytes) → Member m (log after) → Member m (log before) ⊎ (n < m.seq)
      pub single :
          (m m' : Message Bytes)
          → Member m (log after)
          → Member m' (log after)
          → n < m.seq
          → n < m'.seq
          → m ≡ m'

    -- What the `try` of `_reconcile_uncertain_publish` says.
    abbrev Looked : W → ℕ → Result (Option ℕ) × W → Type 0
    Looked before n (ok (some seq), after) =
        (n < seq)
        × ((m : Message Bytes) × Member m (log after)
            × IsMatch out openevent m
            × (m.seq ≡ seq)
            × ((m' : Message Bytes) → Member m' (log after) → Member m' (log before) ⊎ (m' ≡ m)))
    Looked before n (ok none, after) = NotCommitted before after
    Looked before n (raise e, after) = Unit

    Looked-step :
        {A : Type 0} (before : W) (n : ℕ) (r : Result A) (w : W) (f : A → Action W (Option ℕ))
        → ((a : A) → r ≡ ok a → Looked before n (f a w))
        → Looked before n (and_then r f w)
    Looked-step before n (ok a) w f h = h a refl
    Looked-step before n (raise e) w f h = tt

    Found-Looked :
        (before w : W) (n n' : ℕ) (r : Result (Option ℕ) × W)
        → Sent before w n
        → ((m : Message Bytes) → Member m (log w) → m.seq ≤ n')
        → Found out openevent service (log w) n' (suc n) r
        → Looked before n r
    Found-Looked before w n n' (ok (some seq), after) sent bound
          (same, later, (m, member, match, numbered)) =
        (
          omega (arith, later),
          (
            m,
            subst (Member m) (sym same) member,
            match,
            numbered,
            λ m' member'.
                let here = subst (Member m') same member' in
                elim (sent.new m' here) [
                  | inl old ↦ inl old
                  | inr new ↦
                      inr (sent.single m' m here member new (omega (arith, later, numbered)))
                ],
          ),
        )
    Found-Looked before w n n' (ok none, after) sent bound (same, none_found) = λ m member match.
        let member' = subst (Member m) same member in
        elim (sent.new m member') [
          | inl old ↦ old
          | inr new ↦
              absurd
                (omega (arith, bound m member', none_found m member' match (omega (arith, new))))
        ]
    Found-Looked before w n n' (raise e, after) sent bound f = tt

    find_committed-Looked :
        (before w : W) (n : ℕ)
        → Sent before w n
        → Looked before n (find_committed out openevent n w)
    unfolding find_committed scan
    find_committed-Looked before w n sent =
        let (status, w') = openevent.get_status out.principal out.token w in
        Looked-step before n status w' _ λ answer known.
          Looked-step before n (uint64 answer false) w' _ λ n' valid.
            if_ind (λ (a : Action W (Option ℕ)). Looked before n (a w')) (ltb n' n) _ _
              (λ backwards. tt)
              (λ forwards.
                Found-Looked before w' n n' _
                  (record {
                    old = sent.old;
                    new = λ m member.
                        sent.new m (subst (Member m) (service.status_log out.token w) member);
                    single = λ m m' member member'.
                        sent.single m m' (subst (Member m) (service.status_log out.token w) member)
                          (subst (Member m') (service.status_log out.token w) member');
                  })
                  (λ m member.
                    subst (λ k. m.seq ≤ k) (sym (uint64-ok answer false n' valid))
                      (service.status_bound out.token w answer known m
                        (subst (Member m) (service.status_log out.token w) member)))
                  (scan_pages-Found out openevent service (log w') n' (suc n' - suc n) (suc n) w'
                    (omega arith) refl))

    reconciled-Outcome :
        (before : W) (n : ℕ) (e : Error) (r : Result (Option ℕ)) (after w : W)
        → ((m : Message Bytes) → Member m (log before) → m.seq ≤ n)
        → Looked before n (r, after)
        → Outcome before (
            (try_except (λ w. (r, after)) (λ e'. throw (failed_from false true e)) >>= λ found.
            elim found [ some seq ↦ pure seq | none ↦ throw (failed_from true false e) ])
              w)
    unfolding is_outcome_unknown is_class_unknown error_class
    reconciled-Outcome before n e (ok (some seq)) after w old
          (later, (m, member, match, numbered, only)) =
        record {
          message = m;
          published = member;
          asked = match;
          numbered = numbered;
          fresh = λ m' member'. omega (arith, later, old m' member');
          only = only;
        }
    reconciled-Outcome before n e (ok none) after w old looked = inr looked
    reconciled-Outcome before n e (raise e') after w old looked = inl refl

    reconcile_uncertain_publish-Outcome :
        (before w : W) (n : ℕ) (e : Error)
        → Sent before w n
        → Outcome before (reconcile_uncertain_publish out openevent n e w)
    unfolding reconcile_uncertain_publish
    reconcile_uncertain_publish-Outcome before w n e sent =
        let (r, after) = find_committed out openevent n w in
        reconciled-Outcome before n e r after w sent.old (find_committed-Looked before w n sent)

    pub publish_error-Outcome :
        (before w : W) (n : ℕ) (e : Error)
        → Sent before w n
        → (is_never_committed (own_status_code e) ≡ true → log w ≡ log before)
        → Outcome before (publish_error out openevent n e w)
    unfolding publish_error
    publish_error-Outcome before w n e sent rejected =
        if_ind (λ (a : Action W ℕ). Outcome before (a w)) (is_never_committed (own_status_code e)) _
          _ (λ never. inr (same-NotCommitted before w (rejected never)))
          (λ perhaps. reconcile_uncertain_publish-Outcome before w n e sent)
