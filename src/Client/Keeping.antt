-- ===== src/Client/Keeping.antt =====
-- `_publish` takes no message back that is published.
use openevent_modules_im.Prelude.{
  ℕ, suc, ◌-◌, ◌≡◌, refl, sym, subst, true, false, Option, none, some, Eq, Member, ltb, raise,
  Error, error, runtime_error, arith,
}
use openevent_modules_im.Prelude.Actions.{Action, pure, throw, of_result}
use openevent_modules_im.Prelude.Keeping.{Keeps, result-Keeps, bind-Keeps, try-Keeps, if-Keeps}
use openevent_modules_im.OpenEvent.{Message, OpenEventClient}
use openevent_modules_im.Client.Publish.{
  Outgoing, uint64, own_status_code, is_never_committed, failed_from, get_pre_publish_max_seq, scan,
  find_committed, reconcile_uncertain_publish, publish_once, publish_error, publish,
}
use openevent_modules_im.Client.Service.{Service}
use openevent_modules_im.Client.Finding.{Found-log, scan_pages-Found}

module _ {W Bytes : Type 0} ⦃eq : Eq Bytes⦄ (out : Outgoing Bytes)
    (openevent : OpenEventClient W Bytes) (service : Service openevent out.principal)
    (m : Message Bytes) where
  open service use {log}

  -- The message is published.
  abbrev pub IsPublished : W → Type 0
  IsPublished w = Member m (log w)

  unchanged-Keeps :
      {A : Type 0} (a : Action W A) → ((w : W) → log (a w).1 ≡ log w) → Keeps IsPublished a
  unchanged-Keeps a h = record { kept = λ w here. subst (Member m) (sym (h w)) here }

  status-Keeps : Keeps IsPublished (openevent.get_status out.principal out.token)
  status-Keeps =
      unchanged-Keeps (openevent.get_status out.principal out.token) (service.status_log out.token)

  found-Keeps :
      (o : Option ℕ) (e : Error)
      → Keeps IsPublished (elim o as (λ x. Action W ℕ) [
        | some seq ↦ pure seq
        | none ↦ throw (failed_from true false e)
      ])
  found-Keeps (some seq) e = result-Keeps IsPublished _
  found-Keeps none e = result-Keeps IsPublished _

  find_committed-Keeps : (n : ℕ) → Keeps IsPublished (find_committed out openevent n)
  unfolding find_committed scan
  find_committed-Keeps n = bind-Keeps IsPublished _ _ status-Keeps λ status.
      bind-Keeps IsPublished _ _ (result-Keeps IsPublished _) λ n'.
        if-Keeps IsPublished (ltb n' n) _ _ (result-Keeps IsPublished _) (
          unchanged-Keeps _ λ w. Found-log out openevent service (log w) n' (suc n) _ (
            scan_pages-Found out openevent service (log w) n' (suc n' - suc n) (suc n) w
              (omega arith) refl))

  publish_error-Keeps : (n : ℕ) (e : Error) → Keeps IsPublished (publish_error out openevent n e)
  unfolding publish_error reconcile_uncertain_publish
  publish_error-Keeps n e =
      if-Keeps IsPublished (is_never_committed (own_status_code e)) _ _ (result-Keeps IsPublished _)
        (bind-Keeps IsPublished _ _
          (try-Keeps IsPublished _ _ (find_committed-Keeps n) (λ e'. result-Keeps IsPublished _))
          (λ found. found-Keeps found e))

  response-Keeps :
      (o : Option ℕ)
      → Keeps IsPublished (elim o as (λ x. Action W ℕ) [
        | none ↦ throw (error runtime_error)
        | some seq ↦ of_result (uint64 seq true)
      ])
  response-Keeps (some seq) = result-Keeps IsPublished _
  response-Keeps none = result-Keeps IsPublished _

  publish_once-Keeps : Keeps IsPublished (publish_once out openevent)
  unfolding publish_once
  publish_once-Keeps =
      bind-Keeps IsPublished
        (openevent.publish_auto_seq out.principal out.token out.channel_id out.payload
          out.recipients)
        _
        (record {
          kept = λ w here.
              service.publish_kept out.token out.channel_id out.payload out.recipients w m here;
        })
        response-Keeps

  get_pre_publish_max_seq-Keeps : Keeps IsPublished (get_pre_publish_max_seq out openevent)
  unfolding get_pre_publish_max_seq
  get_pre_publish_max_seq-Keeps =
      try-Keeps IsPublished _ _
        (bind-Keeps IsPublished _ _ status-Keeps (λ n. result-Keeps IsPublished (uint64 n false)))
        (λ e. result-Keeps IsPublished (raise (failed_from true false e)))

  pub publish-Keeps : Keeps IsPublished (publish out openevent)
  unfolding publish
  publish-Keeps =
      bind-Keeps IsPublished (of_result (uint64 out.principal true)) _ (result-Keeps IsPublished _)
        λ principal.
          bind-Keeps IsPublished (of_result (uint64 out.channel_id true)) _
            (result-Keeps IsPublished _)
            λ channel_id.
              bind-Keeps IsPublished _ _ get_pre_publish_max_seq-Keeps
                λ n. try-Keeps IsPublished _ _ publish_once-Keeps (publish_error-Keeps n)
