-- ===== src/Tests/Client.antt =====
-- An OpenEvent service of one principal, which loses the answer to the first message.
use openevent_modules_im.Prelude.{
  ℕ, suc, ◌≤◌, ◌≡◌, inl, inr, refl, sym, ◌∙◌, ap, subst, false, if◌then◌else◌, leb, Option, none,
  some, List, [], ◌∷◌, Member, nat_eq, length, arith, if_ind, ok_injective, Result, ok, raise,
  Error, error, rpc_error, unavailable, StatusCode, error_class,
}
use openevent_modules_im.Prelude.Actions.{pure}
use openevent_modules_im.OpenEvent.{Message, FetchResponse, OpenEventClient}
use openevent_modules_im.Client.Publish.{Outgoing, scan, scan_page, publish}
use openevent_modules_im.Client.Scan.{scan_lem}
use openevent_modules_im.Client.Service.{
  Service, Refuses, no_token, no_permission, no_target, bad_request, no_room,
}
use openevent_modules_im.Client.Committed.{Outcome}
use openevent_modules_im.Client.Published.{publish-Outcome}
use openevent_modules_im.Client.Reported.{Reports, publish-Reports}
use openevent_modules_im.Client.Once.{AllAttempts, publish_with_retry-PublishedOnce}
use openevent_modules_im.Processor.Model.{Worker}
use openevent_modules_im.Processor.Retry.{publish_with_retry}
use openevent_modules_im.Tests.Mapping.{retry_config}

-- What is published, the newest first: the channel, the recipients and the payload.
abbrev Entries : Type 0
Entries = List (ℕ × List ℕ × ℕ)

abbrev sent_message : ℕ → ℕ → List ℕ → ℕ → Message ℕ
sent_message seq channel_id recipients payload = record {
  seq = seq;
  channel_id = channel_id;
  principal = 30;
  recipients = recipients;
  payload = payload;
}

abbrev messages_of : Entries → List (Message ℕ)
messages_of [] = []
messages_of ((channel_id, recipients, payload) ∷ es) =
    sent_message (suc (length es)) channel_id recipients payload ∷ messages_of es

abbrev since : ℕ → List (Message ℕ) → List (Message ℕ)
since n [] = []
since n (m ∷ ms) = let rest = since n ms in if leb n m.seq then m ∷ rest else rest

abbrev answer : Entries → Result (Option ℕ)
answer [] = raise (error (rpc_error (some unavailable)))
answer (e ∷ es) = ok (some (suc (length (e ∷ es))))

abbrev openevent : OpenEventClient Entries ℕ
openevent = record {
  publish_auto_seq = λ principal token channel_id payload recipients w.
      (answer w, (channel_id, recipients, payload) ∷ w);
  get_status = λ principal token w. (ok (length w), w);
  fetch = λ principal token from_seq limit mine channels w. (
    ok (record {
      messages = since from_seq (messages_of w);
      next_seq = suc (length w);
      last_seq = length w;
    }),
    w,
  );
  get_channel = λ principal token channel_id w. (raise (error (rpc_error none)), w);
}

numbers : (es : Entries) (m : Message ℕ) → Member m (messages_of es) → m.seq ≤ length es
numbers [] m here = absurd here
numbers (e ∷ es) m (inl same) = omega (arith, ap (λ (m : Message ℕ). m.seq) same)
numbers (e ∷ es) m (inr here) = omega (arith, numbers es m here)

since_all :
    (n : ℕ) (ms : List (Message ℕ)) (m : Message ℕ)
    → Member m ms
    → n ≤ m.seq
    → Member m (since n ms)
since_all n [] m here h = absurd here
since_all n (x ∷ ms) m (inl same) h =
    if_ind (Member m) (leb n x.seq) _ _ (λ late. inl same)
      (λ early. absurd (ground (arith, ap (λ (m : Message ℕ). m.seq) same)))
since_all n (x ∷ ms) m (inr here) h =
    if_ind (Member m) (leb n x.seq) _ _ (λ late. inr (since_all n ms m here h))
      (λ early. since_all n ms m here h)

since_sound :
    (n : ℕ) (ms : List (Message ℕ)) (m : Message ℕ)
    → Member m (since n ms)
    → (n ≤ m.seq) × Member m ms
since_sound n [] m = λ here. absurd here
since_sound n (x ∷ ms) m =
    if_ind (λ (l : List (Message ℕ)). Member m l → (n ≤ m.seq) × Member m (x ∷ ms)) (leb n x.seq) _
      _
      (λ late here. elim here [
        | inl same ↦ (ground (arith, ap (λ (m : Message ℕ). m.seq) same), inl same)
        | inr later ↦ let (h, k) = since_sound n ms m later in (h, inr k)
      ])
      (λ early later. let (h, k) = since_sound n ms m later in (h, inr k))

refused_lem :
    (w : Entries) (e : Error) (code : StatusCode)
    → answer w ≡ raise e
    → error_class e ≡ rpc_error (some code)
    → ¬ Refuses code
unfolding error_class
refused_lem [] e code h same no_token = grind arith
refused_lem [] e code h same no_permission = grind arith
refused_lem [] e code h same no_target = grind arith
refused_lem [] e code h same bad_request = grind arith
refused_lem [] e code h same no_room = grind arith
refused_lem (x ∷ w) e code h same r = cc

answered : (w : Entries) (seq : ℕ) → answer w ≡ ok (some seq) → seq ≡ suc (length w)
answered [] seq h = cc
answered (x ∷ w) seq h = grind arith

service : Service openevent 30
service = record {
  log = messages_of;
  max_seq = λ w. length w;
  status_log = λ token w. refl;
  fetch_log = λ token from_seq limit mine channels w. refl;
  status_bound = λ token w n h m here. omega (arith, numbers w m here, ok_injective h);
  status_max = λ token w n h. omega (arith, ok_injective h);
  publish_new = λ token c payload recipients w m here. elim here [
    | inl same ↦ inr (omega (arith, ap (λ (m : Message ℕ). m.seq) same))
    | inr old ↦ inl old
  ];
  publish_kept = λ token c payload recipients w m here. inr here;
  publish_single = λ token c payload recipients w m m' here here' h h'. elim here [
    | inl same ↦ elim here' [
      | inl same' ↦ same ∙ sym same'
      | inr old ↦ absurd (omega (arith, numbers w m' old))
    ]
    | inr old ↦ absurd (omega (arith, numbers w m old))
  ];
  publish_ok = λ token c payload recipients w seq h. (
    omega (arith, answered w seq h),
    inl (ap (λ n. sent_message n c recipients payload) (answered w seq h)),
  );
  refused = λ token c payload recipients w e code h same r. absurd (refused_lem w e code h same r);
  fetch_all = λ token from_seq limit c w page h m here same after before.
      subst (λ (p : FetchResponse ℕ). Member m p.messages) (ok_injective h)
        (since_all from_seq (messages_of w) m here after);
  fetch_sound = λ token from_seq limit c w page h m here.
      let here' =
        subst (λ (p : FetchResponse ℕ). Member m p.messages) (sym (ok_injective h)) here in
      let (late, there) = since_sound from_seq (messages_of w) m here' in (late, λ mine. there);
}

abbrev out : Outgoing ℕ
out = record { principal = 30; token = "t"; channel_id = 7; payload = 5; recipients = 20 ∷ [] }

abbrev worker : Worker Entries
worker = record {
  im_client = record {
    publish_send_result = λ principal token channel_id recipients req. publish out openevent;
    publish_sync_record = λ principal token channel_id recipients req. publish out openevent;
  };
  adapters = [];
  retry = retry_config;
  worker_principal = 30;
  worker_token = "t";
  stop_event = record { is_set = pure false; wait = λ ms. pure false };
  now = pure 0;
}

some_allowed : 1 ≤ retry_config.publish_max_attempts
some_allowed = omega arith

scan_lem_example :
    scan out openevent 1 1 ((7, 20 ∷ [], 5) ∷ [])
    ≡ scan_page out openevent 1 (scan out openevent 1) 1 ((7, 20 ∷ [], 5) ∷ [])
scan_lem_example = scan_lem out openevent 1 1 ((7, 20 ∷ [], 5) ∷ [])

publish-Outcome_example : Outcome out openevent service [] (publish out openevent [])
publish-Outcome_example = publish-Outcome out openevent service []

publish-Reports_example : Reports (publish out openevent [])
publish-Reports_example = publish-Reports out openevent []

publish_with_retry-PublishedOnce_example :
    AllAttempts out openevent service worker
      (λ ms w. refl)
      []
      (publish_with_retry worker (publish out openevent) [])
publish_with_retry-PublishedOnce_example =
    publish_with_retry-PublishedOnce out openevent service worker (λ ms w. refl) [] some_allowed
