-- ===== src/Syncer/Snapshots.antt =====
-- The snapshots of the loop that polls: what holds between its rounds.
use openevent_modules_im.Prelude.{
  ℕ, ◌≡◌, ◌≤◌, ◌<◌, refl, sym, subst, ap, false, ◌||◌, not, Bool-cases, Option, none, some, is_some,
  List, [], ◌∷◌, ◌++◌, nat_eq, if◌then◌else◌, ltb, leb, Result, ok, raise, Error, inl, inr, All,
  arith,
}
use openevent_modules_im.Prelude.Actions.{Action, pure, of_result}
use openevent_modules_im.Prelude.Ensuring.{Ensured, accepted, refused}
use openevent_modules_im.Prelude.Returning.{
  Returns, value-Returns, throw-Returns, bind-Returns, if-Returns,
}
use openevent_modules_im.OpenEvent.{Message, FetchResponse}
use openevent_modules_im.Processor.Model.{ProcessorState, fatal_from}
use openevent_modules_im.Processor.Outbound.{beyond}
use openevent_modules_im.Processor.Tick.{tick}
use openevent_modules_im.Syncer.Model.{Syncer}
use openevent_modules_im.Syncer.History.{fetch_from}
use openevent_modules_im.Syncer.Polling.{
  Poll, first_poll, is_any, later_than, prefetch, is_transient_fetch_error, validated_next_seq,
  current_of, snapshot_of, process_each, sleep, end_round, take_prefetched, take_page, fetch_failed,
  fetch_round, poll_round,
}

module _ {Bytes : Type 0} where
  -- The messages come after a position.
  abbrev pub After : ℕ → List (Message Bytes) → Type 0
  After n ms = All (λ (m : Message Bytes). n < m.seq) ms

  -- A snapshot that is not finished: the next page belongs to it, the prefetched messages do not.
  abbrev pub InSnapshot : ℕ → List (Message Bytes) → Option ℕ → Type 0
  InSnapshot next_seq prefetched none = Unit {0}
  InSnapshot next_seq prefetched (some snapshot) = (next_seq ≤ snapshot) × After snapshot prefetched

  -- Between two rounds.
  abbrev pub IsPolled : Poll Bytes → Type 0
  IsPolled poll =
      (is_some poll.prefetched_last_seq ≡ is_any poll.prefetched_messages)
      × InSnapshot poll.next_seq poll.prefetched_messages poll.snapshot_last_seq

  abbrev pub Continues : Option (Poll Bytes) → Type 0
  Continues none = Unit {0}
  Continues (some poll) = IsPolled poll

  later_than-After : (n : ℕ) (ms : List (Message Bytes)) → After n (later_than n ms)
  unfolding later_than
  later_than-After n [] = tt
  later_than-After n (m ∷ ms) = elim (Bool-cases (ltb n m.seq)) [
    | inl later ↦ rw later (ground arith, later_than-After n ms)
    | inr now ↦ rw now (later_than-After n ms)
  ]

  append-After :
      (n : ℕ) (ms : List (Message Bytes)) (ns : List (Message Bytes))
      → After n ms
      → After n ns
      → After n (ms ++ ns)
  append-After n [] ns h k = k
  append-After n (m ∷ ms) ns (h, hs) k = (h, append-After n ms ns hs k)

  no_messages : (n : ℕ) (ms : List (Message Bytes)) → false ≡ is_any ms → After n ms
  unfolding is_any
  no_messages n [] h = tt
  no_messages n (m ∷ ms) h = cc

  -- `prefetch` sets `prefetched_last_seq` exactly if there are prefetched messages.
  prefetched_lem :
      (ms ns : List (Message Bytes)) (o : Option ℕ) (n : ℕ)
      → is_some o ≡ is_any ms
      → is_some (if is_any (ms ++ ns) then some n else o) ≡ is_any (ms ++ ns)
  unfolding is_any
  prefetched_lem [] [] o n h = h
  prefetched_lem [] (m ∷ ns) o n h = refl
  prefetched_lem (m ∷ ms) ns o n h = refl

  prefetch-IsPolled :
      (snapshot : ℕ) (response : FetchResponse Bytes) (poll : Poll Bytes)
      → is_some poll.prefetched_last_seq ≡ is_any poll.prefetched_messages
      → After snapshot poll.prefetched_messages
      → (is_some (prefetch snapshot response poll).prefetched_last_seq
          ≡ is_any (prefetch snapshot response poll).prefetched_messages)
        × After snapshot (prefetch snapshot response poll).prefetched_messages
  unfolding prefetch
  prefetch-IsPolled snapshot response poll h after = (
    prefetched_lem poll.prefetched_messages (later_than snapshot response.messages)
        poll.prefetched_last_seq _ h,
    append-After snapshot poll.prefetched_messages _ after
        (later_than-After snapshot response.messages),
  )

  -- Prefetched messages are there in a snapshot only, or where the next round takes them over.
  snapshot_of-After :
      (response : FetchResponse Bytes) (poll : Poll Bytes)
      → IsPolled poll
      → (poll.snapshot_last_seq ≡ none → poll.prefetched_last_seq ≡ none)
      → After (snapshot_of response poll) poll.prefetched_messages
  unfolding snapshot_of
  snapshot_of-After response poll (agree, after) unread =
      by_snapshot poll.snapshot_last_seq after unread
    where
      by_snapshot :
          (o : Option ℕ)
          → InSnapshot poll.next_seq poll.prefetched_messages o
          → (o ≡ none → poll.prefetched_last_seq ≡ none)
          → After
              (elim o as (λ x. ℕ) [ none ↦ response.last_seq | some n ↦ n ])
              poll.prefetched_messages
      by_snapshot none h k =
          no_messages response.last_seq poll.prefetched_messages
            (subst (λ l. is_some l ≡ is_any poll.prefetched_messages) (k refl) agree)
      by_snapshot (some n) (h, after) k = after

module _ {W Bytes : Type 0} (syncer : Syncer W Bytes) where
  open syncer use {worker, around}

  end_round-Returns :
      (snapshot : ℕ) (poll : Poll Bytes)
      → is_some poll.prefetched_last_seq ≡ is_any poll.prefetched_messages
      → After snapshot poll.prefetched_messages
      → poll.snapshot_last_seq ≡ some snapshot
      → Returns Continues (end_round syncer snapshot poll)
  unfolding end_round
  end_round-Returns snapshot poll agree after current =
      elim (Bool-cases (leb poll.next_seq snapshot)) [
        | inl unread ↦ rw unread (
            value-Returns Continues (some poll) (
              agree,
              subst (InSnapshot poll.next_seq poll.prefetched_messages) (sym current)
                  (ground arith, after),
            ))
        | inr read ↦ rw read (
            bind-Returns Continues (tick worker) _ λ worked.
              bind-Returns Continues (if poll.snapshot_had_messages then pure tt else sleep syncer)
                _
                λ x.
                  value-Returns Continues
                    (some (record poll { snapshot_last_seq = none; snapshot_had_messages = false }))
                    (agree, tt))
      ]

  take_prefetched-Returns :
      (last_seq : ℕ) (poll : Poll Bytes) → Returns Continues (take_prefetched syncer last_seq poll)
  unfolding take_prefetched is_any
  take_prefetched-Returns last_seq poll =
      bind-Returns Continues (process_each syncer poll.prefetched_messages) _
        λ x. end_round-Returns last_seq _ refl tt refl

  take_page-Returns :
      (response : FetchResponse Bytes) (poll : Poll Bytes)
      → IsPolled poll
      → (poll.snapshot_last_seq ≡ none → poll.prefetched_last_seq ≡ none)
      → Returns Continues (take_page syncer response poll)
  unfolding take_page prefetch
  take_page-Returns response poll polled unread =
      let (agree, after) =
        prefetch-IsPolled (snapshot_of response poll) response poll polled.0
          (snapshot_of-After response poll polled unread) in
      bind-Returns Continues
        (process_each syncer (current_of (snapshot_of response poll) response.messages)) _
        λ x.
          bind-Returns Continues (of_result (validated_next_seq response poll.next_seq)) _
            λ next_seq.
              end_round-Returns (snapshot_of response poll)
                (record (prefetch (snapshot_of response poll) response poll) {
                  snapshot_had_messages =
                      poll.snapshot_had_messages
                      || is_any (current_of (snapshot_of response poll) response.messages);
                  next_seq = next_seq;
                })
                agree after refl

  fetch_failed-Returns :
      (poll : Poll Bytes) (e : Error)
      → IsPolled poll
      → Returns Continues (fetch_failed syncer poll e)
  unfolding fetch_failed
  fetch_failed-Returns poll e polled =
      bind-Returns Continues (beyond worker.stop_event.is_set) _ λ stopped.
        if-Returns Continues stopped _ _ (value-Returns Continues none tt) (
          if-Returns Continues (not (is_transient_fetch_error e)) _ _
            (throw-Returns Continues (fatal_from e))
            (bind-Returns Continues (sleep syncer) _
              λ x. value-Returns Continues (some poll) polled))

  fetch_round-Returns :
      (poll : Poll Bytes)
      → IsPolled poll
      → (poll.snapshot_last_seq ≡ none → poll.prefetched_last_seq ≡ none)
      → Returns Continues (fetch_round syncer poll)
  unfolding fetch_round
  fetch_round-Returns poll polled unread = record {
    returned = λ s. let (result, s') = fetch_from syncer poll.next_seq s in by_result result s';
  }
    where
      by_result :
          (r : Result (FetchResponse Bytes)) (s : ProcessorState W × W)
          → Ensured
              (λ e. Unit {0})
              Continues
              (elim r as (λ x. Result (Option (Poll Bytes)) × (ProcessorState W × W)) [
                | ok response ↦ take_page syncer response poll s
                | raise e ↦ fetch_failed syncer poll e s
              ]).0
      by_result (ok response) s = (take_page-Returns response poll polled unread).returned s
      by_result (raise e) s = (fetch_failed-Returns poll e polled).returned s

  unread-Returns :
      (poll : Poll Bytes) (last_seq : Option ℕ)
      → IsPolled poll
      → poll.prefetched_last_seq ≡ last_seq
      → Returns Continues
          (elim last_seq as (λ x. Action (ProcessorState W × W) (Option (Poll Bytes))) [
            | none ↦ fetch_round syncer poll
            | some n ↦ take_prefetched syncer n poll
          ])
  unread-Returns poll none polled same = fetch_round-Returns poll polled (λ h. same)
  unread-Returns poll (some n) polled same = take_prefetched-Returns n poll

  poll_round-Returns :
      (poll : Poll Bytes) → IsPolled poll → Returns Continues (poll_round syncer poll)
  unfolding poll_round
  poll_round-Returns poll polled =
      bind-Returns Continues (beyond worker.stop_event.is_set) _ λ stopped.
        if-Returns Continues stopped _ _ (value-Returns Continues none tt)
          (elim (Bool-cases (is_some poll.snapshot_last_seq)) [
            | inl running ↦ rw running (fetch_round-Returns poll polled λ h. cc)
            | inr finished ↦ rw finished (unread-Returns poll poll.prefetched_last_seq polled refl)
          ])

  -- What the loop keeps after some rounds.
  pub data Polled (from_seq : ℕ) : Poll Bytes → Type 0 where
    entered : Polled from_seq (first_poll from_seq)
    went_on :
        {poll poll' : Poll Bytes} (s s' : ProcessorState W × W)
        → Polled from_seq poll
        → poll_round syncer poll s ≡ (ok (some poll'), s')
        → Polled from_seq poll'

  continued :
      (r : Result (Option (Poll Bytes))) (poll : Poll Bytes)
      → Ensured (λ e. Unit {0}) Continues r
      → r ≡ ok (some poll)
      → IsPolled poll
  continued r poll (accepted {a = none} h) e = cc
  continued r poll (accepted {a = some p} h) e = subst Continues (by_cc e) h
    where
      by_cc : ok (some p) ≡ ok (some poll) → some p ≡ some poll
      by_cc e = cc
  continued r poll (refused h) e = cc

  -- Between two rounds of the loop, whatever OpenEvent answers: `prefetched_last_seq` is set exactly if
  -- there are prefetched messages; and if a snapshot is not finished, the next page starts within it and
  -- the prefetched messages come after it.
  pub poll_round-IsPolled :
      (from_seq : ℕ) (poll : Poll Bytes) → Polled from_seq poll → IsPolled poll
  unfolding is_any
  poll_round-IsPolled from_seq poll entered = (refl, tt)
  poll_round-IsPolled from_seq poll (went_on {poll = before} s s' polled went) =
      continued _ poll
        ((poll_round-Returns before (poll_round-IsPolled from_seq before polled)).returned s)
        (ap (λ r. r.0) went)
