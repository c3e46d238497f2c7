-- ===== src/Syncer/Scanning.antt =====
-- The `while` loop of `_scan_history`, without the number of pages.
use openevent_modules_im.Prelude.{
  ℕ, zero, suc, ◌-◌, ◌≤◌, ◌<◌, ◌≡◌, refl, sym, ◌∙◌, Bool, true, false, if◌then◌else◌, ltb, leb,
  arith, Result, ok, raise,
}
use openevent_modules_im.Prelude.Actions.{Action, and_then}
use openevent_modules_im.Processor.Model.{ProcessorState}
use openevent_modules_im.Processor.Outbound.{beyond}
use openevent_modules_im.Syncer.Model.{Syncer}
use openevent_modules_im.Syncer.History.{
  fetch_from, replay_page, history_page, history_pages, history_from,
}

and_then-agree :
    {S A B : Type 0} (r : Result A) (f g : A → Action S B) (s : S)
    → ((a : A) → f a s ≡ g a s)
    → and_then r f s ≡ and_then r g s
and_then-agree (ok a) f g s h = h a
and_then-agree (raise e) f g s h = refl

if-agree :
    {S A : Type 0} (b : Bool) (x y z : Action S A) (s : S)
    → (b ≡ false → y s ≡ z s)
    → (if b then x else y) s ≡ (if b then x else z) s
if-agree true x y z s h = refl
if-agree false x y z s h = h refl

module _ {W Bytes : Type 0} (syncer : Syncer W Bytes) (scan_end_seq : ℕ) where
  open syncer use {worker}

  history_page-agree :
      (from_seq : ℕ) (rest rest' : ℕ → Action (ProcessorState W × W) (Unit {0}))
      (s : ProcessorState W × W)
      → ((n : ℕ) (s : ProcessorState W × W) → from_seq < n → rest n s ≡ rest' n s)
      → history_page syncer scan_end_seq rest from_seq s
        ≡ history_page syncer scan_end_seq rest' from_seq s
  unfolding history_page
  history_page-agree from_seq rest rest' s agree =
      if-agree (ltb scan_end_seq from_seq) _ _ _ s λ more.
        and_then-agree (beyond worker.stop_event.is_set s).0 _ _
          (beyond worker.stop_event.is_set s).1
          λ stopped. if-agree stopped _ _ _ _ λ going.
            let (page, s1) = fetch_from syncer from_seq (beyond worker.stop_event.is_set s).1 in
            and_then-agree page _ _ s1 λ response.
              let (replayed, s2) = replay_page syncer scan_end_seq response.messages s1 in
              and_then-agree replayed _ _ s2 λ x.
                if-agree (leb response.next_seq from_seq) _ _ _ s2
                  λ further. agree response.next_seq s2 (ground arith)

  history_page-done :
      (rest : ℕ → Action (ProcessorState W × W) (Unit {0})) (from_seq : ℕ)
      (s : ProcessorState W × W)
      → scan_end_seq < from_seq
      → history_page syncer scan_end_seq rest from_seq s ≡ (ok tt, s)
  unfolding history_page
  history_page-done rest from_seq s h = ground arith

  history_pages-agree :
      (left left' from_seq : ℕ) (s : ProcessorState W × W)
      → suc scan_end_seq - from_seq ≤ left
      → suc scan_end_seq - from_seq ≤ left'
      → history_pages syncer scan_end_seq left from_seq s
        ≡ history_pages syncer scan_end_seq left' from_seq s
  unfolding history_pages
  history_pages-agree zero zero from_seq s h k = refl
  history_pages-agree zero (suc left') from_seq s h k =
      sym (history_page-done _ from_seq s (omega arith))
  history_pages-agree (suc left) zero from_seq s h k = history_page-done _ from_seq s (omega arith)
  history_pages-agree (suc left) (suc left') from_seq s h k =
      history_page-agree from_seq _ _ s
        (λ n s' further. history_pages-agree left left' n s' (omega arith) (omega arith))

  -- The scan of the history ends for every first page: it runs like a `while` loop without a bound on
  -- the pages, where a round stops, or replays a page and goes on at the `next_seq` of the page.
  pub history_from_lem :
      (from_seq : ℕ) (s : ProcessorState W × W)
      → history_from syncer scan_end_seq from_seq s
        ≡ history_page syncer scan_end_seq (history_from syncer scan_end_seq) from_seq s
  unfolding history_from history_pages
  history_from_lem from_seq s =
      history_pages-agree (suc scan_end_seq - from_seq) (suc (suc scan_end_seq - from_seq)) from_seq
        s (omega arith) (omega arith)
      ∙ history_page-agree from_seq _ _ s (λ n s' further.
        history_pages-agree (suc scan_end_seq - from_seq) (suc scan_end_seq - n) n s' (omega arith)
          (omega arith))
