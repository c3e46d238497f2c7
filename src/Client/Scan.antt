-- ===== src/Client/Scan.antt =====
-- The `while` loop of `_reconcile_uncertain_publish`, without the number of pages.
use openevent_modules_im.Prelude.{
  inl, inr, ℕ, zero, suc, ◌-◌, ◌≤◌, ◌<◌, ◌≡◌, refl, sym, ◌∙◌, true, false, Option, none, some, [],
  ◌∷◌, Eq, if◌then◌else◌, ltb, leb, arith, Bool-cases, Result, ok, raise, error, runtime_error,
}
use openevent_modules_im.Prelude.Actions.{Action, pure, throw, of_result, and_then, ◌>>=◌}
use openevent_modules_im.OpenEvent.{FetchResponse, OpenEventClient}
use openevent_modules_im.Client.Publish.{
  Outgoing, uint64, find_publish, after_page, scan_page, scan_pages, scan,
}

module _ {W Bytes : Type 0} ⦃eq : Eq Bytes⦄ (out : Outgoing Bytes)
    (openevent : OpenEventClient W Bytes) (max_seq from_seq : ℕ)
    (rest rest' : ℕ → Action W (Option ℕ))
    (agree : (n : ℕ) (w : W) → from_seq < n → rest n w ≡ rest' n w) where
  advanced-agree :
      (r : Result ℕ) (w : W)
      → and_then r
          (λ next_seq. if leb next_seq from_seq then throw (error runtime_error) else rest next_seq)
          w
        ≡ and_then r
            (λ next_seq.
              if leb next_seq from_seq then throw (error runtime_error) else rest' next_seq)
            w
  advanced-agree (raise e) w = refl
  advanced-agree (ok n) w = ground (arith, agree n w)

  after_page-agree :
      (response : FetchResponse Bytes) (w : W)
      → after_page out openevent max_seq from_seq rest response w
        ≡ after_page out openevent max_seq from_seq rest' response w
  unfolding after_page
  after_page-agree response w = by_match (find_publish out max_seq response.messages)
    where
      follow : (ℕ → Action W (Option ℕ)) → Option ℕ → Action W (Option ℕ)
      follow f o = elim o [
        | some seq ↦ of_result (uint64 seq true) >>= λ seq'. pure (some seq')
        | none ↦ of_result (uint64 response.next_seq true) >>= λ next_seq.
            if leb next_seq from_seq then throw (error runtime_error) else f next_seq
      ]

      by_match : (o : Option ℕ) → follow rest o w ≡ follow rest' o w
      by_match (some seq) = refl
      by_match none = advanced-agree (uint64 response.next_seq true) w

  fetched-agree :
      (r : Result (FetchResponse Bytes)) (w : W)
      → and_then r (after_page out openevent max_seq from_seq rest) w
        ≡ and_then r (after_page out openevent max_seq from_seq rest') w
  fetched-agree (raise e) w = refl
  fetched-agree (ok response) w = after_page-agree response w

  scan_page-agree :
      (w : W)
      → scan_page out openevent max_seq rest from_seq w
        ≡ scan_page out openevent max_seq rest' from_seq w
  unfolding scan_page
  scan_page-agree w = elim (Bool-cases (ltb max_seq from_seq)) [
    | inl done ↦ rw done refl
    | inr more ↦
        let (r, w') =
          openevent.fetch out.principal out.token from_seq 1000 false (out.channel_id ∷ []) w in
        rw more (fetched-agree r w')
  ]

module _ {W Bytes : Type 0} ⦃eq : Eq Bytes⦄ (out : Outgoing Bytes)
    (openevent : OpenEventClient W Bytes) (max_seq : ℕ) where
  scan_page-done :
      (rest : ℕ → Action W (Option ℕ)) (from_seq : ℕ) (w : W)
      → max_seq < from_seq
      → scan_page out openevent max_seq rest from_seq w ≡ (ok none, w)
  unfolding scan_page
  scan_page-done rest from_seq w h = ground arith

  -- Pages that are left over are not read.
  scan_pages-agree :
      (left left' from_seq : ℕ) (w : W)
      → suc max_seq - from_seq ≤ left
      → suc max_seq - from_seq ≤ left'
      → scan_pages out openevent max_seq left from_seq w
        ≡ scan_pages out openevent max_seq left' from_seq w
  unfolding scan_pages
  scan_pages-agree zero zero from_seq w h k = refl
  scan_pages-agree zero (suc left') from_seq w h k = sym (scan_page-done _ from_seq w (omega arith))
  scan_pages-agree (suc left) zero from_seq w h k = scan_page-done _ from_seq w (omega arith)
  scan_pages-agree (suc left) (suc left') from_seq w h k =
      scan_page-agree out openevent max_seq from_seq _ _
        (λ n w' further. scan_pages-agree left left' n w' (omega arith) (omega arith)) w

  -- The loop that finds a publish ends for every first page: it runs like a `while` loop without a
  -- bound on the pages, where a round reads a page and goes on at the `next_seq` of the page.
  pub scan_lem :
      (from_seq : ℕ) (w : W)
      → scan out openevent max_seq from_seq w
        ≡ scan_page out openevent max_seq (scan out openevent max_seq) from_seq w
  unfolding scan scan_pages scan_page
  scan_lem from_seq w =
      scan_pages-agree (suc max_seq - from_seq) (suc (suc max_seq - from_seq)) from_seq w
        (omega arith) (omega arith)
      ∙ scan_page-agree out openevent max_seq from_seq _ _
          (λ n w' further.
            scan_pages-agree (suc max_seq - from_seq) (suc max_seq - n) n w' (omega arith)
              (omega arith))
          w
