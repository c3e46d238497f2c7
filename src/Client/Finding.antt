-- ===== src/Client/Finding.antt =====
-- What the loop of `_reconcile_uncertain_publish` finds in the log of a `Service`.
use openevent_modules_im.Prelude.{
  ℕ, zero, suc, ◌-◌, ◌≤◌, ◌<◌, ◌≡◌, ◌⊎◌, refl, sym, ◌∙◌, subst, inl, inr, Bool, true, false, Option,
  none, some, List, [], ◌∷◌, ◌&&◌, not, Eq, nat_eq, list_eq, if◌then◌else◌, ltb, leb, arith, if_ind,
  Bool-cases, Member, Result, ok, raise, error, runtime_error,
}
use openevent_modules_im.Prelude.Actions.{Action, pure, throw, of_result, and_then, ◌>>=◌}
use openevent_modules_im.OpenEvent.{Message, FetchResponse, OpenEventClient}
use openevent_modules_im.Sdk.Normalizer.{require_uint64}
use openevent_modules_im.Client.Publish.{
  Outgoing, uint64, matches_publish, find_publish, after_page, scan_page, scan_pages,
}
use openevent_modules_im.Client.Service.{Service}

pub uint64-ok : (n : ℕ) (positive : Bool) (m : ℕ) → uint64 n positive ≡ ok m → m ≡ n
unfolding uint64 require_uint64
uint64-ok n positive m h = grind arith

leb-cases : (a b : ℕ) → (a ≤ b) ⊎ (b < a)
leb-cases a b = elim (Bool-cases (leb a b)) [
  | inl within ↦ inl (ground arith)
  | inr beyond ↦ inr (ground arith)
]

module _ {W Bytes : Type 0} ⦃eq : Eq Bytes⦄ (out : Outgoing Bytes)
    (openevent : OpenEventClient W Bytes) where
  -- The message is what `_publish` is to publish.
  abbrev pub IsMatch : Message Bytes → Type 0
  IsMatch m =
      (m.principal ≡ out.principal)
      × (m.channel_id ≡ out.channel_id)
      × (m.recipients ≡ out.recipients)
      × (m.payload ≡ out.payload)

  matches-IsMatch : (m : Message Bytes) → matches_publish out m ≡ true → IsMatch m
  unfolding matches_publish
  matches-IsMatch m h = ground arith

  IsMatch-matches : (m : Message Bytes) → IsMatch m → matches_publish out m ≡ true
  unfolding matches_publish
  IsMatch-matches m h = ground arith

  find_publish-some :
      (max_seq : ℕ) (ms : List (Message Bytes)) (seq : ℕ)
      → find_publish out max_seq ms ≡ some seq
      → (m : Message Bytes) × Member m ms × IsMatch m × (m.seq ≡ seq)
  unfolding find_publish
  find_publish-some max_seq [] seq h = cc
  find_publish-some max_seq (m ∷ ms) seq h =
      elim (Bool-cases (not (ltb max_seq m.seq) && matches_publish out m)) [
        | inl this ↦ (m, inl refl, matches-IsMatch m (ground arith), ground arith)
        | inr other ↦
            let (m', member, match, same) = find_publish-some max_seq ms seq (ground arith) in
            (m', inr member, match, same)
      ]

  find_publish-none :
      (max_seq : ℕ) (ms : List (Message Bytes))
      → find_publish out max_seq ms ≡ none
      → (m : Message Bytes) → Member m ms
      → IsMatch m
      → max_seq < m.seq
  unfolding find_publish
  find_publish-none max_seq [] h m member match = absurd member
  find_publish-none max_seq (x ∷ xs) h m (inl e) match =
      ground (arith, IsMatch-matches x (subst IsMatch e match))
  find_publish-none max_seq (x ∷ xs) h m (inr e) match =
      find_publish-none max_seq xs (ground arith) m e match

  module _ (service : Service openevent out.principal) (published : List (Message Bytes))
      (max_seq : ℕ) where
    open service use {log}

    -- What the loop says from `from_seq` on about the messages that are published.
    abbrev pub Found : ℕ → Result (Option ℕ) × W → Type 0
    Found from_seq (ok (some seq), w) =
        (log w ≡ published)
        × (from_seq ≤ seq)
        × ((m : Message Bytes) × Member m published × IsMatch m × (m.seq ≡ seq))
    Found from_seq (ok none, w) =
        (log w ≡ published)
        × ((m : Message Bytes)
            → Member m published
            → IsMatch m
            → from_seq ≤ m.seq
            → max_seq < m.seq)
    Found from_seq (raise e, w) = log w ≡ published

    pub Found-log :
        (from_seq : ℕ) (r : Result (Option ℕ) × W) → Found from_seq r → log r.1 ≡ published
    Found-log from_seq (ok (some seq), w) f = f.0
    Found-log from_seq (ok none, w) f = f.0
    Found-log from_seq (raise e, w) f = f

    Found-step :
        {A : Type 0} (from_seq : ℕ) (r : Result A) (w : W) (f : A → Action W (Option ℕ))
        → log w ≡ published
        → ((a : A) → r ≡ ok a → Found from_seq (f a w))
        → Found from_seq (and_then r f w)
    Found-step from_seq (ok a) w f same h = h a refl
    Found-step from_seq (raise e) w f same h = same

    beyond-Found :
        (from_seq : ℕ) (w : W)
        → log w ≡ published
        → max_seq < from_seq
        → Found from_seq (ok none, w)
    beyond-Found from_seq w same h = (same, λ m member match after. omega (arith, h, after))

    -- Pages up to `next_seq` without a match, and what follows.
    Found-earlier :
        (from_seq next_seq : ℕ) (r : Result (Option ℕ) × W)
        → from_seq ≤ next_seq
        → ((m : Message Bytes)
            → Member m published
            → IsMatch m
            → from_seq ≤ m.seq
            → m.seq < next_seq
            → max_seq < m.seq)
        → Found next_seq r
        → Found from_seq r
    Found-earlier from_seq next_seq (ok (some seq), w) h page f = (f.0, omega (arith, h, f.1), f.2)
    Found-earlier from_seq next_seq (ok none, w) h page f = (
      f.0,
      λ m member match after. elim (leb-cases next_seq m.seq) [
        | inl further ↦ f.1 m member match further
        | inr nearer ↦ page m member match after nearer
      ],
    )
    Found-earlier from_seq next_seq (raise e, w) h page f = f

    after_page-Found :
        (from_seq : ℕ) (rest : ℕ → Action W (Option ℕ)) (page : FetchResponse Bytes) (w0 w : W)
        → log w0 ≡ published
        → log w ≡ published
        → ((m : Message Bytes)
            → Member m (log w0)
            → m.channel_id ≡ out.channel_id
            → from_seq ≤ m.seq
            → m.seq < page.next_seq
            → Member m page.messages)
        → ((m : Message Bytes)
            → Member m page.messages
            → (from_seq ≤ m.seq) × (m.principal ≡ out.principal → Member m (log w0)))
        → ((n : ℕ) → from_seq < n → Found n (rest n w))
        → Found from_seq (after_page out openevent max_seq from_seq rest page w)
    unfolding after_page
    after_page-Found from_seq rest page w0 w same0 same whole sound further =
        by_match (find_publish out max_seq page.messages) refl
      where
        follow : Option ℕ → Action W (Option ℕ)
        follow o = elim o [
          | some seq ↦ of_result (uint64 seq true) >>= λ seq'. pure (some seq')
          | none ↦ of_result (uint64 page.next_seq true) >>= λ next_seq.
              if leb next_seq from_seq then throw (error runtime_error) else rest next_seq
        ]

        by_match :
            (o : Option ℕ)
            → find_publish out max_seq page.messages ≡ o
            → Found from_seq (follow o w)
        by_match (some seq) found =
            let (m, member, match, numbered) = find_publish-some max_seq page.messages seq found in
            let (after, own) = sound m member in
            Found-step from_seq (uint64 seq true) w _ same λ seq' valid. (
              same,
              omega (arith, after, numbered, uint64-ok seq true seq' valid),
              (
                m,
                subst (Member m) same0 (own match.0),
                match,
                numbered ∙ sym (uint64-ok seq true seq' valid),
              ),
            )
        by_match none found =
            Found-step from_seq (uint64 page.next_seq true) w _ same λ next_seq valid.
              if_ind (λ (a : Action W (Option ℕ)). Found from_seq (a w)) (leb next_seq from_seq) _ _
                (λ stays. same)
                (λ advances.
                  Found-earlier from_seq next_seq (rest next_seq w) (ground arith)
                    (λ m member match after before.
                      find_publish-none max_seq page.messages found m
                        (whole m (subst (Member m) (sym same0) member) match.1 after
                          (omega (arith, before, uint64-ok page.next_seq true next_seq valid)))
                        match)
                    (further next_seq (ground arith)))

    pub scan_pages-Found :
        (left from_seq : ℕ) (w : W)
        → suc max_seq - from_seq ≤ left
        → log w ≡ published
        → Found from_seq (scan_pages out openevent max_seq left from_seq w)
    unfolding scan_pages scan_page
    scan_pages-Found zero from_seq w enough same = beyond-Found from_seq w same (omega arith)
    scan_pages-Found (suc left) from_seq w enough same =
        if_ind (λ (a : Action W (Option ℕ)). Found from_seq (a w)) (ltb max_seq from_seq) _ _
          (λ over. beyond-Found from_seq w same (ground arith))
          (λ more.
            let (r, w') =
              openevent.fetch out.principal out.token from_seq 1000 false (out.channel_id ∷ []) w in
            let same' =
              service.fetch_log out.token from_seq 1000 false (out.channel_id ∷ []) w ∙ same in
            Found-step from_seq r w' _ same' λ page fetched.
              after_page-Found from_seq _ page w w' same same'
                (service.fetch_all out.token from_seq 1000 out.channel_id w page fetched)
                (service.fetch_sound out.token from_seq 1000 out.channel_id w page fetched)
                (λ n further. scan_pages-Found left n w' (omega arith) same'))
