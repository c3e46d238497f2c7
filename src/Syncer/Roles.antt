-- ===== src/Syncer/Roles.antt =====
-- `_validate_message_roles` on a sync.record, over a mapping that has been built.
use openevent_modules_im.Prelude.{
  ℕ, ◌≡◌, ◌≢◌, ◌⊎◌, inl, inr, refl, ◌∙◌, ap, Bool, true, false, [], ◌∷◌, ◌==◌, contains, string_eq,
  nat_eq, list_eq, if◌then◌else◌, arith, Result, ok, raise, Bool-cases,
}
use openevent_modules_im.Prelude.Actions.{pure, throw}
use openevent_modules_im.Models.{MappingEntry, SyncerConfig}
use openevent_modules_im.Sdk.Model.{ParsedMessage}
use openevent_modules_im.Mapping.Index.{build, owns_channel, entries_for_channel}
use openevent_modules_im.Mapping.Pairs.{
  build-IsP2P, others, others_first, others_second, peer_principals-entries,
}
use openevent_modules_im.Processor.Model.{ProcessorState}
use openevent_modules_im.Syncer.Messages.{
  conflict, entries_of, peers_of, validate_sync_record, validate_message_roles,
}

-- Sent by one entry to the other.
abbrev pub FromOne : MappingEntry → MappingEntry → ParsedMessage → Type 0
FromOne x y parsed = (parsed.principal ≡ x.principal) × (parsed.recipients ≡ y.principal ∷ [])

abbrev pub FromPair : MappingEntry → MappingEntry → ParsedMessage → Type 0
FromPair x y parsed = FromOne x y parsed ⊎ FromOne y x parsed

-- The record is from one entry to the other, and accepted, or it is not, and refused.
abbrev pub Judged :
    {W : Type 0}
    → ProcessorState W
    → ParsedMessage
    → MappingEntry
    → MappingEntry
    → Result (Unit {0}) × ProcessorState W
    → Type 0
Judged p parsed x y r =
    (FromPair x y parsed × (r ≡ (ok tt, p))) ⊎ (¬ FromPair x y parsed × (r ≡ (raise conflict, p)))

module _ {W : Type 0} (p : ProcessorState W) (parsed : ParsedMessage) (x y : MappingEntry)
    (entries : entries_for_channel p.mapping parsed.channel_id ≡ (x ∷ y ∷ [], p.mapping))
    (differ : x.principal ≢ y.principal) where
  peers_of-entries : (n : ℕ) → peers_of parsed.channel_id n p ≡ (ok (others n (x ∷ y ∷ [])), p)
  unfolding peers_of
  peers_of-entries n =
      rw (peer_principals-entries p.mapping parsed.channel_id n (x ∷ y ∷ []) entries) refl

  decided :
      (b : Bool)
      → (if b then pure tt else throw conflict) p ≡ (if b then (ok tt, p) else (raise conflict, p))
  decided true = refl
  decided false = refl

  known_sender :
      (peer : ℕ)
      → contains (x.principal ∷ y.principal ∷ []) parsed.principal ≡ true
      → others parsed.principal (x ∷ y ∷ []) ≡ peer ∷ []
      → validate_sync_record (x ∷ y ∷ []) parsed p
        ≡ (if parsed.recipients == peer ∷ [] then (ok tt, p) else (raise conflict, p))
  unfolding validate_sync_record
  known_sender peer known peers =
      rw (known, peers_of-entries parsed.principal, peers)
        (decided (parsed.recipients == peer ∷ []))

  unknown_sender :
      contains (x.principal ∷ y.principal ∷ []) parsed.principal ≡ false
      → validate_sync_record (x ∷ y ∷ []) parsed p ≡ (raise conflict, p)
  unfolding validate_sync_record
  unknown_sender unknown = rw unknown refl

  validate_sync_record-Judged : Judged p parsed x y (validate_sync_record (x ∷ y ∷ []) parsed p)
  validate_sync_record-Judged = elim (nat_eq.dec parsed.principal x.principal) [
    | yes first ↦
        let run =
          known_sender y.principal (ground arith)
            (ap (λ n. others n (x ∷ y ∷ [])) first ∙ others_first x y differ) in
        elim (Bool-cases (parsed.recipients == y.principal ∷ [])) [
          | inl right ↦ inl (inl (first, ground arith), ground (arith, run))
          | inr wrong ↦ inr (ground arith, ground (arith, run))
        ]
    | no other ↦ elim (nat_eq.dec parsed.principal y.principal) [
      | yes second ↦
          let run =
            known_sender x.principal (ground arith)
              (ap (λ n. others n (x ∷ y ∷ [])) second ∙ others_second x y differ) in
          elim (Bool-cases (parsed.recipients == x.principal ∷ [])) [
            | inl right ↦ inl (inr (second, ground arith), ground (arith, run))
            | inr wrong ↦ inr (ground arith, ground (arith, run))
          ]
      | no neither ↦ inr (ground arith, unknown_sender (ground arith))
    ]
  ]

-- In a mapping that `_build` accepts, a sync.record of an owned channel is accepted exactly if it is from
-- one of the two participants of the channel to the other alone. Otherwise `_validate_message_roles` raises
-- StateConflictError. The processor, with its mapping, stays as it is.
pub validate_message_roles-Judged :
    {W : Type 0} (config : SyncerConfig) (p : ProcessorState W) (worker_principal : ℕ)
    (parsed : ParsedMessage)
    → build config ≡ ok p.mapping
    → owns_channel p.mapping parsed.channel_id ≡ true
    → parsed.kind ≡ "sync.record"
    → (x : MappingEntry) × (y : MappingEntry) × (entries_for_channel p.mapping parsed.channel_id
        ≡ (x ∷ y ∷ [], p.mapping))
      × (x.principal ≢ y.principal)
      × Judged p parsed x y (validate_message_roles worker_principal parsed p)
unfolding validate_message_roles entries_of
validate_message_roles-Judged config p worker_principal parsed built owned is_record =
    let (_, _, pair, same) = build-IsP2P config parsed.channel_id built owned in
    let entries : entries_for_channel p.mapping parsed.channel_id
        ≡ (pair.first ∷ pair.second ∷ [], p.mapping) =
      ground arith in
    let sync : (parsed.kind == "sync.record") ≡ true = ground arith in
    (
      pair.first,
      pair.second,
      entries,
      pair.principals,
      rw (sync, entries)
          (validate_sync_record-Judged p parsed pair.first pair.second entries pair.principals),
    )
