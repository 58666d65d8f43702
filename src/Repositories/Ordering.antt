-- ===== src/Repositories/Ordering.antt =====
-- repositories/lifecycle.py and store.py: deliveries that are repeated, and synchronizations that
-- they overtake.
use pr_reliability_platform.Prelude.{
  ℕ, ◌+◌, Bool, true, false, Option, Text, text_eq, any, ltb, ◌==◌, ◌&&◌, ◌≡◌, ap, ◌∙◌,
  any-update_where, Bool-cases, arith, any-append, inl, inr, text_eq_refl, ==_refl, any-false,
  false-true,
}
use pr_reliability_platform.Repositories.Tables.{
  Database, EventKey, EventData, InstallationState, is_installation, webhook, key_eq, lifecycle,
}
use pr_reliability_platform.Repositories.Store.{
  lock_installation, audit, apply_snapshot, InstallationSnapshot, has_revision,
}
use pr_reliability_platform.Repositories.Lifecycle.{
  revise, revised_row, note_added, revoke, receive_lifecycle, Delivery, new_state, removed_ids,
  action_value, added_ids,
}
use pr_reliability_platform.Repositories.Access.{audit-installations}

abbrev pub has_row : Text → ℕ → Database → Bool
has_row o i d = any (is_installation o i) d.installations

abbrev has_event : Text → EventKey → Database → Bool
has_event o k d = any (λ e. text_eq e.owner_id o && key_eq e.event_key k) d.events

module _ (o : Text) (i : ℕ) where
  pub has_row-lock : (d : Database) → has_row o i (lock_installation o i d) ≡ true
  unfolding lock_installation
  has_row-lock d = elim (Bool-cases (has_row o i d)) [
    | inl e ↦ simp e
    | inr e ↦ simp (e, any-append, text_eq_refl o, ==_refl i)
  ]

  pub lock-has_row : (d : Database) → has_row o i d ≡ true → lock_installation o i d ≡ d
  unfolding lock_installation
  lock-has_row d h = simp h

  revise-has_row :
      (s : Option InstallationState) (d : Database) → has_row o i (revise o i s d) ≡ has_row o i d
  unfolding revise
  revise-has_row s d =
      any-update_where (is_installation o i) (is_installation o i) (is_installation o i)
        (revised_row o i s d.now) d.installations
        (λ r. elim (Bool-cases (is_installation o i r)) [ inl e ↦ simp e | inr e ↦ simp e ])

  stale-revise :
      (rev : ℕ) (s : Option InstallationState) (d : Database)
      → any (λ r. is_installation o i r && ltb r.revision rev) d.installations ≡ false
      → any (has_revision o i rev) (revise o i s d).installations ≡ false
  unfolding revise
  stale-revise rev s d h =
      any-update_where (has_revision o i rev)
        (λ r. is_installation o i r && (r.revision + 1 == rev)) (is_installation o i)
        (revised_row o i s d.now) d.installations
        (λ r. elim (Bool-cases (is_installation o i r)) [ inl e ↦ simp e | inr e ↦ simp e ])
      ∙ any-false (λ r. is_installation o i r && ltb r.revision rev)
          (λ r. is_installation o i r && (r.revision + 1 == rev)) d.installations
          (λ r e. ground arith) h

  key_eq_refl : (delivery_id : Text) → key_eq (webhook delivery_id) (webhook delivery_id) ≡ true
  key_eq_refl delivery_id = text_eq_refl delivery_id

  audit-has_event :
      (delivery_id : Text) (e : EventData) (d : Database)
      → has_event o (webhook delivery_id) (audit o i (webhook delivery_id) e d).1 ≡ true
  unfolding audit
  audit-has_event delivery_id e d = elim (Bool-cases (has_event o (webhook delivery_id) d)) [
    | inl h ↦ simp h
    | inr h ↦ simp (h, any-append, text_eq_refl o, text_eq_refl delivery_id)
  ]

  audit_again :
      (k : EventKey) (e : EventData) (d : Database)
      → has_event o k d ≡ true
      → audit o i k e d ≡ (false, d)
  unfolding audit
  audit_again k e d h = simp h

  abbrev revised : Delivery → Database → Database
  revised payload d = revoke o i payload (note_added o i payload (revise o i (new_state payload) d))

  delivery-events : (payload : Delivery) (d : Database) → (revised payload d).events ≡ d.events
  unfolding revoke note_added revise
  delivery-events payload d = ground arith

  delivery-installations :
      (payload : Delivery) (d : Database)
      → (revised payload d).installations ≡ (revise o i (new_state payload) d).installations
  unfolding revoke note_added revise
  delivery-installations payload d = ground arith

  delivery-has_row :
      (payload : Delivery) (d : Database) → has_row o i (revised payload d) ≡ has_row o i d
  delivery-has_row payload d =
      ap (any (is_installation o i)) (delivery-installations payload d)
      ∙ revise-has_row (new_state payload) d

  stale-delivery :
      (rev : ℕ) (payload : Delivery) (d : Database)
      → any (λ r. is_installation o i r && ltb r.revision rev) d.installations ≡ false
      → any (has_revision o i rev) (revised payload d).installations ≡ false
  stale-delivery rev payload d h =
      ap (any (has_revision o i rev)) (delivery-installations payload d)
      ∙ stale-revise rev (new_state payload) d h

module _ (o : Text) (i : ℕ) (event_type delivery_id : Text) (payload : Delivery) where
  receive-recorded :
      (d : Database)
      → has_row o i d ≡ true
      → has_event o (webhook delivery_id) d ≡ true
      → receive_lifecycle o i event_type delivery_id payload d ≡ (true, d)
  unfolding receive_lifecycle
  receive-recorded d h k = simp (lock-has_row o i d h, audit_again o i (webhook delivery_id) _ d k)

  abbrev event_of : EventData
  event_of = lifecycle event_type (action_value payload) (removed_ids payload) (added_ids payload)

  abbrev recorded : Database → Bool × Database
  recorded d = audit o i (webhook delivery_id) event_of (lock_installation o i d)

  receive-has_row :
      (d : Database) → has_row o i (receive_lifecycle o i event_type delivery_id payload d).1 ≡ true
  unfolding receive_lifecycle
  receive-has_row d =
      let h =
        ap (any (is_installation o i))
          (audit-installations o i (webhook delivery_id) event_of (lock_installation o i d))
        ∙ has_row-lock o i d in
      elim (Bool-cases (recorded d).0) [
        | inl f ↦ simp (f, delivery-has_row o i payload (recorded d).1, h)
        | inr f ↦ simp (f, h)
      ]

  receive-has_event :
      (d : Database)
      → has_event o (webhook delivery_id) (receive_lifecycle o i event_type delivery_id payload d).1
        ≡ true
  unfolding receive_lifecycle
  receive-has_event d =
      let h = audit-has_event o i delivery_id event_of (lock_installation o i d) in
      elim (Bool-cases (recorded d).0) [
        | inl f ↦ simp (f, delivery-events o i payload (recorded d).1, h)
        | inr f ↦ simp (f, h)
      ]

  -- A fresh delivery in full, where the installation has a row.
  receive-fresh :
      (d : Database)
      → has_row o i d ≡ true
      → (receive_lifecycle o i event_type delivery_id payload d).0 ≡ false
      → (receive_lifecycle o i event_type delivery_id payload d).1
        ≡ revised o i payload (audit o i (webhook delivery_id) event_of d).1
  unfolding receive_lifecycle
  receive-fresh d h k = elim (Bool-cases (audit o i (webhook delivery_id) event_of d).0) [
    | inl f ↦ simp (lock-has_row o i d h, f)
    | inr f ↦ absurd (false-true k (simp (lock-has_row o i d h, f)))
  ]

-- A delivery with an identifier that was received before is reported as a duplicate and changes no
-- table, whatever its event and its payload are.
pub receive_lifecycle_again :
    (owner_id : Text) (installation_id : ℕ) (event_type event_type' delivery_id : Text)
    (payload payload' : Delivery) (d : Database)
    → let answer = receive_lifecycle owner_id installation_id event_type delivery_id payload d in
      receive_lifecycle owner_id installation_id event_type' delivery_id payload' answer.1
      ≡ (true, answer.1)
receive_lifecycle_again o i event_type event_type' delivery_id payload payload' d =
    receive-recorded o i event_type' delivery_id payload' _
      (receive-has_row o i event_type delivery_id payload d)
      (receive-has_event o i event_type delivery_id payload d)

apply-stale :
    (new_ulid : ℕ → Text) (o : Text) (snapshot : InstallationSnapshot) (rev : ℕ) (d : Database)
    → has_row o snapshot.installation_id d ≡ true
    → any (has_revision o snapshot.installation_id rev) d.installations ≡ false
    → apply_snapshot new_ulid o snapshot rev d ≡ (false, d)
unfolding apply_snapshot
apply-stale new_ulid o snapshot rev d h k = simp (lock-has_row o snapshot.installation_id d h, k)

-- A synchronization whose revision was read before a fresh delivery is not applied after it and
-- changes no table, if the installation had a row and no older revision than the one read.
pub apply_snapshot_after_delivery :
    (new_ulid : ℕ → Text) (owner_id : Text) (snapshot : InstallationSnapshot) (revision : ℕ)
    (event_type delivery_id : Text) (payload : Delivery) (d : Database)
    → any (is_installation owner_id snapshot.installation_id) d.installations ≡ true
    → any
        (λ i. is_installation owner_id snapshot.installation_id i && ltb i.revision revision)
        d.installations
      ≡ false
    → let answer =
        receive_lifecycle owner_id snapshot.installation_id event_type delivery_id payload d in
      answer.0 ≡ false
      → apply_snapshot new_ulid owner_id snapshot revision answer.1 ≡ (false, answer.1)
apply_snapshot_after_delivery new_ulid o snapshot rev event_type delivery_id payload d h k fresh =
    let i = snapshot.installation_id in
    let e = event_of o i event_type delivery_id payload in
    let d1 = (audit o i (webhook delivery_id) e d).1 in
    let same = audit-installations o i (webhook delivery_id) e d in
    simp (
      receive-fresh o i event_type delivery_id payload d h fresh,
      apply-stale new_ulid o snapshot rev (revised o i payload d1)
          (delivery-has_row o i payload d1 ∙ ap (any (is_installation o i)) same ∙ h)
          (stale-delivery o i rev payload d1
            (ap (any (λ r. is_installation o i r && ltb r.revision rev)) same ∙ k)),
    )
