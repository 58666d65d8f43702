-- ===== src/Repositories/Revoke.antt =====
-- repositories/lifecycle.py: a delivery takes access away and never gives any.
use pr_reliability_platform.Prelude.{
  ℕ, Bool, true, false, Option, none, some, List, [], ◌∷◌, Text, text_eq, any, not, ◌==◌, ◌&&◌,
  ◌||◌, if◌then◌else◌, is_some, update_where, find, ◌≡◌, refl, ap, ◌∙◌, any-update_where,
  Bool-cases, arith, inl, text_eq→eq, inr, find-update_where, any-and, any-append, nonempty,
  find-none, and_false, or_false,
}
use pr_reliability_platform.Repositories.Access.{audit-installations, audit-repositories, audit-now}
use pr_reliability_platform.Repositories.Tables.{
  Database, Installation, EventKey, EventData, InstallationState, Repository, is_installation,
  webhook, lifecycle,
}
use pr_reliability_platform.Repositories.Store.{
  audit, admitted_row, admitted_policy, is_admitting, is_accessible, policy_of, mem,
  RepositoryPolicy, lock_installation,
}
use pr_reliability_platform.Repositories.Lifecycle.{
  created, installation_deleted, suspend, unsuspend, new_permissions_accepted, installation,
  repositories, revise, revised_row, note_added, noted_row, is_added, revoke, revoked_row,
  is_revoked, receive_lifecycle, Delivery, new_state, removed_ids, installation, repositories,
  action_value, added_ids,
}

-- The delivery is about this repository of this installation.
abbrev pub revokes : Text → ℕ → Delivery → Text → ℕ → ℕ → Bool
revokes o i payload o' i' g =
    (text_eq o' o && i' == i) && (is_some (new_state payload) || mem (removed_ids payload) g)

same_owner : (a b c : Text) → text_eq a b ≡ true → text_eq a c ≡ text_eq b c
same_owner a b c h = ap (λ t. text_eq t c) (text_eq→eq a b h)

module _ (o : Text) (i : ℕ) (o' : Text) (i' : ℕ) (g : ℕ) where
  -- The states of a delivery are not active.
  revised_same :
      (payload : Delivery) (now now' : ℕ) (r : Installation)
      → text_eq r.owner_id o ≡ text_eq o' o
      → is_admitting o' i' now
          (if is_installation o i r then revised_row o i (new_state payload) now' r else r)
        ≡ not ((text_eq o' o && i' == i) && is_some (new_state payload)) && is_admitting o' i' now r
  revised_same (installation created) now now' r h = ground arith
  revised_same (installation installation_deleted) now now' r h = ground arith
  revised_same (installation suspend) now now' r h = ground arith
  revised_same (installation unsuspend) now now' r h = ground arith
  revised_same (installation new_permissions_accepted) now now' r h = ground arith
  revised_same (repositories action adds removes) now now' r h = ground arith

  revised-admitting :
      (payload : Delivery) (now now' : ℕ) (r : Installation)
      → is_admitting o' i' now
          (if is_installation o i r then revised_row o i (new_state payload) now' r else r)
        ≡ not ((text_eq o' o && i' == i) && is_some (new_state payload)) && is_admitting o' i' now r
  revised-admitting payload now now' r = elim (Bool-cases (text_eq r.owner_id o')) [
    | inl e ↦ let h = same_owner r.owner_id o' o e in revised_same payload now now' r h
    | inr e ↦ ground arith
  ]

  accessible-noted :
      (payload : Delivery) (now : ℕ) (r : Repository)
      → is_accessible o' i' g (if is_added o i payload r then noted_row o i now r else r)
        ≡ is_accessible o' i' g r
  accessible-noted payload now r = ground arith

  policy-noted :
      (payload : Delivery) (now : ℕ) (r : Repository) (b : Option Text)
      → policy_of (some (if is_added o i payload r then noted_row o i now r else r)) b
        ≡ policy_of (some r) b
  policy-noted payload now r b = ground arith

  policy-revoked :
      (payload : Delivery) (now : ℕ) (r : Repository) (b : Option Text)
      → policy_of (some (if is_revoked o i payload r then revoked_row o i now r else r)) b
        ≡ policy_of (some r) b
  policy-revoked payload now r b = ground arith

  owner-accessible :
      (r : Repository) → is_accessible o' i' g r ≡ true → text_eq r.owner_id o' ≡ true
  owner-accessible r h = ground arith

  revoked-revokes :
      (payload : Delivery) (r : Repository)
      → is_accessible o' i' g r ≡ true
      → text_eq r.owner_id o ≡ text_eq o' o
      → is_revoked o i payload r ≡ revokes o i payload o' i' g
  revoked-revokes payload r h k = grind arith

  accessible-revoked :
      (payload : Delivery) (now : ℕ) (r : Repository)
      → is_accessible o' i' g (if is_revoked o i payload r then revoked_row o i now r else r)
        ≡ not (revokes o i payload o' i' g) && is_accessible o' i' g r
  accessible-revoked payload now r = elim (Bool-cases (is_accessible o' i' g r)) [
    | inl a ↦
        let h = revoked-revokes payload r a (same_owner r.owner_id o' o (owner-accessible r a)) in
        elim (Bool-cases (is_revoked o i payload r)) [ inl e ↦ ground arith | inr e ↦ ground arith ]
    | inr a ↦ elim (Bool-cases (is_revoked o i payload r)) [
      | inl e ↦ ground arith
      | inr e ↦ ground arith
    ]
  ]

-- What `admitted_policy` sees of the tables.
module _ (o' : Text) (i' : ℕ) (g : ℕ) (b : Option Text) where
  abbrev admits : Database → Bool
  admits d = any (is_admitting o' i' d.now) d.installations

  abbrev seen : Database → Option RepositoryPolicy
  seen d = policy_of (find (is_accessible o' i' g) d.repositories) b

  policy-seen : (d : Database) → admitted_policy d o' i' g b ≡ (if admits d then seen d else none)
  unfolding admitted_policy admitted_row
  policy-seen d = elim (Bool-cases (admits d)) [ inl e ↦ simp e | inr e ↦ simp e ]

  admits-lock : (o : Text) (i : ℕ) (d : Database) → admits (lock_installation o i d) ≡ admits d
  unfolding lock_installation
  admits-lock o i d = elim (Bool-cases (any (is_installation o i) d.installations)) [
    | inl e ↦ simp e
    | inr e ↦ simp (e, any-append, and_false, or_false)
  ]

  seen-lock : (o : Text) (i : ℕ) (d : Database) → seen (lock_installation o i d) ≡ seen d
  unfolding lock_installation
  seen-lock o i d = elim (Bool-cases (any (is_installation o i) d.installations)) [
    | inl e ↦ simp e
    | inr e ↦ simp e
  ]

  admits-revise :
      (o : Text) (i : ℕ) (payload : Delivery) (d : Database)
      → admits (revise o i (new_state payload) d)
        ≡ not ((text_eq o' o && i' == i) && is_some (new_state payload)) && admits d
  unfolding revise
  admits-revise o i payload d =
      any-update_where (is_admitting o' i' d.now)
        (λ r.
          not ((text_eq o' o && i' == i) && is_some (new_state payload))
          && is_admitting o' i' d.now r)
        (is_installation o i) (revised_row o i (new_state payload) d.now) d.installations
        (revised-admitting o i o' i' g payload d.now d.now)
      ∙ any-and _ (is_admitting o' i' d.now) d.installations

  seen-note_added :
      (o : Text) (i : ℕ) (payload : Delivery) (d : Database)
      → seen (note_added o i payload d) ≡ seen d
  unfolding note_added
  seen-note_added o i (installation action) d = refl
  seen-note_added o i (repositories action adds removes) d =
      find-update_where (λ r. policy_of r b) (is_accessible o' i' g)
        (is_added o i (repositories action adds removes)) (noted_row o i d.now) d.repositories
        (accessible-noted o i o' i' g (repositories action adds removes) d.now)
        (λ r. policy-noted o i o' i' g (repositories action adds removes) d.now r b)

  nonempty-mem : (ms : List ℕ) (n : ℕ) → nonempty ms ≡ false → mem ms n ≡ false
  nonempty-mem [] n h = refl
  nonempty-mem (m ∷ ms) n h = ground arith

  idle-revokes :
      (o : Text) (i : ℕ) (payload : Delivery)
      → nonempty (removed_ids payload) || is_some (new_state payload) ≡ false
      → revokes o i payload o' i' g ≡ false
  idle-revokes o i payload h = let k = nonempty-mem (removed_ids payload) g in ground arith

  seen-revoked :
      (o : Text) (i : ℕ) (payload : Delivery) (d : Database)
      → policy_of
          (find
            (is_accessible o' i' g)
            (update_where (is_revoked o i payload) (revoked_row o i d.now) d.repositories))
          b
        ≡ (if revokes o i payload o' i' g then none else seen d)
  seen-revoked o i payload d = elim (Bool-cases (revokes o i payload o' i' g)) [
    | inl e ↦ simp (
      e,
      find-none (is_accessible o' i' g) (is_revoked o i payload) (revoked_row o i d.now)
          d.repositories
          (λ r.
            accessible-revoked o i o' i' g payload d.now r
            ∙ ap (λ t. not t && is_accessible o' i' g r) e),
    )
    | inr e ↦ simp (
      e,
      find-update_where (λ r. policy_of r b) (is_accessible o' i' g) (is_revoked o i payload)
          (revoked_row o i d.now) d.repositories
          (λ r.
            accessible-revoked o i o' i' g payload d.now r
            ∙ ap (λ t. not t && is_accessible o' i' g r) e)
          (λ r. policy-revoked o i o' i' g payload d.now r b),
    )
  ]

  seen-revoke :
      (o : Text) (i : ℕ) (payload : Delivery) (d : Database)
      → seen (revoke o i payload d) ≡ (if revokes o i payload o' i' g then none else seen d)
  unfolding revoke
  seen-revoke o i payload d =
      elim (Bool-cases (nonempty (removed_ids payload) || is_some (new_state payload))) [
        | inl e ↦ simp (e, seen-revoked o i payload d)
        | inr e ↦ simp (e, idle-revokes o i payload e)
      ]

  admits-revoke :
      (o : Text) (i : ℕ) (payload : Delivery) (d : Database)
      → admits (revoke o i payload d) ≡ admits d
  unfolding revoke
  admits-revoke o i payload d =
      elim (Bool-cases (nonempty (removed_ids payload) || is_some (new_state payload))) [
        | inl e ↦ simp e
        | inr e ↦ simp e
      ]

  admits-note_added :
      (o : Text) (i : ℕ) (payload : Delivery) (d : Database)
      → admits (note_added o i payload d) ≡ admits d
  unfolding note_added
  admits-note_added o i (installation action) d = refl
  admits-note_added o i (repositories action adds removes) d = refl

  seen-revise :
      (o : Text) (i : ℕ) (s : Option InstallationState) (d : Database)
      → seen (revise o i s d) ≡ seen d
  unfolding revise
  seen-revise o i s d = refl

  combine :
      (same st m a : Bool) (s : Option RepositoryPolicy)
      → (if not (same && st) && a then if same && (st || m) then none else s else none)
        ≡ (if same && (st || m) then none else if a then s else none)
  combine same st m a s = ground arith

  -- A fresh delivery, after its event is recorded.
  policy-delivery :
      (o : Text) (i : ℕ) (payload : Delivery) (d : Database)
      → admitted_policy
          (revoke o i payload (note_added o i payload (revise o i (new_state payload) d)))
          o'
          i'
          g
          b
        ≡ (if revokes o i payload o' i' g then none else admitted_policy d o' i' g b)
  policy-delivery o i payload d =
      let d1 = revise o i (new_state payload) d in
      let d2 = note_added o i payload d1 in
      simp (
        policy-seen,
        admits-revoke o i payload d2,
        admits-note_added o i payload d1,
        admits-revise o i payload d,
        seen-revoke o i payload d2,
        seen-note_added o i payload d1,
        seen-revise o i (new_state payload) d,
        combine (text_eq o' o && i' == i) (is_some (new_state payload))
            (mem (removed_ids payload) g) (admits d) (seen d),
      )

  policy-recorded :
      (o : Text) (i : ℕ) (k : EventKey) (e : EventData) (d : Database)
      → admitted_policy (audit o i k e (lock_installation o i d)).1 o' i' g b
        ≡ admitted_policy d o' i' g b
  policy-recorded o i k e d = simp (
    policy-seen,
    audit-installations,
    audit-repositories,
    audit-now,
    admits-lock o i d,
    seen-lock o i d,
  )

-- What a lifecycle delivery does to every repository's policy: a fresh delivery takes it away where
-- the delivery deletes or suspends the repository's installation or removes the repository from it,
-- and otherwise, for a duplicate delivery too, the policy is what it was: none is ever granted.
pub receive_lifecycle-revokes :
    (owner_id : Text) (installation_id : ℕ) (event_type delivery_id : Text) (payload : Delivery)
    (d : Database) (owner : Text) (installation id : ℕ) (branch : Option Text)
    → let answer = receive_lifecycle owner_id installation_id event_type delivery_id payload d in
      admitted_policy answer.1 owner installation id branch ≡ (
        if not answer.0 && revokes owner_id installation_id payload owner installation id
        then none
        else admitted_policy d owner installation id branch)
unfolding receive_lifecycle
receive_lifecycle-revokes o i event_type delivery_id payload d o' i' g b =
    let k = webhook delivery_id in
    let e = lifecycle event_type (action_value payload) (removed_ids payload) (added_ids payload) in
    let (fresh, d1) = audit o i k e (lock_installation o i d) in
    let h = policy-recorded o' i' g b o i k e d in
    elim (Bool-cases fresh) [
      | inl f ↦ simp (f, policy-delivery o' i' g b o i payload d1, h)
      | inr f ↦ simp (f, h)
    ]
