-- ===== src/Repositories/Grants.antt =====
-- repositories/store.py: what apply_snapshot promises to admitted_policy.
use pr_reliability_platform.Prelude.{
  ℕ, ◌+◌, Bool, true, false, Option, none, List, [], ◌∷◌, Text, any, ◌&&◌, ◌||◌, if◌then◌else◌,
  is_some, update_where, find, filter, ◌≡◌, refl, ap, ◌∙◌, any-update_where_hit, is_some-find,
  Bool-cases, arith, inl, inr, and_false, false-true, some,
}
use pr_reliability_platform.Repositories.Tables.{
  Database, Installation, is_active, Repository, sync_repository, repository_removed,
}
use pr_reliability_platform.Repositories.Store.{
  audit, upsert, synchronize, synchronize_all, audit_removed, remove_gone, reconcile,
  apply_snapshot, admitted_row, InstallationSnapshot, InstallationRepository, has_revision,
  is_admitting, listed, reconciled_row, mem, ids, is_accessible, is_gone, removed_row,
  lock_installation, policy_of, admitted_policy, allows,
}
use pr_reliability_platform.Repositories.Access.{
  audit-installations, audit-now, granted, audit-repositories, remove_gone-granted,
  synchronize_all-granted,
}

-- The rows of the installations, and the time, stay as they are.
abbrev KeepsInstallations : Database → Database → Type 0
KeepsInstallations d e = (e.installations ≡ d.installations) × (e.now ≡ d.now)

module _ (new_ulid : ℕ → Text) (o : Text) (i : ℕ) where
  upsert-KeepsInstallations :
      (repo : InstallationRepository) (d : Database)
      → KeepsInstallations d (upsert new_ulid o i repo d)
  unfolding upsert
  upsert-KeepsInstallations repo d = ground arith

  synchronize-KeepsInstallations :
      (rev : ℕ) (repo : InstallationRepository) (d : Database)
      → KeepsInstallations d (synchronize new_ulid o i rev repo d)
  unfolding synchronize audit
  synchronize-KeepsInstallations rev repo d =
      let h = upsert-KeepsInstallations repo d in ground arith

  synchronize_all-KeepsInstallations :
      (rev : ℕ) (repos : List InstallationRepository) (d : Database)
      → KeepsInstallations d (synchronize_all new_ulid o i rev repos d)
  unfolding synchronize_all
  synchronize_all-KeepsInstallations rev [] d = (refl, refl)
  synchronize_all-KeepsInstallations rev (repo ∷ repos) d =
      let h = synchronize-KeepsInstallations rev repo d in
      let k = synchronize_all-KeepsInstallations rev repos (synchronize new_ulid o i rev repo d) in
      (k.0 ∙ h.0, k.1 ∙ h.1)

  audit_removed-KeepsInstallations :
      (rev : ℕ) (rs : List Repository) (d : Database)
      → KeepsInstallations d (audit_removed new_ulid o i rev rs d)
  unfolding audit_removed
  audit_removed-KeepsInstallations rev [] d = (refl, refl)
  audit_removed-KeepsInstallations rev (r ∷ rs) d =
      let k = sync_repository i rev r.github_repository_id in
      let v = repository_removed r.github_repository_id in
      let h = audit_removed-KeepsInstallations rev rs (audit o i k v d).1 in
      (h.0 ∙ audit-installations o i k v d, h.1 ∙ audit-now o i k v d)

  remove_gone-KeepsInstallations :
      (rev : ℕ) (kept : List ℕ) (d : Database)
      → KeepsInstallations d (remove_gone new_ulid o i rev kept d)
  unfolding remove_gone
  remove_gone-KeepsInstallations rev kept d =
      audit_removed-KeepsInstallations rev (filter (is_gone new_ulid o i kept) d.repositories)
        (record d {
          repositories =
              update_where (is_gone new_ulid o i kept) (removed_row new_ulid o i d.now)
                d.repositories;
        })

module _ (new_ulid : ℕ → Text) (o : Text) (snapshot : InstallationSnapshot) (rev : ℕ) where
  abbrev first_update : Database → Database
  first_update d = record d {
    installations =
        update_where (has_revision o snapshot.installation_id rev)
          (reconciled_row snapshot.state d.now) d.installations;
  }

  reconcile-KeepsInstallations :
      (d : Database) → KeepsInstallations (first_update d) (reconcile new_ulid o snapshot rev d)
  unfolding reconcile
  reconcile-KeepsInstallations d =
      let h =
        synchronize_all-KeepsInstallations new_ulid o snapshot.installation_id (rev + 1)
          (listed snapshot) (first_update d) in
      let k =
        remove_gone-KeepsInstallations new_ulid o snapshot.installation_id (rev + 1)
          (ids (listed snapshot))
          (synchronize_all new_ulid o snapshot.installation_id (rev + 1) (listed snapshot)
            (first_update d)) in
      (audit-installations o _ _ _ _ ∙ k.0 ∙ h.0, audit-now o _ _ _ _ ∙ k.1 ∙ h.1)

  or_absorbs : (a b : Bool) → a && (a || b) ≡ a
  or_absorbs a b = ground arith

  reconcile-granted :
      (g : ℕ) (d : Database)
      → granted new_ulid o snapshot.installation_id g (reconcile new_ulid o snapshot rev d)
        ≡ mem (ids (listed snapshot)) g
  unfolding reconcile
  reconcile-granted g d =
      ap (any (is_accessible o snapshot.installation_id g)) (audit-repositories o _ _ _ _)
      ∙ remove_gone-granted new_ulid o snapshot.installation_id (rev + 1) g (ids (listed snapshot))
          _
      ∙ ap (λ b. mem (ids (listed snapshot)) g && b)
          (synchronize_all-granted new_ulid o snapshot.installation_id (rev + 1) g (listed snapshot)
            (first_update d))
      ∙ or_absorbs (mem (ids (listed snapshot)) g) _

  reconciled-admits :
      (now : ℕ) (i : Installation)
      → is_active snapshot.state ≡ true
      → has_revision o snapshot.installation_id rev i ≡ true
      → is_admitting o snapshot.installation_id now (reconciled_row snapshot.state now i) ≡ true
  reconciled-admits now i h k = ground arith

  listed_active :
      (g : ℕ)
      → mem (ids (listed snapshot)) g
        ≡ is_active snapshot.state && mem (ids snapshot.repositories) g
  listed_active g = elim (Bool-cases (is_active snapshot.state)) [ inl e ↦ simp e | inr e ↦ simp e ]

  listed_none : (g : ℕ) → is_active snapshot.state ≡ false → mem (ids (listed snapshot)) g ≡ false
  listed_none g h = rw h

  is_some-if :
      {A : Type 0} (b : Bool) (a : Option A) → is_some (if b then a else none) ≡ b && is_some a
  is_some-if true a = refl
  is_some-if false a = refl

  reconcile-is_admitting :
      (d : Database)
      → is_active snapshot.state ≡ true
      → any (has_revision o snapshot.installation_id rev) d.installations ≡ true
      → any
          (is_admitting o snapshot.installation_id (reconcile new_ulid o snapshot rev d).now)
          (reconcile new_ulid o snapshot rev d).installations
        ≡ true
  reconcile-is_admitting d a h =
      let k = reconcile-KeepsInstallations d in
      rw (
        k.0,
        k.1,
        any-update_where_hit (is_admitting o snapshot.installation_id d.now)
            (has_revision o snapshot.installation_id rev) (reconciled_row snapshot.state d.now)
            d.installations (λ i. reconciled-admits d.now i a) h,
      )

  reconcile-admitted_row :
      (g : ℕ) (d : Database)
      → any (has_revision o snapshot.installation_id rev) d.installations ≡ true
      → is_some (admitted_row (reconcile new_ulid o snapshot rev d) o snapshot.installation_id g)
        ≡ mem (ids (listed snapshot)) g
  unfolding admitted_row
  reconcile-admitted_row g d h =
      is_some-if
        (any (is_admitting o snapshot.installation_id (reconcile new_ulid o snapshot rev d).now)
          (reconcile new_ulid o snapshot rev d).installations)
        (find (is_accessible o snapshot.installation_id g)
          (reconcile new_ulid o snapshot rev d).repositories)
      ∙ elim (Bool-cases (is_active snapshot.state)) [
        | inl a ↦ simp (reconcile-is_admitting d a h, is_some-find, reconcile-granted g d)
        | inr a ↦ simp (is_some-find, reconcile-granted g d, listed_none g a, and_false)
      ]

apply_snapshot-stale :
    (new_ulid : ℕ → Text) (o : Text) (snapshot : InstallationSnapshot) (rev : ℕ) (d : Database)
    → any
        (has_revision o snapshot.installation_id rev)
        (lock_installation o snapshot.installation_id d).installations
      ≡ false
    → (apply_snapshot new_ulid o snapshot rev d).0 ≡ false
unfolding apply_snapshot
apply_snapshot-stale new_ulid o snapshot rev d e = simp e

-- The query of `admitted_policy` finds exactly the repositories that the snapshot lists.
apply_snapshot-admitted_row :
    (new_ulid : ℕ → Text) (owner_id : Text) (snapshot : InstallationSnapshot) (revision : ℕ)
    (d : Database)
    → (apply_snapshot new_ulid owner_id snapshot revision d).0 ≡ true
    → (id : ℕ)
    → is_some (
        admitted_row
          (apply_snapshot new_ulid owner_id snapshot revision d).1
          owner_id
          snapshot.installation_id
          id)
      ≡ is_active snapshot.state && mem (ids snapshot.repositories) id
unfolding apply_snapshot
apply_snapshot-admitted_row new_ulid o snapshot rev d h g =
    let d0 = lock_installation o snapshot.installation_id d in
    elim (Bool-cases (any (has_revision o snapshot.installation_id rev) d0.installations)) [
      | inl e ↦ simp (
        e,
        reconcile-admitted_row new_ulid o snapshot rev g d0 e,
        listed_active new_ulid o snapshot rev g,
      )
      | inr e ↦ absurd (false-true (apply_snapshot-stale new_ulid o snapshot rev d e) h)
    ]

-- The settings of the row are on, and allow the branch.
abbrev pub is_enabled_for : Option Repository → Option Text → Bool
is_enabled_for none branch = false
is_enabled_for (some r) branch = r.enabled && allows r.enabled_branches branch

is_some-policy_of :
    (o : Option Repository) (branch : Option Text)
    → is_some (policy_of o branch) ≡ is_some o && is_enabled_for o branch
is_some-policy_of none branch = refl
is_some-policy_of (some r) branch = ground arith

-- After a synchronization that is applied, a repository has a policy for a branch in the installation
-- just when the installation is active, the snapshot lists the repository, and its row is enabled and
-- allows the branch; and the query of the policy finds the row of each listed repository of an active
-- installation, and of no other.
pub apply_snapshot_admits :
    (new_ulid : ℕ → Text) (owner_id : Text) (snapshot : InstallationSnapshot) (revision : ℕ)
    (d : Database)
    → (apply_snapshot new_ulid owner_id snapshot revision d).0 ≡ true
    → (id : ℕ) (branch : Option Text)
    → let e = (apply_snapshot new_ulid owner_id snapshot revision d).1 in
      let row = admitted_row e owner_id snapshot.installation_id id in
      let is_granted = is_active snapshot.state && mem (ids snapshot.repositories) id in
      (is_some row ≡ is_granted)
      × (is_some (admitted_policy e owner_id snapshot.installation_id id branch)
          ≡ is_granted && is_enabled_for row branch)
unfolding admitted_policy
apply_snapshot_admits new_ulid o snapshot rev d h g branch =
    let k = apply_snapshot-admitted_row new_ulid o snapshot rev d h g in
    (
      k,
      is_some-policy_of
            (admitted_row (apply_snapshot new_ulid o snapshot rev d).1 o snapshot.installation_id g)
            branch
          ∙ rw k refl,
    )
