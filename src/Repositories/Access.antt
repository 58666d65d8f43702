-- ===== src/Repositories/Access.antt =====
-- repositories/store.py: which repositories a reconciliation gives access to.
use pr_reliability_platform.Prelude.{
  ℕ, Bool, true, false, List, [], ◌∷◌, Text, any, not, ◌==◌, ◌&&◌, ◌||◌, if◌then◌else◌, find, ◌≡◌,
  refl, any-update_where, any-update_where_hit, any-append, any-and, Bool-cases, inr, text_eq_refl,
  inl, ◌∙◌, ap,
}
use native.Mathlib.Omega.{arith}
use pr_reliability_platform.Repositories.Tables.{EventKey, EventData, Database, Repository}
use pr_reliability_platform.Repositories.Store.{
  audit, is_accessible, upsert, synchronize, InstallationRepository, is_repository, inserted_row,
  updated_row, metadata_eq, before_of, after_of, remove_gone, synchronize_all, audit_removed,
  is_gone, mem, ids, removed_row,
}

pub audit-installations :
    (o : Text) (i : ℕ) (k : EventKey) (e : EventData) (d : Database)
    → (audit o i k e d).1.installations ≡ d.installations
unfolding audit
audit-installations o i k e d = ground arith

pub audit-repositories :
    (o : Text) (i : ℕ) (k : EventKey) (e : EventData) (d : Database)
    → (audit o i k e d).1.repositories ≡ d.repositories
unfolding audit
audit-repositories o i k e d = ground arith

pub audit-now :
    (o : Text) (i : ℕ) (k : EventKey) (e : EventData) (d : Database)
    → (audit o i k e d).1.now ≡ d.now
unfolding audit
audit-now o i k e d = ground arith

module _ (new_ulid : ℕ → Text) (o : Text) (i : ℕ) where
  -- The owner's repository, in this installation and accessible.
  abbrev pub granted : ℕ → Database → Bool
  granted g d = any (is_accessible o i g) d.repositories

  accessible-updated_row :
      (g : ℕ) (repo : InstallationRepository) (now : ℕ) (r : Repository)
      → is_repository o repo.id r ≡ true
      → is_accessible o i g (updated_row new_ulid o i repo now r) ≡ (g == repo.id)
  accessible-updated_row g repo now r h = ground arith

  accessible-inserted_row :
      (g : ℕ) (repo : InstallationRepository) (now : ℕ) (p : Text)
      → is_accessible o i g (inserted_row new_ulid o i repo now p) ≡ (g == repo.id)
  accessible-inserted_row g repo now p = ground (arith, text_eq_refl o)

  accessible-other :
      (g : ℕ) (repo : InstallationRepository) (now : ℕ) (r : Repository)
      → (g == repo.id) ≡ false
      → is_accessible o i g
          (if is_repository o repo.id r then updated_row new_ulid o i repo now r else r)
        ≡ is_accessible o i g r
  accessible-other g repo now r h = ground arith

  or_comm : (a b : Bool) → a || (b || false) ≡ b || a
  or_comm a b = ground arith

  upsert-granted :
      (g : ℕ) (repo : InstallationRepository) (d : Database)
      → granted g (upsert new_ulid o i repo d) ≡ (g == repo.id || granted g d)
  unfolding upsert
  upsert-granted g repo d = elim (Bool-cases (any (is_repository o repo.id) d.repositories)) [
    | inr e ↦ simp (e, any-append, accessible-inserted_row, or_comm)
    | inl e ↦ elim (Bool-cases (g == repo.id)) [
      | inl k ↦ simp (
        e,
        any-update_where_hit (is_accessible o i g) (is_repository o repo.id)
            (updated_row new_ulid o i repo d.now) d.repositories
            (λ r h. accessible-updated_row g repo d.now r h ∙ k) e,
        k,
      )
      | inr k ↦ simp (
        e,
        any-update_where (is_accessible o i g) (is_accessible o i g) (is_repository o repo.id)
            (updated_row new_ulid o i repo d.now) d.repositories
            (λ r. accessible-other g repo d.now r k),
        k,
      )
    ]
  ]

  pub synchronize-granted :
      (rev g : ℕ) (repo : InstallationRepository) (d : Database)
      → granted g (synchronize new_ulid o i rev repo d) ≡ (g == repo.id || granted g d)
  unfolding synchronize
  synchronize-granted rev g repo d =
      elim (Bool-cases (
        metadata_eq (before_of new_ulid o i (find (is_repository o repo.id) d.repositories))
          (after_of new_ulid o i repo))) [
            | inl e ↦ simp (e, upsert-granted g repo d)
            | inr e ↦ simp (e, audit-repositories, upsert-granted g repo d)
          ]

  or_swap : (a b c : Bool) → a || (b || c) ≡ (b || a) || c
  or_swap a b c = ground arith

  pub synchronize_all-granted :
      (rev g : ℕ) (repos : List InstallationRepository) (d : Database)
      → granted g (synchronize_all new_ulid o i rev repos d) ≡ (mem (ids repos) g || granted g d)
  unfolding synchronize_all
  synchronize_all-granted rev g [] d = refl
  synchronize_all-granted rev g (repo ∷ repos) d =
      synchronize_all-granted rev g repos (synchronize new_ulid o i rev repo d)
      ∙ ap (λ b. mem (ids repos) g || b) (synchronize-granted rev g repo d)
      ∙ or_swap (mem (ids repos) g) (g == repo.id) (granted g d)

  pub audit_removed-repositories :
      (rev : ℕ) (rs : List Repository) (d : Database)
      → (audit_removed new_ulid o i rev rs d).repositories ≡ d.repositories
  unfolding audit_removed
  audit_removed-repositories rev [] d = refl
  audit_removed-repositories rev (r ∷ rs) d =
      audit_removed-repositories rev rs _ ∙ audit-repositories o i _ _ d

  accessible-kept :
      (g : ℕ) (kept : List ℕ) (r : Repository)
      → is_accessible o i g r ≡ true
      → is_gone new_ulid o i kept r ≡ not (mem kept g)
  accessible-kept g kept r h = grind arith

  accessible-gone :
      (g : ℕ) (kept : List ℕ) (now : ℕ) (r : Repository)
      → is_accessible o i g
          (if is_gone new_ulid o i kept r then removed_row new_ulid o i now r else r)
        ≡ mem kept g && is_accessible o i g r
  accessible-gone g kept now r =
      let h = accessible-kept g kept r in
      elim (Bool-cases (is_gone new_ulid o i kept r)) [
        | inl e ↦ ground arith
        | inr e ↦ ground arith
      ]

  pub remove_gone-granted :
      (rev g : ℕ) (kept : List ℕ) (d : Database)
      → granted g (remove_gone new_ulid o i rev kept d) ≡ mem kept g && granted g d
  unfolding remove_gone
  remove_gone-granted rev g kept d =
      ap (any (is_accessible o i g)) (audit_removed-repositories rev _ _)
      ∙ any-update_where (is_accessible o i g) (λ r. mem kept g && is_accessible o i g r)
          (is_gone new_ulid o i kept) (removed_row new_ulid o i d.now) d.repositories
          (accessible-gone g kept d.now)
      ∙ any-and (mem kept g) (is_accessible o i g) d.repositories
