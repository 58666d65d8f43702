-- ===== src/Repositories/Tests.antt =====
-- Runs of the repository policy on small tables, and the theorems at concrete inputs.
use pr_reliability_platform.Prelude.{
  ℕ, Bool, true, false, none, some, [], ◌∷◌, Text, codes, ◌≡◌, refl, is_some, text_eq,
}
use pr_reliability_platform.Repositories.Tables.{active, Database}
use pr_reliability_platform.Repositories.Store.{
  InstallationSnapshot, apply_snapshot, reconcile, synchronize_all, synchronize, upsert,
  remove_gone, audit_removed, audit, lock_installation, admitted_row, admitted_policy,
}
use pr_reliability_platform.Repositories.Lifecycle.{
  Delivery, installation, repositories, removed, suspend, receive_lifecycle, revise, note_added,
  revoke,
}
use pr_reliability_platform.Repositories.Grants.{is_enabled_for, apply_snapshot_admits}
use pr_reliability_platform.Repositories.Revoke.{receive_lifecycle-revokes}
use pr_reliability_platform.Repositories.Ordering.{
  receive_lifecycle_again, apply_snapshot_after_delivery,
}

abbrev ulids : ℕ → Text
ulids n = n ∷ []

abbrev owner : Text
owner = codes "01OWNER"

abbrev empty_database : Database
empty_database = record {
  installations = [];
  repositories = [];
  events = [];
  now = 5_000;
  drawn = 0;
}

abbrev two_repositories : InstallationSnapshot
two_repositories = record {
  installation_id = 7;
  state = active;
  repositories =
      record { id = 1; full_name = codes "o/a"; default_branch = codes "main" }
      ∷ record { id = 2; full_name = codes "o/b"; default_branch = codes "main" }
      ∷ [];
}

abbrev synchronized : Database
synchronized = (apply_snapshot ulids owner two_repositories 0 empty_database).1

abbrev remove_first : Delivery
remove_first = repositories removed [] (1 ∷ [])

abbrev after_removal : Bool × Database
after_removal =
    receive_lifecycle owner 7 (codes "installation_repositories") (codes "d1") remove_first
      synchronized

synchronized_admits :
    (is_some (admitted_policy synchronized owner 7 2 (some (codes "main"))) ≡ true)
    × (is_some (admitted_policy synchronized owner 7 3 (some (codes "main"))) ≡ false)
unfolding apply_snapshot reconcile synchronize_all synchronize upsert remove_gone audit_removed
    audit lock_installation admitted_policy admitted_row text_eq
synchronized_admits = (refl, refl)

removal_revokes :
    (is_some (admitted_policy after_removal.1 owner 7 1 none) ≡ false)
    × (is_some (admitted_policy after_removal.1 owner 7 2 none) ≡ true)
unfolding apply_snapshot reconcile synchronize_all synchronize upsert remove_gone audit_removed
    audit lock_installation admitted_policy admitted_row receive_lifecycle revise note_added revoke
    text_eq
removal_revokes = (refl, refl)

apply_snapshot_admits_example :
    (is_some (admitted_row synchronized owner 7 2) ≡ true)
    × (is_some (admitted_policy synchronized owner 7 2 (some (codes "main")))
        ≡ is_enabled_for (admitted_row synchronized owner 7 2) (some (codes "main")))
unfolding apply_snapshot reconcile synchronize_all synchronize upsert remove_gone audit_removed
    audit lock_installation text_eq
apply_snapshot_admits_example =
    apply_snapshot_admits ulids owner two_repositories 0 empty_database refl 2 (some (codes "main"))

receive_lifecycle-revokes_example : admitted_policy after_removal.1 owner 7 1 none ≡ none
unfolding apply_snapshot reconcile synchronize_all synchronize upsert remove_gone audit_removed
    audit lock_installation receive_lifecycle revise note_added revoke text_eq
receive_lifecycle-revokes_example =
    receive_lifecycle-revokes owner 7 (codes "installation_repositories") (codes "d1") remove_first
      synchronized owner 7 1 none

receive_lifecycle_again_example :
    receive_lifecycle owner 7
      (codes "installation")
      (codes "d1")
      (installation suspend)
      after_removal.1
    ≡ (true, after_removal.1)
receive_lifecycle_again_example =
    receive_lifecycle_again owner 7 (codes "installation_repositories") (codes "installation")
      (codes "d1") remove_first (installation suspend) synchronized

apply_snapshot_after_delivery_example :
    apply_snapshot ulids owner two_repositories 1 after_removal.1 ≡ (false, after_removal.1)
unfolding apply_snapshot reconcile synchronize_all synchronize upsert remove_gone audit_removed
    audit lock_installation receive_lifecycle revise note_added revoke text_eq
apply_snapshot_after_delivery_example =
    apply_snapshot_after_delivery ulids owner two_repositories 1 (codes "installation_repositories")
      (codes "d1") remove_first synchronized refl refl refl
