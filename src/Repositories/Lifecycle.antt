-- ===== src/Repositories/Lifecycle.antt =====
-- repositories/lifecycle.py: signed lifecycle deliveries revoke at once and never grant access.
use pr_reliability_platform.Prelude.{
  ℕ, ◌+◌, Bool, true, false, Option, none, some, List, [], Text, codes, text_eq, nonempty, not,
  ◌&&◌, ◌||◌, if◌then◌else◌, is_some, update_where,
}
use pr_reliability_platform.Repositories.Tables.{
  InstallationState, suspended, deleted, Installation, access_removed, Repository, webhook,
  lifecycle, Database, equals, is_installation,
}
use pr_reliability_platform.Repositories.Store.{lock_installation, audit, mem}

pub data InstallationAction : Type 0 where
  created installation_deleted suspend unsuspend new_permissions_accepted : InstallationAction

pub data RepositoryAction : Type 0 where
  added removed : RepositoryAction

-- `InstallationDelivery` and `RepositoryDelivery`, with the ids of the repositories.
pub data Delivery : Type 0 where
  installation : InstallationAction → Delivery
  repositories : RepositoryAction → List ℕ → List ℕ → Delivery

abbrev pub removed_ids : Delivery → List ℕ
removed_ids (installation action) = []
removed_ids (repositories action adds removes) = removes

abbrev pub added_ids : Delivery → List ℕ
added_ids (installation action) = []
added_ids (repositories action adds removes) = adds

abbrev pub action_value : Delivery → Text
action_value (installation created) = codes "created"
action_value (installation installation_deleted) = codes "deleted"
action_value (installation suspend) = codes "suspend"
action_value (installation unsuspend) = codes "unsuspend"
action_value (installation new_permissions_accepted) = codes "new_permissions_accepted"
action_value (repositories added adds removes) = codes "added"
action_value (repositories removed adds removes) = codes "removed"

-- `{"deleted": "deleted", "suspend": "suspended"}.get(payload.action)`
abbrev pub new_state : Delivery → Option InstallationState
new_state (installation installation_deleted) = some deleted
new_state (installation suspend) = some suspended
new_state (installation created) = none
new_state (installation unsuspend) = none
new_state (installation new_permissions_accepted) = none
new_state (repositories action adds removes) = none

abbrev pub coalesce : Option InstallationState → InstallationState → InstallationState
coalesce none s = s
coalesce (some t) s = t

abbrev pub is_repository_delivery : Delivery → Bool
is_repository_delivery (installation action) = false
is_repository_delivery (repositories action adds removes) = true

module _ (owner_id : Text) (installation_id : ℕ) where
  abbrev pub in_installation : Repository → Bool
  in_installation r = text_eq r.owner_id owner_id && equals r.installation_id installation_id

  abbrev pub revised_row : Option InstallationState → ℕ → Installation → Installation
  revised_row state now i = record i {
    revision = i.revision + 1;
    state = coalesce state i.state;
    last_webhook_at = some now;
  }

  abbrev pub is_added : Delivery → Repository → Bool
  is_added payload r = in_installation r && mem (added_ids payload) r.github_repository_id

  abbrev pub noted_row : ℕ → Repository → Repository
  noted_row now r = record r { last_webhook_at = some now }

  abbrev pub is_revoked : Delivery → Repository → Bool
  is_revoked payload r =
      in_installation r
      && (is_some (new_state payload) || mem (removed_ids payload) r.github_repository_id)

  abbrev pub revoked_row : ℕ → Repository → Repository
  revoked_row now r = record r { access_state = access_removed; last_webhook_at = some now }

  unfoldable pub revise : Option InstallationState → Database → Database
  revise state d = record d {
    installations =
        update_where (is_installation owner_id installation_id) (revised_row state d.now)
          d.installations;
  }

  unfoldable pub note_added : Delivery → Database → Database
  note_added payload d =
      if is_repository_delivery payload
      then record d {
        repositories = update_where (is_added payload) (noted_row d.now) d.repositories;
      }
      else d

  unfoldable pub revoke : Delivery → Database → Database
  revoke payload d =
      if nonempty (removed_ids payload) || is_some (new_state payload)
      then record d {
        repositories = update_where (is_revoked payload) (revoked_row d.now) d.repositories;
      }
      else d

  -- `receive_lifecycle`: whether the delivery is a duplicate, and the tables.
  unfoldable pub receive_lifecycle : Text → Text → Delivery → Database → Bool × Database
  receive_lifecycle event_type delivery_id payload d =
      let (fresh, d1) =
        audit owner_id installation_id (webhook delivery_id)
          (lifecycle event_type (action_value payload) (removed_ids payload) (added_ids payload))
          (lock_installation owner_id installation_id d) in
      if not fresh
      then (true, d1)
      else (false, revoke payload (note_added payload (revise (new_state payload) d1)))
