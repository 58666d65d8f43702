-- ===== src/Repositories/Store.antt =====
-- repositories/store.py. The advisory lock of `lock_installation` has no effect on the tables.
use pr_reliability_platform.Prelude.{
  ℕ, suc, ◌+◌, Bool, true, false, Option, none, some, List, [], ◌∷◌, ◌++◌, Text, codes, text_eq,
  contains, any, not, ltb, ◌*◌, ◌==◌, ◌&&◌, ◌||◌, if◌then◌else◌, is_some, update_where, find,
  filter, length,
}
use pr_reliability_platform.Repositories.Tables.{
  InstallationState, pending, Installation, AccessState, access_pending, access_active,
  access_removed, Repository, EventKey, sync, sync_repository, Metadata, EventData,
  repository_synchronized, repository_removed, installation_reconciled, Database, equals, key_eq,
  is_active, has_access, is_removed, is_installation,
}

unfoldable pub lock_installation : Text → ℕ → Database → Database
lock_installation owner_id installation_id d =
    if any (is_installation owner_id installation_id) d.installations then d else record d {
      installations =
          d.installations
          ++ record {
            owner_id = owner_id;
            installation_id = installation_id;
            state = pending;
            revision = 0;
            last_sync_at = none;
            last_webhook_at = none;
          }
            ∷ [];
    }

-- `audit`: false if an event of the owner has the key.
unfoldable pub audit : Text → ℕ → EventKey → EventData → Database → Bool × Database
audit owner_id installation_id event_key event_data d =
    if any (λ e. text_eq e.owner_id owner_id && key_eq e.event_key event_key) d.events
    then (false, d)
    else (
      true,
      record d {
        events =
            d.events
            ++ record {
              owner_id = owner_id;
              installation_id = installation_id;
              event_key = event_key;
              event_data = event_data;
            }
              ∷ [];
      },
    )

-- packages/contracts: `InstallationRepository` and `InstallationSnapshot`.
pub record InstallationRepository : Type 0 where
  pub id : ℕ
  pub full_name : Text
  pub default_branch : Text

pub record InstallationSnapshot : Type 0 where
  pub installation_id : ℕ
  pub state : InstallationState
  pub repositories : List InstallationRepository

abbrev pub ids : List InstallationRepository → List ℕ
ids [] = []
ids (r ∷ rs) = r.id ∷ ids rs

abbrev pub mem : List ℕ → ℕ → Bool
mem [] n = false
mem (m ∷ ms) n = n == m || mem ms n

abbrev pub metadata : Repository → Metadata
metadata r = record {
  full_name = r.full_name;
  default_branch = r.default_branch;
  access_state = r.access_state;
  installation_id = r.installation_id;
}

-- `before == after`, of two tuples of columns.
abbrev pub branch_eq : Option Text → Option Text → Bool
branch_eq none none = true
branch_eq (some s) (some t) = text_eq s t
branch_eq _ _ = false

abbrev pub access_eq : AccessState → AccessState → Bool
access_eq access_pending access_pending = true
access_eq access_active access_active = true
access_eq access_removed access_removed = true
access_eq _ _ = false

abbrev pub installation_eq : Option ℕ → Option ℕ → Bool
installation_eq none none = true
installation_eq (some m) (some n) = m == n
installation_eq _ _ = false

abbrev pub metadata_eq : Option Metadata → Metadata → Bool
metadata_eq none m = false
metadata_eq (some b) m =
    text_eq b.full_name m.full_name
    && (branch_eq b.default_branch m.default_branch
        && (access_eq b.access_state m.access_state
            && installation_eq b.installation_id m.installation_id))

abbrev pub is_repository : Text → ℕ → Repository → Bool
is_repository owner_id id r = text_eq r.owner_id owner_id && r.github_repository_id == id

module _ (new_ulid : ℕ → Text) (owner_id : Text) (installation_id : ℕ) where
  abbrev pub updated_row : InstallationRepository → ℕ → Repository → Repository
  updated_row repo now r = record r {
    full_name = repo.full_name;
    installation_id = some installation_id;
    access_state = access_active;
    default_branch = some repo.default_branch;
    last_sync_at = some now;
  }

  -- A new row, with the defaults of the migration.
  abbrev pub inserted_row : InstallationRepository → ℕ → Text → Repository
  inserted_row repo now public_id = record {
    public_id = public_id;
    owner_id = owner_id;
    github_repository_id = repo.id;
    full_name = repo.full_name;
    installation_id = some installation_id;
    access_state = access_active;
    default_branch = some repo.default_branch;
    enabled = true;
    enabled_branches = [];
    token_budget = 100_000;
    cost_budget_usd_micros = 1_000_000;
    verification_profile = codes "default";
    last_sync_at = some now;
    last_webhook_at = none;
  }

  -- `INSERT … ON CONFLICT … DO UPDATE`.
  unfoldable pub upsert : InstallationRepository → Database → Database
  upsert repo d =
      if any (is_repository owner_id repo.id) d.repositories
      then record d {
        repositories =
            update_where (is_repository owner_id repo.id) (updated_row repo d.now) d.repositories;
        drawn = suc d.drawn;
      }
      else record d {
        repositories = d.repositories ++ inserted_row repo d.now (new_ulid d.drawn) ∷ [];
        drawn = suc d.drawn;
      }

  abbrev pub before_of : Option Repository → Option Metadata
  before_of none = none
  before_of (some r) = some (metadata r)

  abbrev pub after_of : InstallationRepository → Metadata
  after_of repo = record {
    full_name = repo.full_name;
    default_branch = some repo.default_branch;
    access_state = access_active;
    installation_id = some installation_id;
  }

  -- The body of the loop over the snapshot.
  unfoldable pub synchronize : ℕ → InstallationRepository → Database → Database
  synchronize revision repo d =
      let before = before_of (find (is_repository owner_id repo.id) d.repositories) in
      let d' = upsert repo d in
      if metadata_eq before (after_of repo)
      then d'
      else (audit owner_id installation_id (sync_repository installation_id revision repo.id)
          (repository_synchronized repo.id before (after_of repo)) d').1

  unfoldable pub synchronize_all : ℕ → List InstallationRepository → Database → Database
  synchronize_all revision [] d = d
  synchronize_all revision (repo ∷ rest) d =
      synchronize_all revision rest (synchronize revision repo d)

  -- The rows that are no longer in the snapshot.
  abbrev pub is_gone : List ℕ → Repository → Bool
  is_gone kept r =
      text_eq r.owner_id owner_id
      && ((equals r.installation_id installation_id || not (is_some r.installation_id))
          && (not (is_removed r.access_state) && not (mem kept r.github_repository_id)))

  abbrev pub removed_row : ℕ → Repository → Repository
  removed_row now r = record r {
    access_state = access_removed;
    installation_id = some installation_id;
    last_sync_at = some now;
  }

  unfoldable pub audit_removed : ℕ → List Repository → Database → Database
  audit_removed revision [] d = d
  audit_removed revision (r ∷ rest) d =
      audit_removed revision rest
        (audit owner_id installation_id
          (sync_repository installation_id revision r.github_repository_id)
          (repository_removed r.github_repository_id) d).1

  unfoldable pub remove_gone : ℕ → List ℕ → Database → Database
  remove_gone revision kept d =
      audit_removed revision (filter (is_gone kept) d.repositories)
        (record d { repositories = update_where (is_gone kept) (removed_row d.now) d.repositories })

-- The row that `UPDATE … WHERE revision = …` finds.
abbrev pub has_revision : Text → ℕ → ℕ → Installation → Bool
has_revision owner_id installation_id revision i =
    is_installation owner_id installation_id i && i.revision == revision

abbrev pub listed : InstallationSnapshot → List InstallationRepository
listed snapshot = if is_active snapshot.state then snapshot.repositories else []

abbrev pub reconciled_row : InstallationState → ℕ → Installation → Installation
reconciled_row state now i = record i {
  state = state;
  revision = i.revision + 1;
  last_sync_at = some now;
}

unfoldable pub reconcile : (ℕ → Text) → Text → InstallationSnapshot → ℕ → Database → Database
reconcile new_ulid owner_id snapshot revision d =
    let installation_id = snapshot.installation_id in
    let d1 = record d {
      installations =
          update_where (has_revision owner_id installation_id revision)
            (reconciled_row snapshot.state d.now) d.installations;
    } in
    let d2 =
      synchronize_all new_ulid owner_id installation_id (revision + 1) (listed snapshot) d1 in
    let d3 =
      remove_gone new_ulid owner_id installation_id (revision + 1) (ids (listed snapshot)) d2 in
    (audit owner_id installation_id (sync installation_id (revision + 1))
      (installation_reconciled snapshot.state (length (listed snapshot))) d3).1

unfoldable pub apply_snapshot :
    (ℕ → Text) → Text → InstallationSnapshot → ℕ → Database → Bool × Database
apply_snapshot new_ulid owner_id snapshot revision d =
    let d0 = lock_installation owner_id snapshot.installation_id d in
    if any (has_revision owner_id snapshot.installation_id revision) d0.installations
    then (true, reconcile new_ulid owner_id snapshot revision d0)
    else (false, d0)

pub record RepositoryPolicy : Type 0 where
  pub enabled : Bool
  pub enabled_branches : List Text
  pub token_budget : ℕ
  pub cost_budget_usd_micros : ℕ
  pub verification_profile : Text

-- `i.last_sync_at > now() - interval '15 minutes'`
abbrev pub is_fresh : ℕ → Option ℕ → Bool
is_fresh now none = false
is_fresh now (some t) = ltb now (t + 15 * 60 * 1_000_000)

abbrev pub is_admitting : Text → ℕ → ℕ → Installation → Bool
is_admitting owner_id installation_id now i =
    is_installation owner_id installation_id i && (is_active i.state && is_fresh now i.last_sync_at)

abbrev pub is_accessible : Text → ℕ → ℕ → Repository → Bool
is_accessible owner_id installation_id id r =
    text_eq r.owner_id owner_id
    && (equals r.installation_id installation_id
        && (r.github_repository_id == id && has_access r.access_state))

-- The query of `admitted_policy`, a join of the two tables.
unfoldable pub admitted_row : Database → Text → ℕ → ℕ → Option Repository
admitted_row d owner_id installation_id github_repository_id =
    if any (is_admitting owner_id installation_id d.now) d.installations
    then find (is_accessible owner_id installation_id github_repository_id) d.repositories
    else none

-- `row[1] and branch not in row[1]`
abbrev pub allows : List Text → Option Text → Bool
allows [] branch = true
allows (b ∷ bs) none = false
allows (b ∷ bs) (some branch) = contains (b ∷ bs) branch

abbrev pub policy_of : Option Repository → Option Text → Option RepositoryPolicy
policy_of none branch = none
policy_of (some r) branch =
    if not r.enabled || not (allows r.enabled_branches branch)
    then none
    else some (record {
      enabled = r.enabled;
      enabled_branches = r.enabled_branches;
      token_budget = r.token_budget;
      cost_budget_usd_micros = r.cost_budget_usd_micros;
      verification_profile = r.verification_profile;
    })

unfoldable pub admitted_policy : Database → Text → ℕ → ℕ → Option Text → Option RepositoryPolicy
unfolding admitted_row
admitted_policy d owner_id installation_id github_repository_id branch =
    policy_of (admitted_row d owner_id installation_id github_repository_id) branch
