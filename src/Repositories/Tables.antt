-- ===== src/Repositories/Tables.antt =====
-- The tables of migrations/0001_initial.sql and 0005_repository_policy.sql that the repository policy
-- reads and writes, with the columns that it uses. Times are microseconds; `created_at` and
-- `updated_at` are left out.
use pr_reliability_platform.Prelude.{
  ℕ, Bool, true, false, Option, none, some, List, Text, text_eq, ◌==◌, ◌&&◌,
}

pub data InstallationState : Type 0 where
  pending active suspended deleted : InstallationState

pub record Installation : Type 0 where
  pub owner_id : Text
  pub installation_id : ℕ
  pub state : InstallationState
  pub revision : ℕ
  pub last_sync_at : Option ℕ
  pub last_webhook_at : Option ℕ

pub data AccessState : Type 0 where
  access_pending access_active access_removed : AccessState

pub record Repository : Type 0 where
  pub public_id : Text
  pub owner_id : Text
  pub github_repository_id : ℕ
  pub full_name : Text
  pub installation_id : Option ℕ
  pub access_state : AccessState
  pub default_branch : Option Text
  pub enabled : Bool
  pub enabled_branches : List Text
  pub token_budget : ℕ
  pub cost_budget_usd_micros : ℕ
  pub verification_profile : Text
  pub last_sync_at : Option ℕ
  pub last_webhook_at : Option ℕ

-- The parts of an event key, in place of its text.
pub data EventKey : Type 0 where
  webhook : Text → EventKey
  sync : ℕ → ℕ → EventKey
  sync_repository : ℕ → ℕ → ℕ → EventKey

-- `_metadata`: the four columns that a synchronization compares.
pub record Metadata : Type 0 where
  pub full_name : Text
  pub default_branch : Option Text
  pub access_state : AccessState
  pub installation_id : Option ℕ

-- The event type with its data.
pub data EventData : Type 0 where
  repository_synchronized : ℕ → Option Metadata → Metadata → EventData
  repository_removed : ℕ → EventData
  installation_reconciled : InstallationState → ℕ → EventData
  lifecycle : Text → Text → List ℕ → List ℕ → EventData

pub record RepositoryEvent : Type 0 where
  pub owner_id : Text
  pub installation_id : ℕ
  pub event_key : EventKey
  pub event_data : EventData

-- `now` is the time of the transaction, `drawn` the number of ULIDs drawn so far.
pub record Database : Type 0 where
  pub installations : List Installation
  pub repositories : List Repository
  pub events : List RepositoryEvent
  pub now : ℕ
  pub drawn : ℕ

-- `column = value`, which is not true of NULL.
abbrev pub equals : Option ℕ → ℕ → Bool
equals none n = false
equals (some m) n = m == n

abbrev pub key_eq : EventKey → EventKey → Bool
key_eq (webhook d) (webhook d') = text_eq d d'
key_eq (sync i r) (sync i' r') = i == i' && r == r'
key_eq (sync_repository i r g) (sync_repository i' r' g') = i == i' && (r == r' && g == g')
key_eq _ _ = false

abbrev pub is_active : InstallationState → Bool
is_active active = true
is_active _ = false

abbrev pub has_access : AccessState → Bool
has_access access_active = true
has_access _ = false

abbrev pub is_removed : AccessState → Bool
is_removed access_removed = true
is_removed _ = false

-- The row of this installation.
abbrev pub is_installation : Text → ℕ → Installation → Bool
is_installation owner_id installation_id i =
    text_eq i.owner_id owner_id && i.installation_id == installation_id
