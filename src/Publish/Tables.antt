-- ===== src/Publish/Tables.antt =====
-- The tables that activities/publish.py of the workers reads and writes, with the columns that it
-- uses. Rows stand in the order of their ids.
use pr_reliability_platform.Prelude.{
  ℕ, Bool, Option, List, [], ◌∷◌, ◌++◌, Text, text_eq, ◌==◌, ◌&&◌, any, if◌then◌else◌, ◌+◌,
}
use pr_reliability_platform.Approvals.Tables.{RunState, Approval}

pub record Run : Type 0 where
  pub id : ℕ
  pub owner_id : Text
  pub public_id : Text
  pub pull_request_id : ℕ
  pub head_sha : Text
  pub state : RunState

pub record PullRequest : Type 0 where
  pub id : ℕ
  pub owner_id : Text
  pub repository_id : ℕ
  pub github_number : ℕ
  pub head_sha : Text

pub record Repository : Type 0 where
  pub id : ℕ
  pub owner_id : Text
  pub public_id : Text
  pub full_name : Text

-- `FindingSeverity`
pub data Severity : Type 0 where
  low medium high critical : Severity

pub record Finding : Type 0 where
  pub id : ℕ
  pub owner_id : Text
  pub public_id : Text
  pub run_id : ℕ
  pub severity : Severity
  pub claim : Text

pub data ActionStatus : Type 0 where
  proposed publishing published failed : ActionStatus

-- `external_actions`
pub record Action : Type 0 where
  pub public_id : Text
  pub owner_id : Text
  pub run_id : ℕ
  pub action_type : Text
  pub target_sha : Text
  pub idempotency_key : Text
  pub payload_fingerprint : Text
  pub status : ActionStatus
  pub remote_id : Option Text

-- `event_type` with `event_data`.
pub data EventData : Type 0 where
  publish_prepared : (action_id : Text) → EventData
  review_published :
      (action_id remote_review_id head_sha : Text) (finding_ids approval_ids : List Text)
      (payload_fingerprint : Text) (publish_started_at publish_finished_at : Option ℕ)
      → EventData
  publish_blocked : (reason_code : Text) → EventData
  publish_failed : (action_id head_sha failure_code : Text) → EventData

pub record RunEvent : Type 0 where
  pub owner_id : Text
  pub run_id : ℕ
  pub event_key : Text
  pub event_data : EventData

-- `drawn` is the number of ULIDs drawn so far.
pub record Database : Type 0 where
  pub runs : List Run
  pub pull_requests : List PullRequest
  pub repositories : List Repository
  pub findings : List Finding
  pub approvals : List Approval
  pub actions : List Action
  pub events : List RunEvent
  pub drawn : ℕ

abbrev pub is_named_run : Text → Text → Run → Bool
is_named_run owner_id public_id r = text_eq r.owner_id owner_id && text_eq r.public_id public_id

abbrev pub is_pull_request : Text → ℕ → PullRequest → Bool
is_pull_request owner_id id p = text_eq p.owner_id owner_id && p.id == id

abbrev pub is_repository : Text → ℕ → Repository → Bool
is_repository owner_id id r = text_eq r.owner_id owner_id && r.id == id

-- The row with an idempotency key of an owner, of which the table has one at most.
abbrev pub has_idempotency_key : Text → Text → Action → Bool
has_idempotency_key owner_id key a = text_eq a.owner_id owner_id && text_eq a.idempotency_key key

abbrev pub has_event_key : ℕ → Text → RunEvent → Bool
has_event_key run_id event_key e = e.run_id == run_id && text_eq e.event_key event_key

-- `INSERT INTO run_events … ON CONFLICT (run_id, event_key) DO NOTHING`
unfoldable pub insert_event : RunEvent → Database → Database
insert_event e d =
    if any (has_event_key e.run_id e.event_key) d.events
    then record d { drawn = d.drawn + 1 }
    else record d { events = d.events ++ e ∷ []; drawn = d.drawn + 1 }
