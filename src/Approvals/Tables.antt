-- ===== src/Approvals/Tables.antt =====
-- The tables of migrations/ that approvals read and write, with the columns that they use, and the
-- contracts of packages/contracts (runs.py, approvals.py). Rows stand in the order of their ids.
use pr_reliability_platform.Prelude.{
  ℕ, Bool, true, false, Option, none, some, List, [], ◌∷◌, Text, text_eq, ◌==◌, ◌&&◌,
}

pub data RunState : Type 0 where
  queued selecting_context analyzing verifying awaiting_approval published rejected failed
        cancelled :
      RunState

-- `_ALLOWED_TRANSITIONS`
abbrev pub allowed_transitions : RunState → List RunState
allowed_transitions queued = selecting_context ∷ failed ∷ cancelled ∷ []
allowed_transitions selecting_context = analyzing ∷ failed ∷ cancelled ∷ []
allowed_transitions analyzing = verifying ∷ failed ∷ cancelled ∷ []
allowed_transitions verifying = awaiting_approval ∷ failed ∷ cancelled ∷ []
allowed_transitions awaiting_approval = published ∷ rejected ∷ failed ∷ cancelled ∷ []
allowed_transitions published = []
allowed_transitions rejected = []
allowed_transitions failed = []
allowed_transitions cancelled = []

abbrev pub number : RunState → ℕ
number queued = 0
number selecting_context = 1
number analyzing = 2
number verifying = 3
number awaiting_approval = 4
number published = 5
number rejected = 6
number failed = 7
number cancelled = 8

-- `a is b`, of two run states.
abbrev pub state_eq : RunState → RunState → Bool
state_eq a b = number a == number b

pub data Decision : Type 0 where
  approve_finding reject_finding : Decision

abbrev pub decision_eq : Decision → Decision → Bool
decision_eq approve_finding approve_finding = true
decision_eq reject_finding reject_finding = true
decision_eq _ _ = false

-- `a == b`, of two optional texts.
abbrev pub reason_eq : Option Text → Option Text → Bool
reason_eq none none = true
reason_eq (some s) (some t) = text_eq s t
reason_eq _ _ = false

pub record Run : Type 0 where
  pub id : ℕ
  pub owner_id : Text
  pub public_id : Text
  pub pull_request_id : ℕ
  pub head_sha : Text
  pub state : RunState

pub record PullRequest : Type 0 where
  pub id : ℕ
  pub owner_id : Text
  pub public_id : Text
  pub repository_id : ℕ
  pub head_sha : Text

pub record Finding : Type 0 where
  pub id : ℕ
  pub owner_id : Text
  pub public_id : Text
  pub run_id : ℕ

pub record Approval : Type 0 where
  pub public_id : Text
  pub owner_id : Text
  pub run_id : ℕ
  pub finding_id : ℕ
  pub actor_id : Text
  pub decision : Decision
  pub reason : Option Text
  pub head_sha : Text
  pub decided_at : ℕ

-- `ApprovalCommand`
pub record ApprovalCommand : Type 0 where
  pub public_id : Text
  pub owner_id : Text
  pub run_id : Text
  pub head_sha : Text
  pub finding_id : Text
  pub actor_id : Text
  pub decision : Decision
  pub reason : Option Text
  pub decided_at : ℕ

-- `event_type` with `event_data`.
pub data EventData : Type 0 where
  signal_created : ApprovalCommand → EventData
  decision_recorded :
      (approval_id finding_id head_sha : Text) → Decision → (actor_id : Text) → Option ℕ → EventData
  receipt : (approval_id status : Text) (reason : Option Text) → EventData
  accepted : (run_id head_sha : Text) (approved_count rejected_count : ℕ) → EventData

pub record RunEvent : Type 0 where
  pub owner_id : Text
  pub run_id : ℕ
  pub event_key : Text
  pub event_data : EventData

-- `drawn` is the number of ULIDs drawn so far.
pub record Database : Type 0 where
  pub runs : List Run
  pub pull_requests : List PullRequest
  pub findings : List Finding
  pub approvals : List Approval
  pub events : List RunEvent
  pub drawn : ℕ

abbrev pub is_run : Text → ℕ → Run → Bool
is_run owner_id id r = text_eq r.owner_id owner_id && r.id == id

abbrev pub is_pull_request : Text → ℕ → PullRequest → Bool
is_pull_request owner_id id p = text_eq p.owner_id owner_id && p.id == id

abbrev pub is_approval_of : Text → ℕ → Approval → Bool
is_approval_of owner_id finding_id a = text_eq a.owner_id owner_id && a.finding_id == finding_id

-- The event of a run with a key, of which the table has one at most.
abbrev pub has_key : ℕ → Text → RunEvent → Bool
has_key run_id event_key e = e.run_id == run_id && text_eq e.event_key event_key
