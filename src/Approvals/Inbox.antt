-- ===== src/Approvals/Inbox.antt =====
-- apps/api/src/pr_reliability_api/approvals/inbox.py. An exception rolls the transaction back.
use pr_reliability_platform.Prelude.{
  ℕ, ◌+◌, Bool, true, false, Option, none, some, List, [], ◌∷◌, ◌++◌, Text, codes, text_eq, any,
  not, ◌==◌, ◌&&◌, ◌||◌, if◌then◌else◌, ◌>>=◌, find,
}
use pr_reliability_platform.Approvals.Tables.{
  awaiting_approval, state_eq, Decision, decision_eq, reason_eq, Run, PullRequest, Finding,
  Approval, ApprovalCommand, EventData, signal_created, decision_recorded, RunEvent, Database,
  is_run, is_pull_request, is_approval_of, has_key,
}

pub record Principal : Type 0 where
  pub actor_id : Text
  pub github_user_id : Option ℕ
  pub repository_ids : Option (List ℕ)

pub record DecisionRequest : Type 0 where
  pub head_sha : Text
  pub decision : Decision
  pub reason : Option Text

pub record Receipt : Type 0 where
  pub approval_id : Text
  pub finding_id : Text
  pub run_id : Text
  pub head_sha : Text
  pub decision : Decision
  pub decided_at : ℕ
  pub already_recorded : Bool

-- The receipt, an `HTTPException`, or the error of a unique key that is taken.
pub data Response : Type 0 where
  decided : Receipt → Response
  http_exception : ℕ → Text → Response
  integrity_error : Response

abbrev pub in_scope : Option (List ℕ) → ℕ → Bool
in_scope none repository_id = true
in_scope (some ids) repository_id = any (λ n. n == repository_id) ids

-- The row that the decision is about, without the columns of its approval.
pub record Row : Type 0 where
  pub finding : Finding
  pub run : Run
  pub pull_request : PullRequest

module _ (owner_id : Text) where
  -- The query of `record_approval_decision`, a join along the keys of the tables.
  unfoldable pub select_finding : Option (List ℕ) → Text → Database → Option Row
  select_finding scope finding_id d = do
    finding ← find (λ f. text_eq f.owner_id owner_id && text_eq f.public_id finding_id) d.findings
    run ← find (is_run owner_id finding.run_id) d.runs
    pull_request ← find (is_pull_request owner_id run.pull_request_id) d.pull_requests
    if in_scope scope pull_request.repository_id
        then some (record { finding = finding; run = run; pull_request = pull_request })
        else none

  abbrev pub receipt_of : Row → DecisionRequest → Text → ℕ → Bool → Receipt
  receipt_of row request approval_id decided_at already_recorded = record {
    approval_id = approval_id;
    finding_id = row.finding.public_id;
    run_id = row.run.public_id;
    head_sha = row.run.head_sha;
    decision = request.decision;
    decided_at = decided_at;
    already_recorded = already_recorded;
  }

  abbrev pub new_approval : Principal → Row → DecisionRequest → Text → ℕ → Approval
  new_approval principal row request approval_id decided_at = record {
    public_id = approval_id;
    owner_id = owner_id;
    run_id = row.run.id;
    finding_id = row.finding.id;
    actor_id = principal.actor_id;
    decision = request.decision;
    reason = request.reason;
    head_sha = row.run.head_sha;
    decided_at = decided_at;
  }

  abbrev pub approval_command : Principal → Row → DecisionRequest → Text → ℕ → ApprovalCommand
  approval_command principal row request approval_id decided_at = record {
    public_id = approval_id;
    owner_id = owner_id;
    run_id = row.run.public_id;
    head_sha = row.run.head_sha;
    finding_id = row.finding.public_id;
    actor_id = principal.actor_id;
    decision = request.decision;
    reason = request.reason;
    decided_at = decided_at;
  }

  abbrev pub signal_key : Text → Text
  signal_key approval_id = codes "approval:" ++ (approval_id ++ codes ":signal")

  abbrev pub decision_key : Text → Text
  decision_key approval_id = codes "approval:" ++ approval_id

  abbrev pub event : ℕ → Text → EventData → RunEvent
  event run_id event_key event_data = record {
    owner_id = owner_id;
    run_id = run_id;
    event_key = event_key;
    event_data = event_data;
  }

  abbrev pub new_events : Principal → Row → DecisionRequest → Text → ℕ → List RunEvent
  new_events principal row request approval_id decided_at =
      event row.run.id (signal_key approval_id)
        (signal_created (approval_command principal row request approval_id decided_at))
      ∷ event row.run.id (decision_key approval_id) (
          decision_recorded approval_id row.finding.public_id row.run.head_sha request.decision
            principal.actor_id principal.github_user_id)
      ∷ []

  -- A unique key that an insert would repeat.
  abbrev pub is_taken : Text → Row → Database → Bool
  is_taken approval_id row d =
      any (λ a. text_eq a.public_id approval_id || a.finding_id == row.finding.id) d.approvals
      || (any (has_key row.run.id (signal_key approval_id)) d.events
          || any (has_key row.run.id (decision_key approval_id)) d.events)

  -- The three inserts; two ULIDs are drawn for the public ids of the events.
  unfoldable pub insert_decision :
      (ℕ → Text) → ℕ → Principal → Row → DecisionRequest → Database → Response × Database
  insert_decision id_factory now principal row request d =
      let approval_id = id_factory d.drawn in
      if is_taken approval_id row d then (integrity_error, d) else (
        decided (receipt_of row request approval_id now false),
        record d {
          approvals = d.approvals ++ new_approval principal row request approval_id now ∷ [];
          events = d.events ++ new_events principal row request approval_id now;
          drawn = d.drawn + 3;
        },
      )

  -- A decision that is there already.
  abbrev pub repeated : Principal → Row → DecisionRequest → Approval → Response
  repeated principal row request existing =
      if text_eq existing.actor_id principal.actor_id
        && (decision_eq existing.decision request.decision
            && reason_eq existing.reason request.reason)
      then decided (receipt_of row request existing.public_id existing.decided_at true)
      else http_exception 409 (codes "finding already has a decision")

  abbrev pub decide_on :
      (ℕ → Text)
      → ℕ
      → Principal
      → Row
      → DecisionRequest
      → Option Approval
      → Database
      → Response × Database
  decide_on id_factory now principal row request (some existing) d =
      (repeated principal row request existing, d)
  decide_on id_factory now principal row request none d =
      insert_decision id_factory now principal row request d

  abbrev pub is_stale : DecisionRequest → Row → Bool
  is_stale request row =
      not (text_eq request.head_sha row.run.head_sha)
      || not (text_eq row.pull_request.head_sha row.run.head_sha)

  unfoldable pub decide_row :
      (ℕ → Text) → ℕ → Principal → Row → DecisionRequest → Database → Response × Database
  decide_row id_factory now principal row request d =
      if is_stale request row
      then (http_exception 409 (codes "finding commit is stale"), d)
      else if not (state_eq row.run.state awaiting_approval)
      then (http_exception 409 (codes "finding is not awaiting approval"), d)
      else decide_on id_factory now principal row request
          (find (is_approval_of owner_id row.finding.id) d.approvals) d

  abbrev pub decide_found :
      (ℕ → Text) → ℕ → Principal → Option Row → DecisionRequest → Database → Response × Database
  decide_found id_factory now principal none request d =
      (http_exception 404 (codes "finding not found"), d)
  decide_found id_factory now principal (some row) request d =
      decide_row id_factory now principal row request d

  -- `record_approval_decision`, for a reviewer who is authorized.
  unfoldable pub record_approval_decision :
      (ℕ → Text) → ℕ → Principal → Text → DecisionRequest → Database → Response × Database
  record_approval_decision id_factory now principal finding_id request d =
      decide_found id_factory now principal (select_finding principal.repository_ids finding_id d)
        request d
