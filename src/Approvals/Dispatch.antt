-- ===== src/Approvals/Dispatch.antt =====
-- workers/src/pr_reliability_workers/dispatch.py, `dispatch_next_approval`.
use pr_reliability_platform.Prelude.{
  ℕ, suc, ◌-◌, Bool, false, Option, none, some, List, [], ◌∷◌, ◌++◌, Text, codes, text_eq, any, not,
  length, ◌==◌, ◌&&◌, ◌||◌, if◌then◌else◌, ◌>>=◌, find, filter, is_some, nonempty,
}
use pr_reliability_platform.Approvals.Tables.{
  awaiting_approval, state_eq, approve_finding, decision_eq, reason_eq, Run, PullRequest, Finding,
  Approval, ApprovalCommand, EventData, signal_created, decision_recorded, receipt, accepted,
  RunEvent, Database, is_run, is_pull_request, has_key,
}
use pr_reliability_platform.Workflow.Types.{ApprovalSignal}

-- What happened: nothing was pending, the command was handled, the command is not of the tables,
-- or the signal was not accepted in time. In the last two cases the transaction is rolled back.
pub data Outcome : Type 0 where
  nothing_pending handled identity_mismatch not_accepted : Outcome

-- The signals that were sent, with the id of the workflow, and the tables.
pub record Dispatched : Type 0 where
  pub outcome : Outcome
  pub signals : List (Text × ApprovalSignal)
  pub database : Database

-- The row that the query finds.
pub record Pending : Type 0 where
  pub event : RunEvent
  pub command : ApprovalCommand
  pub run : Run
  pub pull_request : PullRequest
  pub approval : Approval
  pub finding : Finding

abbrev pub dispatched_key : Text → Text
dispatched_key event_key = event_key ++ codes ":dispatched"

abbrev pub command_of : EventData → Option ApprovalCommand
command_of (signal_created command) = some command
command_of (decision_recorded _ _ _ _ _ _) = none
command_of (receipt _ _ _) = none
command_of (accepted _ _ _ _) = none

-- The receipt of an accepted set of decisions for the run's commit.
abbrev pub is_accepted_for : Run → EventData → Bool
is_accepted_for run (accepted run_id head_sha _ _) =
    text_eq run_id run.public_id && text_eq head_sha run.head_sha
is_accepted_for run (signal_created _) = false
is_accepted_for run (decision_recorded _ _ _ _ _ _) = false
is_accepted_for run (receipt _ _ _) = false

abbrev pub is_settled : Run → RunEvent → Bool
is_settled run e = e.run_id == run.id && is_accepted_for run e.event_data

abbrev pub is_named : Run → Text → Approval → Bool
is_named run public_id a =
    text_eq a.public_id public_id && (a.run_id == run.id && text_eq a.owner_id run.owner_id)

abbrev pub is_finding_of : Run → ℕ → Finding → Bool
is_finding_of run id f = f.id == id && (f.run_id == run.id && text_eq f.owner_id run.owner_id)

-- The joins and the conditions of the query, for one command.
unfoldable pub pending_of : Database → RunEvent → Option Pending
pending_of d e = do
  command ← command_of e.event_data
  run ← find (is_run e.owner_id e.run_id) d.runs
  pull_request ← find (is_pull_request run.owner_id run.pull_request_id) d.pull_requests
  approval ← find (is_named run command.public_id) d.approvals
  finding ← find (is_finding_of run approval.finding_id) d.findings
  if any (has_key e.run_id (dispatched_key e.event_key)) d.events || any (is_settled run) d.events
      then none
      else some (record {
        event = e;
        command = command;
        run = run;
        pull_request = pull_request;
        approval = approval;
        finding = finding;
      })

abbrev pub or_else : Option Pending → Option Pending → Option Pending
or_else none rest = rest
or_else (some p) rest = some p

-- The first command that is pending and whose rows are not `locked` by another transaction.
unfoldable pub next_pending : (RunEvent → Bool) → Database → List RunEvent → Option Pending
next_pending locked d [] = none
next_pending locked d (e ∷ es) =
    let rest = next_pending locked d es in if locked e then rest else or_else (pending_of d e) rest

-- `command_identity == persisted_identity`
abbrev pub same_identity : Pending → Bool
same_identity p =
    text_eq (codes "approval:" ++ (p.command.public_id ++ codes ":signal")) p.event.event_key
    && (text_eq p.command.public_id p.approval.public_id
        && (text_eq p.command.owner_id p.event.owner_id
            && (text_eq p.command.run_id p.run.public_id
                && (text_eq p.command.head_sha p.run.head_sha
                    && (text_eq p.command.finding_id p.finding.public_id
                        && (text_eq p.command.actor_id p.approval.actor_id
                            && (decision_eq p.command.decision p.approval.decision
                                && (reason_eq p.command.reason p.approval.reason
                                    && p.command.decided_at == p.approval.decided_at))))))))

-- `INSERT INTO run_events … ON CONFLICT (run_id, event_key) DO NOTHING`
unfoldable pub insert_event : RunEvent → Database → Database
insert_event e d =
    if any (has_key e.run_id e.event_key) d.events
    then record d { drawn = suc d.drawn }
    else record d { events = d.events ++ e ∷ []; drawn = suc d.drawn }

abbrev pub insert_approval_receipt : Pending → Text → Text → Database → Database
insert_approval_receipt p status reason d =
    insert_event
      (record {
        owner_id = p.command.owner_id;
        run_id = p.run.id;
        event_key = dispatched_key p.event.event_key;
        event_data = receipt p.command.public_id status (some reason);
      })
      d

-- The query of the decisions: each finding of the run with its approval.
abbrev pub is_decision_on : Run → Finding → Approval → Bool
is_decision_on run f a =
    a.finding_id == f.id && (a.run_id == f.run_id && text_eq a.owner_id f.owner_id)

abbrev pub in_run : Run → Finding → Bool
in_run run f = text_eq f.owner_id run.owner_id && f.run_id == run.id

abbrev pub with_approvals : Run → List Approval → List Finding → List (Finding × Option Approval)
with_approvals run approvals [] = []
with_approvals run approvals (f ∷ fs) =
    (f, find (is_decision_on run f) approvals) ∷ with_approvals run approvals fs

unfoldable pub decisions_of : Run → Database → List (Finding × Option Approval)
decisions_of run d = with_approvals run d.approvals (filter (in_run run) d.findings)

abbrev pub is_undecided : Finding × Option Approval → Bool
is_undecided (f, a) = not (is_some a)

-- `approved_pairs`
abbrev pub approved_pair : Finding → Option Approval → List (Text × Text)
approved_pair f none = []
approved_pair f (some a) =
    if decision_eq a.decision approve_finding then (f.public_id, a.public_id) ∷ [] else []

unfoldable pub approved_pairs : List (Finding × Option Approval) → List (Text × Text)
approved_pairs [] = []
approved_pairs ((f, a) ∷ ds) = approved_pair f a ++ approved_pairs ds

abbrev pub firsts : List (Text × Text) → List Text
firsts [] = []
firsts ((a, b) ∷ ps) = a ∷ firsts ps

abbrev pub seconds : List (Text × Text) → List Text
seconds [] = []
seconds ((a, b) ∷ ps) = b ∷ seconds ps

abbrev pub workflow_id : Text → Text → Text
workflow_id owner_id pull_request_id =
    codes "pr-review:" ++ (owner_id ++ (codes ":" ++ pull_request_id))

-- `dumps` is `json.dumps` with the short separators, `digest` the hexadecimal SHA-256 of the UTF-8
-- text, and `accepts` says whether Temporal accepts the signal in time.
module _ (dumps : List (Text × Text) → Text) (digest : Text → Text)
    (accepts : Text → ApprovalSignal → Bool) (locked : RunEvent → Bool) where
  abbrev pub set_digest : Run → List (Text × Text) → Text
  set_digest run pairs =
      digest (run.public_id ++ (codes ":" ++ (run.head_sha ++ (codes ":" ++ dumps pairs))))

  abbrev pub signal_of : Pending → List (Text × Text) → ApprovalSignal
  signal_of p pairs = record {
    run_id = p.command.run_id;
    head_sha = p.command.head_sha;
    approved = nonempty pairs;
    finding_ids = firsts pairs;
    approval_ids = seconds pairs;
    comment_body_ref =
        if nonempty pairs then some (codes "approval-set:" ++ set_digest p.run pairs) else none;
  }

  abbrev pub aggregate_receipt : Pending → List (Text × Text) → ℕ → RunEvent
  aggregate_receipt p pairs total = record {
    owner_id = p.command.owner_id;
    run_id = p.run.id;
    event_key = dispatched_key (codes "approval-set:" ++ set_digest p.run pairs);
    event_data = accepted p.command.run_id p.command.head_sha (length pairs) (total - length pairs);
  }

  unfoldable pub send_signal : Pending → List (Finding × Option Approval) → Database → Dispatched
  send_signal p decisions d =
      let pairs = approved_pairs decisions in
      let signal = signal_of p pairs in
      let target = workflow_id p.command.owner_id p.pull_request.public_id in
      if accepts target signal
      then record {
        outcome = handled;
        signals = (target, signal) ∷ [];
        database = insert_event (aggregate_receipt p pairs (length decisions)) d;
      }
      else record { outcome = not_accepted; signals = (target, signal) ∷ []; database = d }

  unfoldable pub dispatch_pending : Pending → Database → Dispatched
  dispatch_pending p d =
      let decisions = decisions_of p.run d in
      let sent = send_signal p decisions d in
      if not (same_identity p)
      then record { outcome = identity_mismatch; signals = []; database = d }
      else if not (state_eq p.run.state awaiting_approval)
          || not (text_eq p.pull_request.head_sha p.run.head_sha)
      then record {
        outcome = handled;
        signals = [];
        database =
            insert_approval_receipt p (codes "skipped") (codes "run no longer awaits this commit")
              d;
      }
      else if not (nonempty decisions) || any is_undecided decisions
      then record {
        outcome = handled;
        signals = [];
        database =
            insert_approval_receipt p (codes "deferred")
              (codes "run still awaits finding decisions") d;
      }
      else sent

  abbrev pub dispatch_found : Option Pending → Database → Dispatched
  dispatch_found none d = record { outcome = nothing_pending; signals = []; database = d }
  dispatch_found (some p) d = dispatch_pending p d

  unfoldable pub dispatch_next_approval : Database → Dispatched
  dispatch_next_approval d = dispatch_found (next_pending locked d d.events) d
