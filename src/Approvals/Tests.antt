-- ===== src/Approvals/Tests.antt =====
-- Decisions on a small table, and the theorems at concrete inputs.
use pr_reliability_platform.Prelude.{length, any, ◌≤◌, not, ◌||◌}
use pr_reliability_platform.Approvals.Tables.{
  RunState, selecting_context, analyzing, verifying, published, state_eq,
}
use pr_reliability_platform.Approvals.States.{can_transition, published-IsPath}
use pr_reliability_platform.Prelude.{
  ℕ, true, false, none, some, List, [], ◌∷◌, Text, codes, ◌≡◌, refl, text_eq, All,
}
use pr_reliability_platform.Approvals.Tables.{Database, awaiting_approval, approve_finding}
use pr_reliability_platform.Approvals.Inbox.{
  Principal, DecisionRequest, Receipt, Response, decided, record_approval_decision, select_finding,
  decide_row, insert_decision,
}
use pr_reliability_platform.Approvals.Dispatch.{
  dispatch_next_approval, next_pending, pending_of, dispatch_pending, decisions_of, approved_pairs,
  send_signal, insert_event, Pending,
}
use pr_reliability_platform.Approvals.Decisions.{IsAnswer, record_approval_decision_lem}
use pr_reliability_platform.Approvals.Repeat.{record_approval_decision_again}
use pr_reliability_platform.Approvals.Sending.{IsTrue, dispatch_next_approval-IsSound}

abbrev owner : Text
owner = codes "O"

abbrev head : Text
head = codes "abc"

abbrev id_factory : ℕ → Text
id_factory n = n ∷ []

abbrev reviewer : Principal
reviewer = record { actor_id = codes "A"; github_user_id = none; repository_ids = some (9 ∷ []) }

abbrev request : DecisionRequest
request = record { head_sha = head; decision = approve_finding; reason = none }

abbrev one_finding : Database
one_finding = record {
  runs =
      record {
        id = 3;
        owner_id = owner;
        public_id = codes "R";
        pull_request_id = 2;
        head_sha = head;
        state = awaiting_approval;
      }
      ∷ [];
  pull_requests =
      record { id = 2; owner_id = owner; public_id = codes "P"; repository_id = 9; head_sha = head }
      ∷ [];
  findings = record { id = 5; owner_id = owner; public_id = codes "F"; run_id = 3 } ∷ [];
  approvals = [];
  events = [];
  drawn = 70;
}

abbrev answer : Response × Database
answer = record_approval_decision owner id_factory 1_000 reviewer (codes "F") request one_finding

abbrev first_receipt : Receipt
first_receipt = record {
  approval_id = 70 ∷ [];
  finding_id = codes "F";
  run_id = codes "R";
  head_sha = head;
  decision = approve_finding;
  decided_at = 1_000;
  already_recorded = false;
}

abbrev dumps : List (Text × Text) → Text
dumps pairs = []

abbrev digest : Text → Text
digest text = text

answer_decided : answer.0 ≡ decided first_receipt
unfolding record_approval_decision select_finding decide_row insert_decision text_eq
answer_decided = refl

record_approval_decision_lem_example :
    IsAnswer owner id_factory 1_000 reviewer
      (select_finding owner (some (9 ∷ [])) (codes "F") one_finding)
      request
      one_finding
      answer
record_approval_decision_lem_example =
    record_approval_decision_lem owner id_factory 1_000 reviewer (codes "F") request one_finding

record_approval_decision_again_example :
    record_approval_decision owner id_factory 2_000 reviewer (codes "F") request answer.1
    ≡ (decided (record first_receipt { already_recorded = true }), answer.1)
record_approval_decision_again_example =
    record_approval_decision_again owner id_factory id_factory 1_000 2_000 reviewer (codes "F")
      request first_receipt one_finding answer_decided refl

-- The decision is dispatched, and the signal names the finding and its approval.
dispatched_decision :
    (dispatch_next_approval dumps digest (λ target signal. true) (λ e. false) answer.1).signals ≡ (
      (
        codes "pr-review:O:P",
        record {
          run_id = codes "R";
          head_sha = head;
          approved = true;
          finding_ids = codes "F" ∷ [];
          approval_ids = (70 ∷ []) ∷ [];
          comment_body_ref = some (codes "approval-set:R:abc:");
        },
      )
      ∷ [])
unfolding record_approval_decision select_finding decide_row insert_decision text_eq
    dispatch_next_approval next_pending pending_of dispatch_pending decisions_of approved_pairs
    send_signal insert_event
dispatched_decision = refl

dispatch_next_approval-IsSound_example :
    All
      (λ sent.
        (p : Pending) × (next_pending (λ e. false) answer.1 answer.1.events ≡ some p)
        × IsTrue answer.1 p sent.1)
      (dispatch_next_approval dumps digest (λ target signal. true) (λ e. false) answer.1).signals
dispatch_next_approval-IsSound_example =
    dispatch_next_approval-IsSound dumps digest (λ target signal. true) (λ e. false) answer.1

abbrev to_publication : List RunState
to_publication = selecting_context ∷ analyzing ∷ verifying ∷ awaiting_approval ∷ published ∷ []

published-IsPath_example :
    (length to_publication ≤ 5)
    × (not (state_eq published published) || any (λ t. state_eq t awaiting_approval) to_publication
        ≡ true)
unfolding can_transition
published-IsPath_example =
    published-IsPath published to_publication (refl, (refl, (refl, (refl, (refl, refl)))))
