-- ===== src/Workflow/Machine.antt =====
-- The state of `PullRequestReviewWorkflow`, the signals, and what an `await` does to it.
--
-- The Temporal server is an environment `ℕ → Turn`: the n-th await of an execution takes the n-th
-- turn. A turn holds the batches of signals that the server delivers while the workflow waits, in
-- order (a batch is one activation: its handlers all run before a condition is read again), how the
-- awaited activity ends (`settled` is its handle's `done()` when the wait is over, `fails` is an `ActivityError`, after the server's retries; `result` is
-- what a stage returns) and the time of the workflow's clock when the await is over.
use pr_reliability_platform.Prelude.{
  ℕ, suc, Bool, true, false, Option, none, some, List, [], ◌∷◌, Text, codes, text_eq, strip,
  is_some, ltb, max, not, ◌&&◌, ◌||◌, if◌then◌else◌,
}
use pr_reliability_platform.Workflow.Types.{
  ReviewWorkflowInput, ApprovalSignal, SupersedeSignal, StageRequest, StageResult, PublishRequest,
  TerminalRequest, CheckRunRequest, ModelUsage,
}

-- The keyword arguments of an activity; the fixed ones (heartbeat, intervals) are left out.
pub record ActivityOptions : Type 0 where
  pub activity_id : Text
  pub schedule_to_start_timeout : ℕ
  pub start_to_close_timeout : ℕ
  pub maximum_attempts : ℕ

-- An activity that the workflow has scheduled: the name (a stage's is an argument) and the request.
pub data Activity : Type 0 where
  stage : Text → StageRequest → Activity
  publish : PublishRequest → Activity
  record_terminal : TerminalRequest → Activity
  update_check : CheckRunRequest → Activity

pub data Signal : Type 0 where
  approve : ApprovalSignal → Signal
  cancel : Text → Signal
  supersede : SupersedeSignal → Signal

pub record Turn : Type 0 where
  pub batches : List (List Signal)
  pub settled : Bool
  pub fails : Bool
  pub result : StageResult
  pub now : ℕ

-- The attributes that `__init__` sets. `clock` is `workflow.now()`, `awaits` counts the turns
-- taken, and `calls` lists the scheduled activities, the first one first.
pub record Workflow : Type 0 where
  pub input : Option ReviewWorkflowInput
  pub state : Text
  pub approval : Option ApprovalSignal
  pub cancel_reason : Option Text
  pub supersession : Option SupersedeSignal
  pub started_at : Option ℕ
  pub approval_wait_started_at : Option ℕ
  pub approval_wait_ms : Option ℕ
  pub usage : Option ModelUsage
  pub checks_enabled : Bool
  pub clock : ℕ
  pub awaits : ℕ
  pub calls : List (Activity × ActivityOptions)

-- `__init__`
unfoldable pub init : ℕ → Workflow
init now = record {
  input = none;
  state = codes "queued";
  approval = none;
  cancel_reason = none;
  supersession = none;
  started_at = none;
  approval_wait_started_at = none;
  approval_wait_ms = none;
  usage = none;
  checks_enabled = false;
  clock = now;
  awaits = 0;
  calls = [];
}

abbrev pub matches_input : Option ReviewWorkflowInput → ApprovalSignal → Bool
matches_input none a = false
matches_input (some r) a = text_eq a.run_id r.run_id && text_eq a.head_sha r.head_sha

-- `approve`: before the input is known every approval is kept, and `run` tests it again.
unfoldable pub on_approve : ApprovalSignal → Workflow → Workflow
on_approve a w =
    if not (is_some w.input) || matches_input w.input a then record w { approval = some a } else w

-- `reason.strip() or "cancelled"`
abbrev pub or_cancelled : Text → Text
or_cancelled [] = codes "cancelled"
or_cancelled (c ∷ s) = c ∷ s

unfoldable pub on_cancel : Text → Workflow → Workflow
on_cancel reason w = record w { cancel_reason = some (or_cancelled (strip reason)) }

abbrev pub input_generation : Option ReviewWorkflowInput → ℕ
input_generation none = 0
input_generation (some r) = r.generation

abbrev pub pending_generation : Option SupersedeSignal → ℕ
pending_generation none = 0
pending_generation (some s) = s.next_run.generation

unfoldable pub on_supersede : SupersedeSignal → Workflow → Workflow
on_supersede s w =
    if ltb (max (input_generation w.input) (pending_generation w.supersession))
      s.next_run.generation
    then record w { supersession = some s }
    else w

unfoldable pub handle : Signal → Workflow → Workflow
handle (approve a) = on_approve a
handle (cancel reason) = on_cancel reason
handle (supersede s) = on_supersede s

unfoldable pub deliver : List Signal → Workflow → Workflow
deliver [] w = w
deliver (s ∷ ss) w = deliver ss (handle s w)

unfoldable pub deliver_all : List (List Signal) → Workflow → Workflow
deliver_all [] w = w
deliver_all (b ∷ bs) w = deliver_all bs (deliver b w)

-- `workflow.wait_condition`: the batches are delivered until the condition holds. The result says
-- whether it did before they ran out (for a wait with a timeout: before the timer fired).
unfoldable pub wait_condition : (Workflow → Bool) → List (List Signal) → Workflow → Bool × Workflow
wait_condition test [] w = (test w, w)
wait_condition test (b ∷ bs) w =
    let rest = wait_condition test bs (deliver b w) in if test w then (true, w) else rest

-- `bool(self._cancel_reason or self._supersede)`; a stored reason is never empty.
abbrev pub interrupted : Workflow → Bool
interrupted w = is_some w.cancel_reason || is_some w.supersession

-- `any((self._approval, self._cancel_reason, self._supersede))`
abbrev pub signalled : Workflow → Bool
signalled w = is_some w.approval || interrupted w

-- The end of an await: the next turn is up, and the clock has moved on.
abbrev pub resume : Turn → Workflow → Workflow
resume t w = record w { clock = t.now; awaits = suc w.awaits }
