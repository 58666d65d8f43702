-- ===== src/Workflow/Invariant.antt =====
-- What holds of a workflow for the input `r` at every await, whatever signals come in. `Q` is what
-- is known of each approval that is sent to it.
use pr_reliability_platform.Prelude.{
  ◌≡◌, refl, ◌<◌, Bool, true, some, List, [], ◌∷◌, arith, All, OnSome, nonempty, is_some,
  Bool-cases, inl, inr, sym, Any, Any-append_left, ◌≢◌, none, text_eq→eq, Option, false,
}
use mathlib.Core.Path.{subst}
use pr_reliability_platform.Workflow.Types.{
  ReviewWorkflowInput, ApprovalSignal, WorkflowOutcome, ReviewWorkflowResult, StageResult,
  outcome_value,
}
use pr_reliability_platform.Workflow.Machine.{
  Turn, ActivityOptions, Activity, Signal, Workflow, approve, cancel, supersede, matches_input,
  on_approve, on_cancel, on_supersede, handle, deliver, deliver_all, wait_condition, interrupted,
  resume,
}
use pr_reliability_platform.Workflow.Activities.{publish_request, schedule}

-- A scheduled `record_terminal` for the run and the commit of `r`, with this outcome.
abbrev pub IsTerminal : ReviewWorkflowInput → WorkflowOutcome → Activity × ActivityOptions → Type 0
IsTerminal r outcome (Activity.record_terminal q, o) =
    (q.outcome ≡ outcome) × (q.run_id ≡ r.run_id) × (q.head_sha ≡ r.head_sha)
IsTerminal r outcome (Activity.stage name q, o) = ⊥
IsTerminal r outcome (Activity.publish q, o) = ⊥
IsTerminal r outcome (Activity.update_check q, o) = ⊥

-- What `run` asks of the approval that it publishes.
pub record Approves (r : ReviewWorkflowInput) (a : ApprovalSignal) : Type 0 where
  pub approved : a.approved ≡ true
  pub same_run : a.run_id ≡ r.run_id
  pub same_head : a.head_sha ≡ r.head_sha
  pub findings : a.finding_ids ≢ []
  pub approvals : a.approval_ids ≢ []
  pub body : a.comment_body_ref ≢ none

pub Approves-matches_input :
    (r : ReviewWorkflowInput) (a : ApprovalSignal)
    → a.approved ≡ true
    → matches_input (some r) a ≡ true
    → nonempty a.finding_ids ≡ true
    → nonempty a.approval_ids ≡ true
    → is_some a.comment_body_ref ≡ true
    → Approves r a
Approves-matches_input r a e m f g b =
    ground (arith, text_eq→eq a.run_id r.run_id, text_eq→eq a.head_sha r.head_sha)

-- The outcome is recorded for the run and the commit of `r`.
abbrev pub Recorded : ReviewWorkflowInput → WorkflowOutcome → Workflow → Type 0
Recorded r o w = Any (IsTerminal r o) w.calls

-- A result names the run and the commit, its outcome is recorded, and the state says so.
abbrev pub Returned : ReviewWorkflowInput → ReviewWorkflowResult → Workflow → Type 0
Returned r result w =
    (result.run_id ≡ r.run_id)
    × (result.head_sha ≡ r.head_sha)
    × Recorded r result.outcome w
    × (w.state ≡ outcome_value result.outcome)

abbrev pub Anything : Workflow → Type 0
Anything w = Unit

-- With no result there was no interrupt, and nothing was done.
abbrev pub Honored :
    ReviewWorkflowInput → Workflow → Option ReviewWorkflowResult → Workflow → Type 0
Honored r w (some result) w' = Returned r result w'
Honored r w none w' = (w' ≡ w) × (interrupted w ≡ false)

-- A stage gives no result only where the workflow is interrupted.
abbrev pub StageDone : Option StageResult → Workflow → Type 0
StageDone none w = interrupted w ≡ true
StageDone (some a) w = Unit

-- The `try` block returns a result, or goes on.
abbrev pub Reviewed : ReviewWorkflowInput → Option ReviewWorkflowResult → Workflow → Type 0
Reviewed r (some result) w = Returned r result w
Reviewed r none w = Unit

-- Before `run` sets the input: nothing is scheduled, and `Q` holds of a stored approval.
pub record IsNew (Q : ApprovalSignal → Type 0) (w : Workflow) : Type 0 where
  pub approval_sent : OnSome Q w.approval
  pub no_calls : w.calls ≡ []

module _ (r : ReviewWorkflowInput) (Q : ApprovalSignal → Type 0) where
  -- A publish is justified by an approval, and carries what the approval names.
  abbrev pub Justified : Activity × ActivityOptions → Type 0
  Justified (Activity.publish p, o) =
      (a : ApprovalSignal) × Q a × Approves r a × (p ≡ publish_request r a)
  Justified (Activity.record_terminal q, o) = Unit
  Justified (Activity.stage name q, o) = Unit
  Justified (Activity.update_check q, o) = Unit

  pub record Inv (w : Workflow) : Type 0 where
    pub input_kept : w.input ≡ some r
    pub approval_ok : OnSome (λ a. Q a × (matches_input (some r) a ≡ true)) w.approval
    pub supersession_newer : OnSome (λ s. r.generation < s.next_run.generation) w.supersession
    pub calls_justified : All Justified w.calls

  abbrev pub SignalOk : Signal → Type 0
  SignalOk (approve a) = Q a
  SignalOk (cancel reason) = Unit
  SignalOk (supersede s) = Unit

  pub handle-Inv : (s : Signal) (w : Workflow) → SignalOk s → Inv w → Inv (handle s w)
  unfolding handle on_approve on_cancel on_supersede
  handle-Inv (approve a) w q h = ground arith
  handle-Inv (cancel reason) w q h = ground arith
  handle-Inv (supersede s) w q h = ground arith

  pub deliver-Inv : (ss : List Signal) (w : Workflow) → All SignalOk ss → Inv w → Inv (deliver ss w)
  unfolding deliver
  deliver-Inv [] w q h = h
  deliver-Inv (s ∷ ss) w q h = deliver-Inv ss (handle s w) q.1 (handle-Inv s w q.0 h)

  pub deliver_all-Inv :
      (bs : List (List Signal)) (w : Workflow)
      → All (All SignalOk) bs
      → Inv w
      → Inv (deliver_all bs w)
  unfolding deliver_all
  deliver_all-Inv [] w q h = h
  deliver_all-Inv (b ∷ bs) w q h = deliver_all-Inv bs (deliver b w) q.1 (deliver-Inv b w q.0 h)

  pub wait_condition-Inv :
      (test : Workflow → Bool) (bs : List (List Signal)) (w : Workflow)
      → All (All SignalOk) bs
      → Inv w
      → Inv (wait_condition test bs w).1
  unfolding wait_condition
  wait_condition-Inv test [] w q h = h
  wait_condition-Inv test (b ∷ bs) w q h = elim (Bool-cases (test w)) [
    | inl e ↦ rw e h
    | inr e ↦ rw e (wait_condition-Inv test bs (deliver b w) q.1 (deliver-Inv b w q.0 h))
  ]

-- A predicate that no signal and no activity makes false.
pub record Steady (K : Workflow → Type 0) : Type 0 where
  pub by_handle : (s : Signal) (w : Workflow) → K w → K (handle s w)
  pub by_resume : (t : Turn) (w : Workflow) → K w → K (resume t w)
  pub by_schedule : (a : Activity) (o : ActivityOptions) (w : Workflow) → K w → K (schedule a o w)

module _ (K : Workflow → Type 0) (steady : Steady K) where
  pub deliver-Steady : (ss : List Signal) (w : Workflow) → K w → K (deliver ss w)
  unfolding deliver
  deliver-Steady [] w k = k
  deliver-Steady (s ∷ ss) w k = deliver-Steady ss (handle s w) (steady.by_handle s w k)

  pub deliver_all-Steady : (bs : List (List Signal)) (w : Workflow) → K w → K (deliver_all bs w)
  unfolding deliver_all
  deliver_all-Steady [] w k = k
  deliver_all-Steady (b ∷ bs) w k = deliver_all-Steady bs (deliver b w) (deliver-Steady b w k)

pub ×-Steady : (K L : Workflow → Type 0) → Steady K → Steady L → Steady (λ w. K w × L w)
×-Steady K L k l = record {
  by_handle = λ s w h. (k.by_handle s w h.0, l.by_handle s w h.1);
  by_resume = λ t w h. (k.by_resume t w h.0, l.by_resume t w h.1);
  by_schedule = λ a o w h. (k.by_schedule a o w h.0, l.by_schedule a o w h.1);
}

pub Unit-Steady : Steady (λ w. Unit)
Unit-Steady = record { by_handle = λ s w h. h; by_resume = λ t w h. h; by_schedule = λ a o w h. h }

handle-calls : (s : Signal) (w : Workflow) → (handle s w).calls ≡ w.calls
unfolding handle on_approve on_cancel on_supersede
handle-calls (approve a) w = ground arith
handle-calls (cancel reason) w = ground arith
handle-calls (supersede s) w = ground arith

pub Any-Steady : (P : Activity × ActivityOptions → Type 0) → Steady (λ w. Any P w.calls)
Any-Steady P = record {
  by_handle = λ s w h. subst (Any P) (sym (handle-calls s w)) h;
  by_resume = λ t w h. h;
  by_schedule = λ a o w h. Any-append_left P w.calls ((a, o) ∷ []) h;
}

handle-interrupted :
    (s : Signal) (w : Workflow) → interrupted w ≡ true → interrupted (handle s w) ≡ true
unfolding handle on_approve on_cancel on_supersede
handle-interrupted (approve a) w h = ground arith
handle-interrupted (cancel reason) w h = ground arith
handle-interrupted (supersede s) w h = ground arith

-- An interrupt is never taken back.
pub interrupted-Steady : Steady (λ w. interrupted w ≡ true)
interrupted-Steady = record {
  by_handle = handle-interrupted;
  by_resume = λ t w h. h;
  by_schedule = λ a o w h. h;
}

handle-superseded :
    (s : Signal) (w : Workflow)
    → is_some w.supersession ≡ true
    → is_some (handle s w).supersession ≡ true
unfolding handle on_approve on_cancel on_supersede
handle-superseded (approve a) w h = ground arith
handle-superseded (cancel reason) w h = ground arith
handle-superseded (supersede s) w h = ground arith

-- A supersession is replaced, and never dropped.
pub superseded-Steady : Steady (λ w. is_some w.supersession ≡ true)
superseded-Steady = record {
  by_handle = handle-superseded;
  by_resume = λ t w h. h;
  by_schedule = λ a o w h. h;
}

-- A wait reports the condition as it stands when the wait is over.
pub wait_condition-test :
    (test : Workflow → Bool) (bs : List (List Signal)) (w : Workflow)
    → test (wait_condition test bs w).1 ≡ (wait_condition test bs w).0
unfolding wait_condition
wait_condition-test test [] w = refl
wait_condition-test test (b ∷ bs) w = elim (Bool-cases (test w)) [
  | inl e ↦ rw e e
  | inr e ↦ rw e (wait_condition-test test bs (deliver b w))
]
