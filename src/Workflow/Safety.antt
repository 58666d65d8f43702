-- ===== src/Workflow/Safety.antt =====
-- The theorems about a whole execution of the review workflow: any input, any signals before and
-- during the run, any outcome of any activity.
use pr_reliability_platform.Prelude.{
  ℕ, ◌≡◌, ◌≢◌, Bool, List, All, Any, ◌⊎◌, inl, inr, refl, ◌<◌, All-Any, All-Any_nested,
}
use mathlib.Core.Path.{subst}
use pr_reliability_platform.Workflow.Types.{
  ReviewWorkflowInput, ReviewWorkflowResult, ApprovalSignal, WorkflowOutcome,
}
use pr_reliability_platform.Workflow.Machine.{
  Turn, Workflow, Signal, approve, cancel, supersede, init, deliver,
}
use pr_reliability_platform.Workflow.Coroutine.{
  Exit, done, runtime_error, continue_as_new, activity_error,
}
use pr_reliability_platform.Workflow.Invariant.{
  Justified, SignalOk, IsNew, Returned, Recorded, Anything,
}
use pr_reliability_platform.Workflow.Sound.{Holds}
use pr_reliability_platform.Workflow.Approval.{deliver-IsNew, run-Holds}
use pr_reliability_platform.Workflow.Run.{execution}

-- The approval is one of the signals that the server delivered.
abbrev pub Sent : (ℕ → Turn) → List Signal → ApprovalSignal → Type 0
Sent env early a =
    Any (λ s. s ≡ approve a) early
    ⊎ ((n : ℕ) × Any (λ b. Any (λ s. s ≡ approve a) b) (env n).batches)

module _ (env : ℕ → Turn) (elapsed_ms : ℕ → ℕ → ℕ) (now : ℕ) (early : List Signal) (patched : Bool)
    (request : ReviewWorkflowInput) where
  early_ok : (s : Signal) → Any (λ t. t ≡ s) early → SignalOk request (Sent env early) s
  early_ok (approve a) m = inl m
  early_ok (cancel reason) m = tt
  early_ok (supersede s) m = tt

  turn_ok :
      (n : ℕ) (s : Signal)
      → Any (λ b. Any (λ t. t ≡ s) b) (env n).batches
      → SignalOk request (Sent env early) s
  turn_ok n (approve a) m = inr (n, m)
  turn_ok n (cancel reason) m = tt
  turn_ok n (supersede s) m = tt

  init-IsNew : IsNew (Sent env early) (init now)
  unfolding init
  init-IsNew = record { approval_sent = tt; no_calls = refl }

  execution-Holds :
      Holds request
        (Sent env early)
        (Returned request)
        Anything
        (execution env elapsed_ms now early patched request)
  unfolding execution
  execution-Holds =
      run-Holds request (Sent env early) env elapsed_ms
        (λ n. All-Any_nested (SignalOk request (Sent env early)) (env n).batches (turn_ok n))
        patched (deliver early (init now))
        (deliver-IsNew request (Sent env early) env elapsed_ms
          (λ n. All-Any_nested (SignalOk request (Sent env early)) (env n).batches (turn_ok n))
          early (init now) (All-Any (SignalOk request (Sent env early)) early early_ok) init-IsNew)

  calls_of_Holds :
      (x : Exit ReviewWorkflowResult × Workflow)
      → Holds request (Sent env early) (Returned request) Anything x
      → All (Justified request (Sent env early)) x.1.calls
  calls_of_Holds (done a, w) h = h.0.calls_justified
  calls_of_Holds (activity_error, w) h = h.0.calls_justified
  calls_of_Holds (runtime_error, w) h = absurd h
  calls_of_Holds (continue_as_new n, w) h = h.0.calls_justified

  -- Nothing is published without a human approval: each `publish` activity that an execution
  -- schedules carries the findings, the approvals and the body of an approval signal that the
  -- server delivered, which approves, is for the run and the commit of the input, and names
  -- findings, approvals and a body.
  pub publish_needs_approval :
      All
        (Justified request (Sent env early))
        (execution env elapsed_ms now early patched request).1.calls
  publish_needs_approval = calls_of_Holds _ execution-Holds

  -- When `run` returns a result, it is for the run and the commit of the input, a `record_terminal`
  -- activity with its outcome was scheduled, and the state is that outcome.
  pub result_recorded :
      (result : ReviewWorkflowResult) (w : Workflow)
      → execution env elapsed_ms now early patched request ≡ (done result, w)
      → Returned request result w
  result_recorded result w e =
      (subst (Holds request (Sent env early) (Returned request) Anything) e execution-Holds).1

  -- When the execution continues as a new one, the next run has a greater generation, and a
  -- terminal outcome of this run was scheduled to be recorded first.
  pub continue_is_newer :
      (next : ReviewWorkflowInput) (w : Workflow)
      → execution env elapsed_ms now early patched request ≡ (continue_as_new next, w)
      → (request.generation < next.generation) × ((o : WorkflowOutcome) × Recorded request o w)
  continue_is_newer next w e =
      let h : Holds request (Sent env early) (Returned request) Anything (continue_as_new next, w) =
        subst (Holds request (Sent env early) (Returned request) Anything) e execution-Holds in
      (h.1, (h.2, h.3))

  -- The `RuntimeError`s of the workflow ("activity stopped without an interrupt", "workflow woke
  -- without a terminal signal", "workflow input is not initialized") are never raised by `run`.
  pub execution-ne-runtime_error :
      (w : Workflow) → execution env elapsed_ms now early patched request ≢ (runtime_error, w)
  execution-ne-runtime_error w e =
      subst (Holds request (Sent env early) (Returned request) Anything) e execution-Holds
