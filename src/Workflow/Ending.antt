-- ===== src/Workflow/Ending.antt =====
-- How a run ends: the terminal record, the result and the continuation, as the rules of `Sound`.
use pr_reliability_platform.Prelude.{
  ℕ, ap, ◌≡◌, refl, ◌<◌, Bool, true, false, Option, none, some, Text, All, inl, Any-append_right,
  OnSome, is_some,
}
use pr_reliability_platform.Workflow.Types.{
  ReviewWorkflowInput, ReviewWorkflowResult, ApprovalSignal, SupersedeSignal, WorkflowOutcome,
  outcome_value, cancelled,
}
use pr_reliability_platform.Workflow.Machine.{Turn, Workflow}
use pr_reliability_platform.Workflow.Coroutine.{
  Exit, done, activity_error, runtime_error, continue_as_new, pure, caught, or_runtime, after,
  continue_with,
}
use pr_reliability_platform.Workflow.Activities.{
  finalize_metrics, complete_check, record_terminal, continue_or_return, finish, honor,
  honor_interrupt,
}
use pr_reliability_platform.Workflow.Invariant.{
  IsTerminal, Inv, SignalOk, Steady, ×-Steady, Unit-Steady, Any-Steady, superseded-Steady, Recorded,
  Returned, Anything, Honored,
}
use pr_reliability_platform.Workflow.Sound.{
  Holds, after-Holds, caught-Holds, with_input, execute_activity-Holds, update_check-Holds,
}

module _ (r : ReviewWorkflowInput) (Q : ApprovalSignal → Type 0) (env : ℕ → Turn)
    (elapsed_ms : ℕ → ℕ → ℕ) (sent : (n : ℕ) → All (All (SignalOk r Q)) (env n).batches) where
  pub Holds-weaken :
      {A : Type 0} (V : A → Workflow → Type 0) (E : Workflow → Type 0) (x : Exit A × Workflow)
      → Holds r Q V E x
      → Holds r Q V Anything x
  Holds-weaken V E (done a, w) h = h
  Holds-weaken V E (activity_error, w) h = (h.0, tt)
  Holds-weaken V E (runtime_error, w) h = h
  Holds-weaken V E (continue_as_new n, w) h = h

  -- `except ActivityError: pass`
  caught_pass-Holds :
      (K : Workflow → Type 0) (x : Exit (Unit {0}) × Workflow)
      → Holds r Q (λ u w'. K w') K x
      → Holds r Q (λ u w'. K w') Anything (caught x (pure tt))
  caught_pass-Holds K x h =
      caught-Holds r Q (λ u w'. K w') K Anything x (pure tt) h (λ w i k. (i, k))

  finalize_metrics-Holds :
      (K : Workflow → Type 0) (w : Workflow)
      → Steady K
      → K w
      → Inv r Q w
      → Holds r Q (λ (u : Unit {0}) w'. K w') K (finalize_metrics env elapsed_ms w)
  unfolding finalize_metrics
  finalize_metrics-Holds K w steady k h = with_input r Q _ _ w _ h (
      execute_activity-Holds r Q env elapsed_ms sent K _ _ w steady tt (steady.by_schedule _ _ w k)
        h)

  complete_check-Holds :
      (K : Workflow → Type 0) (o : WorkflowOutcome) (b : Bool) (w : Workflow)
      → Steady K
      → K w
      → Inv r Q w
      → Holds r Q (λ (u : Unit {0}) w'. K w') Anything (complete_check env elapsed_ms o b w)
  unfolding complete_check
  complete_check-Holds K o false w steady k h = (h, k)
  complete_check-Holds K o true w steady k h =
      caught_pass-Holds K _ (update_check-Holds r Q env elapsed_ms sent K _ _ w steady k h)

  -- The outcome is recorded, and what is steady stays.
  pub record_terminal-Holds :
      (K : Workflow → Type 0) (o : WorkflowOutcome) (reason : Option Text) (w : Workflow)
      → Steady K
      → K w
      → Inv r Q w
      → Holds r Q
          (λ (u : Unit {0}) w'. Recorded r o w' × K w')
          Anything
          (record_terminal env elapsed_ms o reason w)
  unfolding record_terminal
  record_terminal-Holds K o reason w steady k h =
      let L : Workflow → Type 0 = λ w'. Recorded r o w' × K w' in
      let both : Steady L = ×-Steady (Recorded r o) K (Any-Steady (IsTerminal r o)) steady in
      let V : Unit {0} → Workflow → Type 0 = λ u w'. L w' in
      with_input r Q _ _ w _ h (
        after-Holds r Q V Anything V _ _
          (Holds-weaken V L _ (
            execute_activity-Holds r Q env elapsed_ms sent L _ _ w both tt
              (
                Any-append_right (IsTerminal r o) w.calls _ (inl (refl, refl, refl)),
                steady.by_schedule _ _ w k,
              )
              h))
          (λ u w1 h1 l1.
            after-Holds r Q V Anything V _ _
              (complete_check-Holds L o w1.checks_enabled w1 both l1 h1)
              (λ u' w2 h2 l2. caught_pass-Holds L _ (finalize_metrics-Holds L w2 both l2 h2))))

  continue_or_return-Holds :
      (result : ReviewWorkflowResult) (s : Option SupersedeSignal) (w : Workflow)
      → OnSome (λ t. r.generation < t.next_run.generation) s
      → (Returned r) result w
      → Inv r Q w
      → Holds r Q (Returned r) Anything (continue_or_return env elapsed_ms result s w)
  unfolding continue_or_return
  continue_or_return-Holds result none w n p h = (h, p)
  continue_or_return-Holds result (some s) w n p h = (h, n, result.outcome, p.2)

  pub finish-Holds :
      (o : WorkflowOutcome) (reason : Option Text) (w : Workflow)
      → Inv r Q w
      → Holds r Q (Returned r) Anything (finish env elapsed_ms o reason w)
  unfolding finish
  finish-Holds o reason w h =
      after-Holds r Q (λ u w'. Recorded r o w' × Unit {0}) Anything (Returned r) _ _
        (record_terminal-Holds (λ w. Unit) o reason w Unit-Steady tt h)
        (λ u w1 h1 p1.
          let w2 = record w1 { state = outcome_value o } in
          let h2 : Inv r Q w2 = record {
            input_kept = h1.input_kept;
            approval_ok = h1.approval_ok;
            supersession_newer = h1.supersession_newer;
            calls_justified = h1.calls_justified;
          } in
          with_input r Q (Returned r) Anything w2 _ h2 (
            continue_or_return-Holds _ w1.supersession w2 h1.supersession_newer
              (refl, refl, p1.0, refl) h2))

  latest-Holds :
      (s : Option SupersedeSignal) (w0 w : Workflow)
      → is_some s ≡ true
      → OnSome (λ t. r.generation < t.next_run.generation) s
      → Recorded r cancelled w
      → Inv r Q w
      → Holds r Q (Honored r w0) Anything (after (or_runtime s w) (λ t. continue_with t.next_run))
  latest-Holds none w0 w e n p h = cc
  latest-Holds (some s) w0 w e n p h = (h, n, cancelled, p)

  honor-Holds :
      (s : Option SupersedeSignal) (c : Option Text) (w : Workflow)
      → w.supersession ≡ s
      → w.cancel_reason ≡ c
      → Inv r Q w
      → Holds r Q (Honored r w) Anything (honor env elapsed_ms s c w)
  unfolding honor
  honor-Holds (some s) c w es ec h =
      after-Holds r Q (λ u w'. Recorded r cancelled w' × (is_some w'.supersession ≡ true)) Anything
        (Honored r w) _ _
        (record_terminal-Holds (λ w. is_some w.supersession ≡ true) cancelled _ w superseded-Steady
          (ap is_some es) h)
        (λ u w1 h1 p1. latest-Holds w1.supersession w w1 p1.1 h1.supersession_newer p1.0 h1)
  honor-Holds none (some c) w es ec h =
      after-Holds r Q (Returned r) Anything (Honored r w) _ _ (finish-Holds cancelled (some c) w h)
        (λ result w1 h1 p1. (h1, p1))
  honor-Holds none none w es ec h = (h, (refl, rw (es, ec) refl))

  -- An interrupt ends the run, and without one nothing happens.
  pub honor_interrupt-Holds :
      (w : Workflow)
      → Inv r Q w
      → Holds r Q (Honored r w) Anything (honor_interrupt env elapsed_ms w)
  unfolding honor_interrupt
  honor_interrupt-Holds w h = honor-Holds w.supersession w.cancel_reason w refl refl h
