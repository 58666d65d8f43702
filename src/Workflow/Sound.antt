-- ===== src/Workflow/Sound.antt =====
-- How each coroutine ends, and that the invariant holds there: a Hoare logic over `Exit`, and its
-- rules for the methods that await activities.
use pr_reliability_platform.Prelude.{
  ℕ, ◌≡◌, sym, ◌∙◌, ◌<◌, Bool, true, false, Option, [], ◌∷◌, Text, All, Any, All-append, Bool-cases,
  inl, inr,
}
use mathlib.Core.Path.{subst}
use pr_reliability_platform.Workflow.Types.{
  ReviewWorkflowInput, ApprovalSignal, WorkflowOutcome, CheckRunStatus, CheckRunConclusion,
}
use pr_reliability_platform.Workflow.Machine.{
  ActivityOptions, Activity, Turn, Workflow, deliver_all, wait_condition, interrupted, resume,
}
use pr_reliability_platform.Workflow.Coroutine.{
  Exit, done, activity_error, runtime_error, continue_as_new, Coroutine, after, caught, or_runtime,
  required_input,
}
use pr_reliability_platform.Workflow.Activities.{
  schedule, execute_activity, drain, wait_for_activity_or_interrupt, stage, update_check,
}
use pr_reliability_platform.Workflow.Invariant.{
  IsTerminal, Justified, Inv, SignalOk, deliver_all-Inv, wait_condition-Inv, Steady,
  deliver_all-Steady, interrupted-Steady, wait_condition-test, StageDone,
}

module _ (r : ReviewWorkflowInput) (Q : ApprovalSignal → Type 0) where
  -- `V` is promised of a returned value, `E` of the state after an `ActivityError`; no
  -- `RuntimeError` is raised; a run is continued by a newer one only, and is recorded then.
  abbrev pub Holds :
      {A : Type 0} → (A → Workflow → Type 0) → (Workflow → Type 0) → Exit A × Workflow → Type 0
  Holds V E (done a, w) = Inv r Q w × V a w
  Holds V E (activity_error, w) = Inv r Q w × E w
  Holds V E (runtime_error, w) = ⊥
  Holds V E (continue_as_new n, w) =
      Inv r Q w
      × (r.generation < n.generation)
      × (o : WorkflowOutcome) × Any (IsTerminal r o) w.calls

  pub after-Holds :
      {A B : Type 0} (V : A → Workflow → Type 0) (E : Workflow → Type 0) (W : B → Workflow → Type 0)
      (x : Exit A × Workflow) (f : A → Coroutine B)
      → Holds V E x
      → ((a : A) (w : Workflow) → Inv r Q w → V a w → Holds W E (f a w))
      → Holds W E (after x f)
  after-Holds V E W (done a, w) f h k = k a w h.0 h.1
  after-Holds V E W (activity_error, w) f h k = h
  after-Holds V E W (runtime_error, w) f h k = h
  after-Holds V E W (continue_as_new n, w) f h k = h

  pub caught-Holds :
      {A : Type 0} (V : A → Workflow → Type 0) (E F : Workflow → Type 0) (x : Exit A × Workflow)
      (handler : Coroutine A)
      → Holds V E x
      → ((w : Workflow) → Inv r Q w → E w → Holds V F (handler w))
      → Holds V F (caught x handler)
  caught-Holds V E F (done a, w) handler h k = h
  caught-Holds V E F (activity_error, w) handler h k = k w h.0 h.1
  caught-Holds V E F (runtime_error, w) handler h k = h
  caught-Holds V E F (continue_as_new n, w) handler h k = h

  -- Under the invariant the input is there.
  pub with_input :
      {B : Type 0} (W : B → Workflow → Type 0) (E : Workflow → Type 0) (w : Workflow)
      (f : ReviewWorkflowInput → Coroutine B)
      → Inv r Q w
      → Holds W E (f r w)
      → Holds W E (after (required_input w) f)
  unfolding required_input
  with_input W E w f h k = subst (λ o. Holds W E (after (or_runtime o w) f)) (sym h.input_kept) k

  -- What is scheduled keeps the invariant if it is justified.
  pub schedule-Inv :
      (a : Activity) (o : ActivityOptions) (w : Workflow)
      → Justified r Q (a, o)
      → Inv r Q w
      → Inv r Q (schedule a o w)
  schedule-Inv a o w j h = record {
    input_kept = h.input_kept;
    approval_ok = h.approval_ok;
    supersession_newer = h.supersession_newer;
    calls_justified = All-append (Justified r Q) w.calls ((a, o) ∷ []) h.calls_justified (j, tt);
  }

  pub resume-Inv : (t : Turn) (w : Workflow) → Inv r Q w → Inv r Q (resume t w)
  resume-Inv t w h = record {
    input_kept = h.input_kept;
    approval_ok = h.approval_ok;
    supersession_newer = h.supersession_newer;
    calls_justified = h.calls_justified;
  }

  module _ (env : ℕ → Turn) (elapsed_ms : ℕ → ℕ → ℕ)
      (sent : (n : ℕ) → All (All (SignalOk r Q)) (env n).batches) where
    -- What is steady and holds once the activity is scheduled holds when it is over, also after an
    -- `ActivityError`.
    pub execute_activity-Holds :
        (K : Workflow → Type 0) (a : Activity) (o : ActivityOptions) (w : Workflow)
        → Steady K
        → Justified r Q (a, o)
        → K (schedule a o w)
        → Inv r Q w
        → Holds (λ (u : Unit {0}) w'. K w') K (execute_activity env elapsed_ms a o w)
    unfolding execute_activity
    execute_activity-Holds K a o w steady j k h =
        let t = env w.awaits in
        let x = deliver_all t.batches (schedule a o w) in
        let inv : Inv r Q (resume t x) = resume-Inv t x (
          deliver_all-Inv r Q t.batches (schedule a o w) (sent w.awaits)
            (schedule-Inv a o w j h)) in
        let kept : K (resume t x) =
          steady.by_resume t x (deliver_all-Steady K steady t.batches (schedule a o w) k) in
        elim (Bool-cases t.fails) [ inl e ↦ rw e (inv, kept) | inr e ↦ rw e (inv, kept) ]

    pub drain-Inv : (b : Bool) (w : Workflow) → Inv r Q w → Inv r Q (drain env elapsed_ms b w)
    unfolding drain
    drain-Inv true w h = h
    drain-Inv false w h =
        let t = env w.awaits in
        let w1 = resume t (deliver_all t.batches w) in
        let i1 : Inv r Q w1 = resume-Inv t _ (deliver_all-Inv r Q t.batches w (sent w.awaits) h) in
        let u = env w1.awaits in
        let i2 : Inv r Q (resume u (deliver_all u.batches w1)) =
          resume-Inv u _ (deliver_all-Inv r Q u.batches w1 (sent w1.awaits) i1) in
        elim (Bool-cases t.settled) [ inl e ↦ rw e i1 | inr e ↦ rw e i2 ]

    pub drain-interrupted :
        (b : Bool) (w : Workflow)
        → interrupted w ≡ true
        → interrupted (drain env elapsed_ms b w) ≡ true
    unfolding drain
    drain-interrupted true w h = h
    drain-interrupted false w h =
        let t = env w.awaits in
        let w1 = resume t (deliver_all t.batches w) in
        let i1 : interrupted w1 ≡ true =
          deliver_all-Steady (λ w. interrupted w ≡ true) interrupted-Steady t.batches w h in
        let u = env w1.awaits in
        let i2 : interrupted (deliver_all u.batches w1) ≡ true =
          deliver_all-Steady (λ w. interrupted w ≡ true) interrupted-Steady u.batches w1 i1 in
        elim (Bool-cases t.settled) [ inl e ↦ rw e i1 | inr e ↦ rw e i2 ]

    pub wait_for_activity_or_interrupt-Holds :
        (w : Workflow)
        → Inv r Q w
        → Holds StageDone (λ w'. Unit) (wait_for_activity_or_interrupt env elapsed_ms w)
    unfolding wait_for_activity_or_interrupt
    wait_for_activity_or_interrupt-Holds w h =
        let t = env w.awaits in
        let x = wait_condition interrupted t.batches w in
        let i : Inv r Q (resume t x.1) =
          resume-Inv t x.1 (wait_condition-Inv r Q interrupted t.batches w (sent w.awaits) h) in
        let seen : interrupted x.1 ≡ x.0 = wait_condition-test interrupted t.batches w in
        elim (Bool-cases x.0) [
          | inl e ↦ rw e (drain-Inv t.settled _ i, drain-interrupted t.settled _ (seen ∙ e))
          | inr e ↦ elim (Bool-cases t.fails) [
            | inl f ↦ rw (e, f) (i, tt)
            | inr f ↦ rw (e, f) (i, tt)
          ]
        ]

    pub stage-Holds :
        (name state : Text) (ref : Option Text) (w : Workflow)
        → Inv r Q w
        → Holds StageDone (λ w'. Unit) (stage env elapsed_ms name state ref w)
    unfolding stage
    stage-Holds name state ref w h =
        with_input StageDone (λ w'. Unit) w _ h
          (wait_for_activity_or_interrupt-Holds _ (
            schedule-Inv _ _ _ tt (record {
              input_kept = h.input_kept;
              approval_ok = h.approval_ok;
              supersession_newer = h.supersession_newer;
              calls_justified = h.calls_justified;
            })))

    -- A check run's activity keeps what is steady.
    pub update_check-Holds :
        (K : Workflow → Type 0) (s : CheckRunStatus) (c : Option CheckRunConclusion) (w : Workflow)
        → Steady K
        → K w
        → Inv r Q w
        → Holds (λ (u : Unit {0}) w'. K w') K (update_check env elapsed_ms s c w)
    unfolding update_check
    update_check-Holds K s c w steady k h =
        with_input _ _ w _ h
          (execute_activity-Holds K _ _ w steady tt (steady.by_schedule _ _ w k) h)
