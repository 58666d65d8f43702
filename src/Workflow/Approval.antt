-- ===== src/Workflow/Approval.antt =====
-- The rules of `Sound` and `Ending` carried over to what `run` does once the stages are over.
use pr_reliability_platform.Workflow.Stages.{review-Holds}
use pr_reliability_platform.Prelude.{
  ℕ, ◌≡◌, refl, sym, ◌∙◌, Bool, true, false, Option, none, some, List, [], ◌∷◌, Text, All, inl, inr,
  OnSome, is_some, nonempty, Bool-cases, arith,
}
use mathlib.Core.Path.{subst}
use pr_reliability_platform.Workflow.Types.{
  ReviewWorkflowInput, ReviewWorkflowResult, ApprovalSignal, WorkflowOutcome,
}
use pr_reliability_platform.Workflow.Machine.{
  Turn, Workflow, Signal, interrupted, signalled, wait_condition, approve, cancel, supersede,
  on_approve, on_cancel, on_supersede, handle, deliver, resume, matches_input,
}
use pr_reliability_platform.Workflow.Coroutine.{or_runtime, after, gets, ◌>>=◌}
use pr_reliability_platform.Workflow.Activities.{publish, finish_approval_wait, finish}
use pr_reliability_platform.Workflow.Invariant.{
  Approves, Inv, SignalOk, Unit-Steady, wait_condition-Inv, wait_condition-test, Returned, Anything,
  Honored, Reviewed, IsNew, Approves-matches_input,
}
use pr_reliability_platform.Workflow.Sound.{
  Holds, after-Holds, caught-Holds, with_input, execute_activity-Holds, resume-Inv,
}
use pr_reliability_platform.Workflow.Ending.{finish-Holds, honor_interrupt-Holds}
use pr_reliability_platform.Workflow.Run.{
  begin_run, begin_waiting, wait_for_signal, report_publish, publish_approved, decide, or_else,
  woken, await_approval, fail_review, run,
}

module _ (r : ReviewWorkflowInput) (Q : ApprovalSignal → Type 0) (env : ℕ → Turn)
    (elapsed_ms : ℕ → ℕ → ℕ) (sent : (n : ℕ) → All (All (SignalOk r Q)) (env n).batches) where
  publish-Holds :
      (a : ApprovalSignal) (w : Workflow)
      → Q a
      → Approves r a
      → Inv r Q w
      → Holds r Q (λ (u : Unit {0}) w'. Unit {0}) Anything (publish env elapsed_ms a w)
  unfolding publish
  publish-Holds a w q ok h = with_input r Q _ _ w _ h (
      execute_activity-Holds r Q env elapsed_ms sent (λ w. Unit) _ _ w Unit-Steady (a, q, ok, refl)
        tt h)

  report_publish-Holds :
      (b : Bool) (w : Workflow)
      → Inv r Q w
      → Holds r Q (Returned r) Anything (report_publish env elapsed_ms b w)
  unfolding report_publish
  report_publish-Holds true w h = finish-Holds r Q env elapsed_ms sent _ _ w h
  report_publish-Holds false w h = finish-Holds r Q env elapsed_ms sent _ _ w h

  publish_approved-Holds :
      (a : ApprovalSignal) (w : Workflow)
      → Q a
      → Approves r a
      → Inv r Q w
      → Holds r Q (Returned r) Anything (publish_approved env elapsed_ms a w)
  unfolding publish_approved
  publish_approved-Holds a w q ok h =
      after-Holds r Q (λ (b : Bool) w'. Unit {0}) Anything (Returned r) _ _
        (caught-Holds r Q (λ (b : Bool) w'. Unit {0}) Anything Anything _ _
          (after-Holds r Q (λ (u : Unit {0}) w'. Unit {0}) Anything (λ (b : Bool) w'. Unit {0}) _ _
            (publish-Holds a _ q ok (record {
              input_kept = h.input_kept;
              approval_ok = h.approval_ok;
              supersession_newer = h.supersession_newer;
              calls_justified = h.calls_justified;
            }))
            (λ u w1 h1 d1. (h1, tt)))
          (λ w1 h1 d1. (h1, tt)))
        (λ b w1 h1 d1. report_publish-Holds b w1 h1)

  decide-Holds :
      (a : ApprovalSignal) (w : Workflow)
      → Q a
      → matches_input (some r) a ≡ true
      → Inv r Q w
      → Holds r Q (Returned r) Anything (decide env elapsed_ms a w)
  unfolding decide
  decide-Holds a w q m h =
      let refuse : (o : WorkflowOutcome) (t : Option Text)
          → Holds r Q (Returned r) Anything (finish env elapsed_ms o t w) =
        λ o t. finish-Holds r Q env elapsed_ms sent o t w h in
      elim (Bool-cases a.approved) [
        | inr e ↦ simp e (refuse _ _)
        | inl e ↦ elim (Bool-cases (nonempty a.finding_ids)) [
          | inr f ↦ simp (e, f) (refuse _ _)
          | inl f ↦ elim (Bool-cases (nonempty a.approval_ids)) [
            | inr g ↦ simp (e, f, g) (refuse _ _)
            | inl g ↦ elim (Bool-cases (is_some a.comment_body_ref)) [
              | inr k ↦ simp (e, f, g, k) (refuse _ _)
              | inl k ↦
                  simp (e, f, g, k)
                    (publish_approved-Holds a w q (Approves-matches_input r a e m f g k) h)
            ]
          ]
        ]
      ]

  chosen-Holds :
      (o : Option ApprovalSignal) (w : Workflow)
      → is_some o ≡ true
      → OnSome (λ a. Q a × (matches_input (some r) a ≡ true)) o
      → Inv r Q w
      → Holds r Q (Returned r) Anything (after (or_runtime o w) (decide env elapsed_ms))
  chosen-Holds none w e q h = cc
  chosen-Holds (some a) w e q h = decide-Holds a w q.0 q.1 h

  or_signal :
      (w : Workflow) → signalled w ≡ true → interrupted w ≡ false → is_some w.approval ≡ true
  or_signal w s i = ground arith

  -- Woken by a signal, the run is interrupted or has its approval.
  woken-Holds :
      (b : Bool) (w : Workflow)
      → signalled w ≡ b
      → Inv r Q w
      → Holds r Q (Returned r) Anything (woken env elapsed_ms b w)
  unfolding woken or_else
  woken-Holds false w s h = finish-Holds r Q env elapsed_ms sent _ _ w h
  woken-Holds true w s h =
      after-Holds r Q (Honored r w) Anything (Returned r) _ _
        (honor_interrupt-Holds r Q env elapsed_ms sent w h) decided
    where
      decided :
          (early : Option ReviewWorkflowResult) (w' : Workflow)
          → Inv r Q w'
          → Honored r w early w'
          → Holds r Q (Returned r) Anything (
              or_else env elapsed_ms early
                (gets (λ w. w.approval) >>= or_runtime >>= decide env elapsed_ms)
                w')
      decided (some result) w' i p = (i, p)
      decided none w' i p =
          chosen-Holds w'.approval w'
            (subst (λ v. is_some v.approval ≡ true) (sym p.0) (or_signal w s p.1)) i.approval_ok i

  finish_approval_wait-Inv :
      (w : Workflow) → Inv r Q w → Inv r Q (finish_approval_wait env elapsed_ms w)
  unfolding finish_approval_wait
  finish_approval_wait-Inv w h = ground arith

  finish_approval_wait-signalled :
      (w : Workflow) → signalled (finish_approval_wait env elapsed_ms w) ≡ signalled w
  unfolding finish_approval_wait
  finish_approval_wait-signalled w = ground arith

  await_approval-Holds :
      (w : Workflow) → Inv r Q w → Holds r Q (Returned r) Anything (await_approval env elapsed_ms w)
  unfolding await_approval wait_for_signal
  await_approval-Holds w h =
      let t = env w.awaits in
      let x = wait_condition signalled t.batches (begin_waiting w) in
      let i : Inv r Q x.1 =
        wait_condition-Inv r Q signalled t.batches (begin_waiting w) (sent w.awaits) (record {
          input_kept = h.input_kept;
          approval_ok = h.approval_ok;
          supersession_newer = h.supersession_newer;
          calls_justified = h.calls_justified;
        }) in
      woken-Holds x.0 _
        (finish_approval_wait-signalled (resume t x.1)
          ∙ wait_condition-test signalled t.batches (begin_waiting w))
        (finish_approval_wait-Inv (resume t x.1) (resume-Inv r Q t x.1 i))

  begin_run-Inv : (patched : Bool) (w : Workflow) → IsNew Q w → Inv r Q (begin_run patched r w)
  unfolding begin_run
  begin_run-Inv patched w h = ground arith

  handle-IsNew : (s : Signal) (w : Workflow) → SignalOk r Q s → IsNew Q w → IsNew Q (handle s w)
  unfolding handle on_approve on_cancel on_supersede
  handle-IsNew (approve a) w q h = ground arith
  handle-IsNew (cancel reason) w q h = ground arith
  handle-IsNew (supersede s) w q h = ground arith

  pub deliver-IsNew :
      (ss : List Signal) (w : Workflow) → All (SignalOk r Q) ss → IsNew Q w → IsNew Q (deliver ss w)
  unfolding deliver
  deliver-IsNew [] w q h = h
  deliver-IsNew (s ∷ ss) w q h = deliver-IsNew ss (handle s w) q.1 (handle-IsNew s w q.0 h)

  or_else-Holds :
      (early : Option ReviewWorkflowResult) (w : Workflow)
      → Inv r Q w
      → Reviewed r early w
      → Holds r Q
          (Returned r)
          Anything
          (or_else env elapsed_ms early (await_approval env elapsed_ms) w)
  unfolding or_else
  or_else-Holds none w h p = await_approval-Holds w h
  or_else-Holds (some result) w h p = (h, p)

  fail_review-Holds :
      (w : Workflow) → Inv r Q w → Holds r Q (Reviewed r) Anything (fail_review env elapsed_ms w)
  unfolding fail_review
  fail_review-Holds w h =
      after-Holds r Q (Returned r) Anything (Reviewed r) _ _
        (finish-Holds r Q env elapsed_ms sent _ _ w h) (λ result w1 h1 p1. (h1, p1))

  -- The whole run, from any signals that came in before it.
  pub run-Holds :
      (patched : Bool) (w : Workflow)
      → IsNew Q w
      → Holds r Q (Returned r) Anything (run env elapsed_ms patched r w)
  unfolding run
  run-Holds patched w h =
      after-Holds r Q (Reviewed r) Anything (Returned r) _ _
        (caught-Holds r Q (Reviewed r) Anything Anything _ _
          (review-Holds r Q env elapsed_ms sent _ (begin_run-Inv patched w h))
          (λ w1 h1 p1. fail_review-Holds w1 h1))
        or_else-Holds
