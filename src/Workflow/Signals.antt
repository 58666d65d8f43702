-- ===== src/Workflow/Signals.antt =====
-- The signal handlers and the keys of workflows/pull_request_review.py.
use pr_reliability_platform.Prelude.{
  ℕ, ◌≡◌, ◌≢◌, refl, max, ltb, List, [], ◌∷◌, ◌++◌, Text, codes, OnSome, arith, if◌then◌else◌,
  length, strip, ◌≤◌, text_eq,
}
use pr_reliability_platform.Workflow.Types.{ReviewWorkflowInput}
use pr_reliability_platform.Workflow.Machine.{
  Workflow, Signal, approve, cancel, supersede, on_approve, on_cancel, on_supersede, handle,
  deliver, input_generation, pending_generation, or_cancelled,
}
use pr_reliability_platform.Workflow.Activities.{key, activity_options}

-- The greatest generation among the `supersede` signals.
abbrev pub top_generation : List Signal → ℕ
top_generation [] = 0
top_generation (approve a ∷ ss) = top_generation ss
top_generation (cancel reason ∷ ss) = top_generation ss
top_generation (supersede s ∷ ss) = max s.next_run.generation (top_generation ss)

handle-input : (s : Signal) (w : Workflow) → (handle s w).input ≡ w.input
unfolding handle on_approve on_cancel on_supersede
handle-input (approve a) w = ground arith
handle-input (cancel reason) w = ground arith
handle-input (supersede s) w = ground arith

abbrev pub newest : ℕ → ℕ → ℕ → ℕ
newest current pending top = if ltb (max current pending) top then top else pending

handle_pending :
    (s : Signal) (ss : List Signal) (w : Workflow)
    → newest
        (input_generation w.input)
        (pending_generation (handle s w).supersession)
        (top_generation ss)
      ≡ newest
          (input_generation w.input)
          (pending_generation w.supersession)
          (top_generation (s ∷ ss))
unfolding handle on_approve on_cancel on_supersede
handle_pending (approve a) ss w = ground arith
handle_pending (cancel reason) ss w = ground arith
handle_pending (supersede s) ss w = ground arith

-- However the signals are ordered, the pending generation is the greatest that was signalled, if
-- that is greater than the current and the pending one, and is unchanged otherwise.
pub deliver_keeps_newest :
    (ss : List Signal) (w : Workflow)
    → pending_generation (deliver ss w).supersession
      ≡ newest (input_generation w.input) (pending_generation w.supersession) (top_generation ss)
unfolding deliver
deliver_keeps_newest [] w = ground arith
deliver_keeps_newest (s ∷ ss) w =
    ground (arith, deliver_keeps_newest ss (handle s w), handle_pending s ss w, handle-input s w)

or_cancelled-ne-nil : (t : Text) → or_cancelled t ≢ []
or_cancelled-ne-nil [] e = cc
or_cancelled-ne-nil (c ∷ t) e = cc

handle_cancel_reason :
    (s : Signal) (w : Workflow)
    → OnSome (λ t. t ≢ []) w.cancel_reason
    → OnSome (λ t. t ≢ []) (handle s w).cancel_reason
unfolding handle on_approve on_cancel on_supersede
handle_cancel_reason (approve a) w h = ground arith
handle_cancel_reason (cancel reason) w h = or_cancelled-ne-nil (strip reason)
handle_cancel_reason (supersede s) w h = ground arith

-- A stored cancellation reason is never empty, so its truth is that of "is not None".
pub deliver_cancel_reason :
    (ss : List Signal) (w : Workflow)
    → OnSome (λ t. t ≢ []) w.cancel_reason
    → OnSome (λ t. t ≢ []) (deliver ss w).cancel_reason
unfolding deliver
deliver_cancel_reason [] w h = h
deliver_cancel_reason (s ∷ ss) w h =
    deliver_cancel_reason ss (handle s w) (handle_cancel_reason s w h)

append_injective :
    (s s' t t' : Text) → length s ≡ length s' → s ++ t ≡ s' ++ t' → (s ≡ s') × (t ≡ t')
append_injective [] [] t t' l e = (refl, e)
append_injective [] (c ∷ s') t t' l e = absurd (omega arith)
append_injective (c ∷ s) [] t t' l e = absurd (omega arith)
append_injective (c ∷ s) (c' ∷ s') t t' l e =
    let h : (s ≡ s') × (t ≡ t') = append_injective s s' t t' (omega arith) (cc) in
    (ground arith, h.1)

-- Idempotency keys: for run identifiers of one length and commits of one length, as ULIDs and SHAs
-- have, equal keys are for the same run, the same commit and the same step.
pub key-injective :
    (r r' : ReviewWorkflowInput) (step step' : Text)
    → length r.run_id ≡ length r'.run_id
    → length r.head_sha ≡ length r'.head_sha
    → key r step ≡ key r' step'
    → (r.run_id ≡ r'.run_id) × (r.head_sha ≡ r'.head_sha) × (step ≡ step')
unfolding key
key-injective r r' step step' l m e =
    let a : (r.run_id ≡ r'.run_id)
        × (codes ":" ++ (r.head_sha ++ (codes ":" ++ step))
            ≡ codes ":" ++ (r'.head_sha ++ (codes ":" ++ step'))) =
      append_injective r.run_id r'.run_id _ _ l e in
    let b : (r.head_sha ≡ r'.head_sha) × (codes ":" ++ step ≡ codes ":" ++ step') =
      append_injective r.head_sha r'.head_sha _ _ m
        (append_injective (codes ":") (codes ":") _ _ refl a.1).1 in
    (a.0, b.0, (append_injective (codes ":") (codes ":") _ _ refl b.1).1)

-- The time given to the verification covers its own limits of two hours, and the activity is named
-- after the run, the commit and the step.
pub verify_timeout :
    (r : ReviewWorkflowInput) (name : Text)
    → ((activity_options r name).activity_id ≡ key r name)
      × (r.activity_timeout_seconds ≤ (activity_options r name).start_to_close_timeout)
      × (7200 ≤ (activity_options r (codes "verify")).start_to_close_timeout)
unfolding activity_options text_eq
verify_timeout r name = (refl, ground arith, ground arith)
