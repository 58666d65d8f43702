-- ===== src/Approvals/Sending.antt =====
-- dispatch.py: what the signals that dispatch_next_approval sends say.
use pr_reliability_platform.Prelude.{
  Bool, true, false, Option, none, some, List, [], ◌∷◌, Text, text_eq, any, not, ◌||◌,
  if◌then◌else◌, find, filter, is_some, nonempty, ◌≡◌, refl, inl, inr, arith, All, Any, Any-find,
  if_lem, All-append, All-map, ap, ◌∙◌, not-false, not_stale, not_stale_right,
}
use pr_reliability_platform.Approvals.Tables.{
  awaiting_approval, state_eq, Database, Run, Finding, Approval, decision_eq, approve_finding,
  RunEvent,
}
use pr_reliability_platform.Approvals.Dispatch.{
  Pending, Dispatched, next_pending, decisions_of, approved_pairs, send_signal, dispatch_pending,
  dispatch_next_approval, is_undecided, firsts, seconds, with_approvals, in_run, is_decision_on,
  approved_pair, signal_of, same_identity, dispatch_found, workflow_id,
}
use pr_reliability_platform.Workflow.Types.{ApprovalSignal}

-- A finding of the run and its approval, by their public ids.
abbrev pub IsApprovedPair : Run → List Finding → List Approval → Text × Text → Type 0
IsApprovedPair run findings approvals pair =
    Any
      (λ f.
        (in_run run f ≡ true)
        × (f.public_id ≡ pair.0)
        × Any
            (λ a.
              (is_decision_on run f a ≡ true)
              × (decision_eq a.decision approve_finding ≡ true)
              × (a.public_id ≡ pair.1))
            approvals)
      findings

module _ {A : Type 0} where
  Any-map : (P R : A → Type 0) (xs : List A) → ((x : A) → P x → R x) → Any P xs → Any R xs
  Any-map P R [] f h = absurd h
  Any-map P R (x ∷ xs) f (inl h) = inl (f x h)
  Any-map P R (x ∷ xs) f (inr h) = inr (Any-map P R xs f h)

module _ (run : Run) (approvals : List Approval) where
  approved_pair-IsApprovedPair :
      (f : Finding) (fs : List Finding) (o : Option Approval)
      → in_run run f ≡ true
      → find (is_decision_on run f) approvals ≡ o
      → All (IsApprovedPair run (f ∷ fs) approvals) (approved_pair f o)
  approved_pair-IsApprovedPair f fs none h e = tt
  approved_pair-IsApprovedPair f fs (some a) h e =
      if_lem (All (IsApprovedPair run (f ∷ fs) approvals)) (decision_eq a.decision approve_finding)
        _ _
        (λ k. (
          inl (
            h,
            refl,
            Any-map (λ y. (is_decision_on run f y ≡ true) × (y ≡ a)) _ approvals
                (λ y m. (
                  m.0,
                  ap (λ z. decision_eq z.decision approve_finding) m.1 ∙ k,
                  ap (λ z. z.public_id) m.1,
                ))
                (Any-find (is_decision_on run f) approvals a e),
          ),
          tt,
        ))
        (λ k. tt)

  approved_pairs-IsApprovedPair :
      (fs : List Finding)
      → All
          (IsApprovedPair run fs approvals)
          (approved_pairs (with_approvals run approvals (filter (in_run run) fs)))
  unfolding approved_pairs
  approved_pairs-IsApprovedPair [] = tt
  approved_pairs-IsApprovedPair (f ∷ fs) =
      let later =
        All-map (IsApprovedPair run fs approvals) (IsApprovedPair run (f ∷ fs) approvals) _
          (λ x m. inr m) (approved_pairs-IsApprovedPair fs) in
      if_lem
        (λ gs.
          All (IsApprovedPair run (f ∷ fs) approvals)
            (approved_pairs (with_approvals run approvals gs)))
        (in_run run f) _ _
        (λ h.
          All-append (IsApprovedPair run (f ∷ fs) approvals) _ _
            (approved_pair-IsApprovedPair f fs _ h refl) later)
        (λ h. later)

-- What a signal says of the pending command that it is sent for.
abbrev pub IsTrue : Database → Pending → ApprovalSignal → Type 0
IsTrue d p s =
    (text_eq s.run_id p.run.public_id ≡ true)
    × (text_eq s.head_sha p.run.head_sha ≡ true)
    × (text_eq p.pull_request.head_sha p.run.head_sha ≡ true)
    × (state_eq p.run.state awaiting_approval ≡ true)
    × (nonempty (decisions_of p.run d) ≡ true)
    × (any is_undecided (decisions_of p.run d) ≡ false)
    × ((pairs : List (Text × Text)) × (s.finding_ids ≡ firsts pairs)
        × (s.approval_ids ≡ seconds pairs)
        × (s.approved ≡ nonempty pairs)
        × (is_some s.comment_body_ref ≡ nonempty pairs)
        × All (IsApprovedPair p.run d.findings d.approvals) pairs)

decided_some : (a b : Bool) → not a || b ≡ false → a ≡ true
decided_some a b h = ground arith

decided_all : (a b : Bool) → not a || b ≡ false → b ≡ false
decided_all a b h = ground arith

module _ (dumps : List (Text × Text) → Text) (digest : Text → Text)
    (accepts : Text → ApprovalSignal → Bool) (locked : RunEvent → Bool) (d : Database) where
  abbrev AllTrue : Pending → Dispatched → Type 0
  AllTrue p r = All (λ sent. IsTrue d p sent.1) r.signals

  identity-run_id :
      (p : Pending) → same_identity p ≡ true → text_eq p.command.run_id p.run.public_id ≡ true
  identity-run_id p h = ground arith

  identity-head_sha :
      (p : Pending) → same_identity p ≡ true → text_eq p.command.head_sha p.run.head_sha ≡ true
  identity-head_sha p h = ground arith

  is_some-if : {A : Type 0} (b : Bool) (a : A) → is_some (if b then some a else none) ≡ b
  is_some-if true a = refl
  is_some-if false a = refl

  sent_pairs :
      (p : Pending)
      → All (IsApprovedPair p.run d.findings d.approvals) (approved_pairs (decisions_of p.run d))
  unfolding decisions_of
  sent_pairs p = approved_pairs-IsApprovedPair p.run d.approvals d.findings

  send-AllTrue :
      (p : Pending)
      → same_identity p ≡ true
      → state_eq p.run.state awaiting_approval ≡ true
      → text_eq p.pull_request.head_sha p.run.head_sha ≡ true
      → nonempty (decisions_of p.run d) ≡ true
      → any is_undecided (decisions_of p.run d) ≡ false
      → AllTrue p (send_signal dumps digest accepts locked p (decisions_of p.run d) d)
  unfolding send_signal
  send-AllTrue p i s h n u =
      let pairs = approved_pairs (decisions_of p.run d) in
      let signal = signal_of dumps digest accepts locked p pairs in
      let t : IsTrue d p signal = (
        identity-run_id p i,
        identity-head_sha p i,
        h,
        s,
        n,
        u,
        (pairs, refl, refl, refl, is_some-if (nonempty pairs) _, sent_pairs p),
      ) in
      if_lem (AllTrue p) (accepts (workflow_id p.command.owner_id p.pull_request.public_id) signal)
        _ _ (λ e. (t, tt)) (λ e. (t, tt))

  dispatch_pending-AllTrue :
      (p : Pending) → AllTrue p (dispatch_pending dumps digest accepts locked p d)
  unfolding dispatch_pending
  dispatch_pending-AllTrue p =
      if_lem (AllTrue p) (not (same_identity p)) _ _ (λ e. tt)
        (λ i.
          if_lem (AllTrue p)
            (not (state_eq p.run.state awaiting_approval)
              || not (text_eq p.pull_request.head_sha p.run.head_sha))
            _ _ (λ e. tt)
            (λ s.
              if_lem (AllTrue p)
                (not (nonempty (decisions_of p.run d)) || any is_undecided (decisions_of p.run d)) _
                _ (λ e. tt)
                (λ n.
                  send-AllTrue p (not-false _ i) (not_stale _ _ s)
                    (not_stale_right (state_eq p.run.state awaiting_approval) _ s)
                    (decided_some _ _ n) (decided_all (nonempty (decisions_of p.run d)) _ n))))

  abbrev pub IsSound : Option Pending → ApprovalSignal → Type 0
  IsSound o s = (p : Pending) × (o ≡ some p) × IsTrue d p s

  dispatch_found-IsSound :
      (o : Option Pending)
      → All (λ sent. IsSound o sent.1) (dispatch_found dumps digest accepts locked o d).signals
  dispatch_found-IsSound none = tt
  dispatch_found-IsSound (some p) =
      All-map (λ sent. IsTrue d p sent.1) (λ sent. IsSound (some p) sent.1)
        (dispatch_pending dumps digest accepts locked p d).signals (λ sent t. (p, refl, t))
        (dispatch_pending-AllTrue p)

-- Each signal that the dispatcher sends is for the pending command of a run that awaits approval and
-- whose commit is still that of the pull request. All findings of the run, one at least, have a
-- decision; the findings and approvals that the signal names are findings of the run with an approval
-- of the table that approves them; and it approves, and has a body, just when it names any.
pub dispatch_next_approval-IsSound :
    (dumps : List (Text × Text) → Text) (digest : Text → Text)
    (accepts : Text → ApprovalSignal → Bool) (locked : RunEvent → Bool) (d : Database)
    → All
        (λ sent. (p : Pending) × (next_pending locked d d.events ≡ some p) × IsTrue d p sent.1)
        (dispatch_next_approval dumps digest accepts locked d).signals
unfolding dispatch_next_approval
dispatch_next_approval-IsSound dumps digest accepts locked d =
    dispatch_found-IsSound dumps digest accepts locked d (next_pending locked d d.events)
