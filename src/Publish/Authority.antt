-- ===== src/Publish/Authority.antt =====
-- activities/publish.py: what a review that the activity creates is based on.
use pr_reliability_platform.Prelude.{
  ℕ, true, false, List, [], ◌∷◌, text_eq, contains, any, ◌≡◌, arith, All, All-append, if_lem,
  not-false, first_false, later_false,
}
use pr_reliability_platform.Approvals.Tables.{Approval, decision_eq, approve_finding}
use pr_reliability_platform.Workflow.Types.{PublishRequest}
use pr_reliability_platform.Publish.Tables.{Finding}
use pr_reliability_platform.Publish.Review.{
  Row, select_findings, is_requested, joins, approvals_of, is_rejected, is_for_other_commit,
}

-- A finding of the run that the request names, with an approval that the request names, which
-- approves it for the commit.
abbrev pub IsApprovedRow : PublishRequest → ℕ → Row → Type 0
IsApprovedRow request run_id (f, a) =
    (f.run_id ≡ run_id)
    × (contains request.finding_ids f.public_id ≡ true)
    × (a.finding_id ≡ f.id)
    × (a.run_id ≡ run_id)
    × (contains request.approval_ids a.public_id ≡ true)
    × (decision_eq a.decision approve_finding ≡ true)
    × (text_eq a.head_sha request.head_sha ≡ true)

abbrev pub IsJoinedRow : PublishRequest → ℕ → Row → Type 0
IsJoinedRow request run_id (f, a) =
    (f.run_id ≡ run_id)
    × (contains request.finding_ids f.public_id ≡ true)
    × (a.finding_id ≡ f.id)
    × (a.run_id ≡ run_id)
    × (contains request.approval_ids a.public_id ≡ true)

module _ (request : PublishRequest) (run_id : ℕ) where
  joined-IsJoinedRow :
      (f : Finding) (a : Approval)
      → is_requested request run_id f ≡ true
      → joins request f a ≡ true
      → IsJoinedRow request run_id (f, a)
  joined-IsJoinedRow f a h k = ground arith

  approvals_of-IsJoinedRow :
      (f : Finding) (approvals : List Approval)
      → is_requested request run_id f ≡ true
      → All (IsJoinedRow request run_id) (approvals_of request f approvals)
  approvals_of-IsJoinedRow f [] h = tt
  approvals_of-IsJoinedRow f (a ∷ approvals) h =
      if_lem (All (IsJoinedRow request run_id)) (joins request f a) _ _
        (λ k. (joined-IsJoinedRow f a h k, approvals_of-IsJoinedRow f approvals h))
        (λ k. approvals_of-IsJoinedRow f approvals h)

  pub select_findings-IsJoinedRow :
      (approvals : List Approval) (findings : List Finding)
      → All (IsJoinedRow request run_id) (select_findings request run_id approvals findings)
  unfolding select_findings
  select_findings-IsJoinedRow approvals [] = tt
  select_findings-IsJoinedRow approvals (f ∷ findings) =
      let later = select_findings-IsJoinedRow approvals findings in
      if_lem (All (IsJoinedRow request run_id)) (is_requested request run_id f) _ _
        (λ h.
          All-append (IsJoinedRow request run_id) (approvals_of request f approvals) _
            (approvals_of-IsJoinedRow f approvals h) later)
        (λ h. later)

  approve_row :
      (row : Row)
      → IsJoinedRow request run_id row
      → is_rejected row ≡ false
      → is_for_other_commit request row ≡ false
      → IsApprovedRow request run_id row
  approve_row (f, a) h k c = (h.0, h.1, h.2, h.3, h.4, not-false _ k, not-false _ c)

  pub rows-IsApprovedRow :
      (rows : List Row)
      → All (IsJoinedRow request run_id) rows
      → any is_rejected rows ≡ false
      → any (is_for_other_commit request) rows ≡ false
      → All (IsApprovedRow request run_id) rows
  rows-IsApprovedRow [] h k c = tt
  rows-IsApprovedRow (row ∷ rows) h k c = (
    approve_row row h.0 (first_false _ _ k) (first_false _ _ c),
    rows-IsApprovedRow rows h.1 (later_false (is_rejected row) _ k)
        (later_false (is_for_other_commit request row) _ c),
  )
