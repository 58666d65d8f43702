-- ===== src/Approvals/Decisions.antt =====
-- approvals/inbox.py: what the decisions recorded in the inbox do to the tables.
use pr_reliability_platform.Prelude.{
  ℕ, ◌+◌, true, false, Option, none, some, [], ◌∷◌, ◌++◌, Text, codes, text_eq, not, ◌&&◌, find,
  ◌≡◌, refl, ◌⊎◌, inl, inr, if_lem, not_stale, not_stale_right, not-false, and_left, and_right,
}
use pr_reliability_platform.Approvals.Tables.{
  awaiting_approval, state_eq, Database, is_approval_of, Approval, decision_eq, reason_eq,
}
use pr_reliability_platform.Approvals.Inbox.{
  Principal, DecisionRequest, Receipt, Response, decided, http_exception, integrity_error, Row,
  select_finding, new_approval, new_events, insert_decision, decide_row, record_approval_decision,
  receipt_of, decide_found, is_stale, is_taken, decide_on,
}

module _ (owner_id : Text) (id_factory : ℕ → Text) (now : ℕ) (principal : Principal) where
  -- What a decision that is recorded requires and does.
  abbrev pub Recorded : Row → DecisionRequest → Receipt → Database → Database → Type 0
  Recorded row request receipt d e =
      (text_eq request.head_sha row.run.head_sha ≡ true)
      × (text_eq row.pull_request.head_sha row.run.head_sha ≡ true)
      × (state_eq row.run.state awaiting_approval ≡ true)
      × (find (is_approval_of owner_id row.finding.id) d.approvals ≡ none)
      × (receipt ≡ receipt_of owner_id row request (id_factory d.drawn) now false)
      × (e ≡ record d {
        approvals =
            d.approvals
            ++ new_approval owner_id principal row request (id_factory d.drawn) now ∷ [];
        events = d.events ++ new_events owner_id principal row request (id_factory d.drawn) now;
        drawn = d.drawn + 3;
      })

  -- What a decision that repeats one requires: the receipt is that of the decision on the finding that
  -- is in the tables, by the same reviewer, with the same decision and reason.
  abbrev pub Repeated : Row → DecisionRequest → Receipt → Database → Database → Type 0
  Repeated row request receipt d e =
      (e ≡ d)
      × ((existing : Approval) × (find (is_approval_of owner_id row.finding.id) d.approvals
            ≡ some existing)
          × (text_eq existing.actor_id principal.actor_id ≡ true)
          × (decision_eq existing.decision request.decision ≡ true)
          × (reason_eq existing.reason request.reason ≡ true)
          × (text_eq request.head_sha row.run.head_sha ≡ true)
          × (text_eq row.pull_request.head_sha row.run.head_sha ≡ true)
          × (state_eq row.run.state awaiting_approval ≡ true)
          × (receipt ≡ receipt_of owner_id row request existing.public_id existing.decided_at true))

  abbrev IsRecorded : Row → DecisionRequest → Database → Response → Database → Type 0
  IsRecorded row request d (decided receipt) e =
      Repeated row request receipt d e ⊎ Recorded row request receipt d e
  IsRecorded row request d (http_exception code detail) e = e ≡ d
  IsRecorded row request d integrity_error e = e ≡ d

  module _ (row : Row) (request : DecisionRequest) (d : Database) where
    abbrev Good : Response × Database → Type 0
    Good answer = IsRecorded row request d answer.0 answer.1

    insert-IsRecorded :
        is_stale owner_id request row ≡ false
        → not (state_eq row.run.state awaiting_approval) ≡ false
        → find (is_approval_of owner_id row.finding.id) d.approvals ≡ none
        → Good (insert_decision owner_id id_factory now principal row request d)
    unfolding insert_decision
    insert-IsRecorded h k n =
        if_lem Good (is_taken owner_id (id_factory d.drawn) row d) _ _ (λ e. refl)
          (λ e. inr (
            not_stale (text_eq request.head_sha row.run.head_sha) _ h,
            not_stale_right (text_eq request.head_sha row.run.head_sha) _ h,
            not-false _ k,
            n,
            refl,
            refl,
          ))

    decide_on-IsRecorded :
        is_stale owner_id request row ≡ false
        → not (state_eq row.run.state awaiting_approval) ≡ false
        → (a : Option Approval) → find (is_approval_of owner_id row.finding.id) d.approvals ≡ a
        → Good (decide_on owner_id id_factory now principal row request a d)
    decide_on-IsRecorded h k none n = insert-IsRecorded h k n
    decide_on-IsRecorded h k (some existing) n =
        if_lem (λ r. IsRecorded row request d r d)
          (text_eq existing.actor_id principal.actor_id
            && (decision_eq existing.decision request.decision
                && reason_eq existing.reason request.reason))
          _ _
          (λ e. inl (
            refl,
            (
              existing,
              n,
              and_left _ _ e,
              and_left _ _ (and_right _ _ e),
              and_right _ _ (and_right _ _ e),
              not_stale (text_eq request.head_sha row.run.head_sha) _ h,
              not_stale_right (text_eq request.head_sha row.run.head_sha) _ h,
              not-false _ k,
              refl,
            ),
          ))
          (λ e. refl)

    decide_row-IsRecorded : Good (decide_row owner_id id_factory now principal row request d)
    unfolding decide_row
    decide_row-IsRecorded =
        if_lem Good (is_stale owner_id request row) _ _ (λ e. refl)
          (λ h.
            if_lem Good (not (state_eq row.run.state awaiting_approval)) _ _ (λ e. refl)
              (λ k. decide_on-IsRecorded h k _ refl))

  abbrev pub IsAnswer : Option Row → DecisionRequest → Database → Response × Database → Type 0
  IsAnswer none request d answer =
      (answer.0 ≡ http_exception 404 (codes "finding not found")) × (answer.1 ≡ d)
  IsAnswer (some row) request d answer = IsRecorded row request d answer.0 answer.1

  decide_found-IsAnswer :
      (row : Option Row) (request : DecisionRequest) (d : Database)
      → IsAnswer row request d (decide_found owner_id id_factory now principal row request d)
  decide_found-IsAnswer none request d = (refl, refl)
  decide_found-IsAnswer (some row) request d = decide_row-IsRecorded row request d

-- A decision on a finding that is not in the reviewer's scope is answered with 404 and changes no
-- table. Any other is answered with an error and changes no table; or with a receipt, and then the
-- commit is that of the request, of the run and of the pull request, and the run awaits approval: the
-- receipt is that of the decision on the finding that is there, by the same reviewer and with the same
-- decision and reason, and no table changes; or the finding had no decision, and what is written is one approval
-- with the reviewer's identity and its two events.
pub record_approval_decision_lem :
    (owner_id : Text) (id_factory : ℕ → Text) (now : ℕ) (principal : Principal) (finding_id : Text)
    (request : DecisionRequest) (d : Database)
    → IsAnswer owner_id id_factory now principal
        (select_finding owner_id principal.repository_ids finding_id d)
        request
        d
        (record_approval_decision owner_id id_factory now principal finding_id request d)
unfolding record_approval_decision
record_approval_decision_lem owner_id id_factory now principal finding_id request d =
    decide_found-IsAnswer owner_id id_factory now principal
      (select_finding owner_id principal.repository_ids finding_id d) request d
