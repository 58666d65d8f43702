-- ===== src/Approvals/Repeat.antt =====
-- approvals/inbox.py: a decision that is sent again.
use pr_reliability_platform.Prelude.{
  ℕ, true, false, Option, none, some, List, [], ◌∷◌, ◌++◌, Text, text_eq, find, ◌≡◌, refl, ap, sym,
  ◌∙◌, arith, find-append, text_eq_refl, ==_refl, inl, false-true, inr,
}
use mathlib.Core.Path.{subst}
use pr_reliability_platform.Approvals.Tables.{
  Database, Approval, Decision, approve_finding, reject_finding, decision_eq, reason_eq,
  is_approval_of, state_eq, awaiting_approval,
}
use pr_reliability_platform.Approvals.Inbox.{
  Principal, DecisionRequest, decided, Receipt, Row, select_finding, decide_row,
  record_approval_decision, new_approval, receipt_of, decide_found,
}
use pr_reliability_platform.Approvals.Decisions.{
  record_approval_decision_lem, IsAnswer, Recorded, Repeated,
}

decision_eq_refl : (a : Decision) → decision_eq a a ≡ true
decision_eq_refl approve_finding = refl
decision_eq_refl reject_finding = refl

reason_eq_refl : (a : Option Text) → reason_eq a a ≡ true
reason_eq_refl none = refl
reason_eq_refl (some s) = text_eq_refl s

module _ (owner_id : Text) (id_factory : ℕ → Text) (now : ℕ) (principal : Principal) (row : Row)
    (request : DecisionRequest) where
  find-new_approval :
      (xs : List Approval) (id : Text)
      → find (is_approval_of owner_id row.finding.id) xs ≡ none
      → find
          (is_approval_of owner_id row.finding.id)
          (xs ++ new_approval owner_id principal row request id now ∷ [])
        ≡ some (new_approval owner_id principal row request id now)
  find-new_approval xs id h =
      find-append (is_approval_of owner_id row.finding.id) xs _ h
        (simp (text_eq_refl owner_id, ==_refl row.finding.id))

  -- The same decision on a row whose finding has it.
  decide_row-repeated :
      (factory : ℕ → Text) (later : ℕ) (d : Database) (id : Text)
      → text_eq request.head_sha row.run.head_sha ≡ true
      → text_eq row.pull_request.head_sha row.run.head_sha ≡ true
      → state_eq row.run.state awaiting_approval ≡ true
      → find (is_approval_of owner_id row.finding.id) d.approvals
        ≡ some (new_approval owner_id principal row request id now)
      → decide_row owner_id factory later principal row request d
        ≡ (decided (receipt_of owner_id row request id now true), d)
  unfolding decide_row
  decide_row-repeated factory later d id h k s e = simp (
    h,
    k,
    s,
    e,
    text_eq_refl principal.actor_id,
    decision_eq_refl request.decision,
    reason_eq_refl request.reason,
  )

  Recorded-repeated :
      (factory : ℕ → Text) (later : ℕ) (r : Receipt) (d e : Database)
      → Recorded owner_id id_factory now principal row request r d e
      → decide_row owner_id factory later principal row request e
        ≡ (decided (record r { already_recorded = true }), e)
  Recorded-repeated factory later r d e (h, k, s, n, q, u) =
      decide_row-repeated factory later e (id_factory d.drawn) h k s (
        ap (λ x. find (is_approval_of owner_id row.finding.id) x.approvals) u
        ∙ find-new_approval d.approvals (id_factory d.drawn) n)
      ∙ ap (λ x. (decided (record x { already_recorded = true }), e)) (sym q)

marked_recorded :
    (owner_id : Text) (id_factory : ℕ → Text) (now : ℕ) (principal : Principal) (row : Row)
    (request : DecisionRequest) (r : Receipt) (d e : Database)
    → Repeated owner_id id_factory now principal row request r d e
    → r.already_recorded ≡ true
marked_recorded owner_id id_factory now principal row request r d e
      (same, (existing, found, a, b, c, f, g, s, q)) =
    ap (λ (x : Receipt). x.already_recorded) q

select-Recorded :
    (owner_id : Text) (scope : Option (List ℕ)) (finding_id : Text) (id_factory : ℕ → Text)
    (now : ℕ) (principal : Principal) (row : Row) (request : DecisionRequest) (r : Receipt)
    (d e : Database)
    → Recorded owner_id id_factory now principal row request r d e
    → select_finding owner_id scope finding_id e ≡ select_finding owner_id scope finding_id d
unfolding select_finding
select-Recorded owner_id scope finding_id id_factory now principal row request r d e
      (_, _, _, _, _, u) =
    rw u

module _ (owner_id : Text) (id_factory factory : ℕ → Text) (now later : ℕ) (principal : Principal)
    (request : DecisionRequest) (r : Receipt) (fresh : r.already_recorded ≡ false)
    (d e : Database) where
  repeated-answer :
      (o o' : Option Row)
      → o' ≡ o
      → IsAnswer owner_id id_factory now principal o request d (decided r, e)
      → decide_found owner_id factory later principal o' request e
        ≡ (decided (record r { already_recorded = true }), e)
  repeated-answer none o' q h = ground arith
  repeated-answer (some row) o' q (inl h) =
      absurd
        (false-true fresh (marked_recorded owner_id id_factory now principal row request r d e h))
  repeated-answer (some row) o' q (inr h) =
      ap (λ x. decide_found owner_id factory later principal x request e) q
      ∙ Recorded-repeated owner_id id_factory now principal row request factory later r d e h

  same_row :
      (scope : Option (List ℕ)) (finding_id : Text) (o : Option Row)
      → IsAnswer owner_id id_factory now principal o request d (decided r, e)
      → select_finding owner_id scope finding_id e ≡ select_finding owner_id scope finding_id d
  same_row scope finding_id none h = ground arith
  same_row scope finding_id (some row) (inl h) =
      absurd
        (false-true fresh (marked_recorded owner_id id_factory now principal row request r d e h))
  same_row scope finding_id (some row) (inr h) =
      select-Recorded owner_id scope finding_id id_factory now principal row request r d e h

-- When a decision was recorded, the same reviewer's same decision, sent again, is answered with the
-- receipt of the first, marked as recorded before, and changes no table.
pub record_approval_decision_again :
    (owner_id : Text) (id_factory factory : ℕ → Text) (now later : ℕ) (principal : Principal)
    (finding_id : Text) (request : DecisionRequest) (r : Receipt) (d : Database)
    → let answer =
        record_approval_decision owner_id id_factory now principal finding_id request d in
      answer.0 ≡ decided r
      → r.already_recorded ≡ false
      → record_approval_decision owner_id factory later principal finding_id request answer.1
        ≡ (decided (record r { already_recorded = true }), answer.1)
unfolding record_approval_decision
record_approval_decision_again owner_id id_factory factory now later principal finding_id request r
      d h fresh =
    let answer = record_approval_decision owner_id id_factory now principal finding_id request d in
    let o = select_finding owner_id principal.repository_ids finding_id d in
    let k : IsAnswer owner_id id_factory now principal o request d (decided r, answer.1) =
      subst (λ x. IsAnswer owner_id id_factory now principal o request d (x, answer.1)) h
        (record_approval_decision_lem owner_id id_factory now principal finding_id request d) in
    repeated-answer owner_id id_factory factory now later principal request r fresh d answer.1 o _
      (same_row owner_id id_factory factory now later principal request r fresh d answer.1
        principal.repository_ids finding_id o k)
      k
