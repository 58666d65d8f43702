-- ===== src/Approvals/Once.antt =====
-- approvals/inbox.py: a finding is decided once.
use pr_reliability_platform.Prelude.{
  ℕ, true, false, Option, none, some, List, Text, text_eq, any, ◌==◌, ◌||◌, filter, length, ◌≤◌,
  ◌≡◌, refl, text_eq_refl,
}
use pr_reliability_platform.Approvals.Tables.{
  approve_finding, reject_finding, Database, Approval, Decision, reason_eq, decision_eq, has_key,
}
use pr_reliability_platform.Approvals.Inbox.{
  Principal, DecisionRequest, Response, integrity_error, signal_key, decision_key,
}

decision_eq_refl : (a : Decision) → decision_eq a a ≡ true
decision_eq_refl approve_finding = refl
decision_eq_refl reject_finding = refl

reason_eq_refl : (a : Option Text) → reason_eq a a ≡ true
reason_eq_refl none = refl
reason_eq_refl (some s) = text_eq_refl s

-- The approvals of a finding.
abbrev pub decisions_on : ℕ → List Approval → ℕ
decisions_on finding_id approvals = length (filter (λ a. a.finding_id == finding_id) approvals)

abbrev pub IsOnce : Database → Type 0
IsOnce d = (n : ℕ) → decisions_on n d.approvals ≤ 1

module _ (owner_id : Text) (id_factory : ℕ → Text) (now : ℕ) (principal : Principal)
    (request : DecisionRequest) (d : Database) (h : IsOnce d) where
  abbrev Once : Response × Database → Type 0
  Once answer = IsOnce answer.1

-- The id that the next approval gets is in no table.
abbrev pub IsFreshId : Text → Text → Database → Type 0
IsFreshId owner_id id d =
    (any (λ a. text_eq a.public_id id) d.approvals ≡ false)
    × ((run_id : ℕ)
        → any (has_key run_id (signal_key owner_id id)) d.events
            || any (has_key run_id (decision_key owner_id id)) d.events
          ≡ false)

-- The decision was not refused by a unique key of the tables.
abbrev IsHandled : Response × Database → Type 0
IsHandled (integrity_error, e) = ⊥
IsHandled (r, e) = Unit
