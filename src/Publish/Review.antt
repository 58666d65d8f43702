-- ===== src/Publish/Review.antt =====
-- activities/publish.py: the shape of a request, the text of a review and its fingerprint.
use pr_reliability_platform.Prelude.{
  ℕ, Bool, true, Option, none, some, List, [], ◌∷◌, ◌++◌, Text, codes, text_eq, text_lt, contains,
  not, nonempty, length, ◌==◌, ◌&&◌, ◌||◌, any, all, if◌then◌else◌,
}
use pr_reliability_platform.Approvals.Tables.{Approval, approve_finding, decision_eq}
use pr_reliability_platform.Workflow.Types.{PublishRequest}
use pr_reliability_platform.Publish.Tables.{Severity, low, medium, high, critical, Finding}

-- `len(set(ids)) == len(ids)`
unfoldable pub are_unique : List Text → Bool
are_unique [] = true
are_unique (x ∷ xs) = not (contains xs x) && are_unique xs

abbrev pub expected_key : PublishRequest → Text
expected_key request = request.run_id ++ (codes ":" ++ (request.head_sha ++ codes ":publish"))

-- `_validate_request_shape`: the message of the `PublishBlockedError`, if there is one.
unfoldable pub validate_request_shape : PublishRequest → Option Text
validate_request_shape request =
    if not (nonempty request.finding_ids) || not (nonempty request.approval_ids)
    then some (codes "publish requires at least one finding and approval")
    else if not (are_unique request.finding_ids)
    then some (codes "finding IDs must be unique")
    else if not (are_unique request.approval_ids)
    then some (codes "approval IDs must be unique")
    else if not (length request.finding_ids == length request.approval_ids)
    then some (codes "each finding needs one approval")
    else if not (text_eq request.idempotency_key (expected_key request))
    then some (codes "publish idempotency key is invalid")
    else none

-- A row of the query of the findings: a finding with its approval.
abbrev pub Row : Type 0
Row = Finding × Approval

abbrev pub joins : PublishRequest → Finding → Approval → Bool
joins request f a =
    a.finding_id == f.id
    && (a.run_id == f.run_id
        && (text_eq a.owner_id f.owner_id && contains request.approval_ids a.public_id))

abbrev pub approvals_of : PublishRequest → Finding → List Approval → List Row
approvals_of request f [] = []
approvals_of request f (a ∷ approvals) =
    let rest = approvals_of request f approvals in if joins request f a then (f, a) ∷ rest else rest

abbrev pub is_requested : PublishRequest → ℕ → Finding → Bool
is_requested request run_id f =
    text_eq f.owner_id request.owner_id
    && (f.run_id == run_id && contains request.finding_ids f.public_id)

unfoldable pub select_findings : PublishRequest → ℕ → List Approval → List Finding → List Row
select_findings request run_id approvals [] = []
select_findings request run_id approvals (f ∷ findings) =
    let rest = select_findings request run_id approvals findings in
    if is_requested request run_id f then approvals_of request f approvals ++ rest else rest

abbrev pub is_rejected : Row → Bool
is_rejected (f, a) = not (decision_eq a.decision approve_finding)

abbrev pub is_for_other_commit : PublishRequest → Row → Bool
is_for_other_commit request (f, a) = not (text_eq a.head_sha request.head_sha)

abbrev pub approval_ids_of : List Row → List Text
approval_ids_of [] = []
approval_ids_of ((f, a) ∷ rows) = a.public_id ∷ approval_ids_of rows

-- `set(xs) == set(ys)`
abbrev pub same_set : List Text → List Text → Bool
same_set xs ys = all (contains ys) xs && all (contains xs) ys

-- The tests of the rows in `_prepare`: the message of the first that fails.
unfoldable pub rows_error : PublishRequest → List Row → Option Text
rows_error request rows =
    if not (length rows == length request.finding_ids)
    then some (codes "every finding needs its matching approval")
    else if any is_rejected rows
    then some (codes "rejected findings cannot publish")
    else if any (is_for_other_commit request) rows
    then some (codes "approval targets another commit")
    else if not (same_set (approval_ids_of rows) request.approval_ids)
    then some (codes "approval set does not match finding set")
    else none

-- `severity.title()`
abbrev pub title : Severity → Text
title low = codes "Low"
title medium = codes "Medium"
title high = codes "High"
title critical = codes "Critical"

abbrev pub section : Row → Text
section (f, a) = codes "### " ++ (title f.severity ++ (codes " finding\n\n" ++ f.claim))

-- `"\n\n".join(sections)`, where the last section is the marker.
unfoldable pub join_sections : List Row → Text → Text
join_sections [] marker = marker
join_sections (row ∷ rows) marker = section row ++ (codes "\n\n" ++ join_sections rows marker)

-- `_render_review_body`, before the test of its length.
unfoldable pub render_review_body : List Row → Text → Text
render_review_body rows marker =
    codes "## PR Reliability review" ++ (codes "\n\n" ++ join_sections rows marker)

abbrev pub max_review_body_characters : ℕ
max_review_body_characters = 60_000

-- `sorted` of pairs of texts.
abbrev pub pair_lt : Text × Text → Text × Text → Bool
pair_lt (a, b) (c, d) = text_lt a c || text_eq a c && text_lt b d

unfoldable pub insert_pair : Text × Text → List (Text × Text) → List (Text × Text)
insert_pair p [] = p ∷ []
insert_pair p (q ∷ qs) =
    let rest = insert_pair p qs in if pair_lt q p then q ∷ rest else p ∷ (q ∷ qs)

unfoldable pub approval_pairs : List Row → List (Text × Text)
approval_pairs [] = []
approval_pairs ((f, a) ∷ rows) = insert_pair (f.public_id, a.public_id) (approval_pairs rows)

-- `digest` is the hexadecimal SHA-256 of the UTF-8 text, and `dumps` is `json.dumps` of the object of
-- `_payload_fingerprint` with the given pairs, reference and body.
module _ (digest : Text → Text) (dumps : List (Text × Text) → Text → Text → Text) where
  abbrev pub review_marker : Text → Text
  review_marker idempotency_key =
      codes "<!-- pr-reliability:" ++ (digest idempotency_key ++ codes " -->")

  abbrev pub payload_fingerprint : PublishRequest → List Row → Text → Text
  payload_fingerprint request rows body =
      digest (dumps (approval_pairs rows) request.comment_body_ref body)
