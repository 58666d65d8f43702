-- ===== src/Publish/Operation.antt =====
-- activities/publish.py, `GitHubReviewPublishOperation`. The advisory lock on the key makes the calls
-- for one key run one after the other. The client of GitHub is the environment: it gives the answer of
-- each call, and the calls are kept.
use pr_reliability_platform.Prelude.{
  ℕ, Bool, true, false, Option, none, some, List, [], ◌∷◌, ◌++◌, Text, codes, text_eq, not, take,
  ◌==◌, ◌&&◌, any, find, update_where, if◌then◌else◌, ◌>>=◌,
}
use pr_reliability_platform.Workflow.Types.{PublishRequest}
use pr_reliability_platform.Publish.Tables.{
  Run, published, failed, Action, EventData, review_published, publish_blocked, publish_failed,
  RunEvent, Database, is_named_run, insert_event,
}
use pr_reliability_platform.Publish.Review.{validate_request_shape}
use pr_reliability_platform.Publish.Prepare.{
  Prepared, Result, ok, blocked, integrity_error, prepare,
}

-- The client constructs it. The form that `__post_init__` asks for is left out: a review has any id and
-- any commit here.
pub record GitHubReview : Type 0 where
  pub remote_id : Text
  pub commit_sha : Text

-- The exceptions inside the `try`: `GitHubReviewPayloadMismatch`, `GitHubReviewStaleHead`, an
-- `ApplicationError` with its message, and every other.
pub data Exception : Type 0 where
  payload_mismatch : Exception
  stale_head : Exception
  application_error : Text → Exception
  other_error : Exception

pub data Answer (A : Type 0) : Type 0 where
  returned : A → Answer A
  raised : Exception → Answer A

-- The calls of the client with their arguments.
pub data Call : Type 0 where
  find_review :
      (repository : Text) (pull_request_number : ℕ) (expected_head_sha marker expected_body : Text)
      → Call
  current_head_sha : (repository : Text) (pull_request_number : ℕ) → Call
  create_review :
      (repository : Text) (pull_request_number : ℕ) (expected_head_sha body : Text) → Call

-- The answers, and the times before and after the creation.
pub record Github : Type 0 where
  pub on_find : Answer (Option GitHubReview)
  pub on_head : Answer Text
  pub on_create : Answer GitHubReview
  pub started_at : ℕ
  pub finished_at : ℕ

pub record World : Type 0 where
  pub database : Database
  pub calls : List Call

-- How the activity ends.
pub data Outcome : Type 0 where
  completed : Outcome
  non_retryable : Text → Outcome
  runtime_error : Text → Outcome
  database_error : Outcome

-- `_BLOCK_REASON_CODES`
abbrev pub block_reason_codes : List (Text × Text)
block_reason_codes =
    (codes "publish requires at least one finding and approval", codes "empty_approval_set")
    ∷ (codes "finding IDs must be unique", codes "duplicate_finding_id")
    ∷ (codes "approval IDs must be unique", codes "duplicate_approval_id")
    ∷ (codes "each finding needs one approval", codes "approval_count_mismatch")
    ∷ (codes "publish idempotency key is invalid", codes "idempotency_key_invalid")
    ∷ (codes "publish target does not match the run", codes "target_mismatch")
    ∷ (codes "idempotency key targets another commit", codes "idempotency_commit_mismatch")
    ∷ (codes "idempotency key targets another action", codes "idempotency_action_mismatch")
    ∷ (codes "run is not awaiting approval", codes "run_not_awaiting_approval")
    ∷ (codes "pull request head is stale", codes "stale_head")
    ∷ (codes "every finding needs its matching approval", codes "approval_missing")
    ∷ (codes "rejected findings cannot publish", codes "approval_rejected")
    ∷ (codes "approval targets another commit", codes "approval_commit_mismatch")
    ∷ (codes "approval set does not match finding set", codes "approval_set_mismatch")
    ∷ (codes "idempotency key targets another publish payload", codes "payload_mismatch")
    ∷ (codes "published action has no remote identity", codes "missing_remote_identity")
    ∷ (codes "approved review exceeds the publish limit", codes "body_limit")
    ∷ []

unfoldable pub get_code : List (Text × Text) → Text → Text
get_code [] message = codes "invalid_request"
get_code ((key, code) ∷ rest) message =
    let later = get_code rest message in if text_eq key message then code else later

-- `PublishBlockedError.reason_code`
abbrev pub reason_code : Text → Text
reason_code message = get_code block_reason_codes message

-- The rows of an `UPDATE external_actions … FROM runs`.
abbrev pub is_run_of : PublishRequest → Action → Run → Bool
is_run_of request a r =
    r.id == a.run_id && (text_eq r.owner_id a.owner_id && text_eq r.public_id request.run_id)

abbrev pub is_action_of : PublishRequest → Database → Text → Action → Bool
is_action_of request d action_id a =
    text_eq a.owner_id request.owner_id
    && (text_eq a.public_id action_id && any (is_run_of request a) d.runs)

abbrev pub is_payload_of : PublishRequest → Database → Prepared → Action → Bool
is_payload_of request d prepared a =
    is_action_of request d prepared.action_id a
    && (text_eq a.target_sha request.head_sha
        && text_eq a.payload_fingerprint prepared.payload_fingerprint)

abbrev pub published_row : GitHubReview → Action → Action
published_row review a = record a { status = published; remote_id = some review.remote_id }

abbrev pub failed_row : Action → Action
failed_row a = record a { status = failed }

-- The update, with the id of the run that it returns; `none` is the `RuntimeError` of no row.
abbrev pub updated_run : (Action → Bool) → (Action → Action) → Database → Option (ℕ × Database)
updated_run test f d = do
  a ← find test d.actions
  some (a.run_id, record d { actions = update_where test f d.actions })

module _ (digest : Text → Text) (dumps : List (Text × Text) → Text → Text → Text)
    (id_factory : ℕ → Text) (request : PublishRequest) (github : Github) where
  abbrev pub event_of : ℕ → Text → EventData → RunEvent
  event_of run_id event_key event_data = record {
    owner_id = request.owner_id;
    run_id = run_id;
    event_key = event_key;
    event_data = event_data;
  }

  -- `_record_request_blocked`
  abbrev pub blocked_run : Option Run → Text → Database → Database
  blocked_run none code d = d
  blocked_run (some run) code d =
      insert_event
        (event_of run.id
          (codes "publish:blocked:"
            ++ take 16 (digest (request.idempotency_key ++ (codes ":" ++ code))))
          (publish_blocked code))
        d

  unfoldable pub record_request_blocked : Text → Database → Database
  record_request_blocked code d =
      blocked_run (find (is_named_run request.owner_id request.run_id) d.runs) code d

  abbrev pub when : Bool → ℕ → Option ℕ
  when true t = some t
  when false t = none

  -- `_record_success`, where `created` says whether the review was created by this call.
  unfoldable pub record_success : Prepared → GitHubReview → Bool → Database → Option Database
  record_success prepared review created d = do
    (run_id, d1) ← updated_run (is_payload_of request d prepared) (published_row review) d
    some (
        insert_event
          (event_of run_id (codes "publish:" ++ (prepared.action_id ++ codes ":published")) (
            review_published prepared.action_id review.remote_id request.head_sha
              request.finding_ids request.approval_ids prepared.payload_fingerprint
              (when created github.started_at) (when created github.finished_at)))
          d1)

  -- `_record_action_blocked`
  unfoldable pub record_action_blocked : Text → Text → Database → Option Database
  record_action_blocked action_id code d = do
    (run_id, d1) ← updated_run (is_action_of request d action_id) failed_row d
    some (
        insert_event
          (event_of run_id (codes "publish:" ++ (action_id ++ (codes ":blocked:" ++ code)))
            (publish_blocked code))
          d1)

  -- `_record_failure`
  unfoldable pub record_failure : Text → Text → Database → Option Database
  record_failure action_id code d = do
    (run_id, d1) ← updated_run (is_action_of request d action_id) failed_row d
    some (
        insert_event
          (event_of run_id (codes "publish:" ++ (action_id ++ (codes ":failed:" ++ code)))
            (publish_failed action_id request.head_sha code))
          d1)

  -- A step inside the `try`: its exception, if it raises one, and the world.
  abbrev pub Step : Type 0
  Step = Answer (Unit {0}) × World

  abbrev pub call : Call → World → World
  call c w = record w { calls = w.calls ++ c ∷ [] }

  -- A transaction that raises `RuntimeError`, and what follows one that commits.
  abbrev pub committed : Answer (Unit {0}) → Option Database → World → Step
  committed answer none w = (raised other_error, w)
  committed answer (some d) w = (answer, record w { database = d })

  unfoldable pub block_creation : Prepared → Text → Text → World → Step
  block_creation prepared code message w =
      committed (raised (application_error message))
        (record_action_blocked prepared.action_id code w.database) w

  -- From the test of the review's commit to the end of the `try`.
  unfoldable pub accept_review : Prepared → GitHubReview → Bool → World → Step
  accept_review prepared review created w =
      if not (text_eq review.commit_sha prepared.head_sha)
      then (raised payload_mismatch, w)
      else committed (returned tt) (record_success prepared review created w.database) w

  abbrev pub after_create : Prepared → Answer GitHubReview → World → Step
  after_create prepared (raised e) w = (raised e, w)
  after_create prepared (returned review) w = accept_review prepared review true w

  abbrev pub create : Prepared → World → Step
  create prepared w = after_create prepared github.on_create (
      call
        (create_review prepared.repository prepared.pull_request_number prepared.head_sha
          prepared.body)
        w)

  abbrev pub after_head : Prepared → Answer Text → World → Step
  after_head prepared (raised e) w = (raised e, w)
  after_head prepared (returned head) w =
      if not (text_eq head prepared.head_sha)
      then block_creation prepared (codes "stale_head") (codes "pull request head is stale") w
      else create prepared w

  abbrev pub create_unless : Prepared → Option Text → World → Step
  create_unless prepared (some code) w =
      block_creation prepared code (codes "publish authorization is no longer current") w
  create_unless prepared none w =
      after_head prepared github.on_head
        (call (current_head_sha prepared.repository prepared.pull_request_number) w)

  abbrev pub after_find : Prepared → Answer (Option GitHubReview) → World → Step
  after_find prepared (raised e) w = (raised e, w)
  after_find prepared (returned (some review)) w = accept_review prepared review false w
  after_find prepared (returned none) w = create_unless prepared prepared.create_block_code w

  -- The body of the `try`.
  unfoldable pub publish : Prepared → World → Step
  publish prepared w = after_find prepared github.on_find (
      call
        (find_review prepared.repository prepared.pull_request_number prepared.head_sha
          prepared.marker prepared.body)
        w)

  abbrev pub ended : Outcome → Outcome → Option Database → World → Outcome × World
  ended committed_outcome failed_outcome none w = (failed_outcome, w)
  ended committed_outcome failed_outcome (some d) w = (committed_outcome, record w { database = d })

  -- The `except` clauses.
  unfoldable pub handle : Prepared → Step → Outcome × World
  handle prepared (returned u, w) = (completed, w)
  handle prepared (raised payload_mismatch, w) =
      ended
        (non_retryable
          (codes "GitHub recovery review does not match the approved commit and payload"))
        (runtime_error (codes "publish action disappeared before blocked audit"))
        (record_action_blocked prepared.action_id (codes "review_payload_mismatch") w.database) w
  handle prepared (raised stale_head, w) =
      ended (non_retryable (codes "pull request head changed before review submission"))
        (runtime_error (codes "publish action disappeared before blocked audit"))
        (record_action_blocked prepared.action_id (codes "stale_head") w.database) w
  handle prepared (raised (application_error message), w) = (non_retryable message, w)
  handle prepared (raised other_error, w) =
      ended (runtime_error (codes "GitHub review publish failed"))
        (runtime_error (codes "GitHub publish failure audit failed"))
        (record_failure prepared.action_id (codes "github_error") w.database) w

  abbrev pub publish_unless : Prepared → Option Text → Database → Outcome × World
  publish_unless prepared (some remote) d = (completed, record { database = d; calls = [] })
  publish_unless prepared none d =
      handle prepared (publish prepared (record { database = d; calls = [] }))

  abbrev pub request_blocked : Text → Database → Outcome × World
  request_blocked message d = (
    non_retryable message,
    record { database = record_request_blocked (reason_code message) d; calls = [] },
  )

  abbrev pub after_prepare : Result Prepared → Database → Outcome × World
  after_prepare (ok prepared) d = publish_unless prepared prepared.remote_id d
  after_prepare (blocked message) d = request_blocked message d
  after_prepare integrity_error d = (database_error, record { database = d; calls = [] })

  abbrev pub operate_shaped : Option Text → Database → Outcome × World
  operate_shaped (some message) d = request_blocked message d
  operate_shaped none d =
      let (result, d') = prepare digest dumps id_factory request d in after_prepare result d'

  -- `__call__`
  unfoldable pub operate : Database → Outcome × World
  operate d = operate_shaped (validate_request_shape request) d
