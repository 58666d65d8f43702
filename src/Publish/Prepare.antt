-- ===== src/Publish/Prepare.antt =====
-- activities/publish.py, `_prepare`: what the tables allow to publish. An exception rolls the
-- transaction back.
use pr_reliability_platform.Prelude.{
  ℕ, Bool, true, false, Option, none, some, List, [], ◌∷◌, ◌++◌, Text, codes, text_eq, not, ltb,
  length, ◌==◌, ◌&&◌, ◌||◌, any, find, update_where, if◌then◌else◌, ◌>>=◌, ◌+◌, ◌≡◌, arith, refl,
}
use pr_reliability_platform.Approvals.Tables.{awaiting_approval, state_eq}
use pr_reliability_platform.Workflow.Types.{PublishRequest}
use pr_reliability_platform.Publish.Tables.{
  Run, PullRequest, Repository, ActionStatus, publishing, published, Action, publish_prepared,
  RunEvent, Database, is_named_run, is_pull_request, is_repository, has_idempotency_key,
  has_event_key,
}
use pr_reliability_platform.Publish.Review.{
  Row, validate_request_shape, select_findings, rows_error, render_review_body,
  max_review_body_characters, review_marker, payload_fingerprint,
}

pub record Prepared : Type 0 where
  pub action_id : Text
  pub repository : Text
  pub pull_request_number : ℕ
  pub head_sha : Text
  pub marker : Text
  pub body : Text
  pub payload_fingerprint : Text
  pub remote_id : Option Text
  pub create_block_code : Option Text

-- A value, a `PublishBlockedError` with its message, or a constraint of the tables that fails.
pub data Result {ℓ} (A : Type ℓ) : Type ℓ where
  ok : A → Result A
  blocked : Text → Result A
  integrity_error : Result A

-- The row of the first query.
pub record Target : Type 0 where
  pub run : Run
  pub pull_request : PullRequest
  pub repository : Repository

unfoldable pub select_target : PublishRequest → Database → Option Target
select_target request d = do
  run ← find (is_named_run request.owner_id request.run_id) d.runs
  pull_request ← find (is_pull_request run.owner_id run.pull_request_id) d.pull_requests
  repository ← find (is_repository run.owner_id pull_request.repository_id) d.repositories
  if text_eq repository.public_id request.repository_id
        && pull_request.github_number == request.pull_request_number
      then some (record { run = run; pull_request = pull_request; repository = repository })
      else none

abbrev pub action_type_value : Text
action_type_value = codes "github.pull_request_review"

-- The tests of an action that has the request's key.
abbrev pub identity_error : PublishRequest → Target → Option Action → Option Text
identity_error request t none = none
identity_error request t (some a) =
    if not (text_eq a.target_sha request.head_sha)
    then some (codes "idempotency key targets another commit")
    else if not (a.run_id == t.run.id) || not (text_eq a.action_type action_type_value)
    then some (codes "idempotency key targets another action")
    else none

-- `create_block_code`
unfoldable pub block_code : PublishRequest → Target → Option Text
block_code request t =
    if not (state_eq t.run.state awaiting_approval)
    then some (codes "authorization_changed")
    else if not (text_eq t.pull_request.head_sha request.head_sha)
    then some (codes "stale_head")
    else none

-- A new action is not made where the code blocks it.
abbrev pub new_error : PublishRequest → Target → Option Action → Option Text
new_error request t (some a) = none
new_error request t none =
    if not (state_eq t.run.state awaiting_approval)
    then some (codes "run is not awaiting approval")
    else if not (text_eq t.pull_request.head_sha request.head_sha)
    then some (codes "pull request head is stale")
    else none

abbrev pub body_error : Text → Option Text
body_error body =
    if ltb max_review_body_characters (length body)
    then some (codes "approved review exceeds the publish limit")
    else none

-- The first error.
abbrev pub or_error : Option Text → Option Text → Option Text
or_error (some e) rest = some e
or_error none rest = rest

abbrev pub is_action : PublishRequest → Text → Action → Bool
is_action request action_id a = text_eq a.owner_id request.owner_id && text_eq a.public_id action_id

abbrev pub is_published : ActionStatus → Bool
is_published published = true
is_published _ = false

abbrev pub existing_action : PublishRequest → Database → Option Action
existing_action request d =
    find (has_idempotency_key request.owner_id request.idempotency_key) d.actions

pub first_error : (m n : Option Text) → or_error m n ≡ none → m ≡ none
first_error none n h = refl
first_error (some e) n h = ground arith

pub later_error : (m n : Option Text) → or_error m n ≡ none → n ≡ none
later_error none n h = h
later_error (some e) n h = ground arith

module _ (digest : Text → Text) (dumps : List (Text × Text) → Text → Text → Text)
    (id_factory : ℕ → Text) (request : PublishRequest) where
  abbrev pub rows_of : Target → Database → List Row
  rows_of t d = select_findings request t.run.id d.approvals d.findings

  abbrev pub marker : Text
  marker = review_marker digest dumps request.idempotency_key

  abbrev pub body_of : Target → Database → Text
  body_of t d = render_review_body (rows_of t d) marker

  abbrev pub fingerprint_of : Target → Database → Text
  fingerprint_of t d = payload_fingerprint digest dumps request (rows_of t d) (body_of t d)

  -- What `_prepare` finds wrong before it looks at the action's payload.
  unfoldable pub prepare_error : Target → Option Action → Database → Option Text
  prepare_error t existing d = or_error (identity_error request t existing) (
      or_error (new_error request t existing)
        (or_error (rows_error request (rows_of t d)) (body_error (body_of t d))))

  abbrev pub prepared_of : Target → Database → Text → Prepared
  prepared_of t d action_id = record {
    action_id = action_id;
    repository = t.repository.full_name;
    pull_request_number = request.pull_request_number;
    head_sha = request.head_sha;
    marker = marker;
    body = body_of t d;
    payload_fingerprint = fingerprint_of t d;
    remote_id = none;
    create_block_code = none;
  }

  abbrev pub new_action : Target → Database → Action
  new_action t d = record {
    public_id = id_factory d.drawn;
    owner_id = request.owner_id;
    run_id = t.run.id;
    action_type = action_type_value;
    target_sha = request.head_sha;
    idempotency_key = request.idempotency_key;
    payload_fingerprint = fingerprint_of t d;
    status = publishing;
    remote_id = none;
  }

  abbrev pub started_event : Target → Database → RunEvent
  started_event t d = record {
    owner_id = request.owner_id;
    run_id = t.run.id;
    event_key = codes "publish:" ++ (id_factory d.drawn ++ codes ":started");
    event_data = publish_prepared (id_factory d.drawn);
  }

  -- A key of the tables that the two inserts would repeat, or a reference that is not there.
  abbrev pub violates : Target → Database → Bool
  violates t d =
      not (text_eq t.run.head_sha request.head_sha)
      || (any
            (λ a.
              text_eq a.public_id (id_factory d.drawn)
              || (a.run_id == t.run.id
                  && (text_eq a.action_type action_type_value
                      && text_eq a.target_sha request.head_sha)))
            d.actions
          || any (has_event_key t.run.id (started_event t d).event_key) d.events)

  unfoldable pub insert_action : Target → Database → Result Prepared × Database
  insert_action t d = if violates t d then (integrity_error, d) else (
    ok (prepared_of t d (id_factory d.drawn)),
    record d {
      actions = d.actions ++ new_action t d ∷ [];
      events = d.events ++ started_event t d ∷ [];
      drawn = d.drawn + 2;
    },
  )

  abbrev pub remote_of : Target → Action → Database → Option Text → Result Prepared
  remote_of t a d none = blocked (codes "published action has no remote identity")
  remote_of t a d (some remote) =
      ok (record (prepared_of t d a.public_id) { body = []; remote_id = some remote })

  abbrev pub resume_with : Target → Action → Database → Option Text → Result Prepared × Database
  resume_with t a d (some code) =
      (ok (record (prepared_of t d a.public_id) { create_block_code = some code }), d)
  resume_with t a d none = (
    ok (prepared_of t d a.public_id),
    record d {
      actions =
          update_where (is_action request a.public_id) (λ b. record b { status = publishing })
            d.actions;
    },
  )

  -- The branch of an action that is there.
  unfoldable pub resume_action : Target → Action → Database → Result Prepared × Database
  resume_action t a d =
      if not (text_eq a.payload_fingerprint (fingerprint_of t d))
      then (blocked (codes "idempotency key targets another publish payload"), d)
      else if is_published a.status
      then (remote_of t a d a.remote_id, d)
      else resume_with t a d (block_code request t)

  abbrev pub write_action : Target → Option Action → Database → Result Prepared × Database
  write_action t none d = insert_action t d
  write_action t (some a) d = resume_action t a d

  abbrev pub prepare_checked :
      Target → Option Action → Option Text → Database → Result Prepared × Database
  prepare_checked t existing (some message) d = (blocked message, d)
  prepare_checked t existing none d = write_action t existing d

  abbrev pub prepare_target : Option Target → Database → Result Prepared × Database
  prepare_target none d = (blocked (codes "publish target does not match the run"), d)
  prepare_target (some t) d =
      prepare_checked t (existing_action request d) (prepare_error t (existing_action request d) d)
        d

  abbrev pub prepare_shaped : Option Text → Database → Result Prepared × Database
  prepare_shaped (some message) d = (blocked message, d)
  prepare_shaped none d = prepare_target (select_target request d) d

  unfoldable pub prepare : Database → Result Prepared × Database
  prepare d = prepare_shaped (validate_request_shape request) d
