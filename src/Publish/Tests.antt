-- ===== src/Publish/Tests.antt =====
-- The publication of one approved finding, and the theorems at concrete inputs.
use pr_reliability_platform.Prelude.{
  ℕ, none, List, [], ◌∷◌, Text, codes, ◌≡◌, refl, text_eq, All, contains,
}
use pr_reliability_platform.Approvals.Tables.{awaiting_approval, approve_finding}
use pr_reliability_platform.Workflow.Types.{PublishRequest}
use pr_reliability_platform.Publish.Tables.{Database, high, insert_event}
use pr_reliability_platform.Publish.Review.{
  validate_request_shape, are_unique, select_findings, rows_error, render_review_body,
  join_sections, approval_pairs, insert_pair,
}
use pr_reliability_platform.Publish.Prepare.{
  select_target, prepare, prepare_error, block_code, insert_action,
}
use pr_reliability_platform.Publish.Operation.{
  Github, Outcome, completed, non_retryable, World, returned, operate, publish, handle,
  record_success, accept_review, block_creation, record_action_blocked,
}
use pr_reliability_platform.Publish.Once.{IsDone}
use pr_reliability_platform.Publish.Finished.{IsReviewId, operate-IsDone}
use pr_reliability_platform.Publish.Again.{operate_again}
use pr_reliability_platform.Publish.Creation.{IsAuthorized, operate-IsAuthorized}

abbrev request : PublishRequest
request = record {
  owner_id = codes "O";
  run_id = codes "R";
  repository_id = codes "X";
  pull_request_number = 4;
  head_sha = codes "h";
  finding_ids = codes "F" ∷ [];
  approval_ids = codes "A" ∷ [];
  comment_body_ref = codes "ref";
  idempotency_key = codes "R:h:publish";
}

abbrev approved_run : Database
approved_run = record {
  runs =
      record {
        id = 3;
        owner_id = codes "O";
        public_id = codes "R";
        pull_request_id = 2;
        head_sha = codes "h";
        state = awaiting_approval;
      }
      ∷ [];
  pull_requests =
      record {
        id = 2;
        owner_id = codes "O";
        repository_id = 1;
        github_number = 4;
        head_sha = codes "h";
      }
      ∷ [];
  repositories =
      record { id = 1; owner_id = codes "O"; public_id = codes "X"; full_name = codes "o/x" } ∷ [];
  findings =
      record {
        id = 5;
        owner_id = codes "O";
        public_id = codes "F";
        run_id = 3;
        severity = high;
        claim = codes "leak";
      }
      ∷ [];
  approvals =
      record {
        public_id = codes "A";
        owner_id = codes "O";
        run_id = 3;
        finding_id = 5;
        actor_id = codes "H";
        decision = approve_finding;
        reason = none;
        head_sha = codes "h";
        decided_at = 1;
      }
      ∷ [];
  actions = [];
  events = [];
  drawn = 70;
}

abbrev digest : Text → Text
digest text = codes "d"

abbrev dumps : List (Text × Text) → Text → Text → Text
dumps pairs reference body = body

abbrev id_factory : ℕ → Text
id_factory n = n ∷ []

-- GitHub has no review yet, and creates one.
abbrev github : Github
github = record {
  on_find = returned none;
  on_head = returned (codes "h");
  on_create = returned (record { remote_id = codes "99"; commit_sha = codes "h" });
  started_at = 10;
  finished_at = 20;
}

-- The head moved on GitHub.
abbrev moved : Github
moved = record github { on_head = returned (codes "i") }

abbrev after_publish : Outcome × World
after_publish = operate digest dumps id_factory request github approved_run

publish_completes : after_publish.0 ≡ completed
unfolding operate validate_request_shape are_unique contains prepare select_target prepare_error
    rows_error select_findings render_review_body join_sections approval_pairs insert_pair
    block_code insert_action publish accept_review record_success insert_event handle text_eq
publish_completes = refl

stale_head_is_blocked :
    (operate digest dumps id_factory request moved approved_run).0
    ≡ non_retryable (codes "pull request head is stale")
unfolding operate validate_request_shape are_unique contains prepare select_target prepare_error
    rows_error select_findings render_review_body join_sections approval_pairs insert_pair
    block_code insert_action publish accept_review block_creation record_action_blocked insert_event
    handle text_eq
stale_head_is_blocked = refl

operate-IsDone_example :
    IsDone (IsReviewId request github approved_run) request after_publish.1.database
operate-IsDone_example =
    operate-IsDone digest dumps id_factory request github approved_run publish_completes

operate_again_example :
    (operate digest dumps id_factory request moved after_publish.1.database).1.calls ≡ []
operate_again_example =
    operate_again digest dumps id_factory id_factory request github moved approved_run
      publish_completes

operate-IsAuthorized_example :
    All (IsAuthorized digest dumps id_factory request github approved_run) after_publish.1.calls
operate-IsAuthorized_example =
    operate-IsAuthorized digest dumps id_factory request github approved_run
