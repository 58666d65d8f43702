-- ===== src/Publish/Finished.antt =====
-- activities/publish.py: when the activity completes, the action is published.
use pr_reliability_platform.Prelude.{
  ℕ, Bool, true, false, Option, none, some, List, [], Text, codes, text_eq, not, find, ◌≡◌, arith,
  OnSome, if_lem, OnSome->>=, >>=-eq-some, some_injective, ◌⊎◌, inl, inr, refl,
}
use mathlib.Core.Path.{subst, sym}
use pr_reliability_platform.Workflow.Types.{PublishRequest}
use pr_reliability_platform.Publish.Tables.{Database}
use pr_reliability_platform.Publish.Review.{validate_request_shape}
use pr_reliability_platform.Publish.Prepare.{
  Prepared, Result, ok, blocked, integrity_error, prepare,
}
use pr_reliability_platform.Publish.Operation.{
  GitHubReview, Github, payload_mismatch, stale_head, application_error, other_error, Outcome,
  completed, non_retryable, runtime_error, database_error, World, Answer, returned, raised, Step,
  operate, publish, handle, record_success, record_action_blocked, record_failure, block_creation,
  accept_review, after_prepare, is_payload_of, after_head, updated_run, publish_unless,
  operate_shaped, ended, after_create, after_find, committed, create_unless, published_row,
}
use pr_reliability_platform.Publish.Once.{
  IsDone, IsStored, Claimed, Ready, IsReady, published-IsDone, IsDone-insert_event, prepare-IsReady,
}

-- The id of the review that the client finds, or of the one that it creates when it finds none, or the
-- id under which the action of the request was published before.
abbrev pub IsReviewId : PublishRequest → Github → Database → Text → Type 0
IsReviewId request github before id =
    ((review : GitHubReview) × ((github.on_find ≡ returned (some review))
        ⊎ ((github.on_find ≡ returned none) × (github.on_create ≡ returned review)))
      × (review.remote_id ≡ id))
    ⊎ IsStored request before id

module _ (digest : Text → Text) (dumps : List (Text × Text) → Text → Text → Text)
    (id_factory : ℕ → Text) (request : PublishRequest) (github : Github) (before : Database) where
  abbrev Remote : Text → Type 0
  Remote = IsReviewId request github before

  -- A step that raises nothing leaves the action published.
  abbrev EndsDone : Step digest dumps id_factory request github → Type 0
  EndsDone (returned u, w) = IsDone Remote request w.database
  EndsDone (raised e, w) = Unit {0}

  updated-IsDone :
      (p : Prepared) (review : GitHubReview) (d : Database) (r : ℕ × Database)
      → Remote review.remote_id
      → Claimed request p d
      → updated_run (is_payload_of request d p) (published_row review) d ≡ some r
      → IsDone Remote request r.1
  updated-IsDone p review d r q h e =
      let (a, e', k) = >>=-eq-some (find (is_payload_of request d p) d.actions) _ e in
      subst (λ x. IsDone Remote request x.1) (some_injective _ _ k)
        (published-IsDone Remote request p review d q h)

  record_success-IsDone :
      (p : Prepared) (review : GitHubReview) (created : Bool) (d : Database)
      → Remote review.remote_id
      → Claimed request p d
      → OnSome
          (IsDone Remote request)
          (record_success digest dumps id_factory request github p review created d)
  unfolding record_success
  record_success-IsDone p review created d q h =
      OnSome->>= (IsDone Remote request)
        (updated_run (is_payload_of request d p) (published_row review) d) _
        (λ r e. IsDone-insert_event Remote request _ r.1 (updated-IsDone p review d r q h e))

  committed_raised :
      (o : Option Database) (message : Text) (w : World)
      → EndsDone (
          committed digest dumps id_factory request github (raised (application_error message)) o w)
  committed_raised none message w = tt
  committed_raised (some d) message w = tt

  committed-EndsDone :
      (o : Option Database) (w : World)
      → OnSome (IsDone Remote request) o
      → EndsDone (committed digest dumps id_factory request github (returned tt) o w)
  committed-EndsDone none w h = tt
  committed-EndsDone (some d) w h = h

  block_creation-EndsDone :
      (p : Prepared) (code message : Text) (w : World)
      → EndsDone (block_creation digest dumps id_factory request github p code message w)
  unfolding block_creation
  block_creation-EndsDone p code message w =
      committed_raised
        (record_action_blocked digest dumps id_factory request github p.action_id code w.database)
        message w

  accept_review-EndsDone :
      (p : Prepared) (review : GitHubReview) (created : Bool) (w : World)
      → Remote review.remote_id
      → Claimed request p w.database
      → EndsDone (accept_review digest dumps id_factory request github p review created w)
  unfolding accept_review
  accept_review-EndsDone p review created w q h =
      if_lem EndsDone (not (text_eq review.commit_sha p.head_sha)) _ _ (λ k. tt)
        (λ k. committed-EndsDone _ w (record_success-IsDone p review created w.database q h))

  after_create-EndsDone :
      (p : Prepared) (a : Answer GitHubReview) (w : World)
      → github.on_find ≡ returned none
      → github.on_create ≡ a
      → Claimed request p w.database
      → EndsDone (after_create digest dumps id_factory request github p a w)
  after_create-EndsDone p (raised e) w n q h = tt
  after_create-EndsDone p (returned review) w n q h =
      accept_review-EndsDone p review true w (inl (review, inr (n, q), refl)) h

  after_head-EndsDone :
      (p : Prepared) (a : Answer Text) (w : World)
      → github.on_find ≡ returned none
      → Claimed request p w.database
      → EndsDone (after_head digest dumps id_factory request github p a w)
  after_head-EndsDone p (raised e) w n h = tt
  after_head-EndsDone p (returned head) w n h =
      if_lem EndsDone (not (text_eq head p.head_sha)) _ _ (λ k. block_creation-EndsDone p _ _ w)
        (λ k. after_create-EndsDone p github.on_create _ n refl h)

  create_unless-EndsDone :
      (p : Prepared) (code : Option Text) (w : World)
      → github.on_find ≡ returned none
      → Claimed request p w.database
      → EndsDone (create_unless digest dumps id_factory request github p code w)
  create_unless-EndsDone p (some code) w n h = block_creation-EndsDone p code _ w
  create_unless-EndsDone p none w n h = after_head-EndsDone p github.on_head _ n h

  after_find-EndsDone :
      (p : Prepared) (a : Answer (Option GitHubReview)) (w : World)
      → github.on_find ≡ a
      → Claimed request p w.database
      → EndsDone (after_find digest dumps id_factory request github p a w)
  after_find-EndsDone p (raised e) w q h = tt
  after_find-EndsDone p (returned (some review)) w q h =
      accept_review-EndsDone p review false w (inl (review, inl q, refl)) h
  after_find-EndsDone p (returned none) w q h = create_unless-EndsDone p p.create_block_code w q h

  publish-EndsDone :
      (p : Prepared) (w : World)
      → Claimed request p w.database
      → EndsDone (publish digest dumps id_factory request github p w)
  unfolding publish
  publish-EndsDone p w h = after_find-EndsDone p github.on_find _ refl h

  -- A completed activity leaves the action published.
  abbrev CompletesDone : Outcome × World → Type 0
  CompletesDone (completed, w) = IsDone Remote request w.database
  CompletesDone (non_retryable message, w) = Unit {0}
  CompletesDone (runtime_error message, w) = Unit {0}
  CompletesDone (database_error, w) = Unit {0}

  ended-CompletesDone :
      (message message' : Text) (o : Option Database) (w : World)
      → CompletesDone (
          ended digest dumps id_factory request github
            (non_retryable message)
            (runtime_error message')
            o
            w)
  ended-CompletesDone message message' none w = tt
  ended-CompletesDone message message' (some d) w = tt

  ended_runtime-CompletesDone :
      (message message' : Text) (o : Option Database) (w : World)
      → CompletesDone (
          ended digest dumps id_factory request github
            (runtime_error message)
            (runtime_error message')
            o
            w)
  ended_runtime-CompletesDone message message' none w = tt
  ended_runtime-CompletesDone message message' (some d) w = tt

  handle-CompletesDone :
      (p : Prepared) (s : Step digest dumps id_factory request github)
      → EndsDone s
      → CompletesDone (handle digest dumps id_factory request github p s)
  unfolding handle
  handle-CompletesDone p (returned u, w) h = h
  handle-CompletesDone p (raised payload_mismatch, w) h =
      ended-CompletesDone _ _
        (record_action_blocked digest dumps id_factory request github p.action_id
          (codes "review_payload_mismatch") w.database)
        w
  handle-CompletesDone p (raised stale_head, w) h =
      ended-CompletesDone _ _
        (record_action_blocked digest dumps id_factory request github p.action_id
          (codes "stale_head") w.database)
        w
  handle-CompletesDone p (raised (application_error message), w) h = tt
  handle-CompletesDone p (raised other_error, w) h =
      ended_runtime-CompletesDone _ _
        (record_failure digest dumps id_factory request github p.action_id (codes "github_error")
          w.database)
        w

  publish_unless-CompletesDone :
      (p : Prepared) (o : Option Text) (d : Database)
      → Ready request before o p d
      → CompletesDone (publish_unless digest dumps id_factory request github p o d)
  publish_unless-CompletesDone p (some remote) d ((a, e, k, (id, q, same)), unchanged) =
      subst (λ x. IsDone Remote request x) (sym unchanged)
        (a, e, k, (id, q, inr (a, e, k, (id, q, refl))))
  publish_unless-CompletesDone p none d h =
      handle-CompletesDone p _ (publish-EndsDone p (record { database = d; calls = [] }) h)

  after_prepare-CompletesDone :
      (r : Result Prepared) (d : Database)
      → IsReady request before (r, d)
      → CompletesDone (after_prepare digest dumps id_factory request github r d)
  after_prepare-CompletesDone (ok p) d h = publish_unless-CompletesDone p p.remote_id d h
  after_prepare-CompletesDone (blocked message) d h = tt
  after_prepare-CompletesDone integrity_error d h = tt

  operate_shaped-CompletesDone :
      (m : Option Text)
      → CompletesDone (operate_shaped digest dumps id_factory request github m before)
  operate_shaped-CompletesDone (some message) = tt
  operate_shaped-CompletesDone none =
      after_prepare-CompletesDone (prepare digest dumps id_factory request before).0
        (prepare digest dumps id_factory request before).1
        (prepare-IsReady digest dumps id_factory request before)

  completes :
      (r : Outcome × World) → CompletesDone r → r.0 ≡ completed → IsDone Remote request r.1.database
  completes (completed, w) h e = h
  completes (non_retryable message, w) h e = ground arith
  completes (runtime_error message, w) h e = ground arith
  completes (database_error, w) h e = ground arith

-- When the activity completes, the table has the action of the request's idempotency key, published
-- under the id of the review that the client finds, or of the one that it creates when it finds none,
-- or under the id that it was published under before the call.
pub operate-IsDone :
    (digest : Text → Text) (dumps : List (Text × Text) → Text → Text → Text) (id_factory : ℕ → Text)
    (request : PublishRequest) (github : Github) (d : Database)
    → (operate digest dumps id_factory request github d).0 ≡ completed
    → IsDone
        (IsReviewId request github d)
        request
        (operate digest dumps id_factory request github d).1.database
unfolding operate
operate-IsDone digest dumps id_factory request github d h =
    completes digest dumps id_factory request github d
      (operate_shaped digest dumps id_factory request github (validate_request_shape request) d)
      (operate_shaped-CompletesDone digest dumps id_factory request github d
        (validate_request_shape request))
      h
