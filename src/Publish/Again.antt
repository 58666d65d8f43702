-- ===== src/Publish/Again.antt =====
-- activities/publish.py: after the publication, the activity does not call GitHub again.
use pr_reliability_platform.Prelude.{
  ℕ, true, Option, none, some, List, [], Text, text_eq, not, ◌≡◌, refl, ap, arith, if_lem,
  false-true, ◌∙◌, some_injective,
}
use pr_reliability_platform.Workflow.Types.{PublishRequest}
use pr_reliability_platform.Publish.Tables.{Action, Database}
use pr_reliability_platform.Publish.Review.{validate_request_shape}
use pr_reliability_platform.Publish.Prepare.{
  Prepared, Target, Result, prepare, resume_action, is_published, fingerprint_of, prepare_checked,
  prepare_shaped, prepare_target, remote_of,
}
use pr_reliability_platform.Publish.Operation.{
  Github, completed, operate, after_prepare, operate_shaped,
}
use pr_reliability_platform.Publish.Once.{IsDone}
use pr_reliability_platform.Publish.Finished.{IsReviewId, operate-IsDone}

module _ (digest : Text → Text) (dumps : List (Text × Text) → Text → Text → Text)
    (id_factory : ℕ → Text) (request : PublishRequest) (github : Github) where
  -- A preparation after which GitHub is not called.
  abbrev IsQuiet : Result Prepared × Database → Type 0
  IsQuiet r = (after_prepare digest dumps id_factory request github r.0 r.1).1.calls ≡ []

  remote_of-IsQuiet :
      (t : Target) (a : Action) (d : Database) (o : Option Text)
      → IsQuiet (remote_of digest dumps id_factory request t a d o, d)
  remote_of-IsQuiet t a d none = refl
  remote_of-IsQuiet t a d (some remote) = refl

  resume_action-IsQuiet :
      (t : Target) (a : Action) (d : Database)
      → is_published a.status ≡ true
      → IsQuiet (resume_action digest dumps id_factory request t a d)
  unfolding resume_action
  resume_action-IsQuiet t a d h =
      if_lem IsQuiet
        (not (text_eq a.payload_fingerprint (fingerprint_of digest dumps id_factory request t d))) _
        _ (λ k. refl)
        (λ k.
          if_lem IsQuiet (is_published a.status) _ _ (λ e. remote_of-IsQuiet t a d a.remote_id)
            (λ e. absurd (false-true e h)))

  prepare_checked-IsQuiet :
      (t : Target) (a : Action) (o : Option Action) (m : Option Text) (d : Database)
      → o ≡ some a
      → is_published a.status ≡ true
      → IsQuiet (prepare_checked digest dumps id_factory request t o m d)
  prepare_checked-IsQuiet t a o (some message) d e h = refl
  prepare_checked-IsQuiet t a none none d e h = ground arith
  prepare_checked-IsQuiet t a (some b) none d e h =
      resume_action-IsQuiet t b d (ap (λ x. is_published x.status) (some_injective b a e) ∙ h)

  prepare_target-IsQuiet :
      (o : Option Target) (d : Database)
      → IsDone (λ id. Unit {0}) request d
      → IsQuiet (prepare_target digest dumps id_factory request o d)
  prepare_target-IsQuiet none d h = refl
  prepare_target-IsQuiet (some t) d (a, e, h, r) = prepare_checked-IsQuiet t a _ _ d e h

  prepare_shaped-IsQuiet :
      (m : Option Text) (d : Database)
      → IsDone (λ id. Unit {0}) request d
      → IsQuiet (prepare_shaped digest dumps id_factory request m d)
  prepare_shaped-IsQuiet (some message) d h = refl
  prepare_shaped-IsQuiet none d h = prepare_target-IsQuiet _ d h

  prepare-IsQuiet :
      (d : Database)
      → IsDone (λ id. Unit {0}) request d
      → IsQuiet (prepare digest dumps id_factory request d)
  unfolding prepare
  prepare-IsQuiet d h = prepare_shaped-IsQuiet (validate_request_shape request) d h

  operate_shaped-quiet :
      (m : Option Text) (d : Database)
      → IsDone (λ id. Unit {0}) request d
      → (operate_shaped digest dumps id_factory request github m d).1.calls ≡ []
  operate_shaped-quiet (some message) d h = refl
  operate_shaped-quiet none d h = prepare-IsQuiet d h

IsDone-any :
    (request : PublishRequest) (R : Text → Type 0) (d : Database)
    → IsDone R request d
    → IsDone (λ id. Unit {0}) request d
IsDone-any request R d (a, e, h, (id, q, r)) = (a, e, h, (id, q, tt))

-- When the activity completed for a request, running it again for the request makes no call of the
-- client of GitHub, whatever the client would answer: no second review is looked up or created.
pub operate_again :
    (digest : Text → Text) (dumps : List (Text × Text) → Text → Text → Text)
    (id_factory factory : ℕ → Text) (request : PublishRequest) (first second : Github)
    (d : Database)
    → (operate digest dumps id_factory request first d).0 ≡ completed
    → (operate digest dumps factory request second
        (operate digest dumps id_factory request first d).1.database).1.calls
      ≡ []
unfolding operate
operate_again digest dumps id_factory factory request first second d h =
    operate_shaped-quiet digest dumps factory request second (validate_request_shape request)
      (operate digest dumps id_factory request first d).1.database
      (IsDone-any request (IsReviewId request first d)
        (operate digest dumps id_factory request first d).1.database
        (operate-IsDone digest dumps id_factory request first d h))
