-- ===== src/Publish/Creation.antt =====
-- activities/publish.py: the calls that create a review.
use pr_reliability_platform.Prelude.{
  ℕ, ◌≤◌, Bool, true, false, Option, none, some, List, [], ◌∷◌, ◌++◌, Text, text_eq, not, any,
  length, ◌≡◌, refl, ap, ◌∙◌, arith, All, All-append, if_lem, not-false, sym,
}
use pr_reliability_platform.Approvals.Tables.{awaiting_approval, state_eq}
use pr_reliability_platform.Workflow.Types.{PublishRequest}
use pr_reliability_platform.Publish.Tables.{Database, Action}
use pr_reliability_platform.Publish.Review.{
  rows_error, validate_request_shape, max_review_body_characters, is_rejected, is_for_other_commit,
}
use pr_reliability_platform.Publish.Prepare.{
  Prepared, Target, Result, ok, blocked, integrity_error, prepare, select_target, rows_of, body_of,
  prepare_error, block_code, insert_action, resume_action, existing_action, body_error, new_error,
  violates, prepare_shaped, prepare_checked, prepare_target, later_error, fingerprint_of, remote_of,
  resume_with, identity_error, is_published, first_error,
}
use pr_reliability_platform.Publish.Operation.{
  Github, GitHubReview, Call, find_review, current_head_sha, create_review, World, Answer, returned,
  raised, payload_mismatch, stale_head, application_error, other_error, Outcome, Step, operate,
  publish, handle, block_creation, accept_review, after_head, after_create, create_unless,
  after_find, Outcome, create, application_error, committed, ended, publish_unless, after_prepare,
  operate_shaped,
}
use pr_reliability_platform.Publish.Authority.{
  IsApprovedRow, select_findings-IsJoinedRow, rows-IsApprovedRow,
}

-- The run awaits approval and the commit is that of the pull request.
abbrev pub IsCurrent : PublishRequest → Target → Type 0
IsCurrent request t =
    (state_eq t.run.state awaiting_approval ≡ true)
    × (text_eq t.pull_request.head_sha request.head_sha ≡ true)

IsCurrent-block_code :
    (request : PublishRequest) (t : Target) → block_code request t ≡ none → IsCurrent request t
unfolding block_code
IsCurrent-block_code request t h = (ground arith, ground arith)

IsCurrent-new_error :
    (request : PublishRequest) (t : Target) → new_error request t none ≡ none → IsCurrent request t
IsCurrent-new_error request t h = (ground arith, ground arith)

module _ (digest : Text → Text) (dumps : List (Text × Text) → Text → Text → Text)
    (id_factory : ℕ → Text) (request : PublishRequest) where
  -- What the tests of the preparation establish of the findings and the body.
  abbrev pub IsChecked : Target → Database → Type 0
  IsChecked t d =
      (length (rows_of digest dumps id_factory request t d) ≡ length request.finding_ids)
      × All (IsApprovedRow request t.run.id) (rows_of digest dumps id_factory request t d)
      × (length (body_of digest dumps id_factory request t d) ≤ max_review_body_characters)

  abbrev Basis : Target → Database → Prepared → Type 0
  Basis t d p =
      (p.repository ≡ t.repository.full_name)
      × (p.pull_request_number ≡ request.pull_request_number)
      × (p.head_sha ≡ request.head_sha)
      × (p.remote_id ≡ none → p.body ≡ body_of digest dumps id_factory request t d)
      × (p.remote_id ≡ none → p.create_block_code ≡ none → IsCurrent request t)
      × IsChecked t d

  -- A preparation that returns has a target and a basis.
  abbrev HasBasis : Database → Result Prepared → Type 0
  HasBasis d (ok p) = (t : Target) × (select_target request d ≡ some t) × Basis t d p
  HasBasis d (blocked message) = Unit {0}
  HasBasis d integrity_error = Unit {0}

  count_error :
      (t : Target) (d : Database)
      → rows_error request (rows_of digest dumps id_factory request t d) ≡ none
      → length (rows_of digest dumps id_factory request t d) ≡ length request.finding_ids
  unfolding rows_error
  count_error t d h = ground arith

  rejected_error :
      (t : Target) (d : Database)
      → rows_error request (rows_of digest dumps id_factory request t d) ≡ none
      → any is_rejected (rows_of digest dumps id_factory request t d) ≡ false
  unfolding rows_error
  rejected_error t d h = ground arith

  commit_error :
      (t : Target) (d : Database)
      → rows_error request (rows_of digest dumps id_factory request t d) ≡ none
      → any (is_for_other_commit request) (rows_of digest dumps id_factory request t d) ≡ false
  unfolding rows_error
  commit_error t d h = ground arith

  IsChecked-rows :
      (t : Target) (d : Database)
      → rows_error request (rows_of digest dumps id_factory request t d) ≡ none
      → body_error (body_of digest dumps id_factory request t d) ≡ none
      → IsChecked t d
  IsChecked-rows t d h k = (
    count_error t d h,
    rows-IsApprovedRow request t.run.id (rows_of digest dumps id_factory request t d)
        (select_findings-IsJoinedRow request t.run.id d.approvals d.findings) (rejected_error t d h)
        (commit_error t d h),
    ground arith,
  )

  checks_of :
      (t : Target) (o : Option Action) (d : Database)
      → prepare_error digest dumps id_factory request t o d ≡ none
      → IsChecked t d × (new_error request t o ≡ none)
  unfolding prepare_error
  checks_of t o d h =
      let k = later_error (identity_error request t o) _ h in
      let e = later_error (new_error request t o) _ k in
      (
        IsChecked-rows t d
            (first_error _ (body_error (body_of digest dumps id_factory request t d)) e)
            (later_error (rows_error request (rows_of digest dumps id_factory request t d)) _ e),
        first_error (new_error request t o) _ k,
      )

  insert_action-HasBasis :
      (t : Target) (d : Database)
      → select_target request d ≡ some t
      → IsChecked t d
      → IsCurrent request t
      → HasBasis d (insert_action digest dumps id_factory request t d).0
  unfolding insert_action
  insert_action-HasBasis t d h c k =
      if_lem (λ (r : Result Prepared × Database). HasBasis d r.0)
        (violates digest dumps id_factory request t d) _ _ (λ e. tt)
        (λ e. (t, h, (refl, refl, refl, (λ _. refl), (λ _ _. k), c)))

  remote_of-HasBasis :
      (t : Target) (a : Action) (d : Database) (o : Option Text)
      → select_target request d ≡ some t
      → IsChecked t d
      → HasBasis d (remote_of digest dumps id_factory request t a d o)
  remote_of-HasBasis t a d none h c = tt
  remote_of-HasBasis t a d (some remote) h c =
      (t, h, (refl, refl, refl, (λ e. ground arith), (λ e _. ground arith), c))

  resume_with-HasBasis :
      (t : Target) (a : Action) (d : Database) (code : Option Text)
      → select_target request d ≡ some t
      → IsChecked t d
      → block_code request t ≡ code
      → HasBasis d (resume_with digest dumps id_factory request t a d code).0
  resume_with-HasBasis t a d (some code) h c e =
      (t, h, (refl, refl, refl, (λ _. refl), (λ _ k. ground arith), c))
  resume_with-HasBasis t a d none h c e =
      (t, h, (refl, refl, refl, (λ _. refl), (λ _ _. IsCurrent-block_code request t e), c))

  resume_action-HasBasis :
      (t : Target) (a : Action) (d : Database)
      → select_target request d ≡ some t
      → IsChecked t d
      → HasBasis d (resume_action digest dumps id_factory request t a d).0
  unfolding resume_action
  resume_action-HasBasis t a d h c =
      if_lem (λ (r : Result Prepared × Database). HasBasis d r.0)
        (not (text_eq a.payload_fingerprint (fingerprint_of digest dumps id_factory request t d))) _
        _ (λ k. tt)
        (λ k.
          if_lem (λ (r : Result Prepared × Database). HasBasis d r.0) (is_published a.status) _ _
            (λ e. remote_of-HasBasis t a d a.remote_id h c)
            (λ e. resume_with-HasBasis t a d _ h c refl))

  prepare_checked-HasBasis :
      (t : Target) (o : Option Action) (m : Option Text) (d : Database)
      → select_target request d ≡ some t
      → prepare_error digest dumps id_factory request t o d ≡ m
      → HasBasis d (prepare_checked digest dumps id_factory request t o m d).0
  prepare_checked-HasBasis t o (some message) d h e = tt
  prepare_checked-HasBasis t none none d h e =
      let c = checks_of t none d e in
      insert_action-HasBasis t d h c.0 (IsCurrent-new_error request t c.1)
  prepare_checked-HasBasis t (some a) none d h e =
      resume_action-HasBasis t a d h (checks_of t (some a) d e).0

  prepare_target-HasBasis :
      (o : Option Target) (d : Database)
      → select_target request d ≡ o
      → HasBasis d (prepare_target digest dumps id_factory request o d).0
  prepare_target-HasBasis none d h = tt
  prepare_target-HasBasis (some t) d h =
      prepare_checked-HasBasis t (existing_action request d) _ d h refl

  prepare_shaped-HasBasis :
      (m : Option Text) (d : Database)
      → HasBasis d (prepare_shaped digest dumps id_factory request m d).0
  prepare_shaped-HasBasis (some message) d = tt
  prepare_shaped-HasBasis none d = prepare_target-HasBasis _ d refl

  prepare-HasBasis : (d : Database) → HasBasis d (prepare digest dumps id_factory request d).0
  unfolding prepare
  prepare-HasBasis d = prepare_shaped-HasBasis (validate_request_shape request) d

  -- A call that creates a review, with what allows it; the other calls read.
  abbrev pub IsAuthorized : Github → Database → Call → Type 0
  IsAuthorized github d (find_review repository number head marker body) = Unit {0}
  IsAuthorized github d (current_head_sha repository number) = Unit {0}
  IsAuthorized github d (create_review repository number head body) =
      (t : Target) × (select_target request d ≡ some t)
      × (repository ≡ t.repository.full_name)
      × (number ≡ request.pull_request_number)
      × (head ≡ request.head_sha)
      × (body ≡ body_of digest dumps id_factory request t d)
      × IsCurrent request t
      × IsChecked t d
      × ((remote : Text) × (github.on_head ≡ returned remote)
          × (text_eq remote request.head_sha ≡ true))

module _ (digest : Text → Text) (dumps : List (Text × Text) → Text → Text → Text)
    (id_factory : ℕ → Text) (request : PublishRequest) (github : Github) (d : Database)
    (p : Prepared) (open_action : p.remote_id ≡ none)
    (basis : HasBasis digest dumps id_factory request d (ok p)) where
  abbrev Authorized : List Call → Type 0
  Authorized calls = All (IsAuthorized digest dumps id_factory request github d) calls

  committed-Authorized :
      (a : Answer (Unit {0})) (o : Option Database) (w : World)
      → Authorized w.calls
      → Authorized (committed digest dumps id_factory request github a o w).1.calls
  committed-Authorized a none w h = h
  committed-Authorized a (some e) w h = h

  accept_review-Authorized :
      (review : GitHubReview) (created : Bool) (w : World)
      → Authorized w.calls
      → Authorized (accept_review digest dumps id_factory request github p review created w).1.calls
  unfolding accept_review
  accept_review-Authorized review created w h =
      if_lem (λ (s : Answer (Unit {0}) × World). Authorized s.1.calls)
        (not (text_eq review.commit_sha p.head_sha)) _ _ (λ k. h)
        (λ k. committed-Authorized _ _ w h)

  block_creation-Authorized :
      (code message : Text) (w : World)
      → Authorized w.calls
      → Authorized (block_creation digest dumps id_factory request github p code message w).1.calls
  unfolding block_creation
  block_creation-Authorized code message w h = committed-Authorized _ _ w h

  after_create-Authorized :
      (a : Answer GitHubReview) (w : World)
      → Authorized w.calls
      → Authorized (after_create digest dumps id_factory request github p a w).1.calls
  after_create-Authorized (raised e) w h = h
  after_create-Authorized (returned review) w h = accept_review-Authorized review true w h

  create-Authorized :
      (remote : Text) (w : World)
      → p.create_block_code ≡ none
      → github.on_head ≡ returned remote
      → text_eq remote p.head_sha ≡ true
      → Authorized w.calls
      → Authorized (create digest dumps id_factory request github p w).1.calls
  create-Authorized remote w c g e h =
      let (t, s, (repository, number, head, body, current, checked)) = basis in
      after_create-Authorized github.on_create _ (
        All-append (IsAuthorized digest dumps id_factory request github d) w.calls _ h (
          (
            t,
            s,
            repository,
            number,
            head,
            body open_action,
            current open_action c,
            checked,
            (remote, g, ap (text_eq remote) (sym head) ∙ e),
          ),
          tt,
        ))

  after_head-Authorized :
      (a : Answer Text) (w : World)
      → p.create_block_code ≡ none
      → github.on_head ≡ a
      → Authorized w.calls
      → Authorized (after_head digest dumps id_factory request github p a w).1.calls
  after_head-Authorized (raised e) w c g h = h
  after_head-Authorized (returned remote) w c g h =
      if_lem (λ (s : Answer (Unit {0}) × World). Authorized s.1.calls)
        (not (text_eq remote p.head_sha)) _ _ (λ k. block_creation-Authorized _ _ w h)
        (λ k. create-Authorized remote w c g (not-false _ k) h)

  read-Authorized :
      (c : Call) (w : World)
      → IsAuthorized digest dumps id_factory request github d c
      → Authorized w.calls
      → Authorized (w.calls ++ c ∷ [])
  read-Authorized c w a h =
      All-append (IsAuthorized digest dumps id_factory request github d) w.calls _ h (a, tt)

  create_unless-Authorized :
      (o : Option Text) (w : World)
      → p.create_block_code ≡ o
      → Authorized w.calls
      → Authorized (create_unless digest dumps id_factory request github p o w).1.calls
  create_unless-Authorized (some code) w c h = block_creation-Authorized code _ w h
  create_unless-Authorized none w c h =
      after_head-Authorized github.on_head _ c refl (read-Authorized _ w tt h)

  after_find-Authorized :
      (a : Answer (Option GitHubReview)) (w : World)
      → Authorized w.calls
      → Authorized (after_find digest dumps id_factory request github p a w).1.calls
  after_find-Authorized (raised e) w h = h
  after_find-Authorized (returned (some review)) w h = accept_review-Authorized review false w h
  after_find-Authorized (returned none) w h = create_unless-Authorized _ w refl h

  publish-Authorized :
      (e : Database)
      → Authorized
          (publish digest dumps id_factory request github p
            (record { database = e; calls = [] })).1.calls
  unfolding publish
  publish-Authorized e = after_find-Authorized github.on_find _ (
      read-Authorized (find_review p.repository p.pull_request_number p.head_sha p.marker p.body)
        (record { database = e; calls = [] }) tt tt)

  ended-Authorized :
      (x y : Outcome) (o : Option Database) (w : World)
      → Authorized w.calls
      → Authorized (ended digest dumps id_factory request github x y o w).1.calls
  ended-Authorized x y none w h = h
  ended-Authorized x y (some e) w h = h

  handle-Authorized :
      (s : Step digest dumps id_factory request github)
      → Authorized s.1.calls
      → Authorized (handle digest dumps id_factory request github p s).1.calls
  unfolding handle
  handle-Authorized (returned u, w) h = h
  handle-Authorized (raised payload_mismatch, w) h = ended-Authorized _ _ _ w h
  handle-Authorized (raised stale_head, w) h = ended-Authorized _ _ _ w h
  handle-Authorized (raised (application_error message), w) h = h
  handle-Authorized (raised other_error, w) h = ended-Authorized _ _ _ w h

module _ (digest : Text → Text) (dumps : List (Text × Text) → Text → Text → Text)
    (id_factory : ℕ → Text) (request : PublishRequest) (github : Github) (d : Database) where
  publish_unless-Authorized :
      (p : Prepared) (o : Option Text) (e : Database)
      → p.remote_id ≡ o
      → HasBasis digest dumps id_factory request d (ok p)
      → All
          (IsAuthorized digest dumps id_factory request github d)
          (publish_unless digest dumps id_factory request github p o e).1.calls
  publish_unless-Authorized p (some remote) e r h = tt
  publish_unless-Authorized p none e r h =
      handle-Authorized digest dumps id_factory request github d p r h
        (publish digest dumps id_factory request github p (record { database = e; calls = [] }))
        (publish-Authorized digest dumps id_factory request github d p r h e)

  after_prepare-Authorized :
      (r : Result Prepared) (e : Database)
      → HasBasis digest dumps id_factory request d r
      → All
          (IsAuthorized digest dumps id_factory request github d)
          (after_prepare digest dumps id_factory request github r e).1.calls
  after_prepare-Authorized (ok p) e h = publish_unless-Authorized p p.remote_id e refl h
  after_prepare-Authorized (blocked message) e h = tt
  after_prepare-Authorized integrity_error e h = tt

  operate_shaped-Authorized :
      (m : Option Text)
      → All
          (IsAuthorized digest dumps id_factory request github d)
          (operate_shaped digest dumps id_factory request github m d).1.calls
  operate_shaped-Authorized (some message) = tt
  operate_shaped-Authorized none =
      after_prepare-Authorized (prepare digest dumps id_factory request d).0
        (prepare digest dumps id_factory request d).1
        (prepare-HasBasis digest dumps id_factory request d)

-- Each review that the activity creates on GitHub is for the repository and the pull request of the
-- request's run. The run awaits approval, and the commit of the request is that of the pull request in
-- the table and on GitHub. The body is rendered from findings of the run that the request names, as
-- many as it names, each with an approval that the request names and that approves it for this commit;
-- and the body is within the limit.
pub operate-IsAuthorized :
    (digest : Text → Text) (dumps : List (Text × Text) → Text → Text → Text) (id_factory : ℕ → Text)
    (request : PublishRequest) (github : Github) (d : Database)
    → All
        (IsAuthorized digest dumps id_factory request github d)
        (operate digest dumps id_factory request github d).1.calls
unfolding operate
operate-IsAuthorized digest dumps id_factory request github d =
    operate_shaped-Authorized digest dumps id_factory request github d
      (validate_request_shape request)
