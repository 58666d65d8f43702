-- ===== src/Publish/Once.antt =====
-- activities/publish.py: a review that was published is not published again.
use pr_reliability_platform.Prelude.{
  ℕ, true, Option, none, some, List, [], ◌∷◌, ◌++◌, Text, text_eq, text_eq_refl, ==_refl, not, ◌==◌,
  any, find, update_where, ◌≡◌, refl, ap, ◌∙◌, inl, inr, arith, Bool-cases, if_lem, find-append,
  find-update_where-some, any-find, not-false, text_eq→eq, find-holds, >>=-eq-some, ◌+◌, if_some,
}
use pr_reliability_platform.Workflow.Types.{PublishRequest}
use pr_reliability_platform.Publish.Review.{validate_request_shape}
use pr_reliability_platform.Publish.Tables.{
  Action, publishing, Database, RunEvent, insert_event, has_idempotency_key, has_event_key,
  is_named_run, Run, is_pull_request, is_repository,
}
use pr_reliability_platform.Publish.Prepare.{
  Prepared, Target, Result, ok, blocked, integrity_error, prepare, select_target, existing_action,
  prepare_error, prepare_checked, prepare_target, insert_action, resume_action, is_published,
  remote_of, resume_with, block_code, violates, new_action, fingerprint_of, prepared_of,
  identity_error, is_action, started_event, prepare_shaped, first_error,
}
use pr_reliability_platform.Publish.Operation.{
  is_payload_of, GitHubReview, published_row, is_run_of,
}

-- The action of the request's key, published under a remote id of which this holds.
abbrev pub IsDone : (Text → Type 0) → PublishRequest → Database → Type 0
IsDone R request d =
    (a : Action) × (existing_action request d ≡ some a)
    × (is_published a.status ≡ true)
    × ((id : Text) × (a.remote_id ≡ some id) × R id)

-- The action of the request's key is published under this remote id.
abbrev pub IsStored : PublishRequest → Database → Text → Type 0
IsStored request d id = IsDone (λ stored. stored ≡ id) request d

-- The action of the request's key, which the preparation is about.
abbrev pub Claimed : PublishRequest → Prepared → Database → Type 0
Claimed request p d =
    (a : Action) × (existing_action request d ≡ some a) × (is_payload_of request d p a ≡ true)

insert_event-existing :
    (request : PublishRequest) (e : RunEvent) (d : Database)
    → existing_action request (insert_event e d) ≡ existing_action request d
unfolding insert_event
insert_event-existing request e d =
    elim (Bool-cases (any (has_event_key e.run_id e.event_key) d.events)) [
      | inl h ↦ simp h
      | inr h ↦ simp h
    ]

pub IsDone-insert_event :
    (R : Text → Type 0) (request : PublishRequest) (e : RunEvent) (d : Database)
    → IsDone R request d
    → IsDone R request (insert_event e d)
IsDone-insert_event R request e d (a, h, k, r) = (a, insert_event-existing request e d ∙ h, k, r)

pub published-IsDone :
    (R : Text → Type 0) (request : PublishRequest) (p : Prepared) (review : GitHubReview)
    (d : Database)
    → R review.remote_id
    → Claimed request p d
    → IsDone R request (record d {
      actions = update_where (is_payload_of request d p) (published_row review) d.actions;
    })
published-IsDone R request p review d remote (a, e, h) = (
  published_row review a,
  find-update_where-some (has_idempotency_key request.owner_id request.idempotency_key)
        (is_payload_of request d p) (published_row review) d.actions a
        (λ x.
          if_lem
            (λ y.
              has_idempotency_key request.owner_id request.idempotency_key y
              ≡ has_idempotency_key request.owner_id request.idempotency_key x)
            (is_payload_of request d p x) _ _ (λ k. refl) (λ k. refl))
        e
      ∙ simp h,
  refl,
  (review.remote_id, refl, remote),
)

-- What holds after a preparation that returns: the action is claimed, or it was published before and
-- the tables are the same.
abbrev pub Ready : PublishRequest → Database → Option Text → Prepared → Database → Type 0
Ready request before none p d = Claimed request p d
Ready request before (some remote) p d = IsStored request before remote × (d ≡ before)

abbrev pub IsReady : PublishRequest → Database → Result Prepared × Database → Type 0
IsReady request before (ok p, d) = Ready request before p.remote_id p d
IsReady request before (blocked message, d) = Unit {0}
IsReady request before (integrity_error, d) = Unit {0}

target-run :
    (request : PublishRequest) (d : Database) (t : Target)
    → select_target request d ≡ some t
    → find (is_named_run request.owner_id request.run_id) d.runs ≡ some t.run
unfolding select_target
target-run request d t h =
    let (run, e, k) =
      >>=-eq-some (find (is_named_run request.owner_id request.run_id) d.runs) _ h in
    let (pull_request, e', k') =
      >>=-eq-some (find (is_pull_request run.owner_id run.pull_request_id) d.pull_requests) _ k in
    let (repository, e'', k'') =
      >>=-eq-some (find (is_repository run.owner_id pull_request.repository_id) d.repositories) _
        k' in
    e ∙ ap (λ x. some x.run) (if_some _ _ t k'').1

named-is_run_of :
    (request : PublishRequest) (a : Action) (r : Run)
    → is_named_run request.owner_id request.run_id r ≡ true
    → (a.run_id == r.id) ≡ true
    → text_eq a.owner_id request.owner_id ≡ true
    → is_run_of request a r ≡ true
named-is_run_of request a r h e o = let k = text_eq→eq a.owner_id request.owner_id o in ground arith

same_commit :
    (request : PublishRequest) (t : Target) (a : Action)
    → identity_error request t (some a) ≡ none
    → text_eq a.target_sha request.head_sha ≡ true
same_commit request t a h = ground arith

same_run :
    (request : PublishRequest) (t : Target) (a : Action)
    → identity_error request t (some a) ≡ none
    → (a.run_id == t.run.id) ≡ true
same_run request t a h = ground arith

key_owner :
    (request : PublishRequest) (a : Action)
    → has_idempotency_key request.owner_id request.idempotency_key a ≡ true
    → text_eq a.owner_id request.owner_id ≡ true
key_owner request a h = ground arith

module _ (digest : Text → Text) (dumps : List (Text × Text) → Text → Text → Text)
    (id_factory : ℕ → Text) (request : PublishRequest) where
  abbrev prepared_for : Target → Database → Text → Prepared
  prepared_for t d action_id = prepared_of digest dumps id_factory request t d action_id

  -- The run of the target is a run of the action.
  target-is_run_of :
      (d : Database) (t : Target) (a : Action)
      → select_target request d ≡ some t
      → (a.run_id == t.run.id) ≡ true
      → text_eq a.owner_id request.owner_id ≡ true
      → any (is_run_of request a) d.runs ≡ true
  target-is_run_of d t a h e o =
      any-find (is_named_run request.owner_id request.run_id) (is_run_of request a) d.runs t.run
        (target-run request d t h)
        (named-is_run_of request a t.run (find-holds _ d.runs t.run (target-run request d t h)) e o)

  fresh_payload :
      (t : Target) (d : Database)
      → select_target request d ≡ some t
      → is_payload_of request
          (record d {
            actions = d.actions ++ new_action digest dumps id_factory request t d ∷ [];
            events = d.events ++ started_event digest dumps id_factory request t d ∷ [];
            drawn = d.drawn + 2;
          })
          (prepared_for t d (id_factory d.drawn))
          (new_action digest dumps id_factory request t d)
        ≡ true
  fresh_payload t d h = simp (
    text_eq_refl request.owner_id,
    text_eq_refl (id_factory d.drawn),
    text_eq_refl request.head_sha,
    text_eq_refl (fingerprint_of digest dumps id_factory request t d),
    target-is_run_of d t (new_action digest dumps id_factory request t d) h (==_refl t.run.id)
        (text_eq_refl request.owner_id),
  )

  resumed_payload :
      (t : Target) (a : Action) (d : Database) (code : Option Text)
      → select_target request d ≡ some t
      → has_idempotency_key request.owner_id request.idempotency_key a ≡ true
      → identity_error request t (some a) ≡ none
      → text_eq a.payload_fingerprint (fingerprint_of digest dumps id_factory request t d) ≡ true
      → is_payload_of request d
          (record (prepared_for t d a.public_id) { create_block_code = code })
          a
        ≡ true
  resumed_payload t a d code h k i f =
      let run = target-is_run_of d t a h (same_run request t a i) (key_owner request a k) in
      simp (key_owner request a k, text_eq_refl a.public_id, run, same_commit request t a i, f)

  insert_action-IsReady :
      (t : Target) (d : Database)
      → select_target request d ≡ some t
      → existing_action request d ≡ none
      → IsReady request d (insert_action digest dumps id_factory request t d)
  unfolding insert_action
  insert_action-IsReady t d h e =
      let a = new_action digest dumps id_factory request t d in
      if_lem (IsReady request d) (violates digest dumps id_factory request t d) _ _ (λ k. tt)
        (λ k. (
          a,
          find-append (has_idempotency_key request.owner_id request.idempotency_key) d.actions a e
              (simp (text_eq_refl request.owner_id, text_eq_refl request.idempotency_key)),
          fresh_payload t d h,
        ))

  remote_of-IsReady :
      (t : Target) (a : Action) (d : Database)
      → existing_action request d ≡ some a
      → is_published a.status ≡ true
      → (o : Option Text) → a.remote_id ≡ o
      → IsReady request d (remote_of digest dumps id_factory request t a d o, d)
  remote_of-IsReady t a d e k none r = tt
  remote_of-IsReady t a d e k (some remote) r = ((a, e, k, (remote, r, refl)), refl)

  resume_with-IsReady :
      (t : Target) (a : Action) (d : Database)
      → select_target request d ≡ some t
      → existing_action request d ≡ some a
      → identity_error request t (some a) ≡ none
      → text_eq a.payload_fingerprint (fingerprint_of digest dumps id_factory request t d) ≡ true
      → (code : Option Text)
      → IsReady request d (resume_with digest dumps id_factory request t a d code)
  resume_with-IsReady t a d h e i f (some code) =
      (a, e, resumed_payload t a d (some code) h (find-holds _ d.actions a e) i f)
  resume_with-IsReady t a d h e i f none =
      let k =
        find-holds (has_idempotency_key request.owner_id request.idempotency_key) d.actions a e in
      let own : is_action request a.public_id a ≡ true =
        simp (key_owner request a k, text_eq_refl a.public_id) in
      (
        record a { status = publishing },
        find-update_where-some (has_idempotency_key request.owner_id request.idempotency_key)
              (is_action request a.public_id) (λ b. record b { status = publishing }) d.actions a
              (λ x.
                if_lem
                  (λ y.
                    has_idempotency_key request.owner_id request.idempotency_key y
                    ≡ has_idempotency_key request.owner_id request.idempotency_key x)
                  (is_action request a.public_id x) _ _ (λ _. refl) (λ _. refl))
              e
            ∙ simp own,
        resumed_payload t a d none h k i f,
      )

  resume_action-IsReady :
      (t : Target) (a : Action) (d : Database)
      → select_target request d ≡ some t
      → existing_action request d ≡ some a
      → identity_error request t (some a) ≡ none
      → IsReady request d (resume_action digest dumps id_factory request t a d)
  unfolding resume_action
  resume_action-IsReady t a d h e i =
      if_lem (IsReady request d)
        (not (text_eq a.payload_fingerprint (fingerprint_of digest dumps id_factory request t d))) _
        _ (λ k. tt)
        (λ f.
          if_lem (IsReady request d) (is_published a.status) _ _
            (λ k. remote_of-IsReady t a d e k a.remote_id refl)
            (λ k. resume_with-IsReady t a d h e i (not-false _ f) (block_code request t)))

  prepare_checked-IsReady :
      (t : Target) (d : Database) (o : Option Action) (m : Option Text)
      → select_target request d ≡ some t
      → existing_action request d ≡ o
      → prepare_error digest dumps id_factory request t o d ≡ m
      → IsReady request d (prepare_checked digest dumps id_factory request t o m d)
  unfolding prepare_error
  prepare_checked-IsReady t d o (some message) h e m = tt
  prepare_checked-IsReady t d none none h e m = insert_action-IsReady t d h e
  prepare_checked-IsReady t d (some a) none h e m =
      resume_action-IsReady t a d h e (first_error (identity_error request t (some a)) _ m)

  prepare_target-IsReady :
      (o : Option Target) (d : Database)
      → select_target request d ≡ o
      → IsReady request d (prepare_target digest dumps id_factory request o d)
  prepare_target-IsReady none d h = tt
  prepare_target-IsReady (some t) d h =
      prepare_checked-IsReady t d (existing_action request d) _ h refl refl

  prepare_shaped-IsReady :
      (m : Option Text) (d : Database)
      → IsReady request d (prepare_shaped digest dumps id_factory request m d)
  prepare_shaped-IsReady (some message) d = tt
  prepare_shaped-IsReady none d = prepare_target-IsReady (select_target request d) d refl

  pub prepare-IsReady :
      (d : Database) → IsReady request d (prepare digest dumps id_factory request d)
  unfolding prepare
  prepare-IsReady d = prepare_shaped-IsReady (validate_request_shape request) d
