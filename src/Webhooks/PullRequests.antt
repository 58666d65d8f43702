-- ===== src/Webhooks/PullRequests.antt =====
-- webhooks/github.py: the receipt of a pull request delivery.
use pr_reliability_platform.Prelude.{
  ℕ, zero, suc, Bool, true, false, Option, none, some, List, [], ◌∷◌, ◌++◌, Text, text_eq, text_lt,
  contains, not, nonempty, ltb, find, is_some, update_where, ◌==◌, ◌&&◌, ◌||◌, if◌then◌else◌,
}
use pr_reliability_platform.Webhooks.Tables.{
  PullRequestAction, PullRequestState, open_state, closed_state, PullRequest, WebhookDelivery,
  Database, is_open, is_synchronize, is_closed, draw,
}

-- `_PullRequestPayload`
pub record PullRequestPayload : Type 0 where
  pub action : PullRequestAction
  pub before : Option Text
  pub after : Option Text
  pub installation_id : ℕ
  pub repository_id : ℕ
  pub full_name : Text
  pub number : ℕ
  pub updated_at : ℕ
  pub base_sha : Text
  pub base_ref : Option Text
  pub head_sha : Text

abbrev pub is_text : Text → Option Text → Bool
is_text s none = false
is_text s (some t) = text_eq t s

-- `validate_synchronize_chain`
unfoldable pub validate_synchronize_chain : PullRequestPayload → Bool
validate_synchronize_chain payload = not (
    is_synchronize payload.action
    && (not (is_some payload.before) || not (is_text payload.head_sha payload.after)))

-- A row of the recursive query: the commit, and the commits on the way to it. The depth is the round.
pub record Link : Type 0 where
  pub sha : Text
  pub path : List Text

abbrev pub follows : Text → PullRequestPayload → Link → WebhookDelivery → Bool
follows owner_id payload link e =
    text_eq e.owner_id owner_id
    && (e.repository_github_id == payload.repository_id
        && (e.pull_request_number == payload.number
            && (is_synchronize e.action
                && (e.pull_request_updated_at == payload.updated_at
                    && is_text link.sha e.before_sha))))

-- One row more for a delivery after the link's commit that comes to a new commit.
abbrev pub extend : Link → Option Text → List Link
extend link none = []
extend link (some sha) =
    if contains link.path sha then [] else record { sha = sha; path = link.path ++ sha ∷ [] } ∷ []

module _ (owner_id : Text) (payload : PullRequestPayload) where
  unfoldable pub links_after : Link → List WebhookDelivery → List Link
  links_after link [] = []
  links_after link (e ∷ deliveries) =
      let rest = links_after link deliveries in
      if follows owner_id payload link e then extend link e.after_sha ++ rest else rest

  unfoldable pub next_links : List Link → List WebhookDelivery → List Link
  next_links [] deliveries = []
  next_links (link ∷ links) deliveries = links_after link deliveries ++ next_links links deliveries

  -- `ORDER BY sha DESC LIMIT 1`
  unfoldable pub greatest_sha : Text → List Link → Text
  greatest_sha best [] = best
  greatest_sha best (link ∷ links) =
      greatest_sha (if text_lt best link.sha then link.sha else best) links

  -- The greatest commit of the deepest round; `chain.depth < 100` bounds the rounds.
  unfoldable pub deepest : ℕ → Text → List Link → List WebhookDelivery → Text
  deepest zero best links deliveries = best
  deepest (suc rounds) best links deliveries =
      let next = next_links links deliveries in
      let rest = deepest rounds (greatest_sha [] next) next deliveries in
      if nonempty next then rest else best

  abbrev pub chain_from : Option Text → List WebhookDelivery → Text
  chain_from none deliveries = payload.head_sha
  chain_from (some after) deliveries =
      deepest 100 after (record { sha = after; path = after ∷ [] } ∷ []) deliveries

  -- `_resolve_head_sha`; the validation gives a synchronization an `after`.
  unfoldable pub resolve_head_sha : List WebhookDelivery → Text
  resolve_head_sha deliveries =
      if is_synchronize payload.action
      then chain_from payload.after deliveries
      else payload.head_sha

  abbrev pub pr_state : PullRequestState
  pr_state = if is_closed payload.action then closed_state else open_state

  abbrev pub is_older : Option ℕ → Bool
  is_older none = true
  is_older (some t) = ltb t payload.updated_at

  abbrev pub is_same_time : Option ℕ → Bool
  is_same_time none = false
  is_same_time (some t) = t == payload.updated_at

  -- The WHERE of the update.
  abbrev pub is_superseded : Text → PullRequest → Bool
  is_superseded head p =
      is_older p.github_updated_at
      || (is_same_time p.github_updated_at && (not (is_open p.state) && is_open pr_state)
          || is_synchronize payload.action
            && (is_same_time p.github_updated_at
                && (is_open p.state && (is_open pr_state && not (text_eq p.head_sha head)))))

  abbrev pub is_pull_request : Text → PullRequest → Bool
  is_pull_request repository p =
      text_eq p.repository_id repository && p.github_number == payload.number

  abbrev pub updated_row : Text → ℕ → Text → PullRequest → PullRequest
  updated_row head received_at delivery_id p = record p {
    base_sha = payload.base_sha;
    head_sha = head;
    state = pr_state;
    github_updated_at = some payload.updated_at;
    github_delivery_received_at = some received_at;
    github_delivery_id = some delivery_id;
  }

  abbrev pub inserted_row : (ℕ → Text) → Text → Text → ℕ → Text → Database → PullRequest
  inserted_row id_factory repository head received_at delivery_id d = record {
    id = d.next_pull_request_id;
    owner_id = owner_id;
    public_id = id_factory d.policy.drawn;
    repository_id = repository;
    github_number = payload.number;
    base_sha = payload.base_sha;
    head_sha = head;
    state = pr_state;
    github_updated_at = some payload.updated_at;
    github_delivery_received_at = some received_at;
    github_delivery_id = some delivery_id;
  }

  -- The row of the pull request before the delivery decides its branch.
  abbrev pub upsert_row :
      (ℕ → Text)
      → Text
      → Text
      → ℕ
      → Text
      → Option PullRequest
      → Database
      → PullRequest × Bool × Database
  upsert_row id_factory repository head received_at delivery_id none d =
      let p = inserted_row id_factory repository head received_at delivery_id d in
      (
        p,
        true,
        record (draw 1 d) {
          pull_requests = d.pull_requests ++ p ∷ [];
          next_pull_request_id = suc d.next_pull_request_id;
        },
      )
  upsert_row id_factory repository head received_at delivery_id (some p) d =
      if is_superseded head p
      then (
        updated_row head received_at delivery_id p,
        true,
        record (draw 1 d) {
          pull_requests =
              update_where (λ q. is_pull_request repository q && is_superseded head q)
                (updated_row head received_at delivery_id) d.pull_requests;
        },
      )
      else (p, false, draw 1 d)

  -- `_upsert_pull_request`: the row, whether the delivery is current, and the tables.
  unfoldable pub upsert_pull_request :
      (ℕ → Text) → Text → Text → ℕ → Text → Database → PullRequest × Bool × Database
  upsert_pull_request id_factory repository head received_at delivery_id d =
      upsert_row id_factory repository head received_at delivery_id
        (find (is_pull_request repository) d.pull_requests) d
