-- ===== src/Lib.antt =====
-- PR reliability platform: the review of a GitHub pull request by one agent, with human approval
-- before any output is published.
--
-- The parts and how they interact. Signed GitHub webhooks and a reconciliation keep the tables of
-- installations and repositories (apps/api/src/pr_reliability_api/repositories); the policy that they
-- admit says which reviews may start. A review is one Temporal workflow
-- (workers/src/pr_reliability_workers/workflows/pull_request_review.py), which runs the stages of a
-- run as activities, waits for a signal of a human, and publishes. One of its activities selects the
-- text that the agent sees, within a budget of tokens (workers/.../context/selector.py). The findings
-- stand in the approval inbox (apps/api/.../approvals/inbox.py), where a reviewer decides on each;
-- the dispatcher (workers/.../dispatch.py) turns the decisions of a run into one signal to its
-- workflow. It also starts the workflow of a new run, or signals it to the one that is active for the
-- pull request.
--
-- Where each part is modelled:
--   Workflow      pull_request_review.py and types.py. Workflow/Machine is the state of the workflow
--                 object with its signal handlers, Workflow/Activities the methods that schedule
--                 activities, Workflow/Run the method run and the query; both are programs of the
--                 state monad of Workflow/Coroutine. The names are those of the methods.
--   Context       selector.py and models.py: Context/Paths is _normalize_path, Context/Prefix the
--                 binary search of _largest_prefix, Context/Selector select_context;
--                 Context/Dependencies is python_dependencies.py.
--   Repositories  repositories/store.py and lifecycle.py, on the tables of Repositories/Tables.
--   Approvals     approvals/inbox.py (Approvals/Inbox) and dispatch_next_approval of dispatch.py
--                 (Approvals/Dispatch), on the tables of Approvals/Tables; Approvals/States is the
--                 state machine of packages/contracts/.../runs.py. The signal that is sent is
--                 the ApprovalSignal that the workflow receives.
--   Starts        dispatch_next_command of dispatch.py, on the tables of Starts/Tables and, for the
--                 policy, those of Repositories. It sends the input and the SupersedeSignal that the
--                 workflow receives.
--   Publish       activities/publish.py, the activity that creates the review on GitHub, on the tables
--                 of Publish/Tables: Publish/Prepare is the transaction of _prepare, Publish/Operation
--                 what follows it, as a program that calls the client of GitHub.
--   Webhooks      webhooks/github.py and webhooks/checks.py of the API: Webhooks/Route is the endpoint,
--                 Webhooks/Receive a delivery of a pull request with Webhooks/PullRequests for its row
--                 and Webhooks/Runs for its run, Webhooks/Checks a request to run a check again. The
--                 third kind of delivery is that of Repositories. The runs and commands that they
--                 insert are the rows that Starts reads.
--   Identifiers   identifiers.py of the API.
--   Prelude       tests on native numbers, lists as tables, and texts as lists of code points.
--
-- Temporal is an environment that gives the workflow, for each activity and each wait, a list of
-- turns: the batches of signals that come in before the activity ends or the timer fires, and how it
-- ends. The theorems hold for every environment. A cancellation of the workflow execution itself by
-- the server, the retries within an activity's options and the timers' values are not modelled.
--
-- A table is the list of its rows in the order of their ids, an UPDATE maps the rows that its WHERE
-- selects, and ON CONFLICT is a test for the key. A transaction runs alone: the advisory locks and
-- the row locks of the source are what makes this so, and rows that another transaction has locked
-- are given by a parameter where the source skips them. Times are microseconds.
--
-- Code outside of this repository is a parameter: json.dumps, fnmatch.fnmatchcase and the token
-- counter of the caller in Context, the elapsed time in Workflow, SHA-256, whether
-- Temporal accepts a signal, the answers of the client of GitHub in Publish, and, in Webhooks,
-- HMAC-SHA256 and the fields that the models of pydantic read from a body. So is ast.parse with
-- ast.walk, which gives the imports of a file, and the factory of ULIDs that the source takes as an
-- argument; the one that it is given is in Identifiers.
--
-- The client of GitHub answers with any review: the form of its id and its commit, which GitHubReview
-- asks for in `__post_init__`, is left out, so the theorems hold for more answers than there are.
--
-- Fuel: the binary search runs on fuel, one more than the length of the text, and gives `none` when
-- the fuel is used up; each of its rounds shortens the interval, so that it never is. The chain of deliveries is followed for 100
-- rounds, which is the bound of the query; no other loop needs fuel.
--
-- Not modelled: the HTTP layer and the sessions of the API, the dashboard, the activities that call
-- Docker and the model provider, and those of check runs on GitHub, the stores of evidence and of
-- operations, the evaluation of the agent, the web pages, and the deployment. Columns that no modelled
-- query reads (created_at, updated_at, last_review_run_at, a run's verification_profile) are left out.
pub mod Prelude
pub mod Approvals
pub mod Context
pub mod Publish
pub mod Repositories
pub mod Starts
pub mod Webhooks
pub mod Identifiers
pub mod Workflow
