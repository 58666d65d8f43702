-- ===== src/Starts/Tests.antt =====
-- The start of a run on small tables, and the theorems at a concrete input.
use pr_reliability_platform.Prelude.{
  true, false, none, some, [], ◌∷◌, codes, ◌≡◌, refl, text_eq, All,
}
use pr_reliability_platform.Approvals.Tables.{queued}
use pr_reliability_platform.Repositories.Tables.{active, access_active}
use pr_reliability_platform.Repositories.Store.{admitted_policy, admitted_row, lock_installation}
use pr_reliability_platform.Starts.Tables.{Database, StartRunCommand, command_created}
use pr_reliability_platform.Starts.Dispatch.{
  Pending, next_pending, pending_of, dispatch_pending, start_pending, insert_receipt,
  dispatch_next_command, dispatch_start_run,
}
use pr_reliability_platform.Starts.Admission.{IsAdmitted, dispatch_next_command-IsAdmitted}

abbrev command : StartRunCommand
command = record {
  public_id = codes "C";
  owner_id = codes "O";
  run_id = codes "R";
  head_sha = codes "h";
  generation = 1;
  repository_id = codes "X";
  pull_request_id = codes "P";
  pull_request_number = 4;
  base_sha = codes "b";
  token_budget = 100;
  cost_budget_usd_micros = 50;
  traceparent = none;
}

abbrev queued_run : Database
queued_run = record {
  runs =
      record {
        id = 3;
        owner_id = codes "O";
        public_id = codes "R";
        pull_request_id = 2;
        generation = 1;
        base_branch = none;
        base_sha = codes "b";
        head_sha = codes "h";
        token_budget = 100;
        cost_budget_usd_micros = 50;
        state = queued;
      }
      ∷ [];
  pull_requests =
      record {
        id = 2;
        owner_id = codes "O";
        public_id = codes "P";
        github_number = 4;
        repository_id = codes "X";
      }
      ∷ [];
  events =
      record {
        owner_id = codes "O";
        run_id = 3;
        event_key = codes "C";
        event_data = command_created command;
      }
      ∷ [];
  policy = record {
    installations =
        record {
          owner_id = codes "O";
          installation_id = 7;
          state = active;
          revision = 1;
          last_sync_at = some 1_000;
          last_webhook_at = none;
        }
        ∷ [];
    repositories =
        record {
          public_id = codes "X";
          owner_id = codes "O";
          github_repository_id = 8;
          full_name = codes "o/x";
          installation_id = some 7;
          access_state = access_active;
          default_branch = none;
          enabled = true;
          enabled_branches = [];
          token_budget = 100;
          cost_budget_usd_micros = 60;
          verification_profile = codes "default";
          last_sync_at = none;
          last_webhook_at = none;
        }
        ∷ [];
    events = [];
    now = 2_000;
    drawn = 0;
  };
}

started :
    (dispatch_next_command (λ s. true) (λ e. false) queued_run).starts
    ≡ dispatch_start_run command ∷ []
unfolding dispatch_next_command next_pending pending_of dispatch_pending start_pending
    insert_receipt admitted_policy admitted_row lock_installation text_eq
started = refl

dispatch_next_command-IsAdmitted_example :
    All
      (λ s.
        (p : Pending) × (next_pending (λ e. false) queued_run [] queued_run.events ≡ some p)
        × IsAdmitted queued_run p s)
      (dispatch_next_command (λ s. true) (λ e. false) queued_run).starts
dispatch_next_command-IsAdmitted_example =
    dispatch_next_command-IsAdmitted (λ s. true) (λ e. false) queued_run
