-- ===== src/Model/Jobs.antt =====
-- internal/model/model.go and internal/protocol/protocol.go: jobs, their types and statuses.
use nginx_atlas.Model.Nodes.{Time}
use nginx_atlas.Prelude.{Bool, Option, Text, [], false, none, refl, true, ℕ, ◌≡◌}
use mathlib.Core.Logic.{ite}
use native.Mathlib.Decide.{ℕ_discrete}

pub data JobType : Type 0 where
  apply_domain delete_domain sync_certificate issue_certificate : JobType
  capture_certificate reload_nginx update_atlas update_system : JobType
  other_job_type : Text → JobType

pub JobType-discrete : Discrete JobType
JobType-discrete = hlevel ℕ_discrete

-- ==, on job types.
unfoldable pub is_same_type : JobType → JobType → Bool
is_same_type a b = ite (JobType-discrete a b) true false

pub is_same_type_refl : (t : JobType) → is_same_type t t ≡ true
unfolding is_same_type
is_same_type_refl t = go (JobType-discrete t t)
  where
    go : (d : Dec (t ≡ t)) → ite d true false ≡ true
    go (yes e) = refl
    go (no n) = absurd (n refl)

abbrev pub is_issue : JobType → Bool
is_issue issue_certificate = true
is_issue _ = false

abbrev pub is_sync : JobType → Bool
is_sync sync_certificate = true
is_sync _ = false

abbrev pub is_update_atlas : JobType → Bool
is_update_atlas update_atlas = true
is_update_atlas _ = false

abbrev pub is_capture : JobType → Bool
is_capture capture_certificate = true
is_capture _ = false

abbrev pub is_delete : JobType → Bool
is_delete delete_domain = true
is_delete _ = false

pub data JobStatus : Type 0 where
  queued running succeeded failed : JobStatus
  other_status : Text → JobStatus

abbrev pub is_queued : JobStatus → Bool
is_queued queued = true
is_queued _ = false

abbrev pub is_running : JobStatus → Bool
is_running running = true
is_running _ = false

abbrev pub is_failed : JobStatus → Bool
is_failed failed = true
is_failed _ = false

abbrev pub is_succeeded : JobStatus → Bool
is_succeeded succeeded = true
is_succeeded _ = false

-- Queued or running.
abbrev pub is_active : JobStatus → Bool
is_active queued = true
is_active running = true
is_active _ = false

pub record Job : Type 0 where
  pub id : Text
  pub node_id : Text
  pub domain_id : Text
  pub type : JobType
  pub status : JobStatus
  pub payload : Text
  pub attempts : ℕ
  pub max_attempts : ℕ
  pub error : Text
  pub created_at : Time
  pub queued_at : Option Time
  pub started_at : Option Time
  pub finished_at : Option Time
  pub retry_of_id : Text
  pub retry_job_id : Text
  pub update_accepted_at : Option Time
  pub update_version_seen_at : Option Time
  pub update_last_report_at : Option Time

abbrev pub zero_job : Job
zero_job = record {
  id = [];
  node_id = [];
  domain_id = [];
  type = other_job_type [];
  status = other_status [];
  payload = [];
  attempts = 0;
  max_attempts = 0;
  error = [];
  created_at = 0;
  queued_at = none;
  started_at = none;
  finished_at = none;
  retry_of_id = [];
  retry_job_id = [];
  update_accepted_at = none;
  update_version_seen_at = none;
  update_last_report_at = none;
}
