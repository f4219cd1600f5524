-- ===== src/Agents/Dispatch.antt =====
-- The choice of the job that a poll hands out.
use nginx_atlas.Effects.{World}
use nginx_atlas.Jobs.Queries.{awaiting_update_confirmation}
use nginx_atlas.Model.{Job, Time, is_issue, is_queued, is_running, running}
use nginx_atlas.Prelude.{
  Bool, List, Option, Text, [], if◌then◌else◌, keep, leb, ltb, none, not, some, value_or, values,
  ◌&&◌, ◌+◌, ◌==◌, ◌∷◌,
}

-- sort.Slice by CreatedAt, whose order of equal times is that of the range over the map.
unfoldable pub insert_by_created : Job → List Job → List Job
insert_by_created job [] = job ∷ []
insert_by_created job (other ∷ rest) =
    if leb job.created_at other.created_at
    then job ∷ other ∷ rest
    else other ∷ insert_by_created job rest

unfoldable pub sort_by_created : List Job → List Job
unfolding insert_by_created
sort_by_created [] = []
sort_by_created (job ∷ rest) = insert_by_created job (sort_by_created rest)

unfoldable pub find {ℓ} : {A : Type ℓ} → (A → Bool) → List A → Option A
find p [] = none
find p (x ∷ xs) = if p x then some x else find p xs

abbrev pub first {ℓ} : {A : Type ℓ} → List A → Option A
first [] = none
first (x ∷ xs) = some x

-- A job of the node that agents execute.
unfoldable pub is_agent_job_of : Text → Job → Bool
is_agent_job_of node_id job = job.node_id == node_id && not (is_issue job.type)

unfoldable pub awaiting_job : Text → World → Option Job
awaiting_job node_id w =
    find (λ job. job.node_id == node_id && awaiting_update_confirmation job) (values w.jobs)

unfoldable pub oldest_running : Text → World → Option Job
unfolding sort_by_created
oldest_running node_id w = first (
    sort_by_created
      (keep (λ job. is_agent_job_of node_id job && is_running job.status) (values w.jobs)))

unfoldable pub oldest_queued : Text → World → Option Job
unfolding sort_by_created
oldest_queued node_id w = first (
    sort_by_created
      (keep (λ job. is_agent_job_of node_id job && is_queued job.status) (values w.jobs)))

-- A running job that is handed out once more.
unfoldable pub redelivered : Time → Job → Job
redelivered now job = record job {
  attempts = if ltb job.attempts job.max_attempts then job.attempts + 1 else job.attempts;
  started_at = some (value_or now job.started_at);
}

-- A queued job that is handed out for the first time.
unfoldable pub started : Time → Job → Job
started now job = record job {
  status = running;
  attempts = job.attempts + 1;
  started_at = some now;
}
