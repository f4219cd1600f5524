-- ===== src/Commands/Defs.antt =====
-- The transaction of handleUpdateNodeSystem, and latestAtlasUpdateJobs.
use nginx_atlas.Effects.{
  Env, Error, Result, World, add_audit, conflict, enqueue_job, err, not_found, ok, other_error,
  ◌>>=◌,
}
use nginx_atlas.Jobs.Queries.{has_active_node_job}
use nginx_atlas.Model.{Job, Node, is_active, is_revoked, is_update_atlas, update_system}
use nginx_atlas.Prelude.{
  Bool, Dict, List, Option, Text, [], bytes, false, if◌then◌else◌, insert, lookup, ltb, nat_eq,
  none, not, some, trim_prefix, true, values, ◌&&◌, ◌==◌, ◌||◌, ◌∷◌,
}
use nginx_atlas.Protocol.{system_spec}

-- a < b, on Go strings.
unfoldable pub text_lt : Text → Text → Bool
text_lt [] [] = false
text_lt [] (b ∷ t) = true
text_lt (a ∷ s) [] = false
text_lt (a ∷ s) (b ∷ t) = let rest = text_lt s t in if nat_eq a b then rest else ltb a b

-- The later of two jobs of a node: by their creation, and then by their ids.
unfoldable pub is_later_job : Job → Option Job → Bool
is_later_job job none = true
is_later_job job (some previous) =
    ltb previous.created_at job.created_at
    || (nat_eq job.created_at previous.created_at && text_lt previous.id job.id)

-- The conditions of the update, in their order.
unfoldable pub check_system_update : Text → World → Option Node → Option Error
check_system_update node_id w none = some not_found
check_system_update node_id w (some node) =
    if is_revoked node.status
    then some not_found
    else if not (node.package_manager == bytes "apt")
    then some (other_error (bytes "only apt-based nodes are currently supported"))
    else if has_active_node_job w.jobs node_id update_system
    then some conflict
    else none

module _ (env : Env) where
  -- Whether a job updates its node to the version.
  unfoldable pub updates_to : Text → Job → Bool
  updates_to version job = elim (env.decode_atlas job.payload) [
    | none ↦ false
    | some payload ↦ trim_prefix (bytes "v") payload.expected_version == version
  ]

  -- The latest update of each node to the version, and whether any update is queued or running.
  unfoldable pub latest_updates : Text → List Job → Dict Job → Bool → Dict Job × Bool
  latest_updates version [] latest active = (latest, active)
  latest_updates version (job ∷ rest) latest active =
      if is_update_atlas job.type
      then latest_updates version rest
          (if updates_to version job && is_later_job job (lookup job.node_id latest)
            then insert job.node_id job latest
            else latest)
          (active || is_active job.status)
      else latest_updates version rest latest active

  unfoldable pub latest_atlas_update_jobs : World → Text → Dict Job × Bool
  unfolding latest_updates
  latest_atlas_update_jobs w version = latest_updates version (values w.jobs) [] false

  unfoldable pub queue_system_update : Text → World → Result (Job × World)
  queue_system_update node_id w = do
    sent ←
        enqueue_job env node_id [] update_system
          (system_spec (record { package_manager = bytes "apt" })) w
    ok (
      sent.0,
      add_audit env (bytes "warning") (bytes "node.system-update.queued")
          (bytes "APT 软件包与 Nginx 更新任务已加入队列") (node_id ∷ [] ∷ sent.0.id ∷ []) sent.1,
    )

  unfoldable pub update_node_system : Text → World → Result (Job × World)
  update_node_system node_id w = elim (check_system_update node_id w (lookup node_id w.nodes)) [
    | some e ↦ err e
    | none ↦ queue_system_update node_id w
  ]
