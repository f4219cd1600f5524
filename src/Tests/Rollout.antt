-- ===== src/Tests/Rollout.antt =====
-- The update of all nodes, on three of them.
use nginx_atlas.Commands.{
  IsOrdered, IsUpdateOf, UpdateBatch, any_update, canary_succeeded, candidate, candidate_freshness,
  insert_node, is_failed_update, is_good_update, is_later_job, is_up_to_date,
  latest_atlas_update_jobs, latest_updates, live_nodes, node_less, normalize_node_arch,
  offer_update, offer_updates, queue_atlas_update, sort_nodes, sort_nodes-IsOrdered, take_candidate,
  text_lt, update_all_limited, update_all_nodes_atlas, update_all_nodes_atlas-IsUpdateOf,
  update_all_once, updates_to,
}
use nginx_atlas.Effects.{
  World, add_audit, append_audit, audit_id, conflict, decimal, enqueue_job, err, ok,
}
use nginx_atlas.Jobs.Queries.{has_any_active_node_job}
use nginx_atlas.Model.{succeeded}
use nginx_atlas.Prelude.{
  All, Text, [], bytes, cut, false, if◌then◌else◌, insert, is_empty, keys, length, lookup, map,
  refl, split, strip_prefix, trim_prefix, trim_space, true, values, values_at, ◌==◌, ◌∷◌, ◌≡◌, ◌≤◌,
}
use nginx_atlas.Release.{
  ReleaseBundle, atoi, newer, parse_release_version, version_of_parts, version_part,
  version_update_available,
}
use nginx_atlas.Removal.{is_live_node}
use nginx_atlas.Scheduler.{effective_poll_seconds, is_silent, node_offline_after, node_poll_after}
use nginx_atlas.Tests.{answer, env, node, node_a, now, queued_job, state_with}
use nginx_atlas.Tests.Fleet.{config, to_lower}
use mathlib.Core.List.{Perm}

abbrev node_b : Text
node_b = 110 ∷ 98 ∷ []

abbrev node_c : Text
node_c = 110 ∷ 99 ∷ []

-- Three nodes that may be updated, the first on the host of the controller.
abbrev release : ReleaseBundle
release = record {
  version = 49 ∷ 46 ∷ 51 ∷ [];
  html_url = [];
  published_at = now;
  assets = ([], record { name = []; download_url = []; sha256 = [] }) ∷ [];
}

abbrev fleet : World
fleet = record {
  state = record (state_with (record queued_job { status = succeeded })) {
    nodes =
        (node_a, record node { nginx_healthy = true; controller_installed = true; name = 97 ∷ [] })
        ∷ (node_c, record node { id = node_c; nginx_healthy = true; name = 99 ∷ [] })
        ∷ (node_b, record node { id = node_b; nginx_healthy = true; name = 98 ∷ [] })
        ∷ [];
  };
  reads = 0;
}

abbrev nothing : UpdateBatch
nothing = record { queued_jobs = []; skipped = []; deferred = 0 }

abbrev rolled : UpdateBatch × World
rolled = answer (nothing, fleet) (update_all_nodes_atlas to_lower env config release fleet)

rolled_ok : update_all_nodes_atlas to_lower env config release fleet ≡ ok (rolled.0, rolled.1)
unfolding update_all_nodes_atlas latest_atlas_update_jobs values values_at keys lookup ◌==◌
    any_update offer_updates sort_nodes live_nodes is_live_node insert_node offer_update
    take_candidate candidate is_up_to_date trim_space is_later_job latest_updates text_lt updates_to
    canary_succeeded candidate_freshness is_failed_update is_good_update node_less
    normalize_node_arch queue_atlas_update add_audit append_audit audit_id decimal enqueue_job
    has_any_active_node_job insert bytes cut split strip_prefix trim_prefix atoi newer
    parse_release_version version_of_parts version_part version_update_available
    effective_poll_seconds is_silent node_offline_after node_poll_after
rolled_ok = refl

rolled_some : is_empty rolled.0.queued_jobs ≡ false
unfolding update_all_nodes_atlas latest_atlas_update_jobs values values_at keys lookup ◌==◌
    any_update offer_updates sort_nodes live_nodes is_live_node insert_node offer_update
    take_candidate candidate is_up_to_date trim_space is_later_job latest_updates text_lt updates_to
    canary_succeeded candidate_freshness is_failed_update is_good_update node_less
    normalize_node_arch queue_atlas_update add_audit append_audit audit_id decimal enqueue_job
    has_any_active_node_job insert bytes cut split strip_prefix trim_prefix atoi newer
    parse_release_version version_of_parts version_part version_update_available
    effective_poll_seconds is_silent node_offline_after node_poll_after
rolled_some = refl

-- The canary is the first by name of those without a controller.
rolled_canary : map (λ j. j.node_id) rolled.0.queued_jobs ≡ node_b ∷ []
unfolding update_all_nodes_atlas latest_atlas_update_jobs values values_at keys lookup ◌==◌
    any_update offer_updates sort_nodes live_nodes is_live_node insert_node offer_update
    take_candidate candidate is_up_to_date trim_space is_later_job latest_updates text_lt updates_to
    canary_succeeded candidate_freshness is_failed_update is_good_update node_less
    normalize_node_arch queue_atlas_update add_audit append_audit audit_id decimal enqueue_job
    has_any_active_node_job insert bytes cut split strip_prefix trim_prefix atoi newer
    parse_release_version version_of_parts version_part version_update_available
    effective_poll_seconds is_silent node_offline_after node_poll_after
rolled_canary = refl

update_all_limited_example :
    length rolled.0.queued_jobs
    ≤ (if canary_succeeded to_lower env release.version fleet then 5 else 1)
update_all_limited_example =
    update_all_limited to_lower env config release fleet rolled.1 rolled.0 rolled_ok

update_all_nodes_atlas-IsUpdateOf_example : All (IsUpdateOf release fleet) rolled.0.queued_jobs
update_all_nodes_atlas-IsUpdateOf_example =
    update_all_nodes_atlas-IsUpdateOf to_lower env config release fleet rolled.1 rolled.0 rolled_ok

update_all_once_example : update_all_nodes_atlas to_lower env config release rolled.1 ≡ err conflict
update_all_once_example =
    update_all_once to_lower env env config config release release fleet rolled.1 rolled.0 rolled_ok
      rolled_some

sort_nodes-IsOrdered_example :
    Perm (sort_nodes to_lower fleet (node_a ∷ node_c ∷ node_b ∷ [])) (node_a ∷ node_c ∷ node_b ∷ [])
    × IsOrdered to_lower fleet (sort_nodes to_lower fleet (node_a ∷ node_c ∷ node_b ∷ []))
sort_nodes-IsOrdered_example = sort_nodes-IsOrdered to_lower fleet (node_a ∷ node_c ∷ node_b ∷ [])
