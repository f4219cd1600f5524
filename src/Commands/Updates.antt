-- ===== src/Commands/Updates.antt =====
-- The updates of the agents: handleUpdateNodeAtlas and handleUpdateAllNodesAtlas, with the
-- transaction of handleRenameNode. strings.ToLower is a parameter; the release is what
-- fetchLatestRelease answered. A request for all nodes reads the clock once per node.
use nginx_atlas.Commands.Defs.{latest_atlas_update_jobs, text_lt}
use nginx_atlas.Effects.{
  Env, Result, World, add_audit, conflict, enqueue_job, err, not_found, ok, other_error, put_node,
  update_batch_failed, ◌>>=◌,
}
use nginx_atlas.Jobs.Queries.{has_active_node_job, has_any_active_node_job}
use nginx_atlas.Model.{
  Job, Node, State, Time, is_failed, is_online, is_revoked, is_succeeded, second, update_atlas,
  zero_node,
}
use nginx_atlas.Prelude.{
  Bool, Dict, List, Text, [], bytes, false, if◌then◌else◌, keep, keys, leb, length, lookup, ltb,
  non_empty, none, not, some, trim_space, value_or, ℕ, ◌&&◌, ◌*◌, ◌++◌, ◌+◌, ◌==◌, ◌||◌, ◌∷◌,
}
use nginx_atlas.Protocol.{atlas_spec}
use nginx_atlas.Release.{ReleaseAsset, ReleaseBundle, version_update_available}
use nginx_atlas.Removal.{is_live_node}
use nginx_atlas.Scheduler.{Config, is_silent, node_offline_after}

unfoldable pub rename_node : Env → Text → Text → World → Result World
rename_node env node_id name w = elim (lookup node_id w.nodes) [
  | none ↦ err not_found
  | some node ↦ ok (
      add_audit env (bytes "info") (bytes "node.renamed") (bytes "节点名称已更新") (node.id ∷ [])
        (put_node node.id (record node { name = trim_space name }) w))
]

-- The node runs the version, or a later one.
unfoldable pub is_up_to_date : Text → Node → Bool
is_up_to_date version node =
    non_empty (trim_space node.agent_version)
    && not (node.agent_version == bytes "dev")
    && not (version_update_available node.agent_version version)

abbrev pub minimum_update_candidate_freshness : ℕ
minimum_update_candidate_freshness = 90 * second

unfoldable pub candidate_freshness : Config → State → ℕ
candidate_freshness config state =
    let wanted = 3 * config.poll_after in
    let least =
      if ltb wanted minimum_update_candidate_freshness
      then minimum_update_candidate_freshness
      else wanted in
    let offline_after = node_offline_after config state in
    if ltb offline_after least then offline_after else least

pub record SkippedNodeUpdate : Type 0 where
  pub node_id : Text
  pub name : Text
  pub reason : Text

-- What the request has gathered so far: jobs, skipped nodes, and how many nodes have to wait.
pub record UpdateBatch : Type 0 where
  pub queued_jobs : List Job
  pub skipped : List SkippedNodeUpdate
  pub deferred : ℕ

-- A node is skipped for a reason, or it may take an asset.
pub data Candidate : Type 0 where
  skips : Text → Candidate
  takes : ReleaseAsset → Candidate

-- A job in the map of the latest updates that did not bring its node to the version.
unfoldable pub is_failed_update : World → Text → Text → Job → Bool
is_failed_update w version node_id job = elim (lookup node_id w.nodes) [
  | none ↦ false
  | some node ↦
      not (is_revoked node.status) && is_failed job.status && not (node.agent_version == version)
]

unfoldable pub is_good_update : World → Text → Text → Job → Bool
is_good_update w version node_id job = elim (lookup node_id w.nodes) [
  | none ↦ false
  | some node ↦
      not (is_revoked node.status) && is_succeeded job.status && node.agent_version == version
]

unfoldable pub any_update : (Text → Job → Bool) → Dict Job → Bool
any_update test [] = false
any_update test ((node_id, job) ∷ rest) = test node_id job || any_update test rest

-- The nodes that are not revoked.
unfoldable pub live_nodes : World → List Text
live_nodes w = keep (λ node_id. is_live_node node_id w) (keys w.nodes)

module _ (to_lower : Text → Text) where
  unfoldable pub normalize_node_arch : Text → Text
  normalize_node_arch value =
      let lower = to_lower (trim_space value) in
      if lower == bytes "amd64" || lower == bytes "x86_64"
      then bytes "amd64"
      else if lower == bytes "arm64" || lower == bytes "aarch64"
      then bytes "arm64"
      else lower

  -- The nodes without a controller come before those with one, and then by their names.
  unfoldable pub node_less : World → Text → Text → Bool
  node_less w a b =
      let left = value_or zero_node (lookup a w.nodes) in
      let right = value_or zero_node (lookup b w.nodes) in
      let by_name = text_lt (to_lower left.name) (to_lower right.name) in
      if left.controller_installed
      then right.controller_installed && by_name
      else right.controller_installed || by_name

  unfoldable pub insert_node : World → Text → List Text → List Text
  insert_node w a [] = a ∷ []
  insert_node w a (b ∷ rest) =
      let later = insert_node w a rest in if node_less w b a then b ∷ later else a ∷ b ∷ rest

  unfoldable pub sort_nodes : World → List Text → List Text
  sort_nodes w [] = []
  sort_nodes w (a ∷ rest) = insert_node w a (sort_nodes w rest)

  module _ (env : Env) where
    unfoldable pub queue_atlas_update :
        ReleaseBundle → ReleaseAsset → Text → World → Result (Job × World)
    queue_atlas_update release asset node_id w = do
      sent ←
          enqueue_job env node_id [] update_atlas
            (atlas_spec (record {
              download_url = asset.download_url;
              sha256 = asset.sha256;
              expected_version = release.version;
            }))
            w
      ok (
        sent.0,
        add_audit env (bytes "info") (bytes "node.atlas-update.queued")
            (bytes "Nginx Atlas 更新任务已加入队列") (node_id ∷ [] ∷ sent.0.id ∷ []) sent.1,
      )

    -- The transaction of handleUpdateNodeAtlas.
    unfoldable pub commit_node_atlas :
        ReleaseBundle → ReleaseAsset → Text → World → Result (Job × World)
    commit_node_atlas release asset node_id w =
        if not (is_live_node node_id w)
        then err not_found
        else if has_active_node_job w.jobs node_id update_atlas
        then err conflict
        else queue_atlas_update release asset node_id w

    -- The handler looks at a snapshot first.
    unfoldable pub update_node_atlas : ReleaseBundle → Text → State → World → Result (Job × World)
    update_node_atlas release node_id snapshot w = elim (lookup node_id snapshot.nodes) [
      | none ↦ err not_found
      | some node ↦
          if is_revoked node.status
          then err not_found
          else if is_up_to_date release.version node
          then err (other_error (bytes "already_up_to_date"))
          else elim (lookup (normalize_node_arch node.arch) release.assets) [
            | none ↦ err (other_error (bytes "unsupported_arch"))
            | some asset ↦ commit_node_atlas release asset node_id w
          ]
    ]

    -- Why a node is skipped, in the order of the tests.
    unfoldable pub candidate : ReleaseBundle → ℕ → Time → Text → Node → World → Candidate
    candidate release freshness now node_id node w =
        if is_up_to_date release.version node
        then skips (bytes "current")
        else if not (is_online node.status) || is_silent freshness now node
        then skips (bytes "offline")
        else if not node.nginx_healthy
        then skips (bytes "unhealthy")
        else elim (lookup (normalize_node_arch node.arch) release.assets) [
          | none ↦ skips (bytes "unsupported_arch")
          | some asset ↦
              if has_any_active_node_job w.jobs node_id then skips (bytes "busy") else takes asset
        ]

    unfoldable pub take_candidate :
        ReleaseBundle
        → ℕ
        → Text
        → Node
        → UpdateBatch
        → World
        → Candidate
        → Result (UpdateBatch × World)
    take_candidate release limit node_id node batch w (skips reason) = ok (
      record batch {
        skipped =
            batch.skipped ++ (record { node_id = node_id; name = node.name; reason = reason }) ∷ [];
      },
      w,
    )
    take_candidate release limit node_id node batch w (takes asset) =
        if leb limit (length batch.queued_jobs)
        then ok (record batch { deferred = batch.deferred + 1 }, w)
        else do
          sent ← queue_atlas_update release asset node_id w
          ok (record batch { queued_jobs = batch.queued_jobs ++ sent.0 ∷ [] }, sent.1)

    -- The body of the loop over the nodes.
    unfoldable pub offer_update :
        ReleaseBundle → ℕ → ℕ → Text → UpdateBatch × World → Result (UpdateBatch × World)
    offer_update release freshness limit node_id (batch, w) =
        let node = value_or zero_node (lookup node_id w.nodes) in
        take_candidate release limit node_id node batch (record w { reads = w.reads + 1 })
          (candidate release freshness (env.clock w.reads) node_id node w)

    unfoldable pub offer_updates :
        ReleaseBundle → ℕ → ℕ → List Text → UpdateBatch × World → Result (UpdateBatch × World)
    offer_updates release freshness limit [] p = ok p
    offer_updates release freshness limit (node_id ∷ rest) p =
        offer_update release freshness limit node_id p
        >>= offer_updates release freshness limit rest

    unfoldable pub canary_succeeded : Text → World → Bool
    canary_succeeded version w =
        any_update (is_good_update w version) (latest_atlas_update_jobs env w version).0

    unfoldable pub update_all_nodes_atlas :
        Config → ReleaseBundle → World → Result (UpdateBatch × World)
    update_all_nodes_atlas config release w =
        let (latest, active) = latest_atlas_update_jobs env w release.version in
        if active
        then err conflict
        else if any_update (is_failed_update w release.version) latest
        then err update_batch_failed
        else offer_updates release (candidate_freshness config w.state)
            (if canary_succeeded release.version w then 5 else 1) (sort_nodes w (live_nodes w))
            (record { queued_jobs = []; skipped = []; deferred = 0 }, w)
