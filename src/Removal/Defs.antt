-- ===== src/Removal/Defs.antt =====
-- The removal of a node, and the requests that remove nodes.
use nginx_atlas.Agents.{note_domain_error, restore_failed_domain_deletion}
use nginx_atlas.Effects.{
  Env, Result, World, add_audit, err, not_found, ok, put_certificate, put_domain, put_job, put_node,
  range,
}
use nginx_atlas.Model.{
  Certificate, Domain, Job, Node, Time, failed, is_active, is_revoked, node_revoked, zero_node,
}
use nginx_atlas.Prelude.{
  Bool, List, Text, [], all, bytes, false, if◌then◌else◌, keys, lookup, none, not, some, value_or,
  ◌&&◌, ◌==◌, ◌∷◌,
}
use nginx_atlas.Reports.{append_status_sample, remove_string}

abbrev pub node_removed_job_error : Text
node_removed_job_error = bytes "node was removed before the task completed"

unfoldable pub revoked_node : Time → Node → Node
revoked_node now node =
    append_status_sample
      (record node {
        status = node_revoked;
        revoked_at = some now;
        secret_hash = [];
        running_job_id = [];
      })
      node_revoked now

-- A domain loses the node: as the one that serves it, and as one that takes its certificate.
unfoldable pub detach_domain : Text → Time → Domain → Domain
detach_domain node_id now found =
    let domain = record found { sync_node_ids = remove_string found.sync_node_ids node_id } in
    if domain.node_id == node_id
    then record domain {
      node_id = [];
      enabled = false;
      deleting = false;
      auto_renew = false;
      last_error = node_removed_job_error;
      updated_at = now;
    }
    else domain

unfoldable pub detach_certificate : Text → Certificate → Certificate
detach_certificate node_id found =
    let certificate = record found {
      deployed_node_ids = remove_string found.deployed_node_ids node_id;
    } in
    if certificate.issuer_node_id == node_id
    then record certificate { issuer_node_id = []; auto_renew = false }
    else certificate

unfoldable pub detach_job : Text → Time → Text → Job → World → World
detach_job node_id now k job w =
    let lost = record job {
      status = failed;
      error = node_removed_job_error;
      finished_at = some now;
    } in
    if job.node_id == node_id && is_active job.status
    then note_domain_error lost now
        (restore_failed_domain_deletion lost lost.error now (put_job k lost w))
    else w

unfoldable pub detach_domains : Text → Time → World → World
detach_domains node_id now w =
    range (λ v. v.domains) (λ k domain. put_domain k (detach_domain node_id now domain))
      (keys w.domains) w

unfoldable pub detach_certificates : Text → World → World
detach_certificates node_id w =
    range (λ v. v.certificates)
      (λ k certificate. put_certificate k (detach_certificate node_id certificate))
      (keys w.certificates) w

unfoldable pub detach_jobs : Text → Time → World → World
detach_jobs node_id now w = range (λ v. v.jobs) (detach_job node_id now) (keys w.jobs) w

unfoldable pub revoke_node_state : Text → Time → World → World
revoke_node_state node_id now w =
    let node = value_or zero_node (lookup node_id w.nodes) in
    detach_jobs node_id now (
      detach_certificates node_id
        (detach_domains node_id now (put_node node_id (revoked_node now node) w)))

-- Whether a node is there and not revoked.
unfoldable pub is_live_node : Text → World → Bool
is_live_node node_id w = elim (lookup node_id w.nodes) [
  | none ↦ false
  | some node ↦ not (is_revoked node.status)
]

module _ (env : Env) where
  unfoldable pub agent_unregister : Text → Time → World → Result World
  agent_unregister node_id now w = elim (lookup node_id w.nodes) [
    | none ↦ err not_found
    | some _ ↦ ok (
        add_audit env (bytes "warning") (bytes "node.unregistered") (bytes "节点代理已自行注销")
          (node_id ∷ []) (revoke_node_state node_id now w))
  ]

  unfoldable pub revoke_noted : Text → Time → World → World
  revoke_noted node_id now w =
      add_audit env (bytes "warning") (bytes "node.revoked") (bytes "节点访问凭据已撤销") (node_id ∷ [])
        (revoke_node_state node_id now w)

  unfoldable pub revoke_node : Text → Time → World → Result World
  unfolding revoke_noted
  revoke_node node_id now w =
      if is_live_node node_id w then ok (revoke_noted node_id now w) else err not_found

  unfoldable pub revoke_each : List Text → Time → World → World
  revoke_each [] now w = w
  revoke_each (node_id ∷ rest) now w = revoke_each rest now (revoke_noted node_id now w)

  -- All of the nodes are looked up before the first is removed.
  unfoldable pub revoke_nodes : List Text → Time → World → Result World
  unfolding revoke_noted revoke_each
  revoke_nodes node_ids now w =
      if all (λ node_id. is_live_node node_id w) node_ids
      then ok (revoke_each node_ids now w)
      else err not_found
