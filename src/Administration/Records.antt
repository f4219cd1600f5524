-- ===== src/Administration/Records.antt =====
-- The transactions of handleClearAudit, handleCreateEnrollment, handleDeleteCertificates and
-- handleDeleteDomain. json.Unmarshal of the certificate id of a payload is a parameter, and
-- so are the hash of a token and the messages that are formatted with a number.
use nginx_atlas.Effects.{
  Env, Result, World, add_audit, conflict, enqueue_job, err, not_found, ok, put_domain,
  put_enrollment, ◌>>=◌,
}
use nginx_atlas.Jobs.Queries.{domain_is_deleting}
use nginx_atlas.Model.{Certificate, Domain, Job, Time, delete_domain, is_active}
use nginx_atlas.Prelude.{
  Bool, Dict, List, Option, Text, [], all, any, bytes, contains, delete, false, if◌then◌else◌,
  is_some, length, lookup, non_empty, none, not, some, true, values, ℕ, ◌&&◌, ◌+◌, ◌==◌, ◌||◌, ◌∷◌,
}
use nginx_atlas.Protocol.{delete_spec}
use nginx_atlas.Removal.{is_live_node}

-- The number of events that were there is the answer.
unfoldable pub clear_audit : World → World × ℕ
clear_audit w = let s = w.state in (record w { state = record s { audit = [] } }, length w.audit)

unfoldable pub create_enrollment : Env → Text → Text → Text → Time → Time → World → World
create_enrollment env id name token_hash expires_at now w =
    add_audit env (bytes "info") (bytes "node.enrollment.created") (bytes "已生成节点添加命令") [] (
      put_enrollment id
        (record {
          id = id;
          name = name;
          token_hash = token_hash;
          expires_at = expires_at;
          used_at = none;
          created_at = now;
        })
        w)

-- A queued or running job whose payload names the certificate.
unfoldable pub has_active_certificate_reference : (Text → Option Text) → Dict Job → Text → Bool
has_active_certificate_reference decode_reference jobs certificate_id =
    any
      (λ job. is_active job.status && elim (decode_reference job.payload) [
        | none ↦ false
        | some named ↦ named == certificate_id
      ])
      (values jobs)

unfoldable pub delete_all : List Text → Dict Certificate → Dict Certificate
delete_all [] m = m
delete_all (k ∷ ks) m = delete_all ks (delete k m)

unfoldable pub delete_certificates :
    Env → (Text → Option Text) → (ℕ → Text) → List Text → World → Result World
delete_certificates env decode_reference message ids w =
    let s = w.state in
    if not (all (λ k. is_some (lookup k w.certificates)) ids)
    then err not_found
    else if any (λ (domain : Domain). contains domain.certificate_id ids) (values w.domains)
    then err conflict
    else if any (has_active_certificate_reference decode_reference w.jobs) ids
    then err conflict
    else ok (
        add_audit env (bytes "warning") (bytes "certificate.deleted") (message (length ids)) []
          (record w { state = record s { certificates = delete_all ids s.certificates } }))

abbrev pub remove_domain : Text → World → World
remove_domain k w =
    let s = w.state in record w { state = record s { domains = delete k s.domains } }

-- The deletion of a domain that its node serves.
unfoldable pub queue_delete_domain : Env → Domain → World → Result (World × Bool)
queue_delete_domain env domain w = do
  sent ←
      enqueue_job env domain.node_id domain.id delete_domain
        (delete_spec (record {
          domain_id = domain.id;
          domain = domain.name;
          restore_config_path = if domain.taken_over then domain.config_path else [];
        }))
        w
  ok (
    add_audit env (bytes "warning") (bytes "domain.delete.queued") (bytes "域名移除任务已加入队列")
        (domain.node_id ∷ domain.id ∷ sent.0.id ∷ [])
        (put_domain domain.id
          (record domain {
            enabled = false;
            deleting = true;
            last_job_id = sent.0.id;
            updated_at = env.clock sent.1.reads;
          })
          (record sent.1 { reads = sent.1.reads + 1 })),
    true,
  )

unfoldable pub delete_found_domain : Env → Domain → World → Result (World × Bool)
delete_found_domain env domain w =
    if domain.observed_only
    then ok (
      add_audit env (bytes "info") (bytes "domain.observation.removed")
          (bytes "已停止管理节点现有域名；原 Nginx 配置未修改") (domain.node_id ∷ domain.id ∷ [])
          (remove_domain domain.id w),
      false,
    )
    else if not (non_empty domain.node_id) || not (is_live_node domain.node_id w)
    then ok (
      add_audit env (bytes "warning") (bytes "domain.orphan.removed")
          (bytes "已移除失联节点的域名记录；未修改节点上的 Nginx 配置") (domain.node_id ∷ domain.id ∷ [])
          (remove_domain domain.id w),
      false,
    )
    else if domain_is_deleting w.state domain
    then err conflict
    else queue_delete_domain env domain w

-- Whether a job was queued is part of the answer.
unfoldable pub request_delete_domain : Env → Text → World → Result (World × Bool)
request_delete_domain env domain_id w = elim (lookup domain_id w.domains) [
  | none ↦ err not_found
  | some domain ↦ delete_found_domain env domain w
]
