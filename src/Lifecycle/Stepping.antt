-- ===== src/Lifecycle/Stepping.antt =====
-- The steps of the controller that change its state, one after the other, and what they make of
-- the jobs.
use nginx_atlas.Administration.{
  AcmeAccountRequest, DnsAccountRequest, IssueRequest, clear_audit, create_acme_account,
  create_dns_account, create_enrollment, delete_certificates, request_delete_domain, request_issue,
  request_renewal, request_sync, retry_job, update_acme_account, update_dns_account,
}
use nginx_atlas.Agents.{agent_enroll, agent_job_result, agent_poll, fail_dispatch}
use nginx_atlas.Commands.{
  UpdateBatch, rename_node, update_all_nodes_atlas, update_node_atlas, update_node_system,
}
use nginx_atlas.Effects.{Env, World, add_audit, ok}
use nginx_atlas.Lifecycle.Accounts.{
  create_acme_account-Extends, create_dns_account-Extends, update_acme_account-Extends,
  update_dns_account-Extends,
}
use nginx_atlas.Lifecycle.Adds.{Sound}
use nginx_atlas.Lifecycle.Dispatch.{elsewhere-Extends, fail_dispatch-Extends}
use nginx_atlas.Lifecycle.Extends.{
  Distinct, Extends, ExtendsAt-refl, ExtendsAt-trans, KeepsAt-ExtendsAt,
}
use nginx_atlas.Lifecycle.Maintenance.{ExtendsAt-Sound, run_maintenance-Extends}
use nginx_atlas.Lifecycle.Outcomes.{agent_job_result-Extends}
use nginx_atlas.Lifecycle.Polls.{agent_poll-Keeps}
use nginx_atlas.Lifecycle.Records.{
  delete_certificates-Extends, request_delete_domain-Extends, request_sync-Extends,
}
use nginx_atlas.Lifecycle.Renewals.{request_issue-Extends, request_renewal-Extends}
use nginx_atlas.Lifecycle.Requests.{
  agent_enroll-Extends, agent_unregister-Extends, rename_node-Extends, revoke_node-Extends,
  revoke_nodes-Extends, update_node_system-Extends,
}
use nginx_atlas.Lifecycle.Retries.{retry_job-Extends}
use nginx_atlas.Lifecycle.Rollouts.{update_all_nodes_atlas-Extends, update_node_atlas-Extends}
use nginx_atlas.Model.{Certificate, Job, Node, State, Time, running}
use nginx_atlas.Prelude.{
  Bool, Dict, List, Option, Text, arith, le_refl, lookup, some, subst, ℕ, ◌+◌, ◌≡◌, ◌≤◌,
}
use nginx_atlas.Protocol.{JobResultRequest, NodeReport}
use nginx_atlas.Release.{ReleaseBundle}
use nginx_atlas.Removal.{agent_unregister, revoke_node, revoke_nodes}
use nginx_atlas.Scheduler.{Config, run_maintenance}
use nginx_atlas.SecureBox.{Box}
use nginx_atlas.Wire.{Coding}

-- A transaction that was committed. All take their ids and their times from one source, whose
-- reads the state counts. That of failDispatch is one if its job is still there and running; the
-- clearing of jobs is none. The last step is any change that leaves the jobs: other handlers, and
-- another order in which the next transaction ranges over the maps.
pub data Step (to_lower : Text → Text) (decode_hash : Text → Option Text) (env : Env)
    (config : Config) (w w' : World) : Type 0 where
  polls :
      (node_id : Text) (report : Option NodeReport) (now : Time) (handed : Option Job)
      → agent_poll env node_id report now w ≡ ok (w', handed)
      → Step to_lower decode_hash env config w w'
  reports :
      (node_id job_id : Text) (request : JobResultRequest) (prepared : Option Certificate)
      (now : Time)
      → agent_job_result env node_id job_id request prepared now w ≡ ok w'
      → Step to_lower decode_hash env config w w'
  enrolls :
      (order : List Text) (token_hash node_id secret_hash : Text) (report : NodeReport) (now : Time)
      (node : Node)
      → agent_enroll decode_hash env order token_hash node_id secret_hash report now w
        ≡ ok (w', node)
      → Step to_lower decode_hash env config w w'
  unregisters :
      (node_id : Text) (now : Time)
      → agent_unregister env node_id now w ≡ ok w'
      → Step to_lower decode_hash env config w w'
  revokes :
      (node_id : Text) (now : Time)
      → revoke_node env node_id now w ≡ ok w'
      → Step to_lower decode_hash env config w w'
  revokes_all :
      (node_ids : List Text) (now : Time)
      → revoke_nodes env node_ids now w ≡ ok w'
      → Step to_lower decode_hash env config w w'
  renames :
      (node_id name : Text)
      → rename_node env node_id name w ≡ ok w'
      → Step to_lower decode_hash env config w w'
  updates_system :
      (node_id : Text) (job : Job)
      → update_node_system env node_id w ≡ ok (job, w')
      → Step to_lower decode_hash env config w w'
  updates_atlas :
      (release : ReleaseBundle) (node_id : Text) (snapshot : State) (job : Job)
      → update_node_atlas to_lower env release node_id snapshot w ≡ ok (job, w')
      → Step to_lower decode_hash env config w w'
  updates_all :
      (release : ReleaseBundle) (batch : UpdateBatch)
      → update_all_nodes_atlas to_lower env config release w ≡ ok (batch, w')
      → Step to_lower decode_hash env config w w'
  retries :
      (box : Box) (coding : Coding) (job_id : Text) (retried : Job)
      → retry_job box coding env job_id w ≡ ok (retried, w')
      → Step to_lower decode_hash env config w w'
  deletes_domain :
      (domain_id : Text) (waits_for : Bool)
      → request_delete_domain env domain_id w ≡ ok (w', waits_for)
      → Step to_lower decode_hash env config w w'
  deletes_certificates :
      (decode_reference : Text → Option Text) (message : ℕ → Text) (ids : List Text)
      → delete_certificates env decode_reference message ids w ≡ ok w'
      → Step to_lower decode_hash env config w w'
  syncs :
      (certificate_id : Text) (node_ids : List Text) (queued_jobs : List Job)
      → request_sync env certificate_id node_ids w ≡ ok (queued_jobs, w')
      → Step to_lower decode_hash env config w w'
  issues :
      (request : IssueRequest) (job : Job)
      → request_issue env request w ≡ ok (job, w')
      → Step to_lower decode_hash env config w w'
  renews :
      (certificate_id : Text) (job : Job)
      → request_renewal env certificate_id w ≡ ok (job, w')
      → Step to_lower decode_hash env config w w'
  clears_audit : (clear_audit w).0 ≡ w' → Step to_lower decode_hash env config w w'
  creates_enrollment :
      (id name token_hash : Text) (expires_at now : Time)
      → create_enrollment env id name token_hash expires_at now w ≡ w'
      → Step to_lower decode_hash env config w w'
  creates_dns :
      (box : Box) (encode_credentials : Dict Text → Text) (nonce : Option Text)
      (request : DnsAccountRequest)
      → create_dns_account box env encode_credentials nonce request w ≡ ok w'
      → Step to_lower decode_hash env config w w'
  updates_dns :
      (box : Box) (encode_credentials : Dict Text → Text) (nonce : Option Text) (account_id : Text)
      (request : DnsAccountRequest) (now : Time)
      → update_dns_account box env encode_credentials nonce account_id request now w ≡ ok w'
      → Step to_lower decode_hash env config w w'
  creates_acme :
      (box : Box) (encode_credentials : Dict Text → Text) (nonce : Option Text)
      (request : AcmeAccountRequest)
      → create_acme_account box env encode_credentials nonce request w ≡ ok w'
      → Step to_lower decode_hash env config w w'
  updates_acme :
      (box : Box) (encode_credentials : Dict Text → Text) (nonce : Option Text) (account_id : Text)
      (request : AcmeAccountRequest) (now : Time)
      → update_acme_account box env encode_credentials nonce account_id request now w ≡ ok w'
      → Step to_lower decode_hash env config w w'
  maintains :
      (now : Time)
      → run_maintenance env config now w ≡ ok w'
      → Step to_lower decode_hash env config w w'
  fails_dispatch :
      (job current : Job) (message : Text)
      → lookup job.id w.jobs ≡ some current
      → current.status ≡ running
      → fail_dispatch env job message w ≡ w'
      → Step to_lower decode_hash env config w w'
  elsewhere :
      ((k : Text) → lookup k w'.jobs ≡ lookup k w.jobs)
      → w.reads ≤ w'.reads
      → Step to_lower decode_hash env config w w'

-- One after the other.
pub data Steps (to_lower : Text → Text) (decode_hash : Text → Option Text) (env : Env)
    (config : Config) : World → World → Type 0 where
  stop : (w : World) → Steps to_lower decode_hash env config w w
  next :
      (w mid w' : World)
      → Step to_lower decode_hash env config w mid
      → Steps to_lower decode_hash env config mid w'
      → Steps to_lower decode_hash env config w w'

module _ (to_lower : Text → Text) (decode_hash : Text → Option Text) (env : Env) (config : Config)
    (apart : Distinct env) where
  Step-Extends :
      (w w' : World)
      → Sound env w.jobs w.reads
      → Step to_lower decode_hash env config w w'
      → Extends env w w'
  unfolding clear_audit create_enrollment add_audit
  Step-Extends w w' sound (polls node_id report now handed e) =
      KeepsAt-ExtendsAt env (agent_poll-Keeps env node_id report now w (w', handed) sound.keyed e)
  Step-Extends w w' sound (reports node_id job_id request prepared now e) =
      agent_job_result-Extends env apart node_id job_id request prepared now w w' sound e
  Step-Extends w w' sound (enrolls order token_hash node_id secret_hash report now node e) =
      agent_enroll-Extends env decode_hash order token_hash node_id secret_hash report now w w' node
        sound.keyed e
  Step-Extends w w' sound (unregisters node_id now e) =
      agent_unregister-Extends env node_id now w w' sound.keyed e
  Step-Extends w w' sound (revokes node_id now e) =
      revoke_node-Extends env node_id now w w' sound.keyed e
  Step-Extends w w' sound (revokes_all node_ids now e) =
      revoke_nodes-Extends env node_ids now w w' sound.keyed e
  Step-Extends w w' sound (renames node_id name e) =
      rename_node-Extends env node_id name w w' sound.keyed e
  Step-Extends w w' sound (updates_system node_id job e) =
      update_node_system-Extends env node_id w w' job sound e
  Step-Extends w w' sound (updates_atlas release node_id snapshot job e) =
      update_node_atlas-Extends to_lower env release node_id snapshot w w' job sound e
  Step-Extends w w' sound (updates_all release batch e) =
      update_all_nodes_atlas-Extends to_lower env apart config release w w' batch sound e
  Step-Extends w w' sound (retries box coding job_id retried e) =
      retry_job-Extends box coding env job_id w w' retried sound e
  Step-Extends w w' sound (deletes_domain domain_id waits_for e) =
      request_delete_domain-Extends env domain_id w w' waits_for sound e
  Step-Extends w w' sound (deletes_certificates decode_reference message ids e) =
      delete_certificates-Extends env decode_reference message ids w w' sound.keyed e
  Step-Extends w w' sound (syncs certificate_id node_ids queued_jobs e) =
      request_sync-Extends env apart certificate_id node_ids w w' queued_jobs sound e
  Step-Extends w w' sound (issues request job e) =
      request_issue-Extends env request w w' job sound e
  Step-Extends w w' sound (renews certificate_id job e) =
      request_renewal-Extends env certificate_id w w' job sound e
  Step-Extends w w' sound (clears_audit e) =
      subst (Extends env w) e
        (ExtendsAt-refl env w.jobs w.reads w.reads sound.keyed (le_refl w.reads))
  Step-Extends w w' sound (creates_enrollment id name token_hash expires_at now e) =
      subst (Extends env w) e
        (ExtendsAt-refl env w.jobs w.reads (w.reads + 2) sound.keyed (omega arith))
  Step-Extends w w' sound (creates_dns box encode_credentials nonce request e) =
      create_dns_account-Extends box env encode_credentials nonce request w w' sound.keyed e
  Step-Extends w w' sound (updates_dns box encode_credentials nonce account_id request now e) =
      update_dns_account-Extends box env encode_credentials nonce account_id request now w w'
        sound.keyed e
  Step-Extends w w' sound (creates_acme box encode_credentials nonce request e) =
      create_acme_account-Extends box env encode_credentials nonce request w w' sound.keyed e
  Step-Extends w w' sound (updates_acme box encode_credentials nonce account_id request now e) =
      update_acme_account-Extends box env encode_credentials nonce account_id request now w w'
        sound.keyed e
  Step-Extends w w' sound (maintains now e) =
      run_maintenance-Extends env apart config now w w' sound e
  Step-Extends w w' sound (fails_dispatch job current message there h e) =
      fail_dispatch-Extends env job current message w w' sound.keyed there h e
  Step-Extends w w' sound (elsewhere same later) = elsewhere-Extends env w w' sound.keyed same later

  pub Steps-Extends :
      (w w' : World)
      → Sound env w.jobs w.reads
      → Steps to_lower decode_hash env config w w'
      → Extends env w w'
  Steps-Extends w w' sound (stop u) =
      ExtendsAt-refl env w.jobs w.reads w.reads sound.keyed (le_refl w.reads)
  Steps-Extends w w' sound (next u mid v step rest) =
      let one = Step-Extends w mid sound step in
      ExtendsAt-trans one (Steps-Extends mid w' (ExtendsAt-Sound apart sound one) rest)
