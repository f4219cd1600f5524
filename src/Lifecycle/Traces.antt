-- ===== src/Lifecycle/Traces.antt =====
-- The jobs under any sequence of committed steps.
use nginx_atlas.Agents.{agent_job_result}
use nginx_atlas.Effects.{Env, World, ok}
use nginx_atlas.Lifecycle.Adds.{Sound}
use nginx_atlas.Lifecycle.Advance.{Evolves}
use nginx_atlas.Lifecycle.Extends.{Distinct}
use nginx_atlas.Lifecycle.Maintenance.{ExtendsAt-Sound}
use nginx_atlas.Lifecycle.Outcomes.{agent_job_result-Extends}
use nginx_atlas.Lifecycle.Results.{result_succeeded}
use nginx_atlas.Lifecycle.Stepping.{Steps, Steps-Extends}
use nginx_atlas.Model.{Certificate, Job, Time, is_update_atlas, succeeded}
use nginx_atlas.Prelude.{Option, Text, [], false, lookup, none, refl, some, subst, true, ◌≡◌}
use nginx_atlas.Protocol.{JobResultRequest}
use nginx_atlas.Scheduler.{Config}

-- If ids are never answered twice, every job stands under its id, and no id to come is in use: over
-- any sequence of committed steps no job is lost, each keeps its id, node, domain, type, payload and
-- budget of attempts, a job that is neither queued nor running keeps its status, and the attempts
-- do not fall. A step is a poll, a result, an enrollment, a removal or renaming of nodes, an update
-- of the system or of agents, a retry, a removal of a domain or of certificates, a sync, issue or
-- renewal of a certificate, a new enrollment, a new or changed account, the clearing of the
-- audit, the maintenance, a dispatch that failed while its job was there and running, or any change
-- that leaves the jobs as they were; the clearing of failed jobs is none.
pub Steps-Evolves :
    (to_lower : Text → Text) (decode_hash : Text → Option Text) (env : Env) (config : Config)
    (w w' : World)
    → Distinct env
    → Sound env w.jobs w.reads
    → Steps to_lower decode_hash env config w w'
    → (k : Text) → Evolves (lookup k w.jobs) (lookup k w'.jobs)
Steps-Evolves to_lower decode_hash env config w w' apart sound steps =
    (Steps-Extends to_lower decode_hash env config apart w w' sound steps).evolves

-- If ids are never answered twice, every job stands under its id, and no id to come is in use: after
-- the result of a job was taken as a success, other than that of an update of the agent, the job is
-- there, has succeeded and has its payload in every state that a sequence of committed steps reaches.
-- The steps are those of Steps-Evolves: a failed dispatch is one only while its job is there and
-- running, and the clearing of failed jobs is none.
pub succeeded_for_good :
    (to_lower : Text → Text) (decode_hash : Text → Option Text) (env : Env) (config : Config)
    (node_id k : Text) (request : JobResultRequest) (prepared : Option Certificate) (now : Time)
    (w mid w' : World) (current : Job)
    → Distinct env
    → Sound env w.jobs w.reads
    → lookup k w.jobs ≡ some current
    → is_update_atlas current.type ≡ false
    → request.success ≡ true
    → agent_job_result env node_id k request prepared now w ≡ ok mid
    → Steps to_lower decode_hash env config mid w'
    → (job : Job) × (lookup k w'.jobs ≡ some job)
      × (job.status ≡ succeeded)
      × (job.payload ≡ current.payload)
succeeded_for_good to_lower decode_hash env config node_id k request prepared now w mid w' current
      apart sound held other good e steps =
    let ended = record current { status = succeeded; error = []; finished_at = some now } in
    let there =
      result_succeeded env node_id k request prepared now w mid current sound.keyed held other good
        e in
    let taken = agent_job_result-Extends env apart node_id k request prepared now w mid sound e in
    let later =
      Steps-Extends to_lower decode_hash env config apart mid w' (ExtendsAt-Sound apart sound taken)
        steps in
    at_end ended (lookup k w'.jobs) refl refl
      (subst (λ o. Evolves o (lookup k w'.jobs)) there (later.evolves k))
  where
    at_end :
        (ended : Job) (o : Option Job)
        → lookup k w'.jobs ≡ o
        → ended.status ≡ succeeded
        → Evolves (some ended) o
        → (job : Job) × (lookup k w'.jobs ≡ some job)
          × (job.status ≡ succeeded)
          × (job.payload ≡ ended.payload)
    at_end ended none f s step = absurd step
    at_end ended (some job) f s step = (job, f, rw s at step.follows, step.same_payload)
