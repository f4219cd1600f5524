-- ===== src/Tests/Fleet.antt =====
-- Sequences of steps, polls, retries and updates at concrete states.
use nginx_atlas.Agents.{
  agent_job_result, agent_poll, agent_poll_delivers, awaiting_job, complete_successful_job, find,
  is_agent_job_of, succeed,
}
use nginx_atlas.Effects.{World, ok}
use nginx_atlas.Jobs.Queries.{awaiting_update_confirmation}
use nginx_atlas.Lifecycle.{
  Distinct, Evolves, Sound, Steps, Steps-Evolves, next, polls, stop, succeeded_for_good,
}
use nginx_atlas.Model.{Job, minute, reload_nginx, second, succeeded}
use nginx_atlas.Prelude.{
  Option, Text, [], arith, false, keys, lookup, none, refl, some, some_inj, subst, true, values,
  values_at, ℕ, ◌*◌, ◌==◌, ◌∷◌, ◌≡◌,
}
use nginx_atlas.Protocol.{JobResultRequest}
use nginx_atlas.Scheduler.{Config}
use nginx_atlas.Tests.{
  answer, decode_hash, env, job_a, late, node, node_a, now, one_keyed, queued_job, running_job,
  waiting, world_with,
}

Distinct-env : Distinct env
Distinct-env n n' p p' k e f = cc (e, f)

-- A job whose id has two bytes, as none that is drawn.
abbrev pub job_b : Text
job_b = 106 ∷ 98 ∷ []

abbrev reload_job : Job
reload_job = record running_job { id = job_b; type = reload_nginx }

abbrev reloading : World
reloading = world_with reload_job

job_b_apart : (n : ℕ) → (job_b == (n ∷ [])) ≡ false
unfolding ◌==◌
job_b_apart n = ground arith

pub Sound-one : (job : Job) → job.id ≡ job_b → Sound env (world_with job).jobs 0
unfolding lookup ◌==◌
Sound-one job same = record {
  keyed = one_keyed (λ j. j.id) job;
  unused = λ n p k l e.
      subst (λ j. lookup j (world_with job).jobs ≡ none) (some_inj e)
        (rw (same, job_b_apart n) refl);
}

abbrev pub config : Config
config = record { poll_after = 15 * second; offline_after = minute }

abbrev pub to_lower : Text → Text
to_lower s = s

abbrev repolled : World × Option Job
repolled = answer (reloading, none) (agent_poll env node_a none late reloading)

one_poll : Steps to_lower decode_hash env config reloading repolled.0
unfolding agent_poll lookup ◌==◌
one_poll =
    next reloading repolled.0 repolled.0 (polls node_a none late repolled.1 refl) (stop repolled.0)

Steps-Evolves_example : Evolves (lookup job_b reloading.jobs) (lookup job_b repolled.0.jobs)
Steps-Evolves_example =
    Steps-Evolves to_lower decode_hash env config reloading repolled.0 Distinct-env
      (Sound-one reload_job refl) one_poll job_b

abbrev success : JobResultRequest
success = record { success = true; message = []; error = []; certificate = none }

abbrev reloaded : World
reloaded = answer reloading (agent_job_result env node_a job_b success none late reloading)

succeeded_for_good_example :
    (job : Job) × (lookup job_b reloaded.jobs ≡ some job)
    × (job.status ≡ succeeded)
    × (job.payload ≡ reload_job.payload)
unfolding agent_job_result lookup ◌==◌ awaiting_update_confirmation succeed complete_successful_job
succeeded_for_good_example =
    succeeded_for_good to_lower decode_hash env config node_a job_b success none late reloading
      reloaded reloaded reload_job Distinct-env (Sound-one reload_job refl) refl refl refl refl
      (stop reloaded)

agent_poll_delivers_example :
    (w' : World) × (out : Job) × (agent_poll env node_a none now waiting ≡ ok (w', some out))
unfolding lookup ◌==◌ awaiting_job find values values_at keys awaiting_update_confirmation
    is_agent_job_of
agent_poll_delivers_example =
    agent_poll_delivers env node_a none now waiting node job_a queued_job refl refl refl refl refl
      refl
