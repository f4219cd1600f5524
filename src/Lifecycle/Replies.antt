-- ===== src/Lifecycle/Replies.antt =====
-- What becomes of the job that a poll selected, when the poll is answered.
use nginx_atlas.Agents.{PollReply, answers, dispatch_error}
use nginx_atlas.Effects.{World}
use nginx_atlas.Model.{Job, failed, running}
use nginx_atlas.Prelude.{lookup, none, some, ◌≡◌}

-- The job goes out under its id and type and is left running, or it is left as failed.
abbrev pub IsAnswered : Job → World × PollReply → Type 0
IsAnswered job (w, answers none) = ⊥
IsAnswered job (w, answers (some wire)) =
    (wire.id ≡ job.id)
    × (wire.type ≡ job.type)
    × (lookup job.id w.jobs ≡ some job)
    × (job.status ≡ running)
IsAnswered job (w, dispatch_error) =
    (lost : Job) × (lookup job.id w.jobs ≡ some lost)
    × (lost.status ≡ failed)
    × (lost.node_id ≡ job.node_id)
    × (lost.payload ≡ job.payload)
