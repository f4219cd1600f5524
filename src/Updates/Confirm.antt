-- ===== src/Updates/Confirm.antt =====
-- What a confirmed update has shown.
use nginx_atlas.Effects.{Env, World}
use nginx_atlas.Jobs.Queries.{since}
use nginx_atlas.Model.{Job, Node, Time, succeeded}
use nginx_atlas.Prelude.{
  ==_iff, Bool, Option, Text, arith, false, non_empty, none, refl, some, true, ◌&&◌, ◌-◌, ◌<◌, ◌==◌,
  ◌≡◌, ◌≤◌,
}
use nginx_atlas.Protocol.{NodeReport, UpdateAtlasPayload}
use nginx_atlas.Updates.Defs.{
  bare_version, reports_expected, update_confirmation_timeout, update_max_report_gap,
  update_observation_delay, update_stable_duration,
}

-- The payload decodes, and the report is of the version that it expects, which is not empty.
pub record ShowsVersion (env : Env) (payload : Text) (report : NodeReport) : Type 0 where
  pub spec : UpdateAtlasPayload
  pub decodes : env.decode_atlas payload ≡ some spec
  pub same_version : bare_version report.agent_version ≡ bare_version spec.expected_version
  pub named : non_empty (bare_version spec.expected_version) ≡ true

-- Reports of the expected version from a first time to a last, none later than 30 seconds after the
-- one before it.
pub data Shown (env : Env) (payload : Text) : Time → Time → Type 0 where
  once :
      (report : NodeReport) (now : Time)
      → ShowsVersion env payload report
      → Shown env payload now now
  again :
      (report : NodeReport) (seen last now : Time)
      → Shown env payload seen last
      → ShowsVersion env payload report
      → now - last ≤ update_max_report_gap
      → Shown env payload seen now

-- The times that a job keeps are those of such reports.
abbrev pub WasShown : Env → Job → Type 0
WasShown env job =
    (seen last : Time)
    → job.update_version_seen_at ≡ some seen
    → job.update_last_report_at ≡ some last
    → Shown env job.payload seen last

-- The conditions of a confirmation.
pub record Confirmed (env : Env) (job : Job) (now : Time) : Type 0 where
  pub seen : Time
  pub shown : Shown env job.payload seen now
  pub steady : update_stable_duration ≤ now - seen
  pub waited : update_observation_delay ≤ since now job.update_accepted_at
  pub in_time : since now job.update_accepted_at < update_confirmation_timeout

pub expected-ShowsVersion :
    (env : Env) (job : Job) (report : NodeReport)
    → reports_expected env job report ≡ true
    → ShowsVersion env job.payload report
unfolding reports_expected
expected-ShowsVersion env job report e = go (env.decode_atlas job.payload) refl e
  where
    go :
        (o : Option UpdateAtlasPayload)
        → env.decode_atlas job.payload ≡ o
        → elim o as (λ x. Bool) [
          | none ↦ false
          | some payload ↦
              non_empty (bare_version payload.expected_version)
              && bare_version report.agent_version == bare_version payload.expected_version
        ]
          ≡ true
        → ShowsVersion env job.payload report
    go none f h = absurd (cc)
    go (some payload) f h = record {
      spec = payload;
      decodes = f;
      same_version =
          (==_iff (bare_version report.agent_version) (bare_version payload.expected_version)).0
            (ground arith);
      named = ground arith;
    }

module _ (env : Env) (node : Node) (job : Job) (now : Time) (w : World)
    (was : WasShown env job) where
  -- What is said of the job after an observation.
  abbrev Observed : Job → Type 0
  Observed ended = WasShown env ended × (ended.status ≡ succeeded → Confirmed env job now)
