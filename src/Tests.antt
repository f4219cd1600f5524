-- ===== src/Tests.antt =====
-- Concrete states of the controller, at which its children apply the theorems.
mod Runs
mod Limits
mod Fleet
mod Records
mod Replies
mod Pages
mod Rollout
use nginx_atlas.Effects.{Env, Result, World, err, ok}
use nginx_atlas.Model.{
  Certificate, ControllerSettings, Domain, Enrollment, Job, Node, State, Time, apply_domain, hour,
  minute, node_online, queued, running, second, source_acme, update_atlas, zero_certificate,
  zero_job, zero_node,
}
use nginx_atlas.Prelude.{
  ==_iff, Option, Text, [], arith, false, lookup, none, some, true, ◌*◌, ◌+◌, ◌∷◌, ◌≡◌,
}
use nginx_atlas.Protocol.{NodeReport}

abbrev pub node_a : Text
node_a = 97 ∷ []

abbrev pub job_a : Text
job_a = 106 ∷ []

abbrev pub now : Time
now = 64_000_000_000 * second

abbrev pub version_text : Text
version_text = 118 ∷ 49 ∷ 46 ∷ 50 ∷ []

abbrev pub env : Env
env = record {
  fresh_id = λ n prefix. some (n ∷ []);
  clock = λ n. now + n;
  encode = λ spec. some [];
  decode_apply = λ payload. none;
  decode_issue = λ payload. none;
  decode_capture = λ payload. none;
  decode_sync = λ payload. none;
  decode_delete = λ payload. none;
  decode_atlas =
      λ payload. some (record { download_url = []; sha256 = []; expected_version = version_text });
  decode_system = λ payload. none;
}

abbrev pub report : NodeReport
report = record {
  hostname = [];
  ip_addresses = [];
  os = [];
  os_name = [];
  os_version = [];
  arch = [];
  package_manager = [];
  controller_installed = false;
  nginx_version = [];
  nginx_healthy = true;
  agent_version = version_text;
  certificates = [];
  nginx_sites = [];
  last_error = [];
}

abbrev pub node : Node
node = record zero_node { id = node_a; status = node_online; last_seen_at = some now }

abbrev pub settings : ControllerSettings
settings = record {
  node_poll_seconds = 15;
  turnstile_enabled = false;
  turnstile_site_key = [];
  turnstile_secret_ciphertext = [];
  panel_allowed_cidrs = [];
  security_entrance_hash = [];
  security_entrance_status = 404;
}

abbrev pub enrollment : Enrollment
enrollment = record {
  id = 101 ∷ [];
  name = [];
  token_hash = 116 ∷ [];
  expires_at = now + hour;
  used_at = none;
  created_at = now;
}

abbrev pub domain : Domain
domain = record {
  id = 100 ∷ [];
  name = [];
  node_id = node_a;
  upstream_host = [];
  upstream_port = 80;
  certificate_id = 99 ∷ [];
  certificate_mode = source_acme;
  acme_account_id = [];
  dns_account_id = [];
  auto_renew = true;
  renew_before_days = 30;
  sync_node_ids = node_a ∷ [];
  enabled = true;
  deleting = false;
  observed_only = false;
  taken_over = false;
  config_path = [];
  cloudflare_enabled = false;
  cloudflare_dns_account_id = [];
  cloudflare_proxied = false;
  cloudflare_record_type = [];
  cloudflare_record_content = [];
  nginx_websocket = false;
  nginx_s3_compatible = false;
  nginx_http2 = true;
  nginx_gzip = true;
  custom_config = [];
  last_job_id = job_a;
  last_error = [];
  created_at = now;
  updated_at = now;
}

abbrev pub certificate : Certificate
certificate = record zero_certificate {
  id = 99 ∷ [];
  issuer_node_id = node_a;
  deployed_node_ids = node_a ∷ [];
}

abbrev pub state_with : Job → State
state_with job = record {
  version = 1;
  admin_password_hash = [];
  nodes = (node_a, node) ∷ [];
  enrollments = (enrollment.id, enrollment) ∷ [];
  domains = (domain.id, domain) ∷ [];
  certificates = (certificate.id, certificate) ∷ [];
  dns_accounts = [];
  acme_accounts = [];
  jobs = (job.id, job) ∷ [];
  audit = [];
  settings = settings;
}

abbrev pub world_with : Job → World
world_with job = record { state = state_with job; reads = 0 }

abbrev pub queued_job : Job
queued_job = record zero_job {
  id = job_a;
  node_id = node_a;
  domain_id = domain.id;
  type = apply_domain;
  status = queued;
  max_attempts = 3;
  created_at = now;
}

abbrev pub running_job : Job
running_job = record queued_job { status = running; attempts = 1; started_at = some now }

-- An update that was accepted, and whose version has been reported for a minute.
abbrev pub accepted_job : Job
accepted_job = record running_job {
  type = update_atlas;
  update_accepted_at = some now;
  update_version_seen_at = some (now + 3 * minute + 30 * second);
  update_last_report_at = some (now + 4 * minute);
}

abbrev pub late : Time
late = now + 4 * minute + second

abbrev pub waiting : World
waiting = world_with queued_job

abbrev pub busy : World
busy = world_with running_job

abbrev pub updating : World
updating = world_with accepted_job

pub one_keyed :
    {V : Type 0} (id : V → Text) (v : V)
    → (k : Text) (x : V) → lookup k ((id v, v) ∷ []) ≡ some x
    → id x ≡ k
unfolding lookup
one_keyed id v k x e = ground (arith, ==_iff (id v) k)

pub only_key :
    {V : Type 0} (j : Text) (v : V) → (k : Text) (x : V) → lookup k ((j, v) ∷ []) ≡ some x → j ≡ k
unfolding lookup
only_key j v k x e = ground (arith, ==_iff j k)

abbrev pub answer {ℓ} : {A : Type ℓ} → A → Result A → A
answer d (ok a) = a
answer d (err e) = d

abbrev pub decode_hash : Text → Option Text
decode_hash hash = some hash
