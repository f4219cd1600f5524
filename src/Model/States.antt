-- ===== src/Model/States.antt =====
-- internal/model/model.go: the audit trail and the whole state. No code of the controller sets
-- the Metadata of an audit event, so that field is left out.
use nginx_atlas.Model.Certificates.{AcmeAccount, Certificate, DnsAccount}
use nginx_atlas.Model.Domains.{ControllerSettings, Domain}
use nginx_atlas.Model.Jobs.{Job}
use nginx_atlas.Model.Nodes.{Enrollment, Node, Time}
use nginx_atlas.Prelude.{Dict, List, Text, ℕ}

pub record AuditEvent : Type 0 where
  pub id : Text
  pub level : Text
  pub action : Text
  pub message : Text
  pub node_id : Text
  pub domain_id : Text
  pub job_id : Text
  pub created_at : Time

pub record State : Type 0 where
  pub version : ℕ
  pub admin_password_hash : Text
  pub nodes : Dict Node
  pub enrollments : Dict Enrollment
  pub domains : Dict Domain
  pub certificates : Dict Certificate
  pub dns_accounts : Dict DnsAccount
  pub acme_accounts : Dict AcmeAccount
  pub jobs : Dict Job
  pub audit : List AuditEvent
  pub settings : ControllerSettings
