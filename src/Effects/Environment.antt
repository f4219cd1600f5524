-- ===== src/Effects/Environment.antt =====
-- The environment of a transaction, and its errors.
use nginx_atlas.Model.{Time}
use nginx_atlas.Prelude.{Option, Text, ℕ}
use nginx_atlas.Protocol.{
  ApplyDomainSpec, CaptureCertificateSpec, DeleteDomainSpec, IssueCertificateSpec, JobSpec,
  SyncCertificateSpec, UpdateAtlasPayload, UpdateSystemPayload,
}

-- The random source and the clock answer the n-th read; a decoder answers none for an error.
pub record Env : Type 0 where
  pub fresh_id : ℕ → Text → Option Text
  pub clock : ℕ → Time
  pub encode : JobSpec → Option Text
  pub decode_apply : Text → Option ApplyDomainSpec
  pub decode_issue : Text → Option IssueCertificateSpec
  pub decode_capture : Text → Option CaptureCertificateSpec
  pub decode_sync : Text → Option SyncCertificateSpec
  pub decode_delete : Text → Option DeleteDomainSpec
  pub decode_atlas : Text → Option UpdateAtlasPayload
  pub decode_system : Text → Option UpdateSystemPayload

pub data Error : Type 0 where
  not_found conflict invalid_enrollment update_batch_failed : Error
  id_error encode_error decode_error : Error
  other_error : Text → Error

pub data Result {ℓ} (A : Type ℓ) : Type ℓ where
  ok : A → Result A
  err : Error → Result A

infixl 5 ◌>>=◌
abbrev pub ◌>>=◌ {ℓ κ} : {P : Type ℓ} {Q : Type κ} → Result P → (P → Result Q) → Result Q
err reason >>= next = err reason
ok value >>= next = next value

-- The value of an Option, or an error.
abbrev pub require {ℓ} : {A : Type ℓ} → Error → Option A → Result A
require e Option.none = err e
require e (Option.some a) = ok a
