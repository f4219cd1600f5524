-- ===== src/Agents/Choose.antt =====
-- What is known of the job that a poll chooses.
use nginx_atlas.Agents.Dispatch.{
  awaiting_job, find, first, insert_by_created, is_agent_job_of, oldest_queued, oldest_running,
  sort_by_created,
}
use nginx_atlas.Effects.{World}
use nginx_atlas.Jobs.Queries.{awaiting_update_confirmation}
use nginx_atlas.Model.{Job, is_queued, is_running}
use nginx_atlas.Prelude.{
  All, All-values, Bool, Bool-cases, Held, List, Text, [], inl, inr, keep, leb, some, some_inj,
  subst, true, values, ◌&&◌, ◌==◌, ◌∷◌, ◌≡◌,
}

module _ {ℓ κ} {A : Type ℓ} (P : A → Type κ) where
  pub All-find :
      (p : A → Bool) (xs : List A) {x : A} → All P xs → find p xs ≡ some x → P x × (p x ≡ true)
  unfolding find
  All-find p [] h e = cc
  All-find p (y ∷ ys) {x} (q, h) e = elim (Bool-cases (p y)) [
    | inl t ↦
        let same : y ≡ x = some_inj (rw t at e) in (subst P same q, subst (λ z. p z ≡ true) same t)
    | inr f ↦ All-find p ys h (rw f at e)
  ]

  pub All-keep : (p : A → Bool) (xs : List A) → All P xs → All (λ x. P x × (p x ≡ true)) (keep p xs)
  All-keep p [] h = tt
  All-keep p (y ∷ ys) (q, h) = elim (Bool-cases (p y)) [
    | inl t ↦ rw t ((q, t), All-keep p ys h)
    | inr f ↦ rw f (All-keep p ys h)
  ]

  pub All-first : (xs : List A) {x : A} → All P xs → first xs ≡ some x → P x
  All-first [] h e = cc
  All-first (y ∷ ys) (q, h) e = subst P (some_inj e) q

module _ (P : Job → Type 0) where
  All-insert_by_created :
      (job : Job) (xs : List Job) → P job → All P xs → All P (insert_by_created job xs)
  unfolding insert_by_created
  All-insert_by_created job [] q h = (q, tt)
  All-insert_by_created job (y ∷ ys) q (r, h) =
      elim (Bool-cases (leb job.created_at y.created_at)) [
        | inl t ↦ rw t (q, (r, h))
        | inr f ↦ rw f (r, All-insert_by_created job ys q h)
      ]

  All-sort_by_created : (xs : List Job) → All P xs → All P (sort_by_created xs)
  unfolding sort_by_created
  All-sort_by_created [] h = tt
  All-sort_by_created (y ∷ ys) (q, h) =
      All-insert_by_created y (sort_by_created ys) q (All-sort_by_created ys h)

pub awaiting_job-Held :
    (node_id : Text) (w : World) {job : Job}
    → awaiting_job node_id w ≡ some job
    → Held w.jobs job × ((job.node_id == node_id && awaiting_update_confirmation job) ≡ true)
unfolding awaiting_job
awaiting_job-Held node_id w e = All-find (Held w.jobs) _ (values w.jobs) (All-values w.jobs) e

pub oldest_running-Held :
    (node_id : Text) (w : World) {job : Job}
    → oldest_running node_id w ≡ some job
    → Held w.jobs job × ((is_agent_job_of node_id job && is_running job.status) ≡ true)
unfolding oldest_running
oldest_running-Held node_id w e =
    All-first _ _
      (All-sort_by_created _ _ (All-keep (Held w.jobs) _ (values w.jobs) (All-values w.jobs))) e

pub oldest_queued-Held :
    (node_id : Text) (w : World) {job : Job}
    → oldest_queued node_id w ≡ some job
    → Held w.jobs job × ((is_agent_job_of node_id job && is_queued job.status) ≡ true)
unfolding oldest_queued
oldest_queued-Held node_id w e =
    All-first _ _
      (All-sort_by_created _ _ (All-keep (Held w.jobs) _ (values w.jobs) (All-values w.jobs))) e
