-- ===== src/Agents/Once.antt =====
-- Two enrollments with one token.
use nginx_atlas.Agents.Choose.{All-find}
use nginx_atlas.Agents.Dispatch.{find}
use nginx_atlas.Agents.Enroll.{agent_enroll, is_usable, matches_token}
use nginx_atlas.Effects.{Env, World, add_audit, err, invalid_enrollment, ok}
use nginx_atlas.Model.{Enrollment, Node, Time}
use nginx_atlas.Prelude.{
  ==_refl, All-values_at, Bool, Bool-cases, Dict, Held, List, Option, Option-cases, Text, ap, false,
  if◌then◌else◌, inl, inr, insert, lookup, lookup-insert, refl, some, some_inj, subst, sym, true,
  values_at, ◌==◌, ◌∙◌, ◌≡◌,
}
use nginx_atlas.Protocol.{NodeReport}

-- What a range over the keys finds is held, and passes.
found-Held :
    {V : Type 0} (p : V → Bool) (order : List Text) (m : Dict V) (v : V)
    → find p (values_at order m) ≡ some v
    → Held m v × (p v ≡ true)
found-Held p order m v f = All-find (Held m) p (values_at order m) (All-values_at order m) f

module _ (decode_hash : Text → Option Text) where
  -- No two enrollments have the hash of one token.
  abbrev pub Unambiguous : Dict Enrollment → Text → Type 0
  Unambiguous m token_hash =
      (j k : Text) (a b : Enrollment)
      → lookup j m ≡ some a
      → lookup k m ≡ some b
      → matches_token decode_hash token_hash a ≡ true
      → matches_token decode_hash token_hash b ≡ true
      → j ≡ k

  -- If the enrollments are as one with that token, used, replaced there, the second is refused.
  spent :
      (token_hash k : Text) (enrollment used : Enrollment) (order : List Text)
      (m v : Dict Enrollment)
      → Unambiguous m token_hash
      → lookup k m ≡ some enrollment
      → matches_token decode_hash token_hash enrollment ≡ true
      → ((j : Text) → lookup j v ≡ lookup j (insert k used m))
      → (found : Enrollment)
      → find (matches_token decode_hash token_hash) (values_at order v) ≡ some found
      → found ≡ used
  spent token_hash k enrollment used order m v single there passes same found f =
      let ((j, held), p) = found-Held (matches_token decode_hash token_hash) order v found f in
      let at_j = sym (same j) ∙ held in
      elim (Bool-cases (k == j)) [
        | inl t ↦ some_inj (sym (rw (lookup-insert k j used m, t) at at_j))
        | inr n ↦
            let other = rw (lookup-insert k j used m, n) at at_j in
            absurd (cc (single j k found enrollment other there p passes, ==_refl k, n))
      ]

  -- If every enrollment stands under its id, and no two have the hash of the token: after a node
  -- enrolled with the token, and as long as the enrollments stay as that left them, no request with
  -- the token is accepted, whatever node, secret, report and time it comes with, and in whatever
  -- order each of the two requests visits the enrollments.
  pub agent_enroll_once :
      (env later_env : Env) (order later_order : List Text)
      (token_hash node_id secret_hash other_id other_secret : Text)
      (report other_report : NodeReport) (now later : Time) (w w' v : World) (node : Node)
      → ((k : Text) (e : Enrollment) → lookup k w.enrollments ≡ some e → e.id ≡ k)
      → Unambiguous w.enrollments token_hash
      → ((k : Text) → lookup k v.enrollments ≡ lookup k w'.enrollments)
      → agent_enroll decode_hash env order token_hash node_id secret_hash report now w
        ≡ ok (w', node)
      → agent_enroll decode_hash later_env later_order token_hash other_id other_secret other_report
          later v
        ≡ err invalid_enrollment
  unfolding agent_enroll add_audit
  agent_enroll_once env later_env order later_order token_hash node_id secret_hash other_id
        other_secret report other_report now later w w' v node keyed single same e =
      let p = matches_token decode_hash token_hash in
      elim (Option-cases (find p (values_at later_order v.enrollments))) [
        | inl none_left ↦ rw (none_left, agent_enroll) refl
        | inr (found, g) ↦ elim (Option-cases (find p (values_at order w.enrollments))) [
          | inl missing ↦ absurd (cc (rw (missing, agent_enroll) at e))
          | inr (enrollment, f) ↦
              let used = record enrollment { used_at = some now } in
              let ((k, held), passes) = found-Held p order w.enrollments enrollment f in
              let written : w'.enrollments ≡ insert enrollment.id used w.enrollments =
                accepted _ (is_usable decode_hash now enrollment) (rw (f, agent_enroll) at e) in
              let there : lookup enrollment.id w.enrollments ≡ some enrollment =
                subst (λ j. lookup j w.enrollments ≡ some enrollment)
                  (sym (keyed k enrollment held)) held in
              let last : found ≡ used =
                spent token_hash enrollment.id enrollment used later_order w.enrollments
                  v.enrollments single there passes (λ j. same j ∙ ap (lookup j) written) found g in
              rw (g, last, agent_enroll) (unfold is_usable in refl)
        ]
      ]
    where
      accepted :
          (q : World × Node) (usable : Bool)
          → (if usable then ok q else err invalid_enrollment) ≡ ok (w', node)
          → w'.enrollments ≡ q.0.enrollments
      accepted q true h = cc
      accepted q false h = absurd (cc)
