-- ===== src/Agents/Enroll.antt =====
-- The transaction of handleAgentEnroll, and HasUsableEnrollment of internal/store/store.go.
-- A token hash is in hexadecimal; hex.DecodeString is a parameter, none for a text that is not
-- the hash of 32 bytes.
use nginx_atlas.Agents.Dispatch.{find}
use nginx_atlas.Effects.{
  Env, Result, World, add_audit, err, invalid_enrollment, ok, put_enrollment, put_node,
}
use nginx_atlas.Model.{Enrollment, Node, Time, node_online, zero_node}
use nginx_atlas.Prelude.{
  Bool, Dict, List, Option, Text, [], bytes, false, if◌then◌else◌, is_some, ltb, non_empty, none,
  not, some, trim_space, values, values_at, ◌&&◌, ◌==◌, ◌∷◌,
}
use nginx_atlas.Protocol.{NodeReport}
use nginx_atlas.Reports.{append_status_sample, apply_node_report}

module _ (decode_hash : Text → Option Text) where
  unfoldable pub matches_token : Text → Enrollment → Bool
  matches_token token_hash enrollment = elim (decode_hash enrollment.token_hash) [
    | none ↦ false
    | some expected ↦ token_hash == expected
  ]

  unfoldable pub is_usable : Time → Enrollment → Bool
  is_usable now enrollment = not (is_some enrollment.used_at) && ltb now enrollment.expires_at

  unfoldable pub has_usable_enrollment : Text → Time → Dict Enrollment → Bool
  has_usable_enrollment token_hash now enrollments =
      elim (find (matches_token token_hash) (values enrollments)) [
        | none ↦ false
        | some enrollment ↦ is_usable now enrollment
      ]

  -- node.Name if it is not blank, else the reported host name, else the id.
  unfoldable pub named_node : Node → Node
  named_node node =
      if non_empty (trim_space node.name)
      then node
      else if non_empty (trim_space node.hostname)
      then record node { name = trim_space node.hostname }
      else record node { name = node.id }

  module _ (env : Env) where
    -- The node of a usable enrollment.
    unfoldable pub enrolled_node : Text → Text → NodeReport → Time → Enrollment → Node
    enrolled_node node_id secret_hash report now enrollment =
        append_status_sample
          (named_node (
            apply_node_report
              (record zero_node {
                id = node_id;
                name = enrollment.name;
                secret_hash = secret_hash;
                status = node_online;
                created_at = now;
                last_seen_at = some now;
              })
              report))
          node_online now

    -- The range visits the enrollments in the order of the keys, which differs from one request to
    -- the next.
    unfoldable pub agent_enroll :
        List Text → Text → Text → Text → NodeReport → Time → World → Result (World × Node)
    agent_enroll order token_hash node_id secret_hash report now w =
        elim (find (matches_token token_hash) (values_at order w.enrollments)) [
          | none ↦ err invalid_enrollment
          | some enrollment ↦
              let node = enrolled_node node_id secret_hash report now enrollment in
              let used = record enrollment { used_at = some now } in
              let enrolled =
                add_audit env (bytes "success") (bytes "node.enrolled") (bytes "节点已安全加入主控")
                  (node.id ∷ []) (put_node node.id node (put_enrollment enrollment.id used w)) in
              if is_usable now enrollment then ok (enrolled, node) else err invalid_enrollment
        ]
