-- ===== src/Effects/Worlds.antt =====
-- The state in a transaction, and the writes to its maps.
use nginx_atlas.Effects.Environment.{Result, ok, ◌>>=◌}
use nginx_atlas.Model.{Certificate, Domain, Enrollment, Job, Node, State}
use nginx_atlas.Prelude.{Dict, List, Text, [], insert, lookup, none, some, ℕ, ◌∷◌}

pub record World : Type 0 where
  pub state : State
  pub open state use *
  pub reads : ℕ

-- state.Nodes[k] = node, and so on for the other maps.
abbrev pub put_node : Text → Node → World → World
put_node k node w =
    let s = w.state in record w { state = record s { nodes = insert k node s.nodes } }

abbrev pub put_job : Text → Job → World → World
put_job k job w = let s = w.state in record w { state = record s { jobs = insert k job s.jobs } }

abbrev pub put_domain : Text → Domain → World → World
put_domain k domain w =
    let s = w.state in record w { state = record s { domains = insert k domain s.domains } }

abbrev pub put_certificate : Text → Certificate → World → World
put_certificate k certificate w =
    let s = w.state in
    record w { state = record s { certificates = insert k certificate s.certificates } }

abbrev pub put_enrollment : Text → Enrollment → World → World
put_enrollment k enrollment w =
    let s = w.state in
    record w { state = record s { enrollments = insert k enrollment s.enrollments } }

-- A range over a map whose body changes the state: each key is visited once, with the value that
-- the map holds by then; a key that is gone by then is skipped.
module _ {V : Type 0} (field : World → Dict V) (body : Text → V → World → World) where
  unfoldable pub range : List Text → World → World
  range [] w = w
  range (k ∷ ks) w = range ks (elim (lookup k (field w)) [ none ↦ w | some v ↦ body k v w ])

-- The same, with a body that can fail and so end the loop.
module _ {V : Type 0} (field : World → Dict V) (body : Text → V → World → Result World) where
  unfoldable pub range_try : List Text → World → Result World
  range_try [] w = ok w
  range_try (k ∷ ks) w = elim (lookup k (field w)) [
    | none ↦ range_try ks w
    | some v ↦ body k v w >>= range_try ks
  ]
