-- ===== src/Store/Defs.antt =====
-- Update, normalize and Subscribe. A lock makes each of them one step. The JSON round trip of
-- clone is taken as the identity, so that a clone is the normalized state; a model's map is never
-- nil. Whether the file could be written is an argument, and so is reflect.DeepEqual.
use nginx_atlas.Effects.{Error, Result, err, ok}
use nginx_atlas.Model.{State}
use nginx_atlas.Prelude.{
  Bool, List, Option, [], if◌then◌else◌, map, nat_eq, none, some, ℕ, ◌%◌, ◌++◌, ◌+◌, ◌∷◌,
}

-- The state, and for each subscriber the revision that waits in its channel of capacity 1.
pub record Store : Type 0 where
  pub state : State
  pub revision : ℕ
  pub next_subscriber_id : ℕ
  pub subscribers : List (ℕ × Option ℕ)

unfoldable pub normalize : State → State
normalize state = if nat_eq state.version 0 then record state { version = 1 } else state

abbrev pub u64 : ℕ → ℕ
u64 n = n % 18446744073709551616

-- A send that does not wait: a signal that is still there is left.
abbrev pub notify : ℕ → ℕ × Option ℕ → ℕ × Option ℕ
notify revision (k, none) = (k, some revision)
notify revision (k, some old) = (k, some old)

-- What Update returns.
pub data Outcome : Type 0 where
  committed : Outcome
  unchanged : Outcome
  refused : Error → Outcome
  not_written : Outcome

-- The part of Update after its function has returned.
unfoldable pub commit : (State → State → Bool) → Bool → Store → Result State → Store × Outcome
commit same written store (err e) = (store, refused e)
commit same written store (ok result) =
    let next = normalize result in
    let revision = u64 (store.revision + 1) in
    if same next store.state
    then (store, unchanged)
    else if written
    then (
      record store {
        state = next;
        revision = revision;
        subscribers = map (notify revision) store.subscribers;
      },
      committed,
    )
    else (store, not_written)

unfoldable pub update :
    (State → State → Bool) → Bool → (State → Result State) → Store → Store × Outcome
unfolding commit
update same written fn store = commit same written store (fn (normalize store.state))

-- The revision at which the subscription begins, and its number.
unfoldable pub subscribe : Store → Store × ℕ × ℕ
subscribe store =
    let k = u64 (store.next_subscriber_id + 1) in
    (
      record store { next_subscriber_id = k; subscribers = store.subscribers ++ (k, none) ∷ [] },
      store.revision,
      k,
    )
