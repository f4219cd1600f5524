-- ===== src/Logins/Bounds.antt =====
-- The limits that the attempts to log in keep.
use nginx_atlas.Logins.Defs.{
  LoginWindow, Logins, Netip, cleaned_clients, decide_login, make_room, max_tracked_login_clients,
  normalize_login_client_key, oldest_client, recent_clients, reserve_login_attempt,
  reserve_login_key, zero_window,
}
use nginx_atlas.Model.{Time}
use nginx_atlas.Prelude.{
  ==_refl, Dict, Option, Text, [], arith, contains, delete, if◌then◌else◌, inl, insert, is_some,
  keys, le_trans, length, lookup, lookup-delete, none, refl, some, true, value_or, ◌+◌, ◌<◌, ◌∷◌,
  ◌≡◌, ◌≤◌, ◌⊎◌,
}

pub length-insert-le :
    (k : Text) (v : LoginWindow) (m : Dict LoginWindow)
    → length (insert k v m) ≤ length m + (if is_some (lookup k m) then 0 else 1)
unfolding insert lookup
length-insert-le k v [] = omega arith
length-insert-le k v ((j, w) ∷ m) = ground (arith, length-insert-le k v m)

pub length-delete-le : (k : Text) (m : Dict LoginWindow) → length (delete k m) ≤ length m
unfolding delete
length-delete-le k [] = omega arith
length-delete-le k ((j, w) ∷ m) = ground (arith, length-delete-le k m)

length-delete-lt :
    (k : Text) (m : Dict LoginWindow) → contains k (keys m) ≡ true → length (delete k m) < length m
unfolding delete keys contains
length-delete-lt k [] h = cc
length-delete-lt k ((j, w) ∷ m) h = ground (arith, length-delete-le k m, length-delete-lt k m)

length-recent-le : (now : Time) (m : Dict LoginWindow) → length (recent_clients now m) ≤ length m
unfolding recent_clients
length-recent-le now [] = omega arith
length-recent-le now ((j, w) ∷ m) = ground (arith, length-recent-le now m)

-- The key that is given, or one of the map.
oldest_client-among :
    (key : Text) (time : Time) (m : Dict LoginWindow)
    → (oldest_client key time m ≡ key) ⊎ (contains (oldest_client key time m) (keys m) ≡ true)
unfolding oldest_client keys contains
oldest_client-among key time [] = inl refl
oldest_client-among key time ((k, w) ∷ m) =
    ground
      (arith, oldest_client-among k w.last_seen_at m, oldest_client-among key time m, ==_refl k)

oldest_client-found :
    (k : Text) (w : LoginWindow) (m : Dict LoginWindow)
    → contains (oldest_client [] 0 ((k, w) ∷ m)) (keys ((k, w) ∷ m)) ≡ true
unfolding oldest_client keys contains
oldest_client-found k w m = ground (arith, oldest_client-among k w.last_seen_at m, ==_refl k)

-- There is room for a client that is not there.
make_room-le :
    (ip : Text) (m : Dict LoginWindow)
    → length m ≤ max_tracked_login_clients
    → length (make_room ip m) + (if is_some (lookup ip (make_room ip m)) then 0 else 1)
      ≤ max_tracked_login_clients
unfolding make_room
make_room-le ip [] h = ground arith
make_room-le ip ((k, w) ∷ m) h = ground (
  arith,
  length-delete-lt (oldest_client [] 0 ((k, w) ∷ m)) ((k, w) ∷ m) (oldest_client-found k w m),
  lookup-delete (oldest_client [] 0 ((k, w) ∷ m)) ip ((k, w) ∷ m),
)

pub cleaned-le :
    (now : Time) (logins : Logins)
    → length (cleaned_clients now logins).clients ≤ length logins.clients
unfolding cleaned_clients
cleaned-le now logins = ground (arith, length-recent-le now logins.clients)

written-le :
    (ip : Text) (m : Dict LoginWindow) (window : Option LoginWindow)
    → length m + (if is_some (lookup ip m) then 0 else 1) ≤ max_tracked_login_clients
    → length (elim window [ none ↦ m | some client ↦ insert ip client m ])
      ≤ max_tracked_login_clients
written-le ip m none h = ground arith
written-le ip m (some client) h = le_trans (length-insert-le ip client m) h

-- An attempt leaves 4096 clients at most, if there were no more before it.
pub reserve_login_attempt-tracked :
    (net : Netip) (client_ip : Text) (now : Time) (logins : Logins)
    → length logins.clients ≤ max_tracked_login_clients
    → length (reserve_login_attempt net client_ip now logins).0.clients ≤ max_tracked_login_clients
unfolding reserve_login_attempt reserve_login_key
reserve_login_attempt-tracked net client_ip now logins h =
    let ip = normalize_login_client_key net client_ip in
    let clients = make_room ip (cleaned_clients now logins).clients in
    written-le ip clients (decide_login (value_or zero_window (lookup ip clients)) now).0
      (make_room-le ip (cleaned_clients now logins).clients (le_trans (cleaned-le now logins) h))
