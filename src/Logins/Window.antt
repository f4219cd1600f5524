-- ===== src/Logins/Window.antt =====
-- The attempts that a client has in the minute of its window.
use nginx_atlas.Logins.Bounds.{cleaned-le, length-delete-le, length-insert-le}
use nginx_atlas.Logins.Defs.{
  LoginWindow, Logins, Netip, cleaned_clients, decide_login, login_attempt_retention,
  login_rate_window, login_retry_after, make_room, max_login_attempts_per_client,
  max_tracked_login_clients, normalize_login_client_key, normalize_login_window, oldest_client,
  recent_clients, reserve_login_attempt, reserve_login_key, zero_window,
}
use nginx_atlas.Model.{Time}
use nginx_atlas.Prelude.{
  ==_iff, ==_refl, All, Bool-cases, Dict, List, Option, Text, [], ap, arith, false, if◌then◌else◌,
  inl, inr, insert, is_some, le_trans, length, lookup, lookup-insert, none, not, refl, some, subst,
  sym, value_or, ℕ, ◌&&◌, ◌+◌, ◌-◌, ◌<◌, ◌==◌, ◌∷◌, ◌≡◌, ◌≤◌,
}

-- A client that was seen less than ten minutes ago is still there after the clean-up.
recent-lookup :
    (ip : Text) (now : Time) (w : LoginWindow) (m : Dict LoginWindow)
    → now - w.last_seen_at < login_attempt_retention
    → lookup ip m ≡ some w
    → lookup ip (recent_clients now m) ≡ some w
unfolding recent_clients lookup
recent-lookup ip now w [] h e = e
recent-lookup ip now w ((k, u) ∷ m) h e = ground (arith, recent-lookup ip now w m)

cleaned-lookup :
    (ip : Text) (now : Time) (w : LoginWindow) (logins : Logins)
    → now - w.last_seen_at < login_attempt_retention
    → lookup ip logins.clients ≡ some w
    → lookup ip (make_room ip (cleaned_clients now logins).clients) ≡ some w
unfolding cleaned_clients make_room
cleaned-lookup ip now w logins h e = ground (arith, recent-lookup ip now w logins.clients)

kept_clean :
    (ip : Text) (now : Time) (w : LoginWindow) (logins : Logins)
    → now - w.last_seen_at < login_attempt_retention
    → lookup ip logins.clients ≡ some w
    → lookup ip (cleaned_clients now logins).clients ≡ some w
unfolding cleaned_clients
kept_clean ip now w logins h e = ground (arith, recent-lookup ip now w logins.clients)

room_left :
    (ip : Text) (m : Dict LoginWindow) → length m < max_tracked_login_clients → make_room ip m ≡ m
unfolding make_room
room_left ip m h = ground arith

length-make_room-le : (ip : Text) (m : Dict LoginWindow) → length (make_room ip m) ≤ length m
unfolding make_room
length-make_room-le ip m = ground (arith, length-delete-le (oldest_client [] 0 m) m)

-- The window of a client that began at a time and is still open.
pub record IsOpen (start : Time) (w : LoginWindow) : Type 0 where
  pub begun : w.started_at ≡ start
  pub seen : start ≤ w.last_seen_at
  pub within : w.attempts ≤ max_login_attempts_per_client

abbrev pub InMinute : Time → Time → Type 0
InMinute start now = (start ≤ now) × (now < start + login_rate_window)

-- What stays of a window, and whether the attempt was counted.
unfoldable pub after_login : LoginWindow → Time → LoginWindow
after_login w now = value_or w (decide_login w now).0

decide_login-IsOpen :
    (start now : Time) (w : LoginWindow)
    → 0 < start
    → InMinute start now
    → IsOpen start w
    → IsOpen start (after_login w now)
      × ((after_login w now).attempts
          ≡ w.attempts + (if is_some (decide_login w now).1 then 0 else 1))
unfolding decide_login after_login normalize_login_window login_retry_after
decide_login-IsOpen start now w h i o = ground arith

window_written :
    (ip : Text) (w : LoginWindow) (m : Dict LoginWindow) (window : Option LoginWindow)
    → lookup ip m ≡ some w
    → lookup ip (elim window [ none ↦ m | some client ↦ insert ip client m ])
      ≡ some (value_or w window)
window_written ip w m none e = e
window_written ip w m (some client) e = rw (lookup-insert ip ip client m, ==_refl ip) refl

decided_at :
    (ip : Text) (now : Time) (w x : LoginWindow) (m : Dict LoginWindow)
    → lookup ip m ≡ some w
    → x ≡ w
    → (lookup ip (elim (decide_login x now).0 [ none ↦ m | some client ↦ insert ip client m ])
        ≡ some (after_login w now))
      × ((decide_login x now).1 ≡ (decide_login w now).1)
unfolding after_login
decided_at ip now w x m there same =
    subst
      (λ y.
        (lookup ip (elim (decide_login y now).0 [ none ↦ m | some client ↦ insert ip client m ])
          ≡ some (value_or w (decide_login w now).0))
        × ((decide_login y now).1 ≡ (decide_login w now).1))
      (sym same) (window_written ip w m (decide_login w now).0 there, refl)

-- An attempt of a client with an open window decides on that window.
reserve_login_key-open :
    (ip : Text) (start now : Time) (w : LoginWindow) (logins : Logins)
    → InMinute start now
    → IsOpen start w
    → lookup ip logins.clients ≡ some w
    → (lookup ip (reserve_login_key ip now logins).0.clients ≡ some (after_login w now))
      × ((reserve_login_key ip now logins).1 ≡ (decide_login w now).1)
unfolding reserve_login_key
reserve_login_key-open ip start now w logins i o e =
    let clients = make_room ip (cleaned_clients now logins).clients in
    let there = cleaned-lookup ip now w logins (omega (arith, o.seen)) e in
    decided_at ip now w (value_or zero_window (lookup ip clients)) clients there
      (ap (value_or zero_window) there)

-- An attempt adds one client at most.
reserve_login_key-length :
    (ip : Text) (now : Time) (logins : Logins)
    → length (reserve_login_key ip now logins).0.clients ≤ length logins.clients + 1
unfolding reserve_login_key
reserve_login_key-length ip now logins =
    let cleaned = (cleaned_clients now logins).clients in
    go (make_room ip cleaned)
      (decide_login (value_or zero_window (lookup ip (make_room ip cleaned))) now).0
      (le_trans (length-make_room-le ip cleaned) (cleaned-le now logins))
  where
    go :
        (m : Dict LoginWindow) (window : Option LoginWindow)
        → length m ≤ length logins.clients
        → length (elim window [ none ↦ m | some client ↦ insert ip client m ])
          ≤ length logins.clients + 1
    go m none h = omega (arith, h)
    go m (some client) h = ground (arith, h, length-insert-le ip client m)

-- Where there is room, the attempt of another client leaves an open window.
reserve_login_key-other :
    (ip key : Text) (start now : Time) (w : LoginWindow) (logins : Logins)
    → length logins.clients < max_tracked_login_clients
    → InMinute start now
    → IsOpen start w
    → (ip == key) ≡ false
    → lookup key logins.clients ≡ some w
    → lookup key (reserve_login_key ip now logins).0.clients ≡ some w
unfolding reserve_login_key
reserve_login_key-other ip key start now w logins room i o other e =
    go (decide_login (value_or zero_window (lookup ip clients)) now).0
  where
    cleaned : Dict LoginWindow
    cleaned = (cleaned_clients now logins).clients

    clients : Dict LoginWindow
    clients = make_room ip cleaned

    there : lookup key clients ≡ some w
    there =
        rw (room_left ip cleaned (omega (arith, cleaned-le now logins, room)))
          (kept_clean key now w logins (omega (arith, o.seen)) e)

    go :
        (window : Option LoginWindow)
        → lookup key (elim window [ none ↦ clients | some client ↦ insert ip client clients ])
          ≡ some w
    go none = there
    go (some client) = rw (lookup-insert ip key client clients, other) there

-- How many of the attempts of the client with the key are accepted, among those that clients make
-- at the given times.
unfoldable pub count_accepted : Netip → Text → List (Text × Time) → Logins → ℕ
count_accepted net key [] logins = 0
count_accepted net key ((client_ip, now) ∷ rest) logins =
    let (reached, answer) = reserve_login_attempt net client_ip now logins in
    (if normalize_login_client_key net client_ip == key && not (is_some answer) then 1 else 0)
    + count_accepted net key rest reached

-- Of the attempts that all clients make within the minute of the window of one of them, in whatever
-- order of their times, no more of that client are accepted than its six have left, if there is
-- room to track one more client for each of the attempts, and no attempt is cleared meanwhile.
pub count_accepted_limited :
    (net : Netip) (key : Text) (start : Time) (attempts : List (Text × Time)) (w : LoginWindow)
    (logins : Logins)
    → 0 < start
    → All (λ (a : Text × Time). InMinute start a.1) attempts
    → length logins.clients + length attempts ≤ max_tracked_login_clients
    → IsOpen start w
    → lookup key logins.clients ≡ some w
    → w.attempts + count_accepted net key attempts logins ≤ max_login_attempts_per_client
unfolding count_accepted reserve_login_attempt
count_accepted_limited net key start [] w logins h i room o e = omega (arith, o.within)
count_accepted_limited net key start ((client_ip, now) ∷ rest) w logins h (i, is) room o e =
    let ip = normalize_login_client_key net client_ip in
    let reached = (reserve_login_key ip now logins).0 in
    let left : length reached.clients + length rest ≤ max_tracked_login_clients =
      omega (arith, reserve_login_key-length ip now logins, room) in
    elim (Bool-cases (ip == key)) [
      | inl same ↦
          let held =
            subst (λ k. lookup k logins.clients ≡ some w) (sym ((==_iff ip key).0 same)) e in
          let (there, answer) = reserve_login_key-open ip start now w logins i o held in
          let (still, counted) = decide_login-IsOpen start now w h i o in
          let later =
            count_accepted_limited net key start rest (after_login w now) reached h is left still (
              subst (λ k. lookup k reached.clients ≡ some (after_login w now))
                ((==_iff ip key).0 same) there) in
          rw (same, answer) (ground (arith, counted, later))
      | inr other ↦
          let later =
            count_accepted_limited net key start rest w reached h is left o (
              reserve_login_key-other ip key start now w logins (omega (arith, room)) i o other
                e) in
          rw other (omega (arith, later))
    ]
