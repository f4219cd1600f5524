-- ===== src/Logins/Defs.antt =====
-- reserveLoginAttempt, clearLoginAttempt and what they call. The lock makes each one step.
use nginx_atlas.Model.{Time, minute}
use nginx_atlas.Prelude.{
  Bool, Dict, Option, Text, [], bytes, delete, if◌then◌else◌, insert, is_some, leb, length, lookup,
  ltb, nat_eq, non_empty, none, not, some, trim_space, value_or, ℕ, ◌&&◌, ◌*◌, ◌+◌, ◌-◌, ◌||◌, ◌∷◌,
}

-- Package net/netip: an address, if the text is one, and the texts of addresses.
pub record Netip : Type 1 where
  pub Addr : Type 0
  pub parse_addr : Text → Option Addr
  pub unmap : Addr → Addr
  pub is6 : Addr → Bool
  pub network64 : Addr → Text
  pub show_addr : Addr → Text

abbrev pub login_rate_window : ℕ
login_rate_window = minute

abbrev pub login_attempt_retention : ℕ
login_attempt_retention = 10 * minute

abbrev pub max_login_attempts_per_client : ℕ
max_login_attempts_per_client = 6

abbrev pub max_tracked_login_clients : ℕ
max_tracked_login_clients = 4096

pub record LoginWindow : Type 0 where
  pub started_at : Time
  pub last_seen_at : Time
  pub blocked_until : Time
  pub attempts : ℕ

-- The fields of the server that the limit keeps.
pub record Logins : Type 0 where
  pub clients : Dict LoginWindow
  pub cleanup_at : Time

unfoldable pub normalize_login_client_key : Netip → Text → Text
normalize_login_client_key net client_ip =
    let ip = trim_space client_ip in
    elim (net.parse_addr ip) [
      | none ↦ if non_empty ip then ip else bytes "unknown"
      | some found ↦
          let addr = net.unmap found in
          if net.is6 addr then net.network64 addr else net.show_addr addr
    ]

-- What a read of a missing key yields.
abbrev pub zero_window : LoginWindow
zero_window = record { started_at = 0; last_seen_at = 0; blocked_until = 0; attempts = 0 }

unfoldable pub normalize_login_window : LoginWindow → Time → LoginWindow
normalize_login_window attempt now =
    if nat_eq attempt.started_at 0 || leb login_rate_window (now - attempt.started_at)
    then record zero_window { started_at = now; last_seen_at = now }
    else attempt

unfoldable pub login_retry_after : LoginWindow → Time → ℕ
login_retry_after attempt now =
    if ltb now attempt.blocked_until then attempt.blocked_until - now else 0

-- The clients that were seen lately.
unfoldable pub recent_clients : Time → Dict LoginWindow → Dict LoginWindow
recent_clients now [] = []
recent_clients now ((k, attempt) ∷ rest) =
    let kept = recent_clients now rest in
    if leb login_attempt_retention (now - attempt.last_seen_at) then kept else (k, attempt) ∷ kept

unfoldable pub cleaned_clients : Time → Logins → Logins
cleaned_clients now logins =
    if nat_eq logins.cleanup_at 0 || leb minute (now - logins.cleanup_at)
    then record { clients = recent_clients now logins.clients; cleanup_at = now }
    else logins

-- The loop that looks for the client that was seen the longest ago.
unfoldable pub oldest_client : Text → Time → Dict LoginWindow → Text
oldest_client key time [] = key
oldest_client key time ((k, attempt) ∷ rest) =
    let next = oldest_client k attempt.last_seen_at rest in
    let same = oldest_client key time rest in
    if not (non_empty key) || ltb attempt.last_seen_at time then next else same

unfoldable pub make_room : Text → Dict LoginWindow → Dict LoginWindow
make_room ip clients =
    if not (is_some (lookup ip clients)) && leb max_tracked_login_clients (length clients)
    then delete (oldest_client [] 0 clients) clients
    else clients

-- The decision on the window of a client: the window to write, if any, and the time to wait, if
-- the attempt is refused.
unfoldable pub decide_login : LoginWindow → Time → Option LoginWindow × Option ℕ
decide_login window now =
    let client = normalize_login_window window now in
    let retry = login_retry_after client now in
    let blocked = record client { blocked_until = now + login_rate_window; last_seen_at = now } in
    let counted = record client { attempts = client.attempts + 1; last_seen_at = now } in
    if ltb 0 retry
    then (none, some retry)
    else if leb max_login_attempts_per_client client.attempts
    then (some blocked, some login_rate_window)
    else (some counted, none)

-- The same on the normalized key of a client.
unfoldable pub reserve_login_key : Text → Time → Logins → Logins × Option ℕ
reserve_login_key ip now logins =
    let cleaned = cleaned_clients now logins in
    let clients = make_room ip cleaned.clients in
    let (window, answer) = decide_login (value_or zero_window (lookup ip clients)) now in
    (
      record cleaned {
        clients = elim window [ none ↦ clients | some client ↦ insert ip client clients ];
      },
      answer,
    )

unfoldable pub reserve_login_attempt : Netip → Text → Time → Logins → Logins × Option ℕ
reserve_login_attempt net client_ip = reserve_login_key (normalize_login_client_key net client_ip)

unfoldable pub clear_login_attempt : Netip → Text → Logins → Logins
clear_login_attempt net client_ip logins = record logins {
  clients = delete (normalize_login_client_key net client_ip) logins.clients;
}
