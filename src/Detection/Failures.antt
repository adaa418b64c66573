-- ===== src/Detection/Failures.antt =====
-- detections/python/identity: password_spray.py, brute_force.py, repeated_failures.py and
-- unusual_success.py, the rules over failed logins.
use blue_team_os.Prelude.{
  ℕ, String, Bool, ◌||◌, not, List, [], ◌∷◌, ◌++◌, ◌==◌, filter, if◌then◌else◌, ltb, eqb, length,
}
use blue_team_os.Errors.{Result, ok, ◌>>=◌}
use blue_team_os.Event.{CanonicalEvent}
use blue_team_os.Detection.Context.{Finding, DetectionContext, RuleMeta, events_in_window}
use blue_team_os.Detection.Rules.{
  Clock, is_auth_failure, is_auth_success, or_text, shown, number, join, separated, user_name,
  identity_report, meta_of, fingerprint_of, logins_of, failures_from, users_of,
}

abbrev pub password_spray_meta : RuleMeta
password_spray_meta =
    meta_of "identity.password_spray" "Password spraying"
      "Many distinct usernames failing authentication from one source IP inside a short window. Classic password-spray pattern (T1110.003)."
      "high" 85 ("credential-access" ∷ []) ("T1110.003" ∷ []) ("authentication" ∷ "identity" ∷ [])

abbrev pub brute_force_meta : RuleMeta
brute_force_meta =
    meta_of "identity.brute_force" "Authentication brute force"
      "Repeated authentication failures against one account inside a short window (T1110.001)."
      "high" 80 ("credential-access" ∷ []) ("T1110.001" ∷ []) ("authentication" ∷ "identity" ∷ [])

abbrev pub repeated_failures_meta : RuleMeta
repeated_failures_meta =
    meta_of "identity.repeated_failures" "Repeated failed login"
      "Repeated authentication failures for one account (lower intensity than brute force)."
      "medium" 75 ("credential-access" ∷ []) ("T1110" ∷ []) ("authentication" ∷ "identity" ∷ [])

abbrev pub unusual_success_meta : RuleMeta
unusual_success_meta =
    meta_of "identity.unusual_success" "Unusual successful login"
      "Successful authentication after recent failures for the same account." "high" 78
      ("credential-access" ∷ "initial-access" ∷ []) ("T1078" ∷ "T1110" ∷ [])
      ("authentication" ∷ "identity" ∷ [])

module _ (clock : Clock) (event : CanonicalEvent) (context : DetectionContext) where
  abbrev name : String
  name = user_name event

  -- not event.user or not event.user.name
  abbrev unnamed : Bool
  unnamed = name == ""

  abbrev pub failures_within : (seconds : ℕ) → Result (List CanonicalEvent)
  failures_within seconds = events_in_window context event seconds (logins_of "failure" name)

  abbrev pub sprayed : Result (List CanonicalEvent)
  sprayed = events_in_window context event 600 (failures_from event.src_ip)

  unfoldable pub password_spray : Result (List Finding)
  password_spray =
      if not (is_auth_failure event) || or_text event.src_ip == ""
      then ok []
      else sprayed >>= λ related.
          let users = users_of related in
          if ltb (length users) 5
          then ok []
          else identity_report clock password_spray_meta event related
              (fingerprint_of password_spray_meta event
                (join (or_text event.src_ip ∷ ":" ∷ clock.minute_of event.timestamp ∷ [])))
              (join (
                number clock (length users)
                ∷ " distinct accounts failed authentication from "
                ∷ or_text event.src_ip
                ∷ " within 600s. Accounts: "
                ∷ separated users
                ∷ "."
                ∷ []))
              context

  abbrev pub brute_force_fingerprint : String
  brute_force_fingerprint =
      fingerprint_of brute_force_meta event
        (join (name ∷ ":" ∷ clock.ten_minutes_of event.timestamp ∷ []))

  unfoldable pub brute_force : Result (List Finding)
  brute_force =
      if not (is_auth_failure event) || unnamed
      then ok []
      else failures_within 600 >>= λ related.
          if ltb (length related) 8
          then ok []
          else if ltb 2 (length (users_of related))
          then ok []
          else identity_report clock brute_force_meta event related brute_force_fingerprint
              (join (
                "Account "
                ∷ name
                ∷ " recorded "
                ∷ number clock (length related)
                ∷ " failed authentications within 600s."
                ∷ []))
              context

  unfoldable pub repeated_failures : Result (List Finding)
  repeated_failures =
      if not (is_auth_failure event) || unnamed
      then ok []
      else failures_within 900 >>= λ related.
          if not (eqb (length related) 5)
          then ok []
          else identity_report clock repeated_failures_meta event related
              (fingerprint_of repeated_failures_meta event
                (join (name ∷ ":" ∷ clock.hour_of event.timestamp ∷ [])))
              (join (
                "Account "
                ∷ name
                ∷ " had "
                ∷ number clock (length related)
                ∷ " failed logins within 900s."
                ∷ []))
              context

  unfoldable pub unusual_success : Result (List Finding)
  unusual_success =
      if not (is_auth_success event) || unnamed
      then ok []
      else failures_within 1800 >>= λ related.
          let failures = filter is_auth_failure related in
          if ltb (length failures) 3
          then ok []
          else identity_report clock unusual_success_meta event (failures ++ event ∷ [])
              (fingerprint_of unusual_success_meta event
                (join (name ∷ ":" ∷ clock.minute_of event.timestamp ∷ [])))
              (join (
                "Account "
                ∷ name
                ∷ " succeeded after "
                ∷ number clock (length failures)
                ∷ " failures in 1800s from "
                ∷ shown event.src_ip
                ∷ "."
                ∷ []))
              context
