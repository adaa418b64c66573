-- ===== src/Detection/Window.antt =====
-- What a window holds, and what a rule that fires has seen.
use mathlib.Core.List.{Memᴰ}
use blue_team_os.Prelude.{
  Option, All-Mem, ℕ, ◌-◌, ◌*◌, ◌≡◌, refl, ◌≤◌, String, Bool, true, false, ◌&&◌, ◌||◌, not, some,
  List, and-left, [], ◌∷◌, ◌==◌, eq_iff, ltb, null, length, All, All-map, if◌then◌else◌, arith,
  if_ind,
}
use blue_team_os.Event.{CanonicalEvent}
use blue_team_os.Detection.Context.{
  Finding, Filters, DetectionContext, matches, query, events_in_window, already_open, passes,
  same_option, outcome_of, name_of, differ,
}
use blue_team_os.Errors.{Result, ok, OnOk, OnOk-then, OnOk-elim, Returned, returned_bind}
use blue_team_os.Detection.Rules.{
  Clock, is_auth_failure, identity_report, logins_of, user_name, users_of,
}
use blue_team_os.Detection.Failures.{failures_within, brute_force, brute_force_fingerprint}

-- An event of the trigger's tenant, in the seconds up to it, that passes the six filters.
abbrev pub IsSeen : CanonicalEvent → ℕ → Filters → CanonicalEvent → Type 0
IsSeen event seconds f e =
    (e.tenant_id ≡ event.tenant_id)
    × (event.timestamp - seconds * 1000000 ≤ e.timestamp)
    × (e.timestamp ≤ event.timestamp)
    × (passes f.event_type (λ v. e.event_type == v) ≡ true)
    × (passes f.category (λ v. e.category == v) ≡ true)
    × (passes f.outcome (same_option (outcome_of e.outcome)) ≡ true)
    × (passes f.src_ip (same_option e.src_ip) ≡ true)
    × (passes f.user_name (same_option (name_of e.user)) ≡ true)
    × (passes f.action (same_option e.action) ≡ true)

all_of :
    (a b c d e f g h i : Bool)
    → (a && (b && (c && (d && (e && (f && (g && (h && i)))))))) ≡ true
    → (a ≡ true)
      × (b ≡ true)
      × (c ≡ true)
      × (d ≡ true)
      × (e ≡ true)
      × (f ≡ true)
      × (g ≡ true)
      × (h ≡ true)
      × (i ≡ true)
all_of a b c d e f g h i k = ground arith

pub same_text : (a b : String) → (a == b) ≡ true → a ≡ b
same_text a b h = ground (arith, eq_iff a b)

not_below : (m n : ℕ) → not (ltb m n) ≡ true → n ≤ m
not_below m n h = ground arith

pub matches-tenant :
    (tenant_id : String) (since until : ℕ) (f : Filters) (e : CanonicalEvent)
    → matches tenant_id since (some until) f e ≡ true
    → e.tenant_id ≡ tenant_id
unfolding matches
matches-tenant tenant_id since until f e h = same_text _ _ (and-left _ _ h)

matches-IsSeen :
    (event : CanonicalEvent) (seconds : ℕ) (f : Filters) (e : CanonicalEvent)
    → matches event.tenant_id (event.timestamp - seconds * 1000000) (some event.timestamp) f e
      ≡ true
    → IsSeen event seconds f e
unfolding matches
matches-IsSeen event seconds f e h =
    let k = all_of _ _ _ _ _ _ _ _ _ h in
    (same_text _ _ k.0, not_below _ _ k.1, not_below _ _ k.2, k.3, k.4, k.5, k.6, k.7, k.8)

pub query-All {ℓ κ} :
    (Q : CanonicalEvent → Type ℓ) (P : CanonicalEvent → Type κ) (events : List CanonicalEvent)
    (tenant_id : String) (is_naive : Bool) (since until : ℕ) (f : Filters)
    → ((e : CanonicalEvent) → Q e → matches tenant_id since (some until) f e ≡ true → P e)
    → All Q events
    → OnOk (All P) (query events tenant_id is_naive since (some until) f)
unfolding query
query-All Q P [] tenant_id is_naive since until f h known = tt
query-All Q P (e ∷ events) tenant_id is_naive since until f h known =
    let later = query-All Q P events tenant_id is_naive since until f h known.1 in
    if_ind (OnOk (All P)) (not (e.tenant_id == tenant_id)) _ _ (λ _. later)
      (λ _.
        if_ind (OnOk (All P)) (differ e.is_naive is_naive) _ _ (λ _. tt)
          (λ _.
            OnOk-then (All P) (All P) (query events tenant_id is_naive since (some until) f) _ later
              (λ more kept.
                if_ind (All P) (matches tenant_id since (some until) f e) (e ∷ more) more
                  (λ met. (h e known.0 met, kept)) (λ _. kept))))

-- Where no event of the tenant has a zone that the bounds lack, or lacks one that they have.
pub query-Returned :
    (events : List CanonicalEvent) (tenant_id : String) (is_naive : Bool) (since : ℕ)
    (until : Option ℕ) (f : Filters)
    → All (λ e. (e.tenant_id == tenant_id) ≡ true → differ e.is_naive is_naive ≡ false) events
    → Returned (query events tenant_id is_naive since until f)
unfolding query
query-Returned [] tenant_id is_naive since until f h = ([], refl)
query-Returned (e ∷ events) tenant_id is_naive since until f h =
    let (more, e') = query-Returned events tenant_id is_naive since until f h.1 in
    if_ind Returned (not (e.tenant_id == tenant_id)) _ _ (λ _. (more, e'))
      (λ own.
        if_ind Returned (differ e.is_naive is_naive) _ _
          (λ mixed. absurd (both_ways _ mixed (h.0 (not_false _ own)))) (λ _. rw e' (_, refl)))
  where
    both_ways : (b : Bool) → b ≡ true → b ≡ false → ⊥
    both_ways b m n = ground arith

    not_false : (b : Bool) → not b ≡ false → b ≡ true
    not_false b h = ground arith

-- Where a window returns, it holds events of the trigger's tenant only, none later than the trigger or
-- earlier than the seconds before it, and each passes the six filters, on the event type, the category,
-- the outcome, the source address, the user and the action.
pub events_in_window-IsSeen :
    (context : DetectionContext) (event : CanonicalEvent) (seconds : ℕ) (f : Filters)
    → OnOk (All (IsSeen event seconds f)) (events_in_window context event seconds f)
unfolding events_in_window
events_in_window-IsSeen context event seconds f =
    query-All (λ e. Memᴰ e context.window) (IsSeen event seconds f) context.window _ _ _ _ f
      (λ e _. matches-IsSeen event seconds f e) (All-Mem context.window)

-- A rule that returns a finding has passed its guard.
past_guard :
    (guard : Bool) (rest : Result (List Finding)) (found : List Finding)
    → (if guard then ok [] else rest) ≡ ok found
    → null found ≡ false
    → (guard ≡ false) × (rest ≡ ok found)
past_guard true rest [] h full = cc full
past_guard true rest (f ∷ found) h full = cc h
past_guard false rest found h full = (refl, h)

reached : (m n : ℕ) → ltb m n ≡ false → n ≤ m
reached m n h = ground arith

not_or : (a b : Bool) → (not a || b) ≡ false → (a ≡ true) × (b ≡ false)
not_or a b h = ground arith

set_filter : (empty met : Bool) → (empty || met) ≡ true → empty ≡ false → met ≡ true
set_filter empty met h k = ground arith

-- Where the brute force rule returns a finding, the trigger is a failed login of a user with a name that
-- is not empty; the window has at least eight events, of at most two users, each of the trigger's tenant
-- and user name, failed, and in the ten minutes up to the trigger; and the fingerprint was not open.
pub brute_force-fires :
    (clock : Clock) (event : CanonicalEvent) (context : DetectionContext) (found : List Finding)
    → brute_force clock event context ≡ ok found
    → null found ≡ false
    → (is_auth_failure event ≡ true)
      × ((user_name event == "") ≡ false)
      × ((related : List CanonicalEvent) × (failures_within clock event context 600 ≡ ok related)
          × (8 ≤ length related)
          × All (IsSeen event 600 (logins_of "failure" (user_name event))) related
          × All (λ e. same_option (name_of e.user) (user_name event) ≡ true) related
          × (length (users_of related) ≤ 2))
      × (already_open context (brute_force_fingerprint clock event context) ≡ false)
unfolding brute_force identity_report
brute_force-fires clock event context found h full =
    let (login, named) = past_guard _ _ found h full in
    let (failed, some_name) = not_or _ _ login in
    let (related, there, h') = returned_bind (failures_within clock event context 600) _ named in
    let (many, counted) = past_guard _ _ found h' full in
    let (spread, single) = past_guard _ _ found counted full in
    let (fresh, reported) = past_guard _ _ found single full in
    let seen =
      OnOk-elim _ (failures_within clock event context 600)
        (events_in_window-IsSeen context event 600 (logins_of "failure" (user_name event))) there in
    (
      failed,
      some_name,
      (
        related,
        there,
        reached _ _ many,
        seen,
        All-map _ (λ e met. set_filter _ _ met.7 some_name) related seen,
        reached 2 _ spread,
      ),
      fresh,
    )
