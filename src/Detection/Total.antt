-- ===== src/Detection/Total.antt =====
-- The events on which no rule of the catalogue of detections/python raises.

use blue_team_os.Value.{
  Value, boolean, int, float, text, arr, obj, truthy, to_str, to_int, pos, negsuc, infinite, finite,
  ℤ, Float, truncate_float, truncate, of_bool, or_value_error,
}
use blue_team_os.Detection.Context.{differ}
use blue_team_os.Prelude.{
  arith, if◌then◌else◌, mem_text, Option, none, some, if_ind, All-of_member, ◌≡◌, refl, String,
  false, true, Bool, List, [], ◌∷◌, All,
}
use blue_team_os.Errors.{ok, Result, ◌>>=◌, Returned}
use blue_team_os.Event.{CanonicalEvent, CanonicalUser}
use blue_team_os.Detection.Context.{DetectionContext, DetectionRule, evaluate}
use blue_team_os.Detection.Rules.{Clock, user_attribute}
use blue_team_os.Detection.Accounts.{
  country, country_value, country_text, idle_days, long_idle, is_dormant,
}
use blue_team_os.Detection.Catalog.{build_default_registry}
use blue_team_os.Detection.Findings.{
  IsSoundRule, evaluate_rules-Returned, build_default_registry-IsSoundRule,
}

abbrev pub HasName : Option CanonicalUser → Type 0
HasName none = Unit
HasName (some user) = (name : String) × (user.name ≡ some name)

-- Neither a list nor a dictionary.
abbrev pub IsPlain : Value → Type 0
IsPlain (arr vs) = ⊥
IsPlain (obj fs) = ⊥
IsPlain _ = Unit

-- Not an infinite float, which int() does not convert.
abbrev pub IsCountable : Value → Type 0
IsCountable (float (infinite negative)) = ⊥
IsCountable _ = Unit

module _ (clock : Clock) where
  user_attribute-Returned :
      (user : Option CanonicalUser) → HasName user → Returned (user_attribute user)
  user_attribute-Returned none h = ("", refl)
  user_attribute-Returned (some user) (name, e) = (name, rw e refl)

  country_text-Returned :
      (str : Value → String) (v : Value) → IsPlain v → Returned (country_text str v)
  country_text-Returned str Value.null h = (some (str Value.null), refl)
  country_text-Returned str (boolean b) h = (some (str (boolean b)), refl)
  country_text-Returned str (int n) h = (some (str (int n)), refl)
  country_text-Returned str (float n) h = (some (str (float n)), refl)
  country_text-Returned str (text s) h =
      (if mem_text s ("unknown" ∷ "private" ∷ []) then none else some s, refl)
  country_text-Returned str (arr vs) h = absurd h
  country_text-Returned str (obj fs) h = absurd h

  country-Returned : (e : CanonicalEvent) → IsPlain (country_value e) → Returned (country clock e)
  country-Returned e h =
      if_ind Returned (truthy (country_value e)) (country_text (to_str clock.py) (country_value e))
        (ok none) (λ _. country_text-Returned (to_str clock.py) (country_value e) h)
        (λ _. (none, refl))

  counted : (n : ℤ) → Returned (long_idle (ok n))
  counted (pos n) = (_, refl)
  counted (negsuc n) = (_, refl)

  truncate_float-Returned :
      (x : Float) → IsCountable (float x) → Returned (long_idle (truncate_float x))
  truncate_float-Returned (finite n) h = counted (truncate n)
  truncate_float-Returned (infinite negative) h = absurd h
  truncate_float-Returned Float.nan h = (false, refl)

  read-Returned : (o : Option ℤ) → Returned (long_idle (or_value_error o))
  read-Returned none = (false, refl)
  read-Returned (some n) = counted n

  long_idle-Returned : (v : Value) → IsCountable v → Returned (long_idle (to_int clock.py v))
  unfolding to_int
  long_idle-Returned Value.null h = (false, refl)
  long_idle-Returned (boolean b) h = counted (pos (of_bool b))
  long_idle-Returned (int n) h = counted n
  long_idle-Returned (float x) h = truncate_float-Returned x h
  long_idle-Returned (text s) h = read-Returned (clock.py.int_of_text s)
  long_idle-Returned (arr vs) h = (false, refl)
  long_idle-Returned (obj fs) h = (false, refl)

  unless_marked :
      (marked : Bool) (idle : Result Bool) (f : Bool → Bool)
      → Returned idle
      → Returned (if marked then ok true else (idle >>= λ b. ok (f b)))
  unless_marked true idle f h = (true, refl)
  unless_marked false idle f (b, e) = rw e (f b, refl)

  is_dormant-Returned :
      (e : CanonicalEvent) → IsCountable (idle_days e) → Returned (is_dormant clock e)
  is_dormant-Returned e h = unless_marked _ _ _ (long_idle-Returned (idle_days e) h)

  no_difference : {a b : Bool} → a ≡ b → differ a b ≡ false
  no_difference {a} {b} e = ground (arith, e)

  -- The default registry returns, and raises nothing, for an event whose user, if it has one, has a
  -- name, and whose last_login_days is not an infinite float, where neither the event nor one of the
  -- window has a list or a dictionary for the country of its address, and where all their times have a
  -- zone or none has. The rules that the sigma compiler adds are supposed to do so.
  pub evaluate-total :
      (sigma : List DetectionRule) (context : DetectionContext) (event : CanonicalEvent)
      → All (IsSoundRule clock) sigma
      → HasName event.user
      → IsCountable (idle_days event)
      → All (λ e. IsPlain (country_value e)) (event ∷ context.window)
      → All (λ e. e.is_naive ≡ event.is_naive) (event ∷ context.window)
      → Returned (evaluate (build_default_registry clock sigma) event context)
  unfolding evaluate
  evaluate-total sigma context event h named numbered placed zoned =
      evaluate_rules-Returned clock context event _
        (build_default_registry-IsSoundRule clock sigma h)
        (
          user_attribute-Returned event.user named,
          λ e known. country-Returned e (
              All-of_member (λ x. IsPlain (country_value x)) (event ∷ context.window) placed
                known.1),
          is_dormant-Returned event numbered,
          λ e known. no_difference (
              All-of_member (λ x. x.is_naive ≡ event.is_naive) (event ∷ context.window) zoned
                known.1),
        )
