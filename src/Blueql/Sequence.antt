-- ===== src/Blueql/Sequence.antt =====
-- packages/blueql/blueteam_blueql/engine.py, _execute_sequence: chains of events for the steps of a
-- query. Times are in microseconds and are
-- taken to have a zone; the window is in seconds.
use blue_team_os.Prelude.{
  ℕ, ◌≡◌, ◌≤◌, ◌+◌, ◌-◌, ◌*◌, arith, if_ind, String, Bool, true, false, Option, none, some, List,
  [], ◌∷◌, ◌++◌, ltb, leb, mem_text, if◌then◌else◌,
}
use blue_team_os.Errors.{Result, ok, err, ◌>>=◌, OnOk, OnOk-bind, OnOk-then, OnOk-elim}
use blue_team_os.Value.{Runtime}
use blue_team_os.Event.{CanonicalEvent}
use blue_team_os.Blueql.{Pred, eval_pred}

-- sorted(events, key=lambda item: item.timestamp), which is stable
abbrev place : CanonicalEvent → List CanonicalEvent → List CanonicalEvent
place event [] = event ∷ []
place event (other ∷ others) =
    let rest = place event others in
    if leb event.timestamp other.timestamp then event ∷ other ∷ others else other ∷ rest

abbrev by_time : List CanonicalEvent → List CanonicalEvent
by_time [] = []
by_time (event ∷ events) = place event (by_time events)

-- int(ast.value or 600)
abbrev window_of : Option ℕ → ℕ
window_of none = 600
window_of (some n) = if ltb 0 n then n else 600

abbrev unique : (seen : List String) → List CanonicalEvent → List CanonicalEvent
unique seen [] = []
unique seen (event ∷ events) =
    let skipped = unique seen events in
    let kept = unique (event.id ∷ seen) events in
    if mem_text event.id seen then skipped else event ∷ kept

module _ (py : Runtime) (window : ℕ) where
  -- The `while`: the match of a step, with the events after it.
  unfoldable pub scan :
      (step : Pred) (cursor : ℕ)
      → List CanonicalEvent
      → Result (Option (CanonicalEvent × List CanonicalEvent))
  scan step cursor [] = ok none
  scan step cursor (candidate ∷ rest) =
      let more = scan step cursor rest in
      if ltb (window * 1000000) (candidate.timestamp - cursor)
      then ok none
      else (eval_pred py step candidate >>= λ b. if b then ok (some (candidate, rest)) else more)

  abbrev prepended :
      CanonicalEvent → Result (Option (List CanonicalEvent)) → Result (Option (List CanonicalEvent))
  prepended event (ok (some matched)) = ok (some (event ∷ matched))
  prepended event (ok none) = ok none
  prepended event (err exc) = err exc

  -- The loop over the steps after the first.
  unfoldable pub follow :
      (steps : List Pred) (cursor : ℕ) → List CanonicalEvent → Result (Option (List CanonicalEvent))
  follow [] cursor events = ok (some [])
  follow (step ∷ steps) cursor events = scan step cursor events >>= λ found. elim found [
    | none ↦ ok none
    | some hit ↦ prepended hit.0 (follow steps hit.0.timestamp hit.1)
  ]

  abbrev collected : CanonicalEvent → Option (List CanonicalEvent) → List CanonicalEvent
  collected event none = []
  collected event (some matched) = event ∷ matched

  -- The loop over the events.
  unfoldable pub collect :
      (first : Pred) (steps : List Pred) → List CanonicalEvent → Result (List CanonicalEvent)
  collect first steps [] = ok []
  collect first steps (event ∷ events) =
      let others = collect first steps events in
      let chain = follow steps event.timestamp events in
      eval_pred py first event >>= λ b.
      if b
      then (chain >>= λ matched. others >>= λ hits. ok (collected event matched ++ hits))
      else others

unfoldable pub execute_sequence :
    Runtime
    → (within : Option ℕ) (first : Pred) (steps : List Pred) → List CanonicalEvent
    → Result (List CanonicalEvent)
execute_sequence py within first steps events =
    collect py (window_of within) first steps (by_time events) >>= λ hits. ok (unique [] hits)

-- Each event matches its step and is at most the window after the one before it.
abbrev pub IsChain :
    (py : Runtime) (window : ℕ) → List Pred → (cursor : ℕ) → List CanonicalEvent → Type 0
IsChain py window [] cursor [] = Unit
IsChain py window (step ∷ steps) cursor (event ∷ events) =
    (eval_pred py step event ≡ ok true)
    × (event.timestamp ≤ cursor + window * 1000000)
    × IsChain py window steps event.timestamp events
IsChain py window [] cursor (event ∷ events) = ⊥
IsChain py window (step ∷ steps) cursor [] = ⊥

-- OnOk of an optional result
abbrev OnSome {ℓ} : {A : Type 0} → (A → Type ℓ) → Option A → Type ℓ
OnSome P none = Unit
OnSome P (some a) = P a

module _ (py : Runtime) (window : ℕ) where
  abbrev IsHit : Pred → ℕ → CanonicalEvent × List CanonicalEvent → Type 0
  IsHit step cursor hit =
      (eval_pred py step hit.0 ≡ ok true) × (hit.0.timestamp ≤ cursor + window * 1000000)

  scan_test :
      (step : Pred) (cursor : ℕ) (candidate : CanonicalEvent) (rest : List CanonicalEvent)
      (more : Result (Option (CanonicalEvent × List CanonicalEvent))) (b : Bool)
      → ltb (window * 1000000) (candidate.timestamp - cursor) ≡ false
      → eval_pred py step candidate ≡ ok b
      → OnOk (OnSome (IsHit step cursor)) more
      → OnOk (OnSome (IsHit step cursor)) (if b then ok (some (candidate, rest)) else more)
  scan_test step cursor candidate rest more true near matched h = (matched, grind (arith, near))
  scan_test step cursor candidate rest more false near matched h = h

  scan-IsHit :
      (step : Pred) (cursor : ℕ) (events : List CanonicalEvent)
      → OnOk (OnSome (IsHit step cursor)) (scan py window step cursor events)
  unfolding scan
  scan-IsHit step cursor [] = tt
  scan-IsHit step cursor (candidate ∷ rest) =
      if_ind (OnOk (OnSome (IsHit step cursor)))
        (ltb (window * 1000000) (candidate.timestamp - cursor)) _ _ (λ far. tt)
        (λ near.
          OnOk-bind (OnSome (IsHit step cursor)) (eval_pred py step candidate) _ (λ b matched.
            scan_test step cursor candidate rest (scan py window step cursor rest) b near matched
              (scan-IsHit step cursor rest)))

  prepended-IsChain :
      (step : Pred) (steps : List Pred) (cursor : ℕ) (event : CanonicalEvent)
      (chain : Result (Option (List CanonicalEvent)))
      → eval_pred py step event ≡ ok true
      → event.timestamp ≤ cursor + window * 1000000
      → OnOk (OnSome (IsChain py window steps event.timestamp)) chain
      → OnOk (OnSome (IsChain py window (step ∷ steps) cursor)) (prepended py window event chain)
  prepended-IsChain step steps cursor event (ok (some matched)) m n h = (m, n, h)
  prepended-IsChain step steps cursor event (ok none) m n h = tt
  prepended-IsChain step steps cursor event (err exc) m n h = tt

  IsChain-after :
      (step : Pred) (steps : List Pred) (cursor : ℕ)
      → ((hit : CanonicalEvent × List CanonicalEvent)
          → OnOk
              (OnSome (IsChain py window steps hit.0.timestamp))
              (follow py window steps hit.0.timestamp hit.1))
      → (found : Option (CanonicalEvent × List CanonicalEvent)) → OnSome (IsHit step cursor) found
      → OnOk (OnSome (IsChain py window (step ∷ steps) cursor)) (elim found [
        | none ↦ ok none
        | some hit ↦ prepended py window hit.0 (follow py window steps hit.0.timestamp hit.1)
      ])
  IsChain-after step steps cursor rest none h = tt
  IsChain-after step steps cursor rest (some hit) h =
      prepended-IsChain step steps cursor hit.0 (follow py window steps hit.0.timestamp hit.1) h.0
        h.1 (rest hit)

  follow-OnSome :
      (steps : List Pred) (cursor : ℕ) (events : List CanonicalEvent)
      → OnOk (OnSome (IsChain py window steps cursor)) (follow py window steps cursor events)
  unfolding follow
  follow-OnSome [] cursor events = tt
  follow-OnSome (step ∷ steps) cursor events =
      OnOk-then (OnSome (IsHit step cursor)) (OnSome (IsChain py window (step ∷ steps) cursor))
        (scan py window step cursor events) _ (scan-IsHit step cursor events)
        (IsChain-after step steps cursor (λ hit. follow-OnSome steps hit.0.timestamp hit.1))

  -- Where the steps of a sequence are all matched from a cursor on, the matched events are one for
  -- each step, in the order of the steps: each satisfies the predicate of its step and is at most the
  -- window after the event before it, and the first at most the window after the cursor.
  pub follow-IsChain :
      (steps : List Pred) (cursor : ℕ) (events : List CanonicalEvent)
      {matched : List CanonicalEvent}
      → follow py window steps cursor events ≡ ok (some matched)
      → IsChain py window steps cursor matched
  follow-IsChain steps cursor events e =
      OnOk-elim (OnSome (IsChain py window steps cursor)) (follow py window steps cursor events)
        (follow-OnSome steps cursor events) e
