-- ===== src/Fabric/Tenants.antt =====
-- The tenants of the events that the pipeline normalizes.
use blue_team_os.Prelude.{
  some_injective, ◌≡◌, refl, ◌∙◌, sym, ap, ◌⊎◌, inl, inr, String, false, not, some, List, [], ◌∷◌,
  ◌++◌, ◌==◌, eq_iff, leb, ◌+◌, lookup, All, All-map, if_ind, subst, append_assoc, append-nil,
  arith,
}
use blue_team_os.Errors.{Result, ok, err}
use blue_team_os.Event.{CanonicalEvent}
use blue_team_os.Fabric.Envelope.{FabricEnvelope, raw}
use blue_team_os.Fabric.Pipeline.{
  EventPipeline, Calls, Counts, accept, handle, tried, handle_all, handled, drain_raw, with_fabric,
  publish_envelope, counted,
}
use blue_team_os.Fabric.Fresh.{first_fresh}
use blue_team_os.Fabric.Retry.{drain_raw-first_fresh}

-- The normalizer made the event of the message, with the message's tenant.
abbrev pub IsOf : Calls → CanonicalEvent → FabricEnvelope → Type 0
IsOf calls event m =
    (calls.normalizer m.payload m.tenant_id ≡ ok event) × (event.tenant_id ≡ m.tenant_id)

-- … of one of the messages.
abbrev pub IsFrom : Calls → List FabricEnvelope → CanonicalEvent → Type 0
IsFrom calls [] event = ⊥
IsFrom calls (m ∷ ms) event = IsOf calls event m ⊎ IsFrom calls ms event

module _ (calls : Calls) where
  -- A step on the message adds its event, or none.
  abbrev AddsOne : FabricEnvelope → EventPipeline → EventPipeline → Type 0
  AddsOne m p p' =
      (p'.events ≡ p.events)
      ⊎ ((event : CanonicalEvent) × (p'.events ≡ p.events ++ event ∷ []) × IsOf calls event m)

  publish_envelope-events :
      (p : EventPipeline) (r : Result FabricEnvelope) → (publish_envelope p r).1.events ≡ p.events
  publish_envelope-events p (err exc) = refl
  publish_envelope-events p (ok m) = refl

  same_text : (a b : String) → not (a == b) ≡ false → a ≡ b
  same_text a b h = ground (arith, eq_iff a b)

  accept-AddsOne :
      (m : FabricEnvelope) (r : Result CanonicalEvent) (p : EventPipeline)
      → calls.normalizer m.payload m.tenant_id ≡ r
      → AddsOne m p (accept calls m r p).1
  accept-AddsOne m (err exc) p made = inl refl
  accept-AddsOne m (ok event) p made =
      if_ind (λ (s : Result String × EventPipeline). AddsOne m p s.1)
        (not (event.tenant_id == m.tenant_id)) _ _ (λ _. inl refl)
        λ same.
          if_ind (λ (s : Result String × EventPipeline). AddsOne m p s.1)
            (event.schema_version == "") _ _ (λ _. inl refl)
            λ _. inr (event, publish_envelope-events _ _, (made, same_text _ _ same))

  tried-events :
      (m : FabricEnvelope) (n : Counts) (step : Result String × EventPipeline)
      → (tried calls m n step).1.events ≡ step.1.events
  tried-events m n (ok event_id, p) = refl
  tried-events m n (err exc, p) =
      if_ind (λ (s : Result Counts × EventPipeline). s.1.events ≡ p.events)
        (leb p.max_attempts (m.attempt + 1)) _ _ (λ _. counted-events _ _) (λ _. counted-events _ _)
    where
      counted-events :
          (n : Counts) (step : Result String × EventPipeline)
          → (counted calls n step).1.events ≡ step.1.events
      counted-events n (err exc, p) = refl
      counted-events n (ok event_id, p) = refl

  handle-AddsOne :
      (m : FabricEnvelope) (n : Counts) (p : EventPipeline) → AddsOne m p (handle calls m n p).1
  unfolding handle
  handle-AddsOne m n p =
      subst
        (λ es.
          (es ≡ p.events)
          ⊎ ((event : CanonicalEvent) × (es ≡ p.events ++ event ∷ []) × IsOf calls event m))
        (sym (tried-events m n _))
        (accept-AddsOne m (calls.normalizer m.payload m.tenant_id) p refl)

  -- The events that a run adds come from its messages.
  abbrev pub Adds : List FabricEnvelope → EventPipeline → EventPipeline → Type 0
  Adds ms p p' =
      (new : List CanonicalEvent) × (p'.events ≡ p.events ++ new) × All (IsFrom calls ms) new

  handle_all-Adds :
      (ms : List FabricEnvelope) (n : Counts) (p : EventPipeline)
      → Adds ms p (handle_all calls ms n p).1
  unfolding handle_all
  handle_all-Adds [] n p = ([], sym (append-nil p.events), tt)
  handle_all-Adds (m ∷ ms) n p =
      next (handle calls m n p) (λ n' p'. handle_all-Adds ms n' p') (handle-AddsOne m n p)
    where
      joined :
          (es : List CanonicalEvent) (p' : EventPipeline)
          → AddsOne m p p'
          → ((new : List CanonicalEvent) × (es ≡ p'.events ++ new) × All (IsFrom calls ms) new)
          → (new : List CanonicalEvent) × (es ≡ p.events ++ new) × All (IsFrom calls (m ∷ ms)) new
      joined es p' (inl same) (new, e, from) =
          (new, e ∙ ap (λ x. x ++ new) same, All-map (IsFrom calls ms) (λ event h. inr h) new from)
      joined es p' (inr (event, one, made)) (new, e, from) = (
        event ∷ new,
        e ∙ ap (λ x. x ++ new) one ∙ append_assoc p.events (event ∷ []) new,
        (inl made, All-map (IsFrom calls ms) (λ event h. inr h) new from),
      )

      next :
          (step : Result Counts × EventPipeline)
          → ((n' : Counts) (p' : EventPipeline) → Adds ms p' (handle_all calls ms n' p').1)
          → AddsOne m p step.1
          → Adds (m ∷ ms) p (handled calls (handle_all calls ms) step).1
      next (err exc, p') again one = joined p'.events p' one ([], sym (append-nil p'.events), tt)
      next (ok n', p') again one = joined _ p' one (again n' p')

-- Each event that a drain of the raw topic adds to the normalized ones is what the normalizer makes of
-- the payload of one of the messages that the drain was handed, and its tenant is that message's.
pub drain_raw-Adds :
    (calls : Calls) (group : String) (p : EventPipeline) (queue : List FabricEnvelope)
    (first : Result Counts × EventPipeline)
    → lookup raw p.fabric.topics ≡ some queue
    → drain_raw calls group p ≡ some first
    → Adds calls (first_fresh group p.fabric.consumed queue) p first.1
drain_raw-Adds calls group p queue first known h =
    let (fabric, ran, rest) = drain_raw-first_fresh calls group p queue known in
    subst
      (λ (f : Result Counts × EventPipeline).
        Adds calls (first_fresh group p.fabric.consumed queue) p f.1)
      (some_injective (sym ran ∙ h))
      (handle_all-Adds calls (first_fresh group p.fabric.consumed queue) _ (with_fabric p fabric))
