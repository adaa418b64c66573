-- ===== src/Fabric/Retry.antt =====
-- What becomes of a message that is published for another attempt.
use blue_team_os.Prelude.{
  some_injective, ℕ, ◌+◌, ◌≡◌, refl, ◌∙◌, sym, ap, ◌⊎◌, inl, inr, String, true, false, not, Option,
  some, List, [], ◌∷◌, ◌++◌, ◌==◌, eq_iff, leb, mem_text, lookup, insert, lookup-insert_same,
  lookup-insert_other, All-append, Bool-cases, Option-cases, if_ind, subst, arith,
}
use blue_team_os.Value.{Value, Doc, Runtime}
use blue_team_os.Errors.{OnOk, Result, ok, err}
use blue_team_os.Event.{is_tenant, CanonicalEvent}
use blue_team_os.Fabric.Envelope.{FabricEnvelope, envelope, raw, normalized}
use blue_team_os.Fabric.Memory.{InMemoryFabric, publish, poisoned, dead_letter, group_key}
use blue_team_os.Fabric.Pipeline.{
  tried, EventPipeline, Calls, Counts, accept, handle, handle_all, drain_raw, with_fabric,
  publish_envelope, counted, handled,
}
use blue_team_os.Fabric.Fresh.{
  first_fresh, seen_after, AreKnown, seen_after-AreKnown, first_fresh-again,
}
use blue_team_os.Fabric.Drain.{IsDrained, consume_all-first_fresh}

same_text : (a b : String) → (a == b) ≡ true → a ≡ b
same_text a b h = ground (arith, eq_iff a b)

-- The envelope has the topic that it was made for.
envelope-topic :
    (py : Runtime) (new_id : String) (now : ℕ) (topic tenant_id : String) (payload : Doc)
    (event_id : Value) (key : Option String)
    → OnOk (λ m. m.topic ≡ topic) (envelope py new_id now topic tenant_id payload event_id key)
unfolding envelope
envelope-topic py new_id now topic tenant_id payload event_id key =
    if_ind (OnOk (λ (m : FabricEnvelope). m.topic ≡ topic)) (not (is_tenant tenant_id)) _ _
      (λ _. tt) (λ _. refl)

module _ (group : String) (seen : List String) where
  -- The group has had `seen`, and every message of the raw topic has a key in it.
  abbrev IsSpent : InMemoryFabric → Type 0
  IsSpent fabric =
      (fabric.consumed ≡ seen)
      × ((queue : List FabricEnvelope) × (lookup raw fabric.topics ≡ some queue)
          × AreKnown group seen queue)

  publish-IsSpent :
      (m : FabricEnvelope) (fabric : InMemoryFabric)
      → (mem_text (group_key group m) seen ≡ true) ⊎ ((m.topic == raw) ≡ false)
      → IsSpent fabric
      → IsSpent (publish m fabric).1
  unfolding publish
  publish-IsSpent m fabric allowed (same, (queue, known, spent)) =
      elim (Option-cases (lookup m.topic fabric.topics)) [
        | inl e ↦ rw (e, publish) (same, (queue, known, spent))
        | inr (held, e) ↦ rw (e, publish) (same, grown held e (Bool-cases (m.topic == raw)) allowed)
      ]
    where
      grown :
          (held : List FabricEnvelope)
          → lookup m.topic fabric.topics ≡ some held
          → ((m.topic == raw) ≡ true) ⊎ ((m.topic == raw) ≡ false)
          → (mem_text (group_key group m) seen ≡ true) ⊎ ((m.topic == raw) ≡ false)
          → (queue' : List FabricEnvelope) × (lookup raw
                (insert m.topic (held ++ m ∷ []) fabric.topics)
              ≡ some queue')
            × AreKnown group seen queue'
      grown held e (inr other) _ =
          (queue, lookup-insert_other m.topic raw _ fabric.topics other ∙ known, spent)
      grown held e (inl raw_topic) (inr other) = ground arith
      grown held e (inl raw_topic) (inl k) = (
        held ++ m ∷ [],
        subst (λ t. lookup raw (insert t (held ++ m ∷ []) fabric.topics) ≡ some (held ++ m ∷ []))
            (sym (same_text m.topic raw raw_topic))
            (lookup-insert_same raw (held ++ m ∷ []) fabric.topics),
        All-append _ held (m ∷ [])
            (subst (AreKnown group seen)
              (some_injective (
                sym known
                ∙ subst (λ t. lookup t fabric.topics ≡ some held) (same_text m.topic raw raw_topic)
                    e))
              spent)
            (k, tt),
      )

  abbrev IsSpentAfter {ℓ} : {A : Type ℓ} → A × EventPipeline → Type 0
  IsSpentAfter step = IsSpent step.1.fabric

  publish_envelope-IsSpent :
      (p : EventPipeline) (r : Result FabricEnvelope)
      → OnOk (λ m. m.topic ≡ normalized) r
      → IsSpent p.fabric
      → IsSpentAfter (publish_envelope p r)
  publish_envelope-IsSpent p (err exc) t h = h
  publish_envelope-IsSpent p (ok m) t h =
      publish-IsSpent m p.fabric (inr (subst (λ n. (n == raw) ≡ false) (sym t) refl)) h

  accept-IsSpent :
      (calls : Calls) (message : FabricEnvelope) (r : Result CanonicalEvent) (p : EventPipeline)
      → IsSpent p.fabric
      → IsSpentAfter (accept calls message r p)
  accept-IsSpent calls message (err exc) p h = h
  accept-IsSpent calls message (ok event) p h =
      if_ind (IsSpentAfter {A = Result String}) (not (event.tenant_id == message.tenant_id)) _ _
        (λ _. h)
        λ _.
          if_ind (IsSpentAfter {A = Result String}) (event.schema_version == "") _ _ (λ _. h)
            λ _. publish_envelope-IsSpent _ _ (envelope-topic _ _ _ _ _ _ _ _) h

  counted-IsSpent :
      (calls : Calls) (n : Counts) (step : Result String × EventPipeline)
      → IsSpentAfter step
      → IsSpentAfter (counted calls n step)
  counted-IsSpent calls n (err exc, p) h = h
  counted-IsSpent calls n (ok event_id, p) h = h

  handle-IsSpent :
      (calls : Calls) (message : FabricEnvelope) (n : Counts) (p : EventPipeline)
      → mem_text (group_key group message) seen ≡ true
      → IsSpent p.fabric
      → IsSpentAfter (handle calls message n p)
  unfolding handle dead_letter poisoned
  handle-IsSpent calls message n p k h = tried-IsSpent _ (accept-IsSpent calls message _ p h)
    where
      tried-IsSpent :
          (step : Result String × EventPipeline)
          → IsSpentAfter step
          → IsSpentAfter (tried calls message n step)
      tried-IsSpent (ok event_id, p') h' = h'
      tried-IsSpent (err exc, p') h' =
          if_ind (IsSpentAfter {A = Result Counts}) (leb p'.max_attempts (message.attempt + 1)) _ _
            (λ _. counted-IsSpent calls _ _ (publish-IsSpent _ p'.fabric (inr refl) h'))
            (λ _. counted-IsSpent calls _ _ (publish-IsSpent _ p'.fabric (inl k) h'))

  handle_all-IsSpent :
      (calls : Calls) (messages : List FabricEnvelope) (n : Counts) (p : EventPipeline)
      → AreKnown group seen messages
      → IsSpent p.fabric
      → IsSpentAfter (handle_all calls messages n p)
  unfolding handle_all
  handle_all-IsSpent calls [] n p k h = h
  handle_all-IsSpent calls (m ∷ ms) n p (k, ks) h =
      next (handle calls m n p) (λ n' p' h'. handle_all-IsSpent calls ms n' p' ks h')
        (handle-IsSpent calls m n p k h)
    where
      next :
          (step : Result Counts × EventPipeline)
          → ((n' : Counts) (p' : EventPipeline)
              → IsSpent p'.fabric
              → IsSpentAfter (handle_all calls ms n' p'))
          → IsSpentAfter step
          → IsSpentAfter (handled calls (handle_all calls ms) step)
      next (err exc, p') again h' = h'
      next (ok n', p') again h' = again n' p' h'

pub drain_raw-first_fresh :
    (calls : Calls) (group : String) (p : EventPipeline) (queue : List FabricEnvelope)
    → lookup raw p.fabric.topics ≡ some queue
    → (fabric : InMemoryFabric) × (drain_raw calls group p
        ≡ some (
            handle_all calls
              (first_fresh group p.fabric.consumed queue)
              (record { accepted = 0; dead = 0 })
              (with_fabric p fabric)))
      × IsDrained raw group p.fabric queue fabric
unfolding drain_raw
drain_raw-first_fresh calls group p queue known =
    let (fabric, ran, rest) = consume_all-first_fresh raw group p.fabric queue known in
    (fabric, rw (ran, drain_raw) refl, rest)

-- A second drain of the raw topic by the same group, with nothing published in between, normalizes
-- nothing and sends nothing to the dead letters: whatever the first drain published for another
-- attempt is dropped.
pub drain_raw-drain_raw :
    (calls calls' : Calls) (group : String) (p : EventPipeline) (queue : List FabricEnvelope)
    (first : Result Counts × EventPipeline)
    → lookup raw p.fabric.topics ≡ some queue
    → drain_raw calls group p ≡ some first
    → (fabric : InMemoryFabric) × (drain_raw calls' group first.1
        ≡ some (ok (record { accepted = 0; dead = 0 }), with_fabric first.1 fabric))
      × (lookup raw fabric.topics ≡ some [])
unfolding drain_raw handle_all
drain_raw-drain_raw calls calls' group p queue first known h =
    let (fabric, ran, (empty, seen, others)) = drain_raw-first_fresh calls group p queue known in
    again (
      subst
        (λ (f : Result Counts × EventPipeline).
          IsSpentAfter group (seen_after group p.fabric.consumed queue) f)
        (some_injective (sym ran ∙ h))
        (handle_all-IsSpent group (seen_after group p.fabric.consumed queue) calls
          (first_fresh group p.fabric.consumed queue) _ (with_fabric p fabric)
          (seen_after-AreKnown group p.fabric.consumed queue) (seen, ([], empty, tt))))
  where
    again :
        IsSpentAfter group (seen_after group p.fabric.consumed queue) first
        → (fabric : InMemoryFabric) × (drain_raw calls' group first.1
            ≡ some (ok (record { accepted = 0; dead = 0 }), with_fabric first.1 fabric))
          × (lookup raw fabric.topics ≡ some [])
    again (same, (queue', known', spent)) =
        let (fabric, ran, (empty, seen, others)) =
          drain_raw-first_fresh calls' group first.1 queue' known' in
        (
          fabric,
          ran
              ∙ ap
                  (λ ms. some (
                    handle_all calls' ms (record { accepted = 0; dead = 0 })
                      (with_fabric first.1 fabric)))
                  (first_fresh-again group first.1.fabric.consumed queue'
                    (subst (λ s. AreKnown group s queue') (sym same) spent)),
          empty,
        )
