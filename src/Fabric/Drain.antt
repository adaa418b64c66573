-- ===== src/Fabric/Drain.antt =====
-- `_consume_all` ends, with the fresh messages of the queue.
use blue_team_os.Prelude.{
  nil≢cons, ◌==◌, lookup-insert_same, lookup-insert_other, append-nil, append_assoc, ℕ, zero, suc,
  ◌≡◌, ◌<◌, refl, ◌∙◌, sym, ap, ◌⊎◌, inl, inr, String, false, Option, some, List, [], ◌∷◌, ◌++◌,
  length, lookup, null, arith, subst,
}
use blue_team_os.Errors.{Result, ok}
use blue_team_os.Fabric.Envelope.{FabricEnvelope}
use blue_team_os.Fabric.Memory.{InMemoryFabric, Taken, take_batch, consume, after_take}
use blue_team_os.Fabric.Pipeline.{chunk_taken, consume_rounds, consume_all}
use blue_team_os.Fabric.Fresh.{
  AreNew, AreKnown, first_fresh-AreNew, seen_after-AreKnown, first_fresh, seen_after, Splits,
  take_batch-Splits, take_batch-progress,
}

-- Behind a drain: nothing is left in the topic, the keys are known, and the other queues are as before.
abbrev pub IsDrained :
    (topic group : String) → InMemoryFabric → List FabricEnvelope → InMemoryFabric → Type 0
IsDrained topic group fabric queue fabric' =
    (lookup topic fabric'.topics ≡ some [])
    × (fabric'.consumed ≡ seen_after group fabric.consumed queue)
    × ((other : String)
        → (topic == other) ≡ false
        → lookup other fabric'.topics ≡ lookup other fabric.topics)

abbrev Drains :
    (topic group : String)
    → (InMemoryFabric
        → List FabricEnvelope
        → Option (Result (List FabricEnvelope) × InMemoryFabric))
    → InMemoryFabric
    → (batch queue : List FabricEnvelope) → Type 0
Drains topic group again fabric batch queue =
    (fabric' : InMemoryFabric) × (again fabric batch
      ≡ some (ok (batch ++ first_fresh group fabric.consumed queue), fabric'))
    × IsDrained topic group fabric queue fabric'

-- One round, with what the next rounds do.
chunk_taken-Drains :
    (topic group : String)
    (again : InMemoryFabric
      → List FabricEnvelope
      → Option (Result (List FabricEnvelope) × InMemoryFabric))
    (fabric : InMemoryFabric) (batch queue : List FabricEnvelope) (t : Taken)
    (b : List FabricEnvelope)
    → t.batch ≡ b
    → Splits group queue fabric.consumed [] t
    → ((t.batch ≡ []) × (t.queue ≡ [])) ⊎ ((length t.queue < length queue) × (null t.batch ≡ false))
    → (length t.queue < length queue
        → Drains topic group again (after_take topic fabric t) (batch ++ t.batch) t.queue)
    → Drains topic group
        (λ f bs. chunk_taken bs again (ok b, after_take topic f t))
        fabric
        batch
        queue
chunk_taken-Drains topic group again fabric batch queue t [] e k p next = ended (used_up p)
  where
    used_up :
        ((t.batch ≡ []) × (t.queue ≡ []))
          ⊎ ((length t.queue < length queue) × (null t.batch ≡ false))
        → t.queue ≡ []
    used_up (inl h) = h.1
    used_up (inr h) = ground (arith, ap null e)

    ended :
        t.queue ≡ []
        → Drains topic group
            (λ f bs. chunk_taken bs again (ok [], after_take topic f t))
            fabric
            batch
            queue
    ended none_left = (
      after_take topic fabric t,
      ap (λ x. some (ok x, after_take topic fabric t))
          (sym (append-nil batch)
            ∙ ap (λ q. batch ++ q)
                (sym (
                    ap (λ b. b ++ first_fresh group t.consumed t.queue) e
                    ∙ ap (λ q. first_fresh group t.consumed q) none_left)
                  ∙ k.0)),
      (
        lookup-insert_same topic t.queue fabric.topics ∙ ap some none_left,
        sym (ap (λ q. seen_after group t.consumed q) none_left) ∙ k.1,
        λ other differs. lookup-insert_other topic other t.queue fabric.topics differs,
      ),
    )
chunk_taken-Drains topic group again fabric batch queue t (m ∷ ms) e k (inl p) next =
    absurd (nil≢cons (sym p.0 ∙ e))
chunk_taken-Drains topic group again fabric batch queue t (m ∷ ms) e k (inr p) next =
    grown (next p.0)
  where
    grown :
        Drains topic group again (after_take topic fabric t) (batch ++ t.batch) t.queue
        → Drains topic group
            (λ f bs. chunk_taken bs again (ok (m ∷ ms), after_take topic f t))
            fabric
            batch
            queue
    grown (fabric', eq, (empty, seen, others)) = (
      fabric',
      subst
          (λ x.
            again (after_take topic fabric t) (batch ++ x)
            ≡ some (ok (batch ++ first_fresh group fabric.consumed queue), fabric'))
          e
          (eq
            ∙ ap (λ x. some (ok x, fabric'))
                (append_assoc batch t.batch _ ∙ ap (λ q. batch ++ q) k.0)),
      (
        empty,
        seen ∙ k.1,
        λ other differs.
            others other differs ∙ lookup-insert_other topic other t.queue fabric.topics differs,
      ),
    )

consume-known :
    (topic : String) (n : ℕ) (group : String) (fabric : InMemoryFabric)
    (queue : List FabricEnvelope)
    → lookup topic fabric.topics ≡ some queue
    → let t = take_batch group topic queue n [] fabric.consumed fabric.offsets in
      consume topic n group fabric ≡ (ok t.batch, after_take topic fabric t)
unfolding consume
consume-known topic n group fabric queue known = rw (known, consume) refl

consume_rounds-first_fresh :
    (fuel : ℕ) (topic group : String) (fabric : InMemoryFabric) (batch queue : List FabricEnvelope)
    → lookup topic fabric.topics ≡ some queue
    → length queue < fuel
    → Drains topic group (consume_rounds fuel topic group) fabric batch queue
unfolding consume_rounds consume
consume_rounds-first_fresh zero topic group fabric batch queue known less =
    absurd (omega (arith, less))
consume_rounds-first_fresh (suc fuel) topic group fabric batch queue known less =
    let (fabric', eq, rest) =
      chunk_taken-Drains topic group (consume_rounds fuel topic group) fabric batch queue
        (take_batch group topic queue 500 [] fabric.consumed fabric.offsets) _ refl
        (take_batch-Splits group topic queue 500 [] fabric.consumed fabric.offsets)
        (take_batch-progress group topic queue 499 [] fabric.consumed fabric.offsets)
        (λ l.
          consume_rounds-first_fresh fuel topic group _ _ _
            (lookup-insert_same topic _ fabric.topics) (omega (arith, l, less))) in
    (
      fabric',
      ap (chunk_taken batch (consume_rounds fuel topic group))
            (consume-known topic 500 group fabric queue known)
          ∙ eq,
      rest,
    )

-- What the queue of a known topic holds is drained, each message whose key the group has not had yet
-- once, and in order; nothing is left in the topic, and the other topics stay as they are.
pub consume_all-first_fresh :
    (topic group : String) (fabric : InMemoryFabric) (queue : List FabricEnvelope)
    → lookup topic fabric.topics ≡ some queue
    → (fabric' : InMemoryFabric) × (consume_all topic group fabric
        ≡ some (ok (first_fresh group fabric.consumed queue), fabric'))
      × IsDrained topic group fabric queue fabric'
unfolding consume_all consume_rounds lookup
consume_all-first_fresh topic group fabric queue known = rw known (
    consume_rounds-first_fresh (suc (length queue)) topic group fabric [] queue known (omega arith))

-- A drain hands the group messages whose keys it has not had before, each key once, and the fabric
-- knows their keys afterwards.
pub consume_all-once :
    (topic group : String) (fabric : InMemoryFabric) (queue : List FabricEnvelope)
    → lookup topic fabric.topics ≡ some queue
    → (batch : List FabricEnvelope) × (fabric' : InMemoryFabric) × (consume_all topic group fabric
        ≡ some (ok batch, fabric'))
      × AreNew group fabric.consumed batch
      × AreKnown group fabric'.consumed batch
consume_all-once topic group fabric queue known =
    let (fabric', ran, (empty, seen, others)) =
      consume_all-first_fresh topic group fabric queue known in
    (
      first_fresh group fabric.consumed queue,
      fabric',
      ran,
      first_fresh-AreNew group fabric.consumed queue,
      subst (λ s. AreKnown group s (first_fresh group fabric.consumed queue)) (sym seen)
          (seen_after-AreKnown group fabric.consumed queue),
    )
