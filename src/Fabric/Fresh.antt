-- ===== src/Fabric/Fresh.antt =====
-- What a group is handed: the first message of each new key, once.
use Prim.Native.String.{◌++◌ as text_append}
use blue_team_os.Prelude.{
  All, append_assoc, ℕ, zero, suc, ◌≡◌, ◌≤◌, ◌<◌, refl, ◌∙◌, sym, ap, ◌⊎◌, inl, inr, String, true,
  false, List, [], ◌∷◌, ◌++◌, length, mem_text, Bool-cases, null, arith, eq_refl, subst,
  mem_text-append,
}
use blue_team_os.Fabric.Envelope.{FabricEnvelope}
use blue_team_os.Fabric.Memory.{bump, Taken, take_batch, group_key}

-- The messages of a queue whose key is not in `seen`, the first of each key.
abbrev pub first_fresh :
    (group : String) → (seen : List String) → List FabricEnvelope → List FabricEnvelope
first_fresh group seen [] = []
first_fresh group seen (m ∷ ms) = elim (mem_text (group_key group m) seen) [
  | true ↦ first_fresh group seen ms
  | false ↦ m ∷ first_fresh group (seen ++ group_key group m ∷ []) ms
]

-- The keys that have been seen behind them.
abbrev pub seen_after : (group : String) → (seen : List String) → List FabricEnvelope → List String
seen_after group seen [] = seen
seen_after group seen (m ∷ ms) = elim (mem_text (group_key group m) seen) [
  | true ↦ seen_after group seen ms
  | false ↦ seen_after group (seen ++ group_key group m ∷ []) ms
]

module _ (group : String) (m : FabricEnvelope) (queue : List FabricEnvelope)
    (seen : List String) where
  first_fresh-known :
      mem_text (group_key group m) seen ≡ true
      → first_fresh group seen (m ∷ queue) ≡ first_fresh group seen queue
  first_fresh-known e = rw (e, first_fresh) refl

  first_fresh-new :
      mem_text (group_key group m) seen ≡ false
      → first_fresh group seen (m ∷ queue)
        ≡ m ∷ first_fresh group (seen ++ group_key group m ∷ []) queue
  first_fresh-new e = rw (e, first_fresh) refl

  seen_after-known :
      mem_text (group_key group m) seen ≡ true
      → seen_after group seen (m ∷ queue) ≡ seen_after group seen queue
  seen_after-known e = rw (e, seen_after) refl

  seen_after-new :
      mem_text (group_key group m) seen ≡ false
      → seen_after group seen (m ∷ queue) ≡ seen_after group (seen ++ group_key group m ∷ []) queue
  seen_after-new e = rw (e, seen_after) refl

-- A batch and the queue behind it hold the fresh messages between them, and the queue got shorter
-- if the batch is not empty.
abbrev pub Splits :
    (group : String) → List FabricEnvelope → List String → List FabricEnvelope → Taken → Type 0
Splits group queue seen batch t =
    (t.batch ++ first_fresh group t.consumed t.queue ≡ batch ++ first_fresh group seen queue)
    × (seen_after group t.consumed t.queue ≡ seen_after group seen queue)
    × (length t.queue ≤ length queue)

pub take_batch-Splits :
    (group topic : String) (queue : List FabricEnvelope) (room : ℕ) (batch : List FabricEnvelope)
    (seen : List String) (offsets : List (String × ℕ))
    → Splits group queue seen batch (take_batch group topic queue room batch seen offsets)
unfolding take_batch
take_batch-Splits group topic [] room batch seen offsets = (refl, refl, omega arith)
take_batch-Splits group topic (m ∷ queue) zero batch seen offsets = (refl, refl, omega arith)
take_batch-Splits group topic (m ∷ queue) (suc room) batch seen offsets =
    elim (Bool-cases (mem_text (group_key group m) seen)) [
      | inl e ↦
          let (b, s, l) = take_batch-Splits group topic queue (suc room) batch seen offsets in
          rw (e, take_batch)
            (
              b ∙ ap (λ q. batch ++ q) (sym (first_fresh-known group m queue seen e)),
              s ∙ sym (seen_after-known group m queue seen e),
              omega (arith, l),
            )
      | inr e ↦
          let (b, s, l) =
            take_batch-Splits group topic queue room (batch ++ m ∷ [])
              (seen ++ group_key group m ∷ []) _ in
          rw (e, take_batch)
            (
              b
                  ∙ append_assoc batch (m ∷ []) _
                  ∙ ap (λ q. batch ++ q) (sym (first_fresh-new group m queue seen e)),
              s ∙ sym (seen_after-new group m queue seen e),
              omega (arith, l),
            )
    ]

null-concat : (xs : List FabricEnvelope) (x : FabricEnvelope) → null (xs ++ x ∷ []) ≡ false
null-concat [] x = refl
null-concat (y ∷ ys) x = refl

take_batch-keeps :
    (group topic : String) (queue : List FabricEnvelope) (room : ℕ) (batch : List FabricEnvelope)
    (seen : List String) (offsets : List (String × ℕ))
    → null batch ≡ false
    → null (take_batch group topic queue room batch seen offsets).batch ≡ false
unfolding take_batch
take_batch-keeps group topic [] room batch seen offsets h = h
take_batch-keeps group topic (m ∷ queue) zero batch seen offsets h = h
take_batch-keeps group topic (m ∷ queue) (suc room) batch seen offsets h =
    elim (Bool-cases (mem_text (group_key group m) seen)) [
      | inl e ↦
          rw (e, take_batch) (take_batch-keeps group topic queue (suc room) batch seen offsets h)
      | inr e ↦
          rw (e, take_batch)
            (take_batch-keeps group topic queue room (batch ++ m ∷ []) _ _ (null-concat batch m))
    ]

-- With room for a message, the queue is used up or the batch has a message that the queue had.
pub take_batch-progress :
    (group topic : String) (queue : List FabricEnvelope) (room : ℕ) (batch : List FabricEnvelope)
    (seen : List String) (offsets : List (String × ℕ))
    → let t = take_batch group topic queue (suc room) batch seen offsets in
      ((t.batch ≡ batch) × (t.queue ≡ []))
      ⊎ ((length t.queue < length queue) × (null t.batch ≡ false))
unfolding take_batch
take_batch-progress group topic [] room batch seen offsets = inl (refl, refl)
take_batch-progress group topic (m ∷ queue) room batch seen offsets =
    elim (Bool-cases (mem_text (group_key group m) seen)) [
      | inl e ↦
          rw (e, take_batch)
            (longer _ _ (take_batch-progress group topic queue room batch seen offsets))
      | inr e ↦
          let (b, s, l) =
            take_batch-Splits group topic queue room (batch ++ m ∷ [])
              (seen ++ group_key group m ∷ [])
              (bump (text_append group (text_append ":" topic)) offsets) in
          rw (e, take_batch)
            (inr (
              omega (arith, l),
              take_batch-keeps group topic queue room (batch ++ m ∷ []) _ _ (null-concat batch m),
            ))
    ]
  where
    longer :
        (b q : List FabricEnvelope)
        → ((b ≡ batch) × (q ≡ [])) ⊎ ((length q < length queue) × (null b ≡ false))
        → ((b ≡ batch) × (q ≡ [])) ⊎ ((length q < suc (length queue)) × (null b ≡ false))
    longer b q (inl h) = inl h
    longer b q (inr (l, e)) = inr (omega (arith, l), e)

-- No key of the messages is in `seen`, and no two of them have the same key.
abbrev pub AreNew : (group : String) → (seen : List String) → List FabricEnvelope → Type 0
AreNew group seen [] = Unit
AreNew group seen (m ∷ ms) =
    (mem_text (group_key group m) seen ≡ false) × AreNew group (seen ++ group_key group m ∷ []) ms

-- The messages that a group is handed have keys that it has not had before, each key once.
pub first_fresh-AreNew :
    (group : String) (seen : List String) (queue : List FabricEnvelope)
    → AreNew group seen (first_fresh group seen queue)
first_fresh-AreNew group seen [] = tt
first_fresh-AreNew group seen (m ∷ ms) = elim (Bool-cases (mem_text (group_key group m) seen)) [
  | inl e ↦
      subst (AreNew group seen) (sym (first_fresh-known group m ms seen e))
        (first_fresh-AreNew group seen ms)
  | inr e ↦
      subst (AreNew group seen) (sym (first_fresh-new group m ms seen e))
        (e, first_fresh-AreNew group (seen ++ group_key group m ∷ []) ms)
]

-- What has been seen once, a drain with the same messages does not give again.
pub first_fresh-again :
    (group : String) (seen : List String) (queue : List FabricEnvelope)
    → All (λ m. mem_text (group_key group m) seen ≡ true) queue
    → first_fresh group seen queue ≡ []
first_fresh-again group seen [] h = refl
first_fresh-again group seen (m ∷ ms) (h, k) =
    rw (h, first_fresh) (first_fresh-again group seen ms k)

seen_after-grows :
    (group : String) (seen : List String) (queue : List FabricEnvelope) (key : String)
    → mem_text key seen ≡ true
    → mem_text key (seen_after group seen queue) ≡ true
seen_after-grows group seen [] key h = h
seen_after-grows group seen (m ∷ ms) key h = elim (Bool-cases (mem_text (group_key group m) seen)) [
  | inl e ↦
      subst (λ s. mem_text key s ≡ true) (sym (seen_after-known group m ms seen e))
        (seen_after-grows group seen ms key h)
  | inr e ↦
      subst (λ s. mem_text key s ≡ true) (sym (seen_after-new group m ms seen e))
        (seen_after-grows group (seen ++ group_key group m ∷ []) ms key
          (mem_text-append key seen (group_key group m ∷ []) ∙ rw h refl))
]

-- The keys of what a group was handed are known behind it.
abbrev pub AreKnown : (group : String) → (seen : List String) → List FabricEnvelope → Type 0
AreKnown group seen messages = All (λ m. mem_text (group_key group m) seen ≡ true) messages

pub seen_after-AreKnown :
    (group : String) (seen : List String) (queue : List FabricEnvelope)
    → AreKnown group (seen_after group seen queue) (first_fresh group seen queue)
unfolding mem_text
seen_after-AreKnown group seen [] = tt
seen_after-AreKnown group seen (m ∷ ms) = elim (Bool-cases (mem_text (group_key group m) seen)) [
  | inl e ↦
      subst (λ s. AreKnown group s (first_fresh group seen (m ∷ ms)))
        (sym (seen_after-known group m ms seen e))
        (subst (AreKnown group (seen_after group seen ms))
          (sym (first_fresh-known group m ms seen e)) (seen_after-AreKnown group seen ms))
  | inr e ↦
      subst (λ s. AreKnown group s (first_fresh group seen (m ∷ ms)))
        (sym (seen_after-new group m ms seen e))
        (subst (AreKnown group (seen_after group (seen ++ group_key group m ∷ []) ms))
          (sym (first_fresh-new group m ms seen e))
          (
            seen_after-grows group _ ms (group_key group m) (
                mem_text-append (group_key group m) seen (group_key group m ∷ [])
                ∙ ground (arith, eq_refl (group_key group m))),
            seen_after-AreKnown group (seen ++ group_key group m ∷ []) ms,
          ))
]
