-- ===== src/Audit/Tamper.antt =====
-- What verify_audit_chain detects.
use blue_team_os.Prelude.{
  inl, inr, ◌≡◌, ◌≢◌, ◌<◌, ◌∙◌, sym, ap, String, true, false, List, [], ◌∷◌, ◌++◌, All, Bool-cases,
  subst,
}
use blue_team_os.Audit.{
  Payload, AuditLog, genesis_hash, by_sequence, chained_hash, verify_audit_chain,
}
use blue_team_os.Audit.Order.{IsAscending, by_sequence-IsAscending}
use blue_team_os.Audit.Chain.{IsChain, check-IsChain, IsChain-append}

module _ (sha256_hex : String → String) (canonical_json : Payload → String) where
  removed-IsAscending :
      (before after : List AuditLog) (row : AuditLog)
      → IsAscending (before ++ row ∷ after)
      → IsAscending (before ++ after)
  removed-IsAscending [] after row (h, k) = k
  removed-IsAscending (first ∷ before) after row (h, k) =
      (without before after row h, removed-IsAscending before after row k)
    where
      without :
          (before after : List AuditLog) (row : AuditLog)
          → All (λ later. first.payload.sequence < later.payload.sequence) (before ++ row ∷ after)
          → All (λ later. first.payload.sequence < later.payload.sequence) (before ++ after)
      without [] after row (h, k) = k
      without (b ∷ before) after row (h, k) = (h, without before after row k)

  verified-IsChain :
      (rows : List AuditLog)
      → IsAscending rows
      → (verify_audit_chain sha256_hex canonical_json rows).0 ≡ true
      → IsChain sha256_hex canonical_json genesis_hash rows
  unfolding verify_audit_chain
  verified-IsChain rows ascending h =
      subst (IsChain sha256_hex canonical_json genesis_hash)
        (by_sequence-IsAscending rows ascending)
        (check-IsChain sha256_hex canonical_json genesis_hash (by_sequence rows) h)

  -- When a row is taken out of a table that verifies, with a row behind it, the table verifies no more,
  -- unless the row's hash was the hash of the row before it.
  pub verify_audit_chain-removed :
      (before after : List AuditLog) (row next : AuditLog)
      → IsAscending (before ++ row ∷ next ∷ after)
      → (verify_audit_chain sha256_hex canonical_json (before ++ row ∷ next ∷ after)).0 ≡ true
      → row.record_hash ≢ row.previous_hash
      → (verify_audit_chain sha256_hex canonical_json (before ++ next ∷ after)).0 ≡ false
  verify_audit_chain-removed before after row next ascending valid differs =
      elim (Bool-cases (verify_audit_chain sha256_hex canonical_json (before ++ next ∷ after)).0) [
        | inr e ↦ e
        | inl e ↦
            let whole =
              IsChain-append sha256_hex canonical_json genesis_hash before (row ∷ next ∷ after)
                (verified-IsChain _ ascending valid) in
            let short =
              IsChain-append sha256_hex canonical_json genesis_hash before (next ∷ after)
                (verified-IsChain _ (removed-IsAscending before (next ∷ after) row ascending) e) in
            absurd (differs (sym whole.1.1.0.0 ∙ short.1.0.0 ∙ sym whole.1.0.0))
      ]

  changed-IsAscending :
      (before after : List AuditLog) (row changed : AuditLog)
      → changed.payload.sequence ≡ row.payload.sequence
      → IsAscending (before ++ row ∷ after)
      → IsAscending (before ++ changed ∷ after)
  changed-IsAscending [] after row changed same (h, k) =
      (subst (λ n. All (λ later. n < later.payload.sequence) after) (sym same) h, k)
  changed-IsAscending (first ∷ before) after row changed same (h, k) =
      (instead before after h, changed-IsAscending before after row changed same k)
    where
      instead :
          (before after : List AuditLog)
          → All (λ later. first.payload.sequence < later.payload.sequence) (before ++ row ∷ after)
          → All
              (λ later. first.payload.sequence < later.payload.sequence)
              (before ++ changed ∷ after)
      instead [] after (h, k) = (subst (λ n. first.payload.sequence < n) (sym same) h, k)
      instead (b ∷ before) after (h, k) = (h, instead before after k)

  -- When a row of a table that verifies, with a row behind it, is replaced by another of its sequence
  -- number, with its own hash computed anew or not, the table verifies no more; unless the other row
  -- has the hash and the previous hash of the first and the digest of its contents is that hash too.
  pub verify_audit_chain-changed :
      (before after : List AuditLog) (row changed next : AuditLog)
      → IsAscending (before ++ row ∷ next ∷ after)
      → (verify_audit_chain sha256_hex canonical_json (before ++ row ∷ next ∷ after)).0 ≡ true
      → changed.payload.sequence ≡ row.payload.sequence
      → ¬ (
          (changed.record_hash ≡ row.record_hash)
          × (changed.previous_hash ≡ row.previous_hash)
          × (chained_hash sha256_hex canonical_json row.previous_hash changed.payload
              ≡ row.record_hash))
      → (verify_audit_chain sha256_hex canonical_json (before ++ changed ∷ next ∷ after)).0 ≡ false
  verify_audit_chain-changed before after row changed next ascending valid same differs =
      elim (Bool-cases
        (verify_audit_chain sha256_hex canonical_json (before ++ changed ∷ next ∷ after)).0) [
          | inr e ↦ e
          | inl e ↦
              let ((follows, hashed), ((next_follows, _), _)) =
                (IsChain-append sha256_hex canonical_json genesis_hash before (row ∷ next ∷ after)
                  (verified-IsChain _ ascending valid)).1 in
              let ((follows', hashed'), ((next_follows', _), _)) =
                (IsChain-append sha256_hex canonical_json genesis_hash before
                  (changed ∷ next ∷ after)
                  (verified-IsChain _
                    (changed-IsAscending before (next ∷ after) row changed same ascending) e)).1 in
              absurd (
                differs (
                  sym next_follows' ∙ next_follows,
                  follows' ∙ sym follows,
                  ap (λ p. chained_hash sha256_hex canonical_json p changed.payload) follows
                      ∙ sym hashed'
                      ∙ sym next_follows'
                      ∙ next_follows,
                ))
        ]
