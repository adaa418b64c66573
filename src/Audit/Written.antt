-- ===== src/Audit/Written.antt =====
-- What write_audit has written verifies.
use blue_team_os.Prelude.{
  ◌≡◌, refl, ◌∙◌, sym, ap, String, true, false, ◌==◌, List, [], ◌∷◌, if◌then◌else◌, subst,
}
use blue_team_os.Audit.{
  Payload, AuditLog, AuditRequest, genesis_hash, next_sequence, last_hash, latest_hash, payload_of,
  chained_hash, write_audit, verify_audit_chain,
}
use blue_team_os.Audit.Order.{
  IsAscending, by_sequence-IsAscending, next_sequence-above, IsAscending-concat,
}
use blue_team_os.Audit.Chain.{IsChain, IsChain-check, IsChain-concat}

module _ (sha256_hex : String → String) (canonical_json : Payload → String)
    (digest : (s : String) → (sha256_hex s == "") ≡ false) where
  abbrev IsIntact : List AuditLog → Type 0
  IsIntact rows = IsAscending rows × IsChain sha256_hex canonical_json genesis_hash rows

  last_hash-filled :
      (previous : String) (rows : List AuditLog)
      → (previous == "") ≡ false
      → IsChain sha256_hex canonical_json previous rows
      → (last_hash previous rows == "") ≡ false
  unfolding chained_hash
  last_hash-filled previous [] h k = h
  last_hash-filled previous (row ∷ rows) h ((_, hashed), later) =
      last_hash-filled row.record_hash rows (subst (λ s. (s == "") ≡ false) (sym hashed) (digest _))
        later

  latest_hash-last :
      (rows : List AuditLog) → IsIntact rows → latest_hash rows ≡ last_hash genesis_hash rows
  unfolding latest_hash
  latest_hash-last rows (ascending, chain) =
      ap (λ rs. if last_hash "" rs == "" then genesis_hash else last_hash "" rs)
        (by_sequence-IsAscending rows ascending)
      ∙ last rows chain
    where
      last :
          (rows : List AuditLog)
          → IsChain sha256_hex canonical_json genesis_hash rows
          → (if last_hash "" rows == "" then genesis_hash else last_hash "" rows)
            ≡ last_hash genesis_hash rows
      last [] chain = refl
      last (row ∷ rows) chain = rw (last_hash-filled genesis_hash (row ∷ rows) refl chain) refl

  write_audit-IsIntact :
      (q : AuditRequest) (rows : List AuditLog)
      → IsIntact rows
      → IsIntact (write_audit sha256_hex canonical_json q rows)
  unfolding write_audit payload_of
  write_audit-IsIntact q rows (ascending, chain) = (
    IsAscending-concat rows _ ascending (next_sequence-above rows),
    IsChain-concat sha256_hex canonical_json genesis_hash rows _ chain (
      latest_hash-last rows (ascending, chain),
      ap (λ h. chained_hash sha256_hex canonical_json h (payload_of (next_sequence rows) q))
          (latest_hash-last rows (ascending, chain)),
    ),
  )

  -- The table that a list of calls of write_audit makes, the last call first.
  abbrev pub write_all : List AuditRequest → List AuditLog
  write_all [] = []
  write_all (q ∷ qs) = write_audit sha256_hex canonical_json q (write_all qs)

  write_all-IsIntact : (qs : List AuditRequest) → IsIntact (write_all qs)
  write_all-IsIntact [] = (tt, tt)
  write_all-IsIntact (q ∷ qs) = write_audit-IsIntact q (write_all qs) (write_all-IsIntact qs)

  -- Where the digests are not empty texts, the table that any calls of write_audit have made from the
  -- empty one verifies.
  pub verify_audit_chain-write_all :
      (qs : List AuditRequest)
      → verify_audit_chain sha256_hex canonical_json (write_all qs) ≡ (true, "ok")
  unfolding verify_audit_chain
  verify_audit_chain-write_all qs =
      let (ascending, chain) = write_all-IsIntact qs in
      rw (by_sequence-IsAscending (write_all qs) ascending)
        (IsChain-check sha256_hex canonical_json genesis_hash (write_all qs) chain)
