-- ===== src/Audit/Chain.antt =====
-- The chain of hashes: what is written verifies, and what was changed or taken out does not.
use blue_team_os.Prelude.{
  ◌≡◌, refl, ◌∙◌, String, Bool, true, false, ◌||◌, not, ◌==◌, eq_iff, eq_refl, List, [], ◌∷◌, ◌++◌,
  if◌then◌else◌, arith,
}
use blue_team_os.Audit.{Payload, AuditLog, last_hash, chained_hash, check_rows}

links :
    (a b c d : String) (broken rest : Bool × String)
    → broken.0 ≡ false
    → (if not (a == b) || not (c == d) then broken else rest).0 ≡ true
    → (a ≡ b) × (c ≡ d) × (rest.0 ≡ true)
links a b c d (broken, m) (rest, m') e h = ground (arith, eq_iff a b, eq_iff c d)

linked :
    (a b c d : String) (broken rest : Bool × String)
    → a ≡ b
    → c ≡ d
    → (if not (a == b) || not (c == d) then broken else rest) ≡ rest
linked a b c d broken rest e f = rw (e, f, eq_refl b, eq_refl d) refl

module _ (sha256_hex : String → String) (canonical_json : Payload → String) where
  abbrev check : String → List AuditLog → Bool × String
  check = check_rows sha256_hex canonical_json

  -- The row follows the previous hash, and its own hash is of its contents.
  abbrev pub IsLinked : String → AuditLog → Type 0
  IsLinked previous row =
      (row.previous_hash ≡ previous)
      × (row.record_hash ≡ chained_hash sha256_hex canonical_json previous row.payload)

  -- Every row is linked to the one before it.
  abbrev pub IsChain : String → List AuditLog → Type 0
  IsChain previous [] = Unit
  IsChain previous (row ∷ rows) = IsLinked previous row × IsChain row.record_hash rows

  pub check-IsChain :
      (previous : String) (rows : List AuditLog)
      → (check previous rows).0 ≡ true
      → IsChain previous rows
  unfolding check_rows
  check-IsChain previous [] h = tt
  check-IsChain previous (row ∷ rows) h =
      let (follows, hashed, later) =
        links row.previous_hash previous row.record_hash _ (false, "audit chain break")
          (check row.record_hash rows) refl h in
      ((follows, hashed), check-IsChain row.record_hash rows later)

  pub IsChain-check :
      (previous : String) (rows : List AuditLog)
      → IsChain previous rows
      → check previous rows ≡ (true, "ok")
  unfolding check_rows
  IsChain-check previous [] h = refl
  IsChain-check previous (row ∷ rows) ((follows, hashed), later) =
      linked row.previous_hash previous row.record_hash _ (false, "audit chain break")
        (check row.record_hash rows) follows hashed
      ∙ IsChain-check row.record_hash rows later

  pub IsChain-concat :
      (previous : String) (rows : List AuditLog) (row : AuditLog)
      → IsChain previous rows
      → IsLinked (last_hash previous rows) row
      → IsChain previous (rows ++ row ∷ [])
  IsChain-concat previous [] row h k = (k, tt)
  IsChain-concat previous (first ∷ rows) row (h, hs) k =
      (h, IsChain-concat first.record_hash rows row hs k)

  pub IsChain-append :
      (previous : String) (rows later : List AuditLog)
      → IsChain previous (rows ++ later)
      → IsChain previous rows × IsChain (last_hash previous rows) later
  IsChain-append previous [] later h = (tt, h)
  IsChain-append previous (row ∷ rows) later (h, hs) =
      let (a, b) = IsChain-append row.record_hash rows later hs in ((h, a), b)
