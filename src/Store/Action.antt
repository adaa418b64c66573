-- ===== src/Store/Action.antt =====
-- A call of a service: it reads and changes the database, and returns or raises. What was written before
-- a raise is still there in the session; the request then rolls it back.
use blue_team_os.Prelude.{
  ℕ, ◌+◌, String, Bool, false, ◌&&◌, ◌||◌, ◌==◌, List, [], ◌∷◌, ◌++◌, any, Option, none, some,
  if◌then◌else◌,
}
use blue_team_os.Errors.{Error, Result, ok, err, runtime_error}
use blue_team_os.Store.Tables.{Db, FindingRecord}

abbrev pub Action {ℓ} : Type ℓ → Type ℓ
Action A = Db → Result A × Db

abbrev pub continue {ℓ κ} :
    {A : Type ℓ} {B : Type κ} → (A → Action B) → Result A × Db → Result B × Db
continue next (ok a, db) = next a db
continue next (err exc, db) = (err exc, db)

infixl 5 ◌>>=◌ ◌>>◌
abbrev pub ◌>>=◌ {ℓ κ} : {A : Type ℓ} {B : Type κ} → Action A → (A → Action B) → Action B
(first >>= next) db = continue next (first db)

abbrev pub ◌>>◌ {ℓ κ} : {A : Type ℓ} {B : Type κ} → Action A → Action B → Action B
(first >> next) db = continue (λ _. next) (first db)

abbrev pub give {ℓ} : {A : Type ℓ} → A → Action A
give a db = (ok a, db)

abbrev pub throw {ℓ} : {A : Type ℓ} → Error → Action A
throw exc db = (err exc, db)

abbrev pub ask {ℓ} : {A : Type ℓ} → (Db → A) → Action A
ask f db = (ok (f db), db)

abbrev pub write : (Db → Db) → Action (Unit {0})
write f db = (ok tt, f db)

-- if guard: raise exc
abbrev pub throw_if : Bool → Error → Action (Unit {0})
throw_if guard exc db = (if guard then err exc else ok tt, db)

-- What scalar_one_or_none found, or an exception.
abbrev pub found_or {ℓ} : {A : Type ℓ} → Error → Option A → Action A
found_or exc none = throw exc
found_or exc (some a) = give a

-- scalar_one_or_none(): several rows are an exception of the database.
abbrev pub one_or_none {ℓ} : {A : Type ℓ} → List A → Action (Option A)
one_or_none [] = give none
one_or_none (row ∷ []) = give (some row)
one_or_none (row ∷ other ∷ rows) = throw (runtime_error "Multiple rows were found")

abbrev is_finding_of : String → String → FindingRecord → Bool
is_finding_of tenant_id fingerprint f = f.tenant_id == tenant_id && f.fingerprint == fingerprint

-- The constraint uq_finding_fingerprint, for rows that are added one after the other.
abbrev pub clashes : (stored added : List FindingRecord) → Bool
clashes stored [] = false
clashes stored (f ∷ added) =
    any (is_finding_of f.tenant_id f.fingerprint) stored || clashes (stored ++ f ∷ []) added

-- db.flush()
unfoldable pub flush : Action (Unit {0})
flush db =
    if clashes db.findings db.added_findings
    then (err (runtime_error "uq_finding_fingerprint"), db)
    else (
      ok tt,
      record db {
        findings = db.findings ++ db.added_findings;
        alerts = db.alerts ++ db.added_alerts;
        added_findings = [];
        added_alerts = [];
      },
    )

-- A number that no other draw has had.
abbrev pub draw : Action ℕ
draw db = (ok db.drawn, record db { drawn = db.drawn + 1 })

-- new_id(prefix), utcnow() and isoformat(), by the number of the draw.
pub record Source : Type 0 where
  pub new_id : String → ℕ → String
  pub utcnow : ℕ → ℕ
  pub isoformat : ℕ → String

abbrev pub new_id : Source → String → Action String
new_id source prefix db = (ok (source.new_id prefix db.drawn), record db { drawn = db.drawn + 1 })

abbrev pub utcnow : Source → Action ℕ
utcnow source db = (ok (source.utcnow db.drawn), record db { drawn = db.drawn + 1 })

-- utcnow().isoformat()
abbrev pub now_text : Source → Action String
now_text source db =
    (ok (source.isoformat (source.utcnow db.drawn)), record db { drawn = db.drawn + 1 })
