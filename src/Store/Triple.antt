-- ===== src/Store/Triple.antt =====
-- What holds behind a call that returns, where something held before it.
use blue_team_os.Prelude.{◌≡◌, refl, sym, ap, ◌∙◌, Bool, true, false, List, [], ◌∷◌}
use blue_team_os.Errors.{Error, Result, ok, err, ok_injective}
use blue_team_os.Store.Tables.{Db}
use blue_team_os.Store.Action.{Action, ◌>>=◌, ◌>>◌, continue, throw_if, one_or_none, found_or}

module _ {ℓ} {A : Type ℓ} where
  abbrev pub Returns : (A → Db → Type 0) → Result A × Db → Type 0
  Returns Q (ok a, db) = Q a db
  Returns Q (err exc, db) = Unit

  abbrev pub Triple : (Db → Type 0) → Action A → (A → Db → Type 0) → Type 0
  Triple P action Q = (db : Db) → P db → Returns Q (action db)

pub Returns-continue {ℓ κ} :
    {A : Type ℓ} {B : Type κ} (Q : A → Db → Type 0) (R : B → Db → Type 0) (next : A → Action B)
    (step : Result A × Db)
    → Returns Q step
    → ((a : A) → Triple (Q a) (next a) R)
    → Returns R (continue next step)
Returns-continue Q R next (ok a, db) q h = h a db q
Returns-continue Q R next (err exc, db) q h = tt

pub triple_bind {ℓ κ} :
    {A : Type ℓ} {B : Type κ} (P : Db → Type 0) (Q : A → Db → Type 0) (R : B → Db → Type 0)
    (first : Action A) (next : A → Action B)
    → Triple P first Q
    → ((a : A) → Triple (Q a) (next a) R)
    → Triple P (first >>= next) R
triple_bind P Q R first next h k db p = Returns-continue Q R next (first db) (h db p) k

-- A call ends in one way.
pub returns_once {ℓ} :
    {A : Type ℓ} (result : Result A × Db) {a a' : A} {db db' : Db}
    → result ≡ (ok a, db)
    → result ≡ (ok a', db')
    → (a ≡ a') × (db ≡ db')
returns_once result h k =
    let same = sym h ∙ k in (ok_injective (ap (λ p. p.0) same), ap (λ p. p.1) same)

pub not_both {ℓ} :
    {A : Type ℓ} (result : Result A × Db) {a : A} {exc : Error} {db db' : Db}
    → result ≡ (ok a, db)
    → result ≡ (err exc, db')
    → ⊥
not_both result h k = let same = ap (λ p. p.0) (sym h ∙ k) in cc same

-- Behind a guard that raises.
pub Returns-throw_if {ℓ} :
    {A : Type ℓ} (Q : A → Db → Type 0) (guard : Bool) (exc : Error) (next : Action A) (db : Db)
    → (guard ≡ false → Returns Q (next db))
    → Returns Q ((throw_if guard exc >> next) db)
Returns-throw_if Q true exc next db h = tt
Returns-throw_if Q false exc next db h = h refl

-- Behind a query for one row that raises where there is none.
pub Returns-found {ℓ κ} :
    {A : Type ℓ} {B : Type κ} (Q : B → Db → Type 0) (rows : List A) (exc : Error)
    (next : A → Action B) (db : Db)
    → ((row : A) → rows ≡ row ∷ [] → Returns Q (next row db))
    → Returns Q ((one_or_none rows >>= λ found. found_or exc found >>= next) db)
Returns-found Q [] exc next db h = tt
Returns-found Q (row ∷ []) exc next db h = h row refl
Returns-found Q (row ∷ other ∷ rows) exc next db h = tt

pub throw_if-passes {ℓ} :
    {A : Type ℓ} (guard : Bool) (exc : Error) (next : Action A) (db : Db)
    → guard ≡ false
    → (throw_if guard exc >> next) db ≡ next db
throw_if-passes true exc next db h = cc h
throw_if-passes false exc next db h = refl

pub throw_if-raises {ℓ} :
    {A : Type ℓ} (guard : Bool) (exc : Error) (next : Action A) (db : Db)
    → guard ≡ true
    → (throw_if guard exc >> next) db ≡ (err exc, db)
throw_if-raises true exc next db h = refl
throw_if-raises false exc next db h = cc h
