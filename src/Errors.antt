-- ===== src/Errors.antt =====
-- packages/python-common/blueteam_common/errors.py: the exceptions that the program raises, and the
-- result of code that may raise. Exceptions of Python itself are the other constructors.
use blue_team_os.Prelude.{subst, ℕ, String, ◌≡◌, refl}

pub record BlueTeamError : Type 0 where
  pub code : String
  pub message : String
  pub status_code : ℕ

pub data Error : Type 0 where
  raised : BlueTeamError → Error
  value_error key_error type_error permission_error runtime_error overflow_error : String → Error

pub data Result {ℓ} (A : Type ℓ) : Type ℓ where
  ok : A → Result A
  err : Error → Result A

-- An exception ends the block that it is raised in.
infixl 5 ◌>>=◌ ◌>>◌
abbrev pub ◌>>=◌ {ℓ κ} : {A : Type ℓ} {B : Type κ} → Result A → (A → Result B) → Result B
step >>= rest = elim step [ err exc ↦ err exc | ok value ↦ rest value ]

abbrev pub ◌>>◌ {ℓ κ} : {A : Type ℓ} {B : Type κ} → Result A → Result B → Result B
step >> rest = elim step [ err exc ↦ err exc | ok _ ↦ rest ]

-- BlueTeamError(code, message, status_code)
abbrev pub blue_team_error : String → String → ℕ → Error
blue_team_error c m s = raised (record { code = c; message = m; status_code = s })

abbrev pub not_found : String → Error
not_found m = blue_team_error "NOT_FOUND" m 404

abbrev pub permission_denied : String → Error
permission_denied m = blue_team_error "PERMISSION_DENIED" m 403

abbrev pub unauthorized : String → Error
unauthorized m = blue_team_error "UNAUTHORIZED" m 401

pub returned_bind {ℓ κ} :
    {A : Type ℓ} {B : Type κ} (step : Result A) (rest : A → Result B) {value : B}
    → (step >>= rest) ≡ ok value
    → (mid : A) × (step ≡ ok mid) × (rest mid ≡ ok value)
returned_bind (err exc) rest h = cc
returned_bind (ok mid) rest h = (mid, refl, h)

abbrev pub Returned {ℓ} : {A : Type ℓ} → Result A → Type ℓ
Returned {A} result = (a : A) × (result ≡ ok a)

-- P of what a computation returns; nothing of what it raises.
abbrev pub OnOk {ℓ κ} : {A : Type ℓ} → (A → Type κ) → Result A → Type κ
OnOk P (ok a) = P a
OnOk P (err e) = Unit

pub OnOk-bind {ℓ κ μ} :
    {A : Type ℓ} {B : Type κ} (P : B → Type μ) (m : Result A) (f : A → Result B)
    → ((a : A) → m ≡ ok a → OnOk P (f a))
    → OnOk P (m >>= f)
OnOk-bind P (ok a) f h = h a refl
OnOk-bind P (err e) f h = tt

pub OnOk-map {ℓ κ μ} :
    {A : Type ℓ} {P : A → Type κ} {Q : A → Type μ}
    → ((a : A) → P a → Q a)
    → (m : Result A) → OnOk P m
    → OnOk Q m
OnOk-map f (ok a) h = f a h
OnOk-map f (err e) h = tt

pub OnOk-elim {ℓ κ} :
    {A : Type ℓ} (P : A → Type κ) (m : Result A) {a : A} → OnOk P m → m ≡ ok a → P a
OnOk-elim P m h e = subst (OnOk P) e h

pub OnOk-then {ℓ κ μ ν} :
    {A : Type ℓ} {B : Type κ} (Q : A → Type ν) (P : B → Type μ) (m : Result A) (f : A → Result B)
    → OnOk Q m
    → ((a : A) → Q a → OnOk P (f a))
    → OnOk P (m >>= f)
OnOk-then Q P (ok a) f q h = h a q
OnOk-then Q P (err e) f q h = tt

pub ok_injective {ℓ} : {A : Type ℓ} {a b : A} → ok a ≡ ok b → a ≡ b
ok_injective e = cc e
