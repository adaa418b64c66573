-- ===== src/Quality/Bounds.antt =====
-- What the points of an index are at most, and what they were earned by.
use blue_team_os.Prelude.{
  ℕ, zero, suc, ◌+◌, ◌≡◌, ◌≢◌, ◌≤◌, refl, String, Bool, true, false, not, Option, none, some, List,
  [], ◌∷◌, null, lookup, All, All-append, if_ind, subst, arith,
}
use blue_team_os.Errors.{ok, returned_bind, ok_injective, OnOk, OnOk-bind, OnOk-elim}
use blue_team_os.Value.{ℤ, pos, negsuc}
use blue_team_os.Quality.Points.{diff, ◌+ℤ◌, le, min}
use blue_team_os.Quality.Index.{
  quality_domains, MaturityBand, prototype, basic_soc, professional, advanced, expert, gse_calibre,
  elite, maturity_band, QualityCheckResult, QualityIndex, normalize, points_of, Tally, add_check,
  known_domain, tally, domain_scores, sum, compute_quality_index,
}

diff-le : (m n d : ℕ) → m ≤ d → le (diff m n) (pos d) ≡ true
diff-le m zero d h = ground (arith, h)
diff-le zero (suc n) d h = refl
diff-le (suc m) (suc n) d h = diff-le m n d (omega (arith, h))

add-le :
    (x y : ℤ) (c d : ℕ)
    → le x (pos c) ≡ true
    → le y (pos d) ≡ true
    → le (x +ℤ y) (pos (c + d)) ≡ true
add-le (pos m) (pos n) c d h k = ground arith
add-le (pos m) (negsuc n) c d h k = diff-le m (suc n) (c + d) (ground arith)
add-le (negsuc m) (pos n) c d h k = diff-le n (suc m) (c + d) (ground arith)
add-le (negsuc m) (negsuc n) c d h k = refl

min-le : (c : ℕ) (x : ℤ) → le (min (pos c) x) (pos c) ≡ true
min-le c (pos m) = ground arith
min-le c (negsuc m) = refl

-- The sum of the ceilings.
abbrev pub ceilings : List (String × ℕ) → ℕ
ceilings [] = 0
ceilings ((domain, ceiling) ∷ domains) = ceiling + ceilings domains

domain_scores-le :
    (domains : List (String × ℕ)) (awarded : List (String × ℤ))
    → le (sum (domain_scores domains awarded)) (pos (ceilings domains)) ≡ true
unfolding domain_scores
domain_scores-le [] awarded = refl
domain_scores-le ((domain, ceiling) ∷ domains) awarded =
    add-le _ (sum (domain_scores domains awarded)) ceiling (ceilings domains)
      (min-le ceiling (points_of domain awarded)) (domain_scores-le domains awarded)

not_elite : (score : ℤ) → le score (pos 940) ≡ true → maturity_band score ≢ elite
unfolding maturity_band
not_elite (pos m) h e = ground arith
not_elite (negsuc m) h e = ground arith

-- No points without evidence, and none for a check that did not pass.
abbrev pub IsEarned : QualityCheckResult → Type 0
IsEarned check =
    (null check.evidence_ids ≡ true → (check.awarded_points ≡ pos 0) × (check.passed ≡ false))
    × (check.passed ≡ false → check.awarded_points ≡ pos 0)

normalize-IsEarned : (check : QualityCheckResult) → IsEarned (normalize check)
unfolding normalize
normalize-IsEarned check =
    if_ind IsEarned (null check.evidence_ids) _ _ (λ none. (λ _. (refl, refl), λ _. refl))
      λ has.
        if_ind IsEarned (not check.passed) _ _
          (λ unpassed. (λ none. absurd (unlike none has), λ _. refl))
          (λ passed. (λ none. absurd (unlike none has), λ fails. absurd (fails_not passed fails)))
  where
    unlike : {b : Bool} → b ≡ true → b ≢ false
    unlike h k = cc (h, k)

    fails_not : {b : Bool} → not b ≡ false → b ≢ false
    fails_not {b} h k = ground arith

known_domain-IsEarned :
    (check kept : QualityCheckResult) (ceiling : Option ℕ)
    → known_domain check ceiling ≡ ok kept
    → IsEarned kept
known_domain-IsEarned check kept none e = absurd cc
known_domain-IsEarned check kept (some ceiling) e =
    subst IsEarned (ok_injective e) (normalize-IsEarned check)

tally-IsEarned :
    (checks : List QualityCheckResult) (t : Tally)
    → All IsEarned t.normalized
    → OnOk (λ t'. All IsEarned t'.normalized) (tally checks t)
unfolding tally
tally-IsEarned [] t h = h
tally-IsEarned (check ∷ checks) t h =
    OnOk-bind (λ (t' : Tally). All IsEarned t'.normalized)
      (known_domain check (lookup check.domain quality_domains)) _
      (λ kept e. tally-IsEarned checks (add_check kept t) (
        All-append IsEarned t.normalized (kept ∷ []) h
          (known_domain-IsEarned check kept (lookup check.domain quality_domains) e, tt)))

-- The total of an index is at most 940, the sum of the ceilings of the domains, and so its band is
-- never "elite", though the index says that 1000 points can be had; and each check that the index keeps
-- has no points unless it has evidence and passed.
pub compute_quality_index-total :
    (checks : List QualityCheckResult) (computed_at : ℕ) (model_version : String)
    (index : QualityIndex)
    → compute_quality_index checks computed_at model_version ≡ ok index
    → (le index.total (pos 940) ≡ true) × (index.band ≢ elite) × All IsEarned index.checks
unfolding compute_quality_index
compute_quality_index-total checks computed_at model_version index h =
    let (t, tallied, e) =
      returned_bind (tally checks (record { awarded = []; normalized = [] })) _ h in
    subst
      (λ (i : QualityIndex).
        (le i.total (pos 940) ≡ true) × (i.band ≢ elite) × All IsEarned i.checks)
      (ok_injective e)
      (
        domain_scores-le quality_domains t.awarded,
        not_elite _ (domain_scores-le quality_domains t.awarded),
        OnOk-elim (λ (t : Tally). All IsEarned t.normalized)
            (tally checks (record { awarded = []; normalized = [] }))
            (tally-IsEarned checks (record { awarded = []; normalized = [] }) tt) tallied,
      )

abbrev pub rank : MaturityBand → ℕ
rank prototype = 0
rank basic_soc = 1
rank professional = 2
rank advanced = 3
rank expert = 4
rank gse_calibre = 5
rank elite = 6

-- A higher score never has a lower band.
pub maturity_band-le : (x y : ℤ) → le x y ≡ true → rank (maturity_band x) ≤ rank (maturity_band y)
unfolding maturity_band
maturity_band-le (pos m) (pos n) h = ground arith
maturity_band-le (pos m) (negsuc n) h = ground arith
maturity_band-le (negsuc m) (pos n) h = omega arith
maturity_band-le (negsuc m) (negsuc n) h = omega arith
