-- ===== src/Audit/Order.antt =====
-- The sequence numbers of the rows that were written.
use blue_team_os.Prelude.{
  ◌≡◌, ◌<◌, ◌≤◌, refl, ◌∙◌, ap, List, [], ◌∷◌, ◌++◌, All, All-map, All-append, arith,
}
use blue_team_os.Audit.{AuditLog, next_sequence, place, by_sequence}

-- The rows stand in the order of their sequence numbers, each below the next.
abbrev pub IsAscending : List AuditLog → Type 0
IsAscending [] = Unit
IsAscending (row ∷ rows) =
    All (λ later. row.payload.sequence < later.payload.sequence) rows × IsAscending rows

place-first :
    (row : AuditLog) (rows : List AuditLog)
    → All (λ later. row.payload.sequence < later.payload.sequence) rows
    → place row rows ≡ row ∷ rows
place-first row [] h = refl
place-first row (other ∷ rows) (h, _) = ground (arith, h)

pub by_sequence-IsAscending : (rows : List AuditLog) → IsAscending rows → by_sequence rows ≡ rows
unfolding by_sequence
by_sequence-IsAscending [] h = refl
by_sequence-IsAscending (row ∷ rows) (h, k) =
    ap (place row) (by_sequence-IsAscending rows k) ∙ place-first row rows h

next_sequence-grows :
    (row : AuditLog) (rows : List AuditLog)
    → (next_sequence rows ≤ next_sequence (row ∷ rows))
      × (row.payload.sequence < next_sequence (row ∷ rows))
unfolding next_sequence
next_sequence-grows row rows = ground arith

pub next_sequence-above :
    (rows : List AuditLog) → All (λ row. row.payload.sequence < next_sequence rows) rows
next_sequence-above [] = tt
next_sequence-above (row ∷ rows) =
    let (grows, above) = next_sequence-grows row rows in
    (above, All-map _ (λ r h. omega (arith, h, grows)) rows (next_sequence-above rows))

pub IsAscending-concat :
    (rows : List AuditLog) (row : AuditLog)
    → IsAscending rows
    → All (λ earlier. earlier.payload.sequence < row.payload.sequence) rows
    → IsAscending (rows ++ row ∷ [])
IsAscending-concat [] row h k = (tt, tt)
IsAscending-concat (first ∷ rows) row (h, hs) (k, ks) =
    (All-append _ rows (row ∷ []) h (k, tt), IsAscending-concat rows row hs ks)
