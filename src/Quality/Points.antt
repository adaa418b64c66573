-- ===== src/Quality/Points.antt =====
-- Integers as Python adds and compares them.
use blue_team_os.Prelude.{ℕ, zero, suc, ◌+◌, Bool, true, false, leb, if◌then◌else◌}
use blue_team_os.Value.{ℤ, pos, negsuc}

-- m - n
abbrev pub diff : ℕ → ℕ → ℤ
diff m zero = pos m
diff zero (suc n) = negsuc n
diff (suc m) (suc n) = diff m n

infixl 6 ◌+ℤ◌
abbrev pub ◌+ℤ◌ : ℤ → ℤ → ℤ
pos m +ℤ pos n = pos (m + n)
pos m +ℤ negsuc n = diff m (suc n)
negsuc m +ℤ pos n = diff n (suc m)
negsuc m +ℤ negsuc n = negsuc (suc (m + n))

-- x <= y
abbrev pub le : ℤ → ℤ → Bool
le (pos m) (pos n) = leb m n
le (pos m) (negsuc n) = false
le (negsuc m) (pos n) = true
le (negsuc m) (negsuc n) = leb n m

-- min(x, y)
abbrev pub min : ℤ → ℤ → ℤ
min x y = if le y x then y else x
