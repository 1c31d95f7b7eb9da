-- ===== src/Prelude/Int.antt =====
-- Signed integers, only as far as the program compares them.
use erdos.Prelude.{ℕ, ◌≡◌, refl, arith, Ordering, compare, reverse_ord}

-- `negsuc n` is -(n + 1).
pub data ℤ : Type 0 where
  pos : ℕ → ℤ
  negsuc : ℕ → ℤ

abbrev pub compare_ℤ : ℤ → ℤ → Ordering
compare_ℤ (pos a) (pos b) = compare a b
compare_ℤ (pos a) (negsuc b) = Ordering.gt
compare_ℤ (negsuc a) (pos b) = Ordering.lt
compare_ℤ (negsuc a) (negsuc b) = compare b a

pub compare_ℤ-reverse : (a b : ℤ) → compare_ℤ b a ≡ reverse_ord (compare_ℤ a b)
compare_ℤ-reverse (pos a) (pos b) = ground arith
compare_ℤ-reverse (pos a) (negsuc b) = refl
compare_ℤ-reverse (negsuc a) (pos b) = refl
compare_ℤ-reverse (negsuc a) (negsuc b) = ground arith
