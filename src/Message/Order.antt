-- ===== src/Message/Order.antt =====
-- src/dataflow/message.rs: the order of timestamps.
use erdos.Prelude.{ℕ, true, false, List, [], ◌∷◌, ◌≡◌, refl, arith, Ordering, reverse_ord, ◌↔◌}
use erdos.Message.{Timestamp, cmp, cmp_time, lt, le, top, bottom}

cmp_time_refl : (s : List ℕ) → cmp_time s s ≡ Ordering.eq
unfolding cmp_time
cmp_time_refl [] = refl
cmp_time_refl (x ∷ s) = ground (arith, cmp_time_refl s)

cmp_time-reverse : (s t : List ℕ) → cmp_time t s ≡ reverse_ord (cmp_time s t)
unfolding cmp_time
cmp_time-reverse [] [] = refl
cmp_time-reverse [] (y ∷ t) = refl
cmp_time-reverse (x ∷ s) [] = refl
cmp_time-reverse (x ∷ s) (y ∷ t) = ground (arith, cmp_time-reverse s t)

cmp_time-eq : (s t : List ℕ) → cmp_time s t ≡ Ordering.eq → s ≡ t
unfolding cmp_time
cmp_time-eq [] [] h = refl
cmp_time-eq [] (y ∷ t) h = ground arith
cmp_time-eq (x ∷ s) [] h = ground arith
cmp_time-eq (x ∷ s) (y ∷ t) h = ground (arith, cmp_time-eq s t)

cmp_time_trans :
    (s t u : List ℕ)
    → cmp_time s t ≡ Ordering.lt
    → cmp_time t u ≡ Ordering.lt
    → cmp_time s u ≡ Ordering.lt
unfolding cmp_time
cmp_time_trans [] [] u h k = ground arith
cmp_time_trans [] (y ∷ t) [] h k = ground arith
cmp_time_trans [] (y ∷ t) (z ∷ u) h k = refl
cmp_time_trans (x ∷ s) [] u h k = ground arith
cmp_time_trans (x ∷ s) (y ∷ t) [] h k = ground arith
cmp_time_trans (x ∷ s) (y ∷ t) (z ∷ u) h k = ground (arith, cmp_time_trans s t u)

pub cmp_refl : (t : Timestamp) → cmp t t ≡ Ordering.eq
unfolding cmp
cmp_refl t = ground (arith, cmp_time_refl t.time)

pub cmp-reverse : (s t : Timestamp) → cmp t s ≡ reverse_ord (cmp s t)
unfolding cmp
cmp-reverse s t = ground (arith, cmp_time-reverse s.time t.time)

pub cmp_trans :
    (s t u : Timestamp) → cmp s t ≡ Ordering.lt → cmp t u ≡ Ordering.lt → cmp s u ≡ Ordering.lt
unfolding cmp
cmp_trans s t u h k = ground (arith, cmp_time_trans s.time t.time u.time)

-- Equal timestamps compare alike with a third.
pub cmp_eq_left : (s t u : Timestamp) → cmp s t ≡ Ordering.eq → cmp s u ≡ cmp t u
unfolding cmp
cmp_eq_left s t u h = ground (arith, cmp_time-eq s.time t.time)

pub cmp_eq_right : (s t u : Timestamp) → cmp s t ≡ Ordering.eq → cmp u s ≡ cmp u t
unfolding cmp
cmp_eq_right s t u h = ground (arith, cmp_time-eq s.time t.time)

pub le_refl : (t : Timestamp) → le t t ≡ true
le_refl t = ground (arith, cmp_refl t)

pub le_trans : (s t u : Timestamp) → le s t ≡ true → le t u ≡ true → le s u ≡ true
le_trans s t u h k = ground (arith, cmp_trans s t u, cmp_eq_left s t u, cmp_eq_right t u s)

pub lt-le_trans : (s t u : Timestamp) → lt s t ≡ true → le t u ≡ true → lt s u ≡ true
lt-le_trans s t u h k = ground (arith, cmp_trans s t u, cmp_eq_right t u s)

pub le-lt_trans : (s t u : Timestamp) → le s t ≡ true → lt t u ≡ true → lt s u ≡ true
le-lt_trans s t u h k = ground (arith, cmp_trans s t u, cmp_eq_left s t u)

-- `<` and `<=` are each other's negation, with the arguments swapped.
pub lt-or-le : (s t : Timestamp) → lt s t ≡ false → le t s ≡ true
lt-or-le s t h = ground (arith, cmp-reverse s t)

pub le-not-lt : (s t : Timestamp) → le t s ≡ true → lt s t ≡ false
le-not-lt s t h = ground (arith, cmp-reverse s t)

pub lt_irrefl : (t : Timestamp) → lt t t ≡ false
lt_irrefl t = ground (arith, cmp_refl t)

-- The constructors give a top timestamp no coordinates.
abbrev pub IsNormal : Timestamp → Type 0
IsNormal t = t.is_top ≡ true → t.time ≡ []

-- `PartialEq` is derived and compares both fields; `Ord` agrees with it on normal timestamps.
pub cmp-eq_iff : (s t : Timestamp) → IsNormal s → IsNormal t → (cmp s t ≡ Ordering.eq) ↔ (s ≡ t)
unfolding cmp
cmp-eq_iff s t ns nt = (
  λ h. ground (arith, cmp_time-eq s.time t.time, ns, nt),
  λ e. ground (arith, cmp_time_refl s.time),
)

cmp_time-nil : (t : List ℕ) → (cmp_time [] t ≡ Ordering.gt) → ⊥
unfolding cmp_time
cmp_time-nil [] h = cc
cmp_time-nil (x ∷ t) h = cc

-- Every timestamp lies between bottom and top.
pub bottom-le-top : (t : Timestamp) → (le bottom t ≡ true) × (le t top ≡ true)
unfolding cmp
bottom-le-top t = ground (arith, cmp_time-nil t.time)
