-- ===== src/Prelude/HashMap.antt =====
-- `HashMap` with numbers for keys: a list of entries in the order of its iteration.
use Prim.Native.Nat.{ℕ}
use mathlib.Core.Path.{◌≡◌, refl, ap, sym, ◌∙◌, subst}
use mathlib.Core.Logic.{inl, inr}
use mathlib.Core.Bool.{false}
use mathlib.Core.List.{List, [], ◌∷◌, map}
use mathlib.Core.Option.{Option, none, some}
use native.Mathlib.Omega.{arith}
use erdos.Prelude.Lists.{All}
use erdos.Prelude.Tests.{◌==◌, if◌then◌else◌, ==_iff, Bool-cases}

module _ {ℓ} {V : Type ℓ} where
  unfoldable pub get : ℕ → List (ℕ × V) → Option V
  get k [] = none
  get k ((j, v) ∷ m) = if j == k then some v else get k m

  unfoldable pub insert : ℕ → V → List (ℕ × V) → List (ℕ × V)
  insert k v [] = (k, v) ∷ []
  insert k v ((j, w) ∷ m) = if j == k then (k, v) ∷ m else (j, w) ∷ insert k v m

  unfoldable pub remove : ℕ → List (ℕ × V) → List (ℕ × V)
  remove k [] = []
  remove k ((j, w) ∷ m) = if j == k then m else (j, w) ∷ remove k m

  abbrev pub values : List (ℕ × V) → List V
  values m = map (λ e. e.1) m

  -- No key stands twice.
  abbrev pub IsMap : List (ℕ × V) → Type ℓ
  IsMap [] = Unit
  IsMap ((k, v) ∷ m) = (get k m ≡ none) × IsMap m

  pub get-insert :
      (k j : ℕ) (v : V) (m : List (ℕ × V))
      → get j (insert k v m) ≡ (if k == j then some v else get j m)
  unfolding get insert
  get-insert k j v [] = refl
  get-insert k j v ((i, w) ∷ m) = ground (arith, get-insert k j v m)

  pub insert-IsMap : (k : ℕ) (v : V) (m : List (ℕ × V)) → IsMap m → IsMap (insert k v m)
  unfolding get insert
  insert-IsMap k v [] h = (refl, tt)
  insert-IsMap k v ((i, w) ∷ m) h = elim (Bool-cases (i == k)) [
    | inl e ↦ let same : i ≡ k = omega (arith, (==_iff i k).0 e) in rw e (rw same at h)
    | inr e ↦ rw e (ground (arith, get-insert k i v m), insert-IsMap k v m h.1)
  ]

  pub get-remove :
      (k j : ℕ) (m : List (ℕ × V))
      → IsMap m
      → get j (remove k m) ≡ (if k == j then none else get j m)
  unfolding get remove
  get-remove k j [] h = ground arith
  get-remove k j ((i, w) ∷ m) h = ground (arith, get-remove k j m h.1)

  pub remove-IsMap : (k : ℕ) (m : List (ℕ × V)) → IsMap m → IsMap (remove k m)
  unfolding get remove
  remove-IsMap k [] h = tt
  remove-IsMap k ((i, w) ∷ m) h = elim (Bool-cases (i == k)) [
    | inl e ↦ rw e h.1
    | inr e ↦ rw e (ground (arith, get-remove k i m h.1), remove-IsMap k m h.1)
  ]

  -- What holds of the entry that is put in and of all the others holds of every entry.
  pub insert-each {κ} :
      (P : ℕ → V → Type κ) (k : ℕ) (v : V) (m : List (ℕ × V))
      → P k v
      → ((j : ℕ) (w : V) → (k == j) ≡ false → get j m ≡ some w → P j w)
      → (j : ℕ) (w : V) → get j (insert k v m) ≡ some w
      → P j w
  insert-each P k v m here others j w h = elim (Bool-cases (k == j)) [
    | inl e ↦
        let same : v ≡ w = cc (rw e at (rw (get-insert k j v m) at h)) in
        subst (λ i. P i w) ((==_iff k j).0 e) (subst (P k) same here)
    | inr e ↦ others j w e (rw e at (rw (get-insert k j v m) at h))
  ]

  -- Entries that carry their own key, and keep doing so.
  module _ (id_of : V → ℕ) (k : ℕ) (v : V) where
    pub get-keys :
        (m : List (ℕ × V)) → All (λ e. id_of e.1 ≡ e.0) m → get k m ≡ some v → id_of v ≡ k
    unfolding get
    get-keys [] h e = cc
    get-keys ((j, u) ∷ m) h e = elim (Bool-cases (j == k)) [
      | inl t ↦ let same : u ≡ v = cc (rw t at e) in ap id_of (sym same) ∙ (h.0 ∙ (==_iff j k).0 t)
      | inr t ↦ get-keys m h.1 (rw t at e)
    ]

    pub insert-keys :
        (m : List (ℕ × V))
        → id_of v ≡ k
        → All (λ e. id_of e.1 ≡ e.0) m
        → All (λ e. id_of e.1 ≡ e.0) (insert k v m)
    unfolding insert
    insert-keys [] e h = (e, tt)
    insert-keys ((j, u) ∷ m) e h = elim (Bool-cases (j == k)) [
      | inl t ↦ rw t (e, h.1)
      | inr t ↦ rw t (h.0, insert-keys m e h.1)
    ]
