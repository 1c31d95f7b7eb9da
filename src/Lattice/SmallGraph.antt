-- ===== src/Lattice/SmallGraph.antt =====
-- A graph that the interface `StableGraph` describes, for runs of src/node/lattice.rs on
-- concrete inputs: slots of nodes and of edges, an emptied slot is not used again.
pub mod Changes
pub mod Slots
pub mod Instance
use erdos.Prelude.{
  ℕ, zero, suc, ◌+◌, ◌≤◌, ◌<◌, ◌≡◌, ◌≢◌, refl, List, [], ◌∷◌, ◌++◌, map, Option, none, some, ◌⊎◌,
  inl, inr, All, All-map, All-append, Bool, true, false, not, ◌&&◌, ◌||◌, ◌==◌, ltb, ==_iff,
  ==_refl, Bool-cases, count, contains, length, length-append, arith, Option-cases, if◌then◌else◌,
}
use mathlib.Core.Path.{subst}

abbrev pub Slot : Type 0
Slot = Option (ℕ × ℕ)

abbrev pub at : ℕ → ℕ → Slot → Bool
at a b none = false
at a b (some (x, y)) = a == x && b == y

abbrev pub slot_at : List Slot → ℕ → Slot
slot_at [] e = none
slot_at (x ∷ xs) zero = x
slot_at (x ∷ xs) (suc e) = slot_at xs e

-- The ends that a match names.
pub at_eq : (a b x y : ℕ) → at a b (some (x, y)) ≡ true → (x ≡ a) × (y ≡ b)
at_eq a b x y h = ground arith

module _ {N : Type 0} where
  abbrev pub nth : List (Option N) → ℕ → Option N
  nth [] i = none
  nth (x ∷ xs) zero = x
  nth (x ∷ xs) (suc i) = nth xs i

  abbrev pub is_some : Option N → Bool
  is_some none = false
  is_some (some x) = true

  abbrev pub present : List (Option N) → ℕ → Bool
  present ns i = is_some (nth ns i)

  abbrev pub live : List (Option N) → Slot → Bool
  live ns none = false
  live ns (some (a, b)) = present ns a && present ns b

  -- An edge counts while both its ends are there.
  abbrev pub edges_in : List (Option N) → List Slot → ℕ → ℕ → ℕ
  edges_in ns [] a b = 0
  edges_in ns (e ∷ es) a b = (if live ns e && at a b e then 1 else 0) + edges_in ns es a b

  abbrev pub sources : List (Option N) → ℕ → List Slot → List ℕ
  sources ns b [] = []
  sources ns b (none ∷ es) = sources ns b es
  sources ns b (some (x, y) ∷ es) =
      let rest = sources ns b es in if live ns (some (x, y)) && b == y then x ∷ rest else rest

  abbrev pub targets : List (Option N) → ℕ → List Slot → List ℕ
  targets ns a [] = []
  targets ns a (none ∷ es) = targets ns a es
  targets ns a (some (x, y) ∷ es) =
      let rest = targets ns a es in if live ns (some (x, y)) && a == x then y ∷ rest else rest

  pub count-sources :
      (ns : List (Option N)) (a b : ℕ) (es : List Slot)
      → count a (sources ns b es) ≡ edges_in ns es a b
  count-sources ns a b [] = refl
  count-sources ns a b (none ∷ es) = ground (arith, count-sources ns a b es)
  count-sources ns a b (some (x, y) ∷ es) = ground (arith, count-sources ns a b es)

  pub count-targets :
      (ns : List (Option N)) (a b : ℕ) (es : List Slot)
      → count b (targets ns a es) ≡ edges_in ns es a b
  count-targets ns a b [] = refl
  count-targets ns a b (none ∷ es) = ground (arith, count-targets ns a b es)
  count-targets ns a b (some (x, y) ∷ es) = ground (arith, count-targets ns a b es)

  pub is_some-present : (ns : List (Option N)) (i : ℕ) → present ns i ≡ true → nth ns i ≢ none
  is_some-present ns i h = ground (arith, h)

  pub edges_in-present :
      (ns : List (Option N)) (a b : ℕ) (es : List Slot)
      → 0 < edges_in ns es a b
      → (nth ns a ≢ none) × (nth ns b ≢ none)
  edges_in-present ns a b [] h = absurd (omega (arith, h))
  edges_in-present ns a b (none ∷ es) h = edges_in-present ns a b es (ground (arith, h))
  edges_in-present ns a b (some (x, y) ∷ es) h =
      elim (Bool-cases (live ns (some (x, y)) && at a b (some (x, y)))) [
        | inl c ↦
            let p = at_eq a b x y (ground (arith, c)) in
            (
              subst (λ i. nth ns i ≢ none) p.0 (is_some-present ns x (ground (arith, c))),
              subst (λ i. nth ns i ≢ none) p.1 (is_some-present ns y (ground (arith, c))),
            )
        | inr c ↦ edges_in-present ns a b es (ground (arith, h, c))
      ]

  abbrev pub if_live : List (Option N) → Slot → Slot
  if_live ns x = if live ns x then x else none

  -- The index of the first edge between two nodes.
  abbrev pub find : List (Option N) → ℕ → ℕ → List Slot → Option ℕ
  find ns a b [] = none
  find ns a b (e ∷ es) =
      let rest = find ns a b es in
      if live ns e && at a b e then some 0 else elim rest [ none ↦ none | some i ↦ some (suc i) ]

  pub find_lem :
      (ns : List (Option N)) (a b : ℕ) (es : List Slot)
      → 0 < edges_in ns es a b
      → (e : ℕ) × (find ns a b es ≡ some e) × (if_live ns (slot_at es e) ≡ some (a, b))
  find_lem ns a b [] h = absurd (omega (arith, h))
  find_lem ns a b (none ∷ es) h =
      let (e, p, q) = find_lem ns a b es (ground (arith, h)) in (suc e, ground (arith, p), q)
  find_lem ns a b (some (x, y) ∷ es) h =
      elim (Bool-cases (live ns (some (x, y)) && at a b (some (x, y)))) [
        | inl c ↦ (
          0,
          ground (arith, c),
          let p = at_eq a b x y (ground (arith, c)) in ground (arith, c, p),
        )
        | inr c ↦
            let (e, p, q) = find_lem ns a b es (ground (arith, h, c)) in
            (suc e, ground (arith, p, c), q)
      ]
