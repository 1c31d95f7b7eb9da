-- ===== src/Node/Loop.antt =====
-- The loop that the waits of src/node/node.rs share.
use erdos.Prelude.{
  ℕ, zero, suc, ◌≤◌, ◌≡◌, refl, ap, ◌∙◌, ◌⊎◌, inl, inr, Bool, false, not, Bool-cases, Option-cases,
  List, [], ◌∷◌, ◌++◌, Option, none, some, is_some, length, All, keep, arith,
}
use erdos.Node.{wait_loop}

abbrev pub insert_msgs : {M S : Type 0} → (M → S → S) → List M → S → S
insert_msgs insert [] s = s
insert_msgs insert (m ∷ ms) s = insert_msgs insert ms (insert m s)

none_left : {A : Type 0} (xs : List A) → length xs ≤ 0 → xs ≡ []
none_left [] b = refl
none_left (x ∷ xs) b = ground arith

-- `pending` is what the reads will give, in order.
abbrev pub Reads : {H M : Type 0} → (H → Option (M × H)) → (H → List M) → H → Type 0
Reads {H} {M} read pending h =
    ((read h ≡ none) × (pending h ≡ []))
    ⊎ ((m : M) × (h' : H) × (read h ≡ some (m, h')) × (pending h ≡ m ∷ pending h'))

module _ {H M S : Type 0} (read : H → Option (M × H)) (waiting : S → Bool) (insert : M → S → S)
    (pending : H → List M) (reads : (h : H) → Reads read pending h)
    (stays_done : (m : M) (s : S) → waiting s ≡ false → waiting (insert m s) ≡ false) where
  insert_msgs-done :
      (ms : List M) (s : S) → waiting s ≡ false → waiting (insert_msgs insert ms s) ≡ false
  insert_msgs-done [] s d = d
  insert_msgs-done (m ∷ ms) s d = insert_msgs-done ms (insert m s) (stays_done m s d)

  pub wait_loop-returns :
      (fuel : ℕ) (h : H) (s : S)
      → length (pending h) ≤ fuel
      → is_some (wait_loop read waiting insert fuel h s)
        ≡ not (waiting (insert_msgs insert (pending h) s))
  unfolding wait_loop
  wait_loop-returns zero h s b = elim (Bool-cases (waiting s)) [
    | inl w ↦ rw (w, none_left (pending h) b) (rw w refl)
    | inr w ↦ rw w (rw (insert_msgs-done (pending h) s w) refl)
  ]
  wait_loop-returns (suc fuel) h s b = elim (Bool-cases (waiting s)) [
    | inr w ↦ rw w (rw (insert_msgs-done (pending h) s w) refl)
    | inl w ↦ elim (reads h) [
      | inl (e, p) ↦ rw (w, e, p) (rw w refl)
      | inr (m, h', e, p) ↦
          rw (w, e, p) (wait_loop-returns fuel h' (insert m s) (omega (arith, b, ap length p)))
    ]
  ]

-- What no read changes, the wait does not change.
pub wait_loop-keeps :
    {H M S : Type 0} (read : H → Option (M × H)) (waiting : S → Bool) (insert : M → S → S)
    (measure : H → ℕ)
    → ((h h' : H) (m : M) → read h ≡ some (m, h') → measure h' ≡ measure h)
    → (fuel : ℕ) (h h' : H) (s : S) → wait_loop read waiting insert fuel h s ≡ some h'
    → measure h' ≡ measure h
unfolding wait_loop
wait_loop-keeps read waiting insert measure keeps zero h h' s r = elim (Bool-cases (waiting s)) [
  | inl w ↦ let r' = rw w at r in cc
  | inr w ↦ let r' = rw w at r in cc
]
wait_loop-keeps read waiting insert measure keeps (suc fuel) h h' s r =
    elim (Bool-cases (waiting s)) [
      | inr w ↦ let r' = rw w at r in cc
      | inl w ↦ elim (Option-cases (read h)) [
        | inl e ↦ let r' = rw (w, e) at r in cc
        | inr ((m, k), e) ↦
            let r' = rw (w, e) at r in
            wait_loop-keeps read waiting insert measure keeps fuel k h' (insert m s) r'
            ∙ keeps h k m e
      ]
    ]

module _ {A : Type 0} (p : A → Bool) where
  pub length-keep : (xs : List A) → length (keep p xs) ≤ length xs
  length-keep [] = omega arith
  length-keep (x ∷ xs) = ground (arith, length-keep xs)

  pub keep-none : (xs : List A) → All (λ x. p x ≡ false) xs → keep p xs ≡ []
  keep-none [] h = refl
  keep-none (x ∷ xs) h = ground (arith, h.0, keep-none xs h.1)

  pub keep-append : (xs ys : List A) → keep p (xs ++ ys) ≡ keep p xs ++ keep p ys
  keep-append [] ys = refl
  keep-append (x ∷ xs) ys = ground (arith, keep-append xs ys)
