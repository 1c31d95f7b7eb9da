-- ===== src/Lattice/SmallGraph/Changes.antt =====
-- What adding and removing does to the slots of a small graph.
use erdos.Prelude.{
  ℕ, zero, suc, ◌+◌, ◌≤◌, ◌<◌, ◌≡◌, ◌≢◌, refl, List, [], ◌∷◌, ◌++◌, Option, none, some, All, true,
  ◌&&◌, ◌||◌, ◌==◌, length, arith, if◌then◌else◌,
}
use erdos.Lattice.SmallGraph.{nth, present, Slot, edges_in, slot_at, if_live}

-- The ends of an edge are indices of slots.
abbrev pub Bounded : ℕ → Slot → Type 0
Bounded n none = Unit
Bounded n (some (a, b)) = (a < n) × (b < n)

pub Bounded-mono : (n : ℕ) (e : Slot) → Bounded n e → Bounded (n + 1) e
Bounded-mono n none h = tt
Bounded-mono n (some (a, b)) h = (omega (arith, h.0), omega (arith, h.1))

abbrev pub clear : ℕ → List Slot → List Slot
clear e [] = []
clear zero (x ∷ xs) = none ∷ xs
clear (suc e) (x ∷ xs) = x ∷ clear e xs

pub clear-Bounded : (n e : ℕ) (es : List Slot) → All (Bounded n) es → All (Bounded n) (clear e es)
clear-Bounded n e [] h = tt
clear-Bounded n zero (x ∷ es) h = (tt, h.1)
clear-Bounded n (suc e) (x ∷ es) h = (h.0, clear-Bounded n e es h.1)

module _ {N : Type 0} where
  abbrev pub put : ℕ → Option N → List (Option N) → List (Option N)
  put i w [] = []
  put zero w (x ∷ xs) = w ∷ xs
  put (suc i) w (x ∷ xs) = x ∷ put i w xs

  pub length-put : (i : ℕ) (w : Option N) (ns : List (Option N)) → length (put i w ns) ≡ length ns
  length-put i w [] = refl
  length-put zero w (x ∷ ns) = refl
  length-put (suc i) w (x ∷ ns) = omega (arith, length-put i w ns)

  pub nth-out : (ns : List (Option N)) (i : ℕ) → length ns ≤ i → nth ns i ≡ none
  nth-out [] i h = refl
  nth-out (x ∷ ns) zero h = absurd (omega (arith, h))
  nth-out (x ∷ ns) (suc i) h = nth-out ns i (omega (arith, h))

  pub nth-append :
      (ns : List (Option N)) (w : N) (n : ℕ)
      → nth (ns ++ (some w ∷ [])) n ≡ (if length ns == n then some w else nth ns n)
  nth-append [] w zero = refl
  nth-append [] w (suc n) = ground arith
  nth-append (x ∷ ns) w zero = ground arith
  nth-append (x ∷ ns) w (suc n) = ground (arith, nth-append ns w n)

  pub nth-put :
      (i : ℕ) (w : N) (ns : List (Option N)) (n : ℕ)
      → nth ns i ≢ none
      → nth (put i (some w) ns) n ≡ (if i == n then some w else nth ns n)
  nth-put i w [] n h = absurd (h refl)
  nth-put zero w (x ∷ ns) zero h = refl
  nth-put zero w (x ∷ ns) (suc n) h = ground arith
  nth-put (suc i) w (x ∷ ns) zero h = ground arith
  nth-put (suc i) w (x ∷ ns) (suc n) h = ground (arith, nth-put i w ns n h)

  pub nth-put-none :
      (i : ℕ) (ns : List (Option N)) (n : ℕ)
      → nth (put i none ns) n ≡ (if i == n then none else nth ns n)
  nth-put-none i [] n = ground arith
  nth-put-none zero (x ∷ ns) zero = refl
  nth-put-none zero (x ∷ ns) (suc n) = ground arith
  nth-put-none (suc i) (x ∷ ns) zero = ground arith
  nth-put-none (suc i) (x ∷ ns) (suc n) = ground (arith, nth-put-none i ns n)

  -- Edges are the same if the nodes at their ends are.
  pub edges_in-same :
      (ns ms : List (Option N)) (es : List Slot) (a b : ℕ)
      → ((i : ℕ) → present ns i ≡ present ms i)
      → edges_in ns es a b ≡ edges_in ms es a b
  edges_in-same ns ms [] a b h = refl
  edges_in-same ns ms (none ∷ es) a b h = omega (arith, edges_in-same ns ms es a b h)
  edges_in-same ns ms (some (x, y) ∷ es) a b h =
      let p = h x in let q = h y in let r = edges_in-same ns ms es a b h in ground (arith, p, q, r)

  pub edges_in-append :
      (ns : List (Option N)) (w : N) (es : List Slot) (a b : ℕ)
      → All (Bounded (length ns)) es
      → edges_in (ns ++ (some w ∷ [])) es a b ≡ edges_in ns es a b
  edges_in-append ns w [] a b h = refl
  edges_in-append ns w (none ∷ es) a b h = omega (arith, edges_in-append ns w es a b h.1)
  edges_in-append ns w (some (x, y) ∷ es) a b ((hx, hy), h) =
      let p = nth-append ns w x in
      let q = nth-append ns w y in
      let r = edges_in-append ns w es a b h in ground (arith, p, q, r, hx, hy)

  pub if_live-append :
      (ns : List (Option N)) (w : N) (es : List Slot) (e : ℕ) (p : ℕ × ℕ)
      → if_live ns (slot_at es e) ≡ some p
      → if_live (ns ++ (some w ∷ [])) (slot_at es e) ≡ some p
  if_live-append ns w [] e p h = ground arith
  if_live-append ns w (none ∷ es) zero p h = ground arith
  if_live-append ns w (some (x, y) ∷ es) zero p h =
      let a = nth-append ns w x in let b = nth-append ns w y in ground (arith, a, b, h)
  if_live-append ns w (x ∷ es) (suc e) p h = if_live-append ns w es e p h

  pub edges_in-add :
      (ns : List (Option N)) (es : List Slot) (a b x y : ℕ)
      → present ns a ≡ true
      → present ns b ≡ true
      → edges_in ns (es ++ (some (a, b) ∷ [])) x y
        ≡ edges_in ns es x y + (if a == x && b == y then 1 else 0)
  edges_in-add ns [] a b x y p q = ground arith
  edges_in-add ns (e ∷ es) a b x y p q = let r = edges_in-add ns es a b x y p q in omega (arith, r)

  pub if_live-add :
      (ns : List (Option N)) (es : List Slot) (s : Slot) (e : ℕ) (p : ℕ × ℕ)
      → if_live ns (slot_at es e) ≡ some p
      → if_live ns (slot_at (es ++ (s ∷ [])) e) ≡ some p
  if_live-add ns [] s e p h = ground arith
  if_live-add ns (x ∷ es) s zero p h = h
  if_live-add ns (x ∷ es) s (suc e) p h = if_live-add ns es s e p h

  pub edges_in-clear :
      (ns : List (Option N)) (es : List Slot) (e a b x y : ℕ)
      → if_live ns (slot_at es e) ≡ some (a, b)
      → edges_in ns es x y ≡ edges_in ns (clear e es) x y + (if a == x && b == y then 1 else 0)
  edges_in-clear ns [] e a b x y h = ground arith
  edges_in-clear ns (none ∷ es) zero a b x y h = ground arith
  edges_in-clear ns (some (c, d) ∷ es) zero a b x y h = ground (arith, h)
  edges_in-clear ns (s ∷ es) (suc e) a b x y h =
      let r = edges_in-clear ns es e a b x y h in omega (arith, r)

  pub if_live-clear :
      (ns : List (Option N)) (es : List Slot) (e e' : ℕ)
      → e ≢ e'
      → if_live ns (slot_at (clear e es) e') ≡ if_live ns (slot_at es e')
  if_live-clear ns [] e e' h = refl
  if_live-clear ns (x ∷ es) zero zero h = absurd (h refl)
  if_live-clear ns (x ∷ es) zero (suc e') h = refl
  if_live-clear ns (x ∷ es) (suc e) zero h = refl
  if_live-clear ns (x ∷ es) (suc e) (suc e') h = if_live-clear ns es e e' (ground (arith, h))

  pub edges_in-remove :
      (ns : List (Option N)) (es : List Slot) (i a b : ℕ)
      → edges_in (put i none ns) es a b ≡ (if i == a || i == b then 0 else edges_in ns es a b)
  edges_in-remove ns [] i a b = ground arith
  edges_in-remove ns (none ∷ es) i a b = ground (arith, edges_in-remove ns es i a b)
  edges_in-remove ns (some (x, y) ∷ es) i a b =
      let p = nth-put-none i ns x in
      let q = nth-put-none i ns y in let r = edges_in-remove ns es i a b in ground (arith, p, q, r)
