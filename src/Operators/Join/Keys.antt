-- ===== src/Operators/Join/Keys.antt =====
-- src/dataflow/operators/join_operator.rs: the keys of the messages and the heap of timestamps.
use erdos.Prelude.{
  ◌≡◌, refl, Bool, true, false, List, [], ◌∷◌, ◌++◌, none, some, if◌then◌else◌, arith, Ordering,
  All,
}
use erdos.Message
use erdos.Message.{Timestamp, le, lt}
use erdos.Message.Order.{cmp-reverse, cmp_trans, cmp_eq_left, cmp_eq_right}
use erdos.State.BtreeMap.{TimeMap, get, modify}
use erdos.Operators.Join.{remove, push}

abbrev pub same : Timestamp → Timestamp → Bool
same s t = elim (Message.cmp s t) [ Ordering.eq ↦ true | _ ↦ false ]

abbrev pub member : Timestamp → List Timestamp → Bool
member t [] = false
member t (x ∷ xs) = if same x t then true else member t xs

abbrev pub Ascending : List Timestamp → Type 0
Ascending [] = Unit
Ascending (x ∷ xs) = All (λ y. lt x y ≡ true) xs × Ascending xs

module _ {V : Type 0} where
  abbrev pub IsMap : TimeMap V → Type 0
  IsMap [] = Unit
  IsMap ((k, v) ∷ m) = (get k m ≡ none) × IsMap m

  pub get-same :
      (s t : Timestamp) (m : TimeMap V) → Message.cmp s t ≡ Ordering.eq → get s m ≡ get t m
  unfolding get
  get-same s t [] e = refl
  get-same s t ((k, v) ∷ m) e = ground (arith, cmp_eq_right s t k e, get-same s t m e)

  pub get-append :
      (t u : Timestamp) (v : V) (m : TimeMap V)
      → get t m ≡ none
      → get u (m ++ ((t, v) ∷ [])) ≡ (if same t u then some v else get u m)
  unfolding get
  get-append t u v [] h = ground arith
  get-append t u v ((k, w) ∷ m) h = ground (arith, cmp_eq_right t u k, get-append t u v m)

  pub get-modify :
      (t u : Timestamp) (f : V → V) (v : V) (m : TimeMap V)
      → get t m ≡ some v
      → get u (modify t f m) ≡ (if same t u then some (f v) else get u m)
  unfolding get modify
  get-modify t u f v [] h = absurd (cc)
  get-modify t u f v ((k, w) ∷ m) h =
      ground (arith, cmp_eq_left k t u, cmp_eq_right t u k, get-modify t u f v m)

  pub get-remove :
      (t u : Timestamp) (m : TimeMap V)
      → IsMap m
      → get u (remove t m) ≡ (if same t u then none else get u m)
  unfolding get remove
  get-remove t u [] h = ground arith
  get-remove t u ((k, w) ∷ m) h =
      ground (arith, cmp_eq_left k t u, cmp_eq_right t u k, get-same k u m, get-remove t u m h.1)

  pub append-IsMap :
      (t : Timestamp) (v : V) (m : TimeMap V)
      → get t m ≡ none
      → IsMap m
      → IsMap (m ++ ((t, v) ∷ []))
  unfolding get
  append-IsMap t v [] h u = (refl, tt)
  append-IsMap t v ((k, w) ∷ m) h u =
      ground (arith, cmp-reverse t k, get-append t k v m, append-IsMap t v m)

  modify-none :
      (t u : Timestamp) (f : V → V) (m : TimeMap V) → get u m ≡ none → get u (modify t f m) ≡ none
  unfolding get modify
  modify-none t u f [] h = refl
  modify-none t u f ((k, w) ∷ m) h = ground (arith, modify-none t u f m)

  pub modify-IsMap : (t : Timestamp) (f : V → V) (m : TimeMap V) → IsMap m → IsMap (modify t f m)
  unfolding get modify
  modify-IsMap t f [] u = tt
  modify-IsMap t f ((k, w) ∷ m) u = ground (arith, modify-none t k f m, modify-IsMap t f m)

  pub remove-IsMap : (t : Timestamp) (m : TimeMap V) → IsMap m → IsMap (remove t m)
  unfolding get remove
  remove-IsMap t [] u = tt
  remove-IsMap t ((k, w) ∷ m) u = ground (arith, get-remove t k m, remove-IsMap t m)

pub same-member :
    (s t : Timestamp) (xs : List Timestamp)
    → Message.cmp s t ≡ Ordering.eq
    → member s xs ≡ member t xs
same-member s t [] e = refl
same-member s t (x ∷ xs) e = ground (arith, cmp_eq_right s t x e, same-member s t xs e)

-- What comes before all of a list is not in it.
pub member-below :
    (t : Timestamp) (xs : List Timestamp) → All (λ y. lt t y ≡ true) xs → member t xs ≡ false
member-below t [] h = refl
member-below t (x ∷ xs) h = ground (arith, cmp-reverse t x, member-below t xs h.1)

pub member-push :
    (t u : Timestamp) (xs : List Timestamp)
    → member u (push t xs) ≡ (if same t u then true else member u xs)
unfolding push
member-push t u [] = ground arith
member-push t u (x ∷ xs) = ground (arith, member-push t u xs)

push-All :
    (s t : Timestamp) (xs : List Timestamp)
    → lt s t ≡ true
    → All (λ y. lt s y ≡ true) xs
    → All (λ y. lt s y ≡ true) (push t xs)
unfolding push
push-All s t [] e h = (e, tt)
push-All s t (x ∷ xs) e h = ground (arith, push-All s t xs)

All-lt_trans :
    (s t : Timestamp) (xs : List Timestamp)
    → lt s t ≡ true
    → All (λ y. lt t y ≡ true) xs
    → All (λ y. lt s y ≡ true) xs
All-lt_trans s t [] e h = tt
All-lt_trans s t (x ∷ xs) e h = (ground (arith, cmp_trans s t x), All-lt_trans s t xs e h.1)

pub push-Ascending :
    (t : Timestamp) (xs : List Timestamp)
    → member t xs ≡ false
    → Ascending xs
    → Ascending (push t xs)
unfolding push
push-Ascending t [] n a = (tt, tt)
push-Ascending t (x ∷ xs) n a =
    ground (arith, push-Ascending t xs, push-All x t xs, All-lt_trans t x xs, cmp-reverse t x)
