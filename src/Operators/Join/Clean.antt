-- ===== src/Operators/Join/Clean.antt =====
-- src/dataflow/operators/join_operator.rs: the heap holds the keys of the messages, so
-- `clean_state` never panics, and what it leaves.
use erdos.Prelude.{
  ◌≡◌, refl, ap, sym, ◌∙◌, true, false, List, [], ◌∷◌, ◌++◌, Option, none, some, is_some,
  if◌then◌else◌, arith, inl, inr, Bool-cases, Option-cases, All,
}
use mathlib.Core.Path.{subst}
use erdos.Message.{Timestamp, le, lt}
use erdos.Message.Order.{cmp-reverse, cmp_trans, cmp_refl, cmp_eq_left, le-lt_trans}
use erdos.State.BtreeMap.{TimeMap, get}
use erdos.Operators.Join.{StreamState, new, add_msg, clean, clean_state, get_state, remove}
use erdos.Operators.Join.Keys.{
  same, member, Ascending, IsMap, get-append, get-modify, get-remove, append-IsMap, modify-IsMap,
  remove-IsMap, same-member, member-below, member-push, push-Ascending,
}

is_none : {A : Type 0} (o : Option A) → is_some o ≡ false → o ≡ none
is_none none h = refl
is_none (some a) h = absurd (cc)

-- What is up to `t` stands before all of an ascending list that starts after `t`.
below-All :
    (u t x : Timestamp) (xs : List Timestamp)
    → le u t ≡ true
    → le x t ≡ false
    → All (λ y. lt x y ≡ true) xs
    → All (λ y. lt u y ≡ true) (x ∷ xs)
below-All u t x xs h k a =
    let after : lt t x ≡ true = ground (arith, cmp-reverse x t) in
    let first : lt u x ≡ true = le-lt_trans u t x h after in (first, rest xs a first)
  where
    rest :
        (ys : List Timestamp)
        → All (λ y. lt x y ≡ true) ys
        → lt u x ≡ true
        → All (λ y. lt u y ≡ true) ys
    rest [] b f = tt
    rest (y ∷ ys) b f = (ground (arith, cmp_trans u x y), rest ys b.1 f)

module _ {D : Type 0} where
  -- The heap has each key of the messages once, in order.
  pub record IsSynced (s : StreamState D) : Type 0 where
    pub msg_map : IsMap s.msgs
    pub ascending : Ascending s.timestamps
    pub synced : (u : Timestamp) → is_some (get u s.msgs) ≡ member u s.timestamps

  pub new-IsSynced : IsSynced (new {D = D})
  unfolding get
  new-IsSynced = record { msg_map = tt; ascending = tt; synced = λ u. refl }

  pub add_msg-IsSynced :
      (t : Timestamp) (msg : D) (s : StreamState D) → IsSynced s → IsSynced (add_msg t msg s)
  unfolding add_msg
  add_msg-IsSynced t msg s h = elim (Option-cases (get t s.msgs)) [
    | inl e ↦
        let absent : member t s.timestamps ≡ false = sym (h.synced t) ∙ ap is_some e in
        rw (add_msg, e)
          (record {
            msg_map = append-IsMap t (msg ∷ []) s.msgs e h.msg_map;
            ascending = push-Ascending t s.timestamps absent h.ascending;
            synced = λ u.
                let now = get-append t u (msg ∷ []) s.msgs e in
                let old = h.synced u in
                let there = member-push t u s.timestamps in ground (arith, now, old, there);
          })
    | inr (v, e) ↦
        rw (add_msg, e)
          (record {
            msg_map = modify-IsMap t (λ v. v ++ (msg ∷ [])) s.msgs h.msg_map;
            ascending = h.ascending;
            synced = λ u.
                let now = get-modify t u (λ v. v ++ (msg ∷ [])) v s.msgs e in
                let old = h.synced u in
                let at_t = h.synced t in
                let eq = same-member t u s.timestamps in ground (arith, now, old, at_t, eq, e);
          })
  ]

  -- A message is put behind the others of its timestamp, and the other timestamps keep theirs.
  pub get_state-add_msg :
      (t u : Timestamp) (msg : D) (s : StreamState D)
      → get_state u (add_msg t msg s) ≡ (
          if same t u
          then some (elim (get_state t s) [ none ↦ msg ∷ [] | some v ↦ v ++ (msg ∷ []) ])
          else get_state u s)
  unfolding add_msg
  get_state-add_msg t u msg s = elim (Option-cases (get t s.msgs)) [
    | inl e ↦ rw (add_msg, e) (get-append t u (msg ∷ []) s.msgs e)
    | inr (v, e) ↦ rw (add_msg, e) (get-modify t u (λ v. v ++ (msg ∷ [])) v s.msgs e)
  ]

  -- All that is up to the timestamp is gone and the rest is as before.
  abbrev pub IsCleaned : Timestamp → StreamState D → StreamState D → Type 0
  IsCleaned t s s' = (u : Timestamp) → get_state u s' ≡ (if le u t then none else get_state u s)

  -- The oldest timestamp is taken off the heap and out of the map.
  drop-IsSynced :
      (x : Timestamp) (xs : List Timestamp) (m : TimeMap (List D))
      → IsSynced (record { msgs = m; timestamps = x ∷ xs })
      → IsSynced (record { msgs = remove x m; timestamps = xs })
  drop-IsSynced x xs m h = record {
    msg_map = remove-IsMap x m h.msg_map;
    ascending = h.ascending.1;
    synced = λ u.
        let now = get-remove x u m h.msg_map in
        let old = h.synced u in
        let gone = member-below x xs h.ascending.0 in
        let eq = same-member x u xs in ground (arith, now, old, gone, eq);
  }

  head-found :
      (x : Timestamp) (xs : List Timestamp) (m : TimeMap (List D))
      → IsSynced (record { msgs = m; timestamps = x ∷ xs })
      → (v : List D) × (get x m ≡ some v)
  head-found x xs m h = elim (Option-cases (get x m)) [
    | inl e ↦
        let in_heap : member x (x ∷ xs) ≡ true = ground (arith, cmp_refl x) in
        absurd (cc (ap is_some e, h.synced x, in_heap))
    | inr found ↦ found
  ]

  pub clean-IsSynced :
      (t : Timestamp) (xs : List Timestamp) (m : TimeMap (List D))
      → IsSynced (record { msgs = m; timestamps = xs })
      → (s' : StreamState D) × (clean t xs m ≡ some s')
        × IsSynced s'
        × IsCleaned t (record { msgs = m; timestamps = xs }) s'
  unfolding clean
  clean-IsSynced t [] m h = (
    record { msgs = m; timestamps = [] },
    refl,
    h,
    λ u. let gone = is_none (get u m) (h.synced u) in ground (arith, gone),
  )
  clean-IsSynced t (x ∷ xs) m h = elim (Bool-cases (le x t)) [
    | inl old ↦
        let (s', e, i, c) = clean-IsSynced t xs (remove x m) (drop-IsSynced x xs m h) in
        let (v, found) = head-found x xs m h in
        (
          s',
          rw (clean, old, found) e,
          i,
          λ u.
              let left = c u in
              let now = get-remove x u m h.msg_map in ground (arith, left, now, cmp_eq_left x u t),
        )
    | inr kept ↦ (
      record { msgs = m; timestamps = x ∷ xs },
      rw (clean, kept) refl,
      h,
      λ u. elim (Bool-cases (le u t)) [
        | inr later ↦ rw later refl
        | inl older ↦
            let below = below-All u t x xs older kept h.ascending.0 in
            rw older (is_none (get u m) (h.synced u ∙ member-below u (x ∷ xs) below))
      ],
    )
  ]

  -- The states that a callback can meet.
  pub data Reachable : StreamState D → Type 0 where
    start : Reachable new
    added :
        {s : StreamState D} (t : Timestamp) (msg : D) → Reachable s → Reachable (add_msg t msg s)
    cleaned :
        {s s' : StreamState D} (t : Timestamp)
        → Reachable s
        → clean_state t s ≡ some s'
        → Reachable s'

  pub Reachable-IsSynced : {s : StreamState D} → Reachable s → IsSynced s
  Reachable-IsSynced start = new-IsSynced
  Reachable-IsSynced (added {s} t msg r) = add_msg-IsSynced t msg s (Reachable-IsSynced r)
  Reachable-IsSynced (cleaned {s} {s'} t r e) =
      let (s1, e1, i, c) = clean-IsSynced t s.timestamps s.msgs (Reachable-IsSynced r) in
      let is : s1 ≡ s' = cc (e1, e) in subst IsSynced is i

  -- Whatever was added and cleaned before, `clean_state` does not panic, and then the messages up
  -- to the timestamp are gone, at it too, and those after it are as before.
  pub clean_state-cleans :
      {s : StreamState D} (t : Timestamp)
      → Reachable s
      → (s' : StreamState D) × (clean_state t s ≡ some s')
        × ((u : Timestamp) → get_state u s' ≡ (if le u t then none else get_state u s))
  clean_state-cleans {s} t r =
      let (s', e, i, c) = clean-IsSynced t s.timestamps s.msgs (Reachable-IsSynced r) in (s', e, c)
