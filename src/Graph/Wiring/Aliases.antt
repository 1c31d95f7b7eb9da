-- ===== src/Graph/Wiring/Aliases.antt =====
-- src/dataflow/graph/graph.rs: `add_stream_alias` moves the channels of a stream to another.
use erdos.Prelude.{
  ℕ, ◌+◌, ◌≡◌, ◌≢◌, ◌↔◌, refl, sym, ◌∙◌, true, false, List, [], ◌∷◌, none, some, ◌==◌,
  if◌then◌else◌, arith, Bool-cases, Option-cases, inl, inr, ==_iff, ==_refl,
}
use erdos.Prelude.HashMap.{
  get, insert, remove, get-insert, get-remove, insert-IsMap, remove-IsMap, insert-each, IsMap,
}
use erdos.Communication.{ok, err}
use erdos.Graph.{Graph, add_stream_alias, merge_channels, unreachable}
use erdos.Graph.Edges.{StreamMetadata}
use erdos.Graph.Channels.{channels_to-merge_channels, merge_channels-Labelled}
use erdos.Graph.Subscriptions.{subscribed}
use erdos.Graph.Wiring.{
  IsWired, IsWiredStream, IsFresh, IsFlat, resolved, resolved_count, resolved-fresh,
}

-- One id more: `r` is what it stands for, `r'` what it stands for with the alias, and `front`,
-- `back` and `all` are the counts of the other ids.
alias_step :
    (from_id to_id j x r r' front back all : ℕ)
    → r' ≡ (if from_id == x then to_id else r)
    → (r == from_id) ≡ (x == from_id)
    → (from_id == j) ≡ false
    → all ≡ (if to_id == j then front + back else front)
    → (if r' == j then 1 else 0) + all ≡ (
        if to_id == j
        then ((if r == j then 1 else 0) + front) + ((if r == from_id then 1 else 0) + back)
        else (if r == j then 1 else 0) + front)
alias_step from_id to_id j x r r' front back all e f o h = ground arith

module _ (a : List (ℕ × ℕ)) (from_id to_id : ℕ) where
  resolved-insert :
      (x : ℕ) → resolved (insert from_id to_id a) x ≡ (if from_id == x then to_id else resolved a x)
  resolved-insert x = elim (Bool-cases (from_id == x)) [
    | inl e ↦ rw (resolved, get-insert from_id x to_id a, e) refl
    | inr e ↦ rw (resolved, get-insert from_id x to_id a, e) refl
  ]

  -- With the alias a stream is read for each time that either was.
  resolved_count-insert :
      (j : ℕ) (xs : List ℕ)
      → IsFresh a from_id
      → (from_id == j) ≡ false
      → resolved_count (insert from_id to_id a) j xs ≡ (
          if to_id == j
          then resolved_count a j xs + resolved_count a from_id xs
          else resolved_count a j xs)
  resolved_count-insert j [] f other = ground arith
  resolved_count-insert j (x ∷ xs) f other =
      let rest = resolved_count-insert j xs f other in
      alias_step from_id to_id j x (resolved a x) (resolved (insert from_id to_id a) x)
        (resolved_count a j xs) (resolved_count a from_id xs)
        (resolved_count (insert from_id to_id a) j xs) (resolved-insert x)
        (resolved-fresh a from_id x f) other rest

  IsFlat-insert :
      IsFlat a
      → IsFresh a from_id
      → get to_id a ≡ none
      → from_id ≢ to_id
      → IsFlat (insert from_id to_id a)
  IsFlat-insert flat (free, untargeted) no_key ne =
      insert-each (λ x y. get y (insert from_id to_id a) ≡ none) from_id to_id a
        (get-insert from_id to_id to_id a
          ∙ (let other : (from_id == to_id) ≡ false = ground arith in rw other no_key))
        (λ x y e h. get-insert from_id y to_id a ∙ elim (Bool-cases (from_id == y)) [
          | inl same ↦ absurd (untargeted x (rw ((==_iff from_id y).0 same) h))
          | inr other ↦ rw other (flat x y h)
        ])

module _ {R H : Type 0} (g : Graph R H) (from_id to_id : ℕ) where
  abbrev aliased : StreamMetadata → StreamMetadata → Graph R H
  aliased from_stream to_stream = record g {
    stream_aliases = insert from_id to_id g.stream_aliases;
    streams =
        insert to_id (merge_channels to_stream from_stream.channels) (remove from_id g.streams);
  }

  add_stream_alias-aliased :
      (from_stream to_stream : StreamMetadata)
      → IsMap g.streams
      → from_id ≢ to_id
      → get from_id g.streams ≡ some from_stream
      → get to_id g.streams ≡ some to_stream
      → add_stream_alias g from_id to_id ≡ ok (aliased from_stream to_stream)
  unfolding add_stream_alias
  add_stream_alias-aliased fs ts m ne hf ht =
      let other : (from_id == to_id) ≡ false = ground arith in
      let still : get to_id (remove from_id g.streams) ≡ some ts =
        get-remove from_id to_id g.streams m ∙ rw other ht in
      rw (add_stream_alias, ht, hf, still) refl

  aliased-wired :
      (fs ts : StreamMetadata)
      → IsWired g
      → from_id ≢ to_id
      → IsFresh g.stream_aliases from_id
      → get from_id g.streams ≡ some fs
      → get to_id g.streams ≡ some ts
      → (j : ℕ) (s : StreamMetadata) → get j (aliased fs ts).streams ≡ some s
      → IsWiredStream (insert from_id to_id g.stream_aliases) (subscribed g) j s
  aliased-wired fs ts w ne f hf ht =
      let a = g.stream_aliases in
      let reads = subscribed g in
      let (key, labelled, counts) = w.wired to_id ts ht in
      let moved = (w.wired from_id fs hf).2 in
      let merged = merge_channels-Labelled ts fs.channels labelled in
      let other : (from_id == to_id) ≡ false = ground arith in
      insert-each (IsWiredStream (insert from_id to_id a) reads) to_id
        (merge_channels ts fs.channels) (remove from_id g.streams)
        (
          merged.1.0 ∙ key,
          merged.0,
          λ v.
              let channels = channels_to-merge_channels ts fs.channels v in
              let both : resolved_count (insert from_id to_id a) to_id (reads v)
                  ≡ resolved_count a to_id (reads v) + resolved_count a from_id (reads v) =
                resolved_count-insert a from_id to_id to_id (reads v) f other
                ∙ rw (==_refl to_id) refl in
              let old = counts v in let new = moved v in omega (arith, channels, both, old, new),
        )
        (λ j t e h.
          let at_j = get-remove from_id j g.streams w.stream_map in
          elim (Bool-cases (from_id == j)) [
            | inl gone ↦ absurd (cc (rw gone at (sym at_j ∙ h)))
            | inr kept ↦
                let (k, l, c) = w.wired j t (rw kept at (sym at_j ∙ h)) in
                (
                  k,
                  l,
                  λ v.
                      c v
                      ∙ sym (resolved_count-insert a from_id to_id j (reads v) f kept ∙ rw e refl),
                )
          ])

  -- The alias is made, and the readers of both streams read the one that stays.
  pub add_stream_alias-IsWired :
      IsWired g
      → from_id ≢ to_id
      → IsFresh g.stream_aliases from_id
      → get to_id g.stream_aliases ≡ none
      → (fs ts : StreamMetadata) → get from_id g.streams ≡ some fs
      → get to_id g.streams ≡ some ts
      → (g' : Graph R H) × (add_stream_alias g from_id to_id ≡ ok g') × IsWired g'
  add_stream_alias-IsWired w ne f no_key fs ts hf ht = (
    aliased fs ts,
    add_stream_alias-aliased fs ts w.stream_map ne hf ht,
    record {
      operator_map = w.operator_map;
      operator_keys = w.operator_keys;
      driver_map = w.driver_map;
      driver_keys = w.driver_keys;
      stream_map = insert-IsMap to_id _ _ (remove-IsMap from_id g.streams w.stream_map);
      flat = IsFlat-insert g.stream_aliases from_id to_id w.flat f no_key ne;
      wired = aliased-wired fs ts w ne f hf ht;
    },
  )

  forward :
      IsMap g.streams
      → add_stream_alias g from_id to_id ≡ err unreachable
      → (from_id ≡ to_id) × ((s : StreamMetadata) × (get to_id g.streams ≡ some s))
  unfolding add_stream_alias
  forward m h = elim (Option-cases (get to_id g.streams)) [
    | inl e ↦ absurd (cc (rw (e, add_stream_alias) at h))
    | inr (s, e) ↦ elim (Bool-cases (from_id == to_id)) [
      | inl same ↦ ((==_iff from_id to_id).0 same, (s, e))
      | inr other ↦ elim (Option-cases (get from_id g.streams)) [
        | inl no_from ↦ absurd (cc (rw (e, no_from, add_stream_alias) at h))
        | inr (fs, hf) ↦ absurd (cc (add_stream_alias-aliased fs s m (ground arith) hf e, h))
      ]
    ]
  ]

  backward :
      IsMap g.streams
      → from_id ≡ to_id
      → (s : StreamMetadata) → get to_id g.streams ≡ some s
      → add_stream_alias g from_id to_id ≡ err unreachable
  unfolding add_stream_alias
  backward m same s e =
      let hf : get from_id g.streams ≡ some s = rw same e in
      let is_same : (from_id == to_id) ≡ true = (==_iff from_id to_id).1 same in
      let gone : get to_id (remove from_id g.streams) ≡ none =
        get-remove from_id to_id g.streams m ∙ rw is_same refl in
      rw (add_stream_alias, e, hf, gone) refl

  -- `unreachable!` is reached for a stream of the graph as its own alias, and only then.
  pub add_stream_alias-unreachable :
      IsMap g.streams
      → (add_stream_alias g from_id to_id ≡ err unreachable)
        ↔ ((from_id ≡ to_id) × ((s : StreamMetadata) × (get to_id g.streams ≡ some s)))
  add_stream_alias-unreachable m = (forward m, λ (same, (s, ht)). backward m same s ht)
