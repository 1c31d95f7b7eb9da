-- ===== src/Communication/Slices/Parse.antt =====
-- What the messages of src/communication/mod.rs over zenoh are read back as, and the buffers that
-- panic.
use erdos.Prelude.{
  ℕ, ◌+◌, ◌≤◌, ◌<◌, ◌≡◌, ◌↔◌, refl, sym, ap, ◌∙◌, inl, inr, true, false, List, [], ◌++◌, some,
  if◌then◌else◌, leb, ltb, take, drop, length, length-append, append-nil, arith, Bool-cases,
  Option-cases,
}
use erdos.Communication.Codec.{
  Wire, InterProcessMessage, serialized, deserialized, write_u32, read_u32,
}
use erdos.Communication.Codec.Bytes.{take-length, drop-length, read_u32-write_u32}
use erdos.Communication.Slices.{
  Outcome, value, panic, bincode_error, sizes, contents, into_rbuf, from_parts, from_slice,
}

module _ {M D : Type 0} (wire : Wire M D) where
  from_parts-no_panic : (ms ds : List ℕ) (n : ℕ) → from_parts wire ms ds n ≡ panic → ⊥
  unfolding from_parts
  from_parts-no_panic ms ds n h = elim (Option-cases (wire.deserialize ms)) [
    | inl e ↦ absurd (cc (rw (e, from_parts) at h))
    | inr (m, e) ↦ elim (Bool-cases (ltb (length ds) n)) [
      | inl k ↦ absurd (cc (rw (e, k, from_parts) at h))
      | inr k ↦ absurd (cc (rw (e, k, from_parts) at h))
    ]
  ]

  -- What is left of `from_slice` when the sizes are read.
  abbrev after_header : ℕ → ℕ → List ℕ → Outcome (InterProcessMessage M D)
  after_header metadata_size data_size body =
      if ltb (length (take metadata_size body)) metadata_size
      then bincode_error
      else from_parts wire (take metadata_size body) (drop metadata_size body) data_size

  from_slice-enough :
      (buf : List ℕ)
      → leb 8 (length buf) ≡ true
      → leb (8 + read_u32 (take 4 buf)) (length buf) ≡ true
      → from_slice wire buf
        ≡ after_header (read_u32 (take 4 buf)) (read_u32 (take 4 (drop 4 buf))) (drop 8 buf)
  unfolding from_slice
  from_slice-enough buf k j = rw (k, j) refl

  panics :
      (buf : List ℕ)
      → from_slice wire buf ≡ panic
      → (8 ≤ length buf) × (length buf < 8 + read_u32 (take 4 buf))
  unfolding from_slice
  panics buf h = elim (Bool-cases (leb 8 (length buf))) [
    | inr k ↦ absurd (cc (rw (k, from_slice) at h))
    | inl k ↦ elim (Bool-cases (leb (8 + read_u32 (take 4 buf)) (length buf))) [
      | inr j ↦ (ground (arith, k), ground (arith, j))
      | inl j ↦
          let x = read_u32 (take 4 buf) in
          let h' = sym (from_slice-enough buf k j) ∙ h in
          elim (Bool-cases (ltb (length (take x (drop 8 buf))) x)) [
            | inl t ↦ absurd (cc (rw t at h'))
            | inr t ↦ absurd (
                from_parts-no_panic (take x (drop 8 buf)) (drop x (drop 8 buf))
                  (read_u32 (take 4 (drop 4 buf))) (rw t at h'))
          ]
    ]
  ]

  too_short :
      (buf : List ℕ)
      → 8 ≤ length buf
      → length buf < 8 + read_u32 (take 4 buf)
      → from_slice wire buf ≡ panic
  unfolding from_slice
  too_short buf long short =
      let k : leb 8 (length buf) ≡ true = ground (arith, long) in
      let j : leb (8 + read_u32 (take 4 buf)) (length buf) ≡ false = ground (arith, short) in
      rw (k, j) refl

  -- Reading a buffer panics if and only if it has a header, and is shorter than the header with
  -- the metadata whose size the header tells.
  pub from_slice-panics :
      (buf : List ℕ)
      → (from_slice wire buf ≡ panic)
        ↔ ((8 ≤ length buf) × (length buf < 8 + read_u32 (take 4 buf)))
  unfolding from_slice
  from_slice-panics buf = (panics buf, λ (long, short). too_short buf long short)

  module _ (m : M) (d : D) (ms ds : List ℕ) (hm : wire.serialize m ≡ some ms)
      (hd : wire.encode_data d ≡ some ds) where
    into_rbuf-bytes :
        into_rbuf wire (deserialized m d)
        ≡ value (write_u32 (length ms) ++ (write_u32 (length ds) ++ (ms ++ ds)))
    unfolding into_rbuf sizes contents
    into_rbuf-bytes =
        ground (arith, hm, hd, wire.size-serialize m ms hm, wire.size-encode_data d ds hd)

    into_rbuf-again :
        into_rbuf wire (serialized m ds)
        ≡ value (write_u32 (length ms) ++ (write_u32 (length ds) ++ (ms ++ ds)))
    unfolding into_rbuf sizes contents
    into_rbuf-again = ground (arith, hm, wire.size-serialize m ms hm)

    -- What stands after the message is not read.
    from_parts-bytes :
        (rest : List ℕ) → from_parts wire ms (ds ++ rest) (length ds) ≡ value (serialized m ds)
    unfolding from_parts
    from_parts-bytes rest =
        let l = length-append ds rest in
        let j : ltb (length (ds ++ rest)) (length ds) ≡ false = ground (arith, l) in
        rw (from_parts, wire.deserialize-serialize m ms hm, j, take-length ds rest) refl

    after_header-bytes :
        (rest : List ℕ)
        → after_header (length ms) (length ds) (ms ++ (ds ++ rest)) ≡ value (serialized m ds)
    after_header-bytes rest =
        let k : ltb (length ms) (length ms) ≡ false = ground arith in
        rw (take-length ms (ds ++ rest), drop-length ms (ds ++ rest), k) (from_parts-bytes rest)

    pub from_slice-bytes :
        (rest : List ℕ)
        → length ms < 4294967296
        → length ds < 4294967296
        → from_slice wire (write_u32 (length ms) ++ (write_u32 (length ds) ++ (ms ++ (ds ++ rest))))
          ≡ value (serialized m ds)
    unfolding write_u32
    from_slice-bytes rest bm bd =
        let x = read_u32-write_u32 (length ms) bm in
        let l = length-append ms (ds ++ rest) in
        from_slice-enough (write_u32 (length ms) ++ (write_u32 (length ds) ++ (ms ++ (ds ++ rest))))
          (ground arith) (ground (arith, x, l))
        ∙ ap (λ x. after_header x (read_u32 (write_u32 (length ds))) (ms ++ (ds ++ rest))) x
        ∙ ap (λ y. after_header (length ms) y (ms ++ (ds ++ rest)))
            (read_u32-write_u32 (length ds) bd)
        ∙ after_header-bytes rest

    from_slice-exact :
        length ms < 4294967296
        → length ds < 4294967296
        → from_slice wire (write_u32 (length ms) ++ (write_u32 (length ds) ++ (ms ++ ds)))
          ≡ value (serialized m ds)
    from_slice-exact bm bd =
        ap (λ r. from_slice wire (write_u32 (length ms) ++ (write_u32 (length ds) ++ (ms ++ r))))
          (sym (append-nil ds))
        ∙ from_slice-bytes [] bm bd

    -- A message whose metadata and payload serialize to less than 2 ^ 32 bytes each is written to a
    -- buffer that is read back as its metadata and the bytes of its payload; and what is read back
    -- is written to the same buffer again, as when it is passed on.
    pub from_slice-into_rbuf :
        length ms < 4294967296
        → length ds < 4294967296
        → (buf : List ℕ) × (into_rbuf wire (deserialized m d) ≡ value buf)
          × (from_slice wire buf ≡ value (serialized m ds))
          × (into_rbuf wire (serialized m ds) ≡ value buf)
    from_slice-into_rbuf bm bd = (
      write_u32 (length ms) ++ (write_u32 (length ds) ++ (ms ++ ds)),
      into_rbuf-bytes,
      from_slice-exact bm bd,
      into_rbuf-again,
    )
