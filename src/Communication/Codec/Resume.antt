-- ===== src/Communication/Codec/Resume.antt =====
-- Bytes that arrive in pieces, for src/communication/message_codec.rs.
use erdos.Prelude.{
  ℕ, ◌≤◌, ◌≡◌, sym, ap, ◌∙◌, ◌⊎◌, inl, inr, true, Bool-cases, Option-cases, List, ◌++◌, Option,
  some, leb, take, drop, length, length-append, arith,
}
use erdos.Communication.Codec.{
  Wire, MessageCodec, DecodeStatus, header, metadata, data_part, incomplete, decode, decode_data,
  decode_metadata, decode_header, read_u32,
}
use erdos.Communication.Codec.Bytes.{take-append, drop-append, length-drop}

module _ {M D : Type 0} (wire : Wire M D) where
  waits-data :
      (n : ℕ) (c c' : MessageCodec M) (front left : List ℕ)
      → decode_data {D = D} n c front ≡ (c', left, incomplete)
      → (c ≡ c') × (front ≡ left)
  unfolding decode_data
  waits-data n c c' front left h = elim (Option-cases c.msg_metadata) [
    | inl k ↦ ground (arith, h, k)
    | inr (m, k) ↦ ground (arith, h, k)
  ]

  pub metadata-some :
      (a b : ℕ) (c : MessageCodec M) (buf : List ℕ) (m : M)
      → a ≤ length buf
      → wire.deserialize (take a buf) ≡ some m
      → decode_metadata wire a b c buf
        ≡ decode_data b (record { status = data_part b; msg_metadata = some m }) (drop a buf)
  unfolding decode_metadata
  metadata-some a b c buf m h d =
      let k : leb a (length buf) ≡ true = ground (arith, h) in ground (arith, k, d)

  waits-metadata :
      (a b : ℕ) (c c' : MessageCodec M) (front left back : List ℕ)
      → decode_metadata wire a b c front ≡ (c', left, incomplete)
      → ((c ≡ c') × (front ≡ left))
        ⊎ (decode wire c' (left ++ back) ≡ decode_metadata wire a b c (front ++ back))
  waits-metadata a b c c' front left back h = elim (Bool-cases (leb a (length front))) [
    | inr k ↦ inl (unfold decode_metadata in ground (arith, h, k))
    | inl k ↦ elim (Option-cases (wire.deserialize (take a front))) [
      | inl d ↦ inl (absurd (unfold decode_metadata in ground (arith, h, k, d)))
      | inr (m, d) ↦
          let fits : a ≤ length front = ground (arith, k) in
          let start : MessageCodec M = record { status = data_part b; msg_metadata = some m } in
          let (p, q) =
            waits-data b start c' (drop a front) left
              (sym (metadata-some a b c front m fits d) ∙ h) in
          let more =
            metadata-some a b c (front ++ back) m
              (let l = length-append front back in omega (arith, l, fits))
              (ap wire.deserialize (take-append a front back fits) ∙ d) in
          inr (
            ap (λ x. decode wire x (left ++ back)) (sym p)
            ∙ ap (λ l. decode_data b start (l ++ back)) (sym q)
            ∙ ap (λ l. decode_data b start l) (sym (drop-append a front back fits))
            ∙ sym more)
    ]
  ]

  pub header-enough :
      (c : MessageCodec M) (buf : List ℕ)
      → 8 ≤ length buf
      → decode_header wire c buf
        ≡ decode_metadata wire
            (read_u32 (take 4 buf))
            (read_u32 (take 4 (drop 4 buf)))
            (record {
              status = metadata (read_u32 (take 4 buf)) (read_u32 (take 4 (drop 4 buf)));
              msg_metadata = c.msg_metadata;
            })
            (drop 8 buf)
  unfolding decode_header
  header-enough c buf h = let k : leb 8 (length buf) ≡ true = ground (arith, h) in ground (arith, k)

  waits-header :
      (c c' : MessageCodec M) (front left back : List ℕ)
      → decode_header wire c front ≡ (c', left, incomplete)
      → ((c ≡ c') × (front ≡ left))
        ⊎ (decode wire c' (left ++ back) ≡ decode_header wire c (front ++ back))
  waits-header c c' front left back h = elim (Bool-cases (leb 8 (length front))) [
    | inr k ↦ inl (unfold decode_header in ground (arith, h, k))
    | inl k ↦
        let fits : 8 ≤ length front = ground (arith, k) in
        let part : 4 ≤ length front = omega (arith, fits) in
        let rest : 4 ≤ length (drop 4 front) =
          let l = length-drop 4 front part in omega (arith, l, fits) in
        let a = read_u32 (take 4 front) in
        let b = read_u32 (take 4 (drop 4 front)) in
        let start : MessageCodec M = record {
          status = metadata a b;
          msg_metadata = c.msg_metadata;
        } in
        let a' : read_u32 (take 4 (front ++ back)) ≡ a =
          ap read_u32 (take-append 4 front back part) in
        let b' : read_u32 (take 4 (drop 4 (front ++ back))) ≡ b =
          ap (λ l. read_u32 (take 4 l)) (drop-append 4 front back part)
          ∙ ap read_u32 (take-append 4 (drop 4 front) back rest) in
        let more : decode_header wire c (front ++ back)
            ≡ decode_metadata wire a b start (drop 8 front ++ back) =
          header-enough c (front ++ back)
            (let l = length-append front back in omega (arith, l, fits))
          ∙ ap
              (λ x.
                decode_metadata wire x (read_u32 (take 4 (drop 4 (front ++ back))))
                  (record {
                    status = metadata x (read_u32 (take 4 (drop 4 (front ++ back))));
                    msg_metadata = c.msg_metadata;
                  })
                  (drop 8 (front ++ back)))
              a'
          ∙ ap
              (λ x.
                decode_metadata wire a x
                  (record { status = metadata a x; msg_metadata = c.msg_metadata })
                  (drop 8 (front ++ back)))
              b'
          ∙ ap (λ l. decode_metadata wire a b start l) (drop-append 8 front back fits) in
        inr
          (elim (waits-metadata a b start c' (drop 8 front) left back
            (sym (header-enough c front fits) ∙ h)) [
              | inl (p, q) ↦
                  ap (λ x. decode wire x (left ++ back)) (sym p)
                  ∙ ap (λ l. decode wire start (l ++ back)) (sym q)
                  ∙ sym more
              | inr e ↦ e ∙ sym more
            ])
  ]

  waits-same :
      (c c' : MessageCodec M) (front left back : List ℕ)
      → c ≡ c'
      → front ≡ left
      → decode wire c' (left ++ back) ≡ decode wire c (front ++ back)
  waits-same c c' front left back p q =
      ap (λ x. decode wire x (left ++ back)) (sym p) ∙ ap (λ l. decode wire c (l ++ back)) (sym q)

  resume_from :
      (status : DecodeStatus) (m : Option M) (c' : MessageCodec M) (front left back : List ℕ)
      → decode wire (record { status = status; msg_metadata = m }) front ≡ (c', left, incomplete)
      → decode wire c' (left ++ back)
        ≡ decode wire (record { status = status; msg_metadata = m }) (front ++ back)
  resume_from header m c' front left back h =
      let c : MessageCodec M = record { status = header; msg_metadata = m } in
      elim (waits-header c c' front left back h) [
        | inl (p, q) ↦ waits-same c c' front left back p q
        | inr e ↦ e
      ]
  resume_from (metadata a b) m c' front left back h =
      let c : MessageCodec M = record { status = metadata a b; msg_metadata = m } in
      elim (waits-metadata a b c c' front left back h) [
        | inl (p, q) ↦ waits-same c c' front left back p q
        | inr e ↦ e
      ]
  resume_from (data_part n) m c' front left back h =
      let c : MessageCodec M = record { status = data_part n; msg_metadata = m } in
      let (p, q) = waits-data n c c' front left h in waits-same c c' front left back p q

  -- Where the bytes are cut does not matter: if `decode` asks for more, then calling it again
  -- with what it left and the bytes that arrived since gives what one call on all the bytes
  -- gives, whatever part of a message the codec stood in.
  pub decode_resumes :
      (c c' : MessageCodec M) (front left back : List ℕ)
      → decode wire c front ≡ (c', left, incomplete)
      → decode wire c' (left ++ back) ≡ decode wire c (front ++ back)
  decode_resumes c c' front left back h = resume_from c.status c.msg_metadata c' front left back h
