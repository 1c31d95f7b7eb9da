-- ===== src/Communication/ControlCodec.antt =====
-- src/communication/control_message_codec.rs: control messages behind their size in 32 bits.
use erdos.Prelude.{
  ℕ, ◌≤◌, ◌<◌, ◌≡◌, refl, sym, ap, ◌∙◌, Bool-cases, Option-cases, inl, inr, Bool, true, false, List,
  [], ◌++◌, Option, none, some, if◌then◌else◌, leb, take, drop, length, length-append, arith,
}
use erdos.Communication.Codec.{write_u32, read_u32}
use erdos.Communication.Codec.Bytes.{
  take-append, drop-append, take-length, drop-length, read_u32-write_u32,
}

-- What the codec relies on of `bincode`, which is not part of the program.
pub record Wire (M : Type 0) : Type 0 where
  pub serialize : M → Option (List ℕ)
  pub serialized_size : M → Option ℕ
  pub deserialize : List ℕ → Option M
  pub deserialize-serialize :
      (m : M) (bytes : List ℕ) → serialize m ≡ some bytes → deserialize bytes ≡ some m
  pub size-serialize :
      (m : M) (bytes : List ℕ) → serialize m ≡ some bytes → serialized_size m ≡ some (length bytes)

-- The codec's field `msg_size`.
pub record ControlMessageCodec : Type 0 where
  pub msg_size : Option ℕ

pub data Decoded (M : Type 0) : Type 0 where
  message : M → Decoded M
  incomplete : Decoded M
  panic : Decoded M

abbrev pub fresh : ControlMessageCodec
fresh = record { msg_size = none }

unfoldable pub try_read_msg_size : List ℕ → Option (ℕ × List ℕ)
try_read_msg_size buf =
    if leb 4 (length buf) then some (read_u32 (take 4 buf), drop 4 buf) else none

module _ {M : Type 0} where
  unfoldable pub try_read_message : Wire M → ℕ → List ℕ → ControlMessageCodec × List ℕ × Decoded M
  try_read_message wire msg_size buf =
      if leb msg_size (length buf)
      then elim (wire.deserialize (take msg_size buf)) [
        | none ↦ (record { msg_size = some msg_size }, drop msg_size buf, panic)
        | some msg ↦ (record { msg_size = none }, drop msg_size buf, message msg)
      ]
      else (record { msg_size = some msg_size }, buf, incomplete)

  -- `Decoder::decode`
  unfoldable pub decode_size : Wire M → Option ℕ → List ℕ → ControlMessageCodec × List ℕ × Decoded M
  decode_size wire (some msg_size) buf = try_read_message wire msg_size buf
  decode_size wire none buf = elim (try_read_msg_size buf) [
    | none ↦ (record { msg_size = none }, buf, incomplete)
    | some (msg_size, rest) ↦ try_read_message wire msg_size rest
  ]

  abbrev pub decode :
      Wire M → ControlMessageCodec → List ℕ → ControlMessageCodec × List ℕ × Decoded M
  decode wire codec buf = decode_size wire codec.msg_size buf

  -- `Encoder::encode`: the buffer after the call; `None` with the buffer is an error.
  unfoldable pub encode : Wire M → M → List ℕ → List ℕ × Bool
  encode wire msg buf = elim (wire.serialized_size msg) [
    | none ↦ (buf, false)
    | some msg_size ↦ elim (wire.serialize msg) [
      | none ↦ (buf ++ write_u32 msg_size, false)
      | some bytes ↦ ((buf ++ write_u32 msg_size) ++ bytes, true)
    ]
  ]

module _ {M : Type 0} (wire : Wire M) where
  waits-message :
      (n : ℕ) (c' : ControlMessageCodec) (front left : List ℕ)
      → try_read_message wire n front ≡ (c', left, incomplete)
      → (record { msg_size = some n } ≡ c') × (front ≡ left)
  unfolding try_read_message
  waits-message n c' front left h = elim (Option-cases (wire.deserialize (take n front))) [
    | inl k ↦ ground (arith, h, k)
    | inr (m, k) ↦ ground (arith, h, k)
  ]

  size_known : (n : ℕ) (buf : List ℕ) → decode_size wire (some n) buf ≡ try_read_message wire n buf
  unfolding decode_size
  size_known n buf = refl

  size_enough :
      (buf : List ℕ)
      → 4 ≤ length buf
      → decode_size wire none buf ≡ try_read_message wire (read_u32 (take 4 buf)) (drop 4 buf)
  unfolding decode_size try_read_msg_size
  size_enough buf h = let k : leb 4 (length buf) ≡ true = ground (arith, h) in ground (arith, k)

  resume_size :
      (size : Option ℕ) (c' : ControlMessageCodec) (front left back : List ℕ)
      → decode_size wire size front ≡ (c', left, incomplete)
      → decode wire c' (left ++ back) ≡ decode_size wire size (front ++ back)
  resume_size (some n) c' front left back h =
      let (p, q) = waits-message n c' front left (unfold decode_size in h) in
      ap (λ x. decode wire x (left ++ back)) (sym p)
      ∙ ap (λ l. decode_size wire (some n) (l ++ back)) (sym q)
  resume_size none c' front left back h = elim (Bool-cases (leb 4 (length front))) [
    | inr k ↦
        let same : (fresh ≡ c') × (front ≡ left) =
          unfold decode_size try_read_msg_size in ground (arith, h, k) in
        ap (λ x. decode wire x (left ++ back)) (sym same.0)
        ∙ ap (λ l. decode_size wire none (l ++ back)) (sym same.1)
    | inl k ↦
        let fits : 4 ≤ length front = ground (arith, k) in
        let n = read_u32 (take 4 front) in
        let (p, q) = waits-message n c' (drop 4 front) left (sym (size_enough front fits) ∙ h) in
        let more =
          size_enough (front ++ back)
            (let l = length-append front back in omega (arith, l, fits)) in
        ap (λ x. decode wire x (left ++ back)) (sym p)
        ∙ ap (λ l. decode_size wire (some n) (l ++ back)) (sym q)
        ∙ size_known n (drop 4 front ++ back)
        ∙ ap (λ l. try_read_message wire n l) (sym (drop-append 4 front back fits))
        ∙ ap (λ x. try_read_message wire x (drop 4 (front ++ back)))
            (ap read_u32 (sym (take-append 4 front back fits)))
        ∙ sym more
  ]

  -- Where the bytes are cut does not matter: if `decode` asks for more, then calling it again
  -- with what it left and the bytes that arrived since gives what one call on all the bytes
  -- gives.
  pub control_decode_resumes :
      (c c' : ControlMessageCodec) (front left back : List ℕ)
      → decode wire c front ≡ (c', left, incomplete)
      → decode wire c' (left ++ back) ≡ decode wire c (front ++ back)
  control_decode_resumes c c' front left back h = resume_size c.msg_size c' front left back h

  encode-bytes :
      (msg : M) (ms : List ℕ)
      → wire.serialize msg ≡ some ms
      → encode wire msg [] ≡ (write_u32 (length ms) ++ ms, true)
  unfolding encode
  encode-bytes msg ms h = ground (arith, h, wire.size-serialize msg ms h)

  read-back :
      (msg : M) (ms rest : List ℕ)
      → wire.serialize msg ≡ some ms
      → try_read_message wire (length ms) (ms ++ rest) ≡ (fresh, rest, message msg)
  unfolding try_read_message
  read-back msg ms rest h =
      let k : leb (length ms) (length (ms ++ rest)) ≡ true =
        let l = length-append ms rest in ground (arith, l) in
      let d : wire.deserialize (take (length ms) (ms ++ rest)) ≡ some msg =
        ap wire.deserialize (take-length ms rest) ∙ wire.deserialize-serialize msg ms h in
      rw (k, d, drop-length ms rest) refl

  -- A control message that serializes to less than 2 ^ 32 bytes is encoded, and decoding these
  -- bytes gives it back, whatever follows them, consumes exactly these bytes, and leaves the
  -- codec as it was at first.
  pub control_decode-encode :
      (msg : M) (ms rest : List ℕ)
      → wire.serialize msg ≡ some ms
      → length ms < 4294967296
      → (bytes : List ℕ) × (encode wire msg [] ≡ (bytes, true))
        × (decode wire fresh (bytes ++ rest) ≡ (fresh, rest, message msg))
  control_decode-encode msg ms rest h b = (
    write_u32 (length ms) ++ ms,
    encode-bytes msg ms h,
    unfold write_u32 in
        size_enough ((write_u32 (length ms) ++ ms) ++ rest) (omega arith)
        ∙ ap (λ x. try_read_message wire x (ms ++ rest)) (read_u32-write_u32 (length ms) b)
        ∙ read-back msg ms rest h,
  )
