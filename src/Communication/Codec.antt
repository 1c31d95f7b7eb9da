-- ===== src/Communication/Codec.antt =====
-- src/communication/message_codec.rs, for the transport over TCP, and `InterProcessMessage` of
-- src/communication/mod.rs. Bytes are numbers below 256 in a list; what `reserve` does to a
-- buffer's capacity is left out.
pub mod Bytes
pub mod Resume
pub mod RoundTrip
use erdos.Prelude.{
  ℕ, ◌+◌, ◌*◌, ◌/◌, ◌%◌, ◌^◌, ◌≡◌, Bool, true, false, List, [], ◌∷◌, ◌++◌, Option, none, some,
  if◌then◌else◌, leb, take, drop, length,
}

-- What the codec relies on of `bincode` and of the serialization of payloads, which are not part
-- of the program. `None` is an error.
pub record Wire (M D : Type 0) : Type 0 where
  pub serialize : M → Option (List ℕ)
  pub serialized_size : M → Option ℕ
  pub deserialize : List ℕ → Option M
  pub encode_data : D → Option (List ℕ)
  pub data_size : D → Option ℕ
  pub deserialize-serialize :
      (m : M) (bytes : List ℕ) → serialize m ≡ some bytes → deserialize bytes ≡ some m
  pub size-serialize :
      (m : M) (bytes : List ℕ) → serialize m ≡ some bytes → serialized_size m ≡ some (length bytes)
  pub size-encode_data :
      (d : D) (bytes : List ℕ) → encode_data d ≡ some bytes → data_size d ≡ some (length bytes)

-- `NetworkEndian`, on what a cast to `u32` leaves of the number.
unfoldable pub write_u32 : ℕ → List ℕ
write_u32 size =
    let n = size % 4294967296 in
    (n / 16777216) ∷ (n / 65536 % 256) ∷ (n / 256 % 256) ∷ (n % 256) ∷ []

unfoldable pub read_u32 : List ℕ → ℕ
read_u32 (a ∷ b ∷ c ∷ d ∷ rest) = a * 16777216 + b * 65536 + c * 256 + d
read_u32 bytes = 0

pub data DecodeStatus : Type 0 where
  header : DecodeStatus
  metadata : ℕ → ℕ → DecodeStatus
  data_part : ℕ → DecodeStatus

pub data InterProcessMessage (M D : Type 0) : Type 0 where
  serialized : M → List ℕ → InterProcessMessage M D
  deserialized : M → D → InterProcessMessage M D

pub record MessageCodec (M : Type 0) : Type 0 where
  pub status : DecodeStatus
  pub msg_metadata : Option M

-- What `decode` gives: `Ok(Some(msg))`, `Ok(None)`, an error, or a panic.
pub data Decoded (M D : Type 0) : Type 0 where
  message : InterProcessMessage M D → Decoded M D
  incomplete : Decoded M D
  bincode_error : Decoded M D
  panic : Decoded M D

-- What `encode` gives.
pub data Encoded : Type 0 where
  encoded : Encoded
  bincode_error : Encoded
  panic : Encoded

abbrev pub new : {M : Type 0} → MessageCodec M
new = record { status = header; msg_metadata = none }

module _ {M D : Type 0} where
  -- Each part of `decode` gives the codec and the buffer after the call, and the result.
  unfoldable pub decode_data : ℕ → MessageCodec M → List ℕ → MessageCodec M × List ℕ × Decoded M D
  decode_data data_size codec buf =
      if leb data_size (length buf)
      then elim codec.msg_metadata [
        | none ↦ (codec, drop data_size buf, panic)
        | some m ↦ (
          record { status = header; msg_metadata = none },
          drop data_size buf,
          message (serialized m (take data_size buf)),
        )
      ]
      else (codec, buf, incomplete)

  unfoldable pub decode_metadata :
      Wire M D → ℕ → ℕ → MessageCodec M → List ℕ → MessageCodec M × List ℕ × Decoded M D
  decode_metadata wire metadata_size data_size codec buf =
      if leb metadata_size (length buf)
      then elim (wire.deserialize (take metadata_size buf)) [
        | none ↦ (codec, drop metadata_size buf, bincode_error)
        | some m ↦
            decode_data data_size (record { status = data_part data_size; msg_metadata = some m })
              (drop metadata_size buf)
      ]
      else (codec, buf, incomplete)

  unfoldable pub decode_header :
      Wire M D → MessageCodec M → List ℕ → MessageCodec M × List ℕ × Decoded M D
  decode_header wire codec buf =
      if leb 8 (length buf)
      then (let metadata_size = read_u32 (take 4 buf) in
          let data_size = read_u32 (take 4 (drop 4 buf)) in
          decode_metadata wire metadata_size data_size
            (record {
              status = metadata metadata_size data_size;
              msg_metadata = codec.msg_metadata;
            })
            (drop 8 buf))
      else (codec, buf, incomplete)

  abbrev decode_from :
      Wire M D → DecodeStatus → MessageCodec M → List ℕ → MessageCodec M × List ℕ × Decoded M D
  decode_from wire header codec buf = decode_header wire codec buf
  decode_from wire (metadata metadata_size data_size) codec buf =
      decode_metadata wire metadata_size data_size codec buf
  decode_from wire (data_part data_size) codec buf = decode_data data_size codec buf

  -- `Decoder::decode`
  abbrev pub decode : Wire M D → MessageCodec M → List ℕ → MessageCodec M × List ℕ × Decoded M D
  decode wire codec buf = decode_from wire codec.status codec buf

  -- `Encoder::encode`: the buffer after the call, and what it gives.
  unfoldable pub encode : Wire M D → InterProcessMessage M D → List ℕ → List ℕ × Encoded
  encode wire (serialized m bytes) buf = (buf, panic)
  encode wire (deserialized m d) buf = elim (wire.serialized_size m) [
    | none ↦ (buf, bincode_error)
    | some metadata_size ↦ elim (wire.data_size d) [
      | none ↦ (buf, panic)
      | some data_size ↦
          let buf1 = buf ++ write_u32 metadata_size ++ write_u32 data_size in
          elim (wire.serialize m) [
            | none ↦ (buf1, bincode_error)
            | some metadata_bytes ↦ elim (wire.encode_data d) [
              | none ↦ (buf1 ++ metadata_bytes, panic)
              | some data_bytes ↦ ((buf1 ++ metadata_bytes) ++ data_bytes, encoded)
            ]
          ]
    ]
  ]
