-- ===== src/Tests/Control.antt =====
-- Encoded messages.
use erdos.Prelude.{
  ℕ, ◌+◌, ◌≤◌, ◌<◌, ◌↔◌, take, ◌≡◌, refl, ap, List, [], ◌∷◌, ◌++◌, Option, none, some, length,
  arith,
}
use erdos.Communication.Codec.{
  Wire, MessageCodec, new, decode, decode_header, decode_metadata, decode_data, data_part, encode,
  encoded, deserialized, serialized, message, read_u32,
}
use erdos.Communication.Codec.Resume.{decode_resumes}
use erdos.Communication.Codec.RoundTrip.{decode-encode}
use erdos.Communication.Slices
use erdos.Communication.Slices.{value, into_rbuf, from_slice}
use erdos.Communication.Slices.Parse.{from_slice-panics}
use erdos.Communication.ControlCodec
use erdos.Communication.ControlCodec.{
  ControlMessageCodec, fresh, decode_size, try_read_msg_size, try_read_message,
  control_decode-encode, control_decode_resumes,
}

some_list : (xs ys : List ℕ) → some xs ≡ some ys → xs ≡ ys
some_list xs ys h = cc

-- A stream identifier in one byte, and a payload of bytes.
abbrev pub read_byte : List ℕ → Option ℕ
read_byte [] = none
read_byte (b ∷ bs) = some b

pub read_byte-byte :
    (m : ℕ) (bytes : List ℕ) → some (m ∷ []) ≡ some bytes → read_byte bytes ≡ some m
read_byte-byte m [] h = cc
read_byte-byte m (b ∷ bs) h = ground (arith, h)

pub byte-length :
    (m : ℕ) (bytes : List ℕ) → some (m ∷ []) ≡ some bytes → some 1 ≡ some (length bytes)
byte-length m bytes h = ap (λ l. some (length l)) (some_list (m ∷ []) bytes h)

abbrev wire : Wire ℕ (List ℕ)
wire = record {
  serialize = λ m. some (m ∷ []);
  serialized_size = λ m. some 1;
  deserialize = read_byte;
  encode_data = λ d. some d;
  data_size = λ d. some (length d);
  deserialize-serialize = read_byte-byte;
  size-serialize = byte-length;
  size-encode_data = λ d bytes h. ap (λ l. some (length l)) (some_list d bytes h);
}

decode-encode_example :
    (bytes : List ℕ) × (encode wire (deserialized 7 (1 ∷ 2 ∷ [])) [] ≡ (bytes, encoded))
    × (decode wire new (bytes ++ (9 ∷ [])) ≡ (new, 9 ∷ [], message (serialized 7 (1 ∷ 2 ∷ []))))
decode-encode_example =
    decode-encode wire 7 (1 ∷ 2 ∷ []) (7 ∷ []) (1 ∷ 2 ∷ []) refl refl (9 ∷ []) (omega arith)
      (omega arith)

-- The header, the metadata, and half of the payload.
abbrev front : List ℕ
front = 0 ∷ 0 ∷ 0 ∷ 1 ∷ 0 ∷ 0 ∷ 0 ∷ 2 ∷ 7 ∷ 1 ∷ []

abbrev in_data : MessageCodec ℕ
in_data = record { status = data_part 2; msg_metadata = some 7 }

decode_resumes_example :
    decode wire in_data ((1 ∷ []) ++ (2 ∷ [])) ≡ decode wire new (front ++ (2 ∷ []))
unfolding decode_header decode_metadata decode_data read_u32
decode_resumes_example = decode_resumes wire new in_data front (1 ∷ []) (2 ∷ []) refl

abbrev control_wire : ControlCodec.Wire ℕ
control_wire = record {
  serialize = λ m. some (m ∷ []);
  serialized_size = λ m. some 1;
  deserialize = read_byte;
  deserialize-serialize = read_byte-byte;
  size-serialize = byte-length;
}

-- A header that tells of nine bytes of metadata, and nothing after it.
abbrev cut_off : List ℕ
cut_off = 0 ∷ 0 ∷ 0 ∷ 9 ∷ 0 ∷ 0 ∷ 0 ∷ 0 ∷ []

from_slice-panics_example :
    (from_slice wire cut_off ≡ Slices.panic) ↔ ((8 ≤ 8) × (8 < 8 + read_u32 (take 4 cut_off)))
from_slice-panics_example = from_slice-panics wire cut_off
