-- ===== src/Communication/Codec/RoundTrip.antt =====
-- What src/communication/message_codec.rs encodes, it decodes.
use erdos.Prelude.{
  ℕ, ◌<◌, ◌≡◌, refl, ap, ◌∙◌, List, [], ◌++◌, append_assoc, none, some, leb, length, length-append,
  arith, true,
}
use erdos.Communication.Codec.{
  Wire, MessageCodec, metadata, data_part, message, serialized, deserialized, new, decode,
  decode_data, decode_metadata, read_u32, write_u32, encode, encoded,
}
use erdos.Communication.Codec.Bytes.{take-length, drop-length, read_u32-write_u32}
use erdos.Communication.Codec.Resume.{metadata-some, header-enough}

module _ {M D : Type 0} (wire : Wire M D) where
  module _ (m : M) (d : D) (ms ds : List ℕ) (hm : wire.serialize m ≡ some ms)
      (hd : wire.encode_data d ≡ some ds) where
    encode-bytes :
        (buf : List ℕ)
        → encode wire (deserialized m d) buf
          ≡ (((buf ++ write_u32 (length ms) ++ write_u32 (length ds)) ++ ms) ++ ds, encoded)
    unfolding encode
    encode-bytes buf =
        ground (arith, hm, hd, wire.size-serialize m ms hm, wire.size-encode_data d ds hd)

    decode-data_part :
        (rest : List ℕ)
        → decode_data {D = D}
            (length ds)
            (record { status = data_part (length ds); msg_metadata = some m })
            (ds ++ rest)
          ≡ (new, rest, message (serialized m ds))
    unfolding decode_data
    decode-data_part rest =
        let k : leb (length ds) (length (ds ++ rest)) ≡ true =
          let l = length-append ds rest in ground (arith, l) in
        rw (k, take-length ds rest, drop-length ds rest) refl

    decode-metadata_part :
        (c : MessageCodec M) (rest : List ℕ)
        → decode_metadata wire (length ms) (length ds) c (ms ++ (ds ++ rest))
          ≡ (new, rest, message (serialized m ds))
    decode-metadata_part c rest =
        metadata-some wire (length ms) (length ds) c (ms ++ (ds ++ rest)) m
          (let l = length-append ms (ds ++ rest) in omega (arith, l))
          (ap wire.deserialize (take-length ms (ds ++ rest)) ∙ wire.deserialize-serialize m ms hm)
        ∙ ap
            (λ l.
              decode_data (length ds)
                (record { status = data_part (length ds); msg_metadata = some m }) l)
            (drop-length ms (ds ++ rest))
        ∙ decode-data_part rest

    decode-all :
        (rest : List ℕ)
        → length ms < 4294967296
        → length ds < 4294967296
        → decode wire new ((((write_u32 (length ms) ++ write_u32 (length ds)) ++ ms) ++ ds) ++ rest)
          ≡ (new, rest, message (serialized m ds))
    unfolding write_u32
    decode-all rest bm bd =
        header-enough wire new
          ((((write_u32 (length ms) ++ write_u32 (length ds)) ++ ms) ++ ds) ++ rest) (omega arith)
        ∙ ap
            (λ x.
              decode_metadata wire x (read_u32 (write_u32 (length ds)))
                (record {
                  status = metadata x (read_u32 (write_u32 (length ds)));
                  msg_metadata = none;
                })
                ((ms ++ ds) ++ rest))
            (read_u32-write_u32 (length ms) bm)
        ∙ ap
            (λ x.
              decode_metadata wire (length ms) x
                (record { status = metadata (length ms) x; msg_metadata = none })
                ((ms ++ ds) ++ rest))
            (read_u32-write_u32 (length ds) bd)
        ∙ ap
            (λ l.
              decode_metadata wire (length ms) (length ds)
                (record { status = metadata (length ms) (length ds); msg_metadata = none }) l)
            (append_assoc ms ds rest)
        ∙ decode-metadata_part
            (record { status = metadata (length ms) (length ds); msg_metadata = none }) rest

    -- A message whose metadata and payload serialize to less than 2 ^ 32 bytes each is
    -- encoded, and decoding these bytes gives its metadata and payload, whatever follows them,
    -- consumes exactly these bytes, and leaves the codec as it was at first.
    pub decode-encode :
        (rest : List ℕ)
        → length ms < 4294967296
        → length ds < 4294967296
        → (bytes : List ℕ) × (encode wire (deserialized m d) [] ≡ (bytes, encoded))
          × (decode wire new (bytes ++ rest) ≡ (new, rest, message (serialized m ds)))
    decode-encode rest bm bd = (
      ((write_u32 (length ms) ++ write_u32 (length ds)) ++ ms) ++ ds,
      encode-bytes [],
      decode-all rest bm bd,
    )
