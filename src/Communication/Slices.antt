-- ===== src/Communication/Slices.antt =====
-- `InterProcessMessage` of src/communication/mod.rs, for the transports over zenoh: messages are
-- written to and read from buffers that hold one message each.
pub mod Parse
use erdos.Prelude.{
  ℕ, ◌+◌, List, [], ◌∷◌, ◌++◌, Option, none, some, if◌then◌else◌, leb, ltb, ◌==◌, ◌&&◌, take, drop,
  length,
}
use erdos.Communication.Codec.{
  Wire, InterProcessMessage, serialized, deserialized, write_u32, read_u32,
}

-- A value, an error of the codec or of the shared memory, or a panic.
pub data Outcome (A : Type 0) : Type 0 where
  value : A → Outcome A
  bincode_error : Outcome A
  shared_memory_error : Outcome A
  panic : Outcome A

-- `to_vec` of a buffer's slices.
abbrev pub concat : List (List ℕ) → List ℕ
concat [] = []
concat (s ∷ slices) = s ++ concat slices

module _ {M D : Type 0} (wire : Wire M D) where
  -- The sizes of metadata and payload.
  unfoldable pub sizes : InterProcessMessage M D → Option (ℕ × ℕ)
  sizes (deserialized m d) = elim (wire.serialized_size m) [
    | none ↦ none
    | some metadata_size ↦ elim (wire.data_size d) [
      | none ↦ none
      | some data_size ↦ some (metadata_size, data_size)
    ]
  ]
  sizes (serialized m bytes) = elim (wire.serialized_size m) [
    | none ↦ none
    | some metadata_size ↦ some (metadata_size, length bytes)
  ]

  -- The bytes of metadata and payload.
  unfoldable pub contents : InterProcessMessage M D → Option (List ℕ)
  contents (deserialized m d) = elim (wire.serialize m) [
    | none ↦ none
    | some metadata_bytes ↦ elim (wire.encode_data d) [
      | none ↦ none
      | some enc_data ↦ some (metadata_bytes ++ enc_data)
    ]
  ]
  contents (serialized m bytes) = elim (wire.serialize m) [
    | none ↦ none
    | some metadata_bytes ↦ some (metadata_bytes ++ bytes)
  ]

  -- `reserve` changes no contents.
  unfoldable pub into_rbuf : InterProcessMessage M D → Outcome (List ℕ)
  into_rbuf msg = elim (sizes msg) [
    | none ↦ bincode_error
    | some (metadata_size, data_size) ↦ elim (contents msg) [
      | none ↦ bincode_error
      | some bytes ↦ value (write_u32 metadata_size ++ (write_u32 data_size ++ bytes))
    ]
  ]

  -- `alloc` is that of zenoh's shared memory, and gives a buffer with what it holds. The slice of
  -- its start and the copy into it panic if the lengths do not fit.
  unfoldable pub into_sbuf : (ℕ → Option (List ℕ)) → InterProcessMessage M D → Outcome (List ℕ)
  into_sbuf alloc msg = elim (sizes msg) [
    | none ↦ bincode_error
    | some (metadata_size, data_size) ↦
        let tot_len = 8 + metadata_size + data_size in
        elim (alloc tot_len) [
          | none ↦ shared_memory_error
          | some sbuf ↦ elim (contents msg) [
            | none ↦ bincode_error
            | some bytes ↦
                let buf = write_u32 metadata_size ++ (write_u32 data_size ++ bytes) in
                if leb tot_len (length sbuf) && (length buf == tot_len)
                then value (buf ++ drop tot_len sbuf)
                else panic
          ]
        ]
  ]

  -- The part of `from_slice` after the metadata is cut out.
  unfoldable pub from_parts : List ℕ → List ℕ → ℕ → Outcome (InterProcessMessage M D)
  from_parts metadata_bytes data_buf data_size = elim (wire.deserialize metadata_bytes) [
    | none ↦ bincode_error
    | some metadata ↦
        if ltb (length data_buf) data_size
        then bincode_error
        else value (serialized metadata (take data_size data_buf))
  ]

  -- A slice beyond the buffer's end panics, before its length is compared.
  unfoldable pub from_slice : List ℕ → Outcome (InterProcessMessage M D)
  from_slice buf =
      if leb 8 (length buf)
      then (let metadata_size = read_u32 (take 4 buf) in
          let data_size = read_u32 (take 4 (drop 4 buf)) in
          let metadata_buf = take metadata_size (drop 8 buf) in
          if leb (8 + metadata_size) (length buf)
          then (if ltb (length metadata_buf) metadata_size
              then bincode_error
              else from_parts metadata_buf (drop metadata_size (drop 8 buf)) data_size)
          else panic)
      else bincode_error

  -- A buffer of zenoh is a list of slices.
  abbrev pub from_rbuf : List (List ℕ) → Outcome (InterProcessMessage M D)
  from_rbuf (s ∷ []) = from_slice s
  from_rbuf slices = from_slice (concat slices)

  -- `into_shm` is zenoh's, which gives the bytes of the buffer or fails.
  abbrev pub from_sbuf :
      (List (List ℕ) → Option (List ℕ)) → List (List ℕ) → Outcome (InterProcessMessage M D)
  from_sbuf into_shm buf = elim (into_shm buf) [
    | none ↦ shared_memory_error
    | some sbuf ↦ from_slice sbuf
  ]
