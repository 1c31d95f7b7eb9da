-- ===== src/Communication/Zenoh/SharedMemory/Retries.antt =====
-- The waits for memory of src/communication/zenoh_shm_senders.rs.
use erdos.Prelude.{
  ℕ, zero, suc, ◌+◌, ◌<◌, ◌≤◌, ◌≡◌, ◌≢◌, ◌↔◌, refl, ap, ◌∙◌, inl, inr, true, List, ◌++◌,
  append_assoc, Option, none, some, leb, ◌==◌, drop, length, length-append, arith, Option-cases,
}
use erdos.Communication.Codec.{Wire, serialized, deserialized, write_u32}
use erdos.Communication.Slices
use erdos.Communication.Slices.{Outcome, value, panic, sizes, contents, into_sbuf, from_slice}
use erdos.Communication.Slices.Parse.{from_slice-bytes}
use erdos.Communication.Zenoh.SharedMemory.{SharedMemory, try_into_sbuf, write_shared}

module _ (shm : SharedMemory) where
  -- The memory at the attempt `i`, if all attempts before it failed.
  abbrev pub attempt : ℕ → ℕ → SharedMemory.Memory shm → SharedMemory.Memory shm
  attempt size zero mem = mem
  attempt size (suc i) mem = attempt size i (shm.garbage_collect (shm.alloc mem size).0)

  module _ {E : Type 0} (wire : Wire ℕ E) (m : ℕ) (d : E) (ms ds : List ℕ)
      (hm : wire.serialize m ≡ some ms) (hd : wire.encode_data d ≡ some ds) where
    abbrev total : ℕ
    total = 8 + length ms + length ds

    sizes_lem : sizes wire (deserialized m d) ≡ some (length ms, length ds)
    unfolding sizes
    sizes_lem = ground (arith, wire.size-serialize m ms hm, wire.size-encode_data d ds hd)

    contents_lem : contents wire (deserialized m d) ≡ some (ms ++ ds)
    unfolding contents
    contents_lem = ground (arith, hm, hd)

    -- The buffer, and what it held before after its end.
    abbrev written_to : List ℕ → List ℕ
    written_to sbuf =
        write_u32 (length ms) ++ (write_u32 (length ds) ++ (ms ++ (ds ++ drop total sbuf)))

    module _ (alloc : ℕ → Option (List ℕ)) where
      into_sbuf-refused :
          alloc total ≡ none → into_sbuf wire alloc (deserialized m d) ≡ Slices.shared_memory_error
      unfolding into_sbuf
      into_sbuf-refused h = rw (into_sbuf, sizes_lem, h) refl

      into_sbuf-granted :
          (sbuf : List ℕ)
          → alloc total ≡ some sbuf
          → total ≤ length sbuf
          → into_sbuf wire alloc (deserialized m d) ≡ value (written_to sbuf)
      unfolding into_sbuf write_u32
      into_sbuf-granted sbuf h long =
          let l = length-append ms ds in
          let fits : leb total (length sbuf) ≡ true = ground (arith, long) in
          let all : (length (write_u32 (length ms) ++ (write_u32 (length ds) ++ (ms ++ ds)))
                == total)
              ≡ true =
            ground (arith, l) in
          rw (into_sbuf, sizes_lem, h, contents_lem, fits, all)
            (ap (λ (b : List ℕ). value (write_u32 (length ms) ++ (write_u32 (length ds) ++ b)))
              (append_assoc ms ds (drop total sbuf)))

    tried :
        (mem : SharedMemory.Memory shm)
        → try_into_sbuf shm wire mem (deserialized m d)
          ≡ ((shm.alloc mem total).0, into_sbuf wire (λ n. (shm.alloc mem n).1) (deserialized m d))
    unfolding try_into_sbuf
    tried mem = rw (try_into_sbuf, sizes_lem) refl

    refused :
        (fuel : ℕ) (mem : SharedMemory.Memory shm)
        → (shm.alloc mem total).1 ≡ none
        → write_shared shm wire (suc fuel) mem (deserialized m d)
          ≡ write_shared shm wire fuel
              (shm.garbage_collect (shm.alloc mem total).0)
              (deserialized m d)
    unfolding write_shared
    refused fuel mem h =
        rw (write_shared, tried mem, into_sbuf-refused (λ n. (shm.alloc mem n).1) h)
          (ap (λ p. write_shared shm wire fuel (shm.garbage_collect p.0) (deserialized m d))
            (tried mem))

    granted :
        (fuel : ℕ) (mem : SharedMemory.Memory shm) (sbuf : List ℕ)
        → (shm.alloc mem total).1 ≡ some sbuf
        → write_shared shm wire (suc fuel) mem (deserialized m d)
          ≡ some ((shm.alloc mem total).0, value (written_to sbuf))
    unfolding write_shared
    granted fuel mem sbuf h =
        rw
          (
            write_shared,
            tried mem,
            into_sbuf-granted (λ n. (shm.alloc mem n).1) sbuf h (shm.length-alloc mem total sbuf h),
          )
          (ap (λ p. some (p.0, value (written_to sbuf))) (tried mem))

    -- The loop, as often as `fuel` says, ends in a buffer that is read back as the message.
    abbrev Ends : ℕ → SharedMemory.Memory shm → Type 0
    Ends fuel mem =
        (mem' : SharedMemory.Memory shm) × (buf : List ℕ) × (write_shared shm wire fuel mem
            (deserialized m d)
          ≡ some (mem', value buf))
        × (from_slice wire buf ≡ value (serialized m ds))

    module _ (bm : length ms < 4294967296) (bd : length ds < 4294967296) where
      at_once :
          (fuel : ℕ) (mem : SharedMemory.Memory shm) (sbuf : List ℕ)
          → (shm.alloc mem total).1 ≡ some sbuf
          → Ends (suc fuel) mem
      at_once fuel mem sbuf e = (
        (shm.alloc mem total).0,
        written_to sbuf,
        granted fuel mem sbuf e,
        from_slice-bytes wire m d ms ds hm hd (drop total sbuf) bm bd,
      )

      starved :
          (fuel : ℕ) (mem : SharedMemory.Memory shm)
          → ((n : ℕ) → (shm.alloc (attempt total n mem) total).1 ≡ none)
          → write_shared shm wire fuel mem (deserialized m d) ≡ none
      unfolding write_shared
      starved zero mem full = refl
      starved (suc fuel) mem full =
          refused fuel mem (full 0)
          ∙ starved fuel (shm.garbage_collect (shm.alloc mem total).0) (λ n. full (suc n))

      ends :
          (n : ℕ) (mem : SharedMemory.Memory shm)
          → (shm.alloc (attempt total n mem) total).1 ≢ none
          → Ends (suc n) mem
      ends zero mem h = elim (Option-cases (shm.alloc mem total).1) [
        | inr (sbuf, e) ↦ at_once 0 mem sbuf e
        | inl e ↦ absurd (h e)
      ]
      ends (suc n) mem h = elim (Option-cases (shm.alloc mem total).1) [
        | inr (sbuf, e) ↦ at_once (suc n) mem sbuf e
        | inl e ↦
            let (mem', buf, ran, reads) = ends n (shm.garbage_collect (shm.alloc mem total).0) h in
            (mem', buf, refused (suc n) mem e ∙ ran, reads)
      ]

    -- A sender that waits for memory goes on once there is some: if metadata and payload serialize
    -- to less than 2 ^ 32 bytes each, and the allocation succeeds after `n` garbage collections,
    -- then the loop ends within `n + 1` rounds, in a buffer that is read back as the message.
    pub write_shared-ends :
        length ms < 4294967296
        → length ds < 4294967296
        → (n : ℕ) (mem : SharedMemory.Memory shm)
        → (shm.alloc (attempt (8 + length ms + length ds) n mem) (8 + length ms + length ds)).1
          ≢ none
        → (mem' : SharedMemory.Memory shm) × (buf : List ℕ) × (write_shared shm wire
              (suc n)
              mem
              (deserialized m d)
            ≡ some (mem', value buf))
          × (from_slice wire buf ≡ value (serialized m ds))
    write_shared-ends bm bd n mem h = ends bm bd n mem h

    -- For a message whose metadata and payload serialize to less than 2 ^ 32 bytes each, the loop
    -- runs forever if and only if no allocation succeeds, after however many garbage collections.
    -- Nothing else ends it, so a message that is too large for the memory blocks its sender.
    pub write_shared-waits :
        length ms < 4294967296
        → length ds < 4294967296
        → (mem : SharedMemory.Memory shm)
        → ((fuel : ℕ) → write_shared shm wire fuel mem (deserialized m d) ≡ none) ↔ (
            (n : ℕ)
            → (shm.alloc (attempt (8 + length ms + length ds) n mem) (8 + length ms + length ds)).1
              ≡ none)
    write_shared-waits bm bd mem = (
      λ waits n. elim (Option-cases (shm.alloc (attempt total n mem) total).1) [
        | inl e ↦ e
        | inr (sbuf, e) ↦
            let (mem', buf, ran, reads) = ends bm bd n mem (λ f. absurd (cc (e, f))) in
            absurd (cc (ran, waits (suc n)))
      ],
      λ full fuel. starved bm bd fuel mem full,
    )
