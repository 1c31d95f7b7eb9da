-- ===== src/Communication/Zenoh/Carried.antt =====
-- What src/communication/mod.rs reads of the buffers that it wrote, after their way over zenoh.
use erdos.Prelude.{
  ℕ, ◌<◌, ◌≡◌, refl, sym, ap, ◌∙◌, All, inl, inr, List, [], ◌∷◌, append-nil, some, map, length,
  Option-cases, arith,
}
use erdos.Message.{Message}
use erdos.Communication.{CommunicationError, Result, ok}
use erdos.Communication.Codec.{Wire, InterProcessMessage, serialized, deserialized}
use erdos.Communication.Endpoint.{Outgoing}
use erdos.Communication.Slices.{value, concat, sizes, contents, into_rbuf, from_slice, from_rbuf}
use erdos.Communication.Slices.Parse.{from_slice-into_rbuf}
use erdos.Communication.Zenoh.Written.{Encodes}

concat-one :
    {M D : Type 0} (wire : Wire M D) (payload : List (List ℕ))
    → from_rbuf wire payload ≡ from_slice wire (concat payload)
concat-one wire [] = refl
concat-one wire (s ∷ []) = ap (from_slice wire) (sym (append-nil s))
concat-one wire (s ∷ t ∷ slices) = refl

-- `SendEndpoint::send` puts this on the channel to the sender.
abbrev pub to_message : {D : Type 0} → Outgoing D → InterProcessMessage ℕ (Message D)
to_message o = deserialized o.stream_id o.content

module _ {D : Type 0} (wire : Wire ℕ (Message D)) where
  -- Metadata and payload have sizes of 32 bits.
  abbrev pub IsSmall : Outgoing D → Type 0
  IsSmall o =
      (ms ds : List ℕ)
      → wire.serialize o.stream_id ≡ some ms
      → wire.encode_data o.content ≡ some ds
      → (length ms < 4294967296) × (length ds < 4294967296)

  into_rbuf-parts :
      (m : ℕ) (d : Message D) (buf : List ℕ)
      → into_rbuf wire (deserialized m d) ≡ value buf
      → (ms ds : List ℕ) × (wire.serialize m ≡ some ms) × (wire.encode_data d ≡ some ds)
  unfolding into_rbuf sizes contents
  into_rbuf-parts m d buf h = elim (Option-cases (wire.serialize m)) [
    | inl e ↦ absurd (ground (arith, h, e))
    | inr (ms, e) ↦ elim (Option-cases (wire.encode_data d)) [
      | inl f ↦ absurd (ground (arith, h, e, f))
      | inr (ds, f) ↦ (ms, ds, e, f)
    ]
  ]

module _ {D : Type 0} (wire : Wire ℕ (Message D))
    (decode : List ℕ → Result (Message D) CommunicationError) where
  -- Each payload is read as the bytes of its message.
  abbrev pub Carries : List (Outgoing D) → List (List (List ℕ)) → Type 0
  Carries [] [] = Unit
  Carries [] (p ∷ payloads) = ⊥
  Carries (o ∷ outgoing) [] = ⊥
  Carries (o ∷ outgoing) (p ∷ payloads) =
      ((ds : List ℕ) × (from_rbuf wire p ≡ value (serialized o.stream_id ds))
        × (decode ds ≡ ok o.content))
      × Carries outgoing payloads

  module _
      (decode-encode_data : (m : Message D) (ds : List ℕ)
        → wire.encode_data m ≡ some ds
        → decode ds ≡ ok m) where
    pub carries :
        (outgoing : List (Outgoing D)) (payloads : List (List (List ℕ)))
        → All (IsSmall wire) outgoing
        → Encodes (into_rbuf wire) (map to_message outgoing) (map concat payloads)
        → Carries outgoing payloads
    carries [] [] small h = tt
    carries [] (p ∷ payloads) small h = h
    carries (o ∷ outgoing) [] small h = h
    carries (o ∷ outgoing) (p ∷ payloads) small h =
        let (ms, ds, e, f) = into_rbuf-parts wire o.stream_id o.content (concat p) h.0 in
        let (bm, bd) = small.0 ms ds e f in
        let (buf, into, from, again) =
          from_slice-into_rbuf wire o.stream_id o.content ms ds e f bm bd in
        let same : buf ≡ concat p = cc (into, h.0) in
        (
          (
            ds,
            concat-one wire p ∙ ap (from_slice wire) (sym same) ∙ from,
            decode-encode_data o.content ds f,
          ),
          carries outgoing payloads small.1 h.1,
        )
