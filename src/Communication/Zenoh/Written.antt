-- ===== src/Communication/Zenoh/Written.antt =====
-- What the senders of src/communication/zenoh_senders.rs have written.
use erdos.Prelude.{
  ℕ, ◌≡◌, refl, sym, ap, ◌∙◌, ◌⊎◌, ◌≢◌, inl, inr, List, [], ◌∷◌, ◌++◌, append_assoc, append-nil,
  Option-cases,
}
use mathlib.Core.Path.{subst}
use erdos.Communication.{CommunicationError, disconnected, ok, err}
use erdos.Communication.Receivers.{End, failed}
use erdos.Communication.Slices
use erdos.Communication.Slices.{
  Outcome, value, concat, sizes, contents, into_rbuf, from_slice, from_rbuf,
}
use erdos.Communication.Zenoh.{Session, Resource, from_codec}
use erdos.Communication.Zenoh.Senders.{declare, send_over}

-- What `into` makes of each message.
abbrev pub Encodes : {M : Type 0} → (M → Outcome (List ℕ)) → List M → List (List ℕ) → Type 0
Encodes into [] [] = Unit
Encodes into [] (b ∷ bufs) = ⊥
Encodes into (m ∷ msgs) [] = ⊥
Encodes into (m ∷ msgs) (b ∷ bufs) = (into m ≡ value b) × Encodes into msgs bufs

Outcome-cases :
    {A : Type 0} (o : Outcome A)
    → ((a : A) × (o ≡ value a))
      ⊎ ((end : End) × (from_codec o ≡ err end) × (end ≢ failed disconnected))
unfolding from_codec
Outcome-cases (Slices.value a) = inl (a, refl)
Outcome-cases Slices.bincode_error = inr (_, refl, λ h. cc)
Outcome-cases Slices.shared_memory_error = inr (_, refl, λ h. cc)
Outcome-cases Slices.panic = inr (_, refl, λ h. cc)

module _ (session : Session) (resource : Resource) where
  -- A declaration fails with an error of zenoh, or gives the resource's key and writes nothing.
  declare_lem :
      (net : Session.Net session)
      → ((key : Session.Key session) × ((declare session resource net).1 ≡ ok key)
          × (session.name key ≡ resource)
          × (session.written (declare session resource net).0 resource
              ≡ session.written net resource))
        ⊎ ((e : CommunicationError) × ((declare session resource net).1 ≡ err e)
            × (e ≢ disconnected))
  unfolding declare
  declare_lem net = elim (Option-cases (session.declare_resource net resource)) [
    | inl e ↦ rw (e, declare) (inr (_, refl, λ h. cc))
    | inr ((net1, key), e) ↦ elim (Option-cases (session.declare_publisher net1 key)) [
      | inl f ↦ rw (e, f, declare) (inr (_, refl, λ h. cc))
      | inr (net2, f) ↦
          rw (e, f, declare)
            (inl (
              key,
              refl,
              session.name-declare_resource net net1 resource key e,
              session.written-declare_publisher net1 net2 key resource f
                  ∙ session.written-declare_resource net net1 resource resource key e,
            ))
    ]
  ]

  module _ {M : Type 0} (into : M → Outcome (List ℕ)) where
    -- A sender that ends because its channel is closed has written every message.
    pub send_over-written :
        (msgs : List M) (net net' : Session.Net session)
        → send_over session into resource msgs net ≡ (net', failed disconnected)
        → (bufs : List (List ℕ)) × Encodes into msgs bufs
          × (session.written net' resource ≡ session.written net resource ++ bufs)
    unfolding send_over from_codec
    send_over-written [] net net' h =
        let same : net ≡ net' = ap (λ p. p.0) h in
        (
          [],
          tt,
          ap (λ n. session.written n resource) (sym same)
              ∙ sym (append-nil (session.written net resource)),
        )
    send_over-written (m ∷ msgs) net net' h = elim (declare_lem net) [
      | inr (e, d, other) ↦ absurd (other (cc (rw (d, send_over) at h)))
      | inl (key, d, named, kept) ↦ elim (Outcome-cases (into m)) [
        | inr (end, o, other) ↦ absurd (other (cc (rw (d, o, send_over) at h)))
        | inl (buf, o) ↦
            let net1 = (declare session resource net).0 in
            elim (Option-cases (session.write_ext net1 key buf)) [
              | inl w ↦ absurd (cc (rw (d, o, w, send_over) at h))
              | inr (net2, w) ↦
                  let (bufs, enc, wrote) =
                    send_over-written msgs net2 net' (rw (d, o, w, send_over) at h) in
                  let here : session.written net2 resource
                      ≡ session.written net resource ++ buf ∷ [] =
                    subst (λ r. session.written net2 r ≡ session.written net1 r ++ buf ∷ []) named
                      (session.written-write_ext net1 net2 key buf w)
                    ∙ ap (λ l. l ++ buf ∷ []) kept in
                  (
                    buf ∷ bufs,
                    (o, enc),
                    wrote
                        ∙ ap (λ l. l ++ bufs) here
                        ∙ append_assoc (session.written net resource) (buf ∷ []) bufs,
                  )
            ]
      ]
    ]
