-- ===== src/Communication/Receivers/Delivery.antt =====
-- What the receivers of src/communication/receivers.rs deliver to the operators of the node.
use erdos.Prelude.{
  ℕ, ◌≡◌, refl, sym, ap, ◌∙◌, ◌⊎◌, inl, inr, List, [], ◌∷◌, ◌++◌, append_assoc, append-nil, some,
  map, length, ◌==◌, if◌then◌else◌, ==_iff, Bool-cases, Option-cases, arith,
}
use mathlib.Core.Path.{ap₂}
use erdos.Prelude.HashMap.{get, insert, get-insert}
use erdos.Message.{Message}
use erdos.Communication.{CommunicationError, Result, ok, err, Mpsc}
use erdos.Communication.Codec.{InterProcessMessage, serialized, deserialized}
use erdos.Communication.Endpoint.{SendEndpoint, Outgoing, push, log, delivered, push-delivered}
use erdos.Communication.Receivers.{
  closed, Pushers, Arrivals, send_from_bytes, update_pushers, receive,
}

module _ {D : Type 0} where
  abbrev pub extend : List (Message D) → List (List (Message D)) → List (List (Message D))
  extend ms ls = map (λ l. l ++ ms) ls

  pub extend-nil : (ls : List (List (Message D))) → extend [] ls ≡ ls
  extend-nil [] = refl
  extend-nil (l ∷ ls) = ap₂ ◌∷◌ (append-nil l) (extend-nil ls)

  pub extend-append :
      (a b : List (Message D)) (ls : List (List (Message D)))
      → extend b (extend a ls) ≡ extend (a ++ b) ls
  extend-append a b [] = refl
  extend-append a b (l ∷ ls) = ap₂ ◌∷◌ (append_assoc l a b) (extend-append a b ls)

  delivered-all :
      (m : Message D) (ls : List (List (Message D)))
      → delivered (length ls) m ls ≡ extend (m ∷ []) ls
  delivered-all m [] = refl
  delivered-all m (l ∷ ls) = ap (λ r. (l ++ m ∷ []) ∷ r) (delivered-all m ls)

pub Result-cases :
    {A E : Type 0} (r : Result A E) → ((a : A) × (r ≡ ok a)) ⊎ ((e : E) × (r ≡ err e))
Result-cases (ok a) = inl (a, refl)
Result-cases (err e) = inr (e, refl)

length-map : {A B : Type 0} (f : A → B) (xs : List A) → length (map f xs) ≡ length xs
length-map f [] = refl
length-map f (x ∷ xs) = let r = length-map f xs in omega (arith, r)

module _ {D : Type 0} (decode : List ℕ → Result (Message D) CommunicationError) where
  abbrev pub decoded : List ℕ → List (Message D)
  decoded bytes = elim (decode bytes) [ ok m ↦ m ∷ [] | err e ↦ [] ]

  -- The messages of a stream among those that arrive.
  abbrev pub received_on : ℕ → List (InterProcessMessage ℕ D) → List (Message D)
  received_on id [] = []
  received_on id (deserialized j d ∷ stream) = received_on id stream
  received_on id (serialized j bytes ∷ stream) =
      (if j == id then decoded bytes else []) ++ received_on id stream

module _ {D : Type 0} {local : Mpsc (Message D)} {remote : Mpsc (Outgoing D)} where
  -- Messages that come when no pusher is new.
  abbrev pub arriving : List (InterProcessMessage ℕ D) → Arrivals local remote
  arriving [] = []
  arriving (m ∷ msgs) = ([], ok m) ∷ arriving msgs

module _ {D : Type 0} {local : Mpsc (Message D)} {remote : Mpsc (Outgoing D)}
    (decode : List ℕ → Result (Message D) CommunicationError) where
  push-logs :
      (es : List (SendEndpoint local remote)) (m : Message D)
      → (push es m).1 ≡ ok tt
      → map log (push es m).0 ≡ extend (m ∷ []) (map log es)
  push-logs es m h =
      let (n, bound, logs, end) = push-delivered es m in
      elim end [
        | inr (bad, _) ↦ absurd (cc)
        | inl (_, all) ↦
            logs
            ∙ ap (λ k. delivered k m (map log es)) (all ∙ sym (length-map log es))
            ∙ delivered-all m (map log es)
      ]

  pub send_from_bytes-logs :
      (es : List (SendEndpoint local remote)) (bytes : List ℕ)
      → (send_from_bytes decode es bytes).1 ≡ ok tt
      → map log (send_from_bytes decode es bytes).0 ≡ extend (decoded decode bytes) (map log es)
  unfolding send_from_bytes
  send_from_bytes-logs [] bytes h = refl
  send_from_bytes-logs (e ∷ es) bytes h = elim (Result-cases (decode bytes)) [
    | inr (x, d) ↦ absurd (cc (rw (d, send_from_bytes) at h))
    | inl (m, d) ↦
        let is : decoded decode bytes ≡ m ∷ [] = rw (decoded, d) refl in
        let pushed = push-logs (e ∷ es) m (rw (d, send_from_bytes) at h) in
        rw (send_from_bytes, d) (pushed ∙ ap (λ a. extend a (map log (e ∷ es))) (sym is))
  ]

  -- If all pushers are there and a receiver runs until the connection is closed, it delivers to
  -- every endpoint of a stream the stream's messages, all of them and in the order of their
  -- arrival, and no message of another stream.
  pub receive-delivers :
      (msgs : List (InterProcessMessage ℕ D)) (pushers pushers' : Pushers local remote) (id : ℕ)
      (es : List (SendEndpoint local remote))
      → receive decode (arriving msgs) pushers ≡ (pushers', closed)
      → get id pushers ≡ some es
      → (es' : List (SendEndpoint local remote)) × (get id pushers' ≡ some es')
        × (map log es' ≡ extend (received_on decode id msgs) (map log es))
  unfolding receive update_pushers
  receive-delivers [] ps ps' id es h g =
      let same : ps ≡ ps' = ap (λ p. p.0) h in
      (es, ap (get id) (sym same) ∙ g, sym (extend-nil (map log es)))
  receive-delivers (deserialized j d ∷ msgs) ps ps' id es h g = absurd (cc)
  receive-delivers (serialized j bytes ∷ msgs) ps ps' id es h g = elim (Option-cases (get j ps)) [
    | inl k ↦ absurd (cc (rw (k, receive) at h))
    | inr (pusher, k) ↦ elim (Result-cases (send_from_bytes decode pusher bytes).1) [
      | inr (x, bad) ↦ absurd (cc (rw (k, bad, receive) at h))
      | inl (u, good) ↦
          let pusher' = (send_from_bytes decode pusher bytes).0 in
          let h' = rw (k, good, receive) at h in
          let now = get-insert j id pusher' ps in
          let rest = received_on decode id msgs in
          elim (Bool-cases (j == id)) [
            | inl same ↦
                let (es', f, l) =
                  receive-delivers msgs (insert j pusher' ps) ps' id pusher' h'
                    (now ∙ rw same refl) in
                let is : pusher ≡ es = cc (g, k, (==_iff j id).0 same) in
                (
                  es',
                  f,
                  rw same (
                      l
                      ∙ ap (extend rest) (send_from_bytes-logs pusher bytes good)
                      ∙ extend-append (decoded decode bytes) rest (map log pusher)
                      ∙ ap (λ p. extend (decoded decode bytes ++ rest) (map log p)) is),
                )
            | inr other ↦
                let (es', f, l) =
                  receive-delivers msgs (insert j pusher' ps) ps' id es h' (now ∙ rw other g) in
                (es', f, rw other l)
          ]
    ]
  ]
