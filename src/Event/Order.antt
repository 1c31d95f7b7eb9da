-- ===== src/Event/Order.antt =====
-- `OperatorEvent::cmp`: which of two events runs first.
use erdos.Prelude.{◌≡◌, true, false, some, Ordering, ◌↔◌, ◌≢◌, arith, ◌⊎◌}
use erdos.Message
use erdos.Message.{lt, le}
use erdos.Message.Order.{cmp-reverse, le-lt_trans}
use erdos.Event.{
  OperatorEvent, resolve_access_conflicts, cmp_watermarks, cmp_watermark_message, event_cmp,
}
use erdos.Event.Conflicts.{resolve_access_conflicts-swap, swapped}

module _ {C : Type 0} (x y : OperatorEvent C) where
  -- A message callback precedes a watermark callback exactly when its timestamp is not above the
  -- watermark's; otherwise the two may run in any order. The watermark's view is the reverse.
  pub message_before_watermark :
      x.is_watermark_callback ≡ false
      → y.is_watermark_callback ≡ true
      → ((event_cmp x y ≡ some Ordering.lt) ↔ (le x.timestamp y.timestamp ≡ true))
        × ((event_cmp x y ≡ some Ordering.eq) ↔ (lt y.timestamp x.timestamp ≡ true))
        × (event_cmp y x ≡ swapped (event_cmp x y))
  unfolding event_cmp cmp_watermark_message
  message_before_watermark mx wy = (
    (
      λ h. ground (arith, cmp-reverse x.timestamp y.timestamp),
      λ h. ground (arith, cmp-reverse x.timestamp y.timestamp),
    ),
    (
      λ h. ground (arith, cmp-reverse x.timestamp y.timestamp),
      λ h. ground (arith, cmp-reverse x.timestamp y.timestamp),
    ),
    ground arith,
  )

  -- Watermark callbacks run in the order of their timestamps, and are never left unordered.
  pub watermarks_ordered :
      x.is_watermark_callback ≡ true
      → y.is_watermark_callback ≡ true
      → (event_cmp x y ≢ some Ordering.eq)
        × (lt x.timestamp y.timestamp ≡ true
            → (event_cmp x y ≡ some Ordering.lt) × (event_cmp y x ≡ some Ordering.gt))
  unfolding event_cmp cmp_watermarks
  watermarks_ordered wx wy =
      (λ h. ground arith, λ h. (ground arith, ground (arith, cmp-reverse x.timestamp y.timestamp)))

  -- Two watermark callbacks with one timestamp and no difference in access or priority: each is
  -- said to follow the other, so neither order of insertion lets them run together.
  pub watermark_tie :
      x.is_watermark_callback ≡ true
      → y.is_watermark_callback ≡ true
      → Message.cmp x.timestamp y.timestamp ≡ Ordering.eq
      → resolve_access_conflicts x y ≡ some Ordering.eq
      → (event_cmp x y ≡ some Ordering.gt) × (event_cmp y x ≡ some Ordering.gt)
  unfolding event_cmp cmp_watermarks
  watermark_tie wx wy t r = (
    ground arith,
    ground (arith, cmp-reverse x.timestamp y.timestamp, resolve_access_conflicts-swap x y),
  )

  -- Swapping the arguments reverses the answer, a panic included, except between two watermark
  -- callbacks with one timestamp and no difference in access or priority.
  pub event_cmp-swap :
      ((event_cmp y x ≡ swapped (event_cmp x y)))
      ⊎ ((x.is_watermark_callback ≡ true)
          × (y.is_watermark_callback ≡ true)
          × (Message.cmp x.timestamp y.timestamp ≡ Ordering.eq)
          × (resolve_access_conflicts x y ≡ some Ordering.eq))
  unfolding event_cmp cmp_watermarks
  event_cmp-swap =
      ground (arith, cmp-reverse x.timestamp y.timestamp, resolve_access_conflicts-swap x y)

module _ {C : Type 0} (m w v : OperatorEvent C) where
  -- What precedes a watermark callback precedes every watermark callback of a later time.
  pub event_cmp_trans :
      w.is_watermark_callback ≡ true
      → v.is_watermark_callback ≡ true
      → event_cmp m w ≡ some Ordering.lt
      → lt w.timestamp v.timestamp ≡ true
      → event_cmp m v ≡ some Ordering.lt
  unfolding event_cmp cmp_watermark_message cmp_watermarks
  event_cmp_trans wm wv h k = ground (
    arith,
    le-lt_trans m.timestamp w.timestamp v.timestamp,
    cmp-reverse m.timestamp w.timestamp,
    cmp-reverse m.timestamp v.timestamp,
  )
