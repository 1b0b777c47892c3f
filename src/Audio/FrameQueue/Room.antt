-- ===== src/Audio/FrameQueue/Room.antt =====
-- The counters of the frame queue, until one of them would wrap.
use bork.Base.{ℕ, zero, suc, ◌+◌, ◌^◌, ◌≡◌, ◌≤◌, ◌<◌, refl, List, [], ◌∷◌, length, some, arith}
use native.Mathlib.Nat.{mod-lt}
use bork.Audio.FrameQueue.{
  FrameQueue, acquire_write, set_at, write_slot, commit_write, acquire_read, release_read,
}

module _ {F : Type 0} where
  -- The consumer is not ahead of the producer, nor behind it by more than the slots.
  pub record IsBounded (q : FrameQueue F) : Type 0 where
    pub ordered : q.read ≤ q.write
    pub room : q.write ≤ q.read + length q.frames
    pub fits : q.write < 2 ^ 64

  pub length-set_at : (n : ℕ) (x : F) (xs : List F) → length (set_at n x xs) ≡ length xs
  unfolding set_at
  length-set_at n x [] = refl
  length-set_at zero x (y ∷ ys) = refl
  length-set_at (suc n) x (y ∷ ys) = omega (arith, length-set_at n x ys)

  -- While the producer's counter is not at its last value, a frame that is written to the slot acquired
  -- and committed keeps the counters apart by no more than the slots, and the slot is one of them.
  pub commit_write-IsBounded :
      (q : FrameQueue F) (slot : ℕ) (frame : F)
      → acquire_write q ≡ some slot
      → q.write + 1 < 2 ^ 64
      → IsBounded q
      → IsBounded (commit_write (write_slot q slot frame)) × (slot < length q.frames)
  unfolding acquire_write commit_write write_slot
  commit_write-IsBounded q slot frame e h v =
      let size = length-set_at slot frame q.frames in
      let apart : q.write + 1 ≤ q.read + length q.frames =
        ground (arith, v.ordered, v.room, v.fits, e) in
      let some_slots : 0 < length q.frames = omega (arith, apart, v.ordered) in
      let below = mod-lt q.write some_slots in
      (
        record {
          ordered = ground (arith, v.ordered, h);
          room = ground (arith, size, apart, h);
          fits = ground (arith, h);
        },
        ground (arith, e, below),
      )

  -- A frame that the consumer has acquired and releases keeps the counters in the same bounds, and its
  -- slot is one of the slots.
  pub release_read-IsBounded :
      (q : FrameQueue F) (slot : ℕ)
      → acquire_read q ≡ some slot
      → IsBounded q
      → IsBounded (release_read q) × (slot < length q.frames)
  unfolding acquire_read release_read
  release_read-IsBounded q slot e v =
      let behind : q.read < q.write = ground (arith, e, v.ordered) in
      let some_slots : 0 < length q.frames = omega (arith, behind, v.room) in
      let below = mod-lt q.read some_slots in
      (
        record {
          ordered = ground (arith, behind, v.fits);
          room = ground (arith, behind, v.room, v.fits);
          fits = v.fits;
        },
        ground (arith, e, below),
      )
