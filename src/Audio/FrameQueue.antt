-- ===== src/Audio/FrameQueue.antt =====
-- internal/audio/frame_queue.go: the queue of one producer and one consumer. The counters are atomic
-- and each is written by one side only, so each method is one step. A frame is left abstract;
-- `write_slot` is the producer's write through the pointer that `AcquireWrite` gave.
pub mod Room
pub mod Contents
use bork.Base.{
  ℕ, zero, suc, ◌+◌, ◌-◌, ◌%◌, Bool, true, false, if◌then◌else◌, ◌==◌, leb, List, [], ◌∷◌, length,
  Option, none, some, get_elem?,
}
use bork.Peer.Transport.{sub64}
use bork.Peer.Window.{u64_mod}

pub record FrameQueue (F : Type 0) : Type 0 where
  pub frames : List F
  pub read : ℕ
  pub write : ℕ

module _ {F : Type 0} where
  unfoldable pub fill : ℕ → F → List F
  fill zero frame = []
  fill (suc n) frame = frame ∷ fill n frame

  -- `make` fills the slots with the zero frame.
  unfoldable pub new_frame_queue : ℕ → F → FrameQueue F
  new_frame_queue capacity zero_frame = record {
    frames = fill capacity zero_frame;
    read = 0;
    write = 0;
  }

  -- The slot that the producer may write to.
  unfoldable pub acquire_write : FrameQueue F → Option ℕ
  acquire_write q =
      if leb (length q.frames) (sub64 q.write q.read)
      then none
      else some (q.write % length q.frames)

  unfoldable pub set_at : ℕ → F → List F → List F
  set_at n frame [] = []
  set_at zero frame (x ∷ xs) = frame ∷ xs
  set_at (suc n) frame (x ∷ xs) = x ∷ set_at n frame xs

  unfoldable pub write_slot : FrameQueue F → ℕ → F → FrameQueue F
  write_slot q slot frame = record q { frames = set_at slot frame q.frames }

  unfoldable pub commit_write : FrameQueue F → FrameQueue F
  commit_write q = record q { write = (q.write + 1) % u64_mod }

  -- The slot that the consumer may read from.
  unfoldable pub acquire_read : FrameQueue F → Option ℕ
  acquire_read q = if q.read == q.write then none else some (q.read % length q.frames)

  unfoldable pub release_read : FrameQueue F → FrameQueue F
  release_read q = record q { read = (q.read + 1) % u64_mod }
