-- ===== src/Audio/Tests.antt =====
-- The theorem on the frame queue at a queue of two slots.
use bork.Base.{ℕ, ◌≡◌, List, none, some, [], ◌∷◌, arith}
use bork.Audio.FrameQueue.Contents.{
  FrameOp, put, get, answers, answers_list, perform_list, answers-answers_list,
}
use bork.Audio.FrameQueue.{new_frame_queue}

-- Two slots: the third frame is refused, and the first comes out first.
abbrev frame_ops : List (FrameOp ℕ)
frame_ops = put 10 ∷ put 20 ∷ put 30 ∷ get ∷ put 40 ∷ get ∷ get ∷ get ∷ []

answers-answers_list_example :
    answers (new_frame_queue 2 0) frame_ops
    ≡ some 10 ∷ some 20 ∷ none ∷ some 10 ∷ some 40 ∷ some 20 ∷ some 40 ∷ none ∷ []
unfolding answers_list perform_list
answers-answers_list_example = answers-answers_list 2 0 frame_ops (omega arith)
