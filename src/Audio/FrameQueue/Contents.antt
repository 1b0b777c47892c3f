-- ===== src/Audio/FrameQueue/Contents.antt =====
-- The frame queue as a list of at most so many frames.
use bork.Base.{
  ℕ, zero, suc, ◌+◌, ◌*◌, ◌/◌, ◌%◌, ◌^◌, ◌≡◌, ◌≢◌, ◌≤◌, ◌<◌, refl, sym, ap, ◌∙◌, inl, inr, true,
  false, if◌then◌else◌, leb, ltb, List, [], ◌∷◌, ◌++◌, length, length-append, get_elem?, Option,
  none, some, Bool-cases, Option-cases, arith,
}
use native.Mathlib.Nat.{div-add-mod, mul-le-mul_left, mul-add}
use bork.Audio.FrameQueue.{
  FrameQueue, fill, new_frame_queue, acquire_write, set_at, write_slot, commit_write, acquire_read,
  release_read,
}
use bork.Audio.FrameQueue.Room.{
  IsBounded, length-set_at, commit_write-IsBounded, release_read-IsBounded,
}

-- Counters less than the size apart are in different slots.
mod_apart : (n a b : ℕ) → a < b → b < a + n → a % n ≢ b % n
mod_apart n a b h k e =
    let at_a = div-add-mod a n in
    let at_b = div-add-mod b n in
    elim (Bool-cases (ltb (a / n) (b / n))) [
      | inl up ↦
          let step : n * (a / n + 1) ≤ n * (b / n) = mul-le-mul_left n (ground (arith, up)) in
          omega (arith, at_a, at_b, e, h, k, step, mul-add n (a / n) 1)
      | inr down ↦
          let step : n * (b / n) ≤ n * (a / n) = mul-le-mul_left n (ground (arith, down)) in
          omega (arith, at_a, at_b, e, h, k, step)
    ]

-- What a client does with the queue.
pub data FrameOp (F : Type 0) : Type 0 where
  put : F → FrameOp F
  get : FrameOp F

module _ {F : Type 0} where
  -- The producer: a frame is written and committed, when there is a slot. The answer is the frame
  -- that has been taken over.
  unfoldable pub push : FrameQueue F → F → FrameQueue F × Option F
  push q frame = elim (acquire_write q) [
    | none ↦ (q, none)
    | some slot ↦ (commit_write (write_slot q slot frame), some frame)
  ]

  -- The consumer: a frame is read and released, when there is one.
  unfoldable pub pop : FrameQueue F → FrameQueue F × Option F
  pop q = elim (acquire_read q) [
    | none ↦ (q, none)
    | some slot ↦ (release_read q, get_elem? q.frames slot)
  ]

  unfoldable pub perform : FrameQueue F → FrameOp F → FrameQueue F × Option F
  unfolding push pop
  perform q (put frame) = push q frame
  perform q get = pop q

  unfoldable pub answers : FrameQueue F → List (FrameOp F) → List (Option F)
  unfolding perform
  answers q [] = []
  answers q (op ∷ ops) = let (q', a) = perform q op in a ∷ answers q' ops

  -- The same on a list of at most `capacity` frames.
  unfoldable pub perform_list : ℕ → List F → FrameOp F → List F × Option F
  perform_list capacity xs (put frame) =
      if leb capacity (length xs) then (xs, none) else (xs ++ (frame ∷ []), some frame)
  perform_list capacity [] get = ([], none)
  perform_list capacity (x ∷ xs) get = (xs, some x)

  unfoldable pub answers_list : ℕ → List F → List (FrameOp F) → List (Option F)
  unfolding perform_list
  answers_list capacity xs [] = []
  answers_list capacity xs (op ∷ ops) =
      let (xs', a) = perform_list capacity xs op in a ∷ answers_list capacity xs' ops

  -- The frames between the counters, oldest first.
  record Represents (q : FrameQueue F) (xs : List F) : Type 0 where
    bounded : IsBounded q
    size : q.write ≡ q.read + length xs
    held :
        (k : ℕ)
        → k < length xs
        → get_elem? q.frames ((q.read + k) % length q.frames) ≡ get_elem? xs k

  get_elem?-set_at_self :
      (n : ℕ) (x : F) (xs : List F) → n < length xs → get_elem? (set_at n x xs) n ≡ some x
  unfolding set_at
  get_elem?-set_at_self n x [] h = absurd (omega arith)
  get_elem?-set_at_self zero x (y ∷ ys) h = refl
  get_elem?-set_at_self (suc n) x (y ∷ ys) h = get_elem?-set_at_self n x ys (omega arith)

  get_elem?-set_at_ne :
      (n j : ℕ) (x : F) (xs : List F) → n ≢ j → get_elem? (set_at n x xs) j ≡ get_elem? xs j
  unfolding set_at
  get_elem?-set_at_ne n j x [] h = refl
  get_elem?-set_at_ne zero zero x (y ∷ ys) h = absurd (h refl)
  get_elem?-set_at_ne zero (suc j) x (y ∷ ys) h = refl
  get_elem?-set_at_ne (suc n) zero x (y ∷ ys) h = refl
  get_elem?-set_at_ne (suc n) (suc j) x (y ∷ ys) h =
      get_elem?-set_at_ne n j x ys (λ e. h (ap suc e))

  get_elem?-append_left :
      (k : ℕ) (xs ys : List F) → k < length xs → get_elem? (xs ++ ys) k ≡ get_elem? xs k
  get_elem?-append_left k [] ys h = absurd (omega arith)
  get_elem?-append_left zero (x ∷ xs) ys h = refl
  get_elem?-append_left (suc k) (x ∷ xs) ys h = get_elem?-append_left k xs ys (omega arith)

  get_elem?-append_end :
      (k : ℕ) (xs : List F) (y : F) → k ≡ length xs → get_elem? (xs ++ (y ∷ [])) k ≡ some y
  get_elem?-append_end zero [] y h = refl
  get_elem?-append_end (suc k) [] y h = absurd (omega arith)
  get_elem?-append_end zero (x ∷ xs) y h = absurd (omega arith)
  get_elem?-append_end (suc k) (x ∷ xs) y h = get_elem?-append_end k xs y (omega arith)

  -- What a queue is when the producer may write, and when it may not.
  acquire_write-some :
      (q : FrameQueue F) (slot : ℕ)
      → acquire_write q ≡ some slot
      → IsBounded q
      → (slot ≡ q.write % length q.frames) × (q.write < q.read + length q.frames)
  unfolding acquire_write
  acquire_write-some q slot e v = (ground (arith, e), ground (arith, v.ordered, v.room, v.fits, e))

  acquire_write-none :
      (q : FrameQueue F) → acquire_write q ≡ none → IsBounded q → q.write ≡ q.read + length q.frames
  unfolding acquire_write
  acquire_write-none q e v = ground (arith, v.ordered, v.room, v.fits, e)

  pushed-Represents :
      (q : FrameQueue F) (xs : List F) (slot : ℕ) (frame : F)
      → Represents q xs
      → acquire_write q ≡ some slot
      → q.write + 1 < 2 ^ 64
      → Represents (commit_write (write_slot q slot frame)) (xs ++ (frame ∷ []))
  unfolding commit_write write_slot
  pushed-Represents q xs slot frame v free h =
      let n : ℕ = length q.frames in
      let (where_to, room) = acquire_write-some q slot free v.bounded in
      let (bounded, within) = commit_write-IsBounded q slot frame free h v.bounded in
      let longer = length-append xs (frame ∷ []) in
      let frames : List F = set_at slot frame q.frames in
      let held_at : (k : ℕ)
          → k < length (xs ++ (frame ∷ []))
          → get_elem? frames ((q.read + k) % n) ≡ get_elem? (xs ++ (frame ∷ [])) k =
        λ k below. elim (Bool-cases (ltb k (length xs))) [
          | inl old ↦
              let apart =
                mod_apart n (q.read + k) q.write (ground (arith, old, v.size))
                  (omega (arith, room)) in
              get_elem?-set_at_ne slot ((q.read + k) % n) frame q.frames
                (λ e. apart (sym (sym where_to ∙ e)))
              ∙ (v.held k (ground (arith, old))
                  ∙ sym (get_elem?-append_left k xs (frame ∷ []) (ground (arith, old))))
          | inr new ↦
              let last : k ≡ length xs = ground (arith, new, below, longer) in
              let here : (q.read + k) % n ≡ slot =
                ap (λ t. t % n) (omega (arith, last, v.size)) ∙ sym where_to in
              ap (get_elem? frames) here
              ∙ (get_elem?-set_at_self slot frame q.frames within
                  ∙ sym (get_elem?-append_end k xs frame last))
        ] in
      record {
        bounded = bounded;
        size = ground (arith, h, longer, v.size);
        held = λ k below.
            ap (λ m. get_elem? frames ((q.read + k) % m)) (length-set_at slot frame q.frames)
            ∙ held_at k below;
      }

  push-Represents :
      (q : FrameQueue F) (xs : List F) (frame : F)
      → Represents q xs
      → q.write + 1 < 2 ^ 64
      → let (xs', a) = perform_list (length q.frames) xs (put frame) in
        Represents (push q frame).0 xs' × ((push q frame).1 ≡ a)
  unfolding push perform_list
  push-Represents q xs frame v h = elim (Option-cases (acquire_write q)) [
    | inl full ↦
        let at_end = acquire_write-none q full v.bounded in
        let long : leb (length q.frames) (length xs) ≡ true = ground (arith, at_end, v.size) in
        rw (full, push, long, perform_list) (v, refl)
    | inr (slot, free) ↦
        let (where_to, room) = acquire_write-some q slot free v.bounded in
        let short : leb (length q.frames) (length xs) ≡ false = ground (arith, room, v.size) in
        rw (free, push, short, perform_list) (pushed-Represents q xs slot frame v free h, refl)
  ]

  acquire_read-some :
      (q : FrameQueue F) (slot : ℕ)
      → acquire_read q ≡ some slot
      → (slot ≡ q.read % length q.frames) × (q.read ≢ q.write)
  unfolding acquire_read
  acquire_read-some q slot e = (ground (arith, e), ground (arith, e))

  acquire_read-none : (q : FrameQueue F) → acquire_read q ≡ none → q.read ≡ q.write
  unfolding acquire_read
  acquire_read-none q e = ground (arith, e)

  popped-Represents :
      (q : FrameQueue F) (x : F) (xs : List F) (slot : ℕ)
      → Represents q (x ∷ xs)
      → acquire_read q ≡ some slot
      → Represents (release_read q) xs × (get_elem? q.frames slot ≡ some x)
  unfolding release_read
  popped-Represents q x xs slot v ready =
      let (where_to, apart) = acquire_read-some q slot ready in
      let n : ℕ = length q.frames in
      let next : (q.read + 1) % 2 ^ 64 ≡ q.read + 1 = ground (arith, v.size, v.bounded.fits) in
      (
        record {
          bounded = (release_read-IsBounded q slot ready v.bounded).0;
          size = ground (arith, v.size, v.bounded.fits);
          held = λ k below.
              ap (λ t. get_elem? q.frames (t % n)) (omega (arith, next))
              ∙ v.held (suc k) (omega (arith, below));
        },
        ap (get_elem? q.frames) (where_to ∙ ap (λ t. t % n) (omega arith)) ∙ v.held 0 (omega arith),
      )

  pop-Represents :
      (q : FrameQueue F) (xs : List F)
      → Represents q xs
      → let (xs', a) = perform_list (length q.frames) xs get in
        Represents (pop q).0 xs' × ((pop q).1 ≡ a)
  unfolding pop perform_list
  pop-Represents q [] v = elim (Option-cases (acquire_read q)) [
    | inl empty ↦ rw (empty, pop) (v, refl)
    | inr (slot, ready) ↦ absurd (omega (arith, (acquire_read-some q slot ready).1, v.size))
  ]
  pop-Represents q (x ∷ xs) v = elim (Option-cases (acquire_read q)) [
    | inl empty ↦ absurd (omega (arith, acquire_read-none q empty, v.size))
    | inr (slot, ready) ↦ rw (ready, pop) (popped-Represents q x xs slot v ready)
  ]

  perform-keeps :
      (q : FrameQueue F) (op : FrameOp F)
      → IsBounded q
      → q.write + 1 < 2 ^ 64
      → (length (perform q op).0.frames ≡ length q.frames) × ((perform q op).0.write ≤ q.write + 1)
  unfolding perform push pop commit_write write_slot release_read
  perform-keeps q (put frame) v h = elim (Option-cases (acquire_write q)) [
    | inl full ↦ ground (arith, full)
    | inr (slot, free) ↦ ground (arith, free, length-set_at slot frame q.frames, h)
  ]
  perform-keeps q get v h = ground arith

  perform-Represents :
      (q : FrameQueue F) (xs : List F) (op : FrameOp F)
      → Represents q xs
      → q.write + 1 < 2 ^ 64
      → let (xs', a) = perform_list (length q.frames) xs op in
        Represents (perform q op).0 xs' × ((perform q op).1 ≡ a)
  unfolding perform
  perform-Represents q xs (put frame) v h = push-Represents q xs frame v h
  perform-Represents q xs get v h = pop-Represents q xs v

  answers-Represents :
      (q : FrameQueue F) (xs : List F) (ops : List (FrameOp F))
      → Represents q xs
      → q.write + length ops < 2 ^ 64
      → answers q ops ≡ answers_list (length q.frames) xs ops
  unfolding answers answers_list
  answers-Represents q xs [] v h = refl
  answers-Represents q xs (op ∷ ops) v h =
      let (next, same) = perform-Represents q xs op v (omega (arith, h)) in
      let (size, later) = perform-keeps q op v.bounded (omega (arith, h)) in
      let rest =
        answers-Represents (perform q op).0 (perform_list (length q.frames) xs op).0 ops next
          (omega (arith, h, later)) in
      rw (same, rest, size) refl

  length-fill : (n : ℕ) (x : F) → length (fill n x) ≡ n
  unfolding fill
  length-fill zero x = refl
  length-fill (suc n) x = omega (arith, length-fill n x)

  -- A new queue answers any fewer than 2^64 operations, each a frame put in or one taken out, as a list of at
  -- most `capacity` frames does: it takes a frame over unless it is full, and hands the frames out in the
  -- order in which they were put in.
  pub answers-answers_list :
      (capacity : ℕ) (zero_frame : F) (ops : List (FrameOp F))
      → length ops < 2 ^ 64
      → answers (new_frame_queue capacity zero_frame) ops ≡ answers_list capacity [] ops
  unfolding new_frame_queue
  answers-answers_list capacity zero_frame ops h =
      let start : Represents (new_frame_queue capacity zero_frame) [] = record {
        bounded = record { ordered = omega arith; room = omega arith; fits = omega arith };
        size = omega arith;
        held = λ k below. absurd (omega (arith, below));
      } in
      answers-Represents (new_frame_queue capacity zero_frame) [] ops start (omega (arith, h))
      ∙ ap (λ n. answers_list n [] ops) (length-fill capacity zero_frame)
