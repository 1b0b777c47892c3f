-- ===== src/Screen/Receive/Held.antt =====
-- The bytes that the receivers hold, in the fragments of all assemblies, are what they count.
use bork.Base.{ℕ, ◌≡◌, ◌≤◌, refl, ap, List, [], ◌∷◌, All, length, arith}
use bork.Base.Map.{value_or, total_values, total-insert, total-Every}
use bork.Screen.Fragments.{DecodedFragment}
use bork.Screen.Receive.{VideoAssembly, ReceiveState, Receivers, max_retained_bytes, no_receivers}
use bork.Screen.Receive.Accept.{new_video_assembly, is_other}
use bork.Screen.Receive.Holds.{Holds, Grows}
use bork.Screen.Receive.Run.{
  Action, arrives, expires, leaves, drops, forwards, flushes, run, Allows, run-Holds,
}
use bork.Screen.Receive.Retained.{retained, stream_bytes}
use bork.Screen.Receive.Counted.{run-IsTallied}

-- The bytes of the fragments that an assembly holds, and that a stream and all streams do.
abbrev pub held_in_assembly : VideoAssembly → ℕ
held_in_assembly a = total_values length a.fragments

abbrev pub held_in_stream : ReceiveState → ℕ
held_in_stream s = total_values held_in_assembly s.assemblies

abbrev pub held_bytes : Receivers → ℕ
held_bytes c = total_values held_in_stream c.states

-- The fields of an assembly count the bytes that it holds, no more than its chunk has.
pub record IsExact (key chunk_id : ℕ) (a : VideoAssembly) : Type 0 where
  pub retained : a.retained_bytes ≡ held_in_assembly a
  pub video : a.video_bytes ≡ held_in_assembly a
  pub fits : held_in_assembly a ≤ a.total_size

-- `screenVideoRetainedBytes` is what all assemblies hold, within the limit.
pub record IsRetained (c : Receivers) : Type 0 where
  pub assemblies : Holds IsExact c
  pub exact : c.retained_bytes ≡ held_bytes c
  pub limit : held_bytes c ≤ max_retained_bytes

new_video_assembly-IsExact :
    (key i : ℕ) (f : DecodedFragment) (now : ℕ) → IsExact key i (new_video_assembly i f now)
new_video_assembly-IsExact key i f now = record {
  retained = refl;
  video = refl;
  fits = omega arith;
}

-- A fragment of an index that is not there yet.
grown_video-IsExact : (key i : ℕ) (f : DecodedFragment) → Grows IsExact key i f
unfolding is_other
grown_video-IsExact key i f a v same absent fits =
    let law = total-insert length f.index f.bytes a.fragments in
    let nothing = ap (value_or length 0) absent in
    let size : a.total_size ≡ f.total_size = ground (arith, same) in
    record {
      retained = omega (arith, law, nothing, v.retained);
      video = omega (arith, law, nothing, v.video);
      fits = omega (arith, law, nothing, v.video, size, fits);
    }

IsExact-Allows : (x : Action) → Allows IsExact x
IsExact-Allows (arrives key i f now) =
    (new_video_assembly-IsExact key i f now, grown_video-IsExact key i f)
IsExact-Allows (expires now) = tt
IsExact-Allows (leaves of_sender) = tt
IsExact-Allows (drops key) = tt
IsExact-Allows (forwards key packet deadline) = tt
IsExact-Allows (flushes listeners key) = tt

All-Allows : (xs : List Action) → All (Allows IsExact) xs
All-Allows [] = tt
All-Allows (x ∷ xs) = (IsExact-Allows x, All-Allows xs)

-- What the assemblies count is what they hold.
stream_bytes-held :
    (c : Receivers) → Holds IsExact c → total_values stream_bytes c.states ≡ held_bytes c
stream_bytes-held c v =
    total-Every (λ key s. All (λ e. IsExact key e.0 e.1) s.assemblies) stream_bytes held_in_stream
      c.states
      (λ key s h.
        total-Every (IsExact key) retained held_in_assembly s.assemblies (λ i a p. p.retained) h)
      v

-- After any actions on receivers that start empty, the client's `retained_bytes` is the sum of the lengths
-- of all fragments that the assemblies of all streams hold, and that sum is at most 4 MiB. The
-- `retained_bytes` and the `video_bytes` of each assembly are the sum of the lengths of its own fragments,
-- at most the total size of its chunk.
pub run-IsRetained : (xs : List Action) → IsRetained (run no_receivers xs)
run-IsRetained xs =
    let exact = run-Holds IsExact xs (All-Allows xs) in
    let tallied = run-IsTallied xs in
    let same = stream_bytes-held (run no_receivers xs) exact in
    record {
      assemblies = exact;
      exact = omega (arith, tallied.exact, same);
      limit = omega (arith, tallied.exact, tallied.limit, same);
    }
