-- ===== src/Screen/Receive/Whole.antt =====
-- A chunk that is completed is the chunk that was cut into fragments.
use bork.Base.{
  ℕ, zero, suc, ◌+◌, ◌*◌, ◌≡◌, ◌≤◌, ◌⊎◌, refl, sym, ap, subst, ◌∙◌, inl, inr, ◌==◌, List, [], ◌∷◌,
  ◌++◌, All, length, length-append, drop, drop-drop, drop_all, take-append-drop, nil_of_length,
  some, Option-cases, Bool-cases, ==_iff, arith,
}
use bork.Base.Bytes.{Bytes}
use bork.Base.Map.{Map, lookup, lookup-insert, value_or}
use bork.Screen.{VideoMetadata, max_fragment_bytes}
use bork.Screen.Fragments.{DecodedFragment, fragments_for}
use bork.Screen.Fragments.RoundTrip.{slice, IsPart}
use bork.Screen.Receive.{VideoAssembly, CompletedChunk, no_receivers}
use bork.Screen.Receive.Accept.{new_video_assembly, grown_video, parts_from, accept_fragment}
use bork.Screen.Receive.Holds.{Grows}
use bork.Screen.Receive.Answers.{MadeFrom, accept_fragment-Made}
use bork.Screen.Receive.Run.{
  Action, arrives, expires, leaves, drops, forwards, flushes, run, Allows, run-Holds,
}

-- An assembly of fragments of the chunk alone.
record IsOf (m : VideoMetadata) (chunk : Bytes) (i : ℕ) (a : VideoAssembly) : Type 0 where
  id : a.chunk_id ≡ i
  metadata : a.metadata ≡ m
  count : a.fragment_count ≡ fragments_for (length chunk)
  total : a.total_size ≡ length chunk
  parts : (index : ℕ) (b : Bytes) → lookup index a.fragments ≡ some b → b ≡ slice chunk index

new_video_assembly-IsOf :
    (m : VideoMetadata) (chunk : Bytes) (i : ℕ) (f : DecodedFragment) (now : ℕ)
    → IsPart m chunk f
    → IsOf m chunk i (new_video_assembly i f now)
new_video_assembly-IsOf m chunk i f now p = record {
  id = refl;
  metadata = p.metadata;
  count = p.count;
  total = p.total;
  parts = λ index b e. unfold lookup in cc;
}

grown_video-IsOf :
    (m : VideoMetadata) (chunk : Bytes) (i : ℕ) (a : VideoAssembly) (f : DecodedFragment)
    → IsPart m chunk f
    → IsOf m chunk i a
    → IsOf m chunk i (grown_video a f)
grown_video-IsOf m chunk i a f p v = record {
  id = v.id;
  metadata = v.metadata;
  count = v.count;
  total = v.total;
  parts = λ index b e.
      let found = lookup-insert f.index index f.bytes a.fragments in
      elim (Bool-cases (f.index == index)) [
        | inl here ↦
            let bytes : f.bytes ≡ b = ground (arith, found, here, e) in
            let same : f.index ≡ index = (==_iff f.index index).0 here in
            sym bytes ∙ (p.bytes ∙ ap (slice chunk) same)
        | inr other ↦ v.parts index b (ground (arith, found, other, e))
      ];
}

-- A list is at most another, and is it when it is as long.
abbrev Fills : Bytes → Bytes → Type 0
Fills xs ys = (length xs ≤ length ys) × (length xs ≡ length ys → xs ≡ ys)

Fills-append :
    (part rest s r : Bytes)
    → (part ≡ s) ⊎ (part ≡ [])
    → Fills rest r
    → Fills (part ++ rest) (s ++ r)
Fills-append part rest s r (inl whole) (le, full) = (
  omega (arith, length-append part rest, length-append s r, ap length whole, le),
  λ e.
      let same =
        full (omega (arith, length-append part rest, length-append s r, ap length whole, e)) in
      rw (whole, same) refl,
)
Fills-append part rest s r (inr gone) (le, full) = (
  omega (arith, length-append part rest, length-append s r, ap length gone, le),
  λ e.
      let same =
        full (omega (arith, length-append part rest, length-append s r, ap length gone, e, le)) in
      let empty =
        nil_of_length s
          (omega (arith, length-append part rest, length-append s r, ap length gone, e, le)) in
      rw (gone, same, empty) refl,
)

-- The parts are no longer than what is left of the chunk, and are it when they are as long.
parts_from_lem :
    (chunk : Bytes) (fragments : Map Bytes)
    → ((index : ℕ) (b : Bytes) → lookup index fragments ≡ some b → b ≡ slice chunk index)
    → (rounds index : ℕ) → index + rounds ≡ fragments_for (length chunk)
    → Fills (parts_from rounds index fragments) (drop (index * max_fragment_bytes) chunk)
unfolding parts_from
parts_from_lem chunk fragments parts zero index h =
    (omega arith, λ e. sym (drop_all (index * max_fragment_bytes) chunk (omega (arith, h))))
parts_from_lem chunk fragments parts (suc rounds) index h =
    let at = index * max_fragment_bytes in
    let split : slice chunk index ++ drop ((index + 1) * max_fragment_bytes) chunk ≡ drop at chunk =
      ap (λ t. slice chunk index ++ t)
        (sym
          (drop-drop at max_fragment_bytes ((index + 1) * max_fragment_bytes) chunk (omega arith)))
      ∙ take-append-drop max_fragment_bytes (drop at chunk) in
    let part : Bytes = value_or (λ b. b) [] (lookup index fragments) in
    let known : (part ≡ slice chunk index) ⊎ (part ≡ []) =
      elim (Option-cases (lookup index fragments)) [
        | inl absent ↦ inr (ap (value_or (λ b. b) []) absent)
        | inr (b, held) ↦ inl (ap (value_or (λ b. b) []) held ∙ parts index b held)
      ] in
    subst (Fills (part ++ parts_from rounds (index + 1) fragments)) split (
      Fills-append part (parts_from rounds (index + 1) fragments) (slice chunk index)
        (drop ((index + 1) * max_fragment_bytes) chunk) known
        (parts_from_lem chunk fragments parts rounds (index + 1) (omega (arith, h))))

made_whole :
    (m : VideoMetadata) (chunk : Bytes) (i : ℕ) (a : VideoAssembly) (d : CompletedChunk)
    → IsOf m chunk i a
    → MadeFrom a d
    → (d.chunk_id ≡ i) × (d.metadata ≡ m) × (d.bytes ≡ chunk)
made_whole m chunk i a d v w =
    let from : ℕ → Bytes = λ count. parts_from count 0 a.fragments in
    let filled =
      parts_from_lem chunk a.fragments v.parts (fragments_for (length chunk)) 0 (omega arith) in
    let bytes : d.bytes ≡ from (fragments_for (length chunk)) = w.bytes ∙ ap from v.count in
    (
      w.chunk_id ∙ v.id,
      w.metadata ∙ v.metadata,
      bytes ∙ filled.1 (sym (ap length bytes) ∙ (w.size ∙ v.total)),
    )

-- The assemblies of one chunk id of one stream hold fragments of the chunk alone.
abbrev Agrees : VideoMetadata → Bytes → ℕ → ℕ → ℕ → ℕ → VideoAssembly → Type 0
Agrees m chunk key i key' i' a = key' ≡ key → i' ≡ i → IsOf m chunk i a

-- What arrives under that key and id is a fragment of the chunk; all else is free.
abbrev pub IsFair : VideoMetadata → Bytes → ℕ → ℕ → Action → Type 0
IsFair m chunk key i (arrives key' i' f now) = key' ≡ key → i' ≡ i → IsPart m chunk f
IsFair m chunk key i (expires now) = Unit {0}
IsFair m chunk key i (leaves of_sender) = Unit {0}
IsFair m chunk key i (drops key') = Unit {0}
IsFair m chunk key i (forwards key' packet deadline) = Unit {0}
IsFair m chunk key i (flushes listeners key') = Unit {0}

arrival-Grows :
    (m : VideoMetadata) (chunk : Bytes) (key i key' i' : ℕ) (f : DecodedFragment)
    → (key' ≡ key → i' ≡ i → IsPart m chunk f)
    → Grows (Agrees m chunk key i) key' i' f
arrival-Grows m chunk key i key' i' f h a v same absent fits =
    λ k j. grown_video-IsOf m chunk i a f (h k j) (v k j)

arrival_new :
    (m : VideoMetadata) (chunk : Bytes) (key i key' i' : ℕ) (f : DecodedFragment) (now : ℕ)
    → (key' ≡ key → i' ≡ i → IsPart m chunk f)
    → Agrees m chunk key i key' i' (new_video_assembly i' f now)
arrival_new m chunk key i key' i' f now h = λ k j.
    subst (λ t. IsOf m chunk t (new_video_assembly i' f now)) j
      (new_video_assembly-IsOf m chunk i' f now (h k j))

IsFair-Allows :
    (m : VideoMetadata) (chunk : Bytes) (key i : ℕ) (x : Action)
    → IsFair m chunk key i x
    → Allows (Agrees m chunk key i) x
IsFair-Allows m chunk key i (arrives key' i' f now) h =
    (arrival_new m chunk key i key' i' f now h, arrival-Grows m chunk key i key' i' f h)
IsFair-Allows m chunk key i (expires now) h = tt
IsFair-Allows m chunk key i (leaves of_sender) h = tt
IsFair-Allows m chunk key i (drops key') h = tt
IsFair-Allows m chunk key i (forwards key' packet deadline) h = tt
IsFair-Allows m chunk key i (flushes listeners key') h = tt

All-Allows :
    (m : VideoMetadata) (chunk : Bytes) (key i : ℕ) (xs : List Action)
    → All (IsFair m chunk key i) xs
    → All (Allows (Agrees m chunk key i)) xs
All-Allows m chunk key i [] h = tt
All-Allows m chunk key i (x ∷ xs) h =
    (IsFair-Allows m chunk key i x h.0, All-Allows m chunk key i xs h.1)

-- After any actions on receivers that start empty, where every fragment that arrives under a stream key
-- and a chunk id is a fragment of one chunk, in whatever order, however often, and whatever else
-- happens: what the next such fragment completes has that id, the chunk's metadata and its bytes.
pub accept_fragment_whole :
    (m : VideoMetadata) (chunk : Bytes) (key i : ℕ) (xs : List Action) (f : DecodedFragment)
    (now : ℕ) {d : CompletedChunk}
    → All (IsFair m chunk key i) xs
    → IsPart m chunk f
    → (accept_fragment (run no_receivers xs) key i f now).1 ≡ some d
    → (d.chunk_id ≡ i) × (d.metadata ≡ m) × (d.bytes ≡ chunk)
accept_fragment_whole m chunk key i xs f now {d} fair part e =
    let agreed = run-Holds (Agrees m chunk key i) xs (All-Allows m chunk key i xs fair) in
    let here = λ (k : key ≡ key) (j : i ≡ i). part in
    let (a, v, made) =
      accept_fragment-Made (Agrees m chunk key i) (run no_receivers xs) key i f now d
        (arrival_new m chunk key i key i f now here) (arrival-Grows m chunk key i key i f here)
        agreed e in
    made_whole m chunk i a d (v refl refl) made
