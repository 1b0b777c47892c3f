-- ===== src/Screen/Fragments/RoundTrip.antt =====
-- The fragments of a video chunk are read back, and their bytes joined are the chunk.
use bork.Base.{
  ℕ, zero, suc, ◌+◌, ◌-◌, ◌*◌, ◌^◌, ◌≡◌, ◌≤◌, ◌<◌, refl, sym, ap, subst, ◌∙◌, min, inl, inr, Bool,
  true, false, if◌then◌else◌, ◌==◌, List, [], ◌∷◌, ◌++◌, map, length, length-append, length-take,
  length-drop, take, drop, drop-drop, drop_all, take-append-drop, take-slice, get_or, ok,
  Bool-cases, ==_iff, ◌≢◌, Result-cases, arith,
}
use bork.Base.Bytes.{Bytes, be_put, be_get-be_put}
use bork.Screen.{
  VideoMetadata, max_fragment_bytes, max_chunk_bytes, max_video_fragments, validate_metadata,
  validate_size, validate_timing,
}
use bork.Screen.Fragments.{
  DecodedFragment, fragments_for, fragment_header, encode_from, encode_fragments, fragment_read,
  expected_bytes, decode_fragment, other_flags,
}

-- What the checks of the metadata leave.
metadata_fits :
    (m : VideoMetadata)
    → validate_metadata m ≡ ok tt
    → (m.display_width < 256 ^ 2)
      × (m.display_height < 256 ^ 2)
      × (m.timestamp < 256 ^ 8)
      × (m.duration < 256 ^ 4)
unfolding validate_metadata validate_size validate_timing
metadata_fits m e = (ground arith, ground arith, ground arith, ground arith)

abbrev read_back : VideoMetadata → ℕ → ℕ → Bytes → DecodedFragment
read_back m index size body = record {
  metadata = m;
  index = index;
  count = 0;
  total_size = size;
  bytes = body;
}

fields_read :
    (w h t d : ℕ) (key : Bool) (index size : ℕ) (body : Bytes)
    → w < 256 ^ 2
    → h < 256 ^ 2
    → t < 256 ^ 8
    → d < 256 ^ 4
    → index < 256 ^ 2
    → size < 256 ^ 4
    → let m : VideoMetadata = record {
      display_width = w;
      display_height = h;
      timestamp = t;
      duration = d;
      key_frame = key;
    } in
      fragment_read (fragment_header m index size ++ body) ≡ read_back m index size body
unfolding fragment_header be_put
fields_read w h t d true index size body fw fh ft fd fi fs =
    rw
      (
        be_get-be_put 2 w fw,
        be_get-be_put 2 h fh,
        be_get-be_put 8 t ft,
        be_get-be_put 4 d fd,
        be_get-be_put 2 index fi,
        be_get-be_put 4 size fs,
      )
      refl
fields_read w h t d false index size body fw fh ft fd fi fs =
    rw
      (
        be_get-be_put 2 w fw,
        be_get-be_put 2 h fh,
        be_get-be_put 8 t ft,
        be_get-be_put 4 d fd,
        be_get-be_put 2 index fi,
        be_get-be_put 4 size fs,
      )
      refl

length-fragment_header :
    (m : VideoMetadata) (index size : ℕ) → length (fragment_header m index size) ≡ 23
unfolding fragment_header be_put
length-fragment_header m index size = refl

header_flags :
    (m : VideoMetadata) (index size : ℕ) (body : Bytes)
    → other_flags (get_or (fragment_header m index size ++ body) 0 0) ≡ 0
unfolding fragment_header
header_flags m index size body = elim (Bool-cases m.key_frame) [
  | inl key ↦ ground (arith, key)
  | inr plain ↦ ground (arith, plain)
]

decode_steps :
    (payload : Bytes) (s : DecodedFragment)
    → fragment_read payload ≡ s
    → 23 < length payload
    → length payload ≤ 1151
    → other_flags (get_or payload 0 0) ≡ 0
    → validate_metadata s.metadata ≡ ok tt
    → 0 < s.total_size
    → s.total_size ≤ max_chunk_bytes
    → s.index < fragments_for s.total_size
    → length s.bytes ≡ expected_bytes s
    → decode_fragment payload ≡ ok (record s { count = fragments_for s.total_size })
decode_steps payload s same =
    subst
      (λ t.
        23 < length payload
        → length payload ≤ 1151
        → other_flags (get_or payload 0 0) ≡ 0
        → validate_metadata t.metadata ≡ ok tt
        → 0 < t.total_size
        → t.total_size ≤ max_chunk_bytes
        → t.index < fragments_for t.total_size
        → length t.bytes ≡ expected_bytes t
        → decode_fragment payload ≡ ok (record t { count = fragments_for t.total_size }))
      same
      (λ long short flags valid some_bytes small within whole.
        unfold decode_fragment in
        ground (arith, long, short, flags, valid, some_bytes, small, within, whole))

piece_size :
    (size index : ℕ)
    → index < fragments_for size
    → min max_fragment_bytes (size - index * max_fragment_bytes) ≡ (
        if index == fragments_for size - 1
        then size - index * max_fragment_bytes
        else max_fragment_bytes)
piece_size size index within = elim (Bool-cases (index == fragments_for size - 1)) [
  | inl last ↦
      let at_end : index ≡ fragments_for size - 1 =
        (==_iff index (fragments_for size - 1)).0 last in
      rw last (omega (arith, at_end, within))
  | inr inner ↦
      let before : index ≢ fragments_for size - 1 =
        λ e. absurd (ground (arith, inner, (==_iff index (fragments_for size - 1)).1 e)) in
      rw inner (omega (arith, before, within))
]

-- The bytes of a chunk at an index.
abbrev pub slice : Bytes → ℕ → Bytes
slice chunk index = take max_fragment_bytes (drop (index * max_fragment_bytes) chunk)

-- A fragment of a chunk.
pub record IsPart (m : VideoMetadata) (chunk : Bytes) (f : DecodedFragment) : Type 0 where
  pub metadata : f.metadata ≡ m
  pub count : f.count ≡ fragments_for (length chunk)
  pub total : f.total_size ≡ length chunk
  pub bytes : f.bytes ≡ slice chunk f.index

-- The fragment that stands at `index` of a chunk.
abbrev fragment_at : VideoMetadata → ℕ → Bytes → DecodedFragment
fragment_at m index chunk = record {
  metadata = m;
  index = index;
  count = fragments_for (length chunk);
  total_size = length chunk;
  bytes = slice chunk index;
}

decode-encoded :
    (m : VideoMetadata) (index : ℕ) (chunk : Bytes)
    → validate_metadata m ≡ ok tt
    → length chunk ≤ max_chunk_bytes
    → index < fragments_for (length chunk)
    → decode_fragment (
        fragment_header m index (length chunk)
        ++ take max_fragment_bytes (drop (index * max_fragment_bytes) chunk))
      ≡ ok (fragment_at m index chunk)
decode-encoded m index chunk valid small within =
    let body : Bytes = take max_fragment_bytes (drop (index * max_fragment_bytes) chunk) in
    let (fw, fh, ft, fd) = metadata_fits m valid in
    let long = length-append (fragment_header m index (length chunk)) body in
    let head = length-fragment_header m index (length chunk) in
    let taken = length-take max_fragment_bytes (drop (index * max_fragment_bytes) chunk) in
    let rest = length-drop (index * max_fragment_bytes) chunk in
    decode_steps (fragment_header m index (length chunk) ++ body)
      (read_back m index (length chunk) body)
      (fields_read m.display_width m.display_height m.timestamp m.duration m.key_frame index
        (length chunk) body fw fh ft fd (omega (arith, within, small)) (omega (arith, small)))
      (omega (arith, long, head, taken, rest, within)) (omega (arith, long, head, taken, rest))
      (header_flags m index (length chunk) body) valid (omega (arith, within)) small within
      (taken ∙ (ap (min max_fragment_bytes) rest ∙ piece_size (length chunk) index within))

abbrev pub joined_bytes : List DecodedFragment → Bytes
joined_bytes [] = []
joined_bytes (f ∷ fs) = f.bytes ++ joined_bytes fs

-- The fragments of a chunk from `index` to the last, without a gap.
abbrev pub IsCut : VideoMetadata → Bytes → ℕ → List DecodedFragment → Type 0
IsCut m chunk index [] = index ≡ fragments_for (length chunk)
IsCut m chunk index (f ∷ fs) = IsPart m chunk f × (f.index ≡ index) × IsCut m chunk (index + 1) fs

-- What the loop writes reads back as the rest of the chunk.
abbrev ReadsFrom : VideoMetadata → ℕ → Bytes → List Bytes → Type 0
ReadsFrom m index chunk fragments =
    (fs : List DecodedFragment) × (map decode_fragment fragments ≡ map ok fs)
    × (joined_bytes fs ≡ drop (index * max_fragment_bytes) chunk)
    × IsCut m chunk index fs

encode_from-ReadsFrom :
    (rounds index : ℕ) (m : VideoMetadata) (chunk : Bytes)
    → validate_metadata m ≡ ok tt
    → length chunk ≤ max_chunk_bytes
    → index + rounds ≡ fragments_for (length chunk)
    → ReadsFrom m index chunk (encode_from rounds index m chunk)
unfolding encode_from
encode_from-ReadsFrom zero index m chunk valid small h = (
  [],
  refl,
  sym (drop_all (index * max_fragment_bytes) chunk (omega (arith, h))),
  omega (arith, h),
)
encode_from-ReadsFrom (suc rounds) index m chunk valid small h =
    let (fs, read, joined, cut) =
      encode_from-ReadsFrom rounds (index + 1) m chunk valid small (omega (arith, h)) in
    let f : DecodedFragment = fragment_at m index chunk in
    let here = decode-encoded m index chunk valid small (omega (arith, h)) in
    let next =
      drop-drop (index * max_fragment_bytes) max_fragment_bytes ((index + 1) * max_fragment_bytes)
        chunk (omega arith) in
    (
      f ∷ fs,
      rw (take-slice (index * max_fragment_bytes) max_fragment_bytes chunk, here, read) refl,
      rw (joined, ← next)
          (take-append-drop max_fragment_bytes (drop (index * max_fragment_bytes) chunk)),
      (record { metadata = refl; count = refl; total = refl; bytes = refl }, refl, cut),
    )

encode_fragments_ok :
    (m : VideoMetadata) (chunk : Bytes) {fragments : List Bytes}
    → encode_fragments m chunk ≡ ok fragments
    → (validate_metadata m ≡ ok tt)
      × (length chunk ≤ max_chunk_bytes)
      × (fragments_for (length chunk) ≤ max_video_fragments)
      × (fragments ≡ encode_from (fragments_for (length chunk)) 0 m chunk)
unfolding encode_fragments
encode_fragments_ok m chunk e = elim (Result-cases (validate_metadata m)) [
  | inl (done, valid) ↦ (valid, ground (arith, valid), ground (arith, valid), ground (arith, valid))
  | inr (_, refused) ↦ absurd (ground (arith, refused))
]

-- Every fragment that `encode_fragments` writes is read by `decode_fragment`. What is read has the
-- metadata, the count and the size of the chunk, indices from 0 without a gap and the chunk's bytes at each;
-- joined, these are the chunk. There are at most 233.
pub decode-encode_fragments :
    (m : VideoMetadata) (chunk : Bytes) {fragments : List Bytes}
    → encode_fragments m chunk ≡ ok fragments
    → (fs : List DecodedFragment) × (map decode_fragment fragments ≡ map ok fs)
      × (joined_bytes fs ≡ chunk)
      × IsCut m chunk 0 fs
      × (fragments_for (length chunk) ≤ 233)
decode-encode_fragments m chunk e =
    let (valid, small, few, same) = encode_fragments_ok m chunk e in
    let (fs, read, joined, cut) =
      encode_from-ReadsFrom (fragments_for (length chunk)) 0 m chunk valid small (omega arith) in
    (fs, ap (map decode_fragment) same ∙ read, joined, cut, few)
