-- ===== src/Screen/Fragments.antt =====
-- screen_video.go: `encodeScreenVideoFragments` and `decodeScreenVideoFragment`.
pub mod RoundTrip
use bork.Base.{
  ℕ, zero, suc, ◌+◌, ◌-◌, ◌*◌, ◌/◌, ◌%◌, min, bit_and, Bool, if◌then◌else◌, ◌=/=◌, ◌==◌, ltb, leb,
  ◌||◌, List, [], ◌∷◌, ◌++◌, length, get_or, take, drop, Result, ok, err, reject, ◌>>=◌, ◌>>◌,
}
use bork.Base.Bytes.{Bytes, be_put, be_get}
use bork.Protocol.Wire.{max_room_datagram_payload}
use bork.Screen.{
  ScreenError, VideoMetadata, encoding_invalid, chunk_invalid, too_many_fragments, total_invalid,
  count_invalid, length_not_canonical, max_chunk_bytes, max_fragment_bytes, max_video_fragments,
  fragment_header_size, flag_key_frame, validate_metadata,
}

-- `(size + maxScreenVideoFragmentBytes - 1) / maxScreenVideoFragmentBytes`
abbrev pub fragments_for : ℕ → ℕ
fragments_for size = (size + max_fragment_bytes - 1) / max_fragment_bytes

-- The header of a fragment; the index fits its 16 bits, as there are at most 234 fragments.
unfoldable pub fragment_header : VideoMetadata → ℕ → ℕ → Bytes
fragment_header m index size =
    (if m.key_frame then flag_key_frame else 0)
    ∷ (be_put 2 index
        ++ (be_put 8 m.timestamp
            ++ (be_put 4 m.duration
                ++ (be_put 4 size ++ (be_put 2 m.display_width ++ be_put 2 m.display_height)))))

-- The loop of `encodeScreenVideoFragments`, with `rounds` left.
unfoldable pub encode_from : ℕ → ℕ → VideoMetadata → Bytes → List Bytes
unfolding fragment_header
encode_from zero index m chunk = []
encode_from (suc rounds) index m chunk =
    let start = index * max_fragment_bytes in
    let end = min (start + max_fragment_bytes) (length chunk) in
    (fragment_header m index (length chunk) ++ take (end - start) (drop start chunk))
    ∷ encode_from rounds (index + 1) m chunk

unfoldable pub encode_fragments : VideoMetadata → Bytes → Result ScreenError (List Bytes)
unfolding encode_from
encode_fragments m chunk = do
  validate_metadata m
  reject (length chunk == 0 || ltb max_chunk_bytes (length chunk)) chunk_invalid
  reject (ltb max_video_fragments (fragments_for (length chunk))) too_many_fragments
  ok (encode_from (fragments_for (length chunk)) 0 m chunk)

pub record DecodedFragment : Type 0 where
  pub metadata : VideoMetadata
  pub index : ℕ
  pub count : ℕ
  pub total_size : ℕ
  pub bytes : Bytes

-- The composite literal of `decodeScreenVideoFragment`; `count` is set later.
abbrev pub fragment_read : Bytes → DecodedFragment
fragment_read payload = record {
  metadata = record {
    display_width = be_get (take 2 (drop 19 payload));
    display_height = be_get (take 2 (drop 21 payload));
    timestamp = be_get (take 8 (drop 3 payload));
    duration = be_get (take 4 (drop 11 payload));
    key_frame = bit_and (get_or payload 0 0) flag_key_frame =/= 0;
  };
  index = be_get (take 2 (drop 1 payload));
  count = 0;
  total_size = be_get (take 4 (drop 15 payload));
  bytes = drop fragment_header_size payload;
}

-- `payload[0]&^screenVideoFlagKeyFrame` on a byte
abbrev pub other_flags : ℕ → ℕ
other_flags flags = bit_and flags (255 - flag_key_frame)

-- The length of the bytes of a fragment.
abbrev pub expected_bytes : DecodedFragment → ℕ
expected_bytes f =
    if f.index == fragments_for f.total_size - 1
    then f.total_size - f.index * max_fragment_bytes
    else max_fragment_bytes

unfoldable pub decode_fragment : Bytes → Result ScreenError DecodedFragment
decode_fragment payload = do
  reject
      (leb (length payload) fragment_header_size
        || (ltb max_room_datagram_payload (length payload)
            || other_flags (get_or payload 0 0) =/= 0))
      encoding_invalid
  validate_metadata (fragment_read payload).metadata
  reject
      ((fragment_read payload).total_size == 0
        || ltb max_chunk_bytes (fragment_read payload).total_size)
      total_invalid
  reject
      (ltb max_video_fragments (fragments_for (fragment_read payload).total_size)
        || leb (fragments_for (fragment_read payload).total_size) (fragment_read payload).index)
      count_invalid
  reject (length (fragment_read payload).bytes =/= expected_bytes (fragment_read payload))
      length_not_canonical
  ok (record (fragment_read payload) { count = fragments_for (fragment_read payload).total_size })
