-- ===== src/Fanout/Assignment.antt =====
-- fanout.go: `marshalFanoutAssignment` and `parseFanoutAssignment`.
use bork.Base.{
  ℕ, zero, suc, ◌+◌, ◌-◌, ◌*◌, ◌/◌, ◌^◌, ◌≡◌, ◌<◌, ◌↔◌, refl, sym, ap, subst, ◌∙◌, inl, inr, false,
  ◌==◌, ◌=/=◌, ltb, ◌||◌, List, [], ◌∷◌, ◌++◌, length, length-append, length-take, length-drop,
  take, drop, take-append, drop-append, take-append-drop, All, All-take, All-drop, Result, ok,
  reject, ◌>>=◌, ◌>>◌, Result-cases, nil_of_length, arith,
}
use bork.Base.Bytes.{
  Bytes, IsByte, be_put, be_get, length-be_put, be_get-be_put, be_put-be_get, be_get-lt,
}

pub data FanoutError : Type 0 where
  listener_zero header_invalid length_invalid : FanoutError

-- The loop of `marshalFanoutAssignment`.
unfoldable pub write_ids : List ℕ → Result FanoutError Bytes
write_ids [] = ok []
write_ids (id ∷ ids) = do
  reject (id == 0) listener_zero
  rest ← write_ids ids
  ok (be_put 16 id ++ rest)

-- `uint32(len(listeners))` keeps the low 32 bits, as `be_put` does.
unfoldable pub marshal_assignment : List ℕ → Result FanoutError Bytes
unfolding write_ids
marshal_assignment listeners = do
  body ← write_ids listeners
  ok (be_put 4 (length listeners) ++ body)

-- The loop of `parseFanoutAssignment`, over what follows.
unfoldable pub read_ids : ℕ → Bytes → Result FanoutError (List ℕ)
read_ids zero rest = ok []
read_ids (suc rounds) rest = do
  reject (be_get (take 16 rest) == 0) listener_zero
  ids ← read_ids rounds (drop 16 rest)
  ok (be_get (take 16 rest) ∷ ids)

unfoldable pub parse_assignment : Bytes → Result FanoutError (List ℕ)
unfolding read_ids
parse_assignment payload = do
  reject (ltb (length payload) 4) header_invalid
  reject
      (ltb ((length payload - 4) / 16) (be_get (take 4 payload))
        || length payload =/= 4 + be_get (take 4 payload) * 16)
      length_invalid
  read_ids (be_get (take 4 payload)) (drop 4 payload)

-- Peer ids, no more of them than the count can say.
abbrev pub IsIds : List ℕ → Type 0
IsIds ids = All (λ id. id < 256 ^ 16) ids × (length ids < 256 ^ 4)

write_ids_step :
    (id : ℕ) (ids : List ℕ) {out : Bytes}
    → write_ids (id ∷ ids) ≡ ok out
    → (rest : Bytes) × ((id == 0) ≡ false)
      × (write_ids ids ≡ ok rest)
      × (out ≡ be_put 16 id ++ rest)
unfolding write_ids
write_ids_step id ids e = elim (Result-cases (write_ids ids)) [
  | inr (_, refused) ↦ absurd (ground (arith, refused, e))
  | inl (rest, done) ↦ (rest, ground (arith, done, e), done, ground (arith, done, e))
]

read_ids_step :
    (rounds id : ℕ) (ids : List ℕ) (rest : Bytes)
    → (id == 0) ≡ false
    → be_get (take 16 rest) ≡ id
    → read_ids rounds (drop 16 rest) ≡ ok ids
    → read_ids (suc rounds) rest ≡ ok (id ∷ ids)
unfolding read_ids
read_ids_step rounds id ids rest set here there = rw (here, there) (ground (arith, set))

read_ids-write_ids :
    (ids : List ℕ) {out : Bytes}
    → All (λ id. id < 256 ^ 16) ids
    → write_ids ids ≡ ok out
    → (read_ids (length ids) out ≡ ok ids) × (length out ≡ length ids * 16)
read_ids-write_ids [] v e = unfold read_ids write_ids in (refl, ground (arith, e))
read_ids-write_ids (id ∷ ids) {out} v e =
    let (rest, set, done, same) = write_ids_step id ids e in
    let (read, long) = read_ids-write_ids ids v.1 done in
    let size = length-be_put 16 id in
    (
      read_ids_step (length ids) id ids out set
          (ap (λ t. be_get (take 16 t)) same
            ∙ (ap be_get (take-append 16 (be_put 16 id) rest size) ∙ be_get-be_put 16 id v.0))
          (ap (λ t. read_ids (length ids) (drop 16 t)) same
            ∙ (ap (read_ids (length ids)) (drop-append 16 (be_put 16 id) rest size) ∙ read)),
      omega (arith, ap length same, length-append (be_put 16 id) rest, size, long),
    )

parse_assignment_steps :
    (payload : Bytes) (count : ℕ)
    → be_get (take 4 payload) ≡ count
    → length payload ≡ 4 + count * 16
    → parse_assignment payload ≡ read_ids count (drop 4 payload)
unfolding parse_assignment
parse_assignment_steps payload count number long = rw (number, long) (ground arith)

marshal_assignment_ok :
    (ids : List ℕ) {payload : Bytes}
    → marshal_assignment ids ≡ ok payload
    → (body : Bytes) × (write_ids ids ≡ ok body) × (payload ≡ be_put 4 (length ids) ++ body)
unfolding marshal_assignment
marshal_assignment_ok ids e = elim (Result-cases (write_ids ids)) [
  | inr (_, refused) ↦ absurd (ground (arith, refused, e))
  | inl (body, done) ↦ (body, done, ground (arith, done, e))
]

parse-marshal :
    (ids : List ℕ) {payload : Bytes}
    → IsIds ids
    → marshal_assignment ids ≡ ok payload
    → parse_assignment payload ≡ ok ids
parse-marshal ids {payload} (fits, few) e =
    let (body, done, same) = marshal_assignment_ok ids e in
    let (read, long) = read_ids-write_ids ids fits done in
    let head : Bytes = be_put 4 (length ids) in
    let size = length-be_put 4 (length ids) in
    ap parse_assignment same
    ∙ (parse_assignment_steps (head ++ body) (length ids)
          (ap be_get (take-append 4 head body size) ∙ be_get-be_put 4 (length ids) few)
          (omega (arith, length-append head body, size, long))
        ∙ (ap (read_ids (length ids)) (drop-append 4 head body size) ∙ read))

read_ids_step_ok :
    (rounds : ℕ) (rest : Bytes) {ids : List ℕ}
    → read_ids (suc rounds) rest ≡ ok ids
    → (others : List ℕ) × ((be_get (take 16 rest) == 0) ≡ false)
      × (read_ids rounds (drop 16 rest) ≡ ok others)
      × (ids ≡ be_get (take 16 rest) ∷ others)
unfolding read_ids
read_ids_step_ok rounds rest e = elim (Result-cases (read_ids rounds (drop 16 rest))) [
  | inr (_, refused) ↦ absurd (ground (arith, refused, e))
  | inl (others, done) ↦ (others, ground (arith, done, e), done, ground (arith, done, e))
]

write_ids-cons :
    (id : ℕ) (ids : List ℕ) (rest : Bytes)
    → (id == 0) ≡ false
    → write_ids ids ≡ ok rest
    → write_ids (id ∷ ids) ≡ ok (be_put 16 id ++ rest)
unfolding write_ids
write_ids-cons id ids rest set done = ground (arith, set, done)

write_ids-read_ids :
    (rounds : ℕ) (rest : Bytes) {ids : List ℕ}
    → All IsByte rest
    → length rest ≡ rounds * 16
    → read_ids rounds rest ≡ ok ids
    → (write_ids ids ≡ ok rest) × (length ids ≡ rounds) × All (λ id. id < 256 ^ 16) ids
write_ids-read_ids zero rest {ids} b long e =
    let empty : rest ≡ [] = nil_of_length rest (omega (arith, long)) in
    let none_read : [] ≡ ids = unfold read_ids in ground (arith, e) in
    subst (λ t. (write_ids t ≡ ok rest) × (length t ≡ 0) × All (λ id. id < 256 ^ 16) t) none_read
      (unfold write_ids in (ap ok (sym empty), refl, tt))
write_ids-read_ids (suc rounds) rest {ids} b long e =
    let (others, set, done, same) = read_ids_step_ok rounds rest e in
    let front = length-take 16 rest in
    let (written, count, fits) =
      write_ids-read_ids rounds (drop 16 rest) (All-drop IsByte 16 rest b)
        (omega (arith, length-drop 16 rest, long)) done in
    let size : length (take 16 rest) ≡ 16 = omega (arith, front, long) in
    let byte = All-take IsByte 16 rest b in
    let id : ℕ = be_get (take 16 rest) in
    let small : id < 256 ^ 16 =
      omega (arith, be_get-lt (take 16 rest) byte, ap (λ n. 256 ^ n) size) in
    subst (λ t. (write_ids t ≡ ok rest) × (length t ≡ suc rounds) × All (λ i. i < 256 ^ 16) t)
      (sym same)
      (
        write_ids-cons id others (drop 16 rest) set written
            ∙ ap ok (
                ap (λ t. t ++ drop 16 rest) (be_put-be_get 16 (take 16 rest) size byte)
                ∙ take-append-drop 16 rest),
        omega (arith, count),
        (small, fits),
      )

parse_assignment_ok :
    (payload : Bytes) {ids : List ℕ}
    → parse_assignment payload ≡ ok ids
    → (length payload ≡ 4 + be_get (take 4 payload) * 16)
      × (read_ids (be_get (take 4 payload)) (drop 4 payload) ≡ ok ids)
unfolding parse_assignment
parse_assignment_ok payload e = (ground (arith, e), ground (arith, e))

marshal_assignment_steps :
    (ids : List ℕ) (body : Bytes)
    → write_ids ids ≡ ok body
    → marshal_assignment ids ≡ ok (be_put 4 (length ids) ++ body)
unfolding marshal_assignment
marshal_assignment_steps ids body done = ground (arith, done)

marshal-parse :
    (payload : Bytes) {ids : List ℕ}
    → All IsByte payload
    → parse_assignment payload ≡ ok ids
    → (marshal_assignment ids ≡ ok payload) × IsIds ids
marshal-parse payload {ids} b e =
    let (long, read) = parse_assignment_ok payload e in
    let count : ℕ = be_get (take 4 payload) in
    let size : length (take 4 payload) ≡ 4 = omega (arith, length-take 4 payload, long) in
    let byte = All-take IsByte 4 payload b in
    let (written, number, fits) =
      write_ids-read_ids count (drop 4 payload) (All-drop IsByte 4 payload b)
        (omega (arith, length-drop 4 payload, long)) read in
    let small : count < 256 ^ 4 =
      omega (arith, be_get-lt (take 4 payload) byte, ap (λ n. 256 ^ n) size) in
    (
      marshal_assignment_steps ids (drop 4 payload) written
          ∙ ap ok (
              ap (λ n. be_put 4 n ++ drop 4 payload) number
              ∙ (ap (λ t. t ++ drop 4 payload) (be_put-be_get 4 (take 4 payload) size byte)
                  ∙ take-append-drop 4 payload)),
      (fits, omega (arith, number, small)),
    )

-- For a payload of bytes and ids of 16 bytes whose number fits 32 bits: `parse_assignment` reads the
-- payload as these ids exactly when it is what `marshal_assignment` writes for them.
pub parse_assignment_iff :
    (payload : Bytes) (ids : List ℕ)
    → All IsByte payload
    → IsIds ids
    → (parse_assignment payload ≡ ok ids) ↔ (marshal_assignment ids ≡ ok payload)
parse_assignment_iff payload ids b v =
    (λ e. (marshal-parse payload b e).0, λ e. parse-marshal ids v e)
