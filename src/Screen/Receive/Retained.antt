-- ===== src/Screen/Receive/Retained.antt =====
-- The two counters of retained bytes, of the client and of its assemblies, agree: what removes chunks
-- keeps them so.
use bork.Base.{
  ℕ, ◌+◌, ◌≡◌, ◌≤◌, refl, sym, ap, ◌∙◌, inl, inr, Bool, true, if◌then◌else◌, ◌==◌, List, [], ◌∷◌,
  keep, map, some, Bool-cases, Option-cases, ==-self, arith,
}
use bork.Base.Map.{
  Map, lookup, lookup-insert, delete, value_or, total_values, total-insert, total-delete,
}
use bork.Screen.Receive.{
  VideoAssembly, ReceiveState, Receivers, new_state, state_at, put_state, receive_state,
  remove_chunk, remove_chunks, remove_where, remove_assemblies, drop_stream, remove_streams,
  remove_for_sender, expired_ids, expire_streams, expire_chunks, max_retained_bytes, chunk_ids,
}

abbrev pub retained : VideoAssembly → ℕ
retained a = a.retained_bytes

abbrev pub stream_bytes : ReceiveState → ℕ
stream_bytes s = total_values retained s.assemblies

-- `screenVideoRetainedBytes` is the sum of the `retainedBytes` of all assemblies, within the limit.
pub record IsTallied (c : Receivers) : Type 0 where
  pub exact : c.retained_bytes ≡ total_values stream_bytes c.states
  pub limit : c.retained_bytes ≤ max_retained_bytes

pub state_at-put :
    (c : Receivers) (key here : ℕ) (s : ReceiveState)
    → state_at (put_state c key s) here ≡ (if key == here then s else state_at c here)
state_at-put c key here s = rw (lookup-insert key here s c.states) (ground arith)

pub state_at-put_self :
    (c : Receivers) (key : ℕ) (s : ReceiveState) → state_at (put_state c key s) key ≡ s
state_at-put_self c key s = ground (arith, state_at-put c key key s, ==-self key)

pub total-put :
    (c : Receivers) (key : ℕ) (s : ReceiveState)
    → total_values stream_bytes (put_state c key s).states + stream_bytes (state_at c key)
      ≡ total_values stream_bytes c.states + stream_bytes s
total-put c key s =
    let law = total-insert stream_bytes key s c.states in
    elim (Option-cases (lookup key c.states)) [
      | inl absent ↦ ground (arith, absent, law)
      | inr (old, held) ↦ ground (arith, held, law)
    ]

-- A write to a stream that leaves its bytes as they are.
pub put_state-IsTallied :
    (c : Receivers) (key : ℕ) (s : ReceiveState)
    → stream_bytes s ≡ stream_bytes (state_at c key)
    → IsTallied c
    → IsTallied (put_state c key s)
put_state-IsTallied c key s h v = record {
  exact = omega (arith, v.exact, total-put c key s, h);
  limit = v.limit;
}

pub receive_state-IsTallied :
    (c : Receivers) (key : ℕ) → IsTallied c → IsTallied (receive_state c key)
unfolding receive_state
receive_state-IsTallied c key v = elim (Option-cases (lookup key c.states)) [
  | inl absent ↦ rw (absent, receive_state) (put_state-IsTallied c key new_state (rw absent refl) v)
  | inr (s, held) ↦ rw (held, receive_state) v
]

pub remove_chunk-IsTallied :
    (c : Receivers) (key i : ℕ) → IsTallied c → IsTallied (remove_chunk c key i)
unfolding remove_chunk
remove_chunk-IsTallied c key i v =
    let s : ReceiveState = state_at c key in
    let s' : ReceiveState = record s { assemblies = delete i s.assemblies } in
    elim (Option-cases (lookup i s.assemblies)) [
      | inl absent ↦ rw (absent, remove_chunk) v
      | inr (a, held) ↦
          rw (held, remove_chunk)
            (record {
              exact = omega (
                arith,
                v.exact,
                total-put c key s',
                total-delete retained i s.assemblies,
                ap (value_or retained 0) held,
              );
              limit = omega (arith, v.limit);
            })
    ]

pub remove_chunks-IsTallied :
    (c : Receivers) (key : ℕ) (is : List ℕ) → IsTallied c → IsTallied (remove_chunks c key is)
unfolding remove_chunks
remove_chunks-IsTallied c key [] v = v
remove_chunks-IsTallied c key (i ∷ is) v =
    remove_chunks-IsTallied (remove_chunk c key i) key is (remove_chunk-IsTallied c key i v)

pub remove_where-IsTallied :
    (test : ℕ → Bool) (c : Receivers) (key : ℕ) → IsTallied c → IsTallied (remove_where test c key)
unfolding remove_where
remove_where-IsTallied test c key v =
    remove_chunks-IsTallied c key (keep test (chunk_ids (state_at c key))) v

-- The loop over all chunks of a stream leaves none.
keep_all : (is : List ℕ) → keep (λ i. true) is ≡ is
keep_all [] = refl
keep_all (i ∷ is) = ap (λ t. i ∷ t) (keep_all is)

pub assemblies-remove_chunk :
    (c : Receivers) (key i : ℕ) (a : VideoAssembly)
    → lookup i (state_at c key).assemblies ≡ some a
    → (state_at (remove_chunk c key i) key).assemblies ≡ delete i (state_at c key).assemblies
unfolding remove_chunk
assemblies-remove_chunk c key i a held =
    rw (held, remove_chunk) (ap (λ s. s.assemblies) (state_at-put_self c key _))

first_found :
    (i : ℕ) (a : VideoAssembly) (rest : Map VideoAssembly) → lookup i ((i, a) ∷ rest) ≡ some a
unfolding lookup
first_found i a rest = ground (arith, ==-self i)

first_deleted :
    (i : ℕ) (a : VideoAssembly) (rest : Map VideoAssembly) → delete i ((i, a) ∷ rest) ≡ rest
unfolding delete
first_deleted i a rest = ground (arith, ==-self i)

remove_first :
    (c : Receivers) (key i : ℕ) (a : VideoAssembly) (rest : Map VideoAssembly)
    → (state_at c key).assemblies ≡ (i, a) ∷ rest
    → (state_at (remove_chunk c key i) key).assemblies ≡ rest
remove_first c key i a rest e =
    assemblies-remove_chunk c key i a (ap (lookup i) e ∙ first_found i a rest)
    ∙ (ap (delete i) e ∙ first_deleted i a rest)

remove_every :
    (m : Map VideoAssembly) (c : Receivers) (key : ℕ)
    → (state_at c key).assemblies ≡ m
    → (state_at (remove_chunks c key (map (λ e. e.0) m)) key).assemblies ≡ []
unfolding remove_chunks
remove_every [] c key e = e
remove_every ((i, a) ∷ rest) c key e =
    remove_every rest (remove_chunk c key i) key (remove_first c key i a rest e)

all_removed :
    (c : Receivers) (key : ℕ) → (state_at (remove_where (λ i. true) c key) key).assemblies ≡ []
unfolding remove_where
all_removed c key =
    rw (keep_all (chunk_ids (state_at c key))) (remove_every (state_at c key).assemblies c key refl)

remove_assemblies-IsTallied :
    (c : Receivers) (key : ℕ) → IsTallied c → IsTallied (remove_assemblies c key)
unfolding remove_assemblies
remove_assemblies-IsTallied c key v = elim (Option-cases (lookup key c.states)) [
  | inl absent ↦ rw (absent, remove_assemblies) v
  | inr (s, held) ↦
      rw (held, remove_assemblies)
        (put_state-IsTallied (remove_where (λ i. true) c key) key _
          (ap (total_values retained) (sym (all_removed c key)))
          (remove_where-IsTallied (λ i. true) c key v))
]

remove_assemblies_empty :
    (c : Receivers) (key : ℕ) → stream_bytes (state_at (remove_assemblies c key) key) ≡ 0
unfolding remove_assemblies
remove_assemblies_empty c key = elim (Option-cases (lookup key c.states)) [
  | inl absent ↦ rw (absent, remove_assemblies, absent) refl
  | inr (s, held) ↦
      rw (held, remove_assemblies)
        (ap stream_bytes (state_at-put_self (remove_where (λ i. true) c key) key _))
]

pub drop_stream-IsTallied : (c : Receivers) (key : ℕ) → IsTallied c → IsTallied (drop_stream c key)
unfolding drop_stream
drop_stream-IsTallied c key v =
    let c' : Receivers = remove_assemblies c key in
    let v' = remove_assemblies-IsTallied c key v in
    let law = total-delete stream_bytes key c'.states in
    let zero_there : value_or stream_bytes 0 (lookup key c'.states) ≡ 0 =
      elim (Option-cases (lookup key c'.states)) [
        | inl absent ↦ rw absent refl
        | inr (s, held) ↦ ground (arith, held, remove_assemblies_empty c key)
      ] in
    record { exact = omega (arith, v'.exact, law, zero_there); limit = v'.limit }

remove_streams-IsTallied :
    (of_sender : ℕ → Bool) (c : Receivers) (keys : List ℕ)
    → IsTallied c
    → IsTallied (remove_streams of_sender c keys)
unfolding remove_streams
remove_streams-IsTallied of_sender c [] v = v
remove_streams-IsTallied of_sender c (key ∷ keys) v = elim (Bool-cases (of_sender key)) [
  | inl theirs ↦
      rw (theirs, remove_streams)
        (remove_streams-IsTallied of_sender (drop_stream c key) keys
          (drop_stream-IsTallied c key v))
  | inr other ↦ rw (other, remove_streams) (remove_streams-IsTallied of_sender c keys v)
]

pub remove_for_sender-IsTallied :
    (of_sender : ℕ → Bool) (c : Receivers) → IsTallied c → IsTallied (remove_for_sender of_sender c)
unfolding remove_for_sender
remove_for_sender-IsTallied of_sender c v =
    remove_streams-IsTallied of_sender c (map (λ e. e.0) c.states) v

expire_streams-IsTallied :
    (now : ℕ) (c : Receivers) (keys : List ℕ) → IsTallied c → IsTallied (expire_streams now c keys)
unfolding expire_streams
expire_streams-IsTallied now c [] v = v
expire_streams-IsTallied now c (key ∷ keys) v =
    let ids = expired_ids now (state_at c key).assemblies in
    expire_streams-IsTallied now (remove_chunks c key ids) keys
      (remove_chunks-IsTallied c key ids v)

pub expire_chunks-IsTallied :
    (now : ℕ) (c : Receivers) → IsTallied c → IsTallied (expire_chunks now c)
unfolding expire_chunks
expire_chunks-IsTallied now c v = expire_streams-IsTallied now c (map (λ e. e.0) c.states) v
