-- ===== src/Screen/Receive/Room.antt =====
-- Room for a fragment is made at the cost of other assemblies only, and the bytes retained stay
-- within their limit.
use bork.Base.{
  ℕ, zero, suc, ◌-◌, ◌≡◌, ◌≢◌, ◌≤◌, refl, ap, subst, ◌∙◌, inl, inr, Bool, true, false, ◌==◌, ◌&&◌,
  ◌||◌, ltb, leb, [], ◌∷◌, Option, none, some, Bool-cases, Option-cases, ==_iff, arith,
}
use bork.Base.Map.{Map, lookup, lookup-delete_ne}
use bork.Screen.Receive.{
  VideoAssembly, ReceiveState, Receivers, Oldest, state_at, remove_chunk, note_assembly, oldest_of,
  oldest_in, evict, make_room, assembly_count, max_retained_bytes,
}
use bork.Screen.Receive.Retained.{IsTallied, state_at-put, remove_chunk-IsTallied}

-- Another assembly than the current one has been found, if any.
abbrev IsOther : ℕ → ℕ → Option Oldest → Type 0
IsOther key i none = Unit {0}
IsOther key i (some o) = (o.key == key && o.chunk_id == i) ≡ false

note_assembly-IsOther :
    (key i k : ℕ) (best : Option Oldest) (e : ℕ × VideoAssembly)
    → IsOther key i best
    → IsOther key i (note_assembly key i k best e)
unfolding note_assembly
note_assembly-IsOther key i k none (j, a) h = elim (Bool-cases (k == key && j == i)) [
  | inl current ↦ rw (current, note_assembly) tt
  | inr other ↦ rw (other, note_assembly) other
]
note_assembly-IsOther key i k (some b) (j, a) h = elim (Bool-cases (k == key && j == i)) [
  | inl current ↦ rw (current, note_assembly) h
  | inr other ↦ elim (Bool-cases (ltb a.started_at b.at)) [
    | inl older ↦ rw (other, note_assembly, older) other
    | inr later ↦ rw (other, note_assembly, later) h
  ]
]

oldest_of-IsOther :
    (key i k : ℕ) (best : Option Oldest) (m : Map VideoAssembly)
    → IsOther key i best
    → IsOther key i (oldest_of key i k best m)
unfolding oldest_of
oldest_of-IsOther key i k best [] h = h
oldest_of-IsOther key i k best (e ∷ es) h =
    oldest_of-IsOther key i k (note_assembly key i k best e) es
      (note_assembly-IsOther key i k best e h)

oldest_in-IsOther :
    (key i : ℕ) (best : Option Oldest) (m : Map ReceiveState)
    → IsOther key i best
    → IsOther key i (oldest_in key i best m)
unfolding oldest_in
oldest_in-IsOther key i best [] h = h
oldest_in-IsOther key i best ((k, s) ∷ rest) h =
    oldest_in-IsOther key i (oldest_of key i k best s.assemblies) rest
      (oldest_of-IsOther key i k best s.assemblies h)

-- The assembly of a stream and a chunk id.
abbrev pub assembly_at : Receivers → ℕ → ℕ → Option VideoAssembly
assembly_at c key i = lookup i (state_at c key).assemblies

remove_chunk-other :
    (c : Receivers) (k j key i : ℕ)
    → (k == key && j == i) ≡ false
    → assembly_at (remove_chunk c k j) key i ≡ assembly_at c key i
unfolding remove_chunk
remove_chunk-other c k j key i other = elim (Option-cases (lookup j (state_at c k).assemblies)) [
  | inl absent ↦ rw (absent, remove_chunk) refl
  | inr (a, held) ↦
      rw (held, remove_chunk)
        (ap (λ s. lookup i s.assemblies) (state_at-put c k key _) ∙ elim (Bool-cases (k == key)) [
          | inl same ↦
              let apart : j ≢ i = λ e. absurd (ground (arith, other, same, (==_iff j i).1 e)) in
              let here : k ≡ key = (==_iff k key).0 same in
              rw same (
                lookup-delete_ne j i (state_at c k).assemblies apart
                ∙ ap (λ t. lookup i (state_at c t).assemblies) here)
          | inr apart ↦ rw apart refl
        ])
]

-- What the loop that makes room leaves: exact bytes, the current assembly, and room if it says so.
pub record Roomy (key i cost : ℕ) (c : Receivers) (made : Receivers × Bool) : Type 0 where
  pub counted : IsTallied made.0
  pub same : assembly_at made.0 key i ≡ assembly_at c key i
  pub room : made.1 ≡ true → cost ≤ max_retained_bytes - made.0.retained_bytes

leb→le : (a b : ℕ) → leb a b ≡ true → a ≤ b
leb→le a b e = ground arith

evict-Roomy :
    (rounds : ℕ) (c : Receivers) (key i cost : ℕ)
    → IsTallied c
    → Roomy key i cost c (evict rounds c key i cost)
unfolding evict
evict-Roomy zero c key i cost v = record {
  counted = v;
  same = refl;
  room = λ e. leb→le cost (max_retained_bytes - c.retained_bytes) e;
}
evict-Roomy (suc rounds) c key i cost v = elim (Option-cases (oldest_in key i none c.states)) [
  | inl alone ↦
      rw (alone, evict)
        (record {
          counted = v;
          same = refl;
          room = λ e. leb→le cost (max_retained_bytes - c.retained_bytes) e;
        })
  | inr (o, found) ↦ elim (Bool-cases (leb cost (max_retained_bytes - c.retained_bytes))) [
    | inl fits ↦
        rw (found, evict, fits)
          (record {
            counted = v;
            same = refl;
            room = λ e. leb→le cost (max_retained_bytes - c.retained_bytes) fits;
          })
    | inr full ↦
        let other = subst (IsOther key i) found (oldest_in-IsOther key i none c.states tt) in
        let later =
          evict-Roomy rounds (remove_chunk c o.key o.chunk_id) key i cost
            (remove_chunk-IsTallied c o.key o.chunk_id v) in
        rw (found, evict, full)
          (record {
            counted = later.counted;
            same = later.same ∙ remove_chunk-other c o.key o.chunk_id key i other;
            room = later.room;
          })
  ]
]

pub make_room-Roomy :
    (c : Receivers) (key i cost : ℕ) → IsTallied c → Roomy key i cost c (make_room c key i cost)
unfolding make_room
make_room-Roomy c key i cost v = elim (Bool-cases (cost == 0 || ltb max_retained_bytes cost)) [
  | inl never ↦
      rw (never, make_room)
        (record { counted = v; same = refl; room = λ e. absurd (ground (arith, e)) })
  | inr may ↦ rw (may, make_room) (evict-Roomy (assembly_count c) c key i cost v)
]
