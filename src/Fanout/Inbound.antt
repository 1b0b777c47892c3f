-- ===== src/Fanout/Inbound.antt =====
-- fanout.go: the listeners that `handleReliableMessage` keeps of an assignment.
use bork.Base.{
  ℕ, ◌≡◌, ◌∙◌, inl, inr, false, not, ◌&&◌, ==_iff, ==-self, if◌then◌else◌, ◌==◌, ◌=/=◌, ◌||◌, List,
  [], ◌∷◌, Bool-cases, arith,
}
use bork.Fanout.{has}

-- What `handleReliableMessage` keeps of an assignment: each listener once, and not this peer. `seen`
-- has what is kept so far.
unfoldable pub inbound_listeners : ℕ → List ℕ → List ℕ → List ℕ
inbound_listeners local seen [] = []
inbound_listeners local seen (id ∷ ids) =
    let rest = inbound_listeners local seen ids in
    let kept = id ∷ inbound_listeners local (id ∷ seen) ids in
    if id == local || has id seen then rest else kept

-- What is kept of an assignment has every listener of it but this peer, each once.
abbrev pub Once : List ℕ → Type 0
Once [] = Unit {0}
Once (x ∷ xs) = (has x xs ≡ false) × Once xs

has-inbound :
    (local x : ℕ) (seen ids : List ℕ)
    → has x (inbound_listeners local seen ids) ≡ (has x ids && (x =/= local && not (has x seen)))
unfolding inbound_listeners has
has-inbound local x seen [] = ground arith
has-inbound local x seen (id ∷ ids) = elim (Bool-cases (id == local || has id seen)) [
  | inl dropped ↦
      rw (dropped, inbound_listeners)
        (has-inbound local x seen ids ∙ elim (Bool-cases (x == id)) [
          | inl same ↦ ground (arith, same, dropped, (==_iff x id).0 same)
          | inr other ↦ ground (arith, other)
        ])
  | inr kept ↦
      rw (kept, inbound_listeners)
        (elim (Bool-cases (x == id)) [
          | inl same ↦ ground (arith, same, kept, (==_iff x id).0 same)
          | inr other ↦ ground (arith, other, has-inbound local x (id ∷ seen) ids)
        ])
]

inbound-Once : (local : ℕ) (seen ids : List ℕ) → Once (inbound_listeners local seen ids)
unfolding inbound_listeners
inbound-Once local seen [] = tt
inbound-Once local seen (id ∷ ids) = elim (Bool-cases (id == local || has id seen)) [
  | inl dropped ↦ rw (dropped, inbound_listeners) (inbound-Once local seen ids)
  | inr kept ↦
      rw (kept, inbound_listeners)
        (
          has-inbound local id (id ∷ seen) ids ∙ unfold has in ground (arith, ==-self id),
          inbound-Once local (id ∷ seen) ids,
        )
]

-- From any assignment, `inbound_listeners` keeps exactly its listeners other than this peer, and none of
-- them twice.
pub inbound_listeners_lem :
    (local : ℕ) (ids : List ℕ)
    → ((x : ℕ) → has x (inbound_listeners local [] ids) ≡ (has x ids && x =/= local))
      × Once (inbound_listeners local [] ids)
unfolding has
inbound_listeners_lem local ids =
    ((λ x. ground (arith, has-inbound local x [] ids)), inbound-Once local [] ids)
