-- ===== src/Fanout.antt =====
-- internal/peer/fanout.go: which peers forward a member's media, and the assignment that tells
-- them. A peer id is the number of its 16 bytes, so that `comparePeerIDs` is the order of the numbers.
pub mod Assignment
pub mod Inbound
pub mod Plan
pub mod Sets
pub mod Reach
pub mod Selection
pub mod Justified
pub mod Covers
mod Tests
use bork.Base.{ℕ, Bool, true, false, if◌then◌else◌, ◌==◌, leb, ◌||◌, List, [], ◌∷◌}

-- Whether a set of peers, as a list, has a peer.
unfoldable pub has : ℕ → List ℕ → Bool
has x [] = false
has x (y ∷ ys) = x == y || has x ys

unfoldable pub insert_sorted : ℕ → List ℕ → List ℕ
insert_sorted x [] = x ∷ []
insert_sorted x (y ∷ ys) = if leb x y then x ∷ (y ∷ ys) else y ∷ insert_sorted x ys

-- `slices.SortFunc(…, comparePeerIDs)`
unfoldable pub sort_ids : List ℕ → List ℕ
unfolding insert_sorted
sort_ids [] = []
sort_ids (x ∷ xs) = insert_sorted x (sort_ids xs)
