-- ===== src/Peer/Window/Laws.antt =====
-- What the replay window remembers: a set of sequences, the newest 64 at most.
use bork.Base.{
  ℕ, zero, suc, ◌+◌, ◌-◌, ◌*◌, ◌%◌, ◌^◌, ◌≤◌, ◌<◌, ◌≡◌, refl, ap, ◌∙◌, ◌⊎◌, inl, inr, ltb→lt,
  ltb→ge, Bool, true, false, ◌&&◌, ◌||◌, not, if◌then◌else◌, ◌==◌, ◌=/=◌, ltb, leb, bit_and, bit_or,
  Bool-cases, ==_iff, arith,
}
use bork.Base.Bits.{
  bit, bit-le, bit_and-pow, bit-bit_or-pow, bit_or-pow-lt, bit-mod, bit-shift, bit_above, shift-lt,
}
use native.Mathlib.Nat.{one-le-pow, pow-suc, mod-le}
use bork.Peer.Window.{SequenceWindow, u64_mod, slide, accept}

-- Whether the window holds a sequence.
unfoldable pub holds : SequenceWindow → ℕ → Bool
holds w s =
    not (s == 0) && (leb s w.highest && (ltb (w.highest - s) 64 && bit (w.highest - s) w.seen == 1))

pub pow_pos : (k : ℕ) → 0 < 2 ^ k
pow_pos k = one-le-pow k 2 (omega arith)

bit_one : bit 0 1 ≡ 1
unfolding bit
bit_one = refl

-- Bit `j` of the bitmap after the window has moved up.
bit-slide :
    (seen shift j : ℕ)
    → seen < u64_mod
    → 0 < shift
    → j < 64
    → bit j (slide seen shift)
      ≡ (if j == 0 then 1 else if ltb j shift then 0 else bit (j - shift) seen)
unfolding slide
bit-slide seen shift j h p q = elim (Bool-cases (leb 64 shift)) [
  | inl far ↦ ground (arith, bit_above 1 j 1, bit_one)
  | inr near ↦ ground (
    arith,
    bit-bit_or-pow 0 j (seen * 2 ^ shift % 2 ^ 64),
    bit-mod 64 j (seen * 2 ^ shift),
    bit-shift shift j seen,
  )
]

pub test_bit : (seen k : ℕ) → (bit_and seen (2 ^ k) =/= 0) ≡ (bit k seen == 1)
test_bit seen k = elim (Bool-cases (bit k seen == 1)) [
  | inl set ↦
      rw set
        (ground (arith, bit_and-pow k seen, ap (λ t. t * 2 ^ k) ((==_iff _ 1).0 set), pow_pos k))
  | inr clear ↦ rw clear (
      ground (
        arith,
        bit_and-pow k seen,
        ap (λ t. t * 2 ^ k) (clear_bit (bit k seen) (bit-le k seen) clear),
      ))
]
  where
    clear_bit : (b : ℕ) → b ≤ 1 → (b == 1) ≡ false → b ≡ 0
    clear_bit b h e = ground arith

-- `accept` answers yes to a sequence exactly when it is not zero and either is above the highest, or
-- is less than 64 below it and is not held.
pub accept_answer :
    (w : SequenceWindow) (s : ℕ)
    → (accept w s).1
      ≡ (not (s == 0) && (ltb w.highest s || (ltb (w.highest - s) 64 && not (holds w s))))
unfolding accept holds
accept_answer w s = ground (arith, test_bit w.seen (w.highest - s))

-- The two ways to accept a sequence.
pub accept_newer :
    (w : SequenceWindow) (s : ℕ)
    → w.highest < s
    → accept w s ≡ (record { highest = s; seen = slide w.seen (s - w.highest) }, true)
unfolding accept
accept_newer w s h = ground arith

accept_older :
    (w : SequenceWindow) (s : ℕ)
    → s ≤ w.highest
    → (accept w s).1 ≡ true
    → accept w s ≡ (record w { seen = bit_or w.seen (2 ^ (w.highest - s)) }, true)
unfolding accept
accept_older w s h e = ground arith

holds_newer :
    (w : SequenceWindow) (s t : ℕ)
    → w.seen < u64_mod
    → w.highest < s
    → holds (record { highest = s; seen = slide w.seen (s - w.highest) }) t
      ≡ (t == s || (holds w t && ltb (s - t) 64))
unfolding holds
holds_newer w s t h p = ground (arith, bit-slide w.seen (s - w.highest) (s - t))

holds_older :
    (w : SequenceWindow) (s t : ℕ)
    → 0 < s
    → s ≤ w.highest
    → w.highest - s < 64
    → holds (record w { seen = bit_or w.seen (2 ^ (w.highest - s)) }) t ≡ (t == s || holds w t)
unfolding holds
holds_older w s t z p q = ground (arith, bit-bit_or-pow (w.highest - s) (w.highest - t) w.seen)

accepted_range :
    (w : SequenceWindow) (s : ℕ)
    → (accept w s).1 ≡ true
    → (0 < s) × (s ≤ w.highest → w.highest - s < 64)
unfolding accept
accepted_range w s e = (ground arith, λ h. ground arith)

-- Where the bitmap fits 64 bits and the sequence `s` is accepted, the window then holds `t` exactly
-- when `t` is `s`, or was held and is less than 64 below the highest of the new window.
pub holds-accept :
    (w : SequenceWindow) (s t : ℕ)
    → w.seen < u64_mod
    → (accept w s).1 ≡ true
    → holds (accept w s).0 t ≡ (t == s || (holds w t && ltb ((accept w s).0.highest - t) 64))
holds-accept w s t h e = elim (Bool-cases (ltb w.highest s)) [
  | inl newer ↦ rw (accept_newer w s (ltb→lt _ _ newer)) (holds_newer w s t h (ltb→lt _ _ newer))
  | inr older ↦ rw (accept_older w s (ltb→ge _ _ older) e) (
      holds_older w s t (accepted_range w s e).0 (ltb→ge _ _ older)
        ((accepted_range w s e).1 (ltb→ge _ _ older))
      ∙ ap (λ b. t == s || b) (within w t))
]
  where
    within : (v : SequenceWindow) (r : ℕ) → holds v r ≡ (holds v r && ltb (v.highest - r) 64)
    within v r = unfold holds in ground arith

-- The bitmap of a window fits its word, marks the newest packet, and marks no packet below 1.
pub record IsValid (w : SequenceWindow) : Type 0 where
  pub fits : w.seen < u64_mod
  pub marked : (w.highest ≡ 0) ⊎ (bit 0 w.seen ≡ 1)
  pub low : (64 ≤ w.highest) ⊎ (w.seen < 2 ^ w.highest)

-- `x << s` stays below a power that already bounds it, whatever is cut off above.
mod-le_self : (x m : ℕ) → x % m ≤ x
mod-le_self x m = mod-le x m

slide-lt : (seen shift n : ℕ) → 0 < n → seen * 2 ^ shift < 2 ^ n → slide seen shift < 2 ^ n
unfolding slide
slide-lt seen shift n p q = ground (
  arith,
  one_lt n p,
  mod-le_self (seen * 2 ^ shift) (2 ^ 64),
  bit_or-pow-lt n 0 (seen * 2 ^ shift % 2 ^ 64),
)
  where
    one_lt : (k : ℕ) → 0 < k → 1 < 2 ^ k
    one_lt zero h = elim h [ ]
    one_lt (suc k) h = omega (arith, pow-suc 2 k, pow_pos k)

slide-fits : (seen shift : ℕ) → slide seen shift < u64_mod
unfolding slide
slide-fits seen shift = ground (arith, bit_or-pow-lt 64 0 (seen * 2 ^ shift % 2 ^ 64))

newer-IsValid :
    (w : SequenceWindow) (s : ℕ)
    → IsValid w
    → w.highest < s
    → IsValid (record { highest = s; seen = slide w.seen (s - w.highest) })
newer-IsValid w s v h = record {
  fits = slide-fits w.seen (s - w.highest);
  marked =
      inr (bit-slide w.seen (s - w.highest) 0 v.fits (omega arith) (omega arith) ∙ ground arith);
  low = ground (
    arith,
    v.low,
    ap (λ t. 2 ^ t) total_shift,
    shift-lt (s - w.highest) w.highest w.seen,
    slide-lt w.seen (s - w.highest) s,
  );
}
  where
    total_shift : w.highest + (s - w.highest) ≡ s
    total_shift = omega arith

older-IsValid :
    (w : SequenceWindow) (s : ℕ)
    → IsValid w
    → 0 < s
    → s ≤ w.highest
    → w.highest - s < 64
    → IsValid (record w { seen = bit_or w.seen (2 ^ (w.highest - s)) })
older-IsValid w s v z h p = record {
  fits = bit_or-pow-lt 64 (w.highest - s) w.seen v.fits p;
  marked = ground (arith, v.marked, bit-bit_or-pow (w.highest - s) 0 w.seen);
  low = ground (arith, v.low, bit_or-pow-lt w.highest (w.highest - s) w.seen);
}

pub accept_refused : (w : SequenceWindow) (s : ℕ) → (accept w s).1 ≡ false → (accept w s).0 ≡ w
unfolding accept
accept_refused w s e = ground arith

-- `accept` keeps a window well formed, whether it takes the sequence or not: the bitmap fits 64 bits,
-- marks the highest packet, and marks none below sequence 1.
pub accept-IsValid : (w : SequenceWindow) (s : ℕ) → IsValid w → IsValid (accept w s).0
accept-IsValid w s v = elim (Bool-cases (accept w s).1) [
  | inr refused ↦ rw (accept_refused w s refused) v
  | inl taken ↦ elim (Bool-cases (ltb w.highest s)) [
    | inl newer ↦ rw (accept_newer w s (ltb→lt _ _ newer)) (newer-IsValid w s v (ltb→lt _ _ newer))
    | inr older ↦ rw (accept_older w s (ltb→ge _ _ older) taken) (
        older-IsValid w s v (accepted_range w s taken).0 (ltb→ge _ _ older)
          ((accepted_range w s taken).1 (ltb→ge _ _ older)))
  ]
]

pub highest-accept : (w : SequenceWindow) (s : ℕ) → w.highest ≤ (accept w s).0.highest
unfolding accept
highest-accept w s = ground arith

pub accepted_le : (w : SequenceWindow) (s : ℕ) → (accept w s).1 ≡ true → s ≤ (accept w s).0.highest
unfolding accept
accepted_le w s e = ground arith
