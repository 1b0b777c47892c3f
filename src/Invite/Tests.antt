-- ===== src/Invite/Tests.antt =====
-- The theorem on base 58 at a concrete input.
use bork.Base.{◌≡◌, [], ◌∷◌, some, arith}
use bork.Base.Bytes.{be_get}
use bork.Invite.Base58.{digits58, value58}
use bork.Invite.Base58.Digits.{value58_of_digits}

value58_of_digits_example : value58 0 (digits58 6 131844 []) ≡ some 131844
unfolding be_get
value58_of_digits_example = value58_of_digits (2 ∷ 3 ∷ 4 ∷ []) (omega arith)
