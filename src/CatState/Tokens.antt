-- ===== src/CatState/Tokens.antt =====
-- src/cat_state.c: the rigctld tokens of the modes, both ways.
use mhuxd.Base.{◌≡◌, refl}
use mhuxd.CatState.Modes.{Mode, token, from_token, find_token}

-- Every mode is found again from its own token: the unknown one from the empty text, and `other` from
-- a text that is no token of the table.
pub from_token-token : (m : Mode) → from_token (token m) ≡ m
unfolding from_token find_token token
from_token-token = elim [ Mode.unknown ↦ refl | _ ↦ refl ]
