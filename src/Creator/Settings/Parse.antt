-- ===== src/Creator/Settings/Parse.antt =====
-- `parse_sats` of Boss/Mod/AmountSettingsHandler.cpp: an amount of satoshis read from a stream.
use clboss.Base.{
  ℕ, ◌^◌, Bool, true, false, ◌&&◌, ◌||◌, List, [], ◌∷◌, ltb, leb, ◌==◌, if◌then◌else◌,
}
use clboss.Base.Decimal.{is_digit, value_from}
use clboss.Ln.Amount.{Amount, sat}

-- `isspace` in the C locale.
abbrev pub is_space : ℕ → Bool
is_space c = (c == 32) || (leb 9 c && leb c 13)

-- `is >> std::ws`.
unfoldable pub skip_space : List ℕ → List ℕ
skip_space [] = []
skip_space (c ∷ cs) = if is_space c then skip_space cs else c ∷ cs

-- The digits in front, and what follows them.
unfoldable pub span_digits : List ℕ → List ℕ × List ℕ
span_digits [] = ([], [])
span_digits (c ∷ cs) =
    let rest = span_digits cs in if is_digit c then (c ∷ rest.0, rest.1) else ([], c ∷ cs)

unfoldable pub skip_plus : List ℕ → List ℕ
skip_plus [] = []
skip_plus (c ∷ cs) = if c == b'+' then cs else c ∷ cs

abbrev no_more : List ℕ → Bool
no_more [] = true
no_more (c ∷ cs) = false

-- `is >> sats` and the branches behind it: without digits, or with too large a number, the stream
-- has failed.
unfoldable pub read_sats : List ℕ → List ℕ → Amount × Bool
read_sats [] rest = (0, false)
read_sats (c ∷ cs) rest =
    let n = value_from 0 (c ∷ cs) in
    if ltb n (2 ^ 64) then (sat n, no_more (skip_space rest)) else (0, false)

unfoldable pub read_unsigned : List ℕ → Amount × Bool
unfolding skip_plus read_sats
read_unsigned s = let (digits, rest) = span_digits (skip_plus s) in read_sats digits rest

-- Past the white space a minus is refused before anything is read.
unfoldable pub after_space : List ℕ → Amount × Bool
unfolding read_unsigned
after_space [] = (0, false)
after_space (c ∷ cs) = if c == b'-' then (0, false) else read_unsigned (c ∷ cs)

-- The amount that is kept, and whether the text was a clean amount.
unfoldable pub parse_sats : List ℕ → Amount × Bool
unfolding after_space skip_space
parse_sats s = after_space (skip_space s)
