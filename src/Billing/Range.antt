-- ===== src/Billing/Range.antt =====
-- pages/billing/rules/schemas.ts: `splitRange` and the rule for times, over the characters of a text.
pub mod Laws
use Prim.Native.Char.{Char, code}
use Prim.Native.String.{String, [], ◌∷◌}
use zhiyuche.Common.{
  ℕ, ◌<>◌, Bool, true, false, not, ◌&&◌, ◌||◌, Option, none, some, ◌==◌, eqb, leb, if◌then◌else◌,
}
use zhiyuche.Common.Text.{trim}

unfoldable pub is_digit : ℕ → Bool
is_digit c = leb 48 c && leb c 57

-- `-` and `:`
abbrev pub dash : ℕ
dash = 45

abbrev pub colon : ℕ
colon = 58

-- The first two pieces of `split('-')`, a missing one blank.
unfoldable pub piece : String → String
piece [] = []
piece (c ∷ s) = let rest = piece s in if eqb (code c) dash then [] else c ∷ rest

unfoldable pub after_dash : String → String
after_dash [] = []
after_dash (c ∷ s) = let rest = after_dash s in if eqb (code c) dash then s else rest

-- `\d{1,2}` at the start of a text, and what follows; `none` without a digit.
lead_more : Char → String → String × String
lead_more c [] = (c ∷ [], [])
lead_more c (d ∷ s) = if is_digit (code d) then (c ∷ d ∷ [], s) else (c ∷ [], d ∷ s)

lead : String → Option (String × String)
unfolding lead_more is_digit
lead [] = none
lead (c ∷ s) = if is_digit (code c) then some (lead_more c s) else none

ends : String → Option (String × String) → Option (String × String)
ends hours none = none
ends hours (some (minutes, [])) = some (hours, minutes)
ends hours (some (minutes, _ ∷ _)) = none

-- What follows the hours: a colon and the minutes.
after_hours : Option (String × String) → Option (String × String)
unfolding lead ends
after_hours none = none
after_hours (some (hours, [])) = none
after_hours (some (hours, c ∷ s)) = if eqb (code c) colon then ends hours (lead s) else none

-- `padStart(2, '0')` of one or two digits.
pad_two : String → String
pad_two [] = "00"
pad_two (c ∷ []) = "0" <> (c ∷ [])
pad_two (c ∷ d ∷ s) = c ∷ d ∷ s

padded : String → Option (String × String) → String
unfolding pad_two
padded s none = s
padded s (some (hours, minutes)) = pad_two hours <> (":" <> pad_two minutes)

-- `pad`
unfoldable pub pad : String → String
unfolding padded after_hours
pad s = padded s (after_hours (lead s))

-- `splitRange`: the start and the end.
unfoldable pub split_range : String → String × String
unfolding piece after_dash pad
split_range range = (pad (trim (piece range)), pad (trim (piece (after_dash range))))

-- `TIME_RULE`: two digits up to 23, a colon, and two up to 59.
unfoldable pub is_time : String → Bool
unfolding is_digit
is_time (a ∷ b ∷ c ∷ d ∷ e ∷ []) =
    (leb 48 (code a) && leb (code a) 49 && is_digit (code b)
      || eqb (code a) 50 && leb 48 (code b) && leb (code b) 51)
    && (eqb (code c) colon && (leb 48 (code d) && leb (code d) 53 && is_digit (code e)))
is_time _ = false
