-- ===== src/Vehicles/Vin.antt =====
-- pages/assets/vehicles/schemas.ts: `VIN_RULE`.
use zhiyuche.Common.{ℕ, String, Bool, not, ◌&&◌, ◌||◌, eqb}
use zhiyuche.Common.Text.{units}
use zhiyuche.Billing.Range.{is_digit}
use zhiyuche.Forms.{is_upper, is_lower, each}

-- A character of `VIN_RULE`: a digit or a letter, whatever its case, but I, O and Q.
is_vin_letter : ℕ → Bool
is_vin_letter c = not (eqb c 73 || (eqb c 79 || eqb c 81))

is_vin_char : ℕ → Bool
unfolding is_vin_letter is_upper is_lower is_digit
is_vin_char c =
    is_digit c
    || (is_upper c && is_vin_letter c || is_lower c && not (eqb c 105 || (eqb c 111 || eqb c 113)))

unfoldable pub is_vin : String → Bool
unfolding is_vin_char each
is_vin v = eqb (units v) 17 && each is_vin_char v
