-- ===== src/Common/Text.antt =====
-- The methods of JavaScript's strings that the source calls: `trim`, `includes` and `startsWith`.
use Prim.Native.Nat.{ℕ, ◌+◌}
use Prim.Native.Char.{code}
use Prim.Native.String.{String, [], ◌∷◌}
use mathlib.Core.Path.{◌≡◌, refl}
use mathlib.Core.Logic.{inl, inr}
use mathlib.Core.Bool.{Bool, true, false, not, ◌&&◌, ◌||◌}
use native.Mathlib.Omega.{arith}
use zhiyuche.Common.Tests.{leb, eqb, if◌then◌else◌, Bool-cases}

-- White space and line terminators, as the language counts them.
unfoldable pub is_space : ℕ → Bool
is_space c =
    leb 9 c && leb c 13
    || eqb c 32
    || eqb c 160
    || eqb c 5760
    || leb 8192 c && leb c 8202
    || eqb c 8232
    || eqb c 8233
    || eqb c 8239
    || eqb c 8287
    || eqb c 12288
    || eqb c 65279

unfoldable pub trim_start : String → String
trim_start [] = []
trim_start (c ∷ s) = if is_space (code c) then trim_start s else c ∷ s

is_empty : String → Bool
is_empty [] = true
is_empty (_ ∷ _) = false

unfoldable pub trim_end : String → String
unfolding is_empty
trim_end [] = []
trim_end (c ∷ s) =
    let rest = trim_end s in if is_space (code c) && is_empty rest then [] else c ∷ rest

unfoldable pub trim : String → String
unfolding trim_start trim_end is_space
trim s = trim_end (trim_start s)

-- `length`, in units of UTF-16.
unfoldable pub units : String → ℕ
units [] = 0
units (c ∷ s) = (if leb 65536 (code c) then 2 else 1) + units s

-- `z.string().trim().min(least).max(most)`
unfoldable pub is_text : ℕ → ℕ → String → Bool
is_text least most v = leb least (units (trim v)) && leb (units (trim v)) most

unfoldable pub starts_with : String → String → Bool
starts_with s [] = true
starts_with [] (c ∷ t) = false
starts_with (d ∷ s) (c ∷ t) = eqb (code d) (code c) && starts_with s t

unfoldable pub includes : String → String → Bool
unfolding starts_with
includes [] t = starts_with [] t
includes (c ∷ s) t = starts_with (c ∷ s) t || includes s t

trim_end_idem : (s : String) → trim_end (trim_end s) ≡ trim_end s
unfolding trim_end
trim_end_idem [] = refl
trim_end_idem (c ∷ s) = elim (Bool-cases (is_space (code c) && is_empty (trim_end s))) [
  | inl blank ↦ rw blank
  | inr kept ↦ rw kept (rw (trim_end_idem s, kept))
]

-- No white space at the start.
is_flush : String → Bool
is_flush [] = true
is_flush (c ∷ s) = not (is_space (code c))

is_flush-trim_start : (s : String) → is_flush (trim_start s) ≡ true
unfolding trim_start is_flush
is_flush-trim_start [] = refl
is_flush-trim_start (c ∷ s) = ground (arith, is_flush-trim_start s)

is_flush-trim_end : (s : String) → is_flush s ≡ true → is_flush (trim_end s) ≡ true
unfolding trim_end is_flush
is_flush-trim_end [] h = refl
is_flush-trim_end (c ∷ s) h = ground arith

trim_start_of_is_flush : (s : String) → is_flush s ≡ true → trim_start s ≡ s
unfolding trim_start is_flush
trim_start_of_is_flush [] h = refl
trim_start_of_is_flush (c ∷ s) h = ground arith

-- Trimming twice is trimming once.
pub trim_idem : (s : String) → trim (trim s) ≡ trim s
unfolding trim
trim_idem s =
    let flush = is_flush-trim_end (trim_start s) (is_flush-trim_start s) in
    rw (trim_start_of_is_flush _ flush) (trim_end_idem (trim_start s))

trim_example : trim "  a b " ≡ "a b"
unfolding trim
trim_example = refl
