-- ===== src/Billing/Range/Laws.antt =====
-- A range that is put together from two times splits into them again.
use Prim.Native.Char.{Char, code}
use Prim.Native.String.{String, [], ◌∷◌}
use text.Mathlib.TextLemmas.{nil-append, cons-append}
use text.Mathlib.TextEquality.{Char-path}
use zhiyuche.Common.{ap, ◌<>◌, Bool, true, false, ◌≡◌, refl, arith, eqb, ◌&&◌, not, ◌∙◌}
use zhiyuche.Common.Text.{trim, trim_start, trim_end, is_space}
use zhiyuche.Billing.Range.{
  is_digit, piece, after_dash, lead, ends, after_hours, pad_two, padded, pad, split_range, is_time,
}

IsDigitChar : Char → Type 0
IsDigitChar c = is_digit (code c) ≡ true

-- A text of the form HH:MM.
record IsClock (a b c d e : Char) : Type 0 where
  hour : is_digit (code a) ≡ true
  hour_low : is_digit (code b) ≡ true
  between : eqb (code c) 58 ≡ true
  minute : is_digit (code d) ≡ true
  minute_low : is_digit (code e) ≡ true

abbrev dash_char : Char
dash_char = "-"

abbrev colon_char : Char
colon_char = ":"

-- A dash or a colon and what follows, character by character.
dash-append : (rest : String) → "-" <> rest ≡ dash_char ∷ rest
dash-append rest = cons-append dash_char [] rest ∙ ap (λ s. dash_char ∷ s) (nil-append rest)

colon-append : (rest : String) → ":" <> rest ≡ colon_char ∷ rest
colon-append rest = cons-append colon_char [] rest ∙ ap (λ s. colon_char ∷ s) (nil-append rest)

is_dashless : String → Bool
is_dashless [] = true
is_dashless (c ∷ s) = not (eqb (code c) 45) && is_dashless s

piece-append : (s rest : String) → is_dashless s ≡ true → piece (s <> ("-" <> rest)) ≡ s
unfolding piece is_dashless
piece-append [] rest h = simp (nil-append, dash-append) refl
piece-append (c ∷ s) rest h =
    rw (cons-append c s ("-" <> rest)) (ground (arith, piece-append s rest))

after_dash-append :
    (s rest : String) → is_dashless s ≡ true → after_dash (s <> ("-" <> rest)) ≡ rest
unfolding after_dash is_dashless
after_dash-append [] rest h = simp (nil-append, dash-append) refl
after_dash-append (c ∷ s) rest h =
    rw (cons-append c s ("-" <> rest)) (ground (arith, after_dash-append s rest))

piece_whole : (s : String) → is_dashless s ≡ true → piece s ≡ s
unfolding piece is_dashless
piece_whole [] h = refl
piece_whole (c ∷ s) h = ground (arith, piece_whole s)

digit_not_space : (c : Char) → is_digit (code c) ≡ true → is_space (code c) ≡ false
unfolding is_digit is_space
digit_not_space c h = ground arith

colon_not_space : (c : Char) → eqb (code c) 58 ≡ true → is_space (code c) ≡ false
unfolding is_space
colon_not_space c h = ground arith

-- HH:MM, as a time that keeps its form through the functions of the form.
abbrev IsKept : String → Type 0
IsKept s = (is_dashless s ≡ true) × ((trim s ≡ s) × (pad s ≡ s))

module _ (a b c d e : Char) where
  IsClock-is_time : is_time (a ∷ b ∷ c ∷ d ∷ e ∷ []) ≡ true → IsClock a b c d e
  unfolding is_time is_digit
  IsClock-is_time h = ground arith

  module _ (t : IsClock a b c d e) where
    clock_dashless : is_dashless (a ∷ b ∷ c ∷ d ∷ e ∷ []) ≡ true
    unfolding is_dashless is_digit
    clock_dashless = ground arith

    trim_clock : trim (a ∷ b ∷ c ∷ d ∷ e ∷ []) ≡ a ∷ b ∷ c ∷ d ∷ e ∷ []
    unfolding trim trim_start trim_end
    trim_clock = rw (digit_not_space a t.hour) (
        rw (digit_not_space b t.hour_low) (
          rw (colon_not_space c t.between) (
            rw (digit_not_space d t.minute)
              (rw (digit_not_space e t.minute_low) (rw (digit_not_space a t.hour) refl)))))

    pad_clock : pad (a ∷ b ∷ c ∷ d ∷ e ∷ []) ≡ a ∷ b ∷ c ∷ d ∷ e ∷ []
    unfolding pad after_hours lead padded pad_two ends
    pad_clock = rw (t.hour) (
        rw (t.hour_low) (
          rw t.between (
            rw t.minute (
              rw t.minute_low (
                simp (cons-append, nil-append, colon-append)
                  (ap (λ x. a ∷ b ∷ x ∷ d ∷ e ∷ [])
                    (Char-path colon_char c (ground (arith, t.between)))))))))

IsKept-is_time : (s : String) → is_time s ≡ true → IsKept s
unfolding is_time
IsKept-is_time [] h = cc
IsKept-is_time (a ∷ []) h = cc
IsKept-is_time (a ∷ b ∷ []) h = cc
IsKept-is_time (a ∷ b ∷ c ∷ []) h = cc
IsKept-is_time (a ∷ b ∷ c ∷ d ∷ []) h = cc
IsKept-is_time (a ∷ b ∷ c ∷ d ∷ e ∷ []) h =
    let t = IsClock-is_time a b c d e h in
    (clock_dashless a b c d e t, (trim_clock a b c d e t, pad_clock a b c d e t))
IsKept-is_time (a ∷ b ∷ c ∷ d ∷ e ∷ f ∷ s) h = cc

pub trim_time : (s : String) → is_time s ≡ true → trim s ≡ s
trim_time s h = (IsKept-is_time s h).1.0

-- A range put together from two times splits into the two.
pub split_range_of_times :
    (start end : String)
    → is_time start ≡ true
    → is_time end ≡ true
    → split_range (start <> ("-" <> end)) ≡ (start, end)
unfolding split_range
split_range_of_times start end h k =
    let (dashless, (trimmed, padded)) = IsKept-is_time start h in
    let (dashless', (trimmed', padded')) = IsKept-is_time end k in
    rw (piece-append start end dashless) (
      rw (after_dash-append start end dashless)
        (rw (piece_whole end dashless') (rw trimmed (rw trimmed' (rw padded (rw padded' refl))))))
