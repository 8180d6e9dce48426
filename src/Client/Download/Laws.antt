-- ===== src/Client/Download/Laws.antt =====
-- The name of a file that a server sends encoded is read back.
use Prim.Native.Char.{Char, code}
use text.Mathlib.TextLemmas.{nil-append, cons-append}
use zhiyuche.Common.{
  ℕ, zero, suc, ◌≤◌, String, ◌<>◌, Bool, true, false, not, Option, none, some, ◌==◌, eqb, ◌≡◌, refl,
  ap, ◌∙◌, arith, inl, inr, Bool-cases, eq_iff,
}
use zhiyuche.Forms.{each}
use zhiyuche.Session.{truthy}
use zhiyuche.Client.Download.{
  folded, after, take_while, non_empty, is_value, value_in, decoded, name_in, first_match, utf8_at,
  filename_from_disposition,
}

after-append : (p s : String) → after p (p <> s) ≡ some s
unfolding after
after-append String.[] s = ap (after String.[]) (nil-append s)
after-append (String.◌∷◌ c p) s =
    ap (after (String.◌∷◌ c p)) (cons-append c p s) ∙ ground (arith, after-append p s)

take_while-append :
    (p : ℕ → Bool) (s t : String)
    → each p s ≡ true
    → take_while p t ≡ ""
    → take_while p (s <> t) ≡ s
unfolding take_while each
take_while-append p String.[] t h k = ap (take_while p) (nil-append t) ∙ k
take_while-append p (String.◌∷◌ c s) t h k =
    let passes : p (code c) ≡ true = ground (arith, h) in
    ap (take_while p) (cons-append c s t)
    ∙ rw passes (ap (λ l. String.◌∷◌ c l) (take_while-append p s t (ground (arith, h)) k))

abbrev star : ℕ
star = 42

abbrev pub is_no_star : ℕ → Bool
is_no_star c = not (eqb c star)

-- The character at a position, if there is one, is not a star; there is one, and it is not a star; it is a star.
abbrev NoStarAt : ℕ → String → Type 0
NoStarAt n String.[] = Unit
NoStarAt zero (String.◌∷◌ c s) = is_no_star (code c) ≡ true
NoStarAt (suc n) (String.◌∷◌ c s) = NoStarAt n s

abbrev OtherAt : ℕ → String → Type 0
OtherAt n String.[] = ⊥
OtherAt zero (String.◌∷◌ c s) = is_no_star (code c) ≡ true
OtherAt (suc n) (String.◌∷◌ c s) = OtherAt n s

abbrev StarAt : ℕ → String → Type 0
StarAt n String.[] = ⊥
StarAt zero (String.◌∷◌ c s) = code c ≡ star
StarAt (suc n) (String.◌∷◌ c s) = StarAt n s

after-StarAt : (n : ℕ) (p s : String) → StarAt n p → NoStarAt n s → after p s ≡ none
unfolding after folded
after-StarAt n String.[] s is other = elim is [ ]
after-StarAt n (String.◌∷◌ q p) String.[] is other = refl
after-StarAt zero (String.◌∷◌ q p) (String.◌∷◌ c s) is other =
    let apart : eqb (folded (code q)) (folded (code c)) ≡ false = ground (arith, is, other) in
    rw apart refl
after-StarAt (suc n) (String.◌∷◌ q p) (String.◌∷◌ c s) is other =
    ground (arith, after-StarAt n p s is other)

append-OtherAt : (n : ℕ) (p s : String) → OtherAt n p → NoStarAt n (p <> s)
append-OtherAt n String.[] s other = elim other [ ]
append-OtherAt zero (String.◌∷◌ c p) s other = rw (cons-append c p s, NoStarAt) other
append-OtherAt (suc n) (String.◌∷◌ c p) s other =
    rw (cons-append c p s, NoStarAt) (append-OtherAt n p s other)

-- The eight letters before the star.
letter_at : (n : ℕ) → n ≤ 7 → OtherAt n "filename*=UTF-8''"
letter_at zero h = refl
letter_at (suc zero) h = refl
letter_at (suc (suc zero)) h = refl
letter_at (suc (suc (suc zero))) h = refl
letter_at (suc (suc (suc (suc zero)))) h = refl
letter_at (suc (suc (suc (suc (suc zero))))) h = refl
letter_at (suc (suc (suc (suc (suc (suc zero)))))) h = refl
letter_at (suc (suc (suc (suc (suc (suc (suc zero))))))) h = refl
letter_at (suc (suc (suc (suc (suc (suc (suc (suc n)))))))) h =
    let beyond : ⊥ = omega arith in elim beyond [ ]

-- Up to eight characters from any place before the encoded name no star is reached.
before-NoStarAt :
    (n : ℕ) (before s : String)
    → n ≤ 7
    → each is_no_star before ≡ true
    → NoStarAt n (before <> ("filename*=UTF-8''" <> s))
unfolding each
before-NoStarAt n String.[] s h plain =
    rw (nil-append ("filename*=UTF-8''" <> s), NoStarAt)
      (append-OtherAt n "filename*=UTF-8''" s (letter_at n h))
before-NoStarAt zero (String.◌∷◌ c before) s h plain =
    rw (cons-append c before ("filename*=UTF-8''" <> s), NoStarAt) (ground (arith, plain))
before-NoStarAt (suc n) (String.◌∷◌ c before) s h plain =
    rw (cons-append c before ("filename*=UTF-8''" <> s), NoStarAt)
      (before-NoStarAt n before s (omega arith) (ground (arith, plain)))

not_at :
    (c : Char) (before s : String)
    → each is_no_star before ≡ true
    → utf8_at (String.◌∷◌ c (before <> ("filename*=UTF-8''" <> s))) ≡ none
unfolding utf8_at value_in
not_at c before s plain = ap value_in (
    after-StarAt 8 "filename*=UTF-8''" (String.◌∷◌ c (before <> ("filename*=UTF-8''" <> s))) refl
      (before-NoStarAt 7 before s (omega arith) plain))

at_once : (s name : String) → utf8_at s ≡ some name → first_match utf8_at s ≡ some name
unfolding first_match
at_once String.[] name found = found
at_once (String.◌∷◌ c s) name found = rw found refl

skipped :
    (before s name : String)
    → each is_no_star before ≡ true
    → utf8_at ("filename*=UTF-8''" <> s) ≡ some name
    → first_match utf8_at (before <> ("filename*=UTF-8''" <> s)) ≡ some name
unfolding first_match each
skipped String.[] s name h found =
    ap (first_match utf8_at) (nil-append ("filename*=UTF-8''" <> s))
    ∙ at_once ("filename*=UTF-8''" <> s) name found
skipped (String.◌∷◌ c before) s name h found =
    ap (first_match utf8_at) (cons-append c before ("filename*=UTF-8''" <> s))
    ∙ rw (not_at c before s (ground (arith, h))) (skipped before s name (ground (arith, h)) found)

non_empty_given : (s : String) → (s == "") ≡ false → non_empty s ≡ some s
unfolding non_empty
non_empty_given String.[] h = cc h
non_empty_given (String.◌∷◌ c s) h = refl

nothing_there : first_match utf8_at "" ≡ none
unfolding first_match utf8_at after
nothing_there = refl

is_given : (s name : String) → first_match utf8_at s ≡ some name → (s == "") ≡ false
is_given s name found = elim (Bool-cases (s == "")) [
  | inl blank ↦ cc (found, nothing_there, (eq_iff s "").0 blank)
  | inr given ↦ given
]

found_at :
    (enc tail : String)
    → (enc == "") ≡ false
    → each is_value enc ≡ true
    → take_while is_value tail ≡ ""
    → utf8_at ("filename*=UTF-8''" <> (enc <> tail)) ≡ some enc
unfolding utf8_at value_in
found_at enc tail some_name plain ended =
    ap value_in (after-append "filename*=UTF-8''" (enc <> tail))
    ∙ (ap non_empty (take_while-append is_value enc tail plain ended)
        ∙ non_empty_given enc some_name)

-- A header with an encoded name, before which there is no star, as where the name stands first in plain
-- form (`attachment; filename="r.csv"; filename*=UTF-8''r.csv`): the encoded name is what is decoded and given,
-- if it has at least one character and no semicolon, and ends the header or is followed by a semicolon.
pub filename_from_disposition_lem :
    (decode : String → Option String) (before enc tail : String)
    → each is_no_star before ≡ true
    → (enc == "") ≡ false
    → each is_value enc ≡ true
    → take_while is_value tail ≡ ""
    → filename_from_disposition decode (some (before <> ("filename*=UTF-8''" <> (enc <> tail))))
      ≡ decode enc
unfolding filename_from_disposition name_in decoded
filename_from_disposition_lem decode before enc tail other some_name plain ended =
    let h = before <> ("filename*=UTF-8''" <> (enc <> tail)) in
    let found : first_match utf8_at h ≡ some enc =
      skipped before (enc <> tail) enc other (found_at enc tail some_name plain ended) in
    let header : truthy (some h) ≡ some h = rw (is_given h enc found) refl in
    ap (name_in decode) header ∙ ap (decoded decode h) found
