-- ===== src/Forms.antt =====
-- What the forms of several pages share: keys of an update that are sent where they changed, texts that
-- are tested by their characters, and numbers read from inputs.
pub mod Laws
use Prim.Native.Char.{code}
use zhiyuche.Common.{
  ℕ, ◌+◌, String, Bool, true, false, ◌&&◌, ◌||◌, Option, none, some, ◌==◌, leb, eqb, if◌then◌else◌,
}
use zhiyuche.Common.Number.{Number}
use zhiyuche.Common.Text.{trim}

abbrev pub or_blank : Option String → String
or_blank none = ""
or_blank (some s) = s

abbrev pub is_some {ℓ} : {A : Type ℓ} → Option A → Bool
is_some none = false
is_some (some a) = true

-- `if (now !== before) body.key = now`
unfoldable pub changed : String → String → Option String
changed now before = if now == before then none else some now

-- `if (now !== before) { if (now) ...; else body.clear = true }`: the new one, and the flag.
unfoldable pub changed_link : String → String → Option String × Bool
changed_link now before =
    if now == before then (none, false) else (if now == "" then (none, true) else (some now, false))

-- The department: `null` and blank both clear one that was there.
unfoldable pub changed_dept : Option String → Option String → Option String × Bool
unfolding changed_link
changed_dept none none = (none, false)
changed_dept none (some before) = (none, true)
changed_dept (some now) none = if now == "" then (none, true) else (some now, false)
changed_dept (some now) (some before) = changed_link now before

-- `if (now && now !== before) body.key = now`
unfoldable pub changed_some : String → String → Option String
unfolding changed
changed_some now before = if now == "" then none else changed now before

unfoldable pub is_upper : ℕ → Bool
is_upper c = leb 65 c && leb c 90

unfoldable pub is_lower : ℕ → Bool
is_lower c = leb 97 c && leb c 122

-- Every character, and some character, passes.
unfoldable pub each : (ℕ → Bool) → String → Bool
each p String.[] = true
each p (String.◌∷◌ c s) = p (code c) && each p s

unfoldable pub one_of : (ℕ → Bool) → String → Bool
one_of p String.[] = false
one_of p (String.◌∷◌ c s) = p (code c) || one_of p s

module _ (number : Number) where
  open number use {Carrier, is_finite, parse, eqn}

  -- `numberOrUndefined`
  unfoldable pub number_or_undefined : String → Option Carrier
  number_or_undefined v =
      if trim v == ""
      then none
      else (if is_finite (parse (trim v)) then some (parse (trim v)) else none)

  -- `if (now !== undefined && now !== before) body.key = now`
  unfoldable pub changed_number : Option Carrier → Carrier → Option Carrier
  changed_number none before = none
  changed_number (some now) before = if eqn now before then none else some now
