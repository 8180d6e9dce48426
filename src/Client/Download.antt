-- ===== src/Client/Download.antt =====
-- api/client.ts: the name of a downloaded file, the parameters of a query, and the text of an error.
pub mod Laws
use Prim.Native.Char.{code}
use zhiyuche.Common.{
  ℕ, ◌+◌, String, Bool, true, false, not, ◌&&◌, ◌||◌, Option, none, some, List, [], ◌∷◌, ◌==◌, leb,
  eqb, if◌then◌else◌,
}
use zhiyuche.Common.Json
use zhiyuche.Common.Json.{Json, str}
use zhiyuche.Session.{truthy}

abbrev semicolon : ℕ
semicolon = 59

abbrev quote : ℕ
quote = 34

-- A letter of A to Z as the one of a to z.
unfoldable pub folded : ℕ → ℕ
folded c = if leb 65 c && leb c 90 then c + 32 else c

-- The rest after a pattern at the start, whatever the case of its letters.
unfoldable pub after : String → String → Option String
unfolding folded
after String.[] s = some s
after (String.◌∷◌ p ps) String.[] = none
after (String.◌∷◌ p ps) (String.◌∷◌ c s) =
    let rest = after ps s in if eqb (folded (code p)) (folded (code c)) then rest else none

-- The longest start whose characters pass.
unfoldable pub take_while : (ℕ → Bool) → String → String
take_while p String.[] = String.[]
take_while p (String.◌∷◌ c s) =
    let rest = take_while p s in if p (code c) then String.◌∷◌ c rest else String.[]

unfoldable pub non_empty : String → Option String
non_empty String.[] = none
non_empty (String.◌∷◌ c s) = some (String.◌∷◌ c s)

abbrev pub is_value : ℕ → Bool
is_value c = not (eqb c semicolon)

abbrev pub is_plain : ℕ → Bool
is_plain c = not (eqb c semicolon || eqb c quote)

unfoldable pub drop_quote : String → String
drop_quote String.[] = String.[]
drop_quote (String.◌∷◌ c s) = if eqb (code c) quote then s else String.◌∷◌ c s

-- The group of the two expressions, matched at the start.
unfoldable pub value_in : Option String → Option String
unfolding take_while non_empty
value_in none = none
value_in (some rest) = non_empty (take_while is_value rest)

unfoldable pub utf8_at : String → Option String
unfolding after value_in
utf8_at s = value_in (after "filename*=UTF-8''" s)

unfoldable pub plain_in : Option String → Option String
unfolding take_while non_empty drop_quote
plain_in none = none
plain_in (some rest) = non_empty (take_while is_plain (drop_quote rest))

unfoldable pub plain_at : String → Option String
unfolding after plain_in
plain_at s = plain_in (after "filename=" s)

abbrev or_later : Option String → Option String → Option String
or_later none later = later
or_later (some m) later = some m

-- `exec`: the first place where there is a match.
unfoldable pub first_match : (String → Option String) → String → Option String
first_match match_at String.[] = match_at String.[]
first_match match_at (String.◌∷◌ c s) =
    or_later (match_at (String.◌∷◌ c s)) (first_match match_at s)

-- `filenameFromDisposition`; `decode` stands for `decodeURIComponent`, `none` where it throws.
unfoldable pub decoded : (String → Option String) → String → Option String → Option String
unfolding first_match plain_at
decoded decode header none = first_match plain_at header
decoded decode header (some encoded) = decode encoded

unfoldable pub name_in : (String → Option String) → Option String → Option String
unfolding first_match utf8_at decoded
name_in decode none = none
name_in decode (some header) = decoded decode header (first_match utf8_at header)

unfoldable pub filename_from_disposition : (String → Option String) → Option String → Option String
unfolding name_in
filename_from_disposition decode header = name_in decode (truthy header)

-- The name under which `download` gives the file.
unfoldable pub download_name : (String → Option String) → String → Option String → String
unfolding filename_from_disposition
download_name decode fallback disposition = elim (filename_from_disposition decode disposition) [
  | none ↦ fallback
  | some name ↦ name
]

-- A value that is left out of a query: `undefined`, `null` and the blank text.
abbrev pub is_left_out : {N : Type 0} → Option (Json N) → Bool
is_left_out none = true
is_left_out (some Json.null) = true
is_left_out (some (str s)) = s == ""
is_left_out (some _) = false

-- `compactParams` of the entries of an object.
unfoldable pub compact_params :
    {N : Type 0} → List (String × Option (Json N)) → List (String × Option (Json N))
compact_params [] = []
compact_params ((k, v) ∷ ps) =
    let rest = compact_params ps in if is_left_out v then rest else (k, v) ∷ rest

-- `errorMessage`; what was thrown has a message where it is an `Error`.
unfoldable pub error_message : String → Option String → String
error_message fallback message = elim (truthy message) [ none ↦ fallback | some m ↦ m ]
