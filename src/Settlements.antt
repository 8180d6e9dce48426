-- ===== src/Settlements.antt =====
-- pages/billing/settlements/print.ts: the lines of a settlement in groups, and the escape of texts for HTML.
-- `leq a b` stands for `a.localeCompare(b) <= 0`.
pub mod Groups
pub mod Laws
pub mod Print
pub mod Style
use Prim.Native.Char.{Char, code}
use zhiyuche.Common.{
  ℕ, String, ◌<>◌, Bool, true, false, not, Option, none, some, List, [], ◌∷◌, filter, map, eqb,
  if◌then◌else◌,
}
use zhiyuche.Common.Number.{Number}

pub data LineKind : Type 0 where
  trip : LineKind
  charge : LineKind
  penalty : LineKind

abbrev pub same_kind : LineKind → LineKind → Bool
same_kind trip trip = true
same_kind charge charge = true
same_kind penalty penalty = true
same_kind _ _ = false

-- `KIND_ORDER`
abbrev pub kind_order : List LineKind
kind_order = trip ∷ charge ∷ penalty ∷ []

-- The entry of a character in a table, if it has one.
unfoldable pub entry : ℕ → List (ℕ × String) → Option String
entry c [] = none
entry c ((d, e) ∷ table) = let rest = entry c table in if eqb c d then some e else rest

-- The characters that are replaced, and their entities.
abbrev pub entities : List (ℕ × String)
entities = (38, "&amp;") ∷ (60, "&lt;") ∷ (62, "&gt;") ∷ (34, "&quot;") ∷ (39, "&#39;") ∷ []

abbrev pub replaced : Char → String → Option String → String
replaced c rest none = String.◌∷◌ c rest
replaced c rest (some e) = e <> rest

-- `esc` of a text.
unfoldable pub esc : String → String
unfolding entry
esc String.[] = ""
esc (String.◌∷◌ c s) = replaced c (esc s) (entry (code c) entities)

module _ (number : Number) where
  open number use {Carrier, of_ℕ, plus}

  pub record Line : Type 0 where
    pub kind : LineKind
    pub ref_no : Option String
    pub ref_id : String
    pub occurred_at : String
    pub user_name : Option String
    pub vehicle_plate : Option String
    pub quantity : Option Carrier
    pub amount : Carrier

  pub record Group : Type 0 where
    pub kind : LineKind
    pub lines : List Line
    pub subtotal : Carrier

  -- `sort`, which keeps the order of lines that are equal in it.
  unfoldable pub insert : (String → String → Bool) → Line → List Line → List Line
  insert leq l [] = l ∷ []
  insert leq l (m ∷ ls) =
      let later = insert leq l ls in
      if leq l.occurred_at m.occurred_at then l ∷ m ∷ ls else m ∷ later

  unfoldable pub sort : (String → String → Bool) → List Line → List Line
  unfolding insert
  sort leq [] = []
  sort leq (l ∷ ls) = insert leq l (sort leq ls)

  -- `list.reduce((n, l) => n + l.amount, n)`
  unfoldable pub sum_from : Carrier → List Line → Carrier
  sum_from n [] = n
  sum_from n (l ∷ ls) = sum_from (plus n l.amount) ls

  unfoldable pub group_of : (String → String → Bool) → List Line → LineKind → Group
  unfolding sort sum_from
  group_of leq all kind =
      let list = sort leq (filter (λ l. same_kind l.kind kind) all) in
      record { kind = kind; lines = list; subtotal = sum_from (of_ℕ 0) list }

  abbrev pub has_lines : Group → Bool
  has_lines g = is_cons g.lines
    where
      is_cons : List Line → Bool
      is_cons [] = false
      is_cons (l ∷ ls) = true

  -- `groupLines`
  unfoldable pub group_lines : (String → String → Bool) → List Line → List Group
  unfolding group_of
  group_lines leq all = filter has_lines (map (group_of leq all) kind_order)
