-- ===== src/Trips/Cost.antt =====
-- pages/trips/costDetail.ts: the cost of a trip, read leniently from what the interface stored. A line or
-- a document that is an array has no keys, so it reads as one that is no object.
pub mod Laws
use zhiyuche.Common.{
  String, Bool, false, Option, none, some, List, [], ◌∷◌, ◌++◌, ◌==◌, any, if◌then◌else◌,
}
use zhiyuche.Common.Json.{Json, Fields, Items, arr, member, as_num, as_str, as_obj, as_bool}
use zhiyuche.Common.Number.{Number}
use zhiyuche.Session.{truthy}
use zhiyuche.Forms.{or_blank}

-- The keys of `KIND_SET`.
abbrev pub kinds : List String
kinds = "base" ∷ "multiplier" ∷ "cap" ∷ "surcharge" ∷ "electricity" ∷ "penalty" ∷ []

-- The names that `in` finds in any object.
abbrev pub inherited : List String
inherited =
    "constructor" ∷ "toString" ∷ "toLocaleString" ∷ "valueOf" ∷ "hasOwnProperty" ∷ "isPrototypeOf"
    ∷ "propertyIsEnumerable" ∷ "__proto__" ∷ "__defineGetter__" ∷ "__defineSetter__"
    ∷ "__lookupGetter__" ∷ "__lookupSetter__" ∷ []

-- `v in KIND_SET`
unfoldable pub is_kind : String → Bool
is_kind v = any (λ k. k == v) (kinds ++ inherited)

unfoldable pub kind_or_base : Option String → String
unfolding is_kind
kind_or_base none = "base"
kind_or_base (some v) = if is_kind v then v else "base"

abbrev pub is_true : Option Bool → Bool
is_true none = false
is_true (some b) = b

module _ (number : Number) where
  open number use {Carrier, of_ℕ, plus, is_finite}

  abbrev pub Value : Type 0
  Value = Json Carrier

  pub record CostLine : Type 0 where
    pub item : String
    pub kind : String
    pub qty : Carrier
    pub unit : String
    pub unit_price : Carrier
    pub amount : Carrier
    pub note : Option String

  pub record CostDetail : Type 0 where
    pub rule_name : String
    pub lines : List CostLine
    pub base : Carrier
    pub multiplier : Carrier
    pub cap_applied : Bool
    pub surcharge : Carrier
    pub electricity : Carrier
    pub penalty : Carrier
    pub total : Carrier
    pub attribution : String

  -- `isNum(v)`, with the number.
  unfoldable pub finite_in : Option Carrier → Option Carrier
  finite_in none = none
  finite_in (some n) = if is_finite n then some n else none

  unfoldable pub num_of : String → Fields Carrier → Option Carrier
  unfolding finite_in
  num_of k fs = finite_in (as_num (member k fs))

  abbrev pub num_or : Carrier → Option Carrier → Carrier
  num_or other none = other
  num_or other (some n) = n

  unfoldable pub cost_line : Fields Carrier → String → Carrier → CostLine
  unfolding num_of kind_or_base
  cost_line x item amount = record {
    item = item;
    kind = kind_or_base (as_str (member "kind" x));
    qty = num_or (of_ℕ 0) (num_of "qty" x);
    unit = or_blank (as_str (member "unit" x));
    unit_price = num_or (of_ℕ 0) (num_of "unit_price" x);
    amount = amount;
    note = truthy (as_str (member "note" x));
  }

  line_of : Fields Carrier → Option String → Option Carrier → Option CostLine
  unfolding cost_line
  line_of x none amount = none
  line_of x (some item) none = none
  line_of x (some item) (some amount) = some (cost_line x item amount)

  line_in : Option (Fields Carrier) → Option CostLine
  unfolding line_of num_of
  line_in none = none
  line_in (some x) = line_of x (as_str (member "item" x)) (num_of "amount" x)

  push : Option CostLine → List CostLine → List CostLine
  push none lines = lines
  push (some l) lines = l ∷ lines

  -- The loop over the lines.
  unfoldable pub read_lines : Items Carrier → List CostLine
  unfolding line_in push
  read_lines Items.nil = []
  read_lines (Items.cons v vs) = push (line_in (as_obj (some v))) (read_lines vs)

  lines_in : Option Value → List CostLine
  unfolding read_lines
  lines_in (some (arr vs)) = read_lines vs
  lines_in _ = []

  -- `lines.reduce((s, l) => s + l.amount, s)`
  unfoldable pub sum_from : Carrier → List CostLine → Carrier
  sum_from s [] = s
  sum_from s (l ∷ ls) = sum_from (plus s l.amount) ls

  detail : Fields Carrier → List CostLine → Carrier → CostDetail
  unfolding num_of
  detail r lines total = record {
    rule_name = or_blank (as_str (member "rule_name" r));
    lines = lines;
    base = num_or (of_ℕ 0) (num_of "base" r);
    multiplier = num_or (of_ℕ 1) (num_of "multiplier" r);
    cap_applied = is_true (as_bool (member "cap_applied" r));
    surcharge = num_or (of_ℕ 0) (num_of "surcharge" r);
    electricity = num_or (of_ℕ 0) (num_of "electricity" r);
    penalty = num_or (of_ℕ 0) (num_of "penalty" r);
    total = total;
    attribution = or_blank (as_str (member "attribution" r));
  }

  totalled : Fields Carrier → List CostLine → Option Carrier → Option CostDetail
  unfolding detail sum_from
  totalled r [] none = none
  totalled r [] (some total) = some (detail r [] total)
  totalled r (l ∷ ls) total = some (detail r (l ∷ ls) (num_or (sum_from (of_ℕ 0) (l ∷ ls)) total))

  detail_in : Option (Fields Carrier) → Option CostDetail
  unfolding totalled lines_in num_of
  detail_in none = none
  detail_in (some r) = totalled r (lines_in (member "lines" r)) (num_of "total" r)

  -- `parseCostDetail`
  unfoldable pub parse_cost_detail : Value → Option CostDetail
  unfolding detail_in
  parse_cost_detail raw = detail_in (as_obj (some raw))
