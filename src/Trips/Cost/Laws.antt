-- ===== src/Trips/Cost/Laws.antt =====
-- What the reading of a cost gives: complete details only, and every complete detail that was written.
use mathlib.Core.Path.{subst}
use zhiyuche.Common.{
  String, true, Option, none, some, some-injective, List, [], ◌∷◌, ◌==◌, ◌≡◌, refl, ◌∙◌, ap, inl,
  inr, arith, Bool-cases, All,
}
use zhiyuche.Common.Json.{
  Json, Fields, Items, nil, cons, field, str, num, bool, arr, obj, end, member, as_num, as_str,
  as_obj,
}
use zhiyuche.Common.Number.{Number}
use zhiyuche.Session.{truthy}
use zhiyuche.Trips.Cost.{
  is_kind, kind_or_base, CostLine, CostDetail, Value, finite_in, num_of, num_or, cost_line, line_of,
  line_in, push, read_lines, lines_in, sum_from, detail, totalled, detail_in, parse_cost_detail,
}

truthy_idem : (s : Option String) → truthy (truthy s) ≡ truthy s
truthy_idem none = refl
truthy_idem (some s) = elim (Bool-cases (s == "")) [
  | inl empty ↦ rw empty refl
  | inr full ↦ rw full (rw full refl)
]

kind_or_base-is_kind : (k : Option String) → is_kind (kind_or_base k) ≡ true
unfolding kind_or_base is_kind
kind_or_base-is_kind none = refl
kind_or_base-is_kind (some v) = elim (Bool-cases (is_kind v)) [
  | inl known ↦ rw known known
  | inr unknown ↦ rw unknown refl
]

module _ (number : Number) where
  open number use {Carrier, of_ℕ, is_finite}

  pub record IsCompleteLine (l : CostLine number) : Type 0 where
    pub kind : is_kind l.kind ≡ true
    pub qty : is_finite l.qty ≡ true
    pub unit_price : is_finite l.unit_price ≡ true
    pub amount : is_finite l.amount ≡ true
    pub note : truthy l.note ≡ l.note

  pub record IsComplete (d : CostDetail number) : Type 0 where
    pub lines : All IsCompleteLine d.lines
    pub base : is_finite d.base ≡ true
    pub multiplier : is_finite d.multiplier ≡ true
    pub surcharge : is_finite d.surcharge ≡ true
    pub electricity : is_finite d.electricity ≡ true
    pub penalty : is_finite d.penalty ≡ true

  -- The document of a detail, as the interface stores it: without the note where there is none.
  abbrev pub note_field : Option String → Fields Carrier
  note_field none = end
  note_field (some s) = field "note" (str s) end

  abbrev pub line_json : CostLine number → Value number
  line_json l = obj (
      field "item" (str l.item) (
        field "kind" (str l.kind) (
          field "qty" (num l.qty) (
            field "unit" (str l.unit) (
              field "unit_price" (num l.unit_price)
                (field "amount" (num l.amount) (note_field l.note)))))))

  abbrev pub lines_json : List (CostLine number) → Items Carrier
  lines_json [] = nil
  lines_json (l ∷ ls) = cons (line_json l) (lines_json ls)

  abbrev pub detail_fields : CostDetail number → Fields Carrier
  detail_fields d = field "rule_name" (str d.rule_name) (
      field "lines" (arr (lines_json d.lines)) (
        field "base" (num d.base) (
          field "multiplier" (num d.multiplier) (
            field "cap_applied" (bool d.cap_applied) (
              field "surcharge" (num d.surcharge) (
                field "electricity" (num d.electricity) (
                  field "penalty" (num d.penalty) (
                    field "total" (num d.total)
                      (field "attribution" (str d.attribution) end)))))))))

  abbrev pub detail_json : CostDetail number → Value number
  detail_json d = obj (detail_fields d)

  finite_back : (n : Carrier) → is_finite n ≡ true → finite_in number (some n) ≡ some n
  unfolding finite_in
  finite_back n h = rw h refl

  note_back : (note : Option String) → as_str (member "note" (note_field note)) ≡ note
  unfolding member
  note_back none = refl
  note_back (some s) = refl

  line_back :
      (l : CostLine number)
      → IsCompleteLine l
      → line_in number (as_obj (some (line_json l))) ≡ some l
  unfolding line_in line_of cost_line num_of finite_in member kind_or_base
  line_back l h = rw h.amount (rw (h.kind, h.qty, h.unit_price, note_back l.note, h.note) refl)

  lines_back :
      (ls : List (CostLine number)) → All IsCompleteLine ls → read_lines number (lines_json ls) ≡ ls
  unfolding read_lines push
  lines_back [] h = refl
  lines_back (l ∷ ls) (here, there) = rw (line_back l here, lines_back ls there) refl

  totalled-some :
      (r : Fields Carrier) (ls : List (CostLine number)) (total : Carrier)
      → totalled number r ls (some total) ≡ some (detail number r ls total)
  unfolding totalled
  totalled-some r [] total = refl
  totalled-some r (l ∷ ls) total = refl

  detail_back :
      (d : CostDetail number) → IsComplete d → detail number (detail_fields d) d.lines d.total ≡ d
  unfolding detail num_of finite_in member
  detail_back d h = rw (h.base, h.multiplier, h.surcharge, h.electricity, h.penalty) refl

  -- A complete detail that was stored with a finite total is read as it was written.
  pub parse_cost_detail-detail_json :
      (d : CostDetail number)
      → IsComplete d
      → is_finite d.total ≡ true
      → parse_cost_detail number (detail_json d) ≡ some d
  unfolding parse_cost_detail detail_in lines_in num_of member
  parse_cost_detail-detail_json d h finite =
      rw (lines_back d.lines h.lines, finite_back d.total finite)
        (totalled-some (detail_fields d) d.lines d.total ∙ ap some (detail_back d h))

  finite_in-is_finite :
      (o : Option Carrier) (n : Carrier) → finite_in number o ≡ some n → is_finite n ≡ true
  unfolding finite_in
  finite_in-is_finite none n e = cc e
  finite_in-is_finite (some m) n e = ground (arith, e)

  finite-num_of :
      (other : Carrier) (n : Option Carrier)
      → is_finite other ≡ true
      → is_finite (num_or number other (finite_in number n)) ≡ true
  unfolding finite_in
  finite-num_of other none h = h
  finite-num_of other (some n) h = elim (Bool-cases (is_finite n)) [
    | inl finite ↦ rw finite finite
    | inr not_finite ↦ rw not_finite h
  ]

  module _ (zero_finite : is_finite (of_ℕ 0) ≡ true) (one_finite : is_finite (of_ℕ 1) ≡ true) where
    IsCompleteLine-cost_line :
        (x : Fields Carrier) (item : String) (amount : Carrier)
        → is_finite amount ≡ true
        → IsCompleteLine (cost_line number x item amount)
    unfolding cost_line num_of
    IsCompleteLine-cost_line x item amount finite = record {
      kind = kind_or_base-is_kind (as_str (member "kind" x));
      qty = finite-num_of (of_ℕ 0) (as_num (member "qty" x)) zero_finite;
      unit_price = finite-num_of (of_ℕ 0) (as_num (member "unit_price" x)) zero_finite;
      amount = finite;
      note = truthy_idem (as_str (member "note" x));
    }

    IsCompleteLine-line_of :
        (x : Fields Carrier) (item : Option String) (amount : Option Carrier) (l : CostLine number)
        → ((n : Carrier) → amount ≡ some n → is_finite n ≡ true)
        → line_of number x item amount ≡ some l
        → IsCompleteLine l
    unfolding line_of
    IsCompleteLine-line_of x none amount l h e = cc e
    IsCompleteLine-line_of x (some item) none l h e = cc e
    IsCompleteLine-line_of x (some item) (some amount) l h e =
        subst IsCompleteLine (some-injective _ _ e)
          (IsCompleteLine-cost_line x item amount (h amount refl))

    All-push :
        (l : Option (CostLine number)) (ls : List (CostLine number))
        → ((m : CostLine number) → l ≡ some m → IsCompleteLine m)
        → All IsCompleteLine ls
        → All IsCompleteLine (push number l ls)
    unfolding push
    All-push none ls h k = k
    All-push (some l) ls h k = (h l refl, k)

    All-line_in :
        (x : Option (Fields Carrier)) (l : CostLine number)
        → line_in number x ≡ some l
        → IsCompleteLine l
    unfolding line_in num_of
    All-line_in none l e = cc e
    All-line_in (some x) l e =
        IsCompleteLine-line_of x (as_str (member "item" x)) (num_of number "amount" x) l
          (finite_in-is_finite (as_num (member "amount" x))) e

    All-read_lines : (vs : Items Carrier) → All IsCompleteLine (read_lines number vs)
    unfolding read_lines
    All-read_lines nil = tt
    All-read_lines (cons v vs) =
        All-push (line_in number (as_obj (some v))) (read_lines number vs)
          (λ m e. All-line_in (as_obj (some v)) m e) (All-read_lines vs)

    All-lines_in : (v : Option (Value number)) → All IsCompleteLine (lines_in number v)
    unfolding lines_in
    All-lines_in none = tt
    All-lines_in (some (arr vs)) = All-read_lines vs
    All-lines_in (some Json.null) = tt
    All-lines_in (some (bool b)) = tt
    All-lines_in (some (num n)) = tt
    All-lines_in (some (str t)) = tt
    All-lines_in (some (obj fs)) = tt

    IsComplete-detail :
        (r : Fields Carrier) (ls : List (CostLine number)) (total : Carrier)
        → All IsCompleteLine ls
        → IsComplete (detail number r ls total)
    unfolding detail num_of
    IsComplete-detail r ls total h = record {
      lines = h;
      base = finite-num_of (of_ℕ 0) (as_num (member "base" r)) zero_finite;
      multiplier = finite-num_of (of_ℕ 1) (as_num (member "multiplier" r)) one_finite;
      surcharge = finite-num_of (of_ℕ 0) (as_num (member "surcharge" r)) zero_finite;
      electricity = finite-num_of (of_ℕ 0) (as_num (member "electricity" r)) zero_finite;
      penalty = finite-num_of (of_ℕ 0) (as_num (member "penalty" r)) zero_finite;
    }

    IsComplete-totalled :
        (r : Fields Carrier) (ls : List (CostLine number)) (total : Option Carrier)
        (d : CostDetail number)
        → All IsCompleteLine ls
        → totalled number r ls total ≡ some d
        → IsComplete d
    unfolding totalled
    IsComplete-totalled r [] none d h e = cc e
    IsComplete-totalled r [] (some total) d h e =
        subst IsComplete (some-injective _ _ e) (IsComplete-detail r [] total h)
    IsComplete-totalled r (l ∷ ls) total d h e =
        subst IsComplete (some-injective _ _ e)
          (IsComplete-detail r (l ∷ ls) (num_or number (sum_from number (of_ℕ 0) (l ∷ ls)) total) h)

    IsComplete-detail_in :
        (r : Option (Fields Carrier)) (d : CostDetail number)
        → detail_in number r ≡ some d
        → IsComplete d
    unfolding detail_in
    IsComplete-detail_in none d e = cc e
    IsComplete-detail_in (some r) d e =
        IsComplete-totalled r (lines_in number (member "lines" r)) (num_of number "total" r) d
          (All-lines_in (member "lines" r)) e

    -- Whatever was stored: a detail that is read has lines of finite numbers with a kind that is found and
    -- no blank note, and finite parts. For numbers where 0 and 1 are finite.
    pub parse_cost_detail-IsComplete :
        (raw : Value number) (d : CostDetail number)
        → parse_cost_detail number raw ≡ some d
        → IsComplete d
    unfolding parse_cost_detail
    parse_cost_detail-IsComplete raw d e = IsComplete-detail_in (as_obj (some raw)) d e
