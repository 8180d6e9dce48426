-- ===== src/Settlements/Laws.antt =====
-- The printed page has the tags of its template and no others, whatever the settlement says.
use Prim.Native.Char.{Char, code}
use mathlib.Core.Path.{subst}
use text.Mathlib.TextLemmas.{nil-append, cons-append}
use zhiyuche.Common.{
  ℕ, ◌+◌, ◌*◌, String, ◌<>◌, Bool, false, Option, none, some, List, [], ◌∷◌, length, eqb,
  if◌then◌else◌, ◌≡◌, refl, ap, ◌∙◌, inl, inr, arith, Option-cases, Bool-cases, All, some-injective,
}
use zhiyuche.Common.Dayjs.{Dayjs}
use zhiyuche.Common.Number.{Number}
use zhiyuche.Settlements.{LineKind, entry, entities, replaced, esc, Line, Group, group_lines}
use zhiyuche.Settlements.Style.{style}
use zhiyuche.Settlements.Print.{
  Status, draft, confirmed, stamp, join_all, PrintOptions, Settlement, quantity_text, line_row,
  line_rows, group_html, groups_html, detail, page_head, page_meta, page_summary,
  build_settlement_print_html,
}

-- How often `<` stands in a text, each of which opens a tag.
unfoldable pub opens : String → ℕ
opens String.[] = 0
opens (String.◌∷◌ c s) = (if eqb (code c) 60 then 1 else 0) + opens s

opens-append : (s t : String) → opens (s <> t) ≡ opens s + opens t
unfolding opens
opens-append String.[] t = ap opens (nil-append t) ∙ omega arith
opens-append (String.◌∷◌ c s) t = ap opens (cons-append c s t) ∙ omega (arith, opens-append s t)

opens-entry :
    (c : ℕ) (table : List (ℕ × String)) (e : String)
    → All (λ row. opens row.1 ≡ 0) table
    → entry c table ≡ some e
    → opens e ≡ 0
unfolding entry
opens-entry c [] e h is = cc is
opens-entry c ((d, text) ∷ table) e (here, there) is = elim (Bool-cases (eqb c d)) [
  | inl same ↦
      let first : some text ≡ some e = ground (arith, is, same) in
      subst (λ t. opens t ≡ 0) (some-injective text e first) here
  | inr other ↦ opens-entry c table e there (ground (arith, is, other))
]

entry-none : (c : ℕ) → entry c entities ≡ none → eqb c 60 ≡ false
unfolding entry
entry-none c h = ground (arith, h)

entities-clean : All (λ row. opens row.1 ≡ 0) entities
unfolding opens
entities-clean = (refl, (refl, (refl, (refl, (refl, tt)))))

esc_kept :
    (c : Char) (s : String)
    → entry (code c) entities ≡ none
    → esc (String.◌∷◌ c s) ≡ String.◌∷◌ c (esc s)
unfolding esc
esc_kept c s h = ap (replaced c (esc s)) h

esc_replaced :
    (c : Char) (s e : String) → entry (code c) entities ≡ some e → esc (String.◌∷◌ c s) ≡ e <> esc s
unfolding esc
esc_replaced c s e h = ap (replaced c (esc s)) h

opens-kept : (c : Char) (s : String) → eqb (code c) 60 ≡ false → opens (String.◌∷◌ c s) ≡ opens s
unfolding opens
opens-kept c s h = rw h (omega arith)

opens-esc : (s : String) → opens (esc s) ≡ 0
opens-esc String.[] = unfold opens esc in refl
opens-esc (String.◌∷◌ c s) = elim (Option-cases (entry (code c) entities)) [
  | inl plain ↦
      ap opens (esc_kept c s plain)
      ∙ (opens-kept c (esc s) (entry-none (code c) plain) ∙ opens-esc s)
  | inr (e, is) ↦
      ap opens (esc_replaced c s e is)
      ∙ (opens-append e (esc s)
          ∙ omega (arith, opens-entry (code c) entities e entities-clean is, opens-esc s))
]

abbrev sum_opens : List String → ℕ
sum_opens [] = 0
sum_opens (p ∷ ps) = opens p + sum_opens ps

opens-join_all : (ps : List String) → opens (join_all ps) ≡ sum_opens ps
unfolding join_all opens
opens-join_all [] = refl
opens-join_all (p ∷ ps) = opens-append p (join_all ps) ∙ ap (λ n. opens p + n) (opens-join_all ps)

opens-style : sum_opens style ≡ 3
unfolding opens
opens-style = refl

module _ (number : Number) (dayjs : Dayjs) (show_ℕ : ℕ → String)
    (locale fixed : ℕ → number.Carrier → String) (leq : String → String → Bool)
    (plain : (n : ℕ) → opens (show_ℕ n) ≡ 0) where
  opens-stamp : (status : Status) → opens (stamp status) ≡ 0
  unfolding stamp opens
  opens-stamp draft = refl
  opens-stamp confirmed = refl

  opens-quantity_text :
      (kind : LineKind) (q : Option (number.Carrier))
      → opens (quantity_text number dayjs show_ℕ locale fixed leq kind q) ≡ 0
  unfolding quantity_text
  opens-quantity_text kind none = unfold opens in refl
  opens-quantity_text kind (some q) = opens-esc _

  opens-line_row :
      (l : Line number) → sum_opens (line_row number dayjs show_ℕ locale fixed leq l) ≡ 14
  unfolding line_row
  opens-line_row l = simp (opens-esc, opens-quantity_text l.kind l.quantity) (unfold opens in refl)

  opens-line_rows :
      (ls : List (Line number))
      → opens (line_rows number dayjs show_ℕ locale fixed leq ls) ≡ 14 * length ls
  unfolding line_rows
  opens-line_rows [] = unfold opens in refl
  opens-line_rows (l ∷ ls) =
      opens-append _ _
      ∙ omega (
        arith,
        opens-join_all (line_row number dayjs show_ℕ locale fixed leq l),
        opens-line_row l,
        opens-line_rows ls,
      )

  opens-group_html :
      (g : Group number)
      → sum_opens (group_html number dayjs show_ℕ locale fixed leq g) ≡ 30 + 14 * length g.lines
  unfolding group_html
  opens-group_html g =
      simp (opens-esc, plain (length g.lines), opens-line_rows g.lines)
        (unfold opens in omega arith)

  abbrev group_tags : List (Group number) → ℕ
  group_tags [] = 0
  group_tags (g ∷ gs) = (30 + 14 * length g.lines) + group_tags gs

  -- The tags of the detail: a paragraph where there is no line, and a table for each group otherwise.
  abbrev pub detail_tags : List (Group number) → ℕ
  detail_tags [] = 2
  detail_tags (g ∷ gs) = group_tags (g ∷ gs)

  opens-groups_html :
      (gs : List (Group number))
      → opens (groups_html number dayjs show_ℕ locale fixed leq gs) ≡ group_tags gs
  unfolding groups_html
  opens-groups_html [] = unfold opens in refl
  opens-groups_html (g ∷ gs) =
      opens-append _ _
      ∙ omega (
        arith,
        opens-join_all (group_html number dayjs show_ℕ locale fixed leq g),
        opens-group_html g,
        opens-groups_html gs,
      )

  opens-detail :
      (gs : List (Group number))
      → opens (detail number dayjs show_ℕ locale fixed leq gs) ≡ detail_tags gs
  unfolding detail
  opens-detail [] = unfold opens in refl
  opens-detail (g ∷ gs) = opens-groups_html (g ∷ gs)

  module _ (s : Settlement number dayjs show_ℕ locale fixed leq) (opts : PrintOptions) where
    opens-page_head : sum_opens (page_head number dayjs show_ℕ locale fixed leq s opts) ≡ 6
    unfolding page_head
    opens-page_head = simp opens-esc (unfold opens in refl)

    opens-page_meta : sum_opens (page_meta number dayjs show_ℕ locale fixed leq s opts) ≡ 50
    unfolding page_meta
    opens-page_meta = simp (opens-esc, opens-stamp s.status) (unfold opens in refl)

    opens-page_summary :
        (now : String)
        → sum_opens (page_summary number dayjs show_ℕ locale fixed leq now s opts)
          ≡ 75 + detail_tags (group_lines number leq s.lines)
    unfolding page_summary
    opens-page_summary now =
        simp
          (
            opens-esc,
            plain s.trip_count,
            plain s.charge_count,
            opens-detail (group_lines number leq s.lines),
          )
          (unfold opens in omega arith)

    -- The page that is printed opens 134 tags, those of its template, and those of the detail, a number
    -- that follows from how many lines there are of each kind: no text of the settlement or of its lines
    -- opens a tag. For counts that are printed without tags.
    pub opens-build_settlement_print_html :
        (now : String)
        → opens (build_settlement_print_html number dayjs show_ℕ locale fixed leq now s opts)
          ≡ 134 + detail_tags (group_lines number leq s.lines)
    unfolding build_settlement_print_html
    opens-build_settlement_print_html now =
        opens-append _ _
        ∙ omega (
          arith,
          opens-append (join_all style) (
              join_all (page_meta number dayjs show_ℕ locale fixed leq s opts)
              <> join_all (page_summary number dayjs show_ℕ locale fixed leq now s opts)),
          opens-append (join_all (page_meta number dayjs show_ℕ locale fixed leq s opts))
              (join_all (page_summary number dayjs show_ℕ locale fixed leq now s opts)),
          opens-join_all (page_head number dayjs show_ℕ locale fixed leq s opts),
          opens-join_all style,
          opens-join_all (page_meta number dayjs show_ℕ locale fixed leq s opts),
          opens-join_all (page_summary number dayjs show_ℕ locale fixed leq now s opts),
          opens-style,
          opens-page_head,
          opens-page_meta,
          opens-page_summary now,
        )
