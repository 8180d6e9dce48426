-- ===== src/Billing/Form/Fields.antt =====
-- Which texts of a penalty's row reach the document: those that the editor shows for its type, and one
-- that it does not show.
use zhiyuche.Common.{String, All, some, true, ◌≡◌, refl, ap, ◌∙◌}
use zhiyuche.Common.Number.{Number}
use zhiyuche.Billing.{
  PenaltyType, overspeed, not_charging_on_return, harsh_driving, late_return, PenaltyForm, num,
}
use zhiyuche.Billing.Form.{
  capped, penalty_of, penalty_to_doc, PenaltyField, threshold_kmh, fine_per_event, min_soc_required,
  fine, fine_per_hour, max_fine, penalty_fields,
}

abbrev pub field_text : PenaltyField → PenaltyForm → String
field_text threshold_kmh p = p.threshold_kmh
field_text fine_per_event p = p.fine_per_event
field_text min_soc_required p = p.min_soc_required
field_text fine p = p.fine
field_text fine_per_hour p = p.fine_per_hour
field_text max_fine p = p.max_fine

module _ (number : Number) where
  penalty_of_shown :
      (t : PenaltyType) (p q : PenaltyForm)
      → p.type ≡ q.type
      → All (λ f. field_text f p ≡ field_text f q) (penalty_fields t)
      → (t ≡ not_charging_on_return → p.max_fine ≡ q.max_fine)
      → penalty_of number t p ≡ penalty_of number t q
  unfolding penalty_of capped penalty_fields
  penalty_of_shown overspeed p q e h k = cc (e, h.0, h.1.0, h.1.1.0)
  penalty_of_shown not_charging_on_return p q e h k = cc (e, h.0, h.1.0, k refl)
  penalty_of_shown harsh_driving p q e h k = cc (e, h.0, h.1.0)
  penalty_of_shown late_return p q e h k = cc (e, h.0, h.1.0, h.1.1.0)

  -- Rows of one type whose shown fields hold the same texts give the same penalty; only where the type
  -- is that of a vehicle that was not charged, whose cap is not shown, the caps have to agree besides.
  pub penalty_to_doc-penalty_fields :
      (p q : PenaltyForm)
      → p.type ≡ q.type
      → All (λ f. field_text f p ≡ field_text f q) (penalty_fields p.type)
      → (p.type ≡ not_charging_on_return → p.max_fine ≡ q.max_fine)
      → penalty_to_doc number p ≡ penalty_to_doc number q
  unfolding penalty_to_doc
  penalty_to_doc-penalty_fields p q e h k =
      penalty_of_shown p.type p q e h k ∙ ap (λ t. penalty_of number t q) e

  -- Without that the cap of a row that had another type before still counts.
  hidden_cap :
      (p : PenaltyForm)
      → p.type ≡ not_charging_on_return
      → number.ltn (number.of_ℕ 0) (num number p.max_fine) ≡ true
      → (penalty_to_doc number p).max_fine ≡ some (num number p.max_fine)
  unfolding penalty_to_doc penalty_of capped
  hidden_cap p e h = rw e (rw h refl)
