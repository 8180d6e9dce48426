-- ===== src/Charging/Actions.antt =====
-- pages/charging/ChargingModals.tsx: the form that starts a charge from afar, and the one that reviews a charge.
-- The select names a connector by its number.
use mathlib.Core.Path.{subst}
use zhiyuche.Common.{
  ℕ, String, Bool, true, false, not, ◌&&◌, ◌||◌, Option, none, some, some-injective, List, [], ◌∷◌,
  ◌==◌, eqb, ◌≡◌, refl, arith, inl, inr, Bool-cases, if◌then◌else◌,
}
use zhiyuche.Common.Text.{trim}
use zhiyuche.Session.{truthy}
use zhiyuche.Forms.{or_blank, is_some}
use zhiyuche.Charging.{connector_style}

pub record Connector : Type 0 where
  pub connector_id : ℕ
  pub status : String
  pub has_transaction : Bool

pub record Pile : Type 0 where
  pub online : Bool
  pub connectors : List Connector

-- The test of `startable`, and of an option that can be chosen.
unfoldable pub is_startable : Connector → Bool
unfolding connector_style
is_startable c = (connector_style c.status).startable && not c.has_transaction

-- `startable.some((c) => c.connector_id === id)`
unfoldable pub starts : ℕ → List Connector → Bool
unfolding is_startable
starts id [] = false
starts id (c ∷ cs) = (is_startable c && eqb c.connector_id id) || starts id cs

unfoldable pub first_startable : List Connector → Option ℕ
unfolding is_startable
first_startable [] = none
first_startable (c ∷ cs) =
    let rest = first_startable cs in if is_startable c then some c.connector_id else rest

-- `initial`, of a connector that was asked for
unfoldable pub initial_connector : Option ℕ → Pile → Option ℕ
unfolding starts first_startable
initial_connector none p = first_startable p.connectors
initial_connector (some id) p =
    let first = first_startable p.connectors in if starts id p.connectors then some id else first

-- A choice of the select, whose other options are disabled.
unfoldable pub choose : Pile → ℕ → Option ℕ → Option ℕ
unfolding starts
choose p id before = if starts id p.connectors then some id else before

unfoldable pub choose_all : Pile → List ℕ → Option ℕ → Option ℕ
unfolding choose
choose_all p [] before = before
choose_all p (id ∷ ids) before = choose_all p ids (choose p id before)

pub record StartBody : Type 0 where
  pub connector_id : ℕ
  pub id_tag : Option String
  pub vehicle_id : Option String

-- The request of the button, which is `disabled` for a pile that is offline or has nothing to start.
unfoldable pub start_body : Pile → Option ℕ → String → String → Option StartBody
unfolding first_startable
start_body p none id_tag vehicle_id = none
start_body p (some id) id_tag vehicle_id =
    if not p.online || not (is_some (first_startable p.connectors))
    then none
    else some (record {
      connector_id = id;
      id_tag = truthy (some (trim id_tag));
      vehicle_id = truthy (some vehicle_id);
    })

pub data ReviewAction : Type 0 where
  approve : ReviewAction
  reject : ReviewAction

abbrev pub is_approval : ReviewAction → Bool
is_approval approve = true
is_approval reject = false

pub record ReviewBody : Type 0 where
  pub note : Option String
  pub vehicle_id : Option String
  pub user_id : Option String

-- What is sent of a choice: only with an approval, where it is another and not blank.
unfoldable pub sent_choice : ReviewAction → String → Option String → Option String
sent_choice action now before =
    if is_approval action && not (now == or_blank before) then truthy (some now) else none

-- The body of a review, of the identifiers that are chosen and those of the charge.
unfoldable pub review_body :
    ReviewAction → String → String → Option String → Option String → Option String → ReviewBody
unfolding sent_choice
review_body action note vehicle_id vehicle user user_before = record {
  note = truthy (some (trim note));
  vehicle_id = sent_choice action vehicle_id vehicle;
  user_id =
      if is_approval action && not (or_blank user == or_blank user_before) then user else none;
}

-- `approveDisabled`
unfoldable pub approve_disabled : String → Option String → Bool
approve_disabled vehicle_id vehicle = vehicle_id == "" && not (is_some vehicle)

-- A connector that is chosen, if any is, can be started.
abbrev Startable : Pile → Option ℕ → Type 0
Startable p none = Unit
Startable p (some id) = starts id p.connectors ≡ true

first_startable-starts :
    (cs : List Connector) (id : ℕ) → first_startable cs ≡ some id → starts id cs ≡ true
unfolding first_startable starts
first_startable-starts [] id h = cc h
first_startable-starts (c ∷ cs) id h = elim (Bool-cases (is_startable c)) [
  | inl can ↦
      let first : some c.connector_id ≡ some id = ground (arith, h, can) in
      let same : c.connector_id ≡ id = some-injective c.connector_id id first in
      ground (arith, can, same)
  | inr cannot ↦ ground (arith, cannot, first_startable-starts cs id (ground (arith, h, cannot)))
]

first_startable-Startable :
    (p : Pile) (o : Option ℕ) → first_startable p.connectors ≡ o → Startable p o
first_startable-Startable p none h = tt
first_startable-Startable p (some id) h = first_startable-starts p.connectors id h

initial_connector-Startable :
    (p : Pile) (asked : Option ℕ) → Startable p (initial_connector asked p)
unfolding initial_connector
initial_connector-Startable p none = first_startable-Startable p (first_startable p.connectors) refl
initial_connector-Startable p (some id) = elim (Bool-cases (starts id p.connectors)) [
  | inl can ↦ rw (can, Startable) can
  | inr cannot ↦
      rw (cannot, Startable) (first_startable-Startable p (first_startable p.connectors) refl)
]

choose_all-Startable :
    (p : Pile) (ids : List ℕ) (before : Option ℕ)
    → Startable p before
    → Startable p (choose_all p ids before)
unfolding choose_all choose
choose_all-Startable p [] before h = h
choose_all-Startable p (id ∷ ids) before h = elim (Bool-cases (starts id p.connectors)) [
  | inl can ↦ rw can (choose_all-Startable p ids (some id) can)
  | inr cannot ↦ rw cannot (choose_all-Startable p ids before h)
]

-- A request can only name a connector that was chosen.
start_body-Startable :
    (p : Pile) (o : Option ℕ) (id_tag vehicle_id : String) (b : StartBody)
    → Startable p o
    → start_body p o id_tag vehicle_id ≡ some b
    → (p.online ≡ true) × (starts b.connector_id p.connectors ≡ true)
unfolding start_body
start_body-Startable p none id_tag vehicle_id b h e = cc e
start_body-Startable p (some id) id_tag vehicle_id b h e =
    elim (Bool-cases (not p.online || not (is_some (first_startable p.connectors)))) [
      | inl off ↦ let nothing : none ≡ some b = ground (arith, e, off) in cc nothing
      | inr on ↦
          let sent : StartBody = record {
            connector_id = id;
            id_tag = truthy (some (trim id_tag));
            vehicle_id = truthy (some vehicle_id);
          } in
          let same : some sent ≡ some b = ground (arith, e, on) in
          (
            ground (arith, on),
            subst (λ body. starts body.connector_id p.connectors ≡ true)
                (some-injective sent b same) h,
          )
    ]

-- Whatever connector was asked for, and whatever is chosen after it: a charge is started only at a pile that is
-- online, and only at a connector of it that can be started, with no charge going on.
pub start_body-IsStartable :
    (p : Pile) (asked : Option ℕ) (ids : List ℕ) (id_tag vehicle_id : String) (b : StartBody)
    → start_body p (choose_all p ids (initial_connector asked p)) id_tag vehicle_id ≡ some b
    → (p.online ≡ true) × (starts b.connector_id p.connectors ≡ true)
start_body-IsStartable p asked ids id_tag vehicle_id b e =
    start_body-Startable p (choose_all p ids (initial_connector asked p)) id_tag vehicle_id b
      (choose_all-Startable p ids (initial_connector asked p) (initial_connector-Startable p asked))
      e
