-- ===== src/Realtime/Events/Coherence.antt =====
-- After a patch every cached copy of the vehicle's state is again the one of the store.
use zhiyuche.Common.{
  String, true, false, Option, none, some, List, [], ◌∷◌, ◌++◌, map, any, ◌==◌, if◌then◌else◌, ◌≡◌,
  refl, arith, eq_iff, eq_refl, All, Bool-cases, inl, inr, Option-cases,
}
use zhiyuche.Common.Number.{Number}
use zhiyuche.Realtime.{get, Live, merge_vehicle_live, RealtimeState, upsert_vehicle}
use zhiyuche.Realtime.Laws.{over_old, get-put, get-upsert_vehicle}
use zhiyuche.Realtime.Events.{
  Vehicle, Client, names, merge_named, update_statuses, update_live, with_live, merge_vehicle,
  is_vehicle, merge_item, update_detail, update_page, set_query_data, apply_vehicle_status,
}

module _ (number : Number) where
  -- A cached vehicle shows this state, if it is this vehicle.
  abbrev pub Shows : String → Live number → Vehicle number → Type 0
  Shows id live v = v.id ≡ id → (v.live ≡ some live) × (v.status ≡ get "status" live)

  abbrev pub ShowsStatus : String → Live number → Live number → Type 0
  ShowsStatus id live v = names number id v ≡ true → v ≡ live

  abbrev pub AllRows {ℓ} : {A : Type ℓ} (P : A → Type 0) → Option (List A) → Type 0
  AllRows P none = Unit
  AllRows P (some rows) = All P rows

  -- Every cached copy of the vehicle's state is this one.
  pub record IsCoherent (id : String) (live : Live number) (w : Client number) : Type 0 where
    pub stored : get id w.store.vehicles ≡ some live
    pub in_statuses : AllRows (ShowsStatus id live) w.caches.statuses
    pub in_lives : (old : Live number) → get id w.caches.lives ≡ some old → old ≡ live
    pub in_details :
        (old : Vehicle number)
        → get id w.caches.details ≡ some old
        → (old.live ≡ some live) × (old.status ≡ get "status" live)
    pub in_pages : All (AllRows (Shows id live)) w.caches.pages

  get-set_query_data {ℓ} :
      {V : Type ℓ} (j k : String) (v : Option V) (cache : List (String × Option V))
      → get j (set_query_data number k v cache)
        ≡ (if k == j then over_old v (get j cache) else get j cache)
  unfolding set_query_data
  get-set_query_data j k none cache = ground (arith, eq_iff k j)
  get-set_query_data j k (some v) cache = ground (arith, eq_iff k j, get-put k j (some v) cache)

  module _ (now id : String) (patch live : Live number) where
    abbrev merged : Live number
    merged = merge_vehicle_live number now (some live) id patch

    statuses_merged :
        (rows : List (Live number))
        → All (ShowsStatus id live) rows
        → All (ShowsStatus id merged) (map (merge_named number now id patch) rows)
    unfolding merge_named
    statuses_merged [] h = tt
    statuses_merged (v ∷ rows) h = (λ named. ground (arith, h.0), statuses_merged rows h.1)

    statuses_new :
        (rows : List (Live number))
        → any (names number id) rows ≡ false
        → All (ShowsStatus id merged) (rows ++ merged ∷ [])
    statuses_new [] h = ((λ named. refl), tt)
    statuses_new (v ∷ rows) h = (λ named. ground arith, statuses_new rows (ground arith))

    update_statuses-AllRows :
        (rows : Option (List (Live number)))
        → AllRows (ShowsStatus id live) rows
        → AllRows (ShowsStatus id merged) (update_statuses number now id patch merged rows)
    unfolding update_statuses
    update_statuses-AllRows none h = tt
    update_statuses-AllRows (some rows) h = elim (Bool-cases (any (names number id) rows)) [
      | inl held ↦ rw held (statuses_merged rows h)
      | inr new ↦ rw new (statuses_new rows new)
    ]

    Shows-merge_item :
        (v : Vehicle number) → Shows id live v → Shows id merged (merge_item number now id patch v)
    unfolding merge_item merge_vehicle is_vehicle with_live
    Shows-merge_item v h = elim (Bool-cases (v.id == id)) [
      | inl here ↦
          let shown : v.live ≡ some live = (h (ground (arith, eq_iff v.id id))).0 in
          let both : Shows id merged (with_live number merged v) = (λ same. (refl, refl)) in
          rw here (rw shown both)
      | inr elsewhere ↦
          let other : Shows id merged v = (λ same. ground (arith, eq_iff v.id id)) in
          rw elsewhere other
    ]

    items_merged :
        (rows : List (Vehicle number))
        → All (Shows id live) rows
        → All (Shows id merged) (map (merge_item number now id patch) rows)
    items_merged [] h = tt
    items_merged (v ∷ rows) h = (Shows-merge_item v h.0, items_merged rows h.1)

    items_kept :
        (rows : List (Vehicle number))
        → any (is_vehicle number id) rows ≡ false
        → All (Shows id merged) rows
    unfolding is_vehicle
    items_kept [] h = tt
    items_kept (v ∷ rows) h =
        (λ same. ground (arith, eq_iff v.id id), items_kept rows (ground arith))

    update_page-AllRows :
        (rows : Option (List (Vehicle number)))
        → AllRows (Shows id live) rows
        → AllRows (Shows id merged) (update_page number now id patch rows)
    unfolding update_page
    update_page-AllRows none h = tt
    update_page-AllRows (some rows) h = elim (Bool-cases (any (is_vehicle number id) rows)) [
      | inl held ↦ rw held (items_merged rows h)
      | inr new ↦ rw new (items_kept rows new)
    ]

    pages_merged :
        (pages : List (Option (List (Vehicle number))))
        → All (AllRows (Shows id live)) pages
        → All (AllRows (Shows id merged)) (map (update_page number now id patch) pages)
    pages_merged [] h = tt
    pages_merged (page ∷ pages) h = (update_page-AllRows page h.0, pages_merged pages h.1)

    lives_merged :
        (lives : List (String × Option (Live number)))
        → ((old : Live number) → get id lives ≡ some old → old ≡ live)
        → (old : Live number)
        → get id (set_query_data number id (update_live number now id patch (get id lives)) lives)
          ≡ some old
        → old ≡ merged
    unfolding update_live set_query_data
    lives_merged lives h old got =
        let read =
          get-set_query_data id id (update_live number now id patch (get id lives)) lives in
        elim (Option-cases (get id lives)) [
          | inl missing ↦ ground (arith, missing, read, eq_refl id)
          | inr (found, here) ↦ ground (arith, here, read, eq_refl id, h found here)
        ]

    details_merged :
        (details : List (String × Option (Vehicle number)))
        → ((old : Vehicle number)
            → get id details ≡ some old
            → (old.live ≡ some live) × (old.status ≡ get "status" live))
        → (old : Vehicle number)
        → get id
            (set_query_data number id (update_detail number now id patch (get id details)) details)
          ≡ some old
        → (old.live ≡ some merged) × (old.status ≡ get "status" merged)
    unfolding update_detail merge_vehicle with_live
    details_merged details h old got =
        let read =
          get-set_query_data id id (update_detail number now id patch (get id details)) details in
        elim (Option-cases (get id details)) [
          | inl missing ↦ ground (arith, missing, read, eq_refl id)
          | inr (found, here) ↦ ground (arith, here, read, eq_refl id, h found here)
        ]

    returned_merged :
        (s : RealtimeState number)
        → get id s.vehicles ≡ some live
        → (upsert_vehicle number now id patch s).0 ≡ merged
    unfolding upsert_vehicle
    returned_merged s h = rw h refl

  -- If the store holds a vehicle's state and every cached copy of it is that state, then after any patch
  -- of the vehicle every copy is the merge of that state with the patch: in the list of states, the
  -- vehicle's own state, its detail and every page that shows it.
  pub apply_vehicle_status-IsCoherent :
      (now id : String) (patch live : Live number) (w : Client number)
      → IsCoherent id live w
      → IsCoherent id
          (merge_vehicle_live number now (some live) id patch)
          (apply_vehicle_status number now id patch w)
  unfolding apply_vehicle_status
  apply_vehicle_status-IsCoherent now id patch live w h =
      let (now_stored, _) = get-upsert_vehicle number now id id patch w.store in
      let returned = returned_merged now id patch live w.store h.stored in
      record {
        stored = ground (arith, now_stored, eq_refl id, h.stored);
        in_statuses =
            rw returned (update_statuses-AllRows now id patch live w.caches.statuses h.in_statuses);
        in_lives = lives_merged now id patch live w.caches.lives h.in_lives;
        in_details = details_merged now id patch live w.caches.details h.in_details;
        in_pages = pages_merged now id patch live w.caches.pages h.in_pages;
      }
