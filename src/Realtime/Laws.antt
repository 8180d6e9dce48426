-- ===== src/Realtime/Laws.antt =====
-- What a merge of a patch keeps and changes.
use zhiyuche.Common.{
  String, Option, none, some, List, [], ◌∷◌, ◌==◌, eq_iff, eq_refl, ◌≡◌, refl, arith, if◌then◌else◌,
  ◌&&◌,
}
use zhiyuche.Common.Number.{Number}
use zhiyuche.Realtime.{
  get, put, Live, merge_into, is_blank, merge_vehicle_live, RealtimeState, upsert_vehicle,
}

pub get-put {ℓ} :
    {V : Type ℓ} (k j : String) (v : Option V) (o : List (String × Option V))
    → get j (put k v o) ≡ (if k == j then v else get j o)
unfolding get put
get-put k j v [] = refl
get-put k j v ((i, w) ∷ o) = ground (arith, eq_iff k j, eq_iff i k, eq_iff i j, get-put k j v o)

-- The keys of an object, each once.
abbrev pub IsObject {ℓ} : {V : Type ℓ} → List (String × Option V) → Type ℓ
IsObject [] = Unit
IsObject ((k, v) ∷ o) = (get k o ≡ none) × IsObject o

-- A value, or the old one where it is `undefined`.
abbrev pub over_old {ℓ} : {V : Type ℓ} → Option V → Option V → Option V
over_old none old = old
over_old (some v) old = some v

module _ (number : Number) where
  get-merge_into :
      (j : String) (next patch : Live number)
      → IsObject patch
      → get j (merge_into number next patch) ≡ over_old (get j patch) (get j next)
  unfolding merge_into get
  get-merge_into j next [] h = refl
  get-merge_into j next ((k, none) ∷ patch) h =
      ground (arith, get-merge_into j next patch h.1, eq_iff k j)
  get-merge_into j next ((k, some v) ∷ patch) h = ground (
    arith,
    get-merge_into j (put k (some v) next) patch h.1,
    eq_iff k j,
    get-put k j (some v) next,
  )

  -- Every field of a vehicle's state after a merge is the one of the patch, or where the patch has it
  -- undefined, the old one; a blank plate number keeps the old one. The patch is an object: it has each
  -- key once.
  get-merge_vehicle_live :
      (now : String) (prev : Live number) (id j : String) (patch : Live number)
      → IsObject patch
      → get j (merge_vehicle_live number now (some prev) id patch) ≡ (
          if ("plate_no" == j) && is_blank number (get "plate_no" patch)
          then get j prev
          else over_old (get j patch) (get j prev))
  unfolding merge_vehicle_live
  get-merge_vehicle_live now prev id j patch h = ground (
    arith,
    get-merge_into j prev patch h,
    get-put "plate_no" j (get "plate_no" prev) (merge_into number prev patch),
    eq_iff "plate_no" j,
  )

  -- A patch that arrives again changes no field of a state that was merged with it.
  merge_vehicle_live_again :
      (now : String) (prev : Live number) (id j : String) (patch : Live number)
      → IsObject patch
      → get j (
          merge_vehicle_live number now
            (some (merge_vehicle_live number now (some prev) id patch))
            id
            patch)
        ≡ get j (merge_vehicle_live number now (some prev) id patch)
  merge_vehicle_live_again now prev id j patch h =
      let once = get-merge_vehicle_live now prev id j patch h in
      let twice =
        get-merge_vehicle_live now (merge_vehicle_live number now (some prev) id patch) id j patch
          h in
      ground (arith, once, twice)

  -- After an update the store holds for its vehicle the merge of the old state and the patch, which is
  -- the value returned, and for every other vehicle what it held before.
  pub get-upsert_vehicle :
      (now id other : String) (patch : Live number) (s : RealtimeState number)
      → (get other (upsert_vehicle number now id patch s).1.vehicles ≡ (
          if id == other
          then some (merge_vehicle_live number now (get id s.vehicles) id patch)
          else get other s.vehicles))
        × (get id (upsert_vehicle number now id patch s).1.vehicles
            ≡ some ((upsert_vehicle number now id patch s).0))
  unfolding upsert_vehicle
  get-upsert_vehicle now id other patch s =
      let merged : Option (Live number) =
        some (merge_vehicle_live number now (get id s.vehicles) id patch) in
      (
        get-put id other merged s.vehicles,
        ground (arith, get-put id id merged s.vehicles, eq_refl id),
      )
