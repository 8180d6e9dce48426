-- ===== src/Users/Laws.antt =====
-- How a save of a user ends, with a server that may fail at any request.
use mathlib.Core.List.{reverse, reverse-cons}
use zhiyuche.Common.{
  append_assoc, append-nil, ap, sym, ◌∙◌, Bool, true, false, not, ◌&&◌, Option, none, some, List,
  [], ◌∷◌, ◌++◌, ◌≡◌, refl,
}
use zhiyuche.Sets.{same_id_set}
use zhiyuche.Users.{User, UserForm, create_body, update_body}
use zhiyuche.Users.Save.{
  Request, create, update, assign, Result, ok, failed, Server, Outcome, ask, has_keys, then_ask,
  save_existing, save,
}

-- The requests that a save is made of, in their order.
abbrev pub if_wanted : Bool → Request → List Request
if_wanted true r = r ∷ []
if_wanted false r = []

abbrev pub wanted : Bool → UserForm → Option User → List Request
wanted can_assign v none = create (create_body v) ∷ []
wanted can_assign v (some user) =
    if_wanted (has_keys (update_body v user)) (update user.id (update_body v user))
    ++ if_wanted (can_assign && not (same_id_set v.role_ids user.roles)) (assign user.id v.role_ids)

-- The answer was good.
abbrev pub IsOk : Result → Type 0
IsOk r = (u : User) × (r ≡ ok u)

-- All requests so far were answered well, the last of them first.
abbrev pub AllOk : Server → List Request → Type 0
AllOk server [] = Unit
AllOk server (r ∷ sent) = IsOk (server sent r) × AllOk server sent

-- A save with its requests before it: all of them well answered and done, or a last one that failed with
-- the error that is shown, and the ones after it never sent.
abbrev pub IsEnd : Server → List Request → Outcome → Type 0
IsEnd server all (ok u, sent) = AllOk server sent × (reverse sent ≡ all)
IsEnd server all (failed e, []) = ⊥
IsEnd server all (failed e, r ∷ sent) =
    (server sent r ≡ failed e)
    × (AllOk server sent × ((rest : List Request) × (reverse (r ∷ sent) ++ rest ≡ all)))

asked :
    (server : Server) (r : Request) (sent all : List Request) (result : Result)
    → server sent r ≡ result
    → AllOk server sent
    → reverse sent ≡ all
    → IsEnd server (all ++ r ∷ []) (result, r ∷ sent)
asked server r sent all (ok u) e h order =
    (((u, e), h), reverse-cons r sent ∙ ap (λ l. l ++ r ∷ []) order)
asked server r sent all (failed error) e h order = (
  e,
  (h, ([], append-nil (reverse (r ∷ sent)) ∙ (reverse-cons r sent ∙ ap (λ l. l ++ r ∷ []) order))),
)

then_ask-IsEnd :
    (server : Server) (is_wanted : Bool) (r : Request) (o : Outcome) (all : List Request)
    → IsEnd server all o
    → IsEnd server (all ++ if_wanted is_wanted r) (then_ask server is_wanted r o)
unfolding then_ask ask
then_ask-IsEnd server is_wanted r (failed e, []) all h = elim h [ ]
then_ask-IsEnd server is_wanted r (failed e, q ∷ sent) all (last, (before, (rest, order))) = (
  last,
  (
    before,
    (
      rest ++ if_wanted is_wanted r,
      sym (append_assoc (reverse (q ∷ sent)) rest (if_wanted is_wanted r))
          ∙ ap (λ l. l ++ if_wanted is_wanted r) order,
    ),
  ),
)
then_ask-IsEnd server true r (ok u, sent) all (h, order) =
    asked server r sent all (server sent r) refl h order
then_ask-IsEnd server false r (ok u, sent) all (h, order) = (h, order ∙ sym (append-nil all))

-- However the server answers: a save either has all the requests that it is made of answered well, in their
-- order, or it ends at the first that fails, with its error; what was answered before stays done, and what
-- would have come after it was never sent.
pub save-IsEnd :
    (server : Server) (can_assign : Bool) (v : UserForm) (user : Option User)
    → IsEnd server (wanted can_assign v user) (save server can_assign v user)
unfolding save ask save_existing
save-IsEnd server can_assign v none =
    asked server (create (create_body v)) [] [] (server [] (create (create_body v))) refl tt refl
save-IsEnd server can_assign v (some user) =
    then_ask-IsEnd server (can_assign && not (same_id_set v.role_ids user.roles))
      (assign user.id v.role_ids)
      (then_ask server (has_keys (update_body v user)) (update user.id (update_body v user))
        (ok user, []))
      (if_wanted (has_keys (update_body v user)) (update user.id (update_body v user)))
      (then_ask-IsEnd server (has_keys (update_body v user)) (update user.id (update_body v user))
        (ok user, []) [] (tt, refl))
