-- ===== src/Users/Save.antt =====
-- pages/system/users/UserDrawer.tsx: the requests of `save`, one after the other, where a failure ends it.
use zhiyuche.Forms.{is_some}
use zhiyuche.Common.{String, Bool, true, false, not, ◌&&◌, ◌||◌, Option, none, some, List, [], ◌∷◌}
use zhiyuche.Sets.{same_id_set}
use zhiyuche.Users.{User, UserForm, UserCreate, UserUpdate, create_body, update_body}

pub data Request : Type 0 where
  create : UserCreate → Request
  update : String → UserUpdate → Request
  assign : String → List String → Request

pub data Result : Type 0 where
  ok : User → Result
  failed : String → Result

-- The answer to a request after the requests before it, the last of them first.
abbrev pub Server : Type 0
Server = List Request → Request → Result

-- What a part of `save` has come to, with the requests so far.
abbrev pub Outcome : Type 0
Outcome = Result × List Request

unfoldable pub ask : Server → Request → List Request → Outcome
ask server r sent = (server sent r, r ∷ sent)

-- `Object.keys(body).length > 0`
unfoldable pub has_keys : UserUpdate → Bool
has_keys b =
    is_some b.name
    || is_some b.status
    || is_some b.phone
    || is_some b.email
    || is_some b.employee_no
    || is_some b.dept_id
    || b.clear_dept

-- `if (wanted) updated = await request`, after what came before.
unfoldable pub then_ask : Server → Bool → Request → Outcome → Outcome
unfolding ask
then_ask server wanted r (failed e, sent) = (failed e, sent)
then_ask server true r (ok u, sent) = ask server r sent
then_ask server false r (ok u, sent) = (ok u, sent)

unfoldable pub save_existing : Server → Bool → UserForm → User → Outcome
unfolding then_ask has_keys same_id_set
save_existing server can_assign v user =
    then_ask server (can_assign && not (same_id_set v.role_ids user.roles))
      (assign user.id v.role_ids)
      (then_ask server (has_keys (update_body v user)) (update user.id (update_body v user))
        (ok user, []))

-- `save` of the values that the schema gave on.
unfoldable pub save : Server → Bool → UserForm → Option User → Outcome
unfolding ask save_existing
save server can_assign v none = ask server (create (create_body v)) []
save server can_assign v (some user) = save_existing server can_assign v user
