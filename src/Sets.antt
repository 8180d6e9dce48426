-- ===== src/Sets.antt =====
-- utils/array.ts, and sameIdSet of pages/system/users/schemas.ts: whether two lists hold the same texts.
pub mod Laws
use zhiyuche.Common.{String, Bool, ◌&&◌, List, length, all, eqb}
use zhiyuche.Common.StringSet.{has, of_list}

-- `sameStringSet`
unfoldable pub same_string_set : List String → List String → Bool
same_string_set a b =
    eqb (length (of_list a)) (length (of_list b)) && all (has (of_list b)) (of_list a)

-- `sameIdSet`
unfoldable pub same_id_set : List String → List String → Bool
same_id_set a b = eqb (length a) (length b) && all (has (of_list a)) b
