-- ===== src/Rbac/Inheritance.antt =====
-- The check of a role's parents for cycles.
use net_llm.Prelude.{ℕ, zero, suc, String, Option, none, some, List, [], ◌∷◌, if◌then◌else◌, str_eq}
use net_llm.Rbac.State.{
  Role, RbacConfig, Repository, Result, ok, err, and_then, circular_inheritance, depth_exceeded,
  no_parent, contains, levels,
}

module _ (get_role : String → Option Role) (id : String) where
  -- `checkCircularInheritance`, with the levels left and the visited roles, which it gives back.
  unfoldable pub check_circular_inheritance : ℕ → List String → List String → Result (List String)
  check_circular_inheritance zero parents visited = err depth_exceeded
  check_circular_inheritance (suc left) [] visited = ok visited
  check_circular_inheritance (suc left) (p ∷ ps) visited =
      let skip = check_circular_inheritance (suc left) ps visited in
      let visit : Result (List String) = elim (get_role p) [
        | none ↦ err (no_parent p)
        | some parent ↦
            and_then (check_circular_inheritance left parent.parents (p ∷ visited))
              (λ visited'. check_circular_inheritance (suc left) ps visited')
      ] in
      if str_eq p id then err circular_inheritance else if contains p visited then skip else visit

unfoldable pub check_parents : Repository → RbacConfig → String → List String → Result (List String)
unfolding check_circular_inheritance
check_parents repo config id [] = ok []
check_parents repo config id (p ∷ ps) =
    check_circular_inheritance repo.get_role id (levels config.max_role_inheritance_depth) (p ∷ ps)
      []

unfoldable pub validate_inheritance : Repository → RbacConfig → Role → Result (List String)
unfolding check_parents
validate_inheritance repo config role = check_parents repo config role.id role.parents
