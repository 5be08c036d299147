-- ===== src/VecMap/Tests.antt =====
-- The theorems at a map of two keys.
use grid_server.Base.{ℕ, ◌≡◌, refl, none, some, [], ◌∷◌, Returns, ◌==◌, if◌then◌else◌}
use grid_server.VecMap.{VecMap, get, insert, remove, shrink_to_fit, into_iter, IsCounted}
use grid_server.VecMap.Lookup.{Removed, insert_lem, get-shrink_to_fit}
use grid_server.VecMap.Count.{insert-IsCounted, remove-IsCounted}

abbrev two_keys : VecMap ℕ
two_keys = record { n = 2; v = none ∷ some 7 ∷ none ∷ some 9 ∷ none ∷ [] }

two_keys-IsCounted : IsCounted two_keys
unfolding into_iter
two_keys-IsCounted = refl

insert_lem_example :
    ((insert two_keys 6 5).0 ≡ get two_keys 6)
    × (get (insert two_keys 6 5).1 3 ≡ (if 6 == 3 then some 5 else get two_keys 3))
insert_lem_example = insert_lem two_keys 6 3 5

get-shrink_to_fit_example : get (shrink_to_fit two_keys) 3 ≡ get two_keys 3
get-shrink_to_fit_example = get-shrink_to_fit two_keys 3

insert-IsCounted_example : IsCounted (insert two_keys 6 5).1
insert-IsCounted_example = insert-IsCounted two_keys 6 5 two_keys-IsCounted

remove-IsCounted_example : Returns (λ r. IsCounted r.1 × Removed two_keys 3 r) (remove two_keys 3)
remove-IsCounted_example = remove-IsCounted two_keys 3 two_keys-IsCounted
