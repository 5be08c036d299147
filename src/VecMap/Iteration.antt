-- ===== src/VecMap/Iteration.antt =====
-- What a loop over the mutable values of a map leaves.
use grid_server.Base.{ℕ, zero, suc, ◌≡◌, refl, sym, ◌∙◌, ap, Option, none, some, List, [], ◌∷◌}
use grid_server.VecMap.{VecMap, get, map_slots, for_each_mut}
use grid_server.VecMap.Lookup.{slot, get-slot}

module _ {ℓ} {V : Type ℓ} where
  abbrev pub map_value : (V → V) → Option V → Option V
  map_value f none = none
  map_value f (some x) = some (f x)

  slot-map_slots :
      (f : V → V) (v : List (Option V)) (k : ℕ) → slot (map_slots f v) k ≡ map_value f (slot v k)
  unfolding map_slots
  slot-map_slots f [] k = refl
  slot-map_slots f (none ∷ v) zero = refl
  slot-map_slots f (some x ∷ v) zero = refl
  slot-map_slots f (none ∷ v) (suc k) = slot-map_slots f v k
  slot-map_slots f (some x ∷ v) (suc k) = slot-map_slots f v k

  -- Every present value is changed by `f`, and no key comes or goes.
  pub get-for_each_mut :
      (f : V → V) (m : VecMap V) (k : ℕ) → get (for_each_mut f m) k ≡ map_value f (get m k)
  unfolding for_each_mut
  get-for_each_mut f m k =
      get-slot (for_each_mut f m) k ∙ slot-map_slots f m.v k ∙ ap (map_value f) (sym (get-slot m k))

  pub for_each_mut-n : (f : V → V) (m : VecMap V) → (for_each_mut f m).n ≡ m.n
  unfolding for_each_mut
  for_each_mut-n f m = refl
