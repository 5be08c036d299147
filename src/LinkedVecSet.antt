-- ===== src/LinkedVecSet.antt =====
-- shared/src/utils/linked_vec_set.rs: a set of numbers in the order of insertion, a LinkedVecMap of unit
-- values. An insertion of a member makes it the newest.
pub mod Members
mod Tests
use grid_server.Base.{
  ℕ, zero, suc, ◌+◌, ◌-◌, ◌*◌, ◌/◌, ◌%◌, ◌^◌, ◌≤◌, ◌<◌, min, ◌≡◌, refl, sym, ap, ◌∙◌, subst, ◌≢◌,
  ◌↔◌, ◌⊎◌, inl, inr, Bool, true, false, not, ◌&&◌, ◌||◌, Option, none, some, List, [], ◌∷◌, ◌++◌,
  map, arith, ltb, leb, ◌==◌, if◌then◌else◌, ==_iff, Bool-cases, Option-cases, if_app, ==_refl,
  some_inj, length, get_elem?, get_or, set, take, replicate, length-append, length-set, length-take,
  length-replicate, get_elem?-set, get_elem?-append, get_elem?-some, get_or-set, append_assoc,
  append_nil, Run, ok, panic, undefined, out_of_fuel, or_else, ◌>>=◌, checked_sub, Returns, returns,
  Returns-inv, Returns-if, Returns-map, Returns-bind, Returns-ok, Guarded, Guarded-inv,
  Guarded-bind, Guarded-map, Guarded-if, Returns-then, IfReturns, IfReturns-bind, returned,
  IfReturns-then, IfReturns-ok, IfReturns-map,
}
use grid_server.VecMap.{is_some}
use grid_server.LinkedVecMap
use grid_server.LinkedVecMap.{LinkedVecMap}
use grid_server.LinkedVecMap.Clearing

pub record LinkedVecSet : Type 0 where
  pub inner : LinkedVecMap (Unit {0})

unfoldable pub new : LinkedVecSet
unfolding LinkedVecMap.new
new = record { inner = LinkedVecMap.new }

unfoldable pub insert : LinkedVecSet → ℕ → Run (Bool × LinkedVecSet)
unfolding LinkedVecMap.insert
insert s k = do r ← LinkedVecMap.insert s.inner k tt; ok (is_some r.0, record { inner = r.1 })

unfoldable pub contains_key : LinkedVecSet → ℕ → Bool
unfolding LinkedVecMap.contains_key
contains_key s k = LinkedVecMap.contains_key s.inner k

unfoldable pub remove : LinkedVecSet → ℕ → Run (Bool × LinkedVecSet)
unfolding LinkedVecMap.remove
remove s k = do r ← LinkedVecMap.remove s.inner k; ok (is_some r.0, record { inner = r.1 })

abbrev pub key_of : Option (ℕ × Unit {0}) → Option ℕ
key_of none = none
key_of (some e) = some e.0

unfoldable pub pop_front : LinkedVecSet → Run (Option ℕ × LinkedVecSet)
unfolding LinkedVecMap.pop_front
pop_front s = do r ← LinkedVecMap.pop_front s.inner; ok (key_of r.0, record { inner = r.1 })

unfoldable pub front : LinkedVecSet → Run (Option ℕ)
unfolding LinkedVecMap.front
front s = do o ← LinkedVecMap.front s.inner; ok (key_of o)

unfoldable pub len : LinkedVecSet → ℕ
unfolding LinkedVecMap.len
len s = LinkedVecMap.len s.inner

unfoldable pub is_empty : LinkedVecSet → Bool
unfolding LinkedVecMap.is_empty
is_empty s = LinkedVecMap.is_empty s.inner

unfoldable pub clear : LinkedVecSet → Run LinkedVecSet
unfolding Clearing.clear
clear s = do inner ← Clearing.clear s.inner; ok (record { inner = inner })

-- The keys of the map.
unfoldable pub into_iter : LinkedVecSet → Run (List ℕ)
unfolding LinkedVecMap.iter
into_iter s = do es ← LinkedVecMap.iter s.inner; ok (map (λ e. e.0) es)
