-- ===== src/BitSet/Tests.antt =====
-- The theorems at the set of 1 and 70.
use grid_server.Base.{◌*◌, ◌/◌, ◌≡◌, refl, true, false, [], ◌∷◌, arith, panic, Returns}
use grid_server.BitSet.{BitSet, iter, contains, insert, remove, from_iter, len, init}
use grid_server.BitSet.Core.{words, words-Laws, word_bit, with_bit}
use grid_server.BitSet.Members.{IsCounted, Added, Dropped}
use grid_server.BitSet.Changes.{insert-Added, remove-Dropped}
use grid_server.BitSet.Init.{init-false-contains}
use grid_server.BitSet.Fixed.{init-full}
use grid_server.BitSet.Fixed

abbrev two_values : BitSet
two_values = record { len = 2; inner = 2 ∷ 64 ∷ [] }

from_iter-two : from_iter words (1 ∷ 70 ∷ 1 ∷ []) ≡ two_values
unfolding from_iter insert word_bit with_bit
from_iter-two = refl

two_values-IsCounted : IsCounted words words-Laws two_values
unfolding iter word_bit
two_values-IsCounted = refl

insert-Added_example : Added words words-Laws two_values 200 (insert words two_values 200)
insert-Added_example = insert-Added words words-Laws two_values 200 two_values-IsCounted

remove-Dropped_example :
    Returns (Dropped words words-Laws two_values 70) (remove words two_values 70)
remove-Dropped_example = remove-Dropped words words-Laws two_values 70 two_values-IsCounted

init-false-contains_example :
    (len (init false 70) ≡ 0) × (contains words (init false 70) (70 / 64 * 64) ≡ true)
init-false-contains_example = init-false-contains words words-Laws 70 (omega arith)

init-full_example : Fixed.init 2 true 128 ≡ panic
init-full_example = init-full 2 true 128 (omega arith)
