-- ===== src/Lists/Examples.antt =====
-- A list of three Oids as a concrete case of the loop, and the empty list.
use cppgres.Common.{◌≡◌, refl, none, some, [], ◌∷◌, length, pos, arith, negsuc}
use cppgres.Lists.{Range, object_id, integer, begin, size, loop, first_of}
use cppgres.Lists.Ranges.{elements_of, loop-Elements}

abbrev three : Range
three = some (record { elements = 6400; cells = 16 ∷ 23 ∷ 4294967321 ∷ [] })

loop-Elements_example :
    (loop 4 object_id three (begin three) ≡ some (elements_of object_id three))
    × (length (elements_of object_id three) ≡ size three)
unfolding size
loop-Elements_example = loop-Elements object_id three 4 (omega arith)

-- Oids are the low 32 bits of their cells, and an int is signed; NIL has no elements.
oids : elements_of object_id three ≡ pos 16 ∷ pos 23 ∷ pos 25 ∷ []
unfolding first_of
oids = refl

minus_one : first_of integer 4294967295 ≡ negsuc 0
unfolding first_of
minus_one = refl

nil : loop 1 integer none (begin none) ≡ some []
unfolding loop begin
nil = refl
