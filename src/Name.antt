-- ===== src/Name.antt =====
-- name.hpp: a text in an array of NAMEDATALEN characters, and what is read of it.
use cppgres.Common.{ℕ, zero, suc, ◌≡◌, refl, ap, some, List, [], ◌∷◌, ◌++◌, ==-eq_false, length}
use cppgres.Bgw.{read_text}

-- NAMEDATALEN
abbrev pub namedatalen : ℕ
namedatalen = 64

-- strncpy: as many characters, with zeros behind the text
unfoldable pub strncpy : ℕ → List ℕ → List ℕ
strncpy zero text = []
strncpy (suc n) [] = 0 ∷ strncpy n []
strncpy (suc n) (c ∷ text) = c ∷ strncpy n text

-- name(name), into an array of zeros
unfoldable pub make : List ℕ → List ℕ
unfolding strncpy
make text = strncpy 63 text ++ (0 ∷ [])

-- The characters of a text that fit.
abbrev pub fitting : ℕ → List ℕ → List ℕ
fitting zero text = []
fitting (suc n) [] = []
fitting (suc n) (c ∷ text) = c ∷ fitting n text

-- No character is zero.
abbrev pub IsText : List ℕ → Type 0
IsText [] = Unit
IsText (c ∷ text) = ¬ (c ≡ 0) × IsText text

strncpy-Reads :
    (n : ℕ) (text : List ℕ)
    → IsText text
    → read_text (strncpy n text ++ (0 ∷ [])) ≡ some (fitting n text)
unfolding strncpy read_text
strncpy-Reads zero text h = refl
strncpy-Reads (suc n) [] h = refl
strncpy-Reads (suc n) (c ∷ text) (apart, h) =
    rw (==-eq_false c 0 apart, strncpy-Reads n text h) refl

length-strncpy : (n : ℕ) (text : List ℕ) → length (strncpy n text ++ (0 ∷ [])) ≡ suc n
unfolding strncpy
length-strncpy zero text = refl
length-strncpy (suc n) [] = ap suc (length-strncpy n [])
length-strncpy (suc n) (c ∷ text) = ap suc (length-strncpy n text)

-- A name fills its array, and is read as the first 63 characters of the text.
make-Reads :
    (text : List ℕ)
    → IsText text
    → (length (make text) ≡ namedatalen) × (read_text (make text) ≡ some (fitting 63 text))
unfolding make
make-Reads text h = (length-strncpy 63 text, strncpy-Reads 63 text h)
