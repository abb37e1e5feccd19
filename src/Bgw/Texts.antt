-- ===== src/Bgw/Texts.antt =====
-- bgw.hpp: the texts of a background worker, which stand in arrays of a fixed size.
use Prim.Native.Nat.{min}
use native.Mathlib.Numerals.{unary_clauses}
use cppgres.Common.{
  ℕ, zero, suc, ◌-◌, ◌≤◌, ◌<◌, ◌≡◌, refl, ap, ◌∙◌, some, List, [], ◌∷◌, ◌++◌, ◌==◌, if◌then◌else◌,
  Bool-cases, inl, inr, length, take, drop, length-append, length-take, arith,
}
use cppgres.Bgw.{
  Spec, Text, name, type, library_name, function_name, extra, buffer_of, with_buffer, copy_n, store,
  write_text, read_text, set_text, get_text,
}

-- The characters in front of the first zero.
abbrev pub until_zero : List ℕ → List ℕ
until_zero [] = []
until_zero (c ∷ text) = if c == 0 then [] else c ∷ until_zero text

copy_n-eq :
    (n : ℕ) (text buffer : List ℕ)
    → n ≤ length text
    → n ≤ length buffer
    → copy_n n text buffer ≡ some (take n text ++ drop n buffer)
unfolding copy_n
copy_n-eq zero text buffer h k = refl
copy_n-eq (suc n) [] buffer h k = absurd (omega arith)
copy_n-eq (suc n) (c ∷ text) [] h k = absurd (omega arith)
copy_n-eq (suc n) (c ∷ text) (b ∷ buffer) h k =
    rw (copy_n-eq n text buffer (omega arith) (omega arith)) refl

store-eq :
    (n : ℕ) (text buffer : List ℕ) (c : ℕ)
    → n ≤ length text
    → n < length buffer
    → store (take n text ++ drop n buffer) n c ≡ some (take n text ++ c ∷ drop (suc n) buffer)
unfolding store
store-eq zero text [] c h k = absurd (omega arith)
store-eq zero text (b ∷ buffer) c h k = refl
store-eq (suc n) [] buffer c h k = absurd (omega arith)
store-eq (suc n) (d ∷ text) [] c h k = absurd (omega arith)
store-eq (suc n) (d ∷ text) (b ∷ buffer) c h k =
    rw (store-eq n text buffer c (omega arith) (omega arith)) refl

read_text-append : (text rest : List ℕ) → read_text (text ++ 0 ∷ rest) ≡ some (until_zero text)
unfolding read_text
read_text-append [] rest = refl
read_text-append (c ∷ text) rest = elim (Bool-cases (c == 0)) [
  | inl e ↦ rw e refl
  | inr e ↦ rw (e, read_text-append text rest) refl
]

length-drop : (n : ℕ) (xs : List ℕ) → length (drop n xs) ≡ length xs - n
length-drop zero xs = omega arith
length-drop (suc n) [] = omega arith
length-drop (suc n) (x ∷ xs) = omega (arith, length-drop n xs)

-- The array after a text was written: as long as before, read as the text cut to fit.
abbrev Written : List ℕ → List ℕ → List ℕ → Type 0
Written text buffer after_write =
    (read_text after_write ≡ some (until_zero (take (length buffer - 1) text)))
    × (length after_write ≡ length buffer)

take-min : (n : ℕ) (text : List ℕ) → take (min (length text) n) text ≡ take n text
take-min zero text = rw (min_zero (length text)) refl
  where
    min_zero : (m : ℕ) → min m 0 ≡ 0
    min_zero m = omega arith
take-min (suc n) [] = simp unary_clauses refl
take-min (suc n) (c ∷ text) = simp unary_clauses (ap (◌∷◌ c) (take-min n text))

write_text-Written :
    (text buffer : List ℕ)
    → 0 < length buffer
    → (b : List ℕ) × (write_text text buffer ≡ some b) × (Written text buffer b)
unfolding write_text
write_text-Written text buffer h =
    let n : ℕ = min (length text) (length buffer - 1) in
    let a : n ≤ length text = omega arith in
    let k : n < length buffer = omega arith in
    let e : write_text text buffer ≡ some (take n text ++ 0 ∷ drop (suc n) buffer) =
      rw (write_text, copy_n-eq n text buffer a (omega arith), store-eq n text buffer 0 a k) refl in
    (
      take n text ++ 0 ∷ drop (suc n) buffer,
      e,
      (
        read_text-append (take n text) (drop (suc n) buffer)
            ∙ ap (λ t. some (until_zero t)) (take-min (length buffer - 1) text),
        length-append (take n text) (0 ∷ drop (suc n) buffer)
            ∙ omega (arith, length-take n text, length-drop (suc n) buffer),
      ),
    )

-- The other fields are as they were.
abbrev pub SameExcept : Text → Spec → Spec → Type 0
SameExcept t w v = with_buffer t w (buffer_of t v) ≡ v

buffer-with : (t : Text) (w : Spec) (b : List ℕ) → buffer_of t (with_buffer t w b) ≡ b
buffer-with name w b = refl
buffer-with type w b = refl
buffer-with library_name w b = refl
buffer-with function_name w b = refl
buffer-with extra w b = refl

-- Setting any of the five texts of a background worker writes inside its array, leaves the length
-- of the array and the other fields, and the text read back is the one that was set, up to its
-- first zero and cut to one less than the array.
pub set_text-Fits :
    (t : Text) (text : List ℕ) (w : Spec)
    → 0 < length (buffer_of t w)
    → (v : Spec) × (set_text t text w ≡ some v)
      × (get_text t v ≡ some (until_zero (take (length (buffer_of t w) - 1) text)))
      × (length (buffer_of t v) ≡ length (buffer_of t w))
      × SameExcept t w v
unfolding set_text get_text
set_text-Fits t text w h =
    let (b, e, (r, l)) = write_text-Written text (buffer_of t w) h in
    let at_t : buffer_of t (with_buffer t w b) ≡ b = buffer-with t w b in
    (with_buffer t w b, rw e refl, rw at_t r, rw at_t l, ap (with_buffer t w) at_t)
