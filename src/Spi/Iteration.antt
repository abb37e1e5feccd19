-- ===== src/Spi/Iteration.antt =====
-- executor.hpp: reading rows through `result_iterator`, and loops over `results`.
use cppgres.Common.{
  ℕ, zero, suc, ◌+◌, ◌-◌, ◌%◌, ◌^◌, ◌<◌, ◌≤◌, ◌≡◌, refl, sym, ap, ◌∙◌, ◌⊎◌, inl, inr, Option, none,
  some, List, [], ◌∷◌, ==_self, ==-eq_false, length, get_elem?, set, drop, replicate,
  drop-get_elem?, drop_all, arith,
}
use cppgres.Datum.Nullable.{Result, ok, err, ◌>>=◌, NullableDatum}
use cppgres.Spi.Rows.{
  TupleTable, Shape, Value, decode, Iterator, begin, get, deref, increment, at_end, collect,
  continue, cached, keep, prepended,
}

module _ {A : Type 0} (convert : ℕ → NullableDatum → ℕ → Result A) (shape : Shape)
    (table : TupleTable) where
  abbrev pub Row : Type 0
  Row = List NullableDatum

  abbrev pub decoded : Row → Result (Value A)
  decoded = decode convert shape table.types

  -- The rows one after the other, up to the first that cannot be converted.
  abbrev pub decode_rows : List Row → Result (List (Value A))
  decode_rows [] = ok []
  decode_rows (row ∷ rows) = do v ← decoded row; vs ← decode_rows rows; ok (v ∷ vs)

  -- What is kept for a row is what decoding the row gives.
  abbrev pub Coherent : List (Option (Value A)) → List Row → Type 0
  Coherent [] [] = Unit
  Coherent (none ∷ ts) (row ∷ rows) = Coherent ts rows
  Coherent (some v ∷ ts) (row ∷ rows) = (decoded row ≡ ok v) × Coherent ts rows
  Coherent [] (row ∷ rows) = ⊥
  Coherent (t ∷ ts) [] = ⊥

  abbrev Kept : Row → Option (Option (Value A)) → Type 0
  Kept row o = (o ≡ some none) ⊎ ((v : Value A) × (o ≡ some (some v)) × (decoded row ≡ ok v))

  lookup-Kept :
      (ts : List (Option (Value A))) (rows : List Row) (n : ℕ) (row : Row)
      → Coherent ts rows
      → get_elem? rows n ≡ some row
      → Kept row (get_elem? ts n)
  lookup-Kept [] [] n row c h = cc
  lookup-Kept [] (r ∷ rows) n row c h = absurd c
  lookup-Kept (t ∷ ts) [] n row c h = cc
  lookup-Kept (none ∷ ts) (r ∷ rows) zero row c h = inl refl
  lookup-Kept (some v ∷ ts) (r ∷ rows) zero row c h = inr (v, refl, ground (arith, c.0))
  lookup-Kept (none ∷ ts) (r ∷ rows) (suc n) row c h = lookup-Kept ts rows n row c h
  lookup-Kept (some v ∷ ts) (r ∷ rows) (suc n) row c h = lookup-Kept ts rows n row c.1 h

  store_kept :
      (ts : List (Option (Value A))) (rows : List Row) (n : ℕ) (row : Row) (v : Value A)
      → Coherent ts rows
      → get_elem? rows n ≡ some row
      → decoded row ≡ ok v
      → Coherent (set ts n (some v)) rows
  store_kept [] [] n row v c h d = tt
  store_kept [] (r ∷ rows) n row v c h d = absurd c
  store_kept (t ∷ ts) [] n row v c h d = cc
  store_kept (none ∷ ts) (r ∷ rows) zero row v c h d = (ground (arith, d), c)
  store_kept (some u ∷ ts) (r ∷ rows) zero row v c h d = (ground (arith, d), c.1)
  store_kept (none ∷ ts) (r ∷ rows) (suc n) row v c h d = store_kept ts rows n row v c h d
  store_kept (some u ∷ ts) (r ∷ rows) (suc n) row v c h d =
      (c.0, store_kept ts rows n row v c.1 h d)

  pub fresh-Coherent : (rows : List Row) → Coherent (replicate (length rows) none) rows
  fresh-Coherent [] = tt
  fresh-Coherent (row ∷ rows) = fresh-Coherent rows

  -- Reading a row gives its decoding, whether it is kept or not, and keeps the invariant.
  abbrev pub Reads : Iterator convert → Row → Result (Value A) × Iterator convert → Type 0
  Reads it row r = (r.0 ≡ decoded row) × Coherent r.1.tuples table.vals × (r.1.index ≡ it.index)

  kept_or_not :
      (it : Iterator convert) (n : ℕ) (row : Row) (d : Result (Value A))
      → decoded row ≡ d
      → Coherent it.tuples table.vals
      → get_elem? table.vals n ≡ some row
      → Reads it row (keep convert shape table it n d)
  unfolding keep
  kept_or_not it n row (ok v) e c h = (sym e, store_kept it.tuples table.vals n row v c h e, refl)
  kept_or_not it n row (err x) e c h = (sym e, c, refl)

  -- Reading a row that the table has, through an iterator whose kept values are decodings of their
  -- rows, gives the decoding of the row whether it was kept or not, leaves the position alone and
  -- keeps the kept values right.
  pub get-Reads :
      (it : Iterator convert) (n : ℕ) (row : Row)
      → Coherent it.tuples table.vals
      → get_elem? table.vals n ≡ some row
      → Reads it row (get convert shape table it n)
  unfolding get
  get-Reads it n row c h = elim (lookup-Kept it.tuples table.vals n row c h) [
    | inl e ↦ rw (e, get) (rw (h, cached) (kept_or_not it n row (decoded row) refl c h))
    | inr (v, e, d) ↦ rw (e, get) (sym d, c, refl)
  ]

  -- What a loop gives from a place on: the decodings of the rows from there.
  abbrev Delivers : List Row → Option (Result (List (Value A))) → Type 0
  Delivers rows o = o ≡ some (decode_rows rows)

  continued :
      (rest : Iterator convert → Option (Result (List (Value A)))) (row : Row) (rows : List Row)
      (d : Result (Value A)) (it : Iterator convert)
      → decoded row ≡ d
      → Delivers rows (rest (increment convert shape table it))
      → Delivers (row ∷ rows) (continue convert shape table rest (d, it))
  unfolding continue
  continued rest row rows (ok v) it e h = rw (h, e) (joined (decode_rows rows))
    where
      joined :
          (d : Result (List (Value A)))
          → prepended convert shape table v (some d) ≡ some (d >>= λ vs. ok (v ∷ vs))
      joined (ok vs) = refl
      joined (err x) = refl
  continued rest row rows (err x) it e h = rw e refl

  next_index : (n m : ℕ) → n < m → m < 2 ^ 64 → (n + 1) % 2 ^ 64 ≡ suc n
  next_index n m h b = omega arith

  unfoldable pub Collects : ℕ → Iterator convert → Type 0
  Collects fuel it =
      Coherent it.tuples table.vals
      → it.index ≤ length table.vals
      → length table.vals - it.index < fuel
      → Delivers (drop it.index table.vals) (collect convert shape table fuel it)

  next_Delivers :
      (fuel : ℕ) (row : Row) (it : Iterator convert) (r : Result (Value A) × Iterator convert)
      → length table.vals < 2 ^ 64
      → it.index < length table.vals
      → length table.vals - it.index < suc fuel
      → Reads it row r
      → ((jt : Iterator convert) → Collects fuel jt)
      → Delivers
          (row ∷ drop (suc it.index) table.vals)
          (continue convert shape table (collect convert shape table fuel) r)
  unfolding Collects increment
  next_Delivers fuel row it r b l f h rest =
      let place : (r.1.index + 1) % 2 ^ 64 ≡ suc it.index =
        ap (λ n. (n + 1) % 2 ^ 64) h.2 ∙ next_index it.index (length table.vals) l b in
      continued (collect convert shape table fuel) row (drop (suc it.index) table.vals) r.0 r.1
        (sym h.0)
        (rest (increment convert shape table r.1) h.1 (omega (arith, place, l))
            (omega (arith, place, f))
          ∙ ap (λ n. some (decode_rows (drop n table.vals))) place)

  decide_end :
      (it : Iterator convert)
      → it.index ≤ length table.vals
      → (it.index ≡ length table.vals) ⊎ (it.index < length table.vals)
  decide_end it l = omega arith

  pub collect_from :
      length table.vals < 2 ^ 64 → (fuel : ℕ) (it : Iterator convert) → Collects fuel it
  unfolding Collects collect at_end deref
  collect_from b zero it c l f = absurd (omega arith)
  collect_from b (suc fuel) it c l f = elim (decide_end it l) [
    | inl e ↦
        rw
          (
            collect,
            e,
            ==_self (length table.vals),
            drop_all table.vals (length table.vals) (omega arith),
          )
          refl
    | inr h ↦
        let (row, g, d) = drop-get_elem? table.vals it.index h in
        rw (collect, d, ==-eq_false it.index (length table.vals) (omega (arith, h)))
          (next_Delivers fuel row it (get convert shape table it it.index) b h f
            (get-Reads it it.index row c g) (collect_from b fuel))
  ]

  -- A loop over results of fewer than 2 ^ 64 rows, with one step more than there are rows as fuel,
  -- ends and gives the decoded rows in order, or the first error that decoding gives.
  pub collect-begin :
      length table.vals < 2 ^ 64
      → collect convert shape table (suc (length table.vals)) (begin convert shape table)
        ≡ some (decode_rows table.vals)
  unfolding Collects begin
  collect-begin b =
      collect_from b (suc (length table.vals)) (begin convert shape table)
        (fresh-Coherent table.vals) (omega arith) (omega arith)
