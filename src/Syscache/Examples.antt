-- ===== src/Syscache/Examples.antt =====
-- A tuple of a cache with one tuple, as a concrete case of the theorem about pins.
use cppgres.Common.{
  ℕ, suc, ◌-◌, ◌≡◌, refl, true, false, ap, Bool-cases, inl, inr, ==_iff, some, [], ◌∷◌, ◌==◌,
  if◌then◌else◌, ==-eq_false, arith,
}
use cppgres.World.{returns, throw, std_exception, out_of_range}
use cppgres.Samples.{backend, plain_errors}
use cppgres.Guard.Outcomes.{Ends}
use cppgres.Syscache.{CacheApi, with_syscache}
use cppgres.Syscache.Pins.{SamePins, PinLaws, with_syscache-SamePins}

abbrev pin : (ℕ → ℕ) → ℕ → ℕ → ℕ
pin pins n t = if t == 7 then n else pins t

-- Every key finds the tuple 7; what Postgres keeps are its pins.
abbrev api : CacheApi (ℕ → ℕ)
api = record {
  search = λ c keys w. returns (some 7) (record w { pg = pin w.pg (suc (w.pg 7)) });
  release = λ t p. λ u. if u == t then p u - 1 else p u;
  get_attr = λ c t n w. returns (record { value = 1; isnull = false }) w;
}

unpinned :
    (t : ℕ) (p q : ℕ → ℕ)
    → q t ≡ suc (p t)
    → ((u : ℕ) → ¬ (u ≡ t) → q u ≡ p u)
    → (u : ℕ) → (if u == t then q u - 1 else q u) ≡ p u
unpinned t p q h k u = elim (Bool-cases (u == t)) [
  | inl e ↦ let same : u ≡ t = (==_iff u t).0 e in rw e (omega (arith, h, ap q same, ap p same))
  | inr e ↦ rw e (k u (λ same. other e ((==_iff u t).1 same)))
]
  where
    other : (u == t) ≡ false → (u == t) ≡ true → ⊥
    other e f = cc

pin_laws : PinLaws (λ p. p) Unit plain_errors api
pin_laws = record {
  searches = λ c keys w. (refl, λ u n. rw (==-eq_false u 7 n) refl);
  releases = λ t p q h. unpinned t p q h.0 h.1;
  errors_keep = λ c p t. refl;
}

-- A block that throws leaves the tuple unpinned as well.
with_syscache-SamePins_example :
    Ends
      (λ a q. Unit {0} × SamePins (λ p. p) (λ t. 0) q)
      (λ q. Unit {0} × SamePins (λ p. p) (λ t. 0) q)
      (with_syscache plain_errors api 45
        (3 ∷ [])
        (λ t. throw {A = ℕ} (std_exception out_of_range))
        (backend (λ t. 0)))
with_syscache-SamePins_example =
    with_syscache-SamePins (λ p. p) plain_errors api Unit pin_laws (λ a. Unit) 45 (3 ∷ [])
      (λ t. throw (std_exception out_of_range)) (backend (λ t. 0)) (λ t v h. (tt, h))
