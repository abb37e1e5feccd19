-- ===== src/Varlena/Sample.antt =====
-- A small memory of Postgres with values at places, for the tests of varlena.
use cppgres.Common.{Bool, true, ◌∙◌, ℕ, refl, none, List, [], ◌==◌, if◌then◌else◌, ==_self}
use cppgres.World.{World, returns}
use cppgres.Samples.{backend}
use cppgres.Memory.Contexts.{MemoryApi}
use cppgres.Varlena.{Varlena, Held, VarlenaApi}
use cppgres.Varlena.Bytes.{BytesLaws}

-- What stands in memory, which values of it are plain, and the counters of resets.
pub record Server : Type 0 where
  pub memory_at : ℕ → List ℕ
  pub plain_at : ℕ → Bool
  pub counters : ℕ → ℕ

abbrev pub H : Type 0
H = Held Server

abbrev pub memory : MemoryApi H
memory = record {
  alloc = λ ctx n w. returns 800 w;
  alloc_aligned = λ ctx n a w. returns 800 w;
  pfree = λ p w. returns tt w;
  reset = λ c w. returns tt w;
  delete = λ c w. returns tt w;
  register_reset_callback = λ ctx cb w. returns tt w;
  chunk_context = λ p w. returns 7 w;
  create = λ parent w. returns 9 w;
  write_callback = λ cb c p. p;
  maximum_alignof = 8;
}

-- A new state has the number 20, whose counter is zero; a plain value is its own detoasted form.
abbrev pub api : VarlenaApi Server
api = record {
  make_state = λ w. returns 20 w;
  resets = λ s p. if s == 20 then 0 else p.counters s;
  detoast = λ source w. returns (if w.pg.server.plain_at source then source else 900) w;
  contents = λ x p. p.memory_at x;
  write_varlena = λ x ba p. record p {
    memory_at = λ y. if y == x then ba else p.memory_at y;
    plain_at = λ y. if y == x then true else p.plain_at y;
  };
}

abbrev pub a_value : Varlena
a_value = record { value_datum = 700; ctx = 4; state = 20; detoasted = 0; detoasted_state = none }

abbrev pub start : World H
start = backend (record {
  object = a_value;
  server = record { memory_at = λ x. []; plain_at = λ x. x == 700; counters = λ s. 0 };
})

pub bytes_laws : BytesLaws api (λ x p. p.plain_at x) ⊥ memory
bytes_laws = record {
  memory_leaves = record {
    reflexive = λ p. (refl, λ x. (refl, refl), λ s. refl);
    transitive = λ p q r h k.
        (k.0 ∙ h.0, λ x. ((k.1 x).0 ∙ (h.1 x).0, (k.1 x).1 ∙ (h.1 x).1), λ s. k.2 s ∙ h.2 s);
    allocs = λ ctx n w. (refl, λ x. (refl, refl), λ s. refl);
    allocs_aligned = λ ctx n a w. (refl, λ x. (refl, refl), λ s. refl);
    registers = λ ctx cb w. (refl, λ x. (refl, refl), λ s. refl);
    writes = λ cb c p. (refl, λ x. (refl, refl), λ s. refl);
  };
  makes = λ w. ((refl, λ x. (refl, refl), λ s. refl), refl);
  detoasts = λ source w h. (rw h refl, (refl, λ x. (refl, refl), λ s. refl));
  written = λ x ba p fits. rw (==_self x) (refl, refl);
}
