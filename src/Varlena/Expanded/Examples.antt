-- ===== src/Varlena/Expanded/Examples.antt =====
-- A class of points, as a concrete case of a value that is flattened and restored.
use cppgres.Common.{
  Bool, false, arith, not, ℕ, ◌≡◌, ◌∙◌, refl, none, some, List, [], ◌∷◌, ◌==◌, true, if◌then◌else◌,
  ==_self,
}
use cppgres.World.{World, Cpp, returns, pure, ◌>>=◌, ◌>>◌, throw, std_exception, message}
use cppgres.Samples.{backend, plain_errors}
use cppgres.Guard.Outcomes.{Ends}
use cppgres.Memory.Contexts.{MemoryApi}
use cppgres.Varlena.{Held, VarlenaApi, construct}
use cppgres.Varlena.Bytes.{BytesLaws}
use cppgres.Varlena.Expanded.{Flattenable, ExpandedApi, get_flat_size, flatten_into, inner_of}
use cppgres.Varlena.Expanded.Flat.{FlatLaws, flat_round_trip}

abbrev Point : Type 0
Point = ℕ × ℕ

-- The bytes at the places, which of them are plain values, and the points in the objects.
record Server : Type 0 where
  memory_at : ℕ → List ℕ
  plain_at : ℕ → Bool
  points : ℕ → Point

abbrev memory : MemoryApi (Held Server)
memory = record {
  alloc = λ ctx n w. returns 800 w;
  alloc_aligned = λ ctx n a w. returns 800 w;
  pfree = λ p w. returns tt w;
  reset = λ c w. returns tt w;
  delete = λ c w. returns tt w;
  register_reset_callback = λ ctx cb w. returns tt w;
  chunk_context = λ p w. returns 7 w;
  create = λ parent w. returns 9 w;
  write_callback = λ cb c p. p;
  maximum_alignof = 8;
}

abbrev api : VarlenaApi Server
api = record {
  make_state = λ w. returns 20 w;
  resets = λ s p. 0;
  detoast = λ source w. returns (if w.pg.server.plain_at source then source else 900) w;
  contents = λ x p. p.memory_at x;
  write_varlena = λ x ba p. record p {
    memory_at = λ y. if y == x then ba else p.memory_at y;
    plain_at = λ y. if y == x then true else p.plain_at y;
  };
}

abbrev restore_point : List ℕ → Cpp (Held Server) Point
restore_point (x ∷ y ∷ _) = pure (x, y)
restore_point _ = throw (std_exception (message 3))

abbrev point : Flattenable Server Point
point = record {
  restore_from = restore_point;
  flat_size = λ v. 2;
  flatten_into = λ v n. v.0 ∷ v.1 ∷ [];
  layout = record { size = 40; align = 8; trivially_destructible = true; destroyer = 6 };
}

abbrev expanded : ExpandedApi Server Point
expanded = record {
  is_expanded = λ x p. not (p.plain_at x);
  header_of = λ x p. 501;
  rw_datum = λ e p. 500;
  init_header = λ e ctx w. returns tt w;
  inner = λ x p. p.points x;
  put_inner = λ x v p. record p { points = λ y. if y == x then v else p.points y };
}

bytes_laws : BytesLaws api (λ x p. p.plain_at x) ⊥ memory
bytes_laws = record {
  memory_leaves = record {
    reflexive = λ p. (refl, λ x. (refl, refl), λ s. refl);
    transitive = λ p q r h k.
        (k.0 ∙ h.0, λ x. ((k.1 x).0 ∙ (h.1 x).0, (k.1 x).1 ∙ (h.1 x).1), λ s. k.2 s ∙ h.2 s);
    allocs = λ ctx n w. (refl, λ x. (refl, refl), λ s. refl);
    allocs_aligned = λ ctx n a w. (refl, λ x. (refl, refl), λ s. refl);
    registers = λ ctx cb w. (refl, λ x. (refl, refl), λ s. refl);
    writes = λ cb c p. (refl, λ x. (refl, refl), λ s. refl);
  };
  makes = λ w. ((refl, λ x. (refl, refl), λ s. refl), refl);
  detoasts = λ source w h. (rw h refl, (refl, λ x. (refl, refl), λ s. refl));
  written = λ x ba p fits. rw (==_self x) (refl, refl);
}

laws : FlatLaws api (λ x p. p.plain_at x) point expanded ⊥ memory
laws = record {
  bytes = bytes_laws;
  inner_left = record {
    reflexive = λ p x. refl;
    transitive = λ p q r h k x. k x ∙ h x;
    allocs = λ ctx n w x. refl;
    allocs_aligned = λ ctx n a w x. refl;
    registers = λ ctx cb w x. refl;
    writes = λ cb c p x. refl;
  };
  creates = λ parent w. (refl, λ x. (refl, refl), λ s. refl);
  restores = λ v w. refl;
  inits = λ e ctx w x. refl;
  plain_is_flat = λ x p h. rw h refl;
  puts = λ x v p. rw (==_self x) refl;
}

-- The object at 300 holds the point (3, 4), and is flattened to the place 700.
abbrev start : World (Held Server)
start = backend (record {
  object = record { value_datum = 0; ctx = 4; state = 20; detoasted = 0; detoasted_state = none };
  server = record {
    memory_at = λ x. [];
    plain_at = λ x. false;
    points = λ x. if x == 300 then (3, 4) else (0, 0);
  };
})

flat_round_trip_example :
    Ends
      (λ a h. h.server.points a ≡ (3, 4))
      (λ h. ⊥)
      ((do
        size ← get_flat_size plain_errors memory api point expanded 300
        flatten_into plain_errors memory api point expanded 300 700 size
        construct plain_errors memory api 1 700 (some 4)
        inner_of plain_errors memory api point expanded none)
        start)
flat_round_trip_example =
    flat_round_trip plain_errors memory api (λ x p. p.plain_at x) point expanded ⊥ laws (3, 4) 300
      700 1 4 start refl (omega arith)
