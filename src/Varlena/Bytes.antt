-- ===== src/Varlena/Bytes.antt =====
-- bytea of type.hpp: the bytes that are put in are the bytes that are read.
use cppgres.Common.{
  ℕ, ◌+◌, ◌<◌, ◌^◌, ◌≡◌, refl, sym, ap, ◌∙◌, ◌⊎◌, inl, inr, Bool, true, false, none, some, List,
  ◌==◌, length, Bool-cases, ==_iff, ==_self,
}
use cppgres.World.{World, Cpp, pure, ◌>>=◌, ◌>>◌, modify}
use cppgres.Guard.{ErrorApi, ffi_guard}
use cppgres.Guard.Restore.{armed}
use cppgres.Guard.Outcomes.{Ends, Calls, Ends-then, Ends-weaken, guarded}
use cppgres.Memory.Contexts.{MemoryApi, alloc, register_reset_callback}
use cppgres.Memory.Contexts.Frame.{Leaves, alloc-Left, register_reset_callback-Left}
use cppgres.Varlena.{
  Held, VarlenaApi, with_object, track_reset, byte_layout, varhdrsz, track, gone, construct, ptr,
  cached_ptr, track_detoasted, detoast, detoasted_ptr, view, make_bytea,
}

-- `plain` says that the value at a place is neither toasted nor compressed.
module _ {P : Type 0} (api : VarlenaApi P) (plain : ℕ → P → Bool) where
  -- Neither the object nor what stands in memory nor a counter of resets changes.
  abbrev pub Same : Held P → Held P → Type 0
  Same h k =
      (k.object ≡ h.object)
      × ((x : ℕ)
          → (api.contents x k.server ≡ api.contents x h.server)
            × (plain x k.server ≡ plain x h.server))
      × ((s : ℕ) → api.resets s k.server ≡ api.resets s h.server)

  -- The size of a varlena has 30 bits.
  abbrev pub FitsVarlena : List ℕ → Type 0
  FitsVarlena ba = length ba + varhdrsz < 2 ^ 30

  -- A new state counts from zero; a plain value is its own detoasted form; what is written is what
  -- stands there, as a plain value.
  pub record BytesLaws (F : Type 0) (memory : MemoryApi (Held P)) : Type 0 where
    pub memory_leaves : Leaves Same F memory
    pub makes :
        (w : World (Held P))
        → Ends (λ s k. Same w.pg k × (api.resets s k.server ≡ 0)) (λ h. F) (api.make_state w)
    pub detoasts :
        (source : ℕ) (w : World (Held P))
        → plain source w.pg.server ≡ true
        → Calls (λ d k. (d ≡ source) × Same w.pg k) (λ h. F) w (api.detoast source w)
    pub written :
        (x : ℕ) (ba : List ℕ) (p : P)
        → FitsVarlena ba
        → (api.contents x (api.write_varlena x ba p) ≡ ba)
          × (plain x (api.write_varlena x ba p) ≡ true)

  -- An object whose value stands at a place with these bytes, that was not reset.
  abbrev pub Holds : ℕ → List ℕ → ℕ → Held P → Type 0
  Holds place ba s h =
      (h.object.value_datum ≡ place)
      × (h.object.state ≡ s)
      × (api.resets s h.server ≡ 0)
      × (api.contents place h.server ≡ ba)
      × (plain place h.server ≡ true)
      × ((h.object.detoasted ≡ 0)
          ⊎ ((h.object.detoasted ≡ place) × (h.object.detoasted_state ≡ some s)))

module _ {P : Type 0} (errors : ErrorApi (Held P)) (memory : MemoryApi (Held P))
    (api : VarlenaApi P) (plain : ℕ → P → Bool) (F : Type 0)
    (laws : BytesLaws api plain F memory) where
  open laws use {memory_leaves, makes, detoasts, written}

  pub not_gone :
      (s : ℕ) (w : World (Held P))
      → api.resets s w.pg.server ≡ 0
      → gone errors memory api s w ≡ false
  unfolding gone
  not_gone s w e = rw e refl

  detoast-Holds :
      (place : ℕ) (ba : List ℕ) (s : ℕ) (w : World (Held P))
      → Holds api plain place ba s w.pg
      → Ends
          (λ p h. (p ≡ place) × Holds api plain place ba s h)
          (λ h. F)
          (detoast errors memory api w)
  unfolding detoast ptr track_detoasted
  detoast-Holds place ba s w (datum, state, zero_resets, bytes_at, plain_at, _) =
      simp (state, not_gone s w zero_resets, datum)
        (Ends-then (λ d k. (d ≡ place) × Same api plain w.pg k)
          (λ p h. (p ≡ place) × Holds api plain place ba s h) (λ h. F)
          (λ d.
            modify (λ v. with_object (record v.pg.object { detoasted = d }) v)
            >> (track_detoasted errors memory api d place >> pure d))
          (ffi_guard errors (api.detoast place)) w
          (guarded (λ d k. (d ≡ place) × Same api plain w.pg k) (λ h. F) errors (λ c p h. h)
            (api.detoast place) w (detoasts place (armed w) plain_at))
          (λ d v (at_place, (object, bytes_same, resets_same)).
            simp (at_place, ==_self place)
              (
                refl,
                (
                  ap (λ o. o.value_datum) object ∙ datum,
                  ap (λ o. o.state) object ∙ state,
                  resets_same s ∙ zero_resets,
                  (bytes_same place).0 ∙ bytes_at,
                  (bytes_same place).1 ∙ plain_at,
                  inr (refl, ap (λ o. some o.state) object ∙ ap some state),
                ),
              )))

  pub detoasted_ptr-Holds :
      (place : ℕ) (ba : List ℕ) (s : ℕ) (w : World (Held P))
      → Holds api plain place ba s w.pg
      → Ends
          (λ p h. (p ≡ place) × Holds api plain place ba s h)
          (λ h. F)
          (detoasted_ptr errors memory api w)
  unfolding detoasted_ptr cached_ptr
  detoasted_ptr-Holds place ba s w h = elim (Bool-cases (w.pg.object.detoasted == 0)) [
    | inl e ↦ simp e (detoast-Holds place ba s w h)
    | inr e ↦ elim h.5 [
      | inl n ↦ absurd (clash (sym e ∙ (==_iff w.pg.object.detoasted 0).1 n))
      | inr (d, st) ↦ simp (e, st, not_gone s w h.2) (d, (h.0, h.1, h.2, h.3, h.4, inr (d, refl)))
    ]
  ]
    where
      clash : false ≡ true → ⊥
      clash x = cc

  pub construct-Holds :
      (place : ℕ) (ba : List ℕ) (top ctx : ℕ) (w : World (Held P))
      → api.contents place w.pg.server ≡ ba
      → plain place w.pg.server ≡ true
      → Ends
          (λ u h. (s : ℕ) × Holds api plain place ba s h)
          (λ h. F)
          (construct errors memory api top place (some ctx) w)
  unfolding construct track
  construct-Holds place ba top ctx w bytes_at plain_at =
      let set : ℕ → Cpp (Held P) (Unit {0}) = λ state. modify (
        with_object (record {
          value_datum = place;
          ctx = ctx;
          state = state;
          detoasted = 0;
          detoasted_state = none;
        })) in
      let Ready : Unit {0} → Held P → Type 0 = λ u h. (s : ℕ) × Holds api plain place ba s h in
      let Tracked : ℕ → Held P → Type 0 =
        λ s k. Same api plain w.pg k × (api.resets s k.server ≡ 0) in
      Ends-then Tracked Ready (λ h. F) set (track errors memory api ctx) w
        (Ends-then Tracked Tracked (λ h. F)
          (λ state.
            register_reset_callback errors memory ctx (record { func = track_reset; arg = state })
            >>= λ cb. pure state)
          api.make_state w (makes w)
          (λ state v (same, none_yet).
            Ends-then (λ cb. Same api plain v.pg) Tracked (λ h. F) (λ cb. pure state)
              (register_reset_callback errors memory ctx
                (record { func = track_reset; arg = state }))
              v
              (register_reset_callback-Left (Same api plain) F errors memory memory_leaves ctx
                (record { func = track_reset; arg = state }) v)
              (λ cb u k. (memory_leaves.transitive w.pg v.pg u.pg same k, k.2 state ∙ none_yet))))
        (λ s v (same, none_yet). (
          s,
          (
            refl,
            refl,
            none_yet,
            (same.1 place).0 ∙ bytes_at,
            (same.1 place).1 ∙ plain_at,
            inl refl,
          ),
        ))

  pub make_bytea-Holds :
      (ba : List ℕ) (top ctx : ℕ) (w : World (Held P))
      → FitsVarlena api plain ba
      → Ends
          (λ u h. (place : ℕ) × (s : ℕ) × Holds api plain place ba s h)
          (λ h. F)
          (make_bytea errors memory api ba top ctx w)
  unfolding make_bytea
  make_bytea-Holds ba top ctx w fits =
      Ends-then (λ place. Same api plain w.pg)
        (λ u h. (place : ℕ) × (s : ℕ) × Holds api plain place ba s h) (λ h. F) _
        (alloc errors memory ctx byte_layout (varhdrsz + length ba)) w
        (alloc-Left (Same api plain) F errors memory memory_leaves ctx byte_layout
          (varhdrsz + length ba) w)
        (λ place v same.
          let x : World (Held P) = record v {
            pg = record { object = v.pg.object; server = api.write_varlena place ba v.pg.server };
          } in
          Ends-weaken (λ u h. (s : ℕ) × Holds api plain place ba s h)
            (λ u h. (place : ℕ) × (s : ℕ) × Holds api plain place ba s h) (λ h. F) (λ h. F) _
            (λ u h (s, k). (place, s, k)) (λ h f. f)
            (construct-Holds place ba top ctx x (written place ba v.pg.server fits).0
              (written place ba v.pg.server fits).1))

  pub view-Reads :
      (place : ℕ) (ba : List ℕ) (s : ℕ) (w : World (Held P))
      → Holds api plain place ba s w.pg
      → Ends (λ read h. read ≡ ba) (λ h. F) (view errors memory api w)
  unfolding view
  view-Reads place ba s w ready =
      let Got : ℕ → Held P → Type 0 = λ p h. (p ≡ place) × Holds api plain place ba s h in
      Ends-then Got (λ read h. read ≡ ba) (λ h. F) _ (detoasted_ptr errors memory api) w
        (detoasted_ptr-Holds place ba s w ready)
        (λ p y (at_place, again).
          Ends-then Got (λ read h. read ≡ ba) (λ h. F)
            (λ sized z. pure (api.contents sized z.pg.server) z) (detoasted_ptr errors memory api) y
            (detoasted_ptr-Holds place ba s y again)
            (λ q z (here, k). ap (λ r. api.contents r z.pg.server) here ∙ k.3))
