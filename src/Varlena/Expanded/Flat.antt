-- ===== src/Varlena/Expanded/Flat.antt =====
-- expanded_varlena of type.hpp: a value that is flattened is restored from its flat form.
use cppgres.Common.{true, Bool, ℕ, ◌+◌, ◌-◌, ◌≡◌, ap, ◌∙◌, false, none, some, List, arith, inl, inr}
use cppgres.World.{World, pure, ◌>>=◌, ◌>>◌}
use cppgres.Guard.{ErrorApi, ffi_guard}
use cppgres.Guard.Restore.{armed}
use cppgres.Guard.Outcomes.{Ends, Calls, Ends-then, guarded}
use cppgres.Memory.Contexts.{MemoryApi, alloc, register_reset_callback}
use cppgres.Memory.Contexts.Frame.{Leaves, alloc-Left, register_reset_callback-Left}
use cppgres.Varlena.{Held, VarlenaApi, construct, ptr, detoasted_ptr}
use cppgres.Varlena.Bytes.{
  Same, FitsVarlena, BytesLaws, Holds, not_gone, detoasted_ptr-Holds, construct-Holds,
}
use cppgres.Varlena.Expanded.{
  Flattenable, ExpandedApi, header_size, new_context, init, restore, inner_of, get_flat_size,
  flatten_into,
}

module _ {P V : Type 0} (expanded : ExpandedApi P V) where
  -- The values in the objects stay as they are.
  abbrev pub SameInner : Held P → Held P → Type 0
  SameInner h k = (x : ℕ) → expanded.inner x k.server ≡ expanded.inner x h.server

-- The class restores a value from the bytes that it writes of it; Postgres keeps what stands in memory.
module _ {P V : Type 0} (api : VarlenaApi P) (plain : ℕ → P → Bool) (t : Flattenable P V)
    (expanded : ExpandedApi P V) where
  pub record FlatLaws (F : Type 0) (memory : MemoryApi (Held P)) : Type 0 where
    pub bytes : BytesLaws api plain F memory
    pub inner_left : Leaves (SameInner expanded) F memory
    pub creates :
        (parent : ℕ) (w : World (Held P))
        → Calls (λ c. Same api plain w.pg) (λ h. F) w (memory.create parent w)
    pub restores :
        (v : V) (w : World (Held P))
        → Ends (λ u h. u ≡ v) (λ h. F) (t.restore_from (t.flatten_into v (t.flat_size v)) w)
    pub inits :
        (e ctx : ℕ) (w : World (Held P))
        → Calls (λ u. SameInner expanded w.pg) (λ h. F) w (expanded.init_header e ctx w)
    pub plain_is_flat : (x : ℕ) (p : P) → plain x p ≡ true → expanded.is_expanded x p ≡ false
    pub puts : (x : ℕ) (v : V) (p : P) → expanded.inner x (expanded.put_inner x v p) ≡ v

module _ {P V : Type 0} (errors : ErrorApi (Held P)) (memory : MemoryApi (Held P))
    (api : VarlenaApi P) (plain : ℕ → P → Bool) (t : Flattenable P V) (expanded : ExpandedApi P V)
    (F : Type 0) (laws : FlatLaws api plain t expanded F memory) where
  open laws use {bytes, inner_left, creates, restores, inits, plain_is_flat, puts}

  Holds-Same :
      (place : ℕ) (ba : List ℕ) (s : ℕ) (h k : Held P)
      → Same api plain h k
      → Holds api plain place ba s h
      → Holds api plain place ba s k
  Holds-Same place ba s h k (object, bytes_same, resets_same)
        (datum, state, zero, bytes_at, plain_at, cached) =
      (
        ap (λ o. o.value_datum) object ∙ datum,
        ap (λ o. o.state) object ∙ state,
        resets_same s ∙ zero,
        (bytes_same place).0 ∙ bytes_at,
        (bytes_same place).1 ∙ plain_at,
        elim cached [
          | inl e ↦ inl (ap (λ o. o.detoasted) object ∙ e)
          | inr (e, f) ↦
              inr (ap (λ o. o.detoasted) object ∙ e, ap (λ o. o.detoasted_state) object ∙ f)
        ],
      )

  -- The object that a value is put into holds it to the end.
  finished-Inner :
      (v : V) (ctx value : ℕ) (w : World (Held P))
      → expanded.inner value w.pg.server ≡ v
      → Ends
          (λ a h. expanded.inner a h.server ≡ v)
          (λ h. F)
          ((do
            cb ←
                register_reset_callback errors memory ctx
                  (record { func = t.layout.destroyer; arg = value })
            init errors memory api t expanded value ctx
            pure value)
            w)
  unfolding init
  finished-Inner v ctx value w at_value =
      let Inner : ℕ → Held P → Type 0 = λ a h. expanded.inner a h.server ≡ v in
      Ends-then (λ cb. SameInner expanded w.pg) Inner (λ h. F) _
        (register_reset_callback errors memory ctx
          (record { func = t.layout.destroyer; arg = value }))
        w
        (register_reset_callback-Left (SameInner expanded) F errors memory inner_left ctx
          (record { func = t.layout.destroyer; arg = value }) w)
        (λ cb u same.
          Ends-then (λ x. SameInner expanded u.pg) Inner (λ h. F) (λ x. pure value)
            (ffi_guard errors (expanded.init_header value ctx)) u
            (guarded (λ x. SameInner expanded u.pg) (λ h. F) errors (λ c p h. h)
              (expanded.init_header value ctx) u (inits value ctx (armed u)))
            (λ x z more. more value ∙ same value ∙ at_value))

  restore-Inner :
      (v : V) (place s : ℕ) (w : World (Held P))
      → Holds api plain place (t.flatten_into v (t.flat_size v)) s w.pg
      → Ends
          (λ a h. expanded.inner a h.server ≡ v)
          (λ h. F)
          (restore errors memory api t expanded w)
  unfolding restore new_context
  restore-Inner v place s w ready =
      let ba : List ℕ = t.flatten_into v (t.flat_size v) in
      let Inner : ℕ → Held P → Type 0 = λ a h. expanded.inner a h.server ≡ v in
      let Got : ℕ → Held P → Type 0 = λ p h. (p ≡ place) × Holds api plain place ba s h in
      Ends-then Got Inner (λ h. F) _ (detoasted_ptr errors memory api) w
        (detoasted_ptr-Holds errors memory api plain F bytes place ba s w ready)
        (λ p w1 (_, h1).
          Ends-then (λ c. Same api plain w1.pg) Inner (λ h. F) _
            (new_context errors memory api t expanded) w1
            (guarded (λ c. Same api plain w1.pg) (λ h. F) errors (λ c q h. h)
              (memory.create w1.current_memory_context) w1
              (creates w1.current_memory_context (armed w1)))
            (λ ctx w2 same2.
              Ends-then (λ a. Same api plain w2.pg) Inner (λ h. F) _
                (alloc errors memory ctx t.layout 1) w2
                (alloc-Left (Same api plain) F errors memory bytes.memory_leaves ctx t.layout 1 w2)
                (λ value w3 same3.
                  Ends-then Got Inner (λ h. F) _ (detoasted_ptr errors memory api) w3
                    (detoasted_ptr-Holds errors memory api plain F bytes place ba s w3 (
                      Holds-Same place ba s w2.pg w3.pg same3
                        (Holds-Same place ba s w1.pg w2.pg same2 h1)))
                    (λ sized w4 (at_place, h4).
                      rw (at_place, h4.3)
                        (Ends-then (λ u h. u ≡ v) Inner (λ h. F) _ (t.restore_from ba) w4
                          (restores v w4)
                          (λ u w5 is_v.
                            let x : World (Held P) = record w5 {
                              pg = record {
                                object = w5.pg.object;
                                server = expanded.put_inner value u w5.pg.server;
                              };
                            } in
                            finished-Inner v ctx value x (puts value u w5.pg.server ∙ is_v)))))))

  -- Where no call of Postgres fails, an expanded object that Postgres flattens to a place, through
  -- get_flat_size and flatten_into, is read by an expanded_varlena for that place as an object
  -- with the same value, if the class restores a value from the bytes that it writes of it in its
  -- flat size, and its size stays below 2 ^ 30; if a call fails, an exception is thrown.
  -- Conditions: what is written with its size is a plain value (neither toasted nor a toast
  -- pointer to an expanded object), and a plain value is its own detoasted form.
  pub flat_round_trip :
      (v : V) (e result top ctx : ℕ) (w : World (Held P))
      → expanded.inner e w.pg.server ≡ v
      → FitsVarlena api plain (t.flatten_into v (t.flat_size v))
      → Ends
          (λ a h. expanded.inner a h.server ≡ v)
          (λ h. F)
          ((do
            size ← get_flat_size errors memory api t expanded e
            flatten_into errors memory api t expanded e result size
            construct errors memory api top result (some ctx)
            inner_of errors memory api t expanded none)
            w)
  unfolding get_flat_size flatten_into inner_of ptr
  flat_round_trip v e result top ctx w at_e fits =
      let ba : List ℕ = t.flatten_into v (t.flat_size v) in
      let x : World (Held P) = record w {
        pg = record { object = w.pg.object; server = api.write_varlena result ba w.pg.server };
      } in
      let sized : t.flat_size v + header_size - header_size ≡ t.flat_size v = omega arith in
      rw (at_e, sized)
        (Ends-then (λ u h. (s : ℕ) × Holds api plain result ba s h)
          (λ a h. expanded.inner a h.server ≡ v) (λ h. F) _
          (construct errors memory api top result (some ctx)) x
          (construct-Holds errors memory api plain F bytes result ba top ctx x
            (bytes.written result ba w.pg.server fits).0
            (bytes.written result ba w.pg.server fits).1)
          (λ u y (s, ready).
            simp
              (
                ready.1,
                not_gone errors memory api plain F bytes s y ready.2,
                ready.0,
                plain_is_flat result y.pg.server ready.4,
              )
              (restore-Inner v result s y ready)))
