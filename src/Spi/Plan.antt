-- ===== src/Spi/Plan.antt =====
-- `spi_plan` of executor.hpp: a plan with the memory context it lives in, freed by its object once it was kept.
use cppgres.Common.{ℕ, ◌<◌, Bool, true, false, if◌then◌else◌, ltb, ◌≡◌, arith}
use cppgres.World.{
  World, Cpp, pure, ◌>>=◌, ◌>>◌, throw, noexcept, std_exception, pointer_gone, returns, terminates,
}
use cppgres.Guard.{ErrorApi, ffi_guard}

-- SPI_keepplan and SPI_freeplan.
pub record PlanApi (P : Type 0) : Type 0 where
  pub keepplan : ℕ → Cpp P (Unit {0})
  pub freeplan : ℕ → Cpp P (Unit {0})

-- The object: `tracked` is false once its tracking context was moved out.
pub record SpiPlan : Type 0 where
  pub kept : Bool
  pub plan : ℕ
  pub tracked : Bool

module _ {P : Type 0} (errors : ErrorApi P) (api : PlanApi P) (resets : P → ℕ) where
  -- `resets` is the number of resets that the tracking context of the plan has seen; an object
  -- without a state reports none
  abbrev pub resets_of : SpiPlan → World P → ℕ
  resets_of p w = if p.tracked then resets w.pg else 0

  -- operator ::SPIPlanPtr()
  unfoldable pub to_plan : SpiPlan → Cpp P ℕ
  to_plan p w =
      if ltb 0 (resets_of p w) then throw (std_exception pointer_gone) w else returns p.plan w

  -- spi_plan(::SPIPlanPtr)
  unfoldable pub construct : ℕ → SpiPlan
  construct plan = record { kept = false; plan = plan; tracked = true }

  -- spi_plan(spi_plan &&p): the new object, and what is left of `p`
  unfoldable pub move_construct : SpiPlan → SpiPlan × SpiPlan
  move_construct p = (p, record p { kept = false; tracked = false })

  -- keep()
  unfoldable pub keep : SpiPlan → Cpp P SpiPlan
  unfolding to_plan
  keep p = do
    plan ← to_plan p
    ffi_guard errors (api.keepplan plan)
    pure (record p { kept = true })

  -- release()
  unfoldable pub release : SpiPlan → ℕ × SpiPlan
  release p = (p.plan, record p { kept = false })

  -- ~spi_plan(), which is noexcept
  unfoldable pub destroy : SpiPlan → Cpp P (Unit {0})
  unfolding to_plan
  destroy p w =
      if p.kept
      then noexcept (to_plan p >>= λ plan. ffi_guard errors (api.freeplan plan)) w
      else returns tt w

module _ {P : Type 0} (errors : ErrorApi P) (api : PlanApi P) (resets : P → ℕ) where
  -- An spi_plan that gives out its plan pointer gives the one it was made of, changes nothing, and
  -- the memory context of the plan has not been reset.
  pub to_plan_safe :
      (p : SpiPlan) (w v : World P) (q : ℕ)
      → to_plan errors api resets p w ≡ returns q v
      → (q ≡ p.plan) × (v ≡ w) × (resets_of errors api resets p w ≡ 0)
  unfolding to_plan
  to_plan_safe p w v q e = ground arith

  -- Destroying an spi_plan that was kept and not moved from, after its memory context was reset,
  -- ends the process.
  pub destroy_after_reset :
      (p : SpiPlan) (w : World P)
      → p.kept ≡ true
      → p.tracked ≡ true
      → 0 < resets w.pg
      → destroy errors api resets p w ≡ terminates
  unfolding destroy
  destroy_after_reset p w k t r = ground arith
