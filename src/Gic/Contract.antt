-- ===== src/Gic/Contract.antt =====
-- src/interrupts/gic.h: what the kernel relies on when it sets an interrupt up through the interface
-- of the drivers, whichever driver was selected.
use floss.Base.{
  ℕ, ◌+◌, ◌≤◌, ◌<◌, ◌≡◌, inl, inr, Bool, true, false, not, ◌&&◌, ltb, leb, ◌==◌, ltb→lt, ltb-false,
  if◌then◌else◌, arith, ◌∙◌, ap, Bool-cases,
}
use floss.Gic.Bus.{Bus, InterruptPriority, priority_value}
use floss.Gic.Registers.{Controller, Bank, IsDistributor, IsV2}
use floss.Gic.Registers.Effect.{configured}
use floss.Gic.Registers.Redistributors.{IsRedistributor}
use floss.Gic.Select.{Drivers, GicDriver, vtable}
use floss.Gic.V2.Configure.{initialize_interrupt_lem}
use floss.Gic.V3.Configure.{initialize_shared_interrupt, initialize_private_interrupt}
use floss.Gic.V3.Frames.{with_frames}
use floss.Nodes.{v2, v3}

-- How an interrupt is set up.
pub record Setting : Type 0 where
  pub on : Bool
  pub group1 : Bool
  pub urgency : ℕ

abbrev pub setting_in : Bank → ℕ → Setting
setting_in b id = record { on = b.enabled id; group1 = b.grouped id; urgency = b.priority id }

abbrev pub set_up : InterruptPriority → Setting
set_up p = record { on = true; group1 = true; urgency = priority_value p }

-- For each core and each interrupt below 1024 there is a setting, and `initialize_interrupt` changes
-- that of its interrupt, for every core.
pub record Contract {S : Type 0} (gic : GicDriver S) (g : Drivers) (setting : S → ℕ → ℕ → Setting)
    (cores : ℕ) : Type 0 where
  pub sets :
      (id : ℕ) (p : InterruptPriority) (s : S) (core j : ℕ)
      → id < 1024
      → core < cores
      → setting (gic.initialize_interrupt g id p s) core j
        ≡ (if id == j then set_up p else setting s core j)

-- Every core sees the distributor of a GICv2.
abbrev pub setting_v2 : Controller → ℕ → ℕ → Setting
setting_v2 c core id = setting_in c.dist id

-- Those below 32 are each core's own in a GICv3.
abbrev pub setting_v3 : Controller → ℕ → ℕ → Setting
setting_v3 c core id = if ltb 31 id then setting_in c.dist id else setting_in (c.frames core) id

setting-configured :
    (id j v : ℕ) (b : Bank)
    → setting_in (configured id v b) j
      ≡ (if id == j then record { on = true; group1 = true; urgency = v } else setting_in b j)
setting-configured id j v b = elim (Bool-cases (id == j)) [ inl e ↦ rw e | inr e ↦ rw e ]

apart : (id j : ℕ) (b : Bool) → ltb 31 id ≡ b → ltb 31 j ≡ not b → (id == j) ≡ false
apart id j b h k = ground arith

shared_setting :
    (c : Controller) (core id j v : ℕ)
    → ltb 31 id ≡ true
    → setting_v3 (record c { dist = configured id v c.dist }) core j
      ≡ (if id == j then record { on = true; group1 = true; urgency = v } else setting_v3 c core j)
shared_setting c core id j v h = elim (Bool-cases (ltb 31 j)) [
  | inl e ↦ rw e (setting-configured id j v c.dist)
  | inr e ↦ rw (e, apart id j true h e)
]

covered : (core n : ℕ) → core < n → (leb 0 core && ltb core (0 + n)) ≡ true
covered core n h = ground arith

private_setting :
    (c : Controller) (core n id j v : ℕ)
    → core < n
    → ltb 31 id ≡ false
    → setting_v3 (with_frames c n 0 (configured id v)) core j
      ≡ (if id == j then record { on = true; group1 = true; urgency = v } else setting_v3 c core j)
private_setting c core n id j v h k = elim (Bool-cases (ltb 31 j)) [
  | inl e ↦ rw (e, apart id j false k e)
  | inr e ↦ rw (e, covered core n h) (setting-configured id j v (c.frames core))
]

module _ {S : Type 0} (bus : Bus S) (view : S → Controller) (rounds fuel : ℕ) (g : Drivers) where
  -- On a GICv2 whose registers do what is documented of them, its driver meets the contract of the
  -- interface for any number of cores: initialize_interrupt enables its interrupt in group 1 with the
  -- priority, and leaves the setting of every other one.
  pub v2-Contract :
      (lines cores : ℕ)
      → IsDistributor bus view g.driver_v2.gicd_base 0
      → IsV2 bus view g.driver_v2.gicd_base g.driver_v2.gicc_base lines
      → Contract (vtable bus rounds fuel v2) g (λ s. setting_v2 (view s)) cores
  unfolding vtable
  v2-Contract lines cores dist gic = record {
    sets = λ id p s core j small within.
        ap (λ c. setting_v2 c core j)
          (initialize_interrupt_lem bus view g.driver_v2 lines dist gic id p s small)
        ∙ setting-configured id j (priority_value p) (view s).dist;
  }

  -- On a GICv3 whose registers do what is documented of them, its driver meets the contract of the
  -- interface of the drivers for the cores whose redistributors it has found: initialize_interrupt
  -- enables its interrupt, below 1024, in group 1 with the priority, for every such core, and leaves
  -- the setting of every other interrupt.
  pub v3-Contract :
      (last : ℕ)
      → IsDistributor bus view g.driver_v3.gicd_base 1
      → IsRedistributor bus view g.driver_v3.gicr_base last
      → g.driver_v3.num_redistributors ≤ last + 1
      → Contract
          (vtable bus rounds fuel v3)
          g
          (λ s. setting_v3 (view s))
          g.driver_v3.num_redistributors
  unfolding vtable
  v3-Contract last dist sgi count = record {
    sets = λ id p s core j small within. elim (Bool-cases (ltb 31 id)) [
      | inl above ↦
          ap (λ c. setting_v3 c core j)
            (initialize_shared_interrupt bus view g.driver_v3 last dist sgi count id p s
              (ltb→lt 31 id above) small)
          ∙ shared_setting (view s) core id j (priority_value p) above
      | inr below ↦
          ap (λ c. setting_v3 c core j)
            (initialize_private_interrupt bus view g.driver_v3 last dist sgi count id p s
              (omega (arith, ltb-false 31 id below)))
          ∙ private_setting (view s) core g.driver_v3.num_redistributors id j (priority_value p)
              within below
    ];
  }

-- What the kernel makes of the contract: two interrupts one after the other.
module _ {S : Type 0} (gic : GicDriver S) (g : Drivers) (setting : S → ℕ → ℕ → Setting) (cores : ℕ)
    (contract : Contract gic g setting cores) where
  pub two_interrupts :
      (a b : ℕ) (p q : InterruptPriority) (s : S) (core j : ℕ)
      → a < 1024
      → b < 1024
      → core < cores
      → setting (gic.initialize_interrupt g b q (gic.initialize_interrupt g a p s)) core j
        ≡ (if b == j then set_up q else if a == j then set_up p else setting s core j)
  two_interrupts a b p q s core j la lb within =
      contract.sets b q (gic.initialize_interrupt g a p s) core j lb within
      ∙ ap (λ x. if b == j then set_up q else x) (contract.sets a p s core j la within)
