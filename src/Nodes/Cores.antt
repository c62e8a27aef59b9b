-- ===== src/Nodes/Cores.antt =====
-- src/cpu.cpp and src/boot/psci.cpp: the cores of the tree, and how the secondary ones are booted.
pub mod Within
mod Tests
use floss.Base.{
  ℕ, zero, suc, ◌+◌, ◌-◌, not, List, [], ◌∷◌, ◌++◌, ltb, ◌==◌, if◌then◌else◌, u32, Outcome, done,
  panic, ◌>>=◌, ◌>>◌, kassert, load, store,
}
use floss.DeviceTree.Blob.{Memory, be64}
use floss.DeviceTree.Frame.{NodeFrame, PropFrame, equals}
use floss.DeviceTree.Reg.{read_reg_pair, read_prop}
use floss.Nodes.{props_from, num_reg_pairs}

pub data EnableMethod : Type 0 where
  psci spin_table unknown : EnableMethod

pub record CpuInformation : Type 0 where
  pub reg : ℕ
  pub enable_method : EnableMethod
  pub release_address : ℕ

abbrev pub max_supported_cpus : ℕ
max_supported_cpus = 16

pub record Cpus : Type 0 where
  pub num_cpus : ℕ
  pub information : List CpuInformation

pub data PsciMethod : Type 0 where
  hypervisor secure_monitor : PsciMethod

pub record Psci : Type 0 where
  pub cpu_on : ℕ
  pub method : PsciMethod

abbrev pub default_psci : Psci
default_psci = record { cpu_on = 0xC4000003; method = secure_monitor }

module _ (m : Memory) (n : NodeFrame) where
  unfoldable pub parse_enable_method : PropFrame → Outcome EnableMethod
  parse_enable_method p = do
    is_psci ← equals m p.value "psci"
    if is_psci then done psci else (do
      is_spin_table ← equals m p.value "spin-table"
      if is_spin_table then done spin_table else panic)

  unfoldable pub cpu_prop : PropFrame → CpuInformation → Outcome CpuInformation
  cpu_prop p info = do
    is_method ← equals m p.name "enable-method"
    if is_method
        then (do method ← parse_enable_method p; done (record info { enable_method = method }))
        else (do
          is_release ← equals m p.name "cpu-release-addr"
          if is_release
              then (do address ← be64 m p.value; done (record info { release_address = address }))
              else (do
                is_reg ← equals m p.name "reg"
                if is_reg
                    then (do
                      k ← num_reg_pairs n p
                      kassert (k == 1)
                      rp ← read_reg_pair m n.parent_cells p.value
                      done (record info { reg = rp.address }))
                    else done info))

  -- `CPU::dt_parse`.
  unfoldable pub parse_cpu : Cpus → Outcome Cpus
  parse_cpu c = do
    kassert (ltb c.num_cpus max_supported_cpus)
    info ← load c.information c.num_cpus
    info' ← props_from cpu_prop n.nprops 0 n info
    information' ← store c.information c.num_cpus info'
    done (record { num_cpus = u32 (c.num_cpus + 1); information = information' })

  unfoldable pub psci_method_from_str : PropFrame → Outcome PsciMethod
  psci_method_from_str p = do
    is_hvc ← equals m p.value "hvc"
    if is_hvc
        then done hypervisor
        else (do is_smc ← equals m p.value "smc"; if is_smc then done secure_monitor else panic)

  unfoldable pub psci_prop : PropFrame → Psci → Outcome Psci
  psci_prop p s = do
    is_cpu_on ← equals m p.name "cpu_on"
    if is_cpu_on then (do v ← read_prop m p; done (record s { cpu_on = v })) else (do
      is_method ← equals m p.name "method"
      if is_method
          then (do method ← psci_method_from_str p; done (record s { method = method }))
          else done s)

  -- `PSCI::dt_parse`.
  unfoldable pub parse_psci : Psci → Outcome Psci
  parse_psci s = props_from psci_prop n.nprops 0 n s

-- What is asked of the firmware or of a waiting core.
pub data BootRequest : Type 0 where
  call : PsciMethod → (function target_cpu entry_point context_id : ℕ) → BootRequest
  release : (spin_address entry_point : ℕ) → BootRequest

unfoldable pub boot_core : Psci → ℕ → CpuInformation → ℕ → Outcome BootRequest
boot_core s entry info i = elim info.enable_method [
  | psci ↦ (do kassert (not (s.cpu_on == 0)); done (call s.method s.cpu_on info.reg entry i))
  | spin_table ↦ done (release info.release_address entry)
  | unknown ↦ panic
]

unfoldable pub boot_from : ℕ → ℕ → Psci → ℕ → Cpus → List BootRequest → Outcome (List BootRequest)
boot_from zero i s entry c requests = done requests
boot_from (suc left) i s entry c requests = do
  info ← load c.information i
  r ← boot_core s entry info i
  boot_from left (i + 1) s entry c (requests ++ (r ∷ []))

-- `boot_secondary_cores`, as the requests that it makes; their results are only reported.
unfoldable pub boot_secondary_cores : Psci → ℕ → Cpus → Outcome (List BootRequest)
boot_secondary_cores s entry c = boot_from (c.num_cpus - 1) 1 s entry c []
