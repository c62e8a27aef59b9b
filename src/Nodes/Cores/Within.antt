-- ===== src/Nodes/Cores/Within.antt =====
-- src/cpu.cpp and src/boot/psci.cpp, the functions dt_parse: what they read of a node.
use floss.Base.{
  ℕ, ◌+◌, ◌*◌, ◌^◌, ◌%◌, ◌≤◌, ◌<◌, ◌≡◌, refl, inl, inr, Bool, length, length-set, get_or,
  get_elem?-eq-get_or, arith, done, panic, fault, ltb, ltb→lt, ◌==◌, ==→eq, some, u32,
  if◌then◌else◌, Bool-cases,
}
use Prim.Native.String.{String}
use floss.Base.Safe.{Safe, Safe-bind, Safe-kassert, Safe-if}
use floss.LibC.Text.{literal, text, until_nul}
use floss.DeviceTree.Blob.{Memory, be32, be64}
use floss.DeviceTree.Blob.Loads.{word_at, be64-eq}
use floss.DeviceTree.Frame.{NodeFrame, NodeCells, PropFrame, equals, byte_size, bytes_per_unit}
use floss.DeviceTree.Frame.Valid.{IsFlat, PropOk, NodeOk, equals-done, store-eq}
use floss.DeviceTree.Phandle.Notes.{load-word}
use floss.DeviceTree.Reg.{RegPair, read_reg_pair, read_prop}
use floss.Nodes.{props_from, num_reg_pairs}
use floss.Nodes.Timer.{props_from-Safe}
use floss.Nodes.Cores.{
  CpuInformation, Cpus, max_supported_cpus, Psci, hypervisor, secure_monitor, psci, spin_table,
  unknown, parse_enable_method, cpu_prop, parse_cpu, psci_method_from_str, psci_prop, parse_psci,
}

-- The cells of a "reg" property: at most two for an address and for a size, and not none for both.
pub record CellsOk (c : NodeCells) : Type 0 where
  pub address_small : c.address ≤ 2
  pub size_small : c.size ≤ 2
  pub some_cell : 0 < c.address + c.size

pub record CpusOk (c : Cpus) : Type 0 where
  pub few : c.num_cpus ≤ max_supported_cpus
  pub slots : length c.information ≡ max_supported_cpus

abbrev empty_information : CpuInformation
empty_information = record { reg = 0; enable_method = unknown; release_address = 0 }

abbrev Any {ℓ} : {S : Type ℓ} → S → Type 0
Any s = Unit {0}

module _ (m : Memory) (limit : ℕ) (flat : IsFlat m limit) where
  load-long : (p : ℕ) → p ≤ limit + 16 → be64 m p ≡ done (word_at m p * 2 ^ 32 + word_at m (p + 4))
  load-long p le = be64-eq m p flat.bytes (record {
    above = omega (arith, flat.from_zero);
    below = omega (arith, flat.from_zero, flat.slack);
  })

  -- A field of a pair, whatever the number of its cells.
  field-done :
      (cells p : ℕ)
      → p ≤ limit + 16
      → (v : ℕ) × ((if cells == 1 then be32 m p else if cells == 2 then be64 m p else done 0)
          ≡ done v)
  field-done cells p le =
      let e1 = load-word m limit flat p le in
      let e2 = load-long p le in
      elim (Bool-cases (cells == 1)) [
        | inl one ↦ (word_at m p, rw (one, e1))
        | inr more ↦ elim (Bool-cases (cells == 2)) [
          | inl two ↦ (word_at m p * 2 ^ 32 + word_at m (p + 4), rw (more, two, e2))
          | inr other ↦ (0, rw (more, other))
        ]
      ]

  pub read_reg_pair-done :
      (c : NodeCells) (p : ℕ)
      → CellsOk c
      → p ≤ limit
      → (rp : RegPair) × (read_reg_pair m c p ≡ done rp)
  unfolding read_reg_pair
  read_reg_pair-done c p ok le =
      let (address, e1) = field-done c.address p (omega arith) in
      let (size, e2) =
        field-done c.size (p + u32 (c.address * bytes_per_unit))
          (omega (arith, ok.address_small)) in
      (record { address = address; length = size }, rw (e1, e2))

  -- The division is defined.
  num_reg_pairs-Safe :
      (n : NodeFrame) (p : PropFrame) → CellsOk n.parent_cells → Safe (num_reg_pairs n p) Any
  unfolding num_reg_pairs byte_size
  num_reg_pairs-Safe n p ok =
      let size = u32 (u32 (n.parent_cells.address + n.parent_cells.size) * 4) in
      let positive : 0 < size = omega (arith, ok.address_small, ok.size_small, ok.some_cell) in
      Safe-if Any (size == 0) fault _
        (λ z. let none : size ≡ 0 = ==→eq size 0 z in absurd (omega arith))
        λ _. Safe-kassert Any (p.len % size == 0) _ λ _. tt

  -- A comparison with a string that is short.
  same-done :
      (p : ℕ) (s : String)
      → p ≤ limit
      → text (literal s) ≡ some (until_nul (literal s))
      → length (until_nul (literal s)) < 24
      → (b : Bool) × (equals m p s ≡ done b)
  same-done p s le ends short = equals-done p s (until_nul (literal s)) flat ends short le

  parse_enable_method-Safe :
      (n : NodeFrame) (p : PropFrame) → PropOk limit p → Safe (parse_enable_method m n p) Any
  unfolding parse_enable_method
  parse_enable_method-Safe n p (name, value) =
      let (b1, e1) = same-done p.value "psci" (omega arith) refl (omega arith) in
      let (b2, e2) = same-done p.value "spin-table" (omega arith) refl (omega arith) in
      rw (e1, e2)
        (Safe-if Any b1 (done psci) _ (λ _. tt)
          λ _. Safe-if Any b2 (done spin_table) panic (λ _. tt) λ _. tt)

  cpu_prop-Safe :
      (n : NodeFrame) (p : PropFrame) (info : CpuInformation)
      → CellsOk n.parent_cells
      → PropOk limit p
      → Safe (cpu_prop m n p info) Any
  unfolding cpu_prop
  cpu_prop-Safe n p info cells (name, value) =
      let (b1, e1) = same-done p.name "enable-method" name refl (omega arith) in
      let (b2, e2) = same-done p.name "cpu-release-addr" name refl (omega arith) in
      let (b3, e3) = same-done p.name "reg" name refl (omega arith) in
      let e4 = load-long p.value (omega arith) in
      let (rp, e5) = read_reg_pair-done n.parent_cells p.value cells (omega arith) in
      rw (e1, e2, e3, e4)
        (Safe-if Any b1 _ _
          (λ _.
            Safe-bind Any Any (parse_enable_method m n p) _
              (parse_enable_method-Safe n p (name, value)) λ _ _. tt)
          λ _.
            Safe-if Any b2 _ _ (λ _. tt)
              λ _.
                Safe-if Any b3 _ _
                  (λ _.
                    Safe-bind Any Any (num_reg_pairs n p) _ (num_reg_pairs-Safe n p cells)
                      λ k _. Safe-kassert Any (k == 1) _ λ _. rw e5 tt)
                  λ _. tt)

  psci_prop-Safe :
      (n : NodeFrame) (p : PropFrame) (s : Psci) → PropOk limit p → Safe (psci_prop m n p s) Any
  unfolding psci_prop psci_method_from_str read_prop
  psci_prop-Safe n p s (name, value) =
      let (b1, e1) = same-done p.name "cpu_on" name refl (omega arith) in
      let (b2, e2) = same-done p.name "method" name refl (omega arith) in
      let (b3, e3) = same-done p.value "hvc" (omega arith) refl (omega arith) in
      let (b4, e4) = same-done p.value "smc" (omega arith) refl (omega arith) in
      let e5 = load-word m limit flat p.value (omega arith) in
      let e6 = load-long p.value (omega arith) in
      rw (e1, e2, e3, e4, e5, e6)
        (Safe-if Any b1 _ _
          (λ _.
            Safe-bind Any Any (if p.len == 4 then _ else _) _
              (Safe-if Any (p.len == 4) _ _ (λ _. tt)
                λ _. Safe-if Any (p.len == 8) _ panic (λ _. tt) λ _. tt)
              λ _ _. tt)
          λ _.
            Safe-if Any b2 _ _
              (λ _.
                Safe-bind Any Any (if b3 then done hypervisor else _) _
                  (Safe-if Any b3 (done hypervisor) _ (λ _. tt)
                    λ _. Safe-if Any b4 (done secure_monitor) panic (λ _. tt) λ _. tt)
                  λ _ _. tt)
              λ _. tt)

-- On memory that can be read from address 0 to 24 bytes behind the blob, the handler of a psci node
-- ends for every node in bounds, whatever its properties hold.
parse_psci-Safe :
    (m : Memory) (limit : ℕ) (n : NodeFrame) (s : Psci)
    → IsFlat m limit
    → NodeOk limit n
    → Safe (parse_psci m n s) Any
unfolding parse_psci
parse_psci-Safe m limit n s flat ok =
    props_from-Safe limit Any (psci_prop m n) n.nprops 0 n s
      (λ p s' pok _. psci_prop-Safe m limit flat n p s' pok) ok (omega (arith, ok.room)) tt

-- On memory that can be read from address 0 to 24 bytes behind the blob, the handler of a cpu node
-- ends for every node in bounds whose parent has one or two cells for an address or a size, whatever
-- its properties hold: it leaves at most 16 cores in their array, or stops the kernel, and reads
-- nothing outside the memory and the node.
pub parse_cpu-Safe :
    (m : Memory) (limit : ℕ) (n : NodeFrame) (c : Cpus)
    → IsFlat m limit
    → NodeOk limit n
    → CellsOk n.parent_cells
    → CpusOk c
    → Safe (parse_cpu m n c) (λ c'. (c'.num_cpus ≡ c.num_cpus + 1) × CpusOk c')
unfolding parse_cpu
parse_cpu-Safe m limit n c flat ok cells cok =
    let After = λ (c' : Cpus). (c'.num_cpus ≡ c.num_cpus + 1) × CpusOk c' in
    Safe-kassert After (ltb c.num_cpus max_supported_cpus) _ λ room.
      let less = ltb→lt c.num_cpus max_supported_cpus room in
      let info = get_or c.information c.num_cpus empty_information in
      rw (get_elem?-eq-get_or c.information c.num_cpus empty_information (omega (arith, cok.slots)))
        (Safe-bind Any After (props_from (cpu_prop m n) n.nprops 0 n info) _
          (props_from-Safe limit Any (cpu_prop m n) n.nprops 0 n info
            (λ p i pok _. cpu_prop-Safe m limit flat n p i cells pok) ok (omega (arith, ok.room))
            tt)
          λ info' _. rw (store-eq c.information c.num_cpus info' (omega (arith, cok.slots))) (
            omega arith,
            record {
              few = omega arith;
              slots = omega (arith, cok.slots, length-set c.information c.num_cpus info');
            },
          ))
