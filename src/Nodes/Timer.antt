-- ===== src/Nodes/Timer.antt =====
-- src/timer.cpp, `Timer::dt_parse`, and the loop over the interrupts of a node that it shares with
-- src/uart.cpp: what they read of a node.
mod Tests
use native.Mathlib.Nat.{le_trans, mul-le-mul_left, mul-le-mul_right, div-mul-le_self}
use floss.Base.{
  ℕ, zero, suc, ◌+◌, ◌*◌, ◌/◌, ◌≤◌, ◌<◌, ◌≡◌, ◌≢◌, refl, inl, inr, Bool, true, false, not, Option,
  none, some, length, get_or, get_elem?-eq-get_or, arith, Outcome, done, panic, ◌>>=◌, ◌>>◌,
  kassert, leb, ◌==◌, ==→ne, u32, u64, if◌then◌else◌, Bool-cases, Option-cases,
}
use floss.Base.Safe.{Safe, Safe-bind, Safe-kassert, Safe-if}
use floss.LibC.Text.{literal, until_nul}
use floss.DeviceTree.Blob.{Memory, IsReadable, be32}
use floss.DeviceTree.Blob.Loads.{word_at, be32-eq}
use floss.DeviceTree.Frame.{
  NodeFrame, NodeCells, PropFrame, ParsingFrame, empty_prop, equals, max_props_per_node,
}
use floss.DeviceTree.Frame.Valid.{IsFlat, PropOk, NodeOk, equals-done}
use floss.DeviceTree.Interrupts
use floss.DeviceTree.Interrupts.{Interrupts, register_intid, reset}
use floss.DeviceTree.Interrupts.Order.{IsValid, register_intid_lem}
use floss.DeviceTree.Phandle.{Mappings, NodeMapping, lookup_interrupt_cells}
use floss.DeviceTree.Phandle.Clocks.{search, in_use, find_mapping-eq}
use floss.DeviceTree.Phandle.Notes.{MappingsOk, load-word}
use floss.DeviceTree.Reg.{read_interrupt_id}
use floss.Nodes.{props_from, register_from, parse_interrupts, timer_prop, parse_timer}

-- A loop over the properties of a node in bounds.
pub props_from-Safe {ℓ} :
    {S : Type ℓ} (limit : ℕ) (I : S → Type 0) (on_prop : PropFrame → S → Outcome S) (left i : ℕ)
    (n : NodeFrame) (s : S)
    → ((p : PropFrame) (s' : S) → PropOk limit p → I s' → Safe (on_prop p s') I)
    → NodeOk limit n
    → i + left ≤ max_props_per_node
    → I s
    → Safe (props_from on_prop left i n s) I
unfolding props_from
props_from-Safe limit I on_prop zero i n s kept ok h is = is
props_from-Safe limit I on_prop (suc left) i n s kept ok h is =
    let p = get_or n.props i empty_prop in
    rw (get_elem?-eq-get_or n.props i empty_prop (omega (arith, ok.slots))) (
      Safe-bind I I (on_prop p s) _ (kept p s (ok.props i) is)
        λ s' is'. props_from-Safe limit I on_prop left (i + 1) n s' kept ok (omega arith) is')

-- The look-up of the number of cells returns a positive one or stops the kernel.
lookup_interrupt_cells-Safe :
    (t : Mappings) (c : NodeCells)
    → MappingsOk t
    → Safe (lookup_interrupt_cells t c) (λ cells. cells ≢ 0)
unfolding lookup_interrupt_cells
lookup_interrupt_cells-Safe t c ok =
    Safe-kassert (λ cells. cells ≢ 0) (not (c.interrupt_parent == 0)) _
      λ _.
        rw (find_mapping-eq t c.interrupt_parent (omega (arith, ok.few, ok.slots)))
          (by_found (search c.interrupt_parent (in_use t)))
  where
    by_found :
        (found : Option NodeMapping)
        → Safe
            (elim found [
              | none ↦ panic
              | some e ↦ (do kassert (not (e.interrupt_cells == 0)); done e.interrupt_cells)
            ])
            (λ cells. cells ≢ 0)
    by_found none = tt
    by_found (some e) =
        Safe-kassert (λ cells. cells ≢ 0) (not (e.interrupt_cells == 0)) _
          λ positive. ==→ne e.interrupt_cells 0 (ground (arith, positive))

register_intid-Safe :
    (s : Interrupts) (intid : ℕ) → IsValid s → Safe (register_intid s intid) IsValid
register_intid-Safe s intid v = elim (register_intid_lem s intid v) [
  | inl (_, s', run, v', _) ↦ rw run v'
  | inr (_, run) ↦ rw run tt
]

module _ (m : Memory) (limit : ℕ) (flat : IsFlat m limit) where
  -- The number of an interrupt of one cell is read behind its property.
  read_interrupt_id-done :
      (p : PropFrame) (j cells : ℕ)
      → PropOk limit p
      → j * (cells * 4) ≤ p.len
      → (intid : ℕ) × (read_interrupt_id m p j cells ≡ done intid)
  unfolding read_interrupt_id
  read_interrupt_id-done p j cells (name, value) within =
      let at = u64 (j * u64 (cells * 4)) in
      let cut : u64 (cells * 4) ≤ cells * 4 = omega arith in
      let scaled = mul-le-mul_left j cut in
      let cut' : at ≤ j * u64 (cells * 4) = omega arith in
      let e0 = load-word m limit flat (p.value + at) (omega arith) in
      let e1 = load-word m limit flat (p.value + at + 4) (omega arith) in
      (
        (if word_at m (p.value + at) == 0
            then u32 (32 + word_at m (p.value + at + 4))
            else u32 (16 + word_at m (p.value + at + 4))),
        rw (e0, e1),
      )

  register_from-Safe :
      (left j : ℕ) (p : PropFrame) (cells : ℕ) (s : Interrupts)
      → PropOk limit p
      → (j + left) * (cells * 4) ≤ p.len
      → IsValid s
      → Safe (register_from left j m p cells s) IsValid
  unfolding register_from
  register_from-Safe zero j p cells s ok within v = v
  register_from-Safe (suc left) j p cells s ok within v =
      let less : j ≤ j + suc left = omega arith in
      let scaled = mul-le-mul_right (cells * 4) less in
      let (intid, run) = read_interrupt_id-done p j cells ok (omega arith) in
      let same : j + suc left ≡ j + 1 + left = omega arith in
      let within' : (j + 1 + left) * (cells * 4) ≤ p.len = rw same at within in
      rw run (
        Safe-bind IsValid IsValid (register_intid s intid) _ (register_intid-Safe s intid v)
          λ s' v'. register_from-Safe left (j + 1) p cells s' ok within' v')

  pub parse_interrupts-Safe :
      (t : Mappings) (n : NodeFrame) (p : PropFrame) (s : Interrupts)
      → MappingsOk t
      → PropOk limit p
      → IsValid s
      → Safe (parse_interrupts m t n p s) IsValid
  unfolding parse_interrupts reset
  parse_interrupts-Safe t n p s tok ok v =
      Safe-bind (λ cells. cells ≢ 0) IsValid (lookup_interrupt_cells t n.own_cells) _
        (lookup_interrupt_cells-Safe t n.own_cells tok)
        λ cells positive.
          let num = u32 (p.len / (cells * 4)) in
          let cut : num ≤ p.len / (cells * 4) = omega arith in
          let scaled = mul-le-mul_right (cells * 4) cut in
          let whole = div-mul-le_self p.len (cells * 4) in
          let none_before : 0 + num ≡ num = omega arith in
          let fits : (0 + num) * (cells * 4) ≤ p.len = rw none_before (le_trans scaled whole) in
          Safe-kassert IsValid (leb num Interrupts.capacity) _ λ few.
            register_from-Safe num 0 p cells (record s { num_intids = 0 }) ok fits
              (record { few = omega arith; storage = v.storage })

  timer_prop-Safe :
      (t : Mappings) (f : ParsingFrame) (n : NodeFrame) (p : PropFrame) (s : Interrupts)
      → MappingsOk t
      → PropOk limit p
      → IsValid s
      → Safe (timer_prop m t f n p s) IsValid
  unfolding timer_prop
  timer_prop-Safe t f n p s tok ok v =
      let (b, e) =
        equals-done p.name "interrupts" (until_nul (literal "interrupts")) flat refl (omega arith)
          ok.0 in
      rw e (
        Safe-if IsValid b (parse_interrupts m t n p s) (done s)
          (λ is. parse_interrupts-Safe t n p s tok ok v) λ other. v)

-- On memory that can be read from address 0 to 24 bytes behind the blob, the timer's handler ends for
-- every node in bounds, whatever its properties hold: it leaves at most five ids in their array, or
-- stops the kernel, and reads nothing outside the memory, the node and the table.
pub parse_timer-Safe :
    (m : Memory) (limit : ℕ) (t : Mappings) (f : ParsingFrame) (n : NodeFrame) (s : Interrupts)
    → IsFlat m limit
    → MappingsOk t
    → NodeOk limit n
    → IsValid s
    → Safe (parse_timer m t f n s) IsValid
unfolding parse_timer
parse_timer-Safe m limit t f n s flat tok ok v =
    props_from-Safe limit IsValid (timer_prop m t f n) n.nprops 0 n s
      (λ p s' pok v'. timer_prop-Safe m limit flat t f n p s' tok pok v') ok
      (omega (arith, ok.room)) v
