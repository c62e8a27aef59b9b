-- ===== src/DeviceTree/Parser/Init.antt =====
-- src/DeviceTree.cpp, `Parser::init`: the checks of the header.
use floss.Base.{
  ℕ, ◌+◌, ◌≤◌, ◌≡◌, ◌≢◌, Bool, true, false, ◌||◌, arith, Outcome, done, ltb, ◌==◌, not,
  if◌then◌else◌, ℕ_discrete, dec_lt, Bool-cases, inl, inr, ◌∙◌,
}
use floss.DeviceTree.Blob.{Memory, IsReadable, be32, nullptr}
use floss.DeviceTree.Blob.Loads.{IsBytes, word_at, be32-eq}
use floss.DeviceTree.Header
use floss.DeviceTree.Parser.{
  Parser, end, Status, ok, bad_magic, unsupported_version, malformed, init, init_header,
  init_blocks, fdt_magic, fdt_supported_version,
}

-- The header of a blob at `fdt`, field by field.
abbrev pub field : Memory → ℕ → ℕ → ℕ
field m fdt offset = word_at m (fdt + offset)

-- Some block of the blob does not fit in its total size.
abbrev pub outside : Memory → ℕ → Bool
outside m fdt =
    ltb (field m fdt Header.totalsize)
      (field m fdt Header.off_dt_struct + field m fdt Header.size_dt_struct)
    || (ltb (field m fdt Header.totalsize)
          (field m fdt Header.off_dt_strings + field m fdt Header.size_dt_strings)
        || ltb (field m fdt Header.totalsize) (field m fdt Header.off_mem_rsvmap + 16))

-- The status for a header, the checks in the order of the code.
abbrev pub status_of : Memory → ℕ → Status
status_of m fdt =
    if not (field m fdt Header.magic == fdt_magic)
    then bad_magic
    else if ltb (field m fdt Header.version) fdt_supported_version
    then unsupported_version
    else if outside m fdt
    then malformed
    else ok

-- A parser that was accepted: it stands at the start of a structure block inside the blob.
pub record Accepted (m : Memory) (fdt : ℕ) (p : Parser) : Type 0 where
  pub accepted : p.valid ≡ true
  pub at_blob : p.blob ≡ fdt
  pub at_start : p.pos ≡ p.struct_start
  pub start : p.struct_start ≡ fdt + field m fdt Header.off_dt_struct
  pub size : p.struct_end ≡ p.struct_start + field m fdt Header.size_dt_struct
  pub struct_fits : p.struct_end ≤ p.blob_end
  pub strings_fit : p.strings + p.strings_size ≤ p.blob_end
  pub blob_size : p.blob_end ≡ fdt + field m fdt Header.totalsize

abbrev pub Left : Memory → ℕ → Status → Parser → Type 0
Left m fdt ok p = Accepted m fdt p
Left m fdt _ p = p.valid ≡ false

-- The parser once the blob's address is stored.
abbrev opened : Parser → ℕ → Parser
opened p fdt = record p { valid = false; header = fdt; blob = fdt }

abbrev header_result : Memory → Parser → ℕ → Outcome (Status × Parser)
header_result m q fdt =
    if not (field m fdt Header.magic == fdt_magic)
    then done (bad_magic, q)
    else if ltb (field m fdt Header.version) fdt_supported_version
    then done (unsupported_version, q)
    else done (
        init_blocks q (field m fdt Header.totalsize) (field m fdt Header.off_dt_struct)
          (field m fdt Header.off_dt_strings) (field m fdt Header.off_mem_rsvmap)
          (field m fdt Header.size_dt_struct) (field m fdt Header.size_dt_strings))

-- All the loads of the header succeed.
init-run :
    (m : Memory) (p : Parser) (fdt : ℕ)
    → IsBytes m
    → IsReadable m fdt 40
    → fdt ≢ nullptr
    → init m p fdt ≡ header_result m (opened p fdt) fdt
unfolding init init_header
init-run m p fdt b r ne = ground (
  arith,
  at Header.magic (omega arith),
  at Header.version (omega arith),
  at Header.totalsize (omega arith),
  at Header.off_dt_struct (omega arith),
  at Header.off_dt_strings (omega arith),
  at Header.off_mem_rsvmap (omega arith),
  at Header.size_dt_struct (omega arith),
  at Header.size_dt_strings (omega arith),
)
  where
    at : (offset : ℕ) → offset ≤ 36 → be32 m (fdt + offset) ≡ done (field m fdt offset)
    at offset h = be32-eq m (fdt + offset) b (omega (arith, r.above, r.below))

-- On a readable header `init` returns the status that the header's fields give; it leaves the
-- parser accepted on `ok` and invalid on every other status.
pub init-status :
    (m : Memory) (p : Parser) (fdt : ℕ)
    → IsBytes m
    → IsReadable m fdt 40
    → fdt ≢ nullptr
    → (p' : Parser) × (init m p fdt ≡ done (status_of m fdt, p')) × Left m fdt (status_of m fdt) p'
unfolding init_blocks
init-status m p fdt b r ne = elim (ℕ_discrete (field m fdt Header.magic) fdt_magic) [
  | no bad ↦ (opened p fdt, run ∙ ground arith, ground arith)
  | yes good ↦ elim (dec_lt (field m fdt Header.version) fdt_supported_version) [
    | yes old ↦ (opened p fdt, run ∙ ground arith, ground arith)
    | no new ↦ elim (Bool-cases (outside m fdt)) [
      | inl out ↦ (opened p fdt, run ∙ ground arith, ground arith)
      | inr fits ↦ (
        record (opened p fdt) {
          blob_end = fdt + field m fdt Header.totalsize;
          struct_start = fdt + field m fdt Header.off_dt_struct;
          struct_end = fdt + field m fdt Header.off_dt_struct + field m fdt Header.size_dt_struct;
          strings = fdt + field m fdt Header.off_dt_strings;
          strings_size = field m fdt Header.size_dt_strings;
          pos = fdt + field m fdt Header.off_dt_struct;
          token = end;
          depth = 0;
          node_name = nullptr;
          prop_name = nullptr;
          prop_value = nullptr;
          prop_len = 0;
          valid = true;
        },
        run ∙ ground arith,
        ground arith,
      )
    ]
  ]
]
  where
    run : init m p fdt ≡ header_result m (opened p fdt) fdt
    run = init-run m p fdt b r ne
