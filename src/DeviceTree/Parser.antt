-- ===== src/DeviceTree/Parser.antt =====
-- src/DeviceTree.cpp and src/DeviceTree.h, `DeviceTree::Parser`: the streaming token parser.
pub mod Next
pub mod Init
pub mod Tokens
pub mod Walk
mod Tests
use floss.Base.{
  ℕ, zero, suc, ◌+◌, ◌-◌, ◌*◌, ◌%◌, Bool, true, false, ◌&&◌, ◌||◌, not, Option, none, some, ltb,
  leb, ◌==◌, if◌then◌else◌, u32, bit_and, Outcome, done, stuck, ◌>>=◌,
}
use floss.DeviceTree.Header
use floss.DeviceTree.Blob.{Memory, nullptr, byte_at, be32, be64}
use floss.LibC.{strcmp}

pub data Token : Type 0 where
  begin_node end_node prop nop end : Token

pub data Status : Type 0 where
  ok bad_magic unsupported_version malformed : Status

-- The private members of the class. A pointer that is not set is `nullptr`.
pub record Parser : Type 0 where
  pub header : ℕ
  pub blob : ℕ
  pub blob_end : ℕ
  pub struct_start : ℕ
  pub struct_end : ℕ
  pub strings : ℕ
  pub strings_size : ℕ
  pub pos : ℕ
  pub token : Token
  pub node_name : ℕ
  pub prop_name : ℕ
  pub prop_value : ℕ
  pub prop_len : ℕ
  pub depth : ℕ
  pub valid : Bool

-- The default member initialisers.
abbrev pub fresh : Parser
fresh = record {
  header = nullptr;
  blob = nullptr;
  blob_end = nullptr;
  struct_start = nullptr;
  struct_end = nullptr;
  strings = nullptr;
  strings_size = 0;
  pos = nullptr;
  token = end;
  node_name = nullptr;
  prop_name = nullptr;
  prop_value = nullptr;
  prop_len = 0;
  depth = 0;
  valid = false;
}

abbrev pub fdt_magic : ℕ
fdt_magic = 0xd00dfeed

abbrev pub fdt_supported_version : ℕ
fdt_supported_version = 17

-- Advance a pointer to the next 4-byte boundary.
unfoldable pub align4 : ℕ → ℕ
align4 p = let m = bit_and p 3 in p + (if not (m == 0) then 4 - m else 0)

-- The fields of the header in host byte order.
unfoldable pub init_blocks : Parser → ℕ → ℕ → ℕ → ℕ → ℕ → ℕ → Status × Parser
init_blocks p totalsize off_struct off_strings off_rsvmap size_struct size_strings =
    if ltb totalsize (off_struct + size_struct)
      || (ltb totalsize (off_strings + size_strings) || ltb totalsize (off_rsvmap + 16))
    then (malformed, p)
    else (
      ok,
      record p {
        blob_end = p.blob + totalsize;
        struct_start = p.blob + off_struct;
        struct_end = p.blob + off_struct + size_struct;
        strings = p.blob + off_strings;
        strings_size = size_strings;
        pos = p.blob + off_struct;
        token = end;
        depth = 0;
        node_name = nullptr;
        prop_name = nullptr;
        prop_value = nullptr;
        prop_len = 0;
        valid = true;
      },
    )

unfoldable pub init_header : Memory → Parser → ℕ → Outcome (Status × Parser)
init_header m p fdt = do
  magic ← be32 m (fdt + Header.magic)
  let body = (do
    version ← be32 m (fdt + Header.version)
    let rest = (do
      totalsize ← be32 m (fdt + Header.totalsize)
      off_struct ← be32 m (fdt + Header.off_dt_struct)
      off_strings ← be32 m (fdt + Header.off_dt_strings)
      off_rsvmap ← be32 m (fdt + Header.off_mem_rsvmap)
      size_struct ← be32 m (fdt + Header.size_dt_struct)
      size_strings ← be32 m (fdt + Header.size_dt_strings)
      done (init_blocks p totalsize off_struct off_strings off_rsvmap size_struct size_strings))
    if ltb version fdt_supported_version then done (unsupported_version, p) else rest)
  if not (magic == fdt_magic) then done (bad_magic, p) else body

unfoldable pub init : Memory → Parser → ℕ → Outcome (Status × Parser)
init m p fdt =
    if fdt == nullptr
    then done (malformed, record p { valid = false })
    else init_header m (record p { valid = false; header = fdt; blob = fdt }) fdt

unfoldable pub totalsize : Memory → Parser → Outcome ℕ
totalsize m p = if p.header == nullptr then done 0 else be32 m (p.header + Header.totalsize)

unfoldable pub version : Memory → Parser → Outcome ℕ
version m p = if p.header == nullptr then done 0 else be32 m (p.header + Header.version)

unfoldable pub last_comp_version : Memory → Parser → Outcome ℕ
last_comp_version m p =
    if p.header == nullptr then done 0 else be32 m (p.header + Header.last_comp_version)

unfoldable pub boot_cpuid_phys : Memory → Parser → Outcome ℕ
boot_cpuid_phys m p =
    if p.header == nullptr then done 0 else be32 m (p.header + Header.boot_cpuid_phys)

-- The result with `out_address` and `out_size`, or `none` where nothing is written to them.
-- The sum of the header's offset and `16 * index` is of type uint32_t.
unfoldable pub reserve_entry : Memory → Parser → ℕ → Outcome (Bool × Option (ℕ × ℕ))
reserve_entry m p index = if not p.valid then done (false, none) else (do
  off ← be32 m (p.header + Header.off_mem_rsvmap)
  let q = p.blob + u32 (off + u32 (16 * index))
  let entry = (do
    address ← be64 m q
    size ← be64 m (q + 8)
    done (not (address == 0) || not (size == 0), some (address, size)))
  if ltb p.blob_end (q + 16) then done (false, none) else entry)

-- The parser after a return of `Token::End` that gives up the rest of the block.
abbrev pub give_up : Parser → Parser
give_up p = record p { token = end; pos = p.struct_end }

-- `while (scan < end && *scan != '\0')`, with `left` bytes up to `end`.
unfoldable pub scan_nul : Memory → ℕ → ℕ → Outcome ℕ
scan_nul m zero scan = done scan
scan_nul m (suc left) scan = do
  c ← byte_at m scan
  let rest = scan_nul m left (scan + 1)
  if c == 0 then done scan else rest

-- The three cases of the switch that read on. `p.pos` is behind the token.
unfoldable pub begin_node_case : Memory → Parser → Outcome Parser
begin_node_case m p = do
  scan ← scan_nul m (p.struct_end - p.pos) p.pos
  if leb p.struct_end scan
      then done (give_up p)
      else done (record p {
        pos = align4 (scan + 1);
        node_name = p.pos;
        depth = u32 (p.depth + 1);
        token = begin_node;
      })

unfoldable pub end_node_case : Parser → Parser
end_node_case p = record p {
  depth = if ltb 0 p.depth then p.depth - 1 else p.depth;
  token = end_node;
}

unfoldable pub prop_case : Memory → Parser → Outcome Parser
prop_case m p = if ltb p.struct_end (p.pos + 8) then done (give_up p) else (do
  len ← be32 m p.pos
  nameoff ← be32 m (p.pos + 4)
  let value = p.pos + 8
  if ltb p.struct_end (value + len)
      then done (give_up (record p { pos = value }))
      else done (record p {
        pos = align4 (value + len);
        prop_len = len;
        prop_value = value;
        prop_name = if ltb nameoff p.strings_size then p.strings + nameoff else nullptr;
        token = prop;
      }))

-- `for (;;)`, which goes round again behind a Nop.
unfoldable pub next_loop : Memory → ℕ → Parser → Outcome Parser
next_loop m zero p = stuck
next_loop m (suc fuel) p = if ltb p.struct_end (p.pos + 4) then done (give_up p) else (do
  raw ← be32 m p.pos
  let q : Parser = record p { pos = p.pos + 4 }
  let again = next_loop m fuel q
  if raw == 1
      then begin_node_case m q
      else if raw == 2
      then done (end_node_case q)
      else if raw == 3
      then prop_case m q
      else if raw == 4
      then again
      else done (give_up q))

-- Each round takes four bytes, so the bytes that are left bound the rounds.
unfoldable pub next : Memory → Parser → Outcome Parser
next m p =
    if not p.valid || leb p.struct_end p.pos
    then done (record p { token = end })
    else next_loop m (p.struct_end - p.pos) p

-- The accessors of the current token.
unfoldable pub node_name : Parser → ℕ
node_name p = elim p.token [ begin_node ↦ p.node_name | _ ↦ nullptr ]

unfoldable pub prop_name : Parser → ℕ
prop_name p = elim p.token [ prop ↦ p.prop_name | _ ↦ nullptr ]

unfoldable pub prop_value : Parser → ℕ
prop_value p = elim p.token [ prop ↦ p.prop_value | _ ↦ nullptr ]

unfoldable pub prop_len : Parser → ℕ
prop_len p = elim p.token [ prop ↦ p.prop_len | _ ↦ 0 ]
