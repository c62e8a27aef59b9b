-- ===== src/DeviceTree/Parser/Tokens.antt =====
-- src/DeviceTree.cpp: the pointers that the accessors of the current token return.
use floss.Base.{ℕ, ◌+◌, ◌≤◌, ◌≡◌, refl, arith}
use floss.DeviceTree.Blob.{Memory}
use floss.DeviceTree.Parser as Walk
use floss.DeviceTree.Parser.{Parser, Token, begin_node, end_node, prop, nop, end, ok, fresh, init}
use floss.DeviceTree.Header
use floss.DeviceTree.Parser.Init.{field, Accepted}
use floss.DeviceTree.Parser.Next.Cases.{Stepped, Returned}

-- They are at most `limit`.
pub record PointersOk (limit : ℕ) (p : Parser) : Type 0 where
  pub node_name_ok : Walk.node_name p ≤ limit
  pub prop_name_ok : Walk.prop_name p ≤ limit
  pub prop_value_ok : Walk.prop_value p + Walk.prop_len p ≤ limit

-- A parser whose blocks end at `limit` or before.
pub record Below (limit : ℕ) (p : Parser) : Type 0 where
  pub struct_below : p.struct_end ≤ limit
  pub strings_below : p.strings + p.strings_size ≤ limit

pub Stepped-Below :
    {m : Memory} {limit : ℕ} {p p' : Parser} → Stepped m p p' → Below limit p → Below limit p'
Stepped-Below {p = p} {p' = p'} s b = record {
  struct_below = omega (arith, s.same_end, b.struct_below);
  strings_below = omega (arith, s.same_strings.0, s.same_strings.1, b.strings_below);
}

pointers :
    (m : Memory) (limit : ℕ) (p : Parser) (t : Token)
    → p.token ≡ t
    → Below limit p
    → Returned m p t
    → PointersOk limit p
unfolding Walk.node_name Walk.prop_name Walk.prop_value Walk.prop_len
pointers m limit p begin_node e b r = record {
  node_name_ok =
      rw (e, Walk.node_name) (omega (arith, r.after_start, r.before_end, b.struct_below));
  prop_name_ok = rw (e, Walk.prop_name) (omega arith);
  prop_value_ok = rw (e, Walk.prop_value, Walk.prop_len) (omega arith);
}
pointers m limit p end_node e b r = record {
  node_name_ok = rw (e, Walk.node_name) (omega arith);
  prop_name_ok = rw (e, Walk.prop_name) (omega arith);
  prop_value_ok = rw (e, Walk.prop_value, Walk.prop_len) (omega arith);
}
pointers m limit p prop e b r = record {
  node_name_ok = rw (e, Walk.node_name) (omega arith);
  prop_name_ok = rw (e, Walk.prop_name) (omega (arith, r.name_below, b.strings_below));
  prop_value_ok =
      rw (e, Walk.prop_value, Walk.prop_len) (omega (arith, r.value_end, b.struct_below));
}
pointers m limit p nop e b r = record {
  node_name_ok = rw (e, Walk.node_name) (omega arith);
  prop_name_ok = rw (e, Walk.prop_name) (omega arith);
  prop_value_ok = rw (e, Walk.prop_value, Walk.prop_len) (omega arith);
}
pointers m limit p end e b r = record {
  node_name_ok = rw (e, Walk.node_name) (omega arith);
  prop_name_ok = rw (e, Walk.prop_name) (omega arith);
  prop_value_ok = rw (e, Walk.prop_value, Walk.prop_len) (omega arith);
}

pub Stepped-PointersOk :
    {m : Memory} {limit : ℕ} {p p' : Parser} → Stepped m p p' → Below limit p → PointersOk limit p'
Stepped-PointersOk {m} {limit} {p} {p'} s b =
    pointers m limit p' p'.token refl (Stepped-Below {m = m} {p = p} {p' = p'} s b) s.returned

pub Accepted-Below :
    {m : Memory} {fdt : ℕ} {p : Parser}
    → Accepted m fdt p
    → Below (fdt + field m fdt Header.totalsize) p
Accepted-Below {m} {fdt} {p} a = record {
  struct_below = omega (arith, a.struct_fits, a.blob_size);
  strings_below = omega (arith, a.strings_fit, a.blob_size);
}
