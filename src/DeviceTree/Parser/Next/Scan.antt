-- ===== src/DeviceTree/Parser/Next/Scan.antt =====
-- src/DeviceTree.cpp, `Parser::next`: the bounded scan for the NUL of a node name, and the padding.
use floss.Base.{
  ℕ, zero, suc, ◌+◌, ◌%◌, ◌≤◌, ◌<◌, ◌≡◌, refl, ◌≢◌, arith, done, bit_and_mask, ℕ_discrete, eq→==,
  ne→==,
}
use floss.DeviceTree.Blob.{Memory, IsReadable}
use floss.DeviceTree.Blob.Loads.{byte, byte_at-eq}
use floss.DeviceTree.Parser.{scan_nul, align4}

-- Padding goes to the next multiple of four, at most three bytes on.
pub align4_bounds : (p : ℕ) → (p ≤ align4 p) × (align4 p ≤ p + 3) × (align4 p % 4 ≡ 0)
unfolding align4
align4_bounds p = ground (arith, bit_and_mask 2 p)

-- The scan stops at the first NUL, or at the end of the bytes that it may read.
pub record Scanned (m : Memory) (scan left q : ℕ) : Type 0 where
  pub from : scan ≤ q
  pub upto : q ≤ scan + left
  pub nul : q < scan + left → byte m q ≡ 0
  pub before : (r : ℕ) → scan ≤ r → r < q → byte m r ≢ 0

pub scan_nul-Scanned :
    (m : Memory) (left scan : ℕ)
    → IsReadable m scan left
    → (q : ℕ) × (scan_nul m left scan ≡ done q) × Scanned m scan left q
unfolding scan_nul
scan_nul-Scanned m zero scan r = (
  scan,
  refl,
  record {
    from = omega arith;
    upto = omega arith;
    nul = λ h. absurd (omega arith);
    before = λ k h h'. absurd (omega arith);
  },
)
scan_nul-Scanned m (suc left) scan r = elim (ℕ_discrete (byte m scan) 0) [
  | yes z ↦ (
    scan,
    rw (byte_at-eq m scan (omega (arith, r.above, r.below)), eq→== (byte m scan) 0 z),
    record {
      from = omega arith;
      upto = omega arith;
      nul = λ _. z;
      before = λ k h h'. absurd (omega arith);
    },
  )
  | no nz ↦
      let (q, e, s) = scan_nul-Scanned m left (scan + 1) (omega (arith, r.above, r.below)) in
      (
        q,
        rw (byte_at-eq m scan (omega (arith, r.above, r.below)), ne→== (byte m scan) 0 nz) e,
        record {
          from = omega (arith, s.from);
          upto = omega (arith, s.upto);
          nul = λ h. s.nul (omega arith);
          before = λ k h h'. elim (ℕ_discrete scan k) [
            | yes same ↦ rw (← same) nz
            | no ne ↦ s.before k (omega arith) h'
          ];
        },
      )
]
