-- ===== src/Gic/V3/Frames.antt =====
-- src/interrupts/gicv3.cpp: the loops that do the same to every redistributor.
use mathlib.Core.Path.{fun_ext}
use floss.Base.{
  ℕ, zero, suc, ◌+◌, ◌≤◌, ◌≡◌, refl, ap, ◌&&◌, ltb, leb, ◌==◌, if◌then◌else◌, arith, inl, inr,
  Bool-cases, ==→eq,
}
use floss.Gic.Bus.{Bus}
use floss.Gic.Registers.{Controller, Bank, with_frame}
use floss.Gic.V3.{each_from}

-- `change` is made to the frames of the redistributors from `i` to `i + left`.
abbrev pub with_frames : Controller → ℕ → ℕ → (Bank → Bank) → Controller
with_frames c left i change = record c {
  frames = λ j. if leb i j && ltb j (i + left) then change (c.frames j) else c.frames j;
}

with_frames_step :
    (c : Controller) (left i : ℕ) (change : Bank → Bank)
    → with_frames (with_frame c i change) left (i + 1) change ≡ with_frames c (suc left) i change
with_frames_step c left i change =
    ap (λ f. record c { frames = f })
      (fun_ext λ j. elim (Bool-cases (i == j)) [
        | inl e ↦ rw (e, ap c.frames (==→eq i j e)) (ground arith)
        | inr e ↦ rw e (ground arith)
      ])

with_frames_none : (c : Controller) (i : ℕ) (change : Bank → Bank) → c ≡ with_frames c 0 i change
with_frames_none c i change = ap (λ f. record c { frames = f }) (fun_ext λ j. ground arith)

-- Two changes one after the other, to the same frames.
pub with_frames_twice :
    (c : Controller) (left i : ℕ) (f g : Bank → Bank)
    → with_frames (with_frames c left i f) left i g ≡ with_frames c left i (λ b. g (f b))
with_frames_twice c left i f g =
    ap (λ f. record c { frames = f })
      (fun_ext λ j. elim (Bool-cases (leb i j && ltb j (i + left))) [
        | inl e ↦ rw e refl
        | inr e ↦ rw e refl
      ])

-- A loop whose body changes one redistributor's frame changes all of them.
pub each_from_lem :
    {S : Type 0} (bus : Bus S) (view : S → Controller) (body : ℕ → S → S) (change : Bank → Bank)
    (last left i : ℕ) (s : S)
    → ((j : ℕ) (s : S) → j ≤ last → view (body j s) ≡ with_frame (view s) j change)
    → i + left ≤ last + 1
    → view (each_from bus left i body s) ≡ with_frames (view s) left i change
unfolding each_from
each_from_lem bus view body change last zero i s does h = with_frames_none (view s) i change
each_from_lem bus view body change last (suc left) i s does h =
    rw
      (
        each_from_lem bus view body change last left (i + 1) (body i s) does (omega arith),
        does i s (omega arith),
      )
      (with_frames_step (view s) left i change)
