-- ===== src/Stride/Fixed.antt =====
-- Numbers of three decimal places that stand for the floats of ex_project3/HYU-ELE3021/xv6-public/mlfq.c in
-- tests.
use operating_system.Common.{ℕ, suc, ◌+◌, ◌-◌, ◌*◌, ◌/◌, refl, ◌==◌, ltb, pos, negsuc, arith}
use operating_system.Stride.State.{Float}
use operating_system.Stride.Invariant.{FloatLaws}
use operating_system.Stride.Minimum.{OrderLaws}

-- 0 is the number -1, and a number of thousandths stands behind its successor.
abbrev pub fixed : Float
fixed = record {
  Num = ℕ;
  of_int = λ z. elim z [ pos n ↦ suc (n * 1000) | negsuc n ↦ 0 ];
  lt = ltb;
  eq = λ a b. a == b;
  add = λ a b. suc ((a - 1) + (b - 1));
  sub = λ a b. suc ((a - 1) - (b - 1));
  div = λ a b. suc (((a - 1) * 1000) / (b - 1));
}

pub fixed-FloatLaws : FloatLaws fixed
fixed-FloatLaws = record { neg_eq = refl; neg_not_pos = refl }

pub fixed-OrderLaws : OrderLaws fixed
fixed-OrderLaws = record {
  irrefl = λ a. ground arith;
  less_keeps = λ a b c h k. ground arith;
  less_first = λ a b c h k. ground arith;
}
