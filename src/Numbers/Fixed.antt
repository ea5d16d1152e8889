-- ===== src/Numbers/Fixed.antt =====
-- An instance of `Numbers` that meets the laws: integers that count ten-thousandths.
use protocol_monitor.Common.{
  ℕ, zero, suc, ◌-◌, ◌*◌, ◌/◌, ◌%◌, ◌||◌, ◌&&◌, ltb, ◌==◌, if◌then◌else◌, ◌≡◌, true, arith,
}
use protocol_monitor.Common.Int.{ℤ, pos, negsuc, ◌+ℤ◌, ◌-ℤ◌, ◌*ℤ◌, quot, neg_ℤ, ltb_ℤ, leb_ℤ, eqb_ℤ}
use protocol_monitor.Numbers.{Numbers}
use protocol_monitor.Numbers.Laws.{IsOrdered, IsRounded}
use Prim.Native.Nat.{◌^◌}

abbrev pub scale : ℕ
scale = 10_000

-- The nearest multiple of `unit`, the even one of two.
abbrev nearest : ℕ → ℕ → ℕ
nearest unit a =
    let q = a / unit in
    let r = a % unit in
    if ltb (2 * r) unit || (2 * r == unit && q % 2 == 0) then q * unit else suc q * unit

abbrev round_fixed : ℤ → ℕ → ℤ
round_fixed (pos a) digits = pos (nearest (10 ^ (4 - digits)) a)
round_fixed (negsuc a) digits = neg_ℤ (pos (nearest (10 ^ (4 - digits)) (suc a)))

abbrev pub fixed : Numbers
fixed = record {
  Float = ℤ;
  Decimal = ℤ;
  float = λ d. d;
  lit = λ m k. pos (m * scale / 10 ^ k);
  add = ◌+ℤ◌;
  sub = ◌-ℤ◌;
  mul = λ a b. quot (a *ℤ b) (pos scale);
  div = λ a b. quot (a *ℤ pos scale) b;
  neg = neg_ℤ;
  lt = ltb_ℤ;
  le = leb_ℤ;
  eq = eqb_ℤ;
  round = round_fixed;
  dec_lit = λ m k. pos (m * scale / 10 ^ k);
  dec_add = ◌+ℤ◌;
  dec_sub = ◌-ℤ◌;
  dec_mul = λ a b. quot (a *ℤ b) (pos scale);
  dec_lt = ltb_ℤ;
  dec_le = leb_ℤ;
}

pub fixed-IsOrdered : IsOrdered fixed
fixed-IsOrdered = ground arith

mul_nonneg_fixed :
    (a b : ℤ)
    → leb_ℤ (pos 0) a ≡ true
    → leb_ℤ (pos 0) b ≡ true
    → leb_ℤ (pos 0) (quot (a *ℤ b) (pos scale)) ≡ true
unfolding ◌*ℤ◌ quot
mul_nonneg_fixed (pos a) (pos b) h k = ground arith
mul_nonneg_fixed (pos a) (negsuc b) h k = ground arith
mul_nonneg_fixed (negsuc a) b h k = ground arith

div_nonneg_fixed :
    (a b : ℤ)
    → leb_ℤ (pos 0) a ≡ true
    → ltb_ℤ (pos 0) b ≡ true
    → leb_ℤ (pos 0) (quot (a *ℤ pos scale) b) ≡ true
unfolding ◌*ℤ◌ quot
div_nonneg_fixed (pos a) (pos b) h k = ground arith
div_nonneg_fixed (pos a) (negsuc b) h k = ground arith
div_nonneg_fixed (negsuc a) b h k = ground arith

lit_pos_fixed : (n : ℕ) → ltb_ℤ (pos 0) (pos (suc n * scale / 10 ^ 0)) ≡ true
lit_pos_fixed n = ground arith

div_pos_fixed :
    (a b : ℤ)
    → ltb_ℤ (pos 0) b ≡ true
    → ltb_ℤ (pos 0) (quot (a *ℤ pos scale) b) ≡ true
    → ltb_ℤ (pos 0) a ≡ true
unfolding ◌*ℤ◌ quot
div_pos_fixed (pos zero) (pos b) h k = ground arith
div_pos_fixed (pos (suc a)) b h k = ground arith
div_pos_fixed (pos zero) (negsuc b) h k = ground arith
div_pos_fixed (negsuc a) (pos b) h k = ground arith
div_pos_fixed (negsuc a) (negsuc b) h k = ground arith

halve-le_fixed :
    (a : ℤ)
    → leb_ℤ (pos 0) a ≡ true
    → (leb_ℤ (pos 0) (quot (a *ℤ pos 5000) (pos scale)) ≡ true)
      × (leb_ℤ (quot (a *ℤ pos 5000) (pos scale)) a ≡ true)
unfolding ◌*ℤ◌ quot
halve-le_fixed (pos a) h = ground arith
halve-le_fixed (negsuc a) h = ground arith

pub fixed-IsRounded : IsRounded fixed
unfolding ◌+ℤ◌ ◌-ℤ◌ neg_ℤ
fixed-IsRounded = record {
  sub_pos = λ a b. ground arith;
  sub_mono = λ a b c h. ground arith;
  add_mono = λ a b c h. ground arith;
  mul_nonneg = mul_nonneg_fixed;
  div_nonneg = div_nonneg_fixed;
  add_nonneg = λ a b h k. ground arith;
  neg_nonneg = λ a h. ground arith;
  lit_pos = λ n. lit_pos_fixed n;
  div_pos = div_pos_fixed;
  sub-le = λ a b h. ground arith;
  le-add = λ a b h. ground arith;
  halve-le = halve-le_fixed;
}
