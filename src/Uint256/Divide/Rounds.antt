-- ===== src/Uint256/Divide/Rounds.antt =====
-- The rounds of the division of 256-bit values.
use vitex.Common.{
  ℕ, zero, suc, ◌+◌, ◌-◌, ◌*◌, ◌^◌, ◌≡◌, ◌≤◌, ◌<◌, arith, ap, ap₂, ◌∙◌, Bool-cases, if_both, inl,
  inr, Option, some, pow-add, two-pow-pos,
}
use vitex.Common.Bits.{or-disjoint}
use native.Mathlib.Nat.{pow-suc}
use vitex.Uint256.Word.{Uint256, IsWide, value, value-lt, ge, bitwise_or, ge_lem}
use vitex.Uint256.Arith.{sub, sub-IsWide, value-sub_256}
use vitex.Uint256.Logic.{bitwise_or-IsWide, value-bitwise_or}
use vitex.Uint256.Shift.Wide.{shr-IsWide}
use vitex.Uint256.Divide.{
  of_number, State, take_away, move_down, divide_loop, divide_loop_done, value-move_down,
}

-- `qr` is the quotient and the remainder of the two numbers.
pub record IsDivision (left right : Uint256) (qr : Uint256 × Uint256) : Type 0 where
  pub quotient_wide : IsWide qr.0
  pub remainder_wide : IsWide qr.1
  pub exact : value qr.0 * value right + value qr.1 ≡ value left
  pub small : value qr.1 < value right

-- A state of the loop where the remainder is below `bound` times the divisor, and the quotient is a
-- multiple of `bound`.
pub record IsPartial (left right : Uint256) (k : ℕ) (quotient remainder : Uint256) : Type 0 where
  pub quotient_wide : IsWide quotient
  pub remainder_wide : IsWide remainder
  pub multiple : ℕ
  pub quotient_is : value quotient ≡ multiple * 2 ^ k
  pub exact : value quotient * value right + value remainder ≡ value left
  pub small : value remainder < value right * 2 ^ k

-- The moved divisor stands at place `k`.
pub record IsPlaced (right : Uint256) (k : ℕ) (s : State) : Type 0 where
  pub copyd_wide : IsWide s.copyd
  pub adder_wide : IsWide s.adder
  pub copyd_is : value s.copyd ≡ value right * 2 ^ k
  pub adder_is : value s.adder ≡ 2 ^ k

pub double : (r k : ℕ) → r * 2 ^ suc k ≡ 2 * (r * 2 ^ k)
double r k = ap (λ (t : ℕ). r * t) (pow-suc 2 k) ∙ regroup (2 ^ k)
  where
    regroup : (t : ℕ) → r * (t * 2) ≡ 2 * (r * t)
    regroup t = omega arith

exact_step : (q r a d n : ℕ) → d * a ≤ r → q * d + r ≡ n → (q + a) * d + (r - d * a) ≡ n
exact_step q r a d n h e = omega arith

-- The end of a round, at the next place.
pub move_down-IsPlaced :
    (right : Uint256) (j : ℕ) (s : State)
    → IsPlaced right (suc j) s
    → IsPlaced right j (move_down s)
unfolding move_down
move_down-IsPlaced right j s at =
    let (halved, halved_adder) = value-move_down s at.copyd_wide at.adder_wide in
    record {
      copyd_wide = shr-IsWide s.copyd (of_number 1) at.copyd_wide;
      adder_wide = shr-IsWide s.adder (of_number 1) at.adder_wide;
      copyd_is = halved ∙ omega (arith, at.copyd_is, double (value right) j);
      adder_is = halved_adder ∙ omega (arith, at.adder_is, pow-suc 2 j);
    }

take_away-IsPlaced :
    (right : Uint256) (k : ℕ) (s : State) → IsPlaced right k s → IsPlaced right k (take_away s)
unfolding take_away
take_away-IsPlaced right k s at =
    if_both (IsPlaced right k) (ge s.remainder s.copyd)
      (λ _. record {
        copyd_wide = at.copyd_wide;
        adder_wide = at.adder_wide;
        copyd_is = at.copyd_is;
        adder_is = at.adder_is;
      })
      (λ _. at)

-- A division that ends with quotient and remainder.
abbrev pub Ends : Uint256 → Uint256 → Option (Uint256 × Uint256) → Type 0
Ends left right o = (qr : Uint256 × Uint256) × (o ≡ some qr) × IsDivision left right qr

module _ (left right : Uint256) (v : IsWide left) (w : IsWide right) where
  module _ (k : ℕ) (s : State) (p : IsPartial left right (suc k) s.quotient s.remainder)
      (at : IsPlaced right k s) where
    taking :
        value s.copyd ≤ value s.remainder
        → IsPartial left right k (bitwise_or s.quotient s.adder) (sub s.remainder s.copyd)
    taking h = record {
      quotient_wide = bitwise_or-IsWide s.quotient s.adder p.quotient_wide at.adder_wide;
      remainder_wide = sub-IsWide s.remainder s.copyd p.remainder_wide at.copyd_wide;
      multiple = 2 * p.multiple + 1;
      quotient_is = omega (arith, added, double p.multiple k, p.quotient_is);
      exact =
          ap₂ (λ (a b : ℕ). a * value right + b) added
            (rest ∙ ap (λ (t : ℕ). value s.remainder - t) at.copyd_is)
          ∙ exact_step (value s.quotient) (value s.remainder) (2 ^ k) (value right) (value left)
              (omega (arith, at.copyd_is)) p.exact;
      small = omega (arith, rest, at.copyd_is, p.small, double (value right) k);
    }
      where
        added : value (bitwise_or s.quotient s.adder) ≡ value s.quotient + 2 ^ k
        added =
            value-bitwise_or s.quotient s.adder p.quotient_wide at.adder_wide
            ∙ rw (at.adder_is, p.quotient_is)
                (or-disjoint (suc k) p.multiple (2 ^ k)
                  (omega (arith, pow-add 2 1 k, two-pow-pos k)))

        rest : value (sub s.remainder s.copyd) ≡ value s.remainder - value s.copyd
        rest = omega (
          arith,
          value-sub_256 s.remainder s.copyd p.remainder_wide at.copyd_wide,
          value-lt s.remainder p.remainder_wide,
        )

    keeping : value s.remainder < value s.copyd → IsPartial left right k s.quotient s.remainder
    keeping h = record {
      quotient_wide = p.quotient_wide;
      remainder_wide = p.remainder_wide;
      multiple = 2 * p.multiple;
      quotient_is = omega (arith, double p.multiple k, p.quotient_is);
      exact = p.exact;
      small = omega (arith, at.copyd_is);
    }

    take_away-IsPartial : IsPartial left right k (take_away s).quotient (take_away s).remainder
    unfolding take_away
    take_away-IsPartial = elim (Bool-cases (ge s.remainder s.copyd)) [
      | inl e ↦
          rw e (taking (ground (arith, ge_lem s.remainder s.copyd p.remainder_wide at.copyd_wide)))
      | inr e ↦
          rw e (keeping (ground (arith, ge_lem s.remainder s.copyd p.remainder_wide at.copyd_wide)))
    ]

  -- A remainder below the divisor ends the loop.
  done :
      (fuel k : ℕ) (s : State)
      → IsPartial left right k s.quotient s.remainder
      → value s.remainder < value right
      → Ends left right (divide_loop fuel right s)
  done fuel k s p less = (
    (s.quotient, s.remainder),
    divide_loop_done fuel right s (ground (arith, ge_lem s.remainder right p.remainder_wide w)),
    record {
      quotient_wide = p.quotient_wide;
      remainder_wide = p.remainder_wide;
      exact = p.exact;
      small = less;
    },
  )

  pub loop-Ends :
      (k fuel : ℕ) (s : State)
      → k < fuel
      → IsPartial left right (suc k) s.quotient s.remainder
      → IsPlaced right k s
      → Ends left right (divide_loop fuel right s)
  unfolding divide_loop move_down
  loop-Ends k zero s h p at = absurd (omega arith)
  loop-Ends zero (suc fuel) s h p at = elim (Bool-cases (ge s.remainder right)) [
    | inl e ↦
        let q = take_away-IsPartial zero s p at in
        rw e (
          done fuel zero (move_down (take_away s))
            (record {
              quotient_wide = q.quotient_wide;
              remainder_wide = q.remainder_wide;
              multiple = q.multiple;
              quotient_is = q.quotient_is;
              exact = q.exact;
              small = q.small;
            })
            (omega (arith, q.small)))
    | inr e ↦
        done (suc fuel) (suc zero) s p (ground (arith, ge_lem s.remainder right p.remainder_wide w))
  ]
  loop-Ends (suc k) (suc fuel) s h p at = elim (Bool-cases (ge s.remainder right)) [
    | inl e ↦
        let q = take_away-IsPartial (suc k) s p at in
        rw e (
          loop-Ends k fuel (move_down (take_away s)) (omega arith)
            (record {
              quotient_wide = q.quotient_wide;
              remainder_wide = q.remainder_wide;
              multiple = q.multiple;
              quotient_is = q.quotient_is;
              exact = q.exact;
              small = q.small;
            })
            (move_down-IsPlaced right k (take_away s) (take_away-IsPlaced right (suc k) s at)))
    | inr e ↦
        done (suc fuel) (suc (suc k)) s p
          (ground (arith, ge_lem s.remainder right p.remainder_wide w))
  ]
