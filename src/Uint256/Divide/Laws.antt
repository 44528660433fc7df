-- ===== src/Uint256/Divide/Laws.antt =====
-- 257 rounds are enough for the division of 256-bit values, and give quotient and remainder.
use vitex.Common.{
  ℕ, zero, suc, ◌+◌, ◌-◌, ◌*◌, ◌%◌, ◌^◌, ◌≡◌, ◌≤◌, ◌<◌, arith, refl, ap, sym, ◌∙◌, true, false,
  if_both, some, ◌||◌, if◌then◌else◌, pow-sub-mul, two-pow-lt_inv, two-pow-pos,
}
use mathlib.Core.Path.{subst}
use native.Mathlib.Nat.{mod-eq_of_lt, pow-suc, mul-le-mul_right, pow-le-pow_right}
use vitex.Uint256.Word.{Uint256, IsWide, value, eq, lt, gt, eq_lem, lt_lem, gt_lem}
use vitex.Uint256.Shift.{shl}
use vitex.Uint256.Shift.Wide.{shl-IsWide}
use vitex.Uint256.Shift.Laws.{value-shl_256}
use vitex.Uint256.Width.{bits, bits_256_lem, bits-le}
use vitex.Uint256.Divide.{of_number, State, move_down, divide_loop, divide}
use vitex.Uint256.Divide.Rounds.{
  IsDivision, IsPartial, IsPlaced, Ends, double, move_down-IsPlaced, loop-Ends,
}

module _ (left right : Uint256) (v : IsWide left) (w : IsWide right) where
  module _ (pos : 0 < value right) (covers : value right ≤ value left) where
    place : ℕ
    place = bits left - bits right

    fewer_bits : bits right ≤ bits left
    fewer_bits =
        let least = (bits_256_lem right w).least in
        let below = (bits_256_lem left v).below in
        let less : bits right < suc (bits left) =
          two-pow-lt_inv (bits right) (suc (bits left)) (omega (arith, pow-suc 2 (bits left))) in
        omega arith

    split_power : 2 ^ bits right * 2 ^ place ≡ 2 ^ bits left
    unfolding place
    split_power = pow-sub-mul 2 (bits right) (bits left) fewer_bits

    fits : value right * 2 ^ place < 2 ^ 256
    fits =
        let below : suc (value right) ≤ 2 ^ bits right =
          omega (arith, (bits_256_lem right w).below) in
        omega (
          arith,
          mul-le-mul_right (2 ^ place) below,
          split_power,
          pow-le-pow_right {n = 2} (omega arith) (bits-le left v),
          two-pow-pos place,
        )

    even_power : (b : ℕ) → 2 ^ b ≤ 2 * value right + 1 → 2 ^ b ≤ 2 * value right
    even_power zero h = omega arith
    even_power (suc b) h = omega (arith, pow-suc 2 b)

    high_enough : value left < value right * 2 ^ suc place
    high_enough = omega (
      arith,
      (bits_256_lem left v).below,
      split_power,
      mul-le-mul_right (2 ^ place) (even_power (bits right) (bits_256_lem right w).least),
      double (value right) place,
    )

    start : State
    unfolding place
    start = record {
      quotient = of_number 0;
      remainder = left;
      copyd = shl right (of_number (bits left - bits right));
      adder = shl (of_number 1) (of_number (bits left - bits right));
    }

    amount-IsWide : IsWide (of_number place)
    unfolding place
    amount-IsWide = omega (arith, bits-le left v)

    moved_up :
        (x : Uint256)
        → IsWide x
        → value x * 2 ^ place < 2 ^ 256
        → value (shl x (of_number place)) ≡ value x * 2 ^ place
    moved_up x u small =
        value-shl_256 x (of_number place) u amount-IsWide
        ∙ ap (λ (n : ℕ). value x * 2 ^ n % 2 ^ 256) amount
        ∙ mod-eq_of_lt small
      where
        amount : value (of_number place) ≡ place
        amount = omega arith

    start-IsPlaced : IsPlaced right place start
    unfolding start place
    start-IsPlaced = record {
      copyd_wide = shl-IsWide right (of_number (bits left - bits right)) w;
      adder_wide = shl-IsWide (of_number 1) (of_number (bits left - bits right)) (omega arith);
      copyd_is = moved_up right w fits;
      adder_is =
          moved_up (of_number 1) (omega arith)
            (omega (arith, fits, mul-le-mul_right (2 ^ place) pos))
          ∙ omega arith;
    }

    -- Nothing is divided yet, and the dividend is below the divisor moved up.
    start-IsPartial :
        (k : ℕ)
        → value left < value right * 2 ^ k
        → IsPartial left right k start.quotient start.remainder
    unfolding start
    start-IsPartial k below = record {
      quotient_wide = omega arith;
      remainder_wide = v;
      multiple = 0;
      quotient_is = omega arith;
      exact = omega arith;
      small = below;
    }

    -- The first place is one lower where the divisor moved up is greater than the dividend.
    lower_start :
        (fuel k : ℕ)
        → k ≡ place
        → 256 < fuel
        → value left < value right * 2 ^ k
        → Ends left right (divide_loop fuel right (move_down start))
    unfolding move_down
    lower_start fuel zero e h less = absurd (omega arith)
    lower_start fuel (suc k) e h less =
        loop-Ends left right v w k fuel (move_down start) (omega (arith, place-le))
          (again (start-IsPartial (suc k) less))
          (move_down-IsPlaced right k start
            (subst (λ n. IsPlaced right n start) (sym e) start-IsPlaced))
      where
        place-le : place ≤ 256
        place-le = unfold place in omega (arith, bits-le left v)

        again :
            IsPartial left right (suc k) start.quotient start.remainder
            → IsPartial left right (suc k) (move_down start).quotient (move_down start).remainder
        again q = record {
          quotient_wide = q.quotient_wide;
          remainder_wide = q.remainder_wide;
          multiple = q.multiple;
          quotient_is = q.quotient_is;
          exact = q.exact;
          small = q.small;
        }

    looped :
        (fuel : ℕ)
        → 256 < fuel
        → Ends left right
            (divide_loop fuel right (if gt start.copyd left then move_down start else start))
    looped fuel h =
        if_both (λ (s : State). Ends left right (divide_loop fuel right s)) (gt start.copyd left)
          (λ e. lower_start fuel place refl h (omega (arith, start-IsPlaced.copyd_is, greater e)))
          (λ e.
            loop-Ends left right v w place fuel start (omega (arith, place-le))
              (start-IsPartial (suc place) high_enough) start-IsPlaced)
      where
        place-le : place ≤ 256
        place-le = unfold place in omega (arith, bits-le left v)

        greater : gt start.copyd left ≡ true → value left < value start.copyd
        greater e = ground (arith, gt_lem start.copyd left start-IsPlaced.copyd_wide v)

  by_one : value right ≡ 1 → IsDivision left right (left, of_number 0)
  by_one e = record {
    quotient_wide = v;
    remainder_wide = omega arith;
    exact = ap (λ (t : ℕ). value left * t + 0) e ∙ omega arith;
    small = omega arith;
  }

  by_itself :
      0 < value right → value left ≡ value right → IsDivision left right (of_number 1, of_number 0)
  by_itself pos e = record {
    quotient_wide = omega arith;
    remainder_wide = omega arith;
    exact = omega arith;
    small = pos;
  }

  by_more : value left < value right → IsDivision left right (of_number 0, left)
  by_more less = record {
    quotient_wide = omega arith;
    remainder_wide = v;
    exact = omega arith;
    small = less;
  }

  -- For a divisor other than 0, 257 rounds are enough for the division of 256-bit values: it
  -- ends, on every branch, with 256-bit values q and r with q * right + r = left and r < right.
  pub divide-IsDivision_256 :
      (fuel : ℕ)
      → 256 < fuel
      → 0 < value right
      → (qr : Uint256 × Uint256) × (divide fuel left right ≡ some qr) × IsDivision left right qr
  unfolding divide start
  divide-IsDivision_256 fuel h pos =
      if_both (Ends left right) (eq right (of_number 0))
        (λ e. absurd (ground (arith, eq_lem right (of_number 0) w (omega arith))))
        λ _.
          if_both (Ends left right) (eq right (of_number 1))
            (λ e. (_, refl, by_one (ground (arith, eq_lem right (of_number 1) w (omega arith)))))
            λ _.
              if_both (Ends left right) (eq left right)
                (λ e. (_, refl, by_itself pos (ground (arith, eq_lem left right v w))))
                λ _.
                  if_both (Ends left right) (eq left (of_number 0) || lt left right)
                    (λ e. (_, refl, by_more (smaller e))) λ e. looped pos (covered e) fuel h
    where
      smaller : eq left (of_number 0) || lt left right ≡ true → value left < value right
      smaller e =
          ground (arith, eq_lem left (of_number 0) v (omega arith), lt_lem left right v w, pos)

      covered : eq left (of_number 0) || lt left right ≡ false → value right ≤ value left
      covered e = ground (arith, lt_lem left right v w)
