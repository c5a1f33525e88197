-- ===== src/TimeVal/Subtract.antt =====
-- The difference of two times.
use cpuminer.Base.{
  ℕ, ◌+◌, ◌*◌, ◌/◌, ◌≡◌, ◌↔◌, ◌⊎◌, ◌^◌, refl, true, some, Bool-cases, inl, inr, arith, ltb-lt,
  ltb_lt, ltb_le,
}
use cpuminer.Base.Int.{pos, pos_part, neg_part, ◌+ℤ◌, ◌-ℤ◌, ◌≤ℤ◌, ◌<ℤ◌, ltb_ℤ, int_laws, -ℤ_parts}
use native.Mathlib.Decide.{dec_lt}
use cpuminer.TimeVal.{Timeval, Difference, borrow, carry, timeval_subtract}

-- A time in microseconds is `micros_up t` less `micros_down t`: the parts of its two fields.
abbrev pub micros_up : Timeval → ℕ
micros_up t = 1000000 * pos_part t.tv_sec + pos_part t.tv_usec

abbrev pub micros_down : Timeval → ℕ
micros_down t = 1000000 * neg_part t.tv_sec + neg_part t.tv_usec

-- The microseconds of `d` are those of `x` less those of `y`.
abbrev pub IsDifference : Timeval → Timeval → Timeval → Type 0
IsDifference d x y =
    micros_up d + micros_up y + micros_down x ≡ micros_up x + micros_down d + micros_down y

abbrev pub IsNormal : Timeval → Type 0
IsNormal t = (pos 0 ≤ℤ t.tv_usec) × (t.tv_usec <ℤ pos 1000000)

-- Both carries keep the time that `y` stands for.
abbrev pub Same : Timeval → Timeval → Type 0
Same y z = micros_up y + micros_down z ≡ micros_up z + micros_down y

-- At least a second of microseconds lies between the two.
abbrev pub AreApart : Timeval → Timeval → Type 0
AreApart x y = (pos 1000000 ≤ℤ (x.tv_usec -ℤ y.tv_usec)) ⊎ (pos 1000000 ≤ℤ (y.tv_usec -ℤ x.tv_usec))

-- What the borrowing leaves.
record IsBorrowed (x y z : Timeval) : Type 0 where
  run : borrow x y ≡ some z
  same : Same z y
  above : pos 0 ≤ℤ (x.tv_usec -ℤ z.tv_usec)
  below : (x.tv_usec -ℤ z.tv_usec) <ℤ pos 2148000000
  near : ((x.tv_usec -ℤ z.tv_usec) <ℤ pos 1000000) ⊎ AreApart x y

record IsCarried (x z w : Timeval) : Type 0 where
  run : carry x z ≡ some w
  same : Same w z
  above : pos 0 ≤ℤ (x.tv_usec -ℤ w.tv_usec)
  below : (x.tv_usec -ℤ w.tv_usec) ≤ℤ pos 1000000
  near : ((x.tv_usec -ℤ w.tv_usec) <ℤ pos 1000000) ⊎ (pos 1000000 ≤ℤ (x.tv_usec -ℤ z.tv_usec))

-- The same time with `nsec` seconds more and as many microseconds less, and the other way round.
abbrev moved_up : ℕ → Timeval → Timeval
moved_up nsec y = record {
  tv_sec = y.tv_sec +ℤ pos nsec;
  tv_usec = y.tv_usec -ℤ pos (1000000 * nsec);
}

abbrev moved_down : ℕ → Timeval → Timeval
moved_down nsec y = record {
  tv_sec = y.tv_sec -ℤ pos nsec;
  tv_usec = y.tv_usec +ℤ pos (1000000 * nsec);
}

borrow_lem :
    (x y : Timeval)
    → (y.tv_usec -ℤ x.tv_usec) <ℤ pos 2147000000
    → (x.tv_usec -ℤ y.tv_usec) <ℤ pos 2148000000
    → (z : Timeval) × IsBorrowed x y z
unfolding borrow
borrow_lem x y few many = elim (Bool-cases (ltb_ℤ x.tv_usec y.tv_usec)) [
  | inl h ↦
      let fewer = ltb_lt _ _ h in
      let fits =
        ltb-lt (1000000 * (pos_part (y.tv_usec -ℤ x.tv_usec) / 1000000 + 1)) (2 ^ 31)
          (omega int_laws) in
      (
        moved_up (pos_part (y.tv_usec -ℤ x.tv_usec) / 1000000 + 1) y,
        record {
          run = rw (h, fits) refl;
          same = omega int_laws;
          above = omega int_laws;
          below = omega int_laws;
          near = elim (dec_lt (pos_part (y.tv_usec -ℤ x.tv_usec)) 1000000) [
            | yes close ↦ inl (omega int_laws)
            | no far ↦ inr (inr (omega int_laws))
          ];
        },
      )
  | inr h ↦
      let least = ltb_le _ _ h in
      (
        y,
        record {
          run = rw h refl;
          same = refl;
          above = omega int_laws;
          below = many;
          near = elim (dec_lt (pos_part (x.tv_usec -ℤ y.tv_usec)) 1000000) [
            | yes close ↦ inl (omega int_laws)
            | no far ↦ inr (inl (omega int_laws))
          ];
        },
      )
]

carry_lem :
    (x z : Timeval)
    → pos 0 ≤ℤ (x.tv_usec -ℤ z.tv_usec)
    → (x.tv_usec -ℤ z.tv_usec) <ℤ pos 2148000000
    → (w : Timeval) × IsCarried x z w
unfolding carry
carry_lem x z least many = elim (Bool-cases (ltb_ℤ (pos 1000000) (x.tv_usec -ℤ z.tv_usec))) [
  | inl h ↦
      let more = ltb_lt _ _ h in
      let fits =
        ltb-lt (1000000 * (pos_part (x.tv_usec -ℤ z.tv_usec) / 1000000)) (2 ^ 31)
          (omega int_laws) in
      (
        moved_down (pos_part (x.tv_usec -ℤ z.tv_usec) / 1000000) z,
        record {
          run = rw (h, fits) refl;
          same = omega int_laws;
          above = omega int_laws;
          below = omega int_laws;
          near = inl (omega int_laws);
        },
      )
  | inr h ↦
      let most = ltb_le _ _ h in
      (
        z,
        record {
          run = rw h refl;
          same = refl;
          above = least;
          below = omega int_laws;
          near = elim (dec_lt (pos_part (x.tv_usec -ℤ z.tv_usec)) 1000000) [
            | yes close ↦ inl (omega int_laws)
            | no far ↦ inr (omega int_laws)
          ];
        },
      )
]

-- `d` is the difference of `x` and `y`: a time in the usual form, where microseconds of exactly a
-- second are left only when the two have microseconds at least a second apart. It counts as negative
-- when its seconds are, and `y` is left with the time that it was.
pub record IsSubtracted (x y : Timeval) (d : Difference) : Type 0 where
  pub difference : IsDifference d.result x y
  pub above : pos 0 ≤ℤ d.result.tv_usec
  pub below : d.result.tv_usec ≤ℤ pos 1000000
  pub near : (d.result.tv_usec <ℤ pos 1000000) ⊎ AreApart x y
  pub kept : Same d.y y
  pub sign : (d.negative ≡ true) ↔ (d.result.tv_sec <ℤ pos 0)

abbrev difference_of : Timeval → Timeval → Difference
difference_of x w = record {
  result = record { tv_sec = x.tv_sec -ℤ w.tv_sec; tv_usec = x.tv_usec -ℤ w.tv_usec };
  y = w;
  negative = ltb_ℤ x.tv_sec w.tv_sec;
}

-- If `y` has less than 2147 seconds of microseconds more than `x`, and `x` less than 2148 seconds of them
-- more than `y`, no `int` overflows and `timeval_subtract` takes `y` from `x`: the microseconds of
-- the result are from 0 to under a million, or exactly a million where those of the two times lie a
-- second or more apart. It returns 1 exactly when the seconds of the result are negative, and leaves
-- in `y` the same time, perhaps in other fields.
pub timeval_subtract-IsSubtracted :
    (x y : Timeval)
    → (y.tv_usec -ℤ x.tv_usec) <ℤ pos 2147000000
    → (x.tv_usec -ℤ y.tv_usec) <ℤ pos 2148000000
    → (d : Difference) × (timeval_subtract x y ≡ some d) × IsSubtracted x y d
unfolding timeval_subtract
timeval_subtract-IsSubtracted x y few many =
    let (z, b) = borrow_lem x y few many in
    let (w, c) = carry_lem x z b.above b.below in
    let b-same = b.same in
    let c-same = c.same in
    let secs = -ℤ_parts x.tv_sec w.tv_sec in
    let usecs = -ℤ_parts x.tv_usec w.tv_usec in
    (
      difference_of x w,
      rw (b.run, c.run) refl,
      record {
        difference = omega arith;
        above = c.above;
        below = c.below;
        near = elim c.near [
          | inl close ↦ inl close
          | inr far ↦ elim b.near [ inl close ↦ absurd (omega arith) | inr apart ↦ inr apart ]
        ];
        kept = omega arith;
        sign = (
          (λ h. let earlier = ltb_lt _ _ h in omega int_laws),
          (λ h. ltb-lt _ _ (omega int_laws)),
        );
      },
    )

-- Between two times whose microseconds lie within a second, the result has such microseconds too.
timeval_subtract-IsNormal :
    (x y : Timeval)
    → IsNormal x
    → IsNormal y
    → (d : Difference) × (timeval_subtract x y ≡ some d)
      × IsDifference d.result x y
      × IsNormal d.result
timeval_subtract-IsNormal x y p q =
    let (d, run, v) = timeval_subtract-IsSubtracted x y (omega int_laws) (omega int_laws) in
    (
      d,
      run,
      v.difference,
      elim v.near [
        | inl close ↦ (v.above, close)
        | inr (inl far) ↦ absurd (omega int_laws)
        | inr (inr far) ↦ absurd (omega int_laws)
      ],
    )
