-- ===== src/FourWay/Lines.antt =====
-- A line of sha256_4way.c on one word of the vectors is a round of the standard.
use cpuminer.Base.{ℕ, zero, suc, ◌%◌, ◌<◌, ◌≡◌, refl, arith}
use cpuminer.Sha.{Regs, AreWords}
use cpuminer.Sha.Spec.{k_at, round}
use cpuminer.Simd.{M128i, Lane, lane}
use cpuminer.FourWay.{Vars, line, vars_lane}
use cpuminer.FourWay.Words.{sha256round_d, sha256round_h}

-- The variables in the roles of the standard, before a line of that index modulo 8: each line moves the
-- roles on by one variable.
abbrev pub role : ℕ → Regs → Regs
role zero v = v
role (suc n) v =
    role n (record { a = v.h; b = v.a; c = v.b; d = v.c; e = v.d; f = v.e; g = v.f; h = v.g })

-- Each of the eight lines is one round.
pub line-round :
    (l : Lane) (r i : ℕ) (x : M128i) (v : Vars)
    → r < 8
    → AreWords (role r (vars_lane l v))
    → role (suc r % 8) (vars_lane l (line r i x v))
      ≡ round (k_at i) (lane l x) (role r (vars_lane l v))
unfolding line round
line-round l zero i x v small ok =
    rw
      (
        sha256round_d l v.a v.b v.c v.d v.e v.f v.g v.h i x ok.e,
        sha256round_h l v.a v.b v.c v.d v.e v.f v.g v.h i x ok.a ok.b ok.c ok.e,
      )
      refl
line-round l (suc zero) i x v small ok =
    rw
      (
        sha256round_d l v.h v.a v.b v.c v.d v.e v.f v.g i x ok.e,
        sha256round_h l v.h v.a v.b v.c v.d v.e v.f v.g i x ok.a ok.b ok.c ok.e,
      )
      refl
line-round l (suc (suc zero)) i x v small ok =
    rw
      (
        sha256round_d l v.g v.h v.a v.b v.c v.d v.e v.f i x ok.e,
        sha256round_h l v.g v.h v.a v.b v.c v.d v.e v.f i x ok.a ok.b ok.c ok.e,
      )
      refl
line-round l (suc (suc (suc zero))) i x v small ok =
    rw
      (
        sha256round_d l v.f v.g v.h v.a v.b v.c v.d v.e i x ok.e,
        sha256round_h l v.f v.g v.h v.a v.b v.c v.d v.e i x ok.a ok.b ok.c ok.e,
      )
      refl
line-round l (suc (suc (suc (suc zero)))) i x v small ok =
    rw
      (
        sha256round_d l v.e v.f v.g v.h v.a v.b v.c v.d i x ok.e,
        sha256round_h l v.e v.f v.g v.h v.a v.b v.c v.d i x ok.a ok.b ok.c ok.e,
      )
      refl
line-round l (suc (suc (suc (suc (suc zero))))) i x v small ok =
    rw
      (
        sha256round_d l v.d v.e v.f v.g v.h v.a v.b v.c i x ok.e,
        sha256round_h l v.d v.e v.f v.g v.h v.a v.b v.c i x ok.a ok.b ok.c ok.e,
      )
      refl
line-round l (suc (suc (suc (suc (suc (suc zero)))))) i x v small ok =
    rw
      (
        sha256round_d l v.c v.d v.e v.f v.g v.h v.a v.b i x ok.e,
        sha256round_h l v.c v.d v.e v.f v.g v.h v.a v.b i x ok.a ok.b ok.c ok.e,
      )
      refl
line-round l (suc (suc (suc (suc (suc (suc (suc zero))))))) i x v small ok =
    rw
      (
        sha256round_d l v.b v.c v.d v.e v.f v.g v.h v.a i x ok.e,
        sha256round_h l v.b v.c v.d v.e v.f v.g v.h v.a i x ok.a ok.b ok.c ok.e,
      )
      refl
line-round l (suc (suc (suc (suc (suc (suc (suc (suc n)))))))) i x v small ok = absurd (omega arith)
