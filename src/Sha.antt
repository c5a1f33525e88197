-- ===== src/Sha.antt =====
-- SHA-256: the eight working words that every implementation keeps, and the constants.
pub mod Spec
pub mod Generic
pub mod Cryptopp
use cpuminer.Base.{ℕ, List, [], ◌∷◌, ◌⊞◌, IsWord, arith}

-- `u32 state[8]`, and the locals `a` to `h`.
pub record Regs : Type 0 where
  pub a : ℕ
  pub b : ℕ
  pub c : ℕ
  pub d : ℕ
  pub e : ℕ
  pub f : ℕ
  pub g : ℕ
  pub h : ℕ

pub record AreWords (r : Regs) : Type 0 where
  pub a : IsWord r.a
  pub b : IsWord r.b
  pub c : IsWord r.c
  pub d : IsWord r.d
  pub e : IsWord r.e
  pub f : IsWord r.f
  pub g : IsWord r.g
  pub h : IsWord r.h

-- The eight words in memory order.
abbrev pub words : Regs → List ℕ
words r = r.a ∷ r.b ∷ r.c ∷ r.d ∷ r.e ∷ r.f ∷ r.g ∷ r.h ∷ []

-- `state[0] += a; …; state[7] += h;`
unfoldable pub add_regs : Regs → Regs → Regs
add_regs s r = record {
  a = s.a ⊞ r.a;
  b = s.b ⊞ r.b;
  c = s.c ⊞ r.c;
  d = s.d ⊞ r.d;
  e = s.e ⊞ r.e;
  f = s.f ⊞ r.f;
  g = s.g ⊞ r.g;
  h = s.h ⊞ r.h;
}

pub add_regs-AreWords : (s r : Regs) → AreWords (add_regs s r)
unfolding add_regs
add_regs-AreWords s r = omega arith
