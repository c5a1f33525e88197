-- ===== src/Sha/Cryptopp/Ring.antt =====
-- The ring of 16 words: before round `n` it holds the last 16 words of the schedule.
use cpuminer.Base.{
  ℕ, suc, ◌+◌, ◌-◌, ◌%◌, ◌≤◌, ◌<◌, ◌≡◌, refl, List, some, ◌⊞◌, ◌==◌, IsWord, length, length-set,
  get_elem?-eq-get_or, get_or, get_or-set_self, get_or-set_ne, set, arith, Bool-cases, inl, inr,
}
use native.Mathlib.Decide.{ℕ_discrete}
use cpuminer.Sha.Spec.{IsSchedule, schedule-IsWord}
use cpuminer.Sha.Cryptopp.{blk2, schedule_word}
use cpuminer.Sha.Cryptopp.Functions.{small_s0-sigma0, small_s1-sigma1}

pub record IsRing (w : ℕ → ℕ) (n : ℕ) (ring : List ℕ) : Type 0 where
  pub size : length ring ≡ 16
  pub last : (t : ℕ) → t < n → n ≤ t + 16 → get_or ring (t % 16) 0 ≡ w t

regroup : (a b c d : ℕ) → a ⊞ (b ⊞ c ⊞ d) ≡ b ⊞ c ⊞ d ⊞ a
regroup a b c d = omega arith

module _ {input : List ℕ} {w : ℕ → ℕ} (s : IsSchedule input w)
    (ok : (t : ℕ) → IsWord (get_or input t 0)) where
  -- From the 16th round on, `blk2` computes the next word of the schedule.
  blk2-schedule :
      (i n : ℕ) (ring : List ℕ)
      → i < 16
      → i ≡ n % 16
      → 16 ≤ n
      → n < 64
      → IsRing w n ring
      → blk2 i ring ≡ w n
  unfolding blk2
  blk2-schedule i n ring small at late below v =
      let m = n - 16 in
      let r0 : get_or ring ((i + 16 - 0) % 16) 0 ≡ w m =
        read 0 (n - 16) (omega arith) (omega arith) (omega arith) in
      let r2 : get_or ring ((i + 16 - 2) % 16) 0 ≡ w (m + 14) =
        read 2 (m + 14) (omega arith) (omega arith) (omega arith) in
      let r7 : get_or ring ((i + 16 - 7) % 16) 0 ≡ w (m + 9) =
        read 7 (m + 9) (omega arith) (omega arith) (omega arith) in
      let r15 : get_or ring ((i + 16 - 15) % 16) 0 ≡ w (m + 1) =
        read 15 (m + 1) (omega arith) (omega arith) (omega arith) in
      let e : m + 16 ≡ n = omega arith in
      rw
        (
          r0,
          r2,
          r7,
          r15,
          small_s1-sigma1 (schedule-IsWord s ok (m + 14) (omega arith)),
          small_s0-sigma0 (schedule-IsWord s ok (m + 1) (omega arith)),
          regroup,
          ← s.expand m (omega arith),
          e,
        )
        refl
    where
      read :
          (k t : ℕ)
          → (i + 16 - k) % 16 ≡ t % 16
          → t < n
          → n ≤ t + 16
          → get_or ring ((i + 16 - k) % 16) 0 ≡ w t
      read k t e lt le = rw e (v.last t lt le)

  -- The word that round `i + j` takes, and the ring after it.
  pub schedule_word-IsRing :
      (i j : ℕ) (ring : List ℕ)
      → i < 16
      → j % 16 ≡ 0
      → i + j < 64
      → 16 ≤ length input
      → IsRing w (i + j) ring
      → (schedule_word i j input ring ≡ some (w (i + j)))
        × IsRing w (suc i + j) (set ring (i % 16) (w (i + j)))
  schedule_word-IsRing i j ring small block below long v = (word, ring')
    where
      word : schedule_word i j input ring ≡ some (w (i + j))
      word = elim (Bool-cases (j == 0)) [
        | inl first ↦
            let e : i + j ≡ i = ground arith in
            unfold schedule_word in
            rw (first, get_elem?-eq-get_or input i 0 (omega arith), e, s.block i small) refl
        | inr later ↦
            unfold schedule_word in
            rw (later, blk2-schedule i (i + j) ring small (omega arith) (ground arith) below v) refl
      ]

      value : ℕ
      value = w (i + j)

      ring' : IsRing w (suc i + j) (set ring (i % 16) (w (i + j)))
      ring' = record {
        size = rw length-set v.size;
        last = λ t lt le. elim (ℕ_discrete (i + j) t) [
          | yes e ↦
              let at : t % 16 ≡ i % 16 = omega arith in
              rw (at, get_or-set_self ring (i % 16) (w (i + j)) 0 (omega (arith, v.size)), e) refl
          | no ne ↦
              rw (get_or-set_ne ring (i % 16) (t % 16) (w (i + j)) 0 (omega arith))
                (v.last t (omega arith) (omega arith))
        ];
      }
