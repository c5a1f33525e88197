-- ===== src/Tests/Digests.antt =====
-- SHA-256 of "abc", the example of FIPS 180-4, by both transforms.
use cpuminer.Base.{
  ℕ, zero, suc, ◌≡◌, refl, some, List, [], ◌∷◌, ◌++◌, replicate, All, IsWord, arith,
}
use cpuminer.Sha.{Regs, add_regs}
use cpuminer.Sha.Spec.{compress, IsSchedule}
use cpuminer.Sha.Generic
use cpuminer.Sha.Generic.Schedule.{WordsIn}
use cpuminer.Sha.Generic.Correct.{schedule_and_transform, sha256_transform-compress}
use cpuminer.Sha.Cryptopp
use cpuminer.Sha.Cryptopp.Correct.{cryptopp-eq-generic}

abbrev abc_block : List ℕ
abc_block = 0x61626380 ∷ replicate 14 0 ++ 0x18 ∷ []

abbrev abc_digest : Regs
abc_digest = record {
  a = 0xba7816bf;
  b = 0x8f01cfea;
  c = 0x414140de;
  d = 0x5dae2223;
  e = 0xb00361a3;
  f = 0x96177a9c;
  g = 0xb410ff61;
  h = 0xf20015ad;
}

generic_abc : Generic.sha256_transform Generic.sha256_init_state abc_block ≡ some abc_digest
unfolding Generic.sha256_transform Generic.load_loop Generic.load_op add_regs Generic.iterate
    Generic.eight Generic.step_a Generic.step_b Generic.step_c Generic.step_d Generic.step_e
    Generic.step_f Generic.step_g Generic.step_h Generic.e1 Generic.ch Generic.blend_loop
    Generic.blend_op Generic.e0 Generic.maj Generic.ror32 Generic.s0 Generic.s1
generic_abc = refl

cryptopp_abc : Cryptopp.sha256_transform Generic.sha256_init_state abc_block ≡ some abc_digest
unfolding Cryptopp.sha256_transform Cryptopp.j_loop Cryptopp.r_loop Cryptopp.r Cryptopp.update
    Cryptopp.registers Cryptopp.schedule_word Cryptopp.blk2 Cryptopp.rotr_fixed Cryptopp.ch
    Cryptopp.maj Cryptopp.big_s0 Cryptopp.big_s1 Cryptopp.small_s0 Cryptopp.small_s1 add_regs
cryptopp_abc = refl

WordsIn-of_All : (xs : List ℕ) → All IsWord xs → WordsIn xs
WordsIn-of_All [] h t = omega arith
WordsIn-of_All (x ∷ xs) h zero = h.0
WordsIn-of_All (x ∷ xs) h (suc t) = WordsIn-of_All xs h.1 t

abc_words : WordsIn abc_block
abc_words = WordsIn-of_All abc_block (omega arith)

abc_scheduled :
    (w : ℕ → ℕ) × IsSchedule abc_block w
    × (Generic.sha256_transform Generic.sha256_init_state abc_block
        ≡ some (compress w Generic.sha256_init_state))
abc_scheduled =
    schedule_and_transform Generic.sha256_init_state abc_block (omega arith) abc_words (omega arith)

sha256_transform-compress_example :
    Generic.sha256_transform Generic.sha256_init_state abc_block
    ≡ some (compress abc_scheduled.0 Generic.sha256_init_state)
sha256_transform-compress_example =
    sha256_transform-compress Generic.sha256_init_state abc_block (omega arith) abc_words
      (omega arith) abc_scheduled.0 abc_scheduled.1

cryptopp-eq-generic_example :
    Cryptopp.sha256_transform Generic.sha256_init_state abc_block
    ≡ Generic.sha256_transform Generic.sha256_init_state abc_block
cryptopp-eq-generic_example =
    cryptopp-eq-generic Generic.sha256_init_state abc_block (omega arith) abc_words
