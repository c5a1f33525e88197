-- ===== src/Tests/Blocks.antt =====
-- `scanhash_asm32` with the generic transform, behind the byte swap, in the place of the assembly.
use cpuminer.Base.{
  ℕ, zero, suc, ◌≤◌, ◌<◌, ◌≡◌, refl, sym, ◌∙◌, ap, Option, none, some, List, [], ◌∷◌, map, length,
  get_or, arith,
}
use native.Mathlib.Decide.{dec_lt}
use cpuminer.Sha.{Regs, AreWords}
use cpuminer.Sha.Spec.{compress, IsSchedule}
use cpuminer.Sha.Generic
use cpuminer.Sha.Generic.Schedule.{WordsIn}
use cpuminer.Sha.Generic.Correct.{sha256_transform-compress}
use cpuminer.Target.{swab32, bswap_16}
use cpuminer.Via.Search.{swab32-swab32}
use cpuminer.Scan.{scanhash_c}
use cpuminer.Asm32.{scanhash_asm32}
use cpuminer.Asm32.Search.{IsHashBlocks, scanhash_asm32-eq-scanhash_c}
use cpuminer.Tests.Scans.{block, padding, never, buffers}

abbrev or_state : Option Regs → Regs → Regs
or_state none state = state
or_state (some r) state = r

abbrev pub hash_blocks : Regs → List ℕ → Regs
hash_blocks state w = or_state (Generic.sha256_transform state (map swab32 w)) state

get_or-map-swab32 : (xs : List ℕ) (t : ℕ) → get_or (map swab32 xs) t 0 ≡ swab32 (get_or xs t 0)
unfolding swab32 bswap_16
get_or-map-swab32 [] t = refl
get_or-map-swab32 (x ∷ xs) zero = refl
get_or-map-swab32 (x ∷ xs) (suc t) = get_or-map-swab32 xs t

length-map-swab32 : (xs : List ℕ) → length (map swab32 xs) ≡ length xs
length-map-swab32 [] = refl
length-map-swab32 (x ∷ xs) = omega (arith, length-map-swab32 xs)

get_or_past : (xs : List ℕ) (t : ℕ) → length xs ≤ t → get_or xs t 0 ≡ 0
get_or_past [] t h = refl
get_or_past (x ∷ xs) zero h = absurd (omega arith)
get_or_past (x ∷ xs) (suc t) h = get_or_past xs t (omega arith)

swapped_back :
    (w m : List ℕ)
    → WordsIn m
    → length w ≡ 16
    → ((t : ℕ) → t < 16 → get_or w t 0 ≡ swab32 (get_or m t 0))
    → (t : ℕ) → t < 16
    → get_or (map swab32 w) t 0 ≡ get_or m t 0
swapped_back w m ws size same t lt =
    get_or-map-swab32 w t ∙ ap swab32 (same t lt) ∙ swab32-swab32 (get_or m t 0) (ws t)

hash_blocks_block :
    (state : Regs) (w m : List ℕ) (schedule : ℕ → ℕ)
    → AreWords state
    → WordsIn m
    → IsSchedule m schedule
    → length w ≡ 16
    → ((t : ℕ) → t < 16 → get_or w t 0 ≡ swab32 (get_or m t 0))
    → hash_blocks state w ≡ compress schedule state
hash_blocks_block state w m schedule v ws s size same =
    let back = swapped_back w m ws size same in
    let input_words : WordsIn (map swab32 w) = λ t. elim (dec_lt t 16) [
      | yes low ↦ rw (back t low) (ws t)
      | no high ↦
          rw (get_or_past (map swab32 w) t (omega (arith, length-map-swab32 w))) (omega arith)
    ] in
    let schedules : IsSchedule (map swab32 w) schedule = record {
      block = λ t lt. s.block t lt ∙ sym (back t lt);
      expand = s.expand;
    } in
    ap (λ r. or_state r state)
      (sha256_transform-compress state (map swab32 w) v input_words
        (omega (arith, length-map-swab32 w)) schedule schedules)

pub hash_blocks-IsHashBlocks : IsHashBlocks hash_blocks
hash_blocks-IsHashBlocks = record { block = hash_blocks_block }

scanhash_asm32-eq-scanhash_c_example :
    scanhash_asm32 hash_blocks Generic.sha256_init_state Generic.sha256_init_state 5 padding never
      block
    ≡ scanhash_c Generic.sha256_init_state Generic.sha256_init_state 5 padding never block
scanhash_asm32-eq-scanhash_c_example =
    scanhash_asm32-eq-scanhash_c hash_blocks hash_blocks-IsHashBlocks Generic.sha256_init_state
      Generic.sha256_init_state 5 padding never block buffers (omega arith)
