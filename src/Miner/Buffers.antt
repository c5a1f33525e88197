-- ===== src/Miner/Buffers.antt =====
-- Buffers of bytes as words: the conversions undo each other.
use cpuminer.Base.{
  ℕ, zero, suc, ◌<◌, ◌≤◌, ◌≡◌, refl, ap, List, [], ◌∷◌, ◌++◌, length, get_or, set, take, drop,
  IsWord, All, arith,
}
use mathlib.Core.Path.{ap₂}
use cpuminer.Sha.{AreWords}
use cpuminer.Sha.Generic.Schedule.{WordsIn}
use cpuminer.Hex.RoundTrip.{AreBytes}
use cpuminer.Work.Bytes.{AreBytes-drop}
use cpuminer.Miner.{words_of, bytes_of, regs_of}

get_or-byte : (bs : List ℕ) (i : ℕ) → AreBytes bs → get_or bs i 0 < 256
get_or-byte [] i ok = omega arith
get_or-byte (b ∷ bs) zero ok = ok.0
get_or-byte (b ∷ bs) (suc i) ok = get_or-byte bs i ok.1

pub words_of-IsWord : (n : ℕ) (bs : List ℕ) → AreBytes bs → All IsWord (words_of n bs)
words_of-IsWord zero bs ok = tt
words_of-IsWord (suc n) bs ok = (
  omega (arith, get_or-byte bs 0 ok, get_or-byte bs 1 ok, get_or-byte bs 2 ok, get_or-byte bs 3 ok),
  words_of-IsWord n (drop 4 bs) (AreBytes-drop 4 bs ok),
)

pub length-words_of : (n : ℕ) (bs : List ℕ) → length (words_of n bs) ≡ n
length-words_of zero bs = refl
length-words_of (suc n) bs = ap suc (length-words_of n (drop 4 bs))

pub WordsIn-of_All : (xs : List ℕ) → All IsWord xs → WordsIn xs
WordsIn-of_All [] ok t = omega arith
WordsIn-of_All (x ∷ xs) ok zero = ok.0
WordsIn-of_All (x ∷ xs) ok (suc t) = WordsIn-of_All xs ok.1 t

pub All-set : (xs : List ℕ) (i v : ℕ) → All IsWord xs → IsWord v → All IsWord (set xs i v)
All-set [] i v ok w = ok
All-set (x ∷ xs) zero v ok w = (w, ok.1)
All-set (x ∷ xs) (suc i) v ok w = (ok.0, All-set xs i v ok.1 w)

pub words_of-bytes_of :
    (n : ℕ) (ws : List ℕ) → length ws ≡ n → All IsWord ws → words_of n (bytes_of ws) ≡ ws
words_of-bytes_of zero [] e ok = refl
words_of-bytes_of zero (w ∷ ws) e ok = absurd (omega arith)
words_of-bytes_of (suc n) [] e ok = absurd (omega arith)
words_of-bytes_of (suc n) (w ∷ ws) e ok =
    let w' = ok.0 in ap₂ ◌∷◌ (omega arith) (words_of-bytes_of n ws (omega arith) ok.1)

pub drop-take-append : (n : ℕ) (xs ys : List ℕ) → n ≤ length xs → drop n (take n xs ++ ys) ≡ ys
drop-take-append zero xs ys h = refl
drop-take-append (suc n) [] ys h = absurd (omega arith)
drop-take-append (suc n) (x ∷ xs) ys h = drop-take-append n xs ys (omega arith)

pub regs_of-AreWords : (bs : List ℕ) → AreBytes bs → AreWords (regs_of bs)
regs_of-AreWords bs ok =
    let w = WordsIn-of_All (words_of 8 bs) (words_of-IsWord 8 bs ok) in
    record { a = w 0; b = w 1; c = w 2; d = w 3; e = w 4; f = w 5; g = w 6; h = w 7 }
