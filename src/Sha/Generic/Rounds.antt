-- ===== src/Sha/Generic/Rounds.antt =====
-- The eight blocks of `sha256_transform` are the 64 rounds of the standard, constants included.
use cpuminer.Base.{ℕ, zero, suc, ◌≡◌, ◌∙◌, ap, List, get_or}
use cpuminer.Sha.{Regs, AreWords}
use cpuminer.Sha.Spec.{k_at, round, rounds, round-AreWords}
use cpuminer.Sha.Generic.{eight, iterate}
use cpuminer.Sha.Generic.Eight.{eight-round}

pub rounds-AreWords : (w : ℕ → ℕ) (n t : ℕ) (r : Regs) → AreWords r → AreWords (rounds w n t r)
unfolding rounds
rounds-AreWords w zero t r v = v
rounds-AreWords w (suc n) t r v =
    rounds-AreWords w n (suc t) (round (k_at t) (w t) r) (round-AreWords (k_at t) (w t) r v)

-- The eight blocks, each with its constants, are the rounds of the standard.
module _ (w : List ℕ) (v : Regs) (ok : AreWords v) where
  abbrev at_index : ℕ → ℕ
  at_index t = get_or w t 0

  abbrev after : ℕ → Regs
  after n = rounds at_index n 0 v

  after-AreWords : (n : ℕ) → AreWords (after n)
  after-AreWords n = rounds-AreWords at_index n 0 v ok

  block0 :
      eight 0x428a2f98 0x71374491 0xb5c0fbcf 0xe9b5dba5 0x3956c25b 0x59f111f1 0x923f82a4 0xab1c5ed5
        w 0 v
      ≡ after 8
  unfolding rounds
  block0 =
      eight-round 0x428a2f98 0x71374491 0xb5c0fbcf 0xe9b5dba5 0x3956c25b 0x59f111f1 0x923f82a4
        0xab1c5ed5 w 0 v ok

  block1 :
      eight 0xd807aa98 0x12835b01 0x243185be 0x550c7dc3 0x72be5d74 0x80deb1fe 0x9bdc06a7 0xc19bf174
        w 8
        (after 8)
      ≡ after 16
  unfolding rounds
  block1 =
      eight-round 0xd807aa98 0x12835b01 0x243185be 0x550c7dc3 0x72be5d74 0x80deb1fe 0x9bdc06a7
        0xc19bf174 w 8 (after 8) (after-AreWords 8)

  block2 :
      eight 0xe49b69c1 0xefbe4786 0x0fc19dc6 0x240ca1cc 0x2de92c6f 0x4a7484aa 0x5cb0a9dc 0x76f988da
        w 16
        (after 16)
      ≡ after 24
  unfolding rounds
  block2 =
      eight-round 0xe49b69c1 0xefbe4786 0x0fc19dc6 0x240ca1cc 0x2de92c6f 0x4a7484aa 0x5cb0a9dc
        0x76f988da w 16 (after 16) (after-AreWords 16)

  block3 :
      eight 0x983e5152 0xa831c66d 0xb00327c8 0xbf597fc7 0xc6e00bf3 0xd5a79147 0x06ca6351 0x14292967
        w 24
        (after 24)
      ≡ after 32
  unfolding rounds
  block3 =
      eight-round 0x983e5152 0xa831c66d 0xb00327c8 0xbf597fc7 0xc6e00bf3 0xd5a79147 0x06ca6351
        0x14292967 w 24 (after 24) (after-AreWords 24)

  block4 :
      eight 0x27b70a85 0x2e1b2138 0x4d2c6dfc 0x53380d13 0x650a7354 0x766a0abb 0x81c2c92e 0x92722c85
        w 32
        (after 32)
      ≡ after 40
  unfolding rounds
  block4 =
      eight-round 0x27b70a85 0x2e1b2138 0x4d2c6dfc 0x53380d13 0x650a7354 0x766a0abb 0x81c2c92e
        0x92722c85 w 32 (after 32) (after-AreWords 32)

  block5 :
      eight 0xa2bfe8a1 0xa81a664b 0xc24b8b70 0xc76c51a3 0xd192e819 0xd6990624 0xf40e3585 0x106aa070
        w 40
        (after 40)
      ≡ after 48
  unfolding rounds
  block5 =
      eight-round 0xa2bfe8a1 0xa81a664b 0xc24b8b70 0xc76c51a3 0xd192e819 0xd6990624 0xf40e3585
        0x106aa070 w 40 (after 40) (after-AreWords 40)

  block6 :
      eight 0x19a4c116 0x1e376c08 0x2748774c 0x34b0bcb5 0x391c0cb3 0x4ed8aa4a 0x5b9cca4f 0x682e6ff3
        w 48
        (after 48)
      ≡ after 56
  unfolding rounds
  block6 =
      eight-round 0x19a4c116 0x1e376c08 0x2748774c 0x34b0bcb5 0x391c0cb3 0x4ed8aa4a 0x5b9cca4f
        0x682e6ff3 w 48 (after 48) (after-AreWords 48)

  block7 :
      eight 0x748f82ee 0x78a5636f 0x84c87814 0x8cc70208 0x90befffa 0xa4506ceb 0xbef9a3f7 0xc67178f2
        w 56
        (after 56)
      ≡ after 64
  unfolding rounds
  block7 =
      eight-round 0x748f82ee 0x78a5636f 0x84c87814 0x8cc70208 0x90befffa 0xa4506ceb 0xbef9a3f7
        0xc67178f2 w 56 (after 56) (after-AreWords 56)

  pub iterate-rounds : iterate w v ≡ after 64
  unfolding iterate
  iterate-rounds =
      ap
        (eight 0x748f82ee 0x78a5636f 0x84c87814 0x8cc70208 0x90befffa 0xa4506ceb 0xbef9a3f7
          0xc67178f2 w 56)
        (ap
            (eight 0x19a4c116 0x1e376c08 0x2748774c 0x34b0bcb5 0x391c0cb3 0x4ed8aa4a 0x5b9cca4f
              0x682e6ff3 w 48)
            (ap
                (eight 0xa2bfe8a1 0xa81a664b 0xc24b8b70 0xc76c51a3 0xd192e819 0xd6990624 0xf40e3585
                  0x106aa070 w 40)
                (ap
                    (eight 0x27b70a85 0x2e1b2138 0x4d2c6dfc 0x53380d13 0x650a7354 0x766a0abb
                      0x81c2c92e 0x92722c85 w 32)
                    (ap
                        (eight 0x983e5152 0xa831c66d 0xb00327c8 0xbf597fc7 0xc6e00bf3 0xd5a79147
                          0x06ca6351 0x14292967 w 24)
                        (ap
                            (eight 0xe49b69c1 0xefbe4786 0x0fc19dc6 0x240ca1cc 0x2de92c6f 0x4a7484aa
                              0x5cb0a9dc 0x76f988da w 16)
                            (ap
                                (eight 0xd807aa98 0x12835b01 0x243185be 0x550c7dc3 0x72be5d74
                                  0x80deb1fe 0x9bdc06a7 0xc19bf174 w 8)
                                (block0)
                              ∙ block1)
                          ∙ block2)
                      ∙ block3)
                  ∙ block4)
              ∙ block5)
          ∙ block6)
      ∙ block7
