-- ===== src/Tests/Messages.antt =====
-- A message that the queue refuses, and one that is answered.
use cpuminer.Base.{ℕ, ◌==◌, ◌≡◌, refl, true, false, inl, inr, some, replicate, arith}
use cpuminer.Work.{Work}
use cpuminer.Commands.{Memory, submit_work, get_work}
use cpuminer.Commands.Memory.{Grown, AfterGet, submit_work_lem, get_work_lem}

-- Only the reply, at 5, is in use.
abbrev only_five : Memory
only_five a = a == 5

abbrev filled_with : ℕ → Work
filled_with v = record {
  data_bytes = replicate 128 v;
  hash1 = replicate 64 v;
  midstate = replicate 32 v;
  target = replicate 32 v;
  hash = replicate 32 v;
}

submit_work_lem_example :
    (m' : Memory) × (submit_work 3 4 false only_five ≡ some (false, m'))
    × Grown false 3 4 only_five m'
submit_work_lem_example = submit_work_lem 3 4 false only_five refl refl (inl (omega arith))

get_work_lem_example :
    (m' : Memory) × (get_work 3 true 5 (filled_with 1) (filled_with 0) only_five
      ≡ some ((true, filled_with 1), m'))
    × AfterGet true 3 5 only_five m'
get_work_lem_example =
    get_work_lem 3 true 5 (filled_with 1) (filled_with 0) only_five refl (omega arith) (inr refl)
