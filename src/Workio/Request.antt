-- ===== src/Workio/Request.antt =====
-- The requests of the work thread and what it passes on.
use cpuminer.Base.{
  inl, ℕ, zero, suc, ◌+◌, ◌*◌, ◌≤◌, ◌<◌, ◌≡◌, refl, ap, if◌then◌else◌, Bool, true, false, Option,
  none, some, List, [], ◌∷◌, ◌++◌, length, length-append, replicate, arith,
}
use cpuminer.Base.Int.{ℤ}
use cpuminer.Hex.{hex_text, bin2hex}
use cpuminer.Work.{Work, Json}
use cpuminer.Work.Decode.{AreSized, Encodes, work_decode-AreSized, work_decode-Encodes}
use cpuminer.Workio.{
  request_head, request_tail, request, decode_result, get_upstream_work, zero_work, sent,
  workio_get_work,
}
use cpuminer.Workio.Retry.{before, succeeds, Allows, retry_loop_lem}

length-hex_text : (p : List ℕ) → length (hex_text p) ≡ length p * 2
unfolding hex_text
length-hex_text [] = refl
length-hex_text (b ∷ p) = omega (arith, length-hex_text p)

-- The request that submits the data of a work unit, with its terminating NUL, fits the buffer of 345
-- bytes that `submit_upstream_work` prints it into.
pub length-request :
    (work : Work) (hexstr : List ℕ)
    → AreSized work
    → bin2hex true work.data_bytes ≡ some hexstr
    → length (request hexstr) + 1 ≤ 345
unfolding bin2hex request
length-request work hexstr sized e =
    let same : hex_text work.data_bytes ≡ hexstr = cc in
    rw (← same) (
      omega (
        arith,
        sized.data_bytes,
        length-hex_text work.data_bytes,
        length-append request_head (hex_text work.data_bytes ++ request_tail),
        length-append (hex_text work.data_bytes) request_tail,
      ))

module _ (json : Json) (rpc : ℕ → Option json.Value) where
  abbrev pub attempt : ℕ → Work → Bool × Work
  attempt i = get_upstream_work json (rpc i)

  decode_result-AreSized :
      (val : Option json.Value) (w : Work) → AreSized w → AreSized (decode_result json val w).1
  unfolding decode_result
  decode_result-AreSized none w v = v
  decode_result-AreSized (some val) w v = work_decode-AreSized json val w v

  get_upstream_work-AreSized :
      (val : Option json.Value) (w : Work) → AreSized w → AreSized (get_upstream_work json val w).1
  unfolding get_upstream_work
  get_upstream_work-AreSized none w v = v
  get_upstream_work-AreSized (some val) w v =
      decode_result-AreSized (json.object_get val "result") w v

  before-AreSized : (i : ℕ) (w : Work) → AreSized w → AreSized (before attempt i w)
  before-AreSized zero w v = v
  before-AreSized (suc i) w v =
      get_upstream_work-AreSized (rpc i) (before attempt i w) (before-AreSized i w v)

  zero_work-AreSized : AreSized (zero_work json)
  zero_work-AreSized = record {
    data_bytes = refl;
    hash1 = refl;
    midstate = refl;
    target = refl;
    hash = refl;
  }

  -- The answer holds, at "result", the encoded work unit `unit`.
  pub record Answers (val : Option json.Value) (unit : Work) : Type 0 where
    pub answer : json.Value
    pub answered : val ≡ some answer
    pub result : json.Value
    pub found : json.object_get answer "result" ≡ some result
    pub sized : AreSized unit
    pub midstate : Encodes json result "midstate" unit.midstate
    pub data_bytes : Encodes json result "data" unit.data_bytes
    pub hash1 : Encodes json result "hash1" unit.hash1
    pub target : Encodes json result "target" unit.target

  abbrev pub received : Work → Work
  received unit = record unit { hash = replicate 32 0 }

  get_upstream_work-Answers :
      (val : Option json.Value) (w unit : Work)
      → AreSized w
      → Answers val unit
      → get_upstream_work json val w ≡ (true, received unit)
  unfolding get_upstream_work decode_result
  get_upstream_work-Answers val w unit v a =
      rw (a.answered, a.found)
        (work_decode-Encodes json a.result unit w a.sized v a.midstate a.data_bytes a.hash1
          a.target)

  module _ (opt_retries : ℤ) (pushed : Bool) (k fuel : ℕ) (small : k < fuel)
      (allowed : Allows opt_retries k)
      (failed : (j : ℕ) → j < k → succeeds attempt j (zero_work json) ≡ false) where
    -- The first answer that decodes, if the limit on the attempts allows it, is sent to the thread
    -- that asked, unless its queue is frozen: the unit that the answer encodes, whatever the failed
    -- answers before have left in the buffers.
    pub workio_get_work_lem :
        (unit : Work)
        → Answers (rpc k) unit
        → workio_get_work json fuel opt_retries true pushed rpc
          ≡ some (true, if pushed then some (received unit) else none)
    unfolding workio_get_work sent
    workio_get_work_lem unit a =
        let last =
          get_upstream_work-Answers (rpc k) (before attempt k (zero_work json)) unit
            (before-AreSized k (zero_work json) zero_work-AreSized) a in
        let good : succeeds attempt k (zero_work json) ≡ true =
          ap (λ (p : Bool × Work). p.0) last in
        let whole : before attempt (suc k) (zero_work json) ≡ received unit =
          ap (λ (p : Bool × Work). p.1) last in
        let loop =
          retry_loop_lem opt_retries attempt (zero_work json) k fuel small allowed failed
            (inl good) in
        rw (loop, good) (ap (λ (w : Work). some (true, if pushed then some w else none)) whole)
