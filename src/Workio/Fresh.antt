-- ===== src/Workio/Fresh.antt =====
-- Whatever the server answers, a work unit that the work thread sends has buffers of the right size that
-- hold bytes.
use cpuminer.Base.{
  ℕ, zero, suc, ◌≡◌, refl, Bool, true, false, Bool-cases, inl, inr, Option, none, some,
}
use cpuminer.Base.Int.{ℤ}
use cpuminer.Work.{Work, Json}
use cpuminer.Work.Decode.{AreSized, work_decode-AreSized}
use cpuminer.Work.Bytes.{HasBytes, AreBytes-replicate, work_decode-HasBytes}
use cpuminer.Workio.{
  Ended, finished, gave_up, out_of_fuel, exhausted, retry_loop, decode_result, get_upstream_work,
  zero_work, sent, workio_get_work,
}

pub record IsFresh (w : Work) : Type 0 where
  pub sized : AreSized w
  pub bytes : HasBytes w

-- What every attempt keeps holds of the result.
abbrev EndedIn : {A : Type 0} → (A → Type 0) → Ended A → Type 0
EndedIn P (finished n a) = P a
EndedIn P (gave_up n) = Unit
EndedIn P out_of_fuel = Unit

retry_loop-keeps :
    {A : Type 0} (P : A → Type 0) (opt_retries : ℤ) (attempt : ℕ → A → Bool × A)
    → ((i : ℕ) (a : A) → P a → P (attempt i a).1)
    → (fuel i failures : ℕ) (a : A) → P a
    → EndedIn P (retry_loop opt_retries attempt fuel i failures a)
unfolding retry_loop
retry_loop-keeps P opt_retries attempt keeps zero i failures a p = tt
retry_loop-keeps P opt_retries attempt keeps (suc fuel) i failures a p =
    let p' = keeps i a p in
    let rest =
      retry_loop-keeps P opt_retries attempt keeps fuel (suc i) (exhausted opt_retries failures).1
        (attempt i a).1 p' in
    elim (Bool-cases (attempt i a).0) [
      | inl good ↦ rw good p'
      | inr bad ↦ elim (Bool-cases (exhausted opt_retries failures).0) [
        | inl last ↦ rw (bad, last) tt
        | inr more ↦ rw (bad, more) rest
      ]
    ]

module _ (json : Json) where
  decode_result-IsFresh :
      (val : Option json.Value) (w : Work) → IsFresh w → IsFresh (decode_result json val w).1
  unfolding decode_result
  decode_result-IsFresh none w v = v
  decode_result-IsFresh (some val) w v = record {
    sized = work_decode-AreSized json val w v.sized;
    bytes = work_decode-HasBytes json val w v.bytes;
  }

  get_upstream_work-IsFresh :
      (val : Option json.Value) (w : Work) → IsFresh w → IsFresh (get_upstream_work json val w).1
  unfolding get_upstream_work
  get_upstream_work-IsFresh none w v = v
  get_upstream_work-IsFresh (some val) w v =
      decode_result-IsFresh (json.object_get val "result") w v

  zero_work-IsFresh : IsFresh (zero_work json)
  zero_work-IsFresh = record {
    sized = record { data_bytes = refl; hash1 = refl; midstate = refl; target = refl; hash = refl };
    bytes = record {
      data_bytes = AreBytes-replicate 128;
      hash1 = AreBytes-replicate 64;
      midstate = AreBytes-replicate 32;
      target = AreBytes-replicate 32;
    };
  }

  sent-IsFresh :
      (pushed : Bool) (e : Ended Work) (ok : Bool) (w : Work)
      → EndedIn IsFresh e
      → sent json pushed e ≡ some (ok, some w)
      → IsFresh w
  unfolding sent
  sent-IsFresh true (finished n w') ok w fresh e = let same : w' ≡ w = cc in rw (← same) fresh
  sent-IsFresh false (finished n w') ok w fresh e = absurd cc
  sent-IsFresh pushed (gave_up n) ok w fresh e = absurd cc
  sent-IsFresh pushed out_of_fuel ok w fresh e = absurd cc

  -- Every work unit that `workio_get_work` sends has buffers of the sizes of `struct work` and holds
  -- bytes, whatever the answers of the server are.
  pub workio_get_work-IsFresh :
      (fuel : ℕ) (opt_retries : ℤ) (calloc_ok pushed ok : Bool) (rpc : ℕ → Option json.Value)
      (w : Work)
      → workio_get_work json fuel opt_retries calloc_ok pushed rpc ≡ some (ok, some w)
      → IsFresh w
  unfolding workio_get_work
  workio_get_work-IsFresh fuel opt_retries true pushed ok rpc w e =
      sent-IsFresh pushed _ ok w
        (retry_loop-keeps IsFresh opt_retries (λ i. get_upstream_work json (rpc i))
          (λ i a v. get_upstream_work-IsFresh (rpc i) a v) fuel 0 0 (zero_work json)
          zero_work-IsFresh)
        e
  workio_get_work-IsFresh fuel opt_retries false pushed ok rpc w e = absurd cc
