-- ===== src/Rpc/Activation.antt =====
-- What a call returns, and how often long polling is activated.
use cpuminer.Base.{
  ℕ, ◌*◌, ◌≡◌, ◌⊎◌, ◌↔◌, inl, inr, sym, ap, ◌∙◌, ◌++◌, refl, Bool-cases, if◌then◌else◌, Bool, true,
  false, ◌&&◌, ◌||◌, not, Option, none, some, List, [], ◌∷◌, length, length-append, arith,
}
use cpuminer.Options.Holds.{or_false}
use cpuminer.Rpc.{
  Setup, Transfer, Globals, Loaded, loaded, rejected, crashed, Call, returned, fault, JsonReader,
  header_path, body, activate, lacks_result, has_error, with_answer, valid_response, json_rpc_call,
}

-- Nothing was pushed before long polling is active, and one path with it.
abbrev pub IsActivated : Globals → Type 0
IsActivated g = length g.pushed ≡ (if g.have_longpoll then 1 else 0)

-- The globals once long polling is active, with one path more for its thread.
abbrev pub with_path : List ℕ → Globals → Globals
with_path path g = record {
  want_longpoll = g.want_longpoll;
  have_longpoll = true;
  opt_scantime = 60;
  pushed = g.pushed ++ path ∷ [];
}

-- The call looks for the header: it is asked to, long polling is wanted and not active.
abbrev pub Awaits : Bool → Globals → Type 0
Awaits longpoll_scan g =
    (longpoll_scan ≡ true) × (g.want_longpoll ≡ true) × (g.have_longpoll ≡ false)

-- What the call makes of the globals: with the headers of a successful transfer it activates long
-- polling where it awaits a path and gets one, and else leaves them.
abbrev pub IsLeft : Bool → Globals → Transfer → Globals → Type 0
IsLeft longpoll_scan g x g' =
    ((path : List ℕ) × (x.success ≡ true)
      × Awaits longpoll_scan g
      × (header_path x.header_lines none ≡ some path)
      × (g' ≡ with_path path g))
    ⊎ ((g' ≡ g)
        × ((x.success ≡ false)
            ⊎ (Awaits longpoll_scan g → ⊥)
            ⊎ (header_path x.header_lines none ≡ none)))

module _ (json : JsonReader) where
  -- An answer with a result that is not null, and no error or a null one.
  abbrev pub IsResponse : json.Value → Type 0
  IsResponse val =
      ((result : json.Value) × (json.object_get val "result" ≡ some result)
        × (json.is_null result ≡ false))
      × ((json.object_get val "error" ≡ none)
          ⊎ (error : json.Value) × (json.object_get val "error" ≡ some error)
            × (json.is_null error ≡ true))

  -- What a call with that transfer returns, and the globals that it leaves.
  pub record IsReturned (longpoll_scan : Bool) (g : Globals) (x : Transfer)
      (answer : Option json.Value) (g' : Globals) : Type 0 where
    pub left : IsLeft longpoll_scan g x g'
    pub once : IsActivated g'
    pub answers :
        (val : json.Value)
        → (answer ≡ some val)
          ↔ ((x.success ≡ true) × (json.loads (body x.chunks none) ≡ loaded val) × IsResponse val)

  abbrev pub IsCall : Bool → Globals → Transfer → Call json.Value → Type 0
  IsCall longpoll_scan g x (returned answer g') = IsReturned longpoll_scan g x answer g'
  IsCall longpoll_scan g x fault = (x.success ≡ true) × (json.loads (body x.chunks none) ≡ crashed)

  module _ (perform : Setup → Transfer) where
    lacks_result-IsResponse :
        (r : Option json.Value)
        → (lacks_result json perform r ≡ false)
          ↔ ((result : json.Value) × (r ≡ some result) × (json.is_null result ≡ false))
    unfolding lacks_result
    lacks_result-IsResponse none = ((λ h. absurd cc), (λ h. absurd cc))
    lacks_result-IsResponse (some result) = (
      (λ h. (result, refl, h)),
      (λ p. let (r, e, z) = p in let same : r ≡ result = cc in rw (← same) z),
    )

    has_error-IsResponse :
        (r : Option json.Value)
        → (has_error json perform r ≡ false)
          ↔ ((r ≡ none) ⊎ (error : json.Value) × (r ≡ some error) × (json.is_null error ≡ true))
    unfolding has_error
    has_error-IsResponse none = ((λ h. inl refl), (λ h. refl))
    has_error-IsResponse (some error) = (
      (λ h. inr (error, refl, ground arith)),
      (λ p. elim p [
        | inl e ↦ absurd cc
        | inr (r, e, z) ↦ let same : r ≡ error = cc in let null = rw same at z in rw null refl
      ]),
    )

    valid_response-IsResponse :
        (v val : json.Value)
        → (valid_response json perform v ≡ some val) ↔ ((v ≡ val) × IsResponse val)
    unfolding valid_response
    valid_response-IsResponse v val = (forward, back)
      where
        forward : valid_response json perform v ≡ some val → (v ≡ val) × IsResponse val
        forward h =
            elim (Bool-cases (
              lacks_result json perform (json.object_get v "result")
              || has_error json perform (json.object_get v "error"))) [
                | inl bad ↦ absurd (let none_left = rw bad at h in cc)
                | inr good ↦
                    let kept : some v ≡ some val = rw good at h in
                    let same : v ≡ val = cc in
                    let both = or_false _ _ good in
                    (
                      same,
                      rw (← same) (
                        (lacks_result-IsResponse (json.object_get v "result")).0 both.0,
                        (has_error-IsResponse (json.object_get v "error")).0 both.1,
                      ),
                    )
              ]

        back : (v ≡ val) × IsResponse val → valid_response json perform v ≡ some val
        back h =
            let same = h.0 in
            let some_result = (lacks_result-IsResponse (json.object_get val "result")).1 h.1.0 in
            let no_error = (has_error-IsResponse (json.object_get val "error")).1 h.1.1 in
            rw (same, some_result, no_error) refl

    -- The globals, by whether the call looks for the header.
    activate-IsLeft :
        (longpoll_scan : Bool) (g : Globals) (x : Transfer)
        → x.success ≡ true
        → IsLeft longpoll_scan g x (
            activate
              (if longpoll_scan && (g.want_longpoll && not g.have_longpoll)
                then header_path x.header_lines none
                else none)
              g)
    unfolding activate
    activate-IsLeft longpoll_scan g x ok =
        elim (Bool-cases (longpoll_scan && (g.want_longpoll && not g.have_longpoll))) [
          | inl looks ↦
              let awaits : Awaits longpoll_scan g = ground arith in
              rw looks (by_path awaits (header_path x.header_lines none) refl)
          | inr blind ↦ rw blind (inr (refl, inr (inl (λ a. ground (arith, a)))))
        ]
      where
        by_path :
            Awaits longpoll_scan g
            → (o : Option (List ℕ)) → header_path x.header_lines none ≡ o
            → IsLeft longpoll_scan g x (activate o g)
        by_path awaits none e = inr (refl, inr (inr e))
        by_path awaits (some path) e = inl (path, ok, awaits, e, refl)

    IsLeft-IsActivated :
        (longpoll_scan : Bool) (g g' : Globals) (x : Transfer)
        → IsLeft longpoll_scan g x g'
        → IsActivated g
        → IsActivated g'
    IsLeft-IsActivated longpoll_scan g g' x (inl (path, ok, awaits, e, same)) h =
        let empty : length g.pushed ≡ 0 = ground (arith, h, awaits.2) in
        rw same (omega (arith, empty, length-append g.pushed (path ∷ [])))
    IsLeft-IsActivated longpoll_scan g g' x (inr (same, why)) h = rw same h

    by_answer :
        (longpoll_scan : Bool) (g g' : Globals) (x : Transfer) (l : Loaded json.Value)
        → x.success ≡ true
        → json.loads (body x.chunks none) ≡ l
        → IsLeft longpoll_scan g x g'
        → IsActivated g'
        → IsCall longpoll_scan g x (with_answer json perform g' l)
    unfolding with_answer
    by_answer longpoll_scan g g' x (loaded v) ok e left once = record {
      left = left;
      once = once;
      answers = λ val. (
        (λ h.
            let (same, response) = (valid_response-IsResponse v val).0 h in
            (ok, e ∙ ap loaded same, response)),
        (λ h.
            let (good, e', response) = h in
            (valid_response-IsResponse v val).1 (loaded_injective v val (sym e ∙ e'), response)),
      );
    }
      where
        loaded_injective :
            (a b : json.Value) → ◌≡◌ {A = Loaded json.Value} (loaded a) (loaded b) → a ≡ b
        loaded_injective a b q = cc
    by_answer longpoll_scan g g' x rejected ok e left once = record {
      left = left;
      once = once;
      answers = λ val. ((λ h. absurd cc), (λ h. absurd (let (good, e', response) = h in cc)));
    }
    by_answer longpoll_scan g g' x crashed ok e left once = (ok, e)

    by_success :
        (longpoll_scan : Bool) (g : Globals) (x : Transfer) (b : Bool)
        → x.success ≡ b
        → IsActivated g
        → IsCall longpoll_scan g x (
            if b
            then with_answer json perform
                (activate
                  (if longpoll_scan && (g.want_longpoll && not g.have_longpoll)
                    then header_path x.header_lines none
                    else none)
                  g)
                (json.loads (body x.chunks none))
            else returned none g)
    by_success longpoll_scan g x true ok h =
        let left = activate-IsLeft longpoll_scan g x ok in
        by_answer longpoll_scan g _ x (json.loads (body x.chunks none)) ok refl left
          (IsLeft-IsActivated longpoll_scan g _ x left h)
    by_success longpoll_scan g x false broken h = record {
      left = inr (refl, inl broken);
      once = h;
      answers = λ val. ((λ q. absurd cc), (λ q. absurd (let good = q.0 in cc)));
    }

    -- What libcurl gets to do.
    abbrev pub transfer_of : List ℕ → Option (List ℕ) → List ℕ → Bool → Bool → Globals → Transfer
    transfer_of url userpass rpc_req longpoll_scan longpoll g = perform (record {
      url = url;
      timeout = if longpoll then 60 * 60 else 60 * 10;
      header_function = longpoll_scan && (g.want_longpoll && not g.have_longpoll);
      userpass = userpass;
      upload = rpc_req;
    })

    -- Whatever the server sends, `json_rpc_call` returns the answer exactly when the transfer succeeds
    -- and the collected body is JSON with a result that is not null and no error or a null one, and
    -- NULL otherwise. Long polling becomes active, with a scan time of 60 seconds and the path for
    -- its thread, exactly when the transfer succeeds and has announced a path, and the call was
    -- asked to look for one while long polling was wanted and not yet active; otherwise the globals
    -- stay. So over all calls one path is pushed, with the first such answer: if none was pushed
    -- before long polling is active and one with it, that holds again. The call faults only when
    -- the JSON library does, on the body of a successful transfer.
    pub json_rpc_call_lem :
        (url : List ℕ) (userpass : Option (List ℕ)) (rpc_req : List ℕ)
        (longpoll_scan longpoll : Bool) (g : Globals)
        → IsActivated g
        → IsCall longpoll_scan g
            (transfer_of url userpass rpc_req longpoll_scan longpoll g)
            (json_rpc_call json perform url userpass rpc_req longpoll_scan longpoll g)
    unfolding json_rpc_call
    json_rpc_call_lem url userpass rpc_req longpoll_scan longpoll g h =
        by_success longpoll_scan g (transfer_of url userpass rpc_req longpoll_scan longpoll g) _
          refl h
