-- ===== src/Node/Transport/Submits.antt =====
-- How often a call hands its request to a peer, against what it reports.
use sshe.Protocol.Message.{Request, Response, exec}
use sshe.Node.Error.{connection_lost, Error}
use sshe.Node.Transport.{
  Async, call_timeout, may_retry, first_reply, is_exec, unknown_if_exec, retry, finally, call_until,
  call, ◌>>=◌, rpc_timeout, finish_stream, mark_submitted, send_request, talk, io_timeout, modify,
  set_slot, dial_timeout, reply_on, exchange, note, submit, acquire, reuse_or_dial, lock_slot,
  submitted, dial, dialed, Net, within, EndpointId, Failed, within_deadline, Event, connection,
  await, Iroh,
}
use sshe.Prelude.{
  Bool-cases, Bool, String, inr, false, inl, ◌-◌, Result-cases, min, true, Option, ◌∙◌, refl, ◌+◌,
  ap, [], if◌then◌else◌, suc, arith, ◌≡◌, err, ◌++◌, ok, ◌∷◌, ℕ, Result, List,
}
use sshe.Node.Transport.Follows.{
  Follows-ready, within_deadline-Follows, Follows-bind, Follows, IsPreorder,
}
use sshe.Node.Transport.Plain.{error_of, unknowns, connection-Plain, exchange-Plain, unknown}

-- The submissions in a trace.
abbrev pub submits : List Event → ℕ
submits [] = 0
submits (dialed _ _ ∷ es) = submits es
submits (submitted _ _ ∷ es) = suc (submits es)

submits-snoc_dialed :
    (es : List Event) (t : ℕ) (id : EndpointId) → submits (es ++ dialed t id ∷ []) ≡ submits es
submits-snoc_dialed [] t id = refl
submits-snoc_dialed (dialed _ _ ∷ es) t id = submits-snoc_dialed es t id
submits-snoc_dialed (submitted _ _ ∷ es) t id = ap suc (submits-snoc_dialed es t id)

submits-snoc_submitted :
    (es : List Event) (t : ℕ) (r : Request) → submits (es ++ submitted t r ∷ []) ≡ submits es + 1
submits-snoc_submitted [] t r = omega arith
submits-snoc_submitted (dialed _ _ ∷ es) t r = submits-snoc_submitted es t r
submits-snoc_submitted (submitted _ _ ∷ es) t r = omega (arith, submits-snoc_submitted es t r)

-- The number of submissions that a result tells of: a reply and an unknown outcome follow one.
abbrev pub told : {A : Type 0} → Result Error A → ℕ
told (ok _) = 1
told (err (Error.outcome_unknown _)) = 1
told (err _) = 0

module _ {Value : Type 0} (iroh : Iroh Value) where
  abbrev sent : Result (Failed iroh) (Response Value) → ℕ
  sent (ok _) = 1
  sent (err failed) = if failed.submitted then 1 else 0

  -- Nothing is submitted, and the flag keeps its value.
  abbrev Quiet : ℕ → Net iroh → Net iroh → Type 0
  Quiet cutoff n n' = (submits n'.trace ≡ submits n.trace) × (n'.submitted ≡ n.submitted)

  Quiet-preorder : IsPreorder iroh Quiet
  Quiet-preorder = record {
    same = λ cutoff n. (refl, refl);
    chain = λ cutoff a b c h k. (k.0 ∙ h.0, k.1 ∙ h.1);
  }

  await-Quiet :
      {A E : Type 0} (into : E → Error) (op : iroh.World → ℕ × Result E A × iroh.World)
      → Follows iroh Quiet (await iroh into op)
  unfolding await
  await-Quiet into op = record { at = λ cutoff n. ground arith }

  modify-Quiet :
      (f : Net iroh → Net iroh)
      → ((n : Net iroh) → Quiet 0 n (f n))
      → Follows iroh Quiet (modify iroh f)
  unfolding modify
  modify-Quiet f h = record { at = λ cutoff n. h n }

  dial-Quiet : (id : EndpointId) → Follows iroh Quiet (dial iroh id)
  unfolding dial note set_slot
  dial-Quiet id =
      Follows-bind iroh Quiet Quiet-preorder _ _
        (modify-Quiet _ (λ n. (submits-snoc_dialed n.trace n.now id, refl)))
        λ _. Follows-bind iroh Quiet Quiet-preorder _ _ (await-Quiet _ _) λ c.
          Follows-bind iroh Quiet Quiet-preorder _ _ (modify-Quiet _ (λ n. (refl, refl)))
            λ _. Follows-ready iroh Quiet Quiet-preorder _

  lock_slot-Quiet : (id : EndpointId) → Follows iroh Quiet (lock_slot iroh id)
  unfolding lock_slot
  lock_slot-Quiet id = record { at = λ cutoff n. ground arith }

  reuse_or_dial-Quiet :
      (id : EndpointId) (cached : Option iroh.Conn)
      → Follows iroh Quiet (reuse_or_dial iroh id cached)
  unfolding reuse_or_dial
  reuse_or_dial-Quiet id cached = record {
    at = λ cutoff n. ground (arith, (dial-Quiet id).at cutoff n);
  }

  acquire-Quiet :
      (peers : List EndpointId) (id : EndpointId) → Follows iroh Quiet (acquire iroh peers id)
  unfolding acquire
  acquire-Quiet peers id =
      Follows-bind iroh Quiet Quiet-preorder _ _ (Follows-ready iroh Quiet Quiet-preorder _) λ _.
        Follows-bind iroh Quiet Quiet-preorder _ _ (lock_slot-Quiet id) (reuse_or_dial-Quiet id)

  submits-connection :
      (peers : List EndpointId) (id : EndpointId) (deadline : ℕ) (n : Net iroh)
      → submits (connection iroh peers id deadline n).1.trace ≡ submits n.trace
  unfolding connection
  submits-connection peers id deadline n =
      (within_deadline-Follows iroh Quiet Quiet-preorder deadline dial_timeout _ n
        (acquire-Quiet peers id)).0

  -- what follows the beginning of the write
  abbrev written : iroh.Stream → Request → Async iroh (Response Value)
  written s request =
      ◌>>=◌ iroh (await iroh Error.protocol (λ w. iroh.write_frame w s request)) λ _.
        ◌>>=◌ iroh (finish_stream iroh s) λ _. await iroh Error.protocol (λ w. iroh.read_frame w s)

  written-Quiet : (s : iroh.Stream) (request : Request) → Follows iroh Quiet (written s request)
  unfolding finish_stream
  written-Quiet s request = Follows-bind iroh Quiet Quiet-preorder _ _ (await-Quiet _ _) λ _.
      Follows-bind iroh Quiet Quiet-preorder _ _ (record { at = λ cutoff n. (refl, refl) })
        λ _. await-Quiet _ _

  -- the stages of `talk` in a row
  talk-written :
      (s : iroh.Stream) (request : Request) (cutoff : ℕ) (n : Net iroh)
      → talk iroh s request cutoff n
        ≡ written s request cutoff (note iroh (λ t. submitted t request) n)
  unfolding talk send_request modify ◌>>=◌
  talk-written s request cutoff n = refl

  submit_told :
      (s : iroh.Stream) (request : Request) (cutoff : ℕ) (n : Net iroh)
      → (submits (submit iroh s request cutoff n).1.trace ≡ submits n.trace + 1)
        × ((submit iroh s request cutoff n).1.submitted ≡ true)
  unfolding submit ◌>>=◌ modify mark_submitted note
  submit_told s request cutoff n =
      let marked = mark_submitted iroh n in
      let (h, k) =
        (written-Quiet s request).at cutoff (note iroh (λ t. submitted t request) marked) in
      rw (talk-written s request cutoff marked)
        (h ∙ submits-snoc_submitted n.trace n.now request, k)

  submits-reply_on :
      (s : iroh.Stream) (request : Request) (deadline : ℕ) (n : Net iroh)
      → submits (reply_on iroh s request deadline n).1.trace
        ≡ submits n.trace + sent (reply_on iroh s request deadline n).0
  unfolding reply_on within_deadline within
  submits-reply_on s request deadline n = ground (
    arith,
    submit_told s request (n.now + min rpc_timeout (deadline - n.now))
        (record n { submitted = false }),
  )

  -- The request is handed over once if the exchange replies or fails with the flag set, and not
  -- at all if it fails with the flag clear.
  submits-exchange :
      (c : iroh.Conn) (request : Request) (deadline : ℕ) (n : Net iroh)
      → submits (exchange iroh c request deadline n).1.trace
        ≡ submits n.trace + sent (exchange iroh c request deadline n).0
  unfolding exchange
  submits-exchange c request deadline n =
      let opened =
        within_deadline iroh deadline io_timeout
          (await iroh connection_lost (λ w. iroh.open_bi w c)) n in
      let (h, _) =
        within_deadline-Follows iroh Quiet Quiet-preorder deadline io_timeout
          (await iroh connection_lost (λ w. iroh.open_bi w c)) n (await-Quiet _ _) in
      elim (Result-cases opened.0) [
        | inl (s, e) ↦
            rw (e, exchange) (omega (arith, submits-reply_on s request deadline opened.1))
        | inr (f, e) ↦ rw (e, exchange) (omega arith)
      ]

  -- What the end of `call_until` tells of an exec agrees with the flag.
  told-finally :
      (program : String) (args : List String) (secs : ℕ) (r : Result (Failed iroh) (Response Value))
      → unknowns (error_of iroh r) ≡ 0
      → told (finally iroh (exec program args secs) r) ≡ sent r
  unfolding finally unknown_if_exec is_exec
  told-finally program args secs r h = ground arith

  told_of_plain : (e : Error) → unknown e ≡ 0 → told {A = Response Value} (err e) ≡ 0
  told_of_plain e h = ground arith

  module _ (peers : List EndpointId) (id : EndpointId) (program : String) (args : List String)
      (secs deadline : ℕ) where
    abbrev request : Request
    request = exec program args secs

    submits-retry :
        (n : Net iroh)
        → submits (retry iroh peers id request deadline n).1.trace
          ≡ submits n.trace + told (retry iroh peers id request deadline n).0
    unfolding retry
    submits-retry n =
        let c = connection iroh peers id deadline n in
        elim (Result-cases c.0) [
          | inl ((conn, reused), e) ↦
              rw (e, retry)
                (omega (
                  arith,
                  submits-connection peers id deadline n,
                  submits-exchange conn request deadline c.1,
                  told-finally program args secs (exchange iroh conn request deadline c.1).0
                      (exchange-Plain iroh conn request deadline c.1),
                ))
          | inr (x, e) ↦
              rw (e, retry)
                (omega (
                  arith,
                  submits-connection peers id deadline n,
                  told_of_plain x (rw e at (connection-Plain iroh peers id deadline n)),
                ))
        ]

    -- A retry is made only where nothing was submitted.
    retry_unsent :
        (c : iroh.Conn) (reused : Bool) (failed : Failed iroh) (n : Net iroh)
        → may_retry iroh c reused request failed n ≡ true
        → sent (err failed) ≡ 0
    unfolding may_retry is_exec
    retry_unsent c reused failed n h = ground arith

    submits-first_reply :
        (c : iroh.Conn) (reused : Bool) (r : Result (Failed iroh) (Response Value)) (n : Net iroh)
        → unknowns (error_of iroh r) ≡ 0
        → submits (first_reply iroh peers id request deadline c reused r n).1.trace + sent r
          ≡ submits n.trace + told (first_reply iroh peers id request deadline c reused r n).0
    unfolding first_reply
    submits-first_reply c reused (ok response) n h =
        omega (arith, told-finally program args secs (ok response) h)
    submits-first_reply c reused (err failed) n h =
        elim (Bool-cases (may_retry iroh c reused request failed n)) [
          | inl again ↦
              rw again (omega (arith, retry_unsent c reused failed n again, submits-retry n))
          | inr over ↦ rw over (omega (arith, told-finally program args secs (err failed) h))
        ]

    submits-call_until :
        (n : Net iroh)
        → submits (call_until iroh peers id request deadline n).1.trace
          ≡ submits n.trace + told (call_until iroh peers id request deadline n).0
    unfolding call_until
    submits-call_until n =
        let c = connection iroh peers id deadline n in
        elim (Result-cases c.0) [
          | inl ((conn, reused), e) ↦
              let x = exchange iroh conn request deadline c.1 in
              rw (e, call_until)
                (omega (
                  arith,
                  submits-connection peers id deadline n,
                  submits-exchange conn request deadline c.1,
                  submits-first_reply conn reused x.0 x.1
                      (exchange-Plain iroh conn request deadline c.1),
                ))
          | inr (x, e) ↦
              rw (e, call_until)
                (omega (
                  arith,
                  submits-connection peers id deadline n,
                  told_of_plain x (rw e at (connection-Plain iroh peers id deadline n)),
                ))
        ]

  -- The writing of an exec to a stream is begun exactly as often as the result of the call tells:
  -- once for a reply or an unknown outcome, not at all for any other error, whatever the network
  -- does and also when the connection is replaced.
  pub submits-call :
      (peers : List EndpointId) (id : EndpointId) (program : String) (args : List String) (secs : ℕ)
      (n : Net iroh)
      → submits (call iroh peers id (exec program args secs) n).1.trace
        ≡ submits n.trace + told (call iroh peers id (exec program args secs) n).0
  unfolding call
  submits-call peers id program args secs n =
      submits-call_until peers id program args secs (n.now + call_timeout) n
