-- ===== src/Node/Transport/Deadlines.antt =====
-- When a call ends, and what it does not start.
use sshe.Protocol.Message.{Request, Response}
use sshe.Node.Error.{connection_lost, Error}
use sshe.Node.Transport.{
  not_configured, rpc_timeout, call_timeout, Failed, ready, mark_submitted, within, io_timeout,
  dial_timeout, finish_stream, connection, reply_on, first_reply, retry, within_deadline, set_slot,
  EndpointId, note, call_until, exchange, send_request, talk, acquire, reuse_or_dial, modify, call,
  await, dial, lock_slot, submit, Iroh, Net, Async, ◌>>=◌,
}
use sshe.Node.Transport.Follows.{
  Follows-ready, within_deadline-Follows, Follows-bind, Follows, IsPreorder,
}
use sshe.Prelude.{
  ◌-◌, min, some, ◌<◌, false, str_eq, any, inr, ok, refl, inl, Result-cases, Bool, ◌*◌, err, max,
  ◌+◌, Option, ◌≡◌, Result, ◌≤◌, arith, List, ℕ,
}

module _ {Value : Type 0} (iroh : Iroh Value) where
  -- The clock goes forward, and past the cut-off only if it was there before.
  abbrev Timely : ℕ → Net iroh → Net iroh → Type 0
  Timely cutoff n n' = (n.now ≤ n'.now) × (n'.now ≤ max n.now cutoff)

  Timely-preorder : IsPreorder iroh Timely
  Timely-preorder = record {
    same = λ cutoff n. omega arith;
    chain = λ cutoff a b c h k. omega arith;
  }

  await-Timely :
      {A E : Type 0} (into : E → Error) (op : iroh.World → ℕ × Result E A × iroh.World)
      → Follows iroh Timely (await iroh into op)
  unfolding await
  await-Timely into op = record { at = λ cutoff n. ground arith }

  modify-Timely :
      (f : Net iroh → Net iroh)
      → ((n : Net iroh) → (f n).now ≡ n.now)
      → Follows iroh Timely (modify iroh f)
  unfolding modify
  modify-Timely f h = record { at = λ cutoff n. omega (arith, h n) }

  dial-Timely : (id : EndpointId) → Follows iroh Timely (dial iroh id)
  unfolding dial note set_slot
  dial-Timely id = Follows-bind iroh Timely Timely-preorder _ _ (modify-Timely _ (λ n. refl)) λ _.
      Follows-bind iroh Timely Timely-preorder _ _ (await-Timely _ _) λ c.
        Follows-bind iroh Timely Timely-preorder _ _ (modify-Timely _ (λ n. refl))
          λ _. Follows-ready iroh Timely Timely-preorder _

  lock_slot-Timely : (id : EndpointId) → Follows iroh Timely (lock_slot iroh id)
  unfolding lock_slot
  lock_slot-Timely id = record { at = λ cutoff n. ground arith }

  reuse_or_dial-Timely :
      (id : EndpointId) (cached : Option iroh.Conn)
      → Follows iroh Timely (reuse_or_dial iroh id cached)
  unfolding reuse_or_dial
  reuse_or_dial-Timely id cached = record {
    at = λ cutoff n. ground (arith, (dial-Timely id).at cutoff n);
  }

  acquire-Timely :
      (peers : List EndpointId) (id : EndpointId) → Follows iroh Timely (acquire iroh peers id)
  unfolding acquire
  acquire-Timely peers id =
      Follows-bind iroh Timely Timely-preorder _ _ (Follows-ready iroh Timely Timely-preorder _)
        λ _.
          Follows-bind iroh Timely Timely-preorder _ _ (lock_slot-Timely id)
            (reuse_or_dial-Timely id)

  submit-Timely :
      (s : iroh.Stream) (request : Request) → Follows iroh Timely (submit iroh s request)
  unfolding submit talk send_request finish_stream mark_submitted note
  submit-Timely s request =
      Follows-bind iroh Timely Timely-preorder _ _ (modify-Timely _ (λ n. refl)) λ _.
        Follows-bind iroh Timely Timely-preorder _ _
          (Follows-bind iroh Timely Timely-preorder _ _ (modify-Timely _ (λ n. refl))
            λ _. await-Timely _ _)
          λ _.
            Follows-bind iroh Timely Timely-preorder _ _ (record { at = λ cutoff n. omega arith })
              λ _. await-Timely _ _

  -- The same for a phase, with the call's own deadline.
  phase-Timely :
      {A : Type 0} (deadline limit : ℕ) (m : Async iroh A) (n : Net iroh)
      → Follows iroh Timely m
      → Timely deadline n (within_deadline iroh deadline limit m n).1
  phase-Timely deadline limit m n h =
      omega (arith, within_deadline-Follows iroh Timely Timely-preorder deadline limit m n h)

  module _ (request : Request) (deadline : ℕ) where
    exchange-Timely :
        (c : iroh.Conn) (n : Net iroh) → Timely deadline n (exchange iroh c request deadline n).1
    unfolding exchange reply_on
    exchange-Timely c n =
        let opened =
          within_deadline iroh deadline io_timeout
            (await iroh connection_lost (λ w. iroh.open_bi w c)) n in
        let first =
          phase-Timely deadline io_timeout (await iroh connection_lost (λ w. iroh.open_bi w c)) n
            (await-Timely _ _) in
        elim (Result-cases opened.0) [
          | inl (s, e) ↦
              rw (e, exchange)
                (omega (
                  arith,
                  first,
                  phase-Timely deadline rpc_timeout (submit iroh s request)
                      (record opened.1 { submitted = false }) (submit-Timely s request),
                ))
          | inr (f, e) ↦ rw (e, exchange) first
        ]

    module _ (peers : List EndpointId) (id : EndpointId) where
      connection-Timely : (n : Net iroh) → Timely deadline n (connection iroh peers id deadline n).1
      unfolding connection
      connection-Timely n = phase-Timely deadline dial_timeout _ n (acquire-Timely peers id)

      retry-Timely : (n : Net iroh) → Timely deadline n (retry iroh peers id request deadline n).1
      unfolding retry
      retry-Timely n =
          let c = connection iroh peers id deadline n in
          elim (Result-cases c.0) [
            | inl ((conn, reused), e) ↦
                rw (e, retry) (omega (arith, connection-Timely n, exchange-Timely conn c.1))
            | inr (x, e) ↦ rw (e, retry) (connection-Timely n)
          ]

      first_reply-Timely :
          (c : iroh.Conn) (reused : Bool) (r : Result (Failed iroh) (Response Value)) (n : Net iroh)
          → Timely deadline n (first_reply iroh peers id request deadline c reused r n).1
      unfolding first_reply
      first_reply-Timely c reused (ok response) n = omega arith
      first_reply-Timely c reused (err failed) n = ground (arith, retry-Timely n)

      call_until-Timely :
          (n : Net iroh) → Timely deadline n (call_until iroh peers id request deadline n).1
      unfolding call_until
      call_until-Timely n =
          let c = connection iroh peers id deadline n in
          elim (Result-cases c.0) [
            | inl ((conn, reused), e) ↦
                let x = exchange iroh conn request deadline c.1 in
                rw (e, call_until)
                  (omega (
                    arith,
                    connection-Timely n,
                    exchange-Timely conn c.1,
                    first_reply-Timely conn reused x.0 x.1,
                  ))
            | inr (x, e) ↦ rw (e, call_until) (connection-Timely n)
          ]

      -- A call whose deadline has passed starts nothing: it times out in the state it found.
      call_until_expired :
          (n : Net iroh)
          → deadline ≤ n.now
          → call_until iroh peers id request deadline n ≡ (err Error.timeout, n)
      unfolding call_until connection within_deadline
      call_until_expired n h = ground arith

  -- A call ends within its budget of 110 seconds, whatever the network does: queueing for the
  -- peer, dialing, opening streams, the exchange and a retry included.
  pub call_within_budget :
      (peers : List EndpointId) (id : EndpointId) (request : Request) (n : Net iroh)
      → (call iroh peers id request n).1.now ≤ n.now + 110 * 1000
  unfolding call
  call_within_budget peers id request n =
      omega (arith, call_until-Timely request (n.now + call_timeout) peers id n)

  acquire_unconfigured :
      (peers : List EndpointId) (id : EndpointId) (cutoff : ℕ) (n : Net iroh)
      → any (str_eq id) peers ≡ false
      → acquire iroh peers id cutoff n ≡ (some (err (not_configured iroh id)), n)
  unfolding acquire ready ◌>>=◌
  acquire_unconfigured peers id cutoff n h = simp h

  within_deadline_at_once :
      {A : Type 0} (deadline limit : ℕ) (m : Async iroh A) (r : Result Error A) (n : Net iroh)
      → n.now < deadline
      → m (n.now + min limit (deadline - n.now)) n ≡ (some r, n)
      → within_deadline iroh deadline limit m n ≡ (r, n)
  unfolding within_deadline within
  within_deadline_at_once deadline limit m r n less h = ground (arith, h)

  connection_unconfigured :
      (peers : List EndpointId) (id : EndpointId) (deadline : ℕ) (n : Net iroh)
      → any (str_eq id) peers ≡ false
      → n.now < deadline
      → connection iroh peers id deadline n ≡ (err (not_configured iroh id), n)
  unfolding connection
  connection_unconfigured peers id deadline n h less =
      within_deadline_at_once deadline dial_timeout (acquire iroh peers id)
        (err (not_configured iroh id)) n less (acquire_unconfigured peers id _ n h)

  -- A peer that is not configured is refused before anything is waited for, locked or dialed.
  call_unconfigured :
      (peers : List EndpointId) (id : EndpointId) (request : Request) (n : Net iroh)
      → any (str_eq id) peers ≡ false
      → call iroh peers id request n ≡ (err (not_configured iroh id), n)
  unfolding call call_until
  call_unconfigured peers id request n h =
      let e : connection iroh peers id (n.now + call_timeout) n
          ≡ (err (not_configured iroh id), n) =
        connection_unconfigured peers id (n.now + call_timeout) n h (omega arith) in
      ground (arith, e)
