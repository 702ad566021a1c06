-- ===== src/Node/Transport/Plain.antt =====
-- No phase of a call says "outcome unknown" by itself: only the end of `call_until` does.
use sshe.Io.{ConnectionError}
use sshe.Protocol.Message.{Request, Response}
use sshe.Node.Error.{connection_lost, connect_failed, Error, ConnectError}
use sshe.Node.Transport.{
  io_timeout, dial_timeout, rpc_timeout, continue, EndpointId, not_configured, within,
  finish_stream, Failed, modify, reply_on, exchange, ready, within_deadline, acquire, dial,
  lock_slot, reuse_or_dial, send_request, talk, connection, await, submit, Iroh, Net, Async, ◌>>=◌,
}
use sshe.Prelude.{
  ◌-◌, inr, inl, min, false, ◌+◌, none, Result-cases, err, ok, arith, refl, List, some, ◌≡◌, Result,
  ℕ, Option,
}

abbrev pub unknown : Error → ℕ
unknown (Error.outcome_unknown _) = 1
unknown _ = 0

abbrev pub unknowns : {A : Type 0} → Option (Result Error A) → ℕ
unknowns none = 0
unknowns (some (ok _)) = 0
unknowns (some (err e)) = unknown e

unknown-connect_failed : (e : ConnectError) → unknown (connect_failed e) ≡ 0
unfolding connect_failed
unknown-connect_failed e = ground arith

unknown-connection_lost : (e : ConnectionError) → unknown (connection_lost e) ≡ 0
unfolding connection_lost
unknown-connection_lost e = refl

module _ {Value : Type 0} (iroh : Iroh Value) where
  record Plain {A : Type 0} (m : Async iroh A) : Type 0 where
    at : (cutoff : ℕ) (n : Net iroh) → unknowns (m cutoff n).0 ≡ 0

  Plain-ready : {A : Type 0} (r : Result Error A) → unknowns (some r) ≡ 0 → Plain (ready iroh r)
  unfolding ready
  Plain-ready r h = record { at = λ cutoff n. h }

  Plain-modify : (f : Net iroh → Net iroh) → Plain (modify iroh f)
  unfolding modify
  Plain-modify f = record { at = λ cutoff n. refl }

  continue-Plain :
      {A B : Type 0} (r : Option (Result Error A)) (f : A → Async iroh B) (cutoff : ℕ)
      (n : Net iroh)
      → unknowns r ≡ 0
      → ((a : A) → Plain (f a))
      → unknowns (continue iroh r f cutoff n).0 ≡ 0
  continue-Plain none f cutoff n h hf = refl
  continue-Plain (some (err e)) f cutoff n h hf = ground arith
  continue-Plain (some (ok a)) f cutoff n h hf = (hf a).at cutoff n

  Plain-bind :
      {A B : Type 0} (m : Async iroh A) (f : A → Async iroh B)
      → Plain m
      → ((a : A) → Plain (f a))
      → Plain (◌>>=◌ iroh m f)
  unfolding ◌>>=◌
  Plain-bind m f hm hf = record {
    at = λ cutoff n. continue-Plain (m cutoff n).0 f cutoff (m cutoff n).1 (hm.at cutoff n) hf;
  }

  Plain-await :
      {A E : Type 0} (into : E → Error) (op : iroh.World → ℕ × Result E A × iroh.World)
      → ((e : E) → unknown (into e) ≡ 0)
      → Plain (await iroh into op)
  unfolding await
  Plain-await into op h = record {
    at = λ cutoff n. elim (Result-cases (op n.world).1) [
      | inl (a, e) ↦ rw e (ground arith)
      | inr (x, e) ↦ rw e (ground (arith, h x))
    ];
  }

  Plain-dial : (id : EndpointId) → Plain (dial iroh id)
  unfolding dial
  Plain-dial id = Plain-bind _ _ (Plain-modify _) λ _.
      Plain-bind _ _ (Plain-await _ _ unknown-connect_failed)
        λ c. Plain-bind _ _ (Plain-modify _) λ _. Plain-ready _ refl

  Plain-lock_slot : (id : EndpointId) → Plain (lock_slot iroh id)
  unfolding lock_slot
  Plain-lock_slot id = record { at = λ cutoff n. ground arith }

  Plain-reuse_or_dial :
      (id : EndpointId) (cached : Option iroh.Conn) → Plain (reuse_or_dial iroh id cached)
  unfolding reuse_or_dial
  Plain-reuse_or_dial id cached = record {
    at = λ cutoff n. ground (arith, (Plain-dial id).at cutoff n);
  }

  Plain-acquire : (peers : List EndpointId) (id : EndpointId) → Plain (acquire iroh peers id)
  unfolding acquire not_configured
  Plain-acquire peers id =
      Plain-bind _ _ (Plain-ready _ (ground arith))
        λ _. Plain-bind _ _ (Plain-lock_slot id) (Plain-reuse_or_dial id)

  Plain-talk : (s : iroh.Stream) (request : Request) → Plain (talk iroh s request)
  unfolding talk send_request finish_stream
  Plain-talk s request =
      Plain-bind _ _ (Plain-bind _ _ (Plain-modify _) λ _. Plain-await _ _ λ e. refl) λ _.
        Plain-bind _ _ (record { at = λ cutoff n. ground arith }) λ _. Plain-await _ _ λ e. refl

  Plain-submit : (s : iroh.Stream) (request : Request) → Plain (submit iroh s request)
  unfolding submit
  Plain-submit s request = Plain-bind _ _ (Plain-modify _) λ _. Plain-talk s request

  within_deadline-Plain :
      {A : Type 0} (deadline limit : ℕ) (m : Async iroh A) (n : Net iroh)
      → Plain m
      → unknowns (some (within_deadline iroh deadline limit m n).0) ≡ 0
  unfolding within_deadline within
  within_deadline-Plain deadline limit m n h =
      ground (arith, h.at (n.now + min limit (deadline - n.now)) n)

  pub connection-Plain :
      (peers : List EndpointId) (id : EndpointId) (deadline : ℕ) (n : Net iroh)
      → unknowns (some (connection iroh peers id deadline n).0) ≡ 0
  unfolding connection
  connection-Plain peers id deadline n =
      within_deadline-Plain deadline dial_timeout _ n (Plain-acquire peers id)

  -- The error of a failed exchange.
  abbrev pub error_of :
      Result (Failed iroh) (Response Value) → Option (Result Error (Response Value))
  error_of (ok _) = none
  error_of (err failed) = some (err failed.error)

  reply_on_plain :
      (s : iroh.Stream) (request : Request) (deadline : ℕ) (n : Net iroh)
      → unknowns (error_of (reply_on iroh s request deadline n).0) ≡ 0
  unfolding reply_on
  reply_on_plain s request deadline n = ground (
    arith,
    within_deadline-Plain deadline rpc_timeout (submit iroh s request)
        (record n { submitted = false }) (Plain-submit s request),
  )

  pub exchange-Plain :
      (c : iroh.Conn) (request : Request) (deadline : ℕ) (n : Net iroh)
      → unknowns (error_of (exchange iroh c request deadline n).0) ≡ 0
  unfolding exchange
  exchange-Plain c request deadline n =
      let opened =
        within_deadline iroh deadline io_timeout
          (await iroh connection_lost (λ w. iroh.open_bi w c)) n in
      let plain =
        within_deadline-Plain deadline io_timeout
          (await iroh connection_lost (λ w. iroh.open_bi w c)) n
          (Plain-await _ _ unknown-connection_lost) in
      elim (Result-cases opened.0) [
        | inl (s, e) ↦ rw (e, exchange) (reply_on_plain s request deadline opened.1)
        | inr (f, e) ↦ rw (e, exchange) (rw e at plain)
      ]
