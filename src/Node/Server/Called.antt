-- ===== src/Node/Server/Called.antt =====
-- A call from end to end: the exchange of crates/sshe-node/src/transport.rs on one end of a stream of
-- frames and `serve_stream` of server.rs on the other.
mod Tests
use sshe.Prelude.{
  ◌∷◌, Bool, subst, ◌==◌, ◌-◌, min, none, is_some, ◌<◌, str_eq, any, Option, refl, sym, ◌∙◌, ap,
  ◌++◌, arith, some, ◌≤◌, true, ◌+◌, ◌+◌, true, [], false, map_ok, err, ok, Result, ℕ, List, ◌≡◌,
}
use sshe.Node.Transport.{
  call, call_until, first_reply, finally, exchange, Failed, mark_submitted, send_request, submit,
  reply_on, EndpointId, connection, acquire, reuse_or_dial, lock_slot, dial, set_slot, note,
  within_deadline, within, ready, modify, submitted, ◌>>=◌, await, Net, finish_stream, Iroh, talk,
}
use sshe.Node.Dispatch.{Node, Parts}
use sshe.Protocol.Codec.{Reader, read_frame, write_frame, Writer, Json}
use sshe.Protocol.Message.{Response, Request}
use sshe.Io.{IoError}
use sshe.Node.Server.Wire.{serve_stream-answers, framed, IsLink, served}
use sshe.Node.Server.{serve_stream}
use mathlib.Core.List.{append-nil}
use sshe.Node.Error.{connection_lost, Error}
use sshe.Node.Transport.Timeouts.{call_timeout, dial_timeout, io_timeout, rpc_timeout}

-- An answer that is there by the cut-off.
await-ok :
    {Value A E : Type 0} (iroh : Iroh Value) (into : E → Error)
    (op : iroh.World → ℕ × Result E A × iroh.World) (cutoff : ℕ) (n : Net iroh) (d : ℕ) (a : A)
    (w : iroh.World)
    → op n.world ≡ (d, ok a, w)
    → n.now + d ≤ cutoff
    → await iroh into op cutoff n ≡ (some (ok a), record n { now = n.now + d; world = w })
unfolding await
await-ok iroh into op cutoff n d a w answers soon = rw (answers, await) (ground (arith, soon))

module _ {Value W : Type 0} (parts : Parts Value) (requests : Json Request)
    (responses : Json (Response Value)) (out : Writer W) (at_end : IoError)
    -- the bytes that have arrived at the server, and the writer of its answer
    (inbox : parts.World → List ℕ) (outbox : parts.World → W) (put : W → parts.World → parts.World)
    -- the bytes of a writer, a new one, and the arrival of bytes at the server
    (view : W → List ℕ) (empty : W) (deliver : List ℕ → parts.World → parts.World)
    -- how long the caller waits: for the lock of the peer, for a connection if there is none, for a
    -- stream, for the write of the request and for the answer; and the server: for the request, and
    -- for the write of its answer
    (locking dialing opening sending answering reading writing : ℕ)
    -- whether the caller's end and the server's are still open when they are finished, and what an
    -- answer leaves that the server fails to write
    (caller_open is_open : parts.World → Bool) (given_up : parts.World → parts.World) (node : Node)
    (permits : ℕ) where
  -- The request arrives in one piece; without one the server is not asked.
  abbrev sent :
      parts.World
      → Result sshe.Protocol.Codec.Error W
      → ℕ × Result sshe.Protocol.Codec.Error Unit × parts.World
  sent w (err e) = (sending, err e, w)
  sent w (ok w₁) = (sending, ok tt, deliver (view w₁) w)

  -- What the caller reads once the server is done.
  abbrev answered :
      Result Error Unit × parts.World
      → ℕ × Result sshe.Protocol.Codec.Error (Response Value) × parts.World
  answered (r, w) = (
    answering,
    map_ok (λ p. p.0) (read_frame responses (record { bytes = view (outbox w); at_end = at_end })),
    w,
  )

  -- A connection to the server that lasts, on which each request has a stream of its own.
  abbrev pub linked : Iroh Value
  linked = record {
    World = parts.World;
    Conn = Unit;
    Stream = Unit;
    lock = λ w slots id. (locking, slots, w);
    connect = λ w id. (dialing, ok tt, w);
    is_closed = λ w c. false;
    open_bi = λ w c. (opening, ok tt, w);
    write_frame = λ w s request. sent w (write_frame out requests empty request);
    finish = λ w s. caller_open w;
    read_frame = λ w s. answered (
        serve_stream parts
          (framed parts requests responses out inbox at_end outbox put reading writing is_open
            given_up)
          node permits w);
  }

  -- What the server does with this request, from what the caller has written.
  abbrev pub dispatched : W → Request → parts.World → Response Value × parts.World
  dispatched w₁ request w = served parts node permits request (deliver (view w₁) w)

  answered-ok :
      (w : parts.World) (reply : Response Value) {rest : Reader}
      → read_frame responses (record { bytes = view (outbox w); at_end = at_end })
        ≡ ok (reply, rest)
      → answered (ok tt, w) ≡ (answering, ok reply, w)
  answered-ok w reply h = ap (λ r. (answering, map_ok (λ p. p.0) r, w)) h

  -- The caller can write this request to a new stream and it arrives; and the server can write its
  -- answer, as the first thing on its side of the stream. Both ends stay open until then.
  pub record IsAnswered (request : Request) (w : parts.World) (w₁ o : W) : Type 0 where
    pub new : view empty ≡ []
    pub wrote : write_frame out requests empty request ≡ ok w₁
    pub arrived : inbox (deliver (view w₁) w) ≡ view w₁
    pub fresh : view (outbox (dispatched w₁ request w).1) ≡ []
    pub replied :
        write_frame out responses (outbox (dispatched w₁ request w).1) (dispatched w₁ request w).0
        ≡ ok o
    pub kept : outbox (put o (dispatched w₁ request w).1) ≡ o
    pub caller_opened : caller_open (deliver (view w₁) w) ≡ true
    pub server_opened : is_open (put o (dispatched w₁ request w).1) ≡ true

  -- Each wait ends within the limit that the source sets for it.
  pub record IsTimely : Type 0 where
    pub connected : locking + dialing ≤ dial_timeout
    pub opened : opening ≤ io_timeout
    pub replied : sending + answering ≤ rpc_timeout
    pub read : reading ≤ io_timeout
    pub written : writing ≤ io_timeout

  talk-served :
      IsLink parts requests responses out inbox at_end outbox put view
      → IsTimely
      → (request : Request) (n : Net linked) (cutoff : ℕ) (w₁ o : W)
      → IsAnswered request n.world w₁ o
      → n.now + sending + answering ≤ cutoff
      → talk linked tt request cutoff n ≡ (
        some (ok (dispatched w₁ request n.world).0),
        record n {
          now = n.now + sending + answering;
          world = put o (dispatched w₁ request n.world).1;
          trace = n.trace ++ submitted n.now request ∷ [];
        },
      )
  unfolding talk send_request finish_stream modify note ◌>>=◌
  talk-served link timely request n cutoff w₁ o h soon =
      let (serves, (frame, seen, reads)) =
        serve_stream-answers parts responses out inbox at_end outbox put view reading writing
          is_open given_up requests link node permits request (deliver (view w₁) n.world) o
          (empty, w₁, h.new, h.wrote, h.arrived) h.replied timely.read timely.written
          h.server_opened in
      let w = dispatched w₁ request n.world in
      let n₀ : Net linked = note linked (λ t. submitted t request) n in
      let n₁ : Net linked = record n₀ {
        now = n.now + sending;
        world = deliver (view w₁) n.world;
      } in
      let bytes : view (outbox (put o w.1)) ≡ frame ++ [] =
        ap view h.kept ∙ seen ∙ ap (λ v. v ++ frame) h.fresh ∙ sym (append-nil frame) in
      let first =
        await-ok linked Error.protocol (λ w. linked.write_frame w tt request) cutoff n₀ sending tt
          (deliver (view w₁) n.world) (ap (sent n.world) h.wrote) (omega (arith, soon)) in
      let second =
        await-ok linked Error.protocol (λ w. linked.read_frame w tt) cutoff n₁ answering w.0
          (put o w.1)
          (ap answered serves
            ∙ answered-ok (put o w.1) w.0 (
                ap (λ b. read_frame responses (record { bytes = b; at_end = at_end })) bytes
                ∙ reads [] at_end))
          soon in
      rw (first, talk) (rw (h.caller_opened) (rw second refl))

  -- The connection that a call asks for: it is there in time, cached or new.
  connection-linked :
      (peers : List EndpointId) (id : EndpointId) (deadline : ℕ) (n : Net linked)
      (cached : Option Unit)
      → n.slots id ≡ cached
      → any (str_eq id) peers ≡ true
      → locking + dialing ≤ dial_timeout
      → n.now + dial_timeout ≤ deadline
      → ((connection linked peers id deadline n).0 ≡ ok (tt, is_some cached))
        × ((connection linked peers id deadline n).1.now ≤ n.now + dial_timeout)
        × ((connection linked peers id deadline n).1.world ≡ n.world)
  unfolding connection acquire reuse_or_dial lock_slot dial set_slot note within_deadline within
      await ready modify ◌>>=◌
  connection-linked peers id deadline n none unset listed soon left =
      ground (arith, unset, listed, soon, left)
  connection-linked peers id deadline n (some c) set listed soon left =
      ground (arith, set, listed, soon, left)

  -- The end of a call: the server's answer, and the world that the server has left.
  abbrev pub Answered :
      {E : Type 0} → Request → parts.World → W → W → Result E (Response Value) × Net linked → Type 0
  Answered request w w₁ o r =
      (r.0 ≡ ok (dispatched w₁ request w).0) × (r.1.world ≡ put o (dispatched w₁ request w).1)

  reply_on-Answered :
      IsLink parts requests responses out inbox at_end outbox put view
      → IsTimely
      → (request : Request) (n : Net linked) (deadline : ℕ) (w₁ o : W)
      → IsAnswered request n.world w₁ o
      → n.now + rpc_timeout ≤ deadline
      → Answered request n.world w₁ o (reply_on linked tt request deadline n)
  unfolding reply_on submit within_deadline within modify ◌>>=◌ mark_submitted note
  reply_on-Answered link timely request n deadline w₁ o h soon =
      let marked = mark_submitted linked (record n { submitted = false }) in
      let cutoff = n.now + min rpc_timeout (deadline - n.now) in
      let talked =
        talk-served link timely request marked cutoff w₁ o h
          (ground (arith, soon, timely.replied)) in
      let waits : (deadline - n.now == 0) ≡ false = ground (arith, soon) in
      rw (waits, reply_on) (rw talked (refl, refl))

  opens :
      (deadline : ℕ) (n : Net linked)
      → opening ≤ io_timeout
      → n.now + io_timeout ≤ deadline
      → within_deadline linked deadline io_timeout
          (await linked connection_lost (λ w. linked.open_bi w tt))
          n
        ≡ (ok tt, record n { now = n.now + opening })
  unfolding within_deadline within
  opens deadline n soon left =
      let waits : (deadline - n.now == 0) ≡ false = ground (arith, left) in
      rw (waits, within_deadline)
        (rw
          (await-ok linked connection_lost (λ w. linked.open_bi w tt)
            (n.now + min io_timeout (deadline - n.now)) n opening tt n.world refl
            (omega (arith, soon, left)))
          refl)

  -- what `exchange` does once it has waited for a stream
  abbrev after_open :
      Request
      → ℕ
      → Result Error Unit × Net linked
      → Result (Failed linked) (Response Value) × Net linked
  after_open request deadline p = elim p.0 [
    | err e ↦ (err (record { submitted = false; error = e }), p.1)
    | ok s ↦ reply_on linked s request deadline p.1
  ]

  exchange-Answered :
      IsLink parts requests responses out inbox at_end outbox put view
      → IsTimely
      → (request : Request) (n : Net linked) (deadline : ℕ) (w₁ o : W)
      → IsAnswered request n.world w₁ o
      → n.now + io_timeout + rpc_timeout ≤ deadline
      → Answered request n.world w₁ o (exchange linked tt request deadline n)
  unfolding exchange
  exchange-Answered link timely request n deadline w₁ o h soon =
      subst (λ p. Answered request n.world w₁ o (after_open request deadline p))
        (sym (opens deadline n timely.opened (omega (arith, soon))))
        (reply_on-Answered link timely request (record n { now = n.now + opening }) deadline w₁ o h
          (omega (arith, soon, timely.opened)))

  abbrev after_exchange :
      List EndpointId
      → EndpointId
      → Request
      → ℕ
      → Bool
      → Result (Failed linked) (Response Value) × Net linked
      → Result Error (Response Value) × Net linked
  after_exchange peers id request deadline reused p =
      first_reply linked peers id request deadline tt reused p.0 p.1

  -- what `call_until` does once it has a connection
  abbrev after_connection :
      List EndpointId
      → EndpointId
      → Request
      → ℕ
      → Result Error (Unit × Bool) × Net linked
      → Result Error (Response Value) × Net linked
  after_connection peers id request deadline p = elim p.0 [
    | err e ↦ (err e, p.1)
    | ok (c, reused) ↦
        after_exchange peers id request deadline reused (exchange linked c request deadline p.1)
  ]

  -- A call to a configured peer, from end to end: if a lasting connection to the peer's server is
  -- cached or can be made, the request and its answer can be written as frames (`IsAnswered`), and
  -- each wait, of the caller and of the server, ends within its own limit (`IsTimely`), then the
  -- call returns the response of `dispatch` as it is, or that the server is busy if no permit is
  -- left; and the world is that of one dispatch, or of none, and of the written answer. (Writers
  -- append, and JSON texts parse to what they are of: `IsLink`.)
  pub call-Answered :
      IsLink parts requests responses out inbox at_end outbox put view
      → IsTimely
      → (peers : List EndpointId) (id : EndpointId) (request : Request) (n : Net linked) (w₁ o : W)
      → IsAnswered request n.world w₁ o
      → any (str_eq id) peers ≡ true
      → Answered request n.world w₁ o (call linked peers id request n)
  unfolding call call_until first_reply finally
  call-Answered link timely peers id request n w₁ o h listed =
      let deadline = n.now + call_timeout in
      let (there, now, world) =
        connection-linked peers id deadline n (n.slots id) refl listed timely.connected
          (omega arith) in
      let n' = (connection linked peers id deadline n).1 in
      let exchanged = exchange linked tt request deadline n' in
      let done =
        exchange-Answered link timely request n' deadline w₁ o
          (subst (λ w. IsAnswered request w w₁ o) (sym world) h) (omega (arith, now)) in
      let done' = subst (λ w. Answered request w w₁ o exchanged) world done in
      subst
        (λ r. Answered request n.world w₁ o (after_connection peers id request deadline (r, n')))
        (sym there)
        (subst
          (λ r.
            Answered request n.world w₁ o
              (after_exchange peers id request deadline (is_some (n.slots id)) (r, exchanged.1)))
          (sym done'.0) (refl, done'.1))
