-- ===== src/Node/Server/Wire.antt =====
-- A message over a stream of frames: the handlers of crates/sshe-node/src/server.rs on one end, the
-- framing of crates/sshe-protocol/src/codec.rs, and the caller (transport.rs, client.rs) on the other.
use sshe.Prelude.{
  arith, Bool, leb, ◌≤◌, inr, inl, if◌then◌else◌, ◌==◌, Bool-cases, refl, sym, ap, ◌∙◌, ◌++◌, err,
  ok, true, [], some, Result, ℕ, List, ◌≡◌,
}
use sshe.Node.Server.{local_result, serve_local, busy, finished, peer_reply, Stream, serve_stream}
use sshe.Node.Dispatch.{response, dispatch, Node, Parts}
use sshe.Protocol.Codec.{write_frame, read_frame, Reader, Writer, Json}
use sshe.Protocol.Message.{Response, Request}
use sshe.Io.{IoError}
use sshe.Protocol.Codec.RoundTrip.{read_frame-write_frame, IsAppending}
use sshe.Node.Error.{transport_other, Error}
use mathlib.Core.List.{append-nil}
use sshe.Node.Client.{LocalRequest}
use sshe.Node.Transport.Timeouts.{io_timeout}

module _ {Value : Type 0} (parts : Parts Value) where
  -- What a request leads to: the response of `dispatch`, or that the server is busy.
  abbrev pub served : Node → ℕ → Request → parts.World → Response Value × parts.World
  served node permits request w =
      let (r, w') = dispatch parts node request w in
      if permits == 0 then (Response.error busy, w) else (response parts r, w')

  peer_reply-served :
      (node : Node) (permits : ℕ) (request : Request) (w : parts.World)
      → peer_reply parts node permits request w ≡ served node permits request w
  unfolding peer_reply
  peer_reply-served node permits request w = elim (Bool-cases (permits == 0)) [
    | inl gone ↦ rw (gone, peer_reply) refl
    | inr left ↦ rw (left, peer_reply) refl
  ]

module _ {Value W M : Type 0} (parts : Parts Value) (messages : Json M)
    (responses : Json (Response Value)) (out : Writer W)
    -- what has arrived, the error that a read past it meets, and the writer of the answer
    (inbox : parts.World → List ℕ) (at_end : IoError) (outbox : parts.World → W)
    (put : W → parts.World → parts.World) where
  -- `within(IO_TIMEOUT, read_frame(..))`, which takes so long; a frame that is there at the limit
  -- counts
  abbrev framed_read : ℕ → Result sshe.Protocol.Codec.Error (M × Reader) → Result Error M
  framed_read reading (err e) =
      if leb reading io_timeout then err (Error.protocol e) else err Error.timeout
  framed_read reading (ok (message, rest)) =
      if leb reading io_timeout then ok message else err Error.timeout

  -- `within(IO_TIMEOUT, write_frame(..))`, with what a write leaves that fails or is given up
  abbrev framed_write :
      ℕ
      → (parts.World → parts.World)
      → Result sshe.Protocol.Codec.Error W
      → parts.World
      → Result Error Unit × parts.World
  framed_write writing given_up (err e) w =
      ((if leb writing io_timeout then err (Error.protocol e) else err Error.timeout), given_up w)
  framed_write writing given_up (ok o) w =
      if leb writing io_timeout then (ok tt, put o w) else (err Error.timeout, given_up w)

  -- the stream of a message in frames: how long its read and its write take, whether it is still
  -- open when it is finished, and what a write that is not done leaves
  abbrev pub framed : ℕ → ℕ → (parts.World → Bool) → (parts.World → parts.World) → Stream parts M
  framed reading writing is_open given_up = record {
    read = λ w. (
      framed_read reading (read_frame messages (record { bytes = inbox w; at_end = at_end })),
      w,
    );
    write = λ w reply. framed_write writing given_up (write_frame out responses (outbox w) reply) w;
    finish = is_open;
  }

  framed_read-ok :
      (reading : ℕ) (r : Result sshe.Protocol.Codec.Error (M × Reader)) {message : M}
      {rest : Reader}
      → reading ≤ io_timeout
      → r ≡ ok (message, rest)
      → framed_read reading r ≡ ok message
  framed_read-ok reading r soon read = rw (read, framed_read) (ground (arith, soon))

  framed_write-ok :
      (writing : ℕ) (given_up : parts.World → parts.World) (r : Result sshe.Protocol.Codec.Error W)
      (w : parts.World) {o : W}
      → writing ≤ io_timeout
      → r ≡ ok o
      → framed_write writing given_up r w ≡ (ok tt, put o w)
  framed_write-ok writing given_up r w soon wrote = rw (wrote, framed_write) (ground (arith, soon))

  -- What is relied on: a writer appends what it is given, and JSON texts parse to their values.
  pub record IsLink (view : W → List ℕ) : Type 0 where
    pub appends : IsAppending out view
    pub parses :
        (m : M) (bytes : List ℕ)
        → messages.to_vec m ≡ some bytes
        → messages.from_slice bytes ≡ some m
    pub parses_reply :
        (reply : Response Value) (bytes : List ℕ)
        → responses.to_vec reply ≡ some bytes
        → responses.from_slice bytes ≡ some reply

  -- A caller has written this message to a new stream, and it has arrived.
  abbrev pub Arrived : (W → List ℕ) → M → parts.World → Type 0
  Arrived view message w =
      (w₀ : W) × (w₁ : W) × (view w₀ ≡ [])
      × (write_frame out messages w₀ message ≡ ok w₁)
      × (inbox w ≡ view w₁)

  -- What was written from one state of the writer to the other is read as this reply, and what
  -- follows it is left.
  abbrev pub ReadsBack : (W → List ℕ) → W → W → Response Value → Type 0
  ReadsBack view before after reply =
      (frame : List ℕ) × (view after ≡ view before ++ frame)
      × ((rest : List ℕ) (e : IoError)
          → read_frame responses (record { bytes = frame ++ rest; at_end = e })
            ≡ ok (reply, record { bytes = rest; at_end = e }))

  module _ (view : W → List ℕ) (link : IsLink view) where
    read-Arrived :
        (reading : ℕ) (message : M) (w : parts.World)
        → reading ≤ io_timeout
        → Arrived view message w
        → framed_read reading (read_frame messages (record { bytes = inbox w; at_end = at_end }))
          ≡ ok message
    read-Arrived reading message w soon (w₀, w₁, fresh, sent, arrived) =
        let (frame, seen, short, reads) =
          read_frame-write_frame out view messages w₀ w₁ message link.appends (link.parses message)
            sent in
        let all : inbox w ≡ frame ++ [] =
          arrived ∙ seen ∙ ap (λ v. v ++ frame) fresh ∙ sym (append-nil frame) in
        framed_read-ok reading _ soon (
          ap (λ b. read_frame messages (record { bytes = b; at_end = at_end })) all
          ∙ reads [] at_end)

    written-ReadsBack :
        (before after : W) (reply : Response Value)
        → write_frame out responses before reply ≡ ok after
        → ReadsBack view before after reply
    written-ReadsBack before after reply written =
        let (frame, seen, short, reads) =
          read_frame-write_frame out view responses before after reply link.appends
            (link.parses_reply reply) written in
        (frame, seen, reads)

module _ {Value W : Type 0} (parts : Parts Value) (responses : Json (Response Value))
    (out : Writer W) (inbox : parts.World → List ℕ) (at_end : IoError) (outbox : parts.World → W)
    (put : W → parts.World → parts.World) (view : W → List ℕ)
    -- of the server's end of the stream, as in `framed`
    (reading writing : ℕ) (is_open : parts.World → Bool)
    (given_up : parts.World → parts.World) where
  -- A peer writes a request to a new stream, and its frame is there within the I/O limit. The server carries out this request once if it has a
  -- permit left, and answers that it is busy if not; and if it can write its answer within the I/O
  -- limit, then the peer reads it back as it is, with whatever follows it left; if writers append what they are given
  -- and the JSON texts of messages parse to them (`IsLink`).
  pub serve_stream-answers :
      (requests : Json Request)
      → IsLink parts requests responses out inbox at_end outbox put view
      → (node : Node) (permits : ℕ) (request : Request) (w : parts.World) (o : W)
      → Arrived parts requests responses out inbox at_end outbox put view request w
      → write_frame out responses
          (outbox (served parts node permits request w).1)
          (served parts node permits request w).0
        ≡ ok o
      → reading ≤ io_timeout
      → writing ≤ io_timeout
      → is_open (put o (served parts node permits request w).1) ≡ true
      → (serve_stream parts
            (framed parts requests responses out inbox at_end outbox put reading writing is_open
              given_up)
            node
            permits
            w
          ≡ (ok tt, put o (served parts node permits request w).1))
        × ReadsBack parts requests responses out inbox at_end outbox put view
            (outbox (served parts node permits request w).1)
            o
            (served parts node permits request w).0
  unfolding serve_stream finished
  serve_stream-answers requests link node permits request w o arrived answered soon sent
        open_still =
      (
        rw
            (
              read-Arrived parts requests responses out inbox at_end outbox put view link reading
                  request w soon arrived,
              serve_stream,
            )
            (rw (peer_reply-served parts node permits request w) (
              rw
                (framed_write-ok parts requests responses out inbox at_end outbox put writing
                  given_up _ (served parts node permits request w).1 sent answered)
                (ap
                  (λ b. (
                    (if b then ok tt else err transport_other),
                    put o (served parts node permits request w).1,
                  ))
                  open_still))),
        written-ReadsBack parts requests responses out inbox at_end outbox put view link _ o _
            answered,
      )

  -- The response to the command line of this machine.
  abbrev served_local : Node → ℕ → LocalRequest → parts.World → Response Value × parts.World
  served_local node permits message w =
      let (r, w') = local_result parts node permits message w in (response parts r, w')

  -- The same for a message on the daemon's socket: what it is answered there is the response to
  -- the result of `local_result` for this message.
  serve_local-answers :
      (messages : Json LocalRequest)
      → IsLink parts messages responses out inbox at_end outbox put view
      → (node : Node) (permits : ℕ) (message : LocalRequest) (w : parts.World) (o : W)
      → Arrived parts messages responses out inbox at_end outbox put view message w
      → write_frame out responses
          (outbox (served_local node permits message w).1)
          (served_local node permits message w).0
        ≡ ok o
      → reading ≤ io_timeout
      → writing ≤ io_timeout
      → (serve_local parts
            (framed parts messages responses out inbox at_end outbox put reading writing is_open
              given_up)
            node
            permits
            w
          ≡ (ok tt, put o (served_local node permits message w).1))
        × ReadsBack parts messages responses out inbox at_end outbox put view
            (outbox (served_local node permits message w).1)
            o
            (served_local node permits message w).0
  unfolding serve_local
  serve_local-answers messages link node permits message w o arrived answered soon sent = (
    rw
        (
          read-Arrived parts messages responses out inbox at_end outbox put view link reading
              message w soon arrived,
          serve_local,
        )
        (framed_write-ok parts messages responses out inbox at_end outbox put writing given_up _
          (served_local node permits message w).1 sent answered),
    written-ReadsBack parts messages responses out inbox at_end outbox put view link _ o _ answered,
  )
