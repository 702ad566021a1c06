-- ===== src/Ssher/Proxy/Ends.antt =====
-- When the proxy is over, and with what.
use sshe.Prelude.{
  leb, Bool-cases, ◌↔◌, sym, inr, inl, none, ◌⊎◌, refl, err, arith, ◌≤◌, ◌+◌, max, ok, some, Result,
  String, ℕ, ◌≡◌,
}
use sshe.Ssher.Proxy.{
  connect_timeout, connect_failed, flush_failed, stdout_copy_failed, shutdown_failed,
  stdin_copy_failed, socket_to_stdout, address_of, ◌>>=◌, proxy_tcp_stdio, stdin_to_socket, Error,
  Async, joined, connected, context, Streams, later, both_ok,
}
use sshe.Io.{IoError}

later-cases :
    {A : Type 0} (first : ℕ) (m : Async Error A) {at : ℕ} {r : Result Error A}
    → later first m ≡ some (at, r)
    → (more : ℕ) × (m ≡ some (more, r)) × (at ≡ first + more)
unfolding later
later-cases first none h = absurd (ground (arith, h))
later-cases first (some (more, r)) h = (more, ground (arith, h), ground (arith, h))

-- An error of the first operation, or the second after it.
>>=-cases :
    {A B : Type 0} (m : Async Error A) (f : A → Async Error B) {at : ℕ} {r : Result Error B}
    → (m >>= f) ≡ some (at, r)
    → ((e : Error) × (m ≡ some (at, err e)) × (r ≡ err e))
      ⊎ ((a : A) × (first : ℕ) × (more : ℕ) × (m ≡ some (first, ok a))
          × (f a ≡ some (more, r))
          × (at ≡ first + more))
>>=-cases none f h = absurd (ground (arith, h))
>>=-cases (some (first, err e)) f h = inl (e, ground (arith, h), ground (arith, h))
>>=-cases (some (first, ok a)) f h =
    let (more, then, sum) = later-cases first (f a) h in inr (a, first, more, refl, then, sum)

>>=-eq-ok :
    {A B : Type 0} (m : Async Error A) (f : A → Async Error B) {at : ℕ} {b : B}
    → (m >>= f) ≡ some (at, ok b)
    → (a : A) × (first : ℕ) × (more : ℕ) × (m ≡ some (first, ok a))
      × (f a ≡ some (more, ok b))
      × (at ≡ first + more)
>>=-eq-ok m f h = elim (>>=-cases m f h) [ inl (e, failed, same) ↦ cc | inr done ↦ done ]

joined-cases :
    (l r : Async Error Unit) {at : ℕ} {u : Result Error Unit}
    → joined l r ≡ some (at, u)
    → (a : ℕ) × (left : Result Error Unit) × (b : ℕ) × (right : Result Error Unit) × (l
        ≡ some (a, left))
      × (r ≡ some (b, right))
      × (at ≡ max a b)
      × (u ≡ both_ok left right)
unfolding joined
joined-cases none r h = absurd (ground (arith, h))
joined-cases (some (a, left)) none h = absurd (ground (arith, h))
joined-cases (some (a, left)) (some (b, right)) h =
    (a, left, b, right, refl, refl, ground (arith, h), ground (arith, h))

both_ok-eq-ok :
    (left right : Result Error Unit) → both_ok left right ≡ ok tt → (left ≡ ok tt) × (right ≡ ok tt)
unfolding both_ok
both_ok-eq-ok (err e) right h = cc
both_ok-eq-ok (ok u) right h = (refl, h)

context-eq-ok :
    {A : Type 0} (f : IoError → Error) (m : Async IoError A) {at : ℕ} {a : A}
    → context f m ≡ some (at, ok a)
    → m ≡ some (at, ok a)
unfolding context
context-eq-ok f none h = absurd (ground (arith, h))
context-eq-ok f (some (at, ok a)) h = ground (arith, h)
context-eq-ok f (some (at, err e)) h = absurd (ground (arith, h))

-- Two operations in a row that end well.
both_done :
    {A B : Type 0} (f g : IoError → Error) (m : Async IoError A) (m' : Async IoError B) {at : ℕ}
    {b : B}
    → (context f m >>= λ _. context g m') ≡ some (at, ok b)
    → (a : A) × (first : ℕ) × (more : ℕ) × (m ≡ some (first, ok a))
      × (m' ≡ some (more, ok b))
      × (at ≡ first + more)
both_done f g m m' h =
    let (a, first, more, one, two, sum) = >>=-eq-ok (context f m) _ h in
    (a, first, more, context-eq-ok f m one, context-eq-ok g m' two, sum)

connected-eq-ok :
    {A : Type 0} (address : String) (limit : ℕ) (m : Async IoError A) {at : ℕ} {a : A}
    → connected address limit m ≡ some (at, ok a)
    → (m ≡ some (at, ok a)) × (at ≤ limit)
unfolding connected
connected-eq-ok address limit none h = absurd (ground (arith, h))
connected-eq-ok address limit (some (at, ok a)) h = ground (arith, h)
connected-eq-ok address limit (some (at, err e)) h = absurd (ground (arith, h))

connected-there :
    {A : Type 0} (address : String) (limit : ℕ) (m : Async IoError A) {made : ℕ} {a : A}
    → m ≡ some (made, ok a)
    → made ≤ limit
    → connected address limit m ≡ some (made, ok a)
unfolding connected
connected-there address limit m there soon = rw (there, connected) (ground (arith, soon))

do_both :
    {A B : Type 0} (f g : IoError → Error) (m : Async IoError A) (m' : Async IoError B)
    {first more : ℕ} {a : A} {b : B}
    → m ≡ some (first, ok a)
    → m' ≡ some (more, ok b)
    → (context f m >>= λ _. context g m') ≡ some (first + more, ok b)
unfolding context later
do_both f g m m' one two = rw (one, context) (rw (two, context) refl)

-- A connection could not be made in time: the attempt failed within the limit, or was not over at
-- it, and the time and the error tell which.
abbrev pub IsUnconnected :
    {A : Type 0} → String → ℕ → Async IoError A → ℕ → Result Error Unit → Type 0
IsUnconnected {A} address limit m at r =
    ((e : IoError) × (m ≡ some (at, err e)) × (at ≤ limit) × (r ≡ err (connect_failed address e)))
    ⊎ ((at ≡ limit)
        × (r ≡ err (connect_timeout address))
        × ((m ≡ none)
            ⊎ ((late : ℕ) × (result : Result IoError A) × (m ≡ some (late, result))
                × (limit + 1 ≤ late))))

connected-eq-err :
    {A : Type 0} (address : String) (limit : ℕ) (m : Async IoError A) {at : ℕ} {e : Error}
    {r : Result Error Unit}
    → connected address limit m ≡ some (at, err e)
    → r ≡ err e
    → IsUnconnected address limit m at r
unfolding connected
connected-eq-err address limit none h same =
    inr (ground (arith, h), ground (arith, h, same), inl refl)
connected-eq-err address limit (some (late, ok a)) h same = elim (Bool-cases (leb late limit)) [
  | inl soon ↦ absurd (ground (arith, h, soon))
  | inr over ↦ inr (
    ground (arith, h, over),
    ground (arith, h, over, same),
    inr (late, ok a, refl, ground (arith, over)),
  )
]
connected-eq-err address limit (some (late, err e)) h same = elim (Bool-cases (leb late limit)) [
  | inl soon ↦
      inl (e, ground (arith, h, soon), ground (arith, h, soon), ground (arith, h, soon, same))
  | inr over ↦ inr (
    ground (arith, h, over),
    ground (arith, h, over, same),
    inr (late, err e, refl, ground (arith, over)),
  )
]

module _ {World : Type 0} (streams : Streams World) where
  open streams use {Socket, connect, copy_stdin, shutdown, copy_stdout, flush}

  module _ (endpoint : String) (port timeout_ms : ℕ) (w : World) where
    -- What was typed has reached the peer, which has been told that no more comes, and all that the
    -- peer sent is out: the socket, the bytes of each direction, and the times.
    abbrev pub Carried : ℕ → Type 0
    Carried at =
        (socket : Socket) × (sent : ℕ) × (got : ℕ) × (made : ℕ) × (up : ℕ) × (shut : ℕ) × (down : ℕ)
        × (out : ℕ) × (connect w (address_of streams endpoint port) ≡ some (made, ok socket))
        × (made ≤ timeout_ms)
        × (copy_stdin w socket ≡ some (up, ok sent))
        × (shutdown w socket ≡ some (shut, ok tt))
        × (copy_stdout w socket ≡ some (down, ok got))
        × (flush w socket ≡ some (out, ok tt))
        × (at ≡ made + max (up + shut) (down + out))

    -- If the proxy is over, then connecting failed within the limit, or was not over at the limit and
    -- was given up then; or a connection was there in time and both directions are over, however
    -- long they took: a direction that fails does not cut the other one off.
    pub proxy_tcp_stdio-cases :
        {at : ℕ} {r : Result Error Unit}
        → proxy_tcp_stdio streams endpoint port timeout_ms w ≡ some (at, r)
        → IsUnconnected
            (address_of streams endpoint port)
            timeout_ms
            (connect w (address_of streams endpoint port))
            at
            r
          ⊎ ((socket : Socket) × (made : ℕ) × (a : ℕ) × (left : Result Error Unit) × (b : ℕ)
              × (right : Result Error Unit) × (connect w (address_of streams endpoint port)
                  ≡ some (made, ok socket))
              × (made ≤ timeout_ms)
              × (stdin_to_socket streams w socket ≡ some (a, left))
              × (socket_to_stdout streams w socket ≡ some (b, right))
              × (r ≡ both_ok left right)
              × (at ≡ made + max a b))
    unfolding proxy_tcp_stdio
    proxy_tcp_stdio-cases h = elim (>>=-cases (connected _ timeout_ms _) _ h) [
      | inl (e, failed, same) ↦ inl (connected-eq-err _ timeout_ms _ failed same)
      | inr (socket, made, more, there, both, sum) ↦
          let (a, left, b, right, one, two, last, same) = joined-cases _ _ both in
          let (found, soon) = connected-eq-ok _ timeout_ms _ there in
          inr
            (socket, made, a, left, b, right, found, soon, one, two, same, omega (arith, sum, last))
    ]

    proxied-Carried :
        {at : ℕ}
        → proxy_tcp_stdio streams endpoint port timeout_ms w ≡ some (at, ok tt)
        → Carried at
    unfolding proxy_tcp_stdio stdin_to_socket socket_to_stdout
    proxied-Carried h =
        let (socket, made, more, there, both, sum) = >>=-eq-ok (connected _ timeout_ms _) _ h in
        let (a, left, b, right, one, two, last, same) = joined-cases _ _ both in
        let (left_ok, right_ok) = both_ok-eq-ok left right (sym same) in
        let (sent, up, shut, i, s, up_sum) =
          both_done stdin_copy_failed shutdown_failed _ _ (rw left_ok at one) in
        let (got, down, out, o, f, down_sum) =
          both_done stdout_copy_failed flush_failed _ _ (rw right_ok at two) in
        let (found, soon) = connected-eq-ok _ timeout_ms _ there in
        (
          socket,
          sent,
          got,
          made,
          up,
          shut,
          down,
          out,
          found,
          soon,
          i,
          s,
          o,
          f,
          omega (arith, sum, last, up_sum, down_sum),
        )

    Carried-proxied :
        {at : ℕ}
        → Carried at
        → proxy_tcp_stdio streams endpoint port timeout_ms w ≡ some (at, ok tt)
    unfolding proxy_tcp_stdio stdin_to_socket socket_to_stdout joined later both_ok
    Carried-proxied (socket, sent, got, made, up, shut, down, out, c, soon, i, s, o, f, sum) =
        rw (connected-there _ timeout_ms _ c soon) (
          rw (do_both stdin_copy_failed shutdown_failed _ _ i s)
            (rw (do_both stdout_copy_failed flush_failed _ _ o f, sum) refl))

    pub proxied_iff :
        {at : ℕ}
        → (proxy_tcp_stdio streams endpoint port timeout_ms w ≡ some (at, ok tt)) ↔ Carried at
    proxied_iff = (proxied-Carried, Carried-proxied)
