-- ===== src/Protocol/Codec/RoundTrip.antt =====
-- What the framing promises: a written frame reads back, an oversized one is refused before its
-- payload, and a frame that breaks off is an I/O error.
use sshe.Prelude.{
  refl, length-take, zero, suc, take, map_err-eq-ok, lt→ltb, map_err, >>=-eq-ok, err, ltb,
  Bool-cases, inr, inl, ltb-false, Option-cases, ◌≤◌, drop-length-append, some, take-length-append,
  length-append, length, ℕ, ◌+◌, ◌*◌, ◌/◌, ◌%◌, ◌^◌, ◌<◌, ◌≡◌, List, ◌++◌, ok, arith,
}
use mathlib.Core.List.{append_assoc}
use mathlib.Core.Path.{ap, ◌≡⟨◌⟩◌, ◌∎}
use native.Mathlib.Nat.{mod-eq_of_lt}
use sshe.Io.{IoError}
use sshe.Protocol.Codec.{
  frame_too_large, io, send, max_frame, read_frame, write_frame, Json, read_exact, Writer, to_be,
  read_u32,
}

-- What a writer has been given so far. `appends` is the documented effect of `write_all`, and
-- `flush` adds nothing.
pub record IsAppending {W : Type 0} (out : Writer W) (view : W → List ℕ) : Type 0 where
  pub appends :
      (w w' : W) (bytes : List ℕ) → out.write_all w bytes ≡ ok w' → view w' ≡ view w ++ bytes
  pub flushes : (w w' : W) → out.flush w ≡ ok w' → view w' ≡ view w

-- The four bytes of a number below 2^32 are read as that number.
read_u32-to_be :
    (n : ℕ) (rest : List ℕ) (e : IoError)
    → n < 2 ^ 32
    → read_u32 (record { bytes = to_be n ++ rest; at_end = e })
      ≡ ok (n, record { bytes = rest; at_end = e })
unfolding read_u32 to_be
read_u32-to_be n rest e h = ground (arith, whole)
  where
    whole :
        ((n / 2 ^ 24 % 256 * 256 + n / 2 ^ 16 % 256) * 256 + n / 2 ^ 8 % 256) * 256 + n % 256 ≡ n
    whole = omega arith

abbrev pub frame_of : List ℕ → List ℕ
frame_of bytes = to_be (length bytes) ++ bytes

read_exact-append :
    (bytes rest : List ℕ) (e : IoError)
    → read_exact (length bytes) (record { bytes = bytes ++ rest; at_end = e })
      ≡ ok (bytes, record { bytes = rest; at_end = e })
unfolding read_exact
read_exact-append bytes rest e =
    ground (
      arith,
      length-append bytes rest,
      take-length-append bytes rest,
      drop-length-append bytes rest,
    )

-- A frame with a payload within the limit reads as the payload's value.
read_frame-frame_of :
    {T : Type 0} (j : Json T) (bytes rest : List ℕ) (e : IoError) (v : T)
    → length bytes ≤ max_frame
    → j.from_slice bytes ≡ some v
    → read_frame j (record { bytes = frame_of bytes ++ rest; at_end = e })
      ≡ ok (v, record { bytes = rest; at_end = e })
unfolding read_frame
read_frame-frame_of j bytes rest e v h d = rw (
  append_assoc,
  read_u32-to_be (length bytes) (bytes ++ rest) e (omega arith),
  ltb-false max_frame (length bytes) h,
  read_exact-append bytes rest e,
  d,
)

module _ {W : Type 0} (out : Writer W) (view : W → List ℕ) where
  view-send :
      IsAppending out view
      → (w w' : W) (bytes : List ℕ) → length bytes ≤ max_frame
      → send out w bytes ≡ ok w'
      → view w' ≡ view w ++ frame_of bytes
  unfolding send
  view-send a w w' bytes fits h =
      let (w₁, h₁, e₁) =
        >>=-eq-ok _ (map_err io (out.write_all w (to_be (length bytes % 2 ^ 32)))) h in
      let (w₂, h₂, e₂) = >>=-eq-ok _ (map_err io (out.write_all w₁ bytes)) h₁ in
      view w'
      ≡⟨ a.flushes w₂ w' (map_err-eq-ok io _ h₂) ⟩ view w₂
      ≡⟨ a.appends w₁ w₂ bytes (map_err-eq-ok io _ e₂) ⟩ view w₁ ++ bytes
      ≡⟨ ap (λ s. s ++ bytes) (a.appends w w₁ _ (map_err-eq-ok io _ e₁)) ⟩
        (view w ++ to_be (length bytes % 2 ^ 32)) ++ bytes
      ≡⟨ append_assoc (view w) (to_be (length bytes % 2 ^ 32)) bytes ⟩
        view w ++ (to_be (length bytes % 2 ^ 32) ++ bytes)
      ≡⟨ ap (λ n. view w ++ (to_be n ++ bytes)) (mod-eq_of_lt (omega arith)) ⟩
        view w ++ frame_of bytes ∎

  -- A successful `write_frame` adds the length and the text to what the writer was given.
  view-write_frame :
      {T : Type 0} (j : Json T)
      → IsAppending out view
      → (w w' : W) (v : T) → write_frame out j w v ≡ ok w'
      → (bytes : List ℕ) × (j.to_vec v ≡ some bytes)
        × (length bytes ≤ max_frame)
        × (view w' ≡ view w ++ frame_of bytes)
  unfolding write_frame
  view-write_frame j a w w' v h = elim (Option-cases (j.to_vec v)) [
    | inl e ↦ absurd (ground arith)
    | inr (bytes, e) ↦ elim (Bool-cases (ltb max_frame (length bytes))) [
      | inl big ↦ absurd (ground arith)
      | inr fits ↦
          (bytes, e, ground arith, view-send a w w' bytes (ground arith) (rw (e, fits) at h))
    ]
  ]

  -- A value that was written to the end is read back, whatever follows it on the stream, if its
  -- JSON text parses to it; the frame is at most 4 bytes longer than the limit.
  pub read_frame-write_frame :
      {T : Type 0} (j : Json T) (w w' : W) (v : T)
      → IsAppending out view
      → ((bytes : List ℕ) → j.to_vec v ≡ some bytes → j.from_slice bytes ≡ some v)
      → write_frame out j w v ≡ ok w'
      → (frame : List ℕ) × (view w' ≡ view w ++ frame)
        × (length frame ≤ max_frame + 4)
        × ((rest : List ℕ) (e : IoError)
            → read_frame j (record { bytes = frame ++ rest; at_end = e })
              ≡ ok (v, record { bytes = rest; at_end = e }))
  read_frame-write_frame j w w' v a parses h =
      let (bytes, e, fits, seen) = view-write_frame j a w w' v h in
      (
        frame_of bytes,
        seen,
        unfold to_be in omega arith,
        λ rest at_end. read_frame-frame_of j bytes rest at_end v fits (parses bytes e),
      )

module _ {W : Type 0} (out : Writer W) where
  -- Past the limit nothing is written and nothing is read: the sender reports it before the first
  -- byte, and the receiver from the four bytes of the length alone, whatever follows them.
  pub frame_too_large_both :
      {T : Type 0} (j : Json T) (w : W) (v : T) (bytes : List ℕ) (n : ℕ) (rest : List ℕ)
      (e : IoError)
      → j.to_vec v ≡ some bytes
      → max_frame < length bytes
      → max_frame < n
      → n < 2 ^ 32
      → (write_frame out j w v ≡ err frame_too_large)
        × (read_frame j (record { bytes = to_be n ++ rest; at_end = e }) ≡ err frame_too_large)
  unfolding write_frame read_frame
  frame_too_large_both j w v bytes n rest e text big over fits = (
    rw (text, lt→ltb max_frame (length bytes) big),
    rw (read_u32-to_be n rest e fits, lt→ltb max_frame n over),
  )

-- The payload is short.
read_frame_short :
    {T : Type 0} (j : Json T) (bytes : List ℕ) (k : ℕ) (e : IoError)
    → length bytes ≤ max_frame
    → k < length bytes
    → read_frame j (record { bytes = to_be (length bytes) ++ take k bytes; at_end = e })
      ≡ err (io e)
unfolding read_frame read_exact
read_frame_short j bytes k e fits short =
    rw
      (
        read_u32-to_be (length bytes) (take k bytes) e (omega arith),
        ltb-false max_frame (length bytes) fits,
      )
      (ground (arith, length-take k bytes))

-- A stream that breaks off inside a frame is the stream's own I/O error, never a message.
pub read_frame_truncated :
    {T : Type 0} (j : Json T) (bytes : List ℕ) (k : ℕ) (e : IoError)
    → length bytes ≤ max_frame
    → k < length (frame_of bytes)
    → read_frame j (record { bytes = take k (frame_of bytes); at_end = e }) ≡ err (io e)
unfolding read_frame read_u32 to_be
read_frame_truncated j bytes zero e fits short = refl
read_frame_truncated j bytes (suc zero) e fits short = refl
read_frame_truncated j bytes (suc (suc zero)) e fits short = refl
read_frame_truncated j bytes (suc (suc (suc zero))) e fits short = refl
read_frame_truncated j bytes (suc (suc (suc (suc k)))) e fits short =
    read_frame_short j bytes k e fits (omega arith)
