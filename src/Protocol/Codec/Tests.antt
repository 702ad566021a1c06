-- ===== src/Protocol/Codec/Tests.antt =====
-- Runs of the framing, over numbers as one-byte messages and a writer that keeps what it is given.
use sshe.Prelude.{
  ap, zero, suc, refl, err, ◌+◌, arith, Option, ◌≤◌, length, ◌≡◌, ℕ, List, [], ◌∷◌, ◌++◌, none,
  some, ok,
}
use sshe.Protocol.Codec.RoundTrip.{
  frame_too_large_both, read_frame_truncated, read_frame-write_frame, IsAppending,
}
use sshe.Protocol.Codec.{frame_too_large, io, send, read_frame, to_be, write_frame, Json, Writer}
use sshe.Protocol.Limits.{max_frame}
use sshe.Io.{unexpected_eof, IoError}

abbrev first : List ℕ → Option ℕ
first [] = none
first (b ∷ bytes) = some b

abbrev byte_json : Json ℕ
byte_json = record { to_vec = λ n. some (n ∷ []); from_slice = λ bytes. first bytes }

abbrev broken : IoError
broken = record { kind = unexpected_eof; inner = none; text = "early eof" }

abbrev buffer : Writer (List ℕ)
buffer = record { write_all = λ w bytes. ok (w ++ bytes); flush = λ w. ok w }

buffer-IsAppending : IsAppending buffer (λ w. w)
buffer-IsAppending = record {
  appends = λ w w' bytes h. ground arith;
  flushes = λ w w' h. ground arith;
}

frame_of_seven : write_frame buffer byte_json [] 7 ≡ ok (0 ∷ 0 ∷ 0 ∷ 1 ∷ 7 ∷ [])
unfolding write_frame send to_be
frame_of_seven = refl

read_frame-write_frame_example :
    (frame : List ℕ) × (0 ∷ 0 ∷ 0 ∷ 1 ∷ 7 ∷ [] ≡ [] ++ frame)
    × (length frame ≤ max_frame + 4)
    × ((rest : List ℕ) (e : IoError)
        → read_frame byte_json (record { bytes = frame ++ rest; at_end = e })
          ≡ ok (7, record { bytes = rest; at_end = e }))
read_frame-write_frame_example =
    read_frame-write_frame buffer (λ w. w) byte_json [] (0 ∷ 0 ∷ 0 ∷ 1 ∷ 7 ∷ []) 7
      buffer-IsAppending (λ bytes e. ground arith) frame_of_seven

read_frame_truncated_example :
    read_frame byte_json (record { bytes = 0 ∷ 0 ∷ 0 ∷ 1 ∷ []; at_end = broken }) ≡ err (io broken)
unfolding to_be
read_frame_truncated_example =
    read_frame_truncated byte_json (7 ∷ []) 4 broken (omega arith) (omega arith)

-- Every message is one byte longer than the limit.
zeros : ℕ → List ℕ
zeros zero = []
zeros (suc n) = 0 ∷ zeros n

length-zeros : (n : ℕ) → length (zeros n) ≡ n
unfolding zeros
length-zeros zero = refl
length-zeros (suc n) = ap suc (length-zeros n)

abbrev long_json : Json ℕ
long_json = record { to_vec = λ n. some (zeros (max_frame + 1)); from_slice = λ bytes. none }

frame_too_large_both_example :
    (write_frame buffer long_json [] 7 ≡ err frame_too_large)
    × (read_frame long_json (record { bytes = 0 ∷ 64 ∷ 0 ∷ 1 ∷ []; at_end = broken })
        ≡ err frame_too_large)
unfolding to_be
frame_too_large_both_example =
    frame_too_large_both buffer long_json [] 7 (zeros (max_frame + 1)) (max_frame + 1) [] broken
      refl (omega (arith, length-zeros (max_frame + 1))) (omega arith) (omega arith)
