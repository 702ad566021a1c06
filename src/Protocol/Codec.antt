-- ===== src/Protocol/Codec.antt =====
-- crates/sshe-protocol/src/codec.rs and error.rs. A byte is a number below 256. A reader is the
-- bytes that arrive before the stream ends, with the I/O error that a read past them meets. The
-- JSON text of a value (serde_json) is a parameter, and so is the writer (tokio).
pub mod RoundTrip
mod Tests
use sshe.Prelude.{
  ℕ, ◌+◌, ◌*◌, ◌/◌, ◌%◌, ◌^◌, Bool, List, [], ◌∷◌, ◌++◌, Option, none, some, length, take, drop,
  ltb, Result, ok, err, ◌>>=◌, ◌>>◌, fail_if, ok_or, map_err, if◌then◌else◌,
}
use sshe.Io.{IoError}
use sshe.Protocol.Limits.{max_frame}

pub data Error : Type 0 where
  frame_too_large : Error
  io : IoError → Error
  json : Error

pub record Reader : Type 0 where
  pub bytes : List ℕ
  pub at_end : IoError

-- `serde_json::to_vec` and `from_slice` at one type; `none` is an error.
pub record Json (T : Type 0) : Type 0 where
  pub to_vec : T → Option (List ℕ)
  pub from_slice : List ℕ → Option T

-- `write_all` and `flush` of an `AsyncWrite`
pub record Writer (W : Type 0) : Type 0 where
  pub write_all : W → List ℕ → Result IoError W
  pub flush : W → Result IoError W

-- `u32::to_be_bytes` and `from_be_bytes`
unfoldable pub to_be : ℕ → List ℕ
to_be n = (n / 2 ^ 24 % 256) ∷ (n / 2 ^ 16 % 256) ∷ (n / 2 ^ 8 % 256) ∷ (n % 256) ∷ []

read_be : IoError → List ℕ → Result Error (ℕ × List ℕ)
read_be e (a ∷ b ∷ c ∷ d ∷ rest) = ok (((a * 256 + b) * 256 + c) * 256 + d, rest)
read_be e _ = err (io e)

-- `AsyncReadExt::read_u32`
unfoldable pub read_u32 : Reader → Result Error (ℕ × Reader)
unfolding read_be
read_u32 r = do (n, rest) ← read_be r.at_end r.bytes; ok (n, record r { bytes = rest })

-- `AsyncReadExt::read_exact`
unfoldable pub read_exact : ℕ → Reader → Result Error (List ℕ × Reader)
read_exact n r =
    if ltb (length r.bytes) n
    then err (io r.at_end)
    else ok (take n r.bytes, record r { bytes = drop n r.bytes })

module _ {T : Type 0} (j : Json T) where
  unfoldable pub read_frame : Reader → Result Error (T × Reader)
  read_frame r = do
    (len, r) ← read_u32 r
    fail_if (ltb max_frame len) frame_too_large
    (bytes, r) ← read_exact len r
    value ← ok_or (j.from_slice bytes) json
    ok (value, r)

module _ {W : Type 0} (out : Writer W) where
  -- the three calls that end `write_frame`
  unfoldable pub send : W → List ℕ → Result Error W
  send w bytes = do
    w₁ ← map_err io (out.write_all w (to_be (length bytes % 2 ^ 32)))
    w₂ ← map_err io (out.write_all w₁ bytes)
    map_err io (out.flush w₂)

  unfoldable pub write_frame : {T : Type 0} → Json T → W → T → Result Error W
  write_frame j w value = do
    bytes ← ok_or (j.to_vec value) json
    fail_if (ltb max_frame (length bytes)) frame_too_large
    send w bytes
