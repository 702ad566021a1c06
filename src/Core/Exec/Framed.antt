-- ===== src/Core/Exec/Framed.antt =====
-- The result of a command as a reply on the wire.
use sshe.Prelude.{
  String, ℕ, List, ok, some, ◌≡◌, ◌≤◌, ◌+◌, ◌*◌, length, ltb, false, arith, refl, subst,
}
use sshe.Protocol.Message.{ExecResult, Response}
use sshe.Protocol.Limits.{max_frame}
use sshe.Protocol.Codec.{Json, Writer, write_frame, send}
use sshe.Core.Exec.{Os, Run, execute}
use sshe.Core.Exec.Bounded.{execute-Bounded, Ensures, Fits}

module _ {Value W : Type 0} (j : Json (Response Value)) (out : Writer W) where
  -- The text of an array of bytes has at most three digits and a comma for each, and what is
  -- around the two arrays of a result has at most 256 characters.
  abbrev pub IsCompact : Type 0
  IsCompact =
      (r : ExecResult) (bytes : List ℕ)
      → j.to_vec (Response.exec r) ≡ some bytes
      → length bytes ≤ 4 * (length r.stdout + length r.stderr) + 256

  fitting_frame :
      (w : W) (reply : Response Value) (bytes : List ℕ)
      → j.to_vec reply ≡ some bytes
      → length bytes ≤ max_frame
      → write_frame out j w reply ≡ send out w bytes
  unfolding write_frame
  fitting_frame w reply bytes printed few =
      let fits : ltb max_frame (length bytes) ≡ false = ground (arith, few) in
      rw (printed, fits) refl

  -- The reply to an exec that was carried out always fits in a frame, whatever the command prints:
  -- `write_frame` sends it and never refuses it as too large, if the JSON text of a byte takes at
  -- most four characters.
  pub write_frame-execute :
      (os : Os) (program : String) (args : List String) (timeout_secs : ℕ) (s : Run os)
      (result : ExecResult) (w : W) (bytes : List ℕ)
      → IsCompact
      → (execute os program args timeout_secs s).0.1 ≡ ok result
      → j.to_vec (Response.exec result) ≡ some bytes
      → write_frame out j w (Response.exec result) ≡ send out w bytes
  write_frame-execute os program args timeout_secs s result w bytes compact done printed =
      let (_, small, _) = execute-Bounded os program args timeout_secs s in
      let fits : Fits result = subst (Ensures Fits) done small in
      fitting_frame w (Response.exec result) bytes printed
        (omega (arith, fits.0, fits.1, compact result bytes printed))
