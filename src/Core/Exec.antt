-- ===== src/Core/Exec.antt =====
-- crates/sshe-core/src/exec.rs: a command with bounded time and output. Times are milliseconds
-- since the command was started. The operating system and tokio's processes are the parameter `Os`.
-- `trace` records what the code did to the child's process group, and no code reads it.
pub mod Bounded
pub mod Framed
mod Tests
use sshe.Prelude.{
  ◌&&◌, map_err, ◌*◌, ◌++◌, ◌+◌, length, take, leb, map_ok, ltb, max, if◌then◌else◌, List, ℤ, ok,
  String, ℕ, Result, Option, err, [], ◌∷◌, none, some, true, false,
}
use sshe.Io.{IoError}
use sshe.Protocol.Message.{ExecResult}
use sshe.Protocol.Limits.{output_limit, max_exec_seconds}
use sshe.Core.Error.{Error, io, timeout, invalid_timeout}

pub data Pipe : Type 0 where
  stdout stderr : Pipe

-- `ExitStatus`, as its code and its signal
pub record Status : Type 0 where
  pub code : Option ℤ
  pub signal : Option ℤ

pub record Os : Type 1 where
  pub World : Type 0
  pub Child : Type 0
  -- in a process group of its own
  pub spawn : World → String → List String → Result IoError Child × World
  -- When `read_to_end` of a pipe that is cut after a number of bytes is done, and all that the pipe
  -- held by then; `none` if it never is.
  pub read_to_end : World → Child → Pipe → ℕ → Option (ℕ × Result IoError (List ℕ))
  -- when the child has exited, if it ever does
  pub wait : World → Child → Option (ℕ × Result IoError Status)
  -- the world after a number of milliseconds
  pub pass : World → ℕ → World
  -- `killpg` with SIGKILL
  pub kill_group : World → Child → World

pub data Event (Child : Type 0) : Type 0 where
  spawned killed : Child → Event Child

-- A future that is awaited: when it is ready, if it ever is, and with what.
abbrev pub Future : Type 0 → Type 0
Future A = Option (ℕ × Result Error A)

-- the check after `read_to_end`
pub within_limit : Result IoError (List ℕ) → Result Error (List ℕ)
within_limit (err e) = err (io e)
within_limit (ok bytes) =
    if ltb output_limit (length bytes) then err Error.output_limit else ok bytes

pub read_output : Option (ℕ × Result IoError (List ℕ)) → Future (List ℕ)
read_output none = none
read_output (some (at, r)) = some (at, within_limit (map_ok (take (output_limit + 1)) r))

-- `child.wait()`
pub exited : Option (ℕ × Result IoError Status) → Future Status
exited none = none
exited (some (at, r)) = some (at, map_err io r)

-- `try_join!` of two: the first error, or both results when the later one is there.
pub try_join : {A B : Type 0} → Future A → Future B → Future (A × B)
try_join none none = none
try_join none (some (at, err e)) = some (at, err e)
try_join none (some (at, ok b)) = none
try_join (some (at, err e)) none = some (at, err e)
try_join (some (at, ok a)) none = none
try_join (some (at, ok a)) (some (at', ok b)) = some (max at at', ok (a, b))
try_join (some (at, ok a)) (some (at', err e)) = some (at', err e)
try_join (some (at, err e)) (some (at', ok b)) = some (at, err e)
try_join (some (at, err e)) (some (at', err f)) =
    if leb at at' then some (at, err e) else some (at', err f)

-- `timeout(limit, f)`: when it is over, and with what. One that is ready at the limit counts.
pub limited : {A : Type 0} → ℕ → Future A → ℕ × Result Error A
limited limit none = (limit, err timeout)
limited limit (some (at, r)) = if leb at limit then (at, r) else (limit, err timeout)

module _ (os : Os) where
  open os use {World, Child, spawn, read_to_end, wait, pass, kill_group}

  pub record Run : Type 0 where
    pub world : World
    pub trace : List (Event Child)

  note : Event Child → Run → Run
  note e s = record s { trace = s.trace ++ e ∷ [] }

  -- both outputs and the exit status
  pub outputs : World → Child → Future ((List ℕ × List ℕ) × Status)
  outputs w c =
      let piped = λ (p : Pipe). read_output (read_to_end w c p (output_limit + 1)) in
      try_join (try_join (piped stdout) (piped stderr)) (exited (wait w c))

  abbrev pub result_of : ℕ → (List ℕ × List ℕ) × Status → ExecResult
  result_of elapsed ((out, errors), status) = record {
    stdout = out;
    stderr = errors;
    exit_code = status.code;
    signal = status.signal;
    duration_ms = elapsed;
  }

  -- what follows the start of the child; `ProcessGroup` is dropped at the end, on every path
  pub supervise : Child → ℕ → Run → (ℕ × Result Error ExecResult) × Run
  supervise c timeout_secs s =
      let (at, r) = limited (timeout_secs * 1000) (outputs s.world c) in
      (
        (at, map_ok (result_of at) r),
        note (killed c) (record s { world = kill_group (pass s.world at) c }),
      )

  -- how long it took, and the result
  pub execute : String → List String → ℕ → Run → (ℕ × Result Error ExecResult) × Run
  execute program args timeout_secs s =
      let (r, w) = spawn s.world program args in
      let started = elim r as (λ _. (ℕ × Result Error ExecResult) × Run) [
        | err e ↦ ((0, err (io e)), record s { world = w })
        | ok c ↦ supervise c timeout_secs (note (spawned c) (record s { world = w }))
      ] in
      if leb 1 timeout_secs && leb timeout_secs max_exec_seconds
      then started
      else ((0, err invalid_timeout), s)
