-- ===== src/Cli/Output.antt =====
-- crates/sshe-cli/src/output.rs: what is printed, and the exit code. The terminal and the JSON
-- printer are parameters.
mod Tests
use sshe.Prelude.{
  String, Option, ℕ, ℤ, pos, negsuc, Result, List, Bool, ok, err, ok_or, unwrap_or, min, leb, ◌-◌,
  ◌+◌, if◌then◌else◌, ◌≡◌, ◌≤◌, arith, some, none, refl,
}
use sshe.Io.{IoError}
use sshe.Protocol.Message.{Response, ProbeReport, HistoryReport, ExecResult}

pub record Terminal (Value : Type 0) : Type 1 where
  pub World : Type 0
  -- `println!`
  pub print : String → World → World
  pub stdout : List ℕ → World → Result IoError Unit × World
  pub stderr : List ℕ → World → Result IoError Unit × World
  -- `serde_json::to_string_pretty`
  pub probe_json : ProbeReport Value → Option String
  pub history_json : HistoryReport Value → Option String
  pub exec_json : ExecResult → Option String

pub data Error : Type 0 where
  bail : String → Error
  io : IoError → Error
  json : Error

-- `128 + signal`
unfoldable pub plus_128 : ℤ → ℤ
plus_128 (pos n) = pos (128 + n)
plus_128 (negsuc n) = if leb (n + 1) 128 then pos (127 - n) else negsuc (n - 128)

-- `clamp(0, 255) as u8`
unfoldable pub clamp : ℤ → ℕ
clamp (pos n) = min n 255
clamp (negsuc n) = 0

unfoldable pub exit_code : ExecResult → ℕ
exit_code result = clamp (unwrap_or result.exit_code (plus_128 (unwrap_or result.signal (pos 1))))

module _ {Value : Type 0} (terminal : Terminal Value) where
  open terminal use {World, print, stdout, stderr, probe_json, history_json, exec_json}

  -- `println!` of JSON, and the code after it
  abbrev printed : ℕ → Option String → World → Result Error ℕ × World
  printed code none w = (err json, w)
  printed code (some text) w = (ok code, print text w)

  abbrev both : ExecResult → World → Result Error ℕ × World
  both result w =
      let (r, w') = stdout result.stdout w in
      elim r as (λ _. Result Error ℕ × World) [
        | err e ↦ (err (io e), w')
        | ok _ ↦
            let (r', w'') = stderr result.stderr w' in
            elim r' as (λ _. Result Error ℕ × World) [
              | err e ↦ (err (io e), w'')
              | ok _ ↦ (ok (exit_code result), w'')
            ]
      ]

  unfoldable pub render : Response Value → Bool → World → Result Error ℕ × World
  render (Response.probe report) as_json w = printed 0 (probe_json report) w
  render (Response.history report) as_json w = printed 0 (history_json report) w
  render (Response.health h) as_json w = (err (bail "unexpected health response"), w)
  render (Response.error message) as_json w = (err (bail message), w)
  render (Response.exec result) as_json w =
      let text = printed (exit_code result) (exec_json result) w in
      let raw = both result w in if as_json then text else raw
