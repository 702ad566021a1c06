-- ===== src/Cli/Output/Tests.antt =====
-- The exit codes of commands.
use sshe.Prelude.{Option, ℤ, pos, negsuc, ◌≡◌, refl, [], none, some}
use sshe.Protocol.Message.{ExecResult}
use sshe.Cli.Output.{exit_code, clamp, plus_128}

abbrev ended : Option ℤ → Option ℤ → ExecResult
ended code signal = record {
  stdout = [];
  stderr = [];
  exit_code = code;
  signal = signal;
  duration_ms = 0;
}

program : Unit {0}
unfolding exit_code clamp plus_128
program = tt

kept : exit_code (ended (some (pos 7)) none) ≡ 7
unfolding program
kept = refl

killed : exit_code (ended none (some (pos 9))) ≡ 137
unfolding program
killed = refl

negative : exit_code (ended (some (negsuc 0)) none) ≡ 0
unfolding program
negative = refl
