-- ===== src/Core/Exec/Tests.antt =====
-- A command that prints two bytes and ends, and one that never ends.
use sshe.Prelude.{ok, err, pos, refl, ◌≡◌, ◌∷◌, [], none, some, ℕ, Option, List}
use sshe.Core.Error.{timeout, invalid_timeout}
use sshe.Core.Exec.{
  Os, Run, Pipe, execute, supervise, note, outputs, try_join, limited, exited, read_output,
  within_limit, stdout, stderr,
}
use sshe.Protocol.Message.{ExecResult, Response}
use sshe.Protocol.Codec.{Json, Writer, write_frame, send}
use sshe.Core.Exec.Framed.{IsCompact, write_frame-execute}
use sshe.Prelude.{◌++◌, ap, arith}
use sshe.Core.Exec.Bounded.{execute-Bounded, Bounded}

-- the bytes of standard output, which are there after 100 milliseconds
abbrev printed : Pipe → List ℕ
printed stdout = 104 ∷ 105 ∷ []
printed stderr = []

-- The world is the number of processes; a child ends after `lifetime`.
abbrev machine : Option ℕ → Os
machine lifetime = record {
  World = ℕ;
  Child = ℕ;
  spawn = λ w program args. (ok w, w);
  read_to_end = λ w c p n. some (100, ok (printed p));
  wait = λ w c. elim lifetime [
    | none ↦ none
    | some t ↦ some (t, ok (record { code = some (pos 7); signal = none }))
  ];
  pass = λ w t. w;
  kill_group = λ w c. w;
}

abbrev begin : (lifetime : Option ℕ) → Run (machine lifetime)
begin lifetime = record { world = 0; trace = [] }

exit_code_kept : (execute (machine (some 300)) "sh" [] 2 (begin (some 300))).0 ≡ (
  300,
  ok (record {
    stdout = 104 ∷ 105 ∷ [];
    stderr = [];
    exit_code = some (pos 7);
    signal = none;
    duration_ms = 300;
  }),
)
unfolding execute supervise note outputs try_join limited exited read_output within_limit
exit_code_kept = refl

sleeper_timed_out : (execute (machine none) "sleep" [] 2 (begin none)).0 ≡ (2000, err timeout)
unfolding execute supervise note outputs try_join limited exited read_output within_limit
sleeper_timed_out = refl

timeout_out_of_range :
    (execute (machine none) "sleep" [] 61 (begin none)).0 ≡ (0, err invalid_timeout)
unfolding execute
timeout_out_of_range = refl

execute-Bounded_example :
    Bounded (machine none) 2 (begin none) (execute (machine none) "sleep" [] 2 (begin none))
execute-Bounded_example = execute-Bounded (machine none) "sleep" [] 2 (begin none)

abbrev ended : ExecResult
ended = record {
  stdout = 104 ∷ 105 ∷ [];
  stderr = [];
  exit_code = some (pos 7);
  signal = none;
  duration_ms = 300;
}

-- The text of a result is its output, and of another reply nothing.
abbrev json : Json (Response ℕ)
json = record {
  to_vec = λ r. elim r as (λ _. Option (List ℕ)) [
    | Response.exec result ↦ some result.stdout
    | Response.health h ↦ none
    | Response.probe report ↦ none
    | Response.history report ↦ none
    | Response.error message ↦ none
  ];
  from_slice = λ bytes. none;
}

-- a writer of a list
abbrev wire : Writer (List ℕ)
wire = record { write_all = λ w bytes. ok (w ++ bytes); flush = λ w. ok w }

json-IsCompact : IsCompact json wire
json-IsCompact r bytes printed = ground (arith, printed)

write_frame-execute_example :
    write_frame wire json [] (Response.exec ended) ≡ send wire [] (104 ∷ 105 ∷ [])
write_frame-execute_example =
    write_frame-execute json wire (machine (some 300)) "sh" [] 2 (begin (some 300)) ended []
      (104 ∷ 105 ∷ []) json-IsCompact (ap (λ p. p.1) exit_code_kept) refl
