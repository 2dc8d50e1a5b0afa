-- ===== src/Examples/Discoveries.antt =====
-- The discovery of an authorization, run on samples, and the theorems applied to them.
use repo_health_doctor.Base.{
  ℕ, ◌≤◌, ◌≡◌, ◌≢◌, ◌↔◌, refl, true, Option, none, some, List, [], ◌∷◌, length, arith,
}
use repo_health_doctor.Json.{Value, dict, end}
use repo_health_doctor.Base.Int.{ℤ, pos, negsuc}
use repo_health_doctor.ControlFile.Loop.{bounded_read, content}
use repo_health_doctor.ControlFile.Bounded.{IsReading, RefusesNegative, bounded_read-whole}
use repo_health_doctor.ControlFile.Safe.{IsSafe, read_bounded_control_file-IsSafe}
use repo_health_doctor.ControlFile.{
  ControlFileState, FileSystem, present, opened, read_all, read_bounded_control_file,
}
use repo_health_doctor.Gate.Discovery.{
  AuthorizationDiscoveryResult, answered, endless, commit, discover_execution_authorization,
}
use repo_health_doctor.Gate.Discovery.Untracked.{
  IsDiscovered, discover_execution_authorization-IsDiscovered,
  discover_execution_authorization-answers,
}

-- a regular file with the mode 0o100600 and two bytes
abbrev state : ControlFileState
state = record { device = 1; inode = 7; mode = 33152; size = 2; mtime_ns = 5; ctime_ns = 5 }

abbrev braces : List ℕ
braces = 123 ∷ 125 ∷ []

-- reads of one byte at a time
abbrev byte_by_byte : List ℕ → ℤ → Option (List ℕ × List ℕ)
byte_by_byte left (negsuc n) = none
byte_by_byte [] (pos n) = some ([], [])
byte_by_byte (b ∷ left) (pos n) = some (b ∷ [], left)

byte_by_byte-IsReading : (left : List ℕ) (n : ℕ) → 1 ≤ n → IsReading byte_by_byte left n
byte_by_byte-IsReading [] n h = record {
  chunk = [];
  rest = [];
  answer = refl;
  parts = refl;
  short = omega arith;
  ended = λ e. refl;
}
byte_by_byte-IsReading (b ∷ left) n h = record {
  chunk = b ∷ [];
  rest = left;
  answer = refl;
  parts = refl;
  short = h;
  ended = λ e. cc;
}

byte_by_byte-RefusesNegative : RefusesNegative byte_by_byte
byte_by_byte-RefusesNegative l n = refl

abbrev fs : FileSystem
fs = record {
  no_follow = true;
  lstat = present state;
  open_file = opened braces;
  fstat = some state;
  read = byte_by_byte;
  fstat_after = some state;
}

abbrev loads : List ℕ → Option Value
loads bytes = some (dict end)

bounded_read-whole_example :
    (bounded_read byte_by_byte 64 braces ≡ content braces) ↔ (length braces ≤ 64)
bounded_read-whole_example = bounded_read-whole byte_by_byte 64 byte_by_byte-IsReading braces

braces_read : read_bounded_control_file fs 64 ≡ read_all braces state
unfolding read_bounded_control_file
braces_read = refl

read_bounded_control_file-IsSafe_example : IsSafe fs 64 braces state
read_bounded_control_file-IsSafe_example =
    read_bounded_control_file-IsSafe fs 64 braces state braces_read

abbrev found : AuthorizationDiscoveryResult
found = record { discovered = true; authorization = some end; reason = none }

discovered_run :
    discover_execution_authorization fs loads 64 true none (commit ("README.md" ∷ []))
    ≡ answered found
unfolding discover_execution_authorization read_bounded_control_file
discovered_run = refl

discover_execution_authorization-IsDiscovered_example :
    IsDiscovered fs loads 64 none (commit ("README.md" ∷ [])) found
discover_execution_authorization-IsDiscovered_example =
    discover_execution_authorization-IsDiscovered fs loads 64 true none (commit ("README.md" ∷ []))
      found discovered_run refl

discover_execution_authorization-answers_example :
    discover_execution_authorization fs loads 64 true none (commit ("README.md" ∷ [])) ≢ endless
discover_execution_authorization-answers_example =
    discover_execution_authorization-answers fs loads 64 byte_by_byte-RefusesNegative true none
      (commit ("README.md" ∷ []))
