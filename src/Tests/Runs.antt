-- ===== src/Tests/Runs.antt =====
-- Texts for a terminal, the capture of standard error, and runs of mysqldump.
use ezdbbackup.Common.{
  ℕ, ◌≡◌, ◌≤◌, refl, true, none, some, List, [], ◌∷◌, ◌++◌, map, length, take, ok, pos,
}
use ezdbbackup.Common.Bytes.{Bytes, codes, join, split}
use ezdbbackup.Common.World.{World}
use ezdbbackup.Backup.Types.{DumpRequest}
use ezdbbackup.Backup.Fault.{plain}
use ezdbbackup.Stage.{FileStat, Workspace, StageCall, StageOs, stage}
use ezdbbackup.Stage.Protocol.{IsStaged, stage-IsStaged}
use ezdbbackup.Terminal.{encode, encode_lines}
use ezdbbackup.Terminal.Bounded.{encode-bounded}
use ezdbbackup.Terminal.Safe.{safe_text, encode-safe}
use ezdbbackup.Terminal.Lines.{encode_lines-joined}
use ezdbbackup.Dump.Capture.{new_capture, write, write_pieces, finish, prefix_failure_table}
use ezdbbackup.Dump.Capture.Chunks.{write-append}
use ezdbbackup.Dump.Capture.Borders.{IsTable}
use ezdbbackup.Dump.Capture.Table.{prefix_failure_table-IsTable}
use ezdbbackup.Dump.Capture.Refines.{concat, redacted_text, capture-shown}
use ezdbbackup.Dump.Environment.{child_env}
use ezdbbackup.Dump.Environment.Lookup.{lookup_entry, found_in_child, child_env-lookup}
use ezdbbackup.Dump.Runner.{RunCall, RunnerOs}

-- an escape, a right-to-left override and a byte that is no UTF-8
abbrev hostile : Bytes
hostile = 0x1b ∷ 0xe2 ∷ 0x80 ∷ 0xae ∷ 0xff ∷ codes "ok"

encode-bounded_example : length (encode hostile) ≤ 4096
encode-bounded_example = encode-bounded hostile

encode-safe_example : safe_text (encode hostile) ≡ true
encode-safe_example = encode-safe hostile

encode_lines-joined_example :
    encode_lines (b'a' ∷ b'\n' ∷ hostile)
    ≡ join (b'\n' ∷ []) (map encode (split b'\n' (b'a' ∷ b'\n' ∷ hostile)))
encode_lines-joined_example = encode_lines-joined (b'a' ∷ b'\n' ∷ hostile)

write-append_example :
    write (codes "bac!") (write (codes "xaba") (new_capture 20 (codes "ababac")))
    ≡ write (codes "xaba" ++ codes "bac!") (new_capture 20 (codes "ababac"))
write-append_example = write-append (codes "xaba") (codes "bac!") (new_capture 20 (codes "ababac"))

prefix_failure_table-IsTable_example :
    IsTable (codes "ababac") (prefix_failure_table (codes "ababac")) (length (codes "ababac"))
prefix_failure_table-IsTable_example = prefix_failure_table-IsTable (codes "ababac")

abbrev pieces : List Bytes
pieces = codes "abab" ∷ codes "abac-" ∷ codes "ab" ∷ []

capture-shown_example :
    (finish (write_pieces pieces (new_capture 20 (codes "ababac")))).output.data_bytes
    ≡ take 20 (redacted_text (codes "ababac") (concat pieces))
capture-shown_example = capture-shown 20 (codes "ababac") pieces

-- The run itself: `ab`, the password replaced, a dash, and the start of a password replaced.
captured_run :
    (finish (write_pieces pieces (new_capture 40 (codes "ababac")))).output.data_bytes
    ≡ codes "ab[REDACTED]-[REDACTED]"
unfolding write_pieces write new_capture finish
captured_run = refl

child_env-lookup_example :
    lookup_entry
      (codes "AWS_PROFILE")
      (child_env (codes "AWS_PROFILE=p" ∷ codes "HOME=/r" ∷ []) (codes "s"))
    ≡ found_in_child
        (codes "AWS_PROFILE")
        (codes "s")
        (codes "AWS_PROFILE=p" ∷ codes "HOME=/r" ∷ [])
child_env-lookup_example =
    child_env-lookup (codes "AWS_PROFILE") (codes "s")
      (codes "AWS_PROFILE=p" ∷ codes "HOME=/r" ∷ [])

-- a process that ends with the error 7
abbrev failing_os : RunnerOs ℕ ℕ
failing_os = record {
  current_identity = λ e. (ok 0, e);
  lookup_identity = λ name e. (ok 1, e);
  open_regular = λ path identity e. (ok (3, 4), e);
  after_executable_open = none;
  close_answer = λ file e. (none, e);
  recheck_answer = λ source e. (none, e);
  environ = λ e. (codes "HOME=/r" ∷ [], e);
  start_answer = λ binary arguments entries e. (ok 9, e);
  wait_answer =
      λ process e. (record { failure = some 7; stderr_pieces = pieces; write_errors = [] }, e);
  kill_answer = λ process e. (none, e);
  context_error = λ e. (none, e);
  is_error = λ x y. true;
}

abbrev request : DumpRequest
request = record {
  binary = codes "/d";
  run_as = codes "root";
  host = codes "h";
  port = pos 3306;
  user = codes "u";
  password = codes "ababac";
  all_databases = true;
  databases = [];
  extra_args = [];
}

abbrev fresh : World ℕ (RunCall ℕ)
fresh = record { env = 0; calls = [] }

abbrev some_stat : FileStat
some_stat = record { device = 1; inode = 2; links = 1; mode = 33152; bytes_ = 5 }

abbrev some_workspace : Workspace
some_workspace = record {
  parent_path = codes "/t";
  work_name = codes "w";
  parent_fd = 3;
  work_fd = 4;
  parent_stat = some_stat;
  work_stat = some_stat;
}

-- a dump that fails
abbrev failing_stage : StageOs ℕ
failing_stage = record {
  context_error = λ e. (none, e);
  new_workspace = λ dir e. (ok some_workspace, e);
  create_file = λ w e. (ok (5, some_stat), e);
  write_dump = λ file e. (some (plain (codes "dump")), e);
  close_gzip = λ file e. (none, e);
  stat_descriptor = λ file e. (ok some_stat, e);
  close_file = λ file e. (none, e);
  verify_final = λ w a e. (none, e);
  remove_file = none;
  remove_artifact = λ w a e. (none, e);
  remove_directory = λ w e. (none, e);
  close_workspace = λ w e. (tt, e);
}

abbrev unstaged : World ℕ StageCall
unstaged = record { env = 0; calls = [] }

stage-IsStaged_example :
    (t : List StageCall) × ((stage failing_stage (codes "/t") unstaged).1.calls
      ≡ unstaged.calls ++ t)
    × IsStaged t (stage failing_stage (codes "/t") unstaged).0
stage-IsStaged_example = stage-IsStaged failing_stage (codes "/t") unstaged
