-- ===== src/Workspace/Witnesses.antt =====
-- Tests of workspace_tools.py, and its theorem at a file system of one file.
use hivekernel.Prelude.{◌≡◌, refl, [], ◌∷◌, ◌++◌, length, if◌then◌else◌}
use hivekernel.Prelude.Text.{Text, text, starts_with, text_eq}
use hivekernel.Exec.{ok, raised}
use hivekernel.Workspace.{
  FileCall, FileSystem, Disk, content, not_found, edit_file, replace, count, safe_path, run_call,
}
use hivekernel.Workspace.Confinement.{Confined, run_call-Confined}

-- The world is the text of the file /ws/a. Paths are joined and not normalized, but one that starts
-- with a dot leads to the root of the disk.
abbrev fs : FileSystem Text
fs = record {
  realpath = λ p w. if starts_with p (text "/ws/.") then text "/" else p;
  join = λ a b. a ++ b'/' ∷ b;
  read = λ p w. if text_eq p (text "/ws/a") then content w else not_found;
  getsize = λ p w. length w;
  write = λ parents p s w. (ok tt, s);
}

abbrev disk : Disk Text
disk = record { world = text "one two one"; touched = [] }

test_replace :
    (replace (text "one") (text "1") (text "one two one") ≡ text "1 two 1")
    × (count (text "one") (text "one two one") ≡ 2)
    × (replace [] (text "-") (text "ab") ≡ text "-a-b-")
unfolding replace count text
test_replace = (refl, refl, refl)

test_escape : safe_path fs (text "/ws") (text "..") [] ≡ raised (text "Path escapes workspace: ..")
unfolding safe_path text starts_with
test_escape = refl

abbrev edit : FileCall
unfolding text
edit = edit_file (text "a") (text "one") (text "1")

run_call-Confined_example :
    Confined
      (fs.realpath (text "/ws") disk.world)
      (run_call fs (text "/ws") edit disk).0
      (run_call fs (text "/ws") edit disk).1
      disk
run_call-Confined_example = run_call-Confined fs (text "/ws") edit disk
