-- ===== src/Workspace.antt =====
-- sdk/python/hivekernel_sdk/workspace_tools.py: `_safe_path` and the tools that read, write and edit a
-- file. The file system is an interface; each file that is opened is noted, the newest first.
pub mod Confinement
mod Witnesses
use hivekernel.Prelude.{
  ℕ, zero, suc, ◌+◌, ◌-◌, ◌*◌, Bool, true, false, ◌||◌, List, [], ◌∷◌, ◌++◌, ltb, length, take,
  if◌then◌else◌,
}
use hivekernel.Prelude.Text.{Text, text, text_eq, truthy, starts_with, contains}
use hivekernel.Prelude.Decimal.{show}
use hivekernel.Exec.{Result, ok, raised}
use hivekernel.Tools.{ToolResult}

-- What opening a file for reading yields.
pub data Opened : Type 0 where
  content : Text → Opened
  not_found : Opened
  failed : Text → Opened

-- `os.path` and `open`. A write makes the directories of its file where `parents` is set.
pub record FileSystem (W : Type 0) : Type 0 where
  pub realpath : Text → W → Text
  pub join : Text → Text → Text
  pub read : Text → W → Opened
  pub getsize : Text → W → ℕ
  pub write : (parents : Bool) (path content : Text) → W → Result (Unit {0}) × W

pub record Disk (W : Type 0) : Type 0 where
  pub world : W
  pub touched : List Text

abbrev pub max_file_size : ℕ
max_file_size = 50 * 1024

-- The calls of the three tools, with their arguments.
pub data FileCall : Type 0 where
  read_file : (path : Text) → FileCall
  write_file : (path content : Text) → FileCall
  edit_file : (path old_text new_text : Text) → FileCall

abbrev pub path_of : FileCall → Text
path_of (read_file path) = path
path_of (write_file path c) = path
path_of (edit_file path o n) = path

abbrev pub answer : Text → ToolResult
answer s = record { content = s; is_error = false }

abbrev pub error : Text → ToolResult
error s = record { content = s; is_error = true }

-- `s.replace(old, new)` for an `old` that is not empty; `skip` characters are part of an occurrence.
replace_from : (old new : Text) (skip : ℕ) → Text → Text
unfolding starts_with
replace_from old new skip [] = []
replace_from old new (suc skip) (c ∷ s) = replace_from old new skip s
replace_from old new zero (c ∷ s) =
    let inside = replace_from old new (length old - 1) s in
    let on = replace_from old new 0 s in if starts_with (c ∷ s) old then new ++ inside else c ∷ on

count_from : (old : Text) (skip : ℕ) → Text → ℕ
unfolding starts_with
count_from old skip [] = 0
count_from old (suc skip) (c ∷ s) = count_from old skip s
count_from old zero (c ∷ s) =
    let inside = count_from old (length old - 1) s in
    let on = count_from old 0 s in if starts_with (c ∷ s) old then inside + 1 else on

-- An empty `old` stands before each character and at the end.
interleave : Text → Text → Text
interleave new [] = new
interleave new (c ∷ s) = new ++ c ∷ interleave new s

unfoldable pub replace : (old new : Text) → Text → Text
unfolding replace_from interleave
replace [] new s = interleave new s
replace (c ∷ old) new s = replace_from (c ∷ old) new 0 s

unfoldable pub count : Text → Text → ℕ
unfolding count_from
count [] s = length s + 1
count (c ∷ old) s = count_from (c ∷ old) 0 s

module _ {W : Type 0} (fs : FileSystem W) where
  unfoldable pub safe_path : (workspace relative : Text) → W → Result Text
  safe_path [] relative w = raised (text "No workspace configured for this agent")
  safe_path (c ∷ s) relative w =
      let resolved = fs.realpath (fs.join (c ∷ s) relative) w in
      let root = fs.realpath (c ∷ s) w in
      if starts_with resolved (root ++ b'/' ∷ []) || text_eq resolved root
      then ok resolved
      else raised (text "Path escapes workspace: " ++ relative)

  abbrev pub touch : Text → Disk W → Disk W
  touch path st = record st { touched = path ∷ st.touched }

  abbrev pub write_disk : Bool → Text → Text → Disk W → Result (Unit {0}) × Disk W
  write_disk parents path s st =
      let (r, world) = fs.write parents path s st.world in
      (r, record { world = world; touched = path ∷ st.touched })

  read_result : (path fpath : Text) → Opened → W → ToolResult
  read_result path fpath not_found w = error (text "File not found: " ++ path)
  read_result path fpath (failed e) w = error (text "Read error: " ++ e)
  read_result path fpath (content s) w = answer (
      take max_file_size s
      ++ (if ltb max_file_size (fs.getsize fpath w) then text "\n... (truncated at 50KB)" else []))

  write_result : Text → Result (Unit {0}) → ToolResult
  write_result done (ok u) = answer done
  write_result done (raised e) = error (text "Write error: " ++ e)

  replaced : (path fpath old new s : Text) → Disk W → ToolResult × Disk W
  unfolding write_result replace count
  replaced path fpath old new s st =
      let (r, st') = write_disk false fpath (replace old new s) st in
      (
        write_result
            (text "Replaced " ++ (show (count old s) ++ (text " occurrence(s) in " ++ path))) r,
        st',
      )

  edit_opened : (path fpath old new : Text) → Opened → Disk W → ToolResult × Disk W
  unfolding replaced contains
  edit_opened path fpath old new not_found st = (error (text "File not found: " ++ path), st)
  edit_opened path fpath old new (failed e) st = (error (text "Read error: " ++ e), st)
  edit_opened path fpath old new (content s) st =
      if contains old s
      then replaced path fpath old new s st
      else (error (text "old_text not found in file"), st)

  -- What a tool does with the path that was resolved.
  unfoldable pub run_at : FileCall → Text → Disk W → ToolResult × Disk W
  unfolding read_result write_result edit_opened
  run_at (read_file path) fpath st =
      (read_result path fpath (fs.read fpath st.world) st.world, touch fpath st)
  run_at (write_file path s) fpath st =
      let (r, st') = write_disk true fpath s st in
      (write_result (text "Written " ++ (show (length s) ++ (text " chars to " ++ path))) r, st')
  run_at (edit_file path old new) fpath st =
      edit_opened path fpath old new (fs.read fpath st.world) (touch fpath st)

  abbrev pub at_path : FileCall → Result Text → Disk W → ToolResult × Disk W
  at_path call (ok fpath) st = run_at call fpath st
  at_path call (raised e) st = (error e, st)

  unfoldable pub run_call : (workspace : Text) → FileCall → Disk W → ToolResult × Disk W
  unfolding safe_path run_at
  run_call workspace call st = at_path call (safe_path workspace (path_of call) st.world) st
