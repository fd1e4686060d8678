-- ===== src/GithubMonitor.antt =====
-- sdk/python/hivekernel_sdk/github_monitor.py: `GitHubMonitorAgent`, which reports the commits of a
-- repository that its last check did not see. The HTTP request is a parameter.
pub mod Checks
mod Witnesses
use hivekernel.Prelude.{
  Bool, not, Option, none, some, List, [], ◌∷◌, ◌++◌, length, keep, map, take, if◌then◌else◌,
}
use hivekernel.Prelude.Text.{Text, text, truthy, member, split_on, join_lines, join_with}
use hivekernel.Prelude.Dict.{Dict, lookup_or}
use hivekernel.Prelude.Decimal.{show}
use hivekernel.Exec.{Result, ok, raised, Exec, pure, suppress, continue, ◌>>=◌, ◌>>◌}
use hivekernel.Core.{Core, Session, TaskOutput, get_artifact, store_artifact, escalate, log}

-- A commit as GitHub answers it, with the fields that the monitor looks at, which may be missing.
pub record Commit : Type 0 where
  pub sha : Option Text
  pub message : Option Text
  pub author : Option Text
  pub date : Option Text

pub record Update : Type 0 where
  pub repo : Text
  pub sha : Text
  pub message : Text
  pub author : Text
  pub date : Text

pub record Task : Type 0 where
  pub params : Dict Text

-- The request answers with a list of commits, with something else, or it raises. `json` reads and
-- writes the lists of the state.
pub record MonitorEnv (W : Type 0) : Type 0 where
  pub core : Core W
  pub http_get_json : Text → W → Result (Option (List Commit)) × W
  pub loads_shas : Text → Option (List Text)
  pub dumps_shas : List Text → Text
  pub loads_repos : Text → Option (List Text)
  pub dumps_updates : List Update → Text

abbrev pub MonitorState : Type 0 → Type 0
MonitorState W = Session (Unit {0}) W

unfoldable pub default_repos : List Text
default_repos = text "Selemilka/hivekernel" ∷ []

unfoldable pub commits_url : Text → Text
commits_url repo = text "https://api.github.com/repos/" ++ (repo ++ text "/commits?per_page=5")

unfoldable pub state_key : Text → Text
state_key repo = text "github/state/" ++ repo

abbrev pub get_or : Text → Option Text → Text
get_or default none = default
get_or default (some s) = s

unfoldable pub new_commits : List Text → List Commit → List Commit
new_commits known commits = keep (λ (c : Commit). not (member (get_or [] c.sha) known)) commits

abbrev cons_some : Option Text → List Text → List Text
cons_some none shas = shas
cons_some (some sha) shas = sha ∷ shas

unfoldable pub current_shas : List Commit → List Text
current_shas [] = []
current_shas (c ∷ commits) = cons_some c.sha (current_shas commits)

abbrev first_line : List Text → Text
first_line [] = []
first_line (l ∷ lines) = l

unfoldable pub update_of : Text → Commit → Update
update_of repo c = record {
  repo = repo;
  sha = take 7 (get_or [] c.sha);
  message = first_line (split_on 10 (get_or [] c.message));
  author = get_or (text "unknown") c.author;
  date = get_or [] c.date;
}

update_line : Update → Text
update_line u =
    text "  ["
    ++ (u.repo
        ++ (text "] "
            ++ (u.sha ++ (text " - " ++ (u.message ++ (text " (" ++ (u.author ++ text ")")))))))

unfoldable pub format_updates : List Update → Text
unfolding update_line
format_updates updates = join_lines (
    (text "Found " ++ (show (length updates) ++ text " new commit(s):"))
    ∷ []
    ∷ map update_line updates)

abbrev pub texts_or_none : Option (List Text) → List Text
texts_or_none none = []
texts_or_none (some shas) = shas

module _ {W : Type 0} (env : MonitorEnv W) where
  -- The SHAs of the last check: none where the artifact is missing or cannot be read.
  abbrev pub shas_of : Result Text → List Text
  shas_of (ok content) = texts_or_none (env.loads_shas content)
  shas_of (raised e) = []

  unfoldable pub compare : Text → Option (List Commit) → Exec (MonitorState W) (List Update)
  compare repo none st = (ok [], st)
  compare repo (some commits) st =
      let (r, st1) = get_artifact env.core (state_key repo) st in
      let (stored, st2) =
        store_artifact env.core (state_key repo) (env.dumps_shas (current_shas commits)) st1 in
      (ok (map (update_of repo) (new_commits (shas_of r) commits)), st2)

  unfoldable pub fetch : Text → Exec (MonitorState W) (Option (List Commit))
  fetch repo st =
      let (r, world) = env.http_get_json (commits_url repo) st.world in
      (r, record st { world = world })

  unfoldable pub check_repo : Text → Exec (MonitorState W) (List Update)
  unfolding compare fetch
  check_repo repo = fetch repo >>= compare repo

  abbrev pub add_checked :
      Text → Result (List Update) → List Update × List Text → List Update × List Text
  add_checked repo (ok found) (updates, errors) = (found ++ updates, errors)
  add_checked repo (raised e) (updates, errors) = (updates, (repo ++ (text ": " ++ e)) ∷ errors)

  -- The loop over the repositories, with what was found and what failed.
  unfoldable pub check_all : List Text → MonitorState W → (List Update × List Text) × MonitorState W
  unfolding check_repo
  check_all [] st = (([], []), st)
  check_all (repo ∷ repos) st =
      let (r, st1) = check_repo repo st in
      let (rest, st2) = check_all repos st1 in (add_checked repo r rest, st2)

  unfoldable pub repos_of : Task → List Text
  repos_of task =
      let raw = lookup_or (text "repos") [] task.params in
      let single = lookup_or (text "repo") [] task.params in
      if truthy raw
      then elim (env.loads_repos raw) [ none ↦ raw ∷ [] | some repos ↦ repos ]
      else if truthy single
      then single ∷ []
      else default_repos

  abbrev pub done : Text → TaskOutput
  done output = record { exit_code = 0; output = output; artifacts = []; metadata = [] }

  unfoldable pub no_updates : List Text → Text
  no_updates [] = text "No new updates"
  no_updates (e ∷ errors) =
      text "No new updates (errors: " ++ (join_with (text "; ") (e ∷ errors) ++ text ")")

  unfoldable pub report : List Update × List Text → Exec (MonitorState W) TaskOutput
  unfolding no_updates
  report ([], errors) =
      log env.core (text "info") (no_updates errors) >> pure (done (no_updates errors))
  report (u ∷ updates, errors) = do
    escalate env.core
        (text "GitHub updates: " ++ (show (length (u ∷ updates)) ++ text " new commit(s)"))
    store_artifact env.core (text "github/latest-updates") (env.dumps_updates (u ∷ updates))
    log env.core (text "info")
        (text "GitMonitor found " ++ (show (length (u ∷ updates)) ++ text " new commit(s)"))
    pure (done (format_updates (u ∷ updates)))

  unfoldable pub handle_task : Task → Exec (MonitorState W) TaskOutput
  unfolding check_all report
  handle_task task =
      log env.core (text "info") (
        text "GitMonitor checking "
        ++ (show (length (repos_of task))
            ++ (text " repo(s): " ++ join_with (text ", ") (repos_of task))))
      >> λ st. let (checked, st') = check_all (repos_of task) st in report checked st'
