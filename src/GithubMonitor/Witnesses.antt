-- ===== src/GithubMonitor/Witnesses.antt =====
-- Tests of github_monitor.py, and its theorem at a store of one artifact.
use hivekernel.Prelude.{
  ℕ, zero, suc, ◌+◌, ◌≡◌, refl, ap, ◌∙◌, none, some, List, [], ◌∷◌, ◌==◌, map, keep, if◌then◌else◌,
}
use hivekernel.Prelude.Text.{Text, text, member}
use hivekernel.Exec.{ok, raised}
use hivekernel.Core.{Core, store_artifact, get_artifact}
use hivekernel.GithubMonitor.{
  Commit, MonitorEnv, MonitorState, check_repo, new_commits, current_shas, update_of,
}
use hivekernel.GithubMonitor.Checks.{Persists, unknown_of, check_repo-again}

-- A list of texts as one text: a 1 before each character and a 0 behind each text.
abbrev mark : Text → Text → Text
mark [] rest = 0 ∷ rest
mark (c ∷ s) rest = 1 ∷ c ∷ mark s rest

abbrev write : List Text → Text
write [] = []
write (s ∷ ss) = mark s (write ss)

abbrev extend_first : ℕ → List Text → List Text
extend_first c [] = []
extend_first c (s ∷ ss) = (c ∷ s) ∷ ss

abbrev read : Text → List Text
read [] = []
read (zero ∷ t) = [] ∷ read t
read (suc n ∷ []) = []
read (suc n ∷ c ∷ t) = extend_first c (read t)

read-mark : (s rest : Text) → read (mark s rest) ≡ s ∷ read rest
read-mark [] rest = refl
read-mark (c ∷ s) rest = ap (extend_first c) (read-mark s rest)

read-write : (ss : List Text) → read (write ss) ≡ ss
read-write [] = refl
read-write (s ∷ ss) = read-mark s (write ss) ∙ ap (λ t. s ∷ t) (read-write ss)

-- The artifact, and the number of requests so far.
record World : Type 0 where
  artifact : Text
  requests : ℕ

abbrev core : Core World
core = record {
  spawn_child = λ req w. (raised [], w);
  kill_child = λ pid w. (ok tt, w);
  get_process_info = λ pid w. (raised [], w);
  execute_task = λ req w. (raised [], w);
  log = λ level message w. (ok tt, w);
  store_artifact = λ key content w. (ok tt, record w { artifact = content });
  get_artifact = λ key w. (ok w.artifact, w);
  send_message = λ req w. (ok tt, w);
  report_progress = λ message w. (ok tt, w);
  escalate = λ issue w. (ok [], w);
  list_siblings = λ w. (ok [], w);
  add_cron = λ req w. (raised [], w);
  uuid = λ w. ([], w);
  time = λ w. w.requests;
}

abbrev commit : Text → Commit
commit sha = record { sha = some sha; message = some (text "fix"); author = none; date = none }

abbrev earlier : List Commit
earlier = commit (text "b2") ∷ commit (text "a1") ∷ []

abbrev later : List Commit
later = commit (text "c3") ∷ commit (text "b2") ∷ []

abbrev env : MonitorEnv World
env = record {
  core = core;
  http_get_json = λ url w. (
    ok (some (if w.requests == 0 then earlier else later)),
    record w { requests = w.requests + 1 },
  );
  loads_shas = λ s. some (read s);
  dumps_shas = write;
  loads_repos = λ s. none;
  dumps_updates = λ updates. [];
}

env-Persists : Persists env
env-Persists = record {
  kept = λ key content url w. refl;
  read_back = λ shas. ap some (read-write shas);
}

abbrev begin : MonitorState World
begin = record { agent = tt; world = record { artifact = []; requests = 0 }; calls = [] }

second_request :
    (env.http_get_json (text "") (check_repo env (text "r") begin).1.world).0 ≡ ok (some later)
unfolding check_repo store_artifact get_artifact
second_request = refl

check_repo-again_example :
    (check_repo env (text "r") (check_repo env (text "r") begin).1).0
    ≡ ok (map (update_of (text "r")) (unknown_of earlier later))
check_repo-again_example =
    check_repo-again env env-Persists (text "r") begin earlier later refl second_request

-- The second check reports one commit.
test_new : new_commits (current_shas earlier) later ≡ commit (text "c3") ∷ []
unfolding new_commits current_shas keep member text
test_new = refl
