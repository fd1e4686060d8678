-- ===== src/GithubMonitor/Checks.antt =====
-- Two checks of github_monitor.py, one after the other.
use hivekernel.Prelude.{
  arith, refl, Bool, false, ◌||◌, if◌then◌else◌, keep, Option, none, [], ◌∷◌, ◌≡◌, ap, ◌∙◌, some,
  List, map,
}
use hivekernel.Prelude.Text.{Text, text_eq, member}
use hivekernel.Exec.{ok, continue}
use hivekernel.Core.{get_artifact, store_artifact}
use hivekernel.GithubMonitor.{
  Commit, MonitorEnv, MonitorState, commits_url, state_key, current_shas, get_or, new_commits,
  update_of, shas_of, texts_or_none, compare, fetch, check_repo,
}

-- The artifact store is in reach and keeps what was stored, also over a request to GitHub, and the
-- list of SHAs is read back as it was written.
pub record Persists {W : Type 0} (env : MonitorEnv W) : Type 0 where
  pub kept :
      (key content url : Text) (w : W)
      → (env.core.get_artifact key
          (env.http_get_json url (env.core.store_artifact key content w).1).1).0
        ≡ ok content
  pub read_back : (shas : List Text) → env.loads_shas (env.dumps_shas shas) ≡ some shas

module _ {W : Type 0} (env : MonitorEnv W) where
  check_repo_lem :
      (repo : Text) (st : MonitorState W) (commits : List Commit)
      → (env.http_get_json (commits_url repo) st.world).0 ≡ ok (some commits)
      → check_repo env repo st
        ≡ compare env repo
            (some commits)
            (record st { world = (env.http_get_json (commits_url repo) st.world).1 })
  unfolding check_repo fetch
  check_repo_lem repo st commits answered =
      let mid = record st { world = (env.http_get_json (commits_url repo) st.world).1 } in
      ap (λ r. continue r (compare env repo) mid) answered

  -- The state that a check leaves: the SHAs of its answer were stored last.
  world-check_repo :
      (repo : Text) (st : MonitorState W) (commits : List Commit)
      → (env.http_get_json (commits_url repo) st.world).0 ≡ ok (some commits)
      → (check_repo env repo st).1.world
        ≡ (env.core.store_artifact
            (state_key repo)
            (env.dumps_shas (current_shas commits))
            (env.core.get_artifact
              (state_key repo)
              (env.http_get_json (commits_url repo) st.world).1).1).1
  unfolding compare get_artifact store_artifact
  world-check_repo repo st commits answered =
      ap (λ r. r.1.world) (check_repo_lem repo st commits answered)

  found-check_repo :
      (repo : Text) (st : MonitorState W) (commits : List Commit)
      → (env.http_get_json (commits_url repo) st.world).0 ≡ ok (some commits)
      → (check_repo env repo st).0
        ≡ ok (
            map (update_of repo) (
              new_commits
                (shas_of env
                  (env.core.get_artifact
                    (state_key repo)
                    (env.http_get_json (commits_url repo) st.world).1).0)
                commits))
  unfolding compare get_artifact
  found-check_repo repo st commits answered =
      ap (λ r. r.0) (check_repo_lem repo st commits answered)

abbrev has_sha : Option Text → Text → Bool
has_sha none sha = false
has_sha (some own) sha = text_eq own sha

-- Some commit of the list has the SHA.
abbrev pub is_known : List Commit → Text → Bool
is_known [] sha = false
is_known (c ∷ cs) sha = has_sha c.sha sha || is_known cs sha

member-current_shas :
    (sha : Text) (cs : List Commit) → member sha (current_shas cs) ≡ is_known cs sha
unfolding current_shas member
member-current_shas sha [] = refl
member-current_shas sha (c ∷ cs) = ground (arith, member-current_shas sha cs, c.sha)

-- The unknown commits of a list, in their order.
abbrev pub unknown_of : List Commit → List Commit → List Commit
unknown_of earlier [] = []
unknown_of earlier (c ∷ cs) =
    if is_known earlier (get_or [] c.sha) then unknown_of earlier cs else c ∷ unknown_of earlier cs

new_commits_lem :
    (earlier later : List Commit)
    → new_commits (current_shas earlier) later ≡ unknown_of earlier later
unfolding new_commits keep
new_commits_lem earlier [] = refl
new_commits_lem earlier (c ∷ cs) =
    ground (arith, new_commits_lem earlier cs, member-current_shas (get_or [] c.sha) earlier)

module _ {W : Type 0} (env : MonitorEnv W) (persists : Persists env) where
  -- A check that follows a check of the same repository reports exactly the commits of GitHub's later
  -- answer whose SHA no commit of the earlier answer has, in the order of the later answer; the SHA of
  -- a commit without one counts as empty there, and as none in the earlier answer.
  pub check_repo-again :
      (repo : Text) (st : MonitorState W) (earlier later : List Commit)
      → (env.http_get_json (commits_url repo) st.world).0 ≡ ok (some earlier)
      → (env.http_get_json (commits_url repo) (check_repo env repo st).1.world).0 ≡ ok (some later)
      → (check_repo env repo (check_repo env repo st).1).0
        ≡ ok (map (update_of repo) (unknown_of earlier later))
  check_repo-again repo st earlier later first second =
      let key = state_key repo in
      let url = commits_url repo in
      let content = env.dumps_shas (current_shas earlier) in
      let known : shas_of env
            (env.core.get_artifact key (env.http_get_json url (check_repo env repo st).1.world).1).0
          ≡ current_shas earlier =
        ap (λ w. shas_of env (env.core.get_artifact key (env.http_get_json url w).1).0)
          (world-check_repo env repo st earlier first)
        ∙ ap (shas_of env) (persists.kept key content url _)
        ∙ ap texts_or_none (persists.read_back (current_shas earlier)) in
      found-check_repo env repo (check_repo env repo st).1 later second
      ∙ ap (λ shas. ok (map (update_of repo) (new_commits shas later))) known
      ∙ ap (λ cs. ok (map (update_of repo) cs)) (new_commits_lem earlier later)
