-- ===== src/Assistant/Siblings.antt =====
-- The names of the siblings in `handle_task` of assistant.py, and the search for the PID of a name.
use hivekernel.Prelude.{
  ℕ, zero, suc, not, ◌&&◌, Option, none, some, List, [], ◌∷◌, ◌++◌, ◌==◌, map, if◌then◌else◌,
}
use hivekernel.Prelude.Text.{Text, text, truthy, lower, contains, split_on, join_lines}
use hivekernel.Prelude.Dict.{Dict, lookup, insert}
use hivekernel.Prelude.Decimal.{show}
use hivekernel.Core.{Sibling}

abbrev first_part : List Text → Text
first_part [] = []
first_part (s ∷ parts) = s

-- `name.split("@")[0]`
unfoldable pub short_name : Text → Text
short_name name = first_part (split_on b'@' name)

-- `if k not in d: d[k] = v`
unfoldable pub insert_new : Text → ℕ → Dict ℕ → Dict ℕ
insert_new k v d = elim (lookup k d) [ none ↦ insert k v d | some w ↦ d ]

unfoldable pub add_siblings : List Sibling → Dict ℕ → Dict ℕ
unfolding short_name insert_new
add_siblings [] d = d
add_siblings (s ∷ more) d =
    add_siblings more (insert_new (short_name s.name) s.pid (insert s.name s.pid d))

-- `{**d, **e}`
unfoldable pub merge : Dict ℕ → Dict ℕ → Dict ℕ
merge d [] = d
merge d ((k, v) ∷ e) = merge (insert k v d) e

-- The agent itself is among the targets, if it has a PID and a name.
unfoldable pub with_self : Text → ℕ → Dict ℕ → Dict ℕ
unfolding short_name insert_new
with_self name pid d =
    if not (pid == 0) && truthy name
    then insert_new (short_name name) pid (insert name pid d)
    else d

-- `if not target_pid`: no PID, or 0.
abbrev pub nonzero : Option ℕ → Option ℕ
nonzero none = none
nonzero (some zero) = none
nonzero (some (suc n)) = some (suc n)

unfoldable pub partial_match : Text → Dict ℕ → Option ℕ
partial_match target [] = none
partial_match target ((name, pid) ∷ d) =
    let rest = partial_match target d in
    if contains (lower target) (lower name) then some pid else rest

abbrev pub or_else : Option ℕ → Option ℕ → Option ℕ
or_else none o = o
or_else (some n) o = some n

unfoldable pub resolve : Text → Dict ℕ → Option ℕ
unfolding partial_match
resolve target pids = or_else (nonzero (lookup target pids)) (nonzero (partial_match target pids))

unfoldable pub sibling_line : Sibling → Text
sibling_line s =
    text "  - "
    ++ (s.name
        ++ (text " (PID "
            ++ (show s.pid
                ++ (text ", role=" ++ (s.role ++ (text ", state=" ++ (s.state ++ text ")")))))))

unfoldable pub sibling_context : List Sibling → Text
unfolding sibling_line
sibling_context [] = []
sibling_context (s ∷ more) =
    join_lines (text "Available sibling agents:" ∷ map sibling_line (s ∷ more)) ++ (10 ∷ 10 ∷ [])
