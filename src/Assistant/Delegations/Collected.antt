-- ===== src/Assistant/Delegations/Collected.antt =====
-- Which delegations of the assistant are still in flight after the mailbox was emptied.
use hivekernel.Prelude.{ℕ, Option, none, some, List, map, keep, if◌then◌else◌}
use hivekernel.Prelude.Text.{Text}
use hivekernel.Prelude.Dict.{Dict}
use hivekernel.Assistant.Delegations.{Delegation, is_stale}

-- A delegation that is not stale.
abbrev pub if_fresh : ℕ → Option Delegation → Option Delegation
if_fresh now none = none
if_fresh now (some d) = if is_stale now d then none else some d

pub stale_ids : ℕ → Dict Delegation → List Text
stale_ids now active =
    map (λ (e : Text × Delegation). e.0) (keep (λ (e : Text × Delegation). is_stale now e.1) active)
