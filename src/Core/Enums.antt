-- ===== src/Core/Enums.antt =====
-- The tables between the names of the SDK and the numbers of api/proto/agent.proto: `_role_to_proto`,
-- `_cog_to_proto` and `_priority_to_proto` of client.py, `_role_from_proto`
-- and `_shutdown_reason` of agent.py.
use hivekernel.Prelude.{
  ℕ, ◌≡◌, ◌∙◌, refl, All, Bool-cases, inl, inr, List, [], ◌∷◌, ◌==◌, if◌then◌else◌, arith,
}
use hivekernel.Prelude.Text.{Text, text, text_eq, text_eq_iff, member}
use hivekernel.Prelude.Dict.{Dict, lookup, lookup_or, keys}

unfoldable pub role_map : Dict ℕ
unfolding text
role_map =
    (text "kernel", 0)
    ∷ (text "daemon", 1)
    ∷ (text "agent", 2)
    ∷ (text "architect", 3)
    ∷ (text "lead", 4)
    ∷ (text "worker", 5)
    ∷ (text "task", 6)
    ∷ []

unfoldable pub cog_map : Dict ℕ
unfolding text
cog_map = (text "strategic", 0) ∷ (text "tactical", 1) ∷ (text "operational", 2) ∷ []

unfoldable pub priority_map : Dict ℕ
unfolding text
priority_map = (text "critical", 0) ∷ (text "high", 1) ∷ (text "normal", 2) ∷ (text "low", 3) ∷ []

unfoldable pub role_to_proto : Text → ℕ
unfolding role_map
role_to_proto role = lookup_or role 6 role_map

unfoldable pub cog_to_proto : Text → ℕ
unfolding cog_map
cog_to_proto cog = lookup_or cog 2 cog_map

unfoldable pub priority_to_proto : Text → ℕ
unfolding priority_map
priority_to_proto p = lookup_or p 2 priority_map

-- `_ROLE_NAMES.get(val, "unknown")`
unfoldable pub role_names : List (ℕ × Text)
unfolding text
role_names =
    (0, text "kernel")
    ∷ (1, text "daemon")
    ∷ (2, text "agent")
    ∷ (3, text "architect")
    ∷ (4, text "lead")
    ∷ (5, text "worker")
    ∷ (6, text "task")
    ∷ []

name_of : ℕ → List (ℕ × Text) → Text
unfolding text
name_of val [] = text "unknown"
name_of val ((n, name) ∷ rest) = if n == val then name else name_of val rest

unfoldable pub role_from_proto : ℕ → Text
unfolding name_of role_names
role_from_proto val = name_of val role_names

-- `_shutdown_reason` of agent.py.
unfoldable pub shutdown_reasons : List (ℕ × Text)
unfolding text
shutdown_reasons =
    (0, text "normal")
    ∷ (1, text "parent_died")
    ∷ (2, text "budget_exceeded")
    ∷ (3, text "migration")
    ∷ (4, text "user_request")
    ∷ []

unfoldable pub shutdown_reason : ℕ → Text
unfolding name_of shutdown_reasons
shutdown_reason val = name_of val shutdown_reasons

-- The entries of a table that are read back as they are.
abbrev ReadBack : Dict ℕ → Type 0
ReadBack d = All (λ (e : Text × ℕ). role_from_proto e.1 ≡ e.0) d

lookup_or-cons :
    (k j : Text) (v w : ℕ) (d : Dict ℕ)
    → lookup_or k v ((j, w) ∷ d) ≡ (if text_eq j k then w else lookup_or k v d)
unfolding lookup lookup_or
lookup_or-cons k j v w d = ground arith

role_from_proto-lookup_or :
    (role : Text) (d : Dict ℕ)
    → ReadBack d
    → role_from_proto (lookup_or role 6 d) ≡ (if member role (keys d) then role else text "task")
unfolding member keys lookup
role_from_proto-lookup_or role [] h = unfold role_from_proto lookup_or in refl
role_from_proto-lookup_or role ((name, n) ∷ d) h = elim (Bool-cases (text_eq name role)) [
  | inl same ↦ rw (lookup_or-cons role name 6 n d, same) (h.0 ∙ (text_eq_iff name role).0 same)
  | inr other ↦ rw (lookup_or-cons role name 6 n d, other) (role_from_proto-lookup_or role d h.1)
]

role_map-ReadBack : ReadBack role_map
unfolding role_map role_from_proto text
role_map-ReadBack = ground arith

-- The kernel's number of a role that the SDK knows is read back as that role, and a name that it does
-- not know comes back as `task`.
role_from_proto-role_to_proto :
    (role : Text)
    → role_from_proto (role_to_proto role)
      ≡ (if member role (keys role_map) then role else text "task")
unfolding role_to_proto
role_from_proto-role_to_proto role = role_from_proto-lookup_or role role_map role_map-ReadBack
