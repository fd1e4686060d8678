-- ===== src/Core/Witnesses.antt =====
-- Tests of the enum tables of client.py and agent.py.
use hivekernel.Prelude.{◌≡◌, refl}
use hivekernel.Prelude.Text.{text}
use hivekernel.Prelude.Dict.{lookup, lookup_or}
use hivekernel.Core.Enums.{
  role_to_proto, cog_to_proto, priority_to_proto, role_from_proto, shutdown_reason,
}

test_defaults :
    (role_to_proto (text "queen") ≡ 6)
    × (cog_to_proto (text "") ≡ 2)
    × (priority_to_proto (text "urgent") ≡ 2)
    × (role_from_proto 7 ≡ text "unknown")
unfolding role_to_proto cog_to_proto priority_to_proto role_from_proto text lookup_or lookup
test_defaults = (refl, refl, refl, refl)

test_shutdown : (shutdown_reason 3 ≡ text "migration") × (shutdown_reason 9 ≡ text "unknown")
unfolding shutdown_reason text
test_shutdown = (refl, refl)
