-- ===== src/Migrations/Tests.antt =====
-- The migration on an empty database, and a second time after a downgrade.
use multi_tenant_saas.Base.{◌≡◌, refl, Option, none, some, []}
use multi_tenant_saas.Migrations.{Schema, apply, run}
use multi_tenant_saas.Migrations.Core.{upgrade, downgrade}
use multi_tenant_saas.Migrations.Undo.{IsClosed}
use multi_tenant_saas.Migrations.RoundTrip.{upgrade-downgrade}

abbrev nothing_there : Schema
nothing_there = record { tables = []; indexes = []; enums = [] }

abbrev schema_or_empty : Option Schema → Schema
schema_or_empty none = nothing_there
schema_or_empty (some s) = s

abbrev upgraded : Schema
upgraded = schema_or_empty (run upgrade nothing_there)

upgrade_result : run upgrade nothing_there ≡ some upgraded
unfolding run apply
upgrade_result = refl

nothing_there-IsClosed : IsClosed nothing_there
nothing_there-IsClosed = record { indexed = λ i j. elim j [ ]; targets = λ t j k own. elim j [ ] }

upgrade-downgrade_example :
    run downgrade upgraded ≡ some (record nothing_there { enums = upgraded.enums })
upgrade-downgrade_example =
    upgrade-downgrade nothing_there upgraded nothing_there-IsClosed upgrade_result

-- The enum types are in the way of a second upgrade.
second_upgrade : run upgrade (record nothing_there { enums = upgraded.enums }) ≡ none
unfolding run apply
second_upgrade = refl
