-- ===== src/Platform/Record/Examples.antt =====
-- A concrete record.
use apex_exec.Prelude.{◌≡◌, none, some, if◌then◌else◌}
use apex_exec.Prelude.Text.{codes, eq_ignore_case}
use apex_exec.Platform.Record.{DataValue, Record, new, set_field, field, remove_field}
use apex_exec.Platform.Record.Fields.{field_laws}

abbrev acme : Record
acme =
    (set_field (codes "Name") (DataValue.string (codes "Acme"))
      (new (codes "Account") (codes "001"))).0

field_laws_example :
    (field (codes "NAME") (set_field (codes "name") DataValue.null acme).0 ≡ (
      if eq_ignore_case (codes "name") (codes "NAME")
      then some DataValue.null
      else field (codes "NAME") acme))
    × (field (codes "NAME") (remove_field (codes "name") acme).0 ≡ (
        if eq_ignore_case (codes "name") (codes "NAME") then none else field (codes "NAME") acme))
    × ((set_field (codes "name") DataValue.null acme).1 ≡ field (codes "name") acme)
    × ((remove_field (codes "name") acme).1 ≡ field (codes "name") acme)
field_laws_example = field_laws (codes "name") (codes "NAME") DataValue.null acme
