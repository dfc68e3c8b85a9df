-- ===== src/Platform/Record/Fields.antt =====
-- A record as a map from names up to case.
use apex_exec.Prelude.{◌≡◌, refl, none, some, if◌then◌else◌}
use apex_exec.Prelude.Text.{Text, lowercase, eq_ignore_case}
use apex_exec.Prelude.Map.{text_key, get-insert, get-remove}
use apex_exec.Platform.Record.{DataValue, Record, set_field, field, remove_field}

-- After a field is set, a name reads the value if it is the same up to ASCII case and what it read
-- before otherwise; after a field is removed, such a name reads nothing and another reads what it
-- did. Both calls return the value that the name had.
pub field_laws :
    (name other : Text) (value : DataValue) (r : Record)
    → (field other (set_field name value r).0
        ≡ (if eq_ignore_case name other then some value else field other r))
      × (field other (remove_field name r).0
          ≡ (if eq_ignore_case name other then none else field other r))
      × ((set_field name value r).1 ≡ field name r)
      × ((remove_field name r).1 ≡ field name r)
unfolding field set_field remove_field eq_ignore_case
field_laws name other value r = (
  get-insert (lowercase name) (lowercase other) value r.fields,
  get-remove (lowercase name) (lowercase other) r.fields,
  refl,
  refl,
)
