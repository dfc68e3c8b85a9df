-- ===== src/Platform/Record.antt =====
-- `DataValue` and `Record` of src/platform/storage.rs: fields are found whatever their ASCII case.
pub mod Fields
mod Examples
use apex_exec.Prelude.{Bool, Option, none, some, List, [], ◌∷◌}
use apex_exec.Prelude.Int.{ℤ}
use apex_exec.Prelude.Text.{Text, lowercase}
use apex_exec.Prelude.Map.{Map, get, insert, remove, text_key}

pub data DataValue : Type 0 where
  null : DataValue
  boolean : Bool → DataValue
  integer : ℤ → DataValue
  string : Text → DataValue
  date datetime : ℤ → DataValue
  id : Text → DataValue

pub record Record : Type 0 where
  pub object_api_name : Text
  pub id : Text
  pub fields : Map Text DataValue

unfoldable pub new : Text → Text → Record
new object_api_name record_id = record {
  object_api_name = object_api_name;
  id = record_id;
  fields = [];
}

abbrev pub canonical_name : Text → Text
canonical_name name = lowercase name

-- The value that was there is returned beside the record.
unfoldable pub set_field : Text → DataValue → Record → Record × Option DataValue
set_field name value r = (
  record r { fields = insert (canonical_name name) value r.fields },
  get (canonical_name name) r.fields,
)

unfoldable pub field : Text → Record → Option DataValue
field name r = get (canonical_name name) r.fields

unfoldable pub remove_field : Text → Record → Record × Option DataValue
remove_field name r = (
  record r { fields = remove (canonical_name name) r.fields },
  get (canonical_name name) r.fields,
)
