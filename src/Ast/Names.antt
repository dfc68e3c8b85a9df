-- ===== src/Ast/Names.antt =====
-- The names of the types of src/ast.rs.
use apex_exec.Prelude.{◌≡◌, refl, Bool, true, false, some}
use apex_exec.Ast.Types
use apex_exec.Ast.Types.{TypeName, from_apex_name, apex_name}

-- A type that has neither a name of the program's own nor an argument.
abbrev pub is_builtin : TypeName → Bool
is_builtin (Types.custom name) = false
is_builtin (Types.list element) = false
is_builtin (Types.set element) = false
is_builtin (Types.iterable element) = false
is_builtin (Types.map key value) = false
is_builtin _ = true

-- The name under which a builtin type is printed is read back as the type.
pub from_apex_name-apex_name :
    (ty : TypeName) → is_builtin ty ≡ true → from_apex_name (apex_name ty) ≡ some ty
unfolding from_apex_name apex_name
from_apex_name-apex_name (Types.custom name) h = cc
from_apex_name-apex_name (Types.list element) h = cc
from_apex_name-apex_name (Types.set element) h = cc
from_apex_name-apex_name (Types.iterable element) h = cc
from_apex_name-apex_name (Types.map key value) h = cc
from_apex_name-apex_name _ h = refl
