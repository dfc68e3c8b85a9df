-- ===== src/Ast/Examples.antt =====
-- A builtin type, and its two names.
use apex_exec.Prelude.{◌≡◌, refl, some}
use apex_exec.Prelude.Text.{codes}
use apex_exec.Ast.Types
use apex_exec.Ast.Types.{from_apex_name, apex_name}
use apex_exec.Ast.Names.{from_apex_name-apex_name}

from_apex_name-apex_name_example :
    from_apex_name (apex_name Types.save_result) ≡ some Types.save_result
from_apex_name-apex_name_example = from_apex_name-apex_name Types.save_result refl

short_name : from_apex_name (codes "SaveResult") ≡ some Types.save_result
unfolding from_apex_name
short_name = refl
