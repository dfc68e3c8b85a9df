-- ===== src/Diagnostic/Examples.antt =====
-- A concrete exception name.
use apex_exec.Prelude.{◌≡◌}
use apex_exec.Prelude.Text.{codes, lowercase}
use apex_exec.Diagnostic.{from_apex_name, apex_name}
use apex_exec.Diagnostic.Kinds.{apex_name-from_apex_name}

apex_name-from_apex_name_example :
    lowercase (apex_name (from_apex_name (codes "mathEXCEPTION")))
    ≡ lowercase (codes "mathEXCEPTION")
apex_name-from_apex_name_example = apex_name-from_apex_name (codes "mathEXCEPTION")
