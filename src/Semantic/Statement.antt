-- ===== src/Semantic/Statement.antt =====
-- The statements of src/ast.rs. Spans, names and types of declared variables are left out; an
-- expression is a parameter, since the modelled passes only ask where it stands.
use apex_exec.Prelude.{String, Option, List}

-- `TypeName`, as a catch clause is asked about it: `Exception`, or any other type by its name.
pub data TypeName : Type 0 where
  exception : TypeName
  named : String → TypeName

mutual
  pub data Statement (E : Type 0) : Type 0 where
    variable_declaration : E → Statement E
    local_declaration : List (Option E) → Statement E
    sequence : Statements E → Statement E
    expression : E → Statement E
    block : Statements E → Statement E
    if_else : E → Statement E → OptStatement E → Statement E
    while : E → Statement E → Statement E
    do_while : Statement E → E → Statement E
    switch : E → Statements E → Statement E
    for : OptStatement E → Option E → OptStatement E → Statement E → Statement E
    for_each : E → Statement E → Statement E
    break : Statement E
    continue : Statement E
    try : Statement E → Catches E → OptStatement E → Statement E
    throw : E → Statement E
    run_as : E → Statement E → Statement E
    dml : E → Statement E
    return : Option E → Statement E

  -- `Vec<Statement>`
  pub data Statements (E : Type 0) : Type 0 where
    end : Statements E
    next : Statement E → Statements E → Statements E

  -- `Option<Box<Statement>>`
  pub data OptStatement (E : Type 0) : Type 0 where
    absent : OptStatement E
    present : Statement E → OptStatement E

  -- `Vec<CatchClause>`
  pub data Catches (E : Type 0) : Type 0 where
    no_catches : Catches E
    catch : TypeName → Statement E → Catches E → Catches E
