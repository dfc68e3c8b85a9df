-- ===== src/Ast/Expression.antt =====
-- The expressions of src/ast.rs, over the queries, which are a parameter with their spans.
use apex_exec.Prelude.{Bool}
use apex_exec.Prelude.Int.{ℤ}
use apex_exec.Prelude.Text.{Text}
use apex_exec.Span.{Span}
use apex_exec.Runtime.Numeric.Operators.{BinaryOperator}
use apex_exec.Ast.Types.{Identifier, TypeName}

pub data UnaryOperator : Type 0 where
  positive negate not bitwise_not prefix_increment prefix_decrement : UnaryOperator

pub data PostfixOperator : Type 0 where
  increment decrement : PostfixOperator

pub data AssignmentOperator : Type 0 where
  assign add_assign subtract_assign multiply_assign divide_assign remainder_assign and_assign
        or_assign xor_assign shift_left_assign shift_right_assign unsigned_shift_right_assign :
      AssignmentOperator

mutual
  pub data Expression (Q : Type 0) : Type 0 where
    string_literal decimal_literal : Text → Span → Expression Q
    boolean_literal : Bool → Span → Expression Q
    integer_literal long_literal : ℤ → Span → Expression Q
    null_literal : Span → Expression Q
    query : Q → Span → Expression Q
    variable : Identifier → Expression Q
    type_literal : TypeName → Span → Expression Q
    assignment : AssignmentTarget Q → AssignmentOperator → Span → Expression Q → Span → Expression Q
    new_collection : TypeName → CollectionInitializer Q → Span → Expression Q
    new_exception new_object : TypeName → Expressions Q → Span → Expression Q
    index : Expression Q → Expression Q → Span → Expression Q
    function_call : Identifier → Expressions Q → Span → Expression Q
    method_call : Expression Q → Identifier → Expressions Q → Bool → Span → Span → Expression Q
    member_access : Expression Q → Identifier → Bool → Span → Span → Expression Q
    cast : TypeName → Expression Q → Span → Expression Q
    conditional : Expression Q → Expression Q → Expression Q → Span → Span → Expression Q
    null_coalesce : Expression Q → Expression Q → Span → Span → Expression Q
    instanceof : Expression Q → TypeName → Span → Span → Span → Expression Q
    unary : UnaryOperator → Expression Q → Span → Span → Expression Q
    postfix : Expression Q → PostfixOperator → Span → Span → Expression Q
    binary : Expression Q → BinaryOperator → Expression Q → Span → Span → Expression Q

  -- `Vec<Expression>`
  pub data Expressions (Q : Type 0) : Type 0 where
    no_expressions : Expressions Q
    expression : Expression Q → Expressions Q → Expressions Q

  pub data AssignmentTarget (Q : Type 0) : Type 0 where
    variable_target : Identifier → AssignmentTarget Q
    index_target : Expression Q → Expression Q → Span → AssignmentTarget Q
    member_target : Expression Q → Identifier → Span → AssignmentTarget Q

  pub data CollectionInitializer (Q : Type 0) : Type 0 where
    arguments elements : Expressions Q → CollectionInitializer Q
    map_entries : MapEntries Q → CollectionInitializer Q
    sized_array : Expression Q → CollectionInitializer Q

  -- `Vec<MapEntry>`
  pub data MapEntries (Q : Type 0) : Type 0 where
    no_entries : MapEntries Q
    map_entry : Expression Q → Expression Q → Span → MapEntries Q → MapEntries Q

-- `Expression::span`
unfoldable pub span_of : {Q : Type 0} → Expression Q → Span
span_of (string_literal value span) = span
span_of (decimal_literal value span) = span
span_of (boolean_literal value span) = span
span_of (integer_literal value span) = span
span_of (long_literal value span) = span
span_of (null_literal span) = span
span_of (query q span) = span
span_of (variable identifier) = identifier.span
span_of (type_literal ty span) = span
span_of (assignment target operator operator_span value span) = span
span_of (new_collection ty initializer span) = span
span_of (new_exception ty args span) = span
span_of (new_object ty args span) = span
span_of (index collection position span) = span
span_of (function_call name args span) = span
span_of (method_call receiver method args safe_navigation navigation_span span) = span
span_of (member_access receiver member safe_navigation navigation_span span) = span
span_of (cast ty operand span) = span
span_of (conditional condition when_true when_false question_span span) = span
span_of (null_coalesce left right operator_span span) = span
span_of (instanceof value target target_span operator_span span) = span
span_of (unary operator operand operator_span span) = span
span_of (postfix operand operator operator_span span) = span
span_of (binary left operator right operator_span span) = span

-- `AssignmentTarget::span`
abbrev pub target_span : {Q : Type 0} → AssignmentTarget Q → Span
target_span (variable_target identifier) = identifier.span
target_span (index_target collection position span) = span
target_span (member_target receiver member span) = span
