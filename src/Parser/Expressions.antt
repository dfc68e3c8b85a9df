-- ===== src/Parser/Expressions.antt =====
-- src/parser/expressions.rs: the levels of precedence, from the operators that bind most to the
-- assignments, and the recursion between them. The recursion runs on fuel, of which there is one
-- more than there are tokens.
use apex_exec.Prelude.{ℕ, zero, suc, true, false, Option, none, some, List, [], ◌∷◌, if◌then◌else◌}
use apex_exec.Prelude.Text.{codes}
use apex_exec.Diagnostic
use apex_exec.Lexer.Token
use apex_exec.Lexer.Token.{Token, TokenKind, same_variant}
use apex_exec.Runtime.Numeric.Operators
use apex_exec.Runtime.Numeric.Operators.{BinaryOperator}
use apex_exec.Ast.Expression
use apex_exec.Ast.Expression.{
  Expression, AssignmentOperator, AssignmentTarget, span_of, target_span,
}
use apex_exec.Parser.{M, ◌>>=◌, ◌>>◌, pure, fail, current, advance, check, expect_simple}
use apex_exec.Parser.Types.{merge, out_of_fuel, with_fuel}
use apex_exec.Parser.TypeNames.{parse_type_name}
use apex_exec.Parser.Primary.{Recursion, Queries}
use apex_exec.Parser.Operand.{parse_unary}

abbrev pub OperatorTable : Type 0
OperatorTable = List (TokenKind × BinaryOperator)

-- `operators.iter().find(|(kind, _)| self.check(kind))`, at the kind of the current token.
unfoldable pub find_operator : OperatorTable → TokenKind → Option BinaryOperator
find_operator [] found = none
find_operator ((kind, operator) ∷ operators) found =
    if same_variant found kind then some operator else find_operator operators found

abbrev pub equality_operators : OperatorTable
equality_operators =
    (Token.equal_equal, Operators.equal) ∷ (Token.bang_equal, Operators.not_equal) ∷ []

abbrev pub comparison_operators : OperatorTable
comparison_operators =
    (Token.less, Operators.less)
    ∷ (Token.less_equal, Operators.less_equal)
    ∷ (Token.greater, Operators.greater)
    ∷ (Token.greater_equal, Operators.greater_equal)
    ∷ []

abbrev pub shift_operators : OperatorTable
shift_operators =
    (Token.shift_left, Operators.shift_left_op)
    ∷ (Token.shift_right, Operators.shift_right_op)
    ∷ (Token.unsigned_shift_right, Operators.unsigned_shift_right_op)
    ∷ []

abbrev pub term_operators : OperatorTable
term_operators = (Token.plus, Operators.add) ∷ (Token.minus, Operators.subtract) ∷ []

abbrev pub factor_operators : OperatorTable
factor_operators =
    (Token.star, Operators.multiply)
    ∷ (Token.slash, Operators.divide)
    ∷ (Token.percent, Operators.remainder)
    ∷ []

module _ {Q : Type 0} where
  -- One more operator and its right operand, taken by `next`.
  abbrev pub binary_step : M (Expression Q) → BinaryOperator → Expression Q → M (Expression Q)
  binary_step next operator left = do
    token ← advance
    right ← next
    span ← merge (span_of left) (span_of right)
    pure (Expression.binary left operator right token.span span)

  -- The loop of `parse_binary_level`.
  unfoldable pub binary_from :
      M (Expression Q) → OperatorTable → ℕ → Expression Q → M (Expression Q)
  unfolding find_operator
  binary_from next operators zero left = out_of_fuel
  binary_from next operators (suc fuel) left = do
    token ← current
    elim (find_operator operators token.kind) [
      | none ↦ pure left
      | some operator ↦ do
        longer ← binary_step next operator left
        binary_from next operators fuel longer
    ]

  unfoldable pub parse_binary_level : M (Expression Q) → OperatorTable → M (Expression Q)
  unfolding binary_from
  parse_binary_level next operators = do
    expression ← next
    with_fuel (λ fuel. binary_from next operators fuel expression)

  abbrev pub instanceof_step : Expression Q → M (Expression Q)
  unfolding span_of
  instanceof_step value = do
    operator ← advance
    (target, target_span) ← parse_type_name
    span ← merge (span_of value) target_span
    pure (Expression.instanceof value target target_span operator.span span)

  -- The loop of `parse_comparison`.
  unfoldable pub comparison_from : M (Expression Q) → ℕ → Expression Q → M (Expression Q)
  unfolding find_operator
  comparison_from next zero left = out_of_fuel
  comparison_from next (suc fuel) left = do
    is_test ← check Token.instanceof_keyword
    elim is_test [
      | true ↦ do longer ← instanceof_step left; comparison_from next fuel longer
      | false ↦ do
        token ← current
        elim (find_operator comparison_operators token.kind) [
          | none ↦ pure left
          | some operator ↦ do
            longer ← binary_step next operator left
            comparison_from next fuel longer
        ]
    ]

  -- The loop of `parse_null_coalescing`.
  unfoldable pub coalescing_from : M (Expression Q) → ℕ → Expression Q → M (Expression Q)
  coalescing_from next zero left = out_of_fuel
  coalescing_from next (suc fuel) left = do
    found ← check Token.null_coalesce
    elim found [
      | false ↦ pure left
      | true ↦ do
        operator ← advance
        right ← next
        span ← merge (span_of left) (span_of right)
        coalescing_from next fuel (Expression.null_coalesce left right operator.span span)
    ]

module _ {Q : Type 0} (queries : Queries Q) (self : Recursion Q) where
  unfoldable pub parse_factor : M (Expression Q)
  unfolding parse_binary_level parse_unary
  parse_factor = parse_binary_level (parse_unary queries self) factor_operators

  unfoldable pub parse_term : M (Expression Q)
  unfolding parse_binary_level parse_factor
  parse_term = parse_binary_level parse_factor term_operators

  unfoldable pub parse_shift : M (Expression Q)
  unfolding parse_binary_level parse_term
  parse_shift = parse_binary_level parse_term shift_operators

  unfoldable pub parse_comparison : M (Expression Q)
  unfolding comparison_from parse_shift
  parse_comparison = do
    expression ← parse_shift
    with_fuel (λ fuel. comparison_from parse_shift fuel expression)

  unfoldable pub parse_equality : M (Expression Q)
  unfolding parse_binary_level parse_comparison
  parse_equality = parse_binary_level parse_comparison equality_operators

  unfoldable pub parse_bitwise_and : M (Expression Q)
  unfolding parse_binary_level parse_equality
  parse_bitwise_and =
      parse_binary_level parse_equality ((Token.ampersand, Operators.bitwise_and) ∷ [])

  unfoldable pub parse_bitwise_xor : M (Expression Q)
  unfolding parse_binary_level parse_bitwise_and
  parse_bitwise_xor =
      parse_binary_level parse_bitwise_and ((Token.caret, Operators.bitwise_xor) ∷ [])

  unfoldable pub parse_bitwise_or : M (Expression Q)
  unfolding parse_binary_level parse_bitwise_xor
  parse_bitwise_or = parse_binary_level parse_bitwise_xor ((Token.pipe, Operators.bitwise_or) ∷ [])

  unfoldable pub parse_and : M (Expression Q)
  unfolding parse_binary_level parse_bitwise_or
  parse_and = parse_binary_level parse_bitwise_or ((Token.and_and, Operators.and_op) ∷ [])

  unfoldable pub parse_or : M (Expression Q)
  unfolding parse_binary_level parse_and
  parse_or = parse_binary_level parse_and ((Token.or_or, Operators.or_op) ∷ [])

  unfoldable pub parse_null_coalescing : M (Expression Q)
  unfolding coalescing_from parse_or
  parse_null_coalescing = do
    expression ← parse_or
    with_fuel (λ fuel. coalescing_from parse_or fuel expression)

  unfoldable pub parse_conditional : M (Expression Q)
  unfolding parse_null_coalescing check advance expect_simple span_of
  parse_conditional = do
    condition ← parse_null_coalescing
    found ← check Token.question
    elim found [
      | false ↦ pure condition
      | true ↦ do
        question ← advance
        when_true ← self.parse_expression
        expect_simple Token.colon
            (codes "expected `:` after the true branch of conditional expression")
        when_false ← self.parse_conditional
        span ← merge (span_of condition) (span_of when_false)
        pure (Expression.conditional condition when_true when_false question.span span)
    ]

abbrev pub assignment_operator : TokenKind → Option AssignmentOperator
assignment_operator Token.equal = some Expression.assign
assignment_operator Token.plus_equal = some Expression.add_assign
assignment_operator Token.minus_equal = some Expression.subtract_assign
assignment_operator Token.star_equal = some Expression.multiply_assign
assignment_operator Token.slash_equal = some Expression.divide_assign
assignment_operator Token.percent_equal = some Expression.remainder_assign
assignment_operator Token.ampersand_equal = some Expression.and_assign
assignment_operator Token.pipe_equal = some Expression.or_assign
assignment_operator Token.caret_equal = some Expression.xor_assign
assignment_operator Token.shift_left_equal = some Expression.shift_left_assign
assignment_operator Token.shift_right_equal = some Expression.shift_right_assign
assignment_operator Token.unsigned_shift_right_equal = some Expression.unsigned_shift_right_assign
assignment_operator _ = none

module _ {Q : Type 0} where
  -- The target that an expression is, or the error.
  abbrev pub assignment_target : Expression Q → Token → M (AssignmentTarget Q)
  assignment_target (Expression.variable name) token = pure (Expression.variable_target name)
  assignment_target (Expression.index collection position span) token =
      pure (Expression.index_target collection position span)
  assignment_target (Expression.member_access receiver member false navigation_span span) token =
      pure (Expression.member_target receiver member span)
  assignment_target (Expression.member_access receiver member true navigation_span span) token =
      fail (codes "safe-navigation access cannot be an assignment target") navigation_span
  assignment_target _ token = fail (codes "invalid assignment target") token.span

module _ {Q : Type 0} (queries : Queries Q) where
  unfoldable pub parse_assignment : Recursion Q → M (Expression Q)
  unfolding parse_conditional current advance span_of Diagnostic.new
  parse_assignment self = do
    expression ← parse_conditional queries self
    token ← current
    elim (assignment_operator token.kind) [
      | none ↦ pure expression
      | some operator ↦ do
        operator_token ← advance
        value ← self.parse_expression
        target ← assignment_target expression operator_token
        span ← merge (target_span target) (span_of value)
        pure (Expression.assignment target operator operator_token.span value span)
    ]

  -- The recursion, with fuel for as many calls in one another.
  unfoldable pub recursion : ℕ → Recursion Q
  unfolding parse_assignment parse_conditional parse_unary
  recursion zero = record {
    parse_expression = out_of_fuel;
    parse_conditional = out_of_fuel;
    parse_unary = out_of_fuel;
  }
  recursion (suc fuel) =
      let self = recursion fuel in
      record {
        parse_expression = parse_assignment self;
        parse_conditional = parse_conditional queries self;
        parse_unary = parse_unary queries self;
      }

  unfoldable pub parse_expression : M (Expression Q)
  unfolding recursion
  parse_expression = with_fuel (λ fuel. (recursion fuel).parse_expression)
