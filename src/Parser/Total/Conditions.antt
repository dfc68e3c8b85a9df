-- ===== src/Parser/Total/Conditions.antt =====
-- The conditions of src/parser/queries.rs end, without a panic.
use apex_exec.Prelude.{
  ℕ, zero, suc, ◌+◌, ◌<◌, refl, Bool, true, false, Option, none, some, All, length, min, arith,
}
use apex_exec.Prelude.Text.{Text, codes}
use apex_exec.Span.{Span}
use apex_exec.Lexer.Token
use apex_exec.Lexer.Token.{Token, TokenKind, is_eof}
use apex_exec.Ast.Query
use apex_exec.Ast.Query.{
  FieldPath, SoqlValue, value_span, SoqlInValues, SoqlCondition, condition_span,
  SoqlLogicalOperator, SoqlDateLiteralKind, SoqlAggregateFunction,
}
use apex_exec.Parser.{Parser, M}
use apex_exec.Parser.Types.Total.{merge-Reads}
use apex_exec.Parser.Queries.Conditions.{
  parse_soql_value, values_end, parse_in_values, parse_in_predicate, parse_aggregate_predicate,
  field_condition, predicate_of, parse_soql_predicate, logical_from, chain, not_operand, soql_not,
  soql_or, parse_soql_or, parse_optional_condition,
}
use apex_exec.Parser.Reads.{
  OfSource, IsReady, remaining, Reads, returns, Reads-le, then_with-Reads, advance-Reads,
  advance-any, expect_simple-Reads,
}
use apex_exec.Parser.Total.Clauses.{
  Anything, if_keyword-Reads, if_check-Reads, TakesBelow, comma_list-Reads, parse_field_path-Reads,
  current_aggregate_function-Reads, parse_optional_aggregate_field-Reads,
  parse_soql_comparison_operator-Reads, is_not_in-Reads, after_keyword-Reads, last_span-OfSource,
}
use apex_exec.Parser.Total.Values.{OfValue, OfCondition, MayTakeBelow, parse_soql_value-Reads}

module _ (source : ℕ) {X : Type 0} (span_of : X → Span) (parse_expression : M X) (n : ℕ)
    (takes : TakesBelow source n (λ x. OfSource source (span_of x)) parse_expression) where
  parse_in_values-Reads :
      (start : Span)
      → OfSource source start
      → TakesBelow source
          (n + 1)
          (λ vs. OfSource source (values_end span_of parse_expression start vs))
          (parse_in_values span_of parse_expression)
  unfolding parse_in_values
  parse_in_values-Reads start os p ready l =
      if_check-Reads source p ready Token.colon _ _ refl
        (λ more. then_with-Reads source (advance-Reads source p ready more) (λ _ q h lq _.
          then_with-Reads source (takes q h (omega arith))
            (λ expression r k lr o. returns k (omega arith) o)))
        (then_with-Reads source (expect_simple-Reads source p ready Token.left_paren _ refl)
          (λ _ q h lq _.
            then_with-Reads source {P = All (OfValue source)} {n = suc (remaining source q)}
              (if_check-Reads source q h Token.right_paren _ _ refl
                (λ more. returns h (omega arith) tt)
                (Reads-le source (omega arith) (
                  comma_list-Reads source (n + 1) (OfValue source)
                    (parse_soql_value span_of parse_expression)
                    (parse_soql_value-Reads source span_of parse_expression n takes) q h
                    (omega arith))))
              (λ vs r k lr all.
                then_with-Reads source (expect_simple-Reads source r k Token.right_paren _ refl)
                  (λ _ s m ls _.
                    returns m (omega arith)
                      (last_span-OfSource source value_span start vs os all)))))

  parse_in_predicate-Reads :
      (field : FieldPath) (start : Span) (negated : Bool)
      → OfSource source start
      → TakesBelow source
          (n + 1)
          (OfCondition source)
          (parse_in_predicate span_of parse_expression field start negated)
  unfolding parse_in_predicate
  parse_in_predicate-Reads field start negated o p ready l =
      then_with-Reads source (parse_in_values-Reads start o p ready l) (λ vs q h lq ov.
        merge-Reads source q start (values_end span_of parse_expression start vs) _ o ov
          (λ span os. returns h lq os))

  parse_aggregate_predicate-Reads :
      (function : SoqlAggregateFunction)
      → TakesBelow source
          (n + 1)
          (OfCondition source)
          (parse_aggregate_predicate span_of parse_expression function)
  unfolding parse_aggregate_predicate
  parse_aggregate_predicate-Reads function p ready l =
      then_with-Reads source (advance-any source p ready) (λ start q h lq o.
        then_with-Reads source (advance-any source q h) (λ _ r k lr _.
          then_with-Reads source (parse_optional_aggregate_field-Reads source r k)
            (λ field s m ls _.
              then_with-Reads source (expect_simple-Reads source s m Token.right_paren _ refl)
                (λ _ t u lt _.
                  then_with-Reads source (parse_soql_comparison_operator-Reads source t u)
                    (λ operator v w lv _.
                      then_with-Reads source
                        ((parse_soql_value-Reads source span_of parse_expression n takes) v w
                          (omega arith))
                        (λ right x y lx ox.
                          merge-Reads source x start.span (value_span right) _ o ox
                            (λ span os. returns y (omega arith) os)))))))

  field_condition-Reads :
      (field : FieldPath) (negated : Bool)
      → OfSource source field.span
      → (p : Parser) → IsReady source p
      → remaining source p < n + 1
      → Reads source
          (suc (remaining source p))
          (OfCondition source)
          (field_condition span_of parse_expression field negated p)
  field_condition-Reads field true o p ready l =
      then_with-Reads source (advance-any source p ready) (λ _ q h lq _.
        then_with-Reads source (advance-any source q h) (λ _ r k lr _.
          Reads-le source (omega arith)
            (parse_in_predicate-Reads field field.span true o r k (omega arith))))
  field_condition-Reads field false o p ready l =
      if_keyword-Reads source p ready (codes "in") _ _
        (λ more. then_with-Reads source (advance-Reads source p ready more) (λ _ q h lq _.
          Reads-le source (omega arith)
            (parse_in_predicate-Reads field field.span false o q h (omega arith))))
        (then_with-Reads source (parse_soql_comparison_operator-Reads source p ready)
          (λ operator q h lq _.
            then_with-Reads source
              ((parse_soql_value-Reads source span_of parse_expression n takes) q h (omega arith))
              (λ right r k lr ov.
                merge-Reads source r field.span (value_span right) _ o ov
                  (λ span os. returns k (omega arith) os))))

  predicate_of-Reads :
      (function : Option SoqlAggregateFunction)
      → TakesBelow source
          (n + 1)
          (OfCondition source)
          (predicate_of span_of parse_expression function)
  predicate_of-Reads (some function) p ready l = parse_aggregate_predicate-Reads function p ready l
  predicate_of-Reads none p ready l =
      then_with-Reads source (parse_field_path-Reads source p ready) (λ field q h lq o.
        then_with-Reads source (is_not_in-Reads source q h) (λ negated r k lr _.
          Reads-le source (omega arith) (field_condition-Reads field negated o r k (omega arith))))

  pub parse_soql_predicate-Reads :
      TakesBelow source (n + 1) (OfCondition source) (parse_soql_predicate span_of parse_expression)
  unfolding parse_soql_predicate
  parse_soql_predicate-Reads p ready l =
      then_with-Reads source (current_aggregate_function-Reads source p ready) (λ function q h lq _.
        Reads-le source (omega arith) (predicate_of-Reads function q h (omega arith)))

  module _ (m : ℕ) (operand : M (SoqlCondition X)) (keyword : Text) (operator : SoqlLogicalOperator)
      (reads : TakesBelow source m (OfCondition source) operand) where
    logical_from-Reads :
        (fuel : ℕ) (left : SoqlCondition X) (p : Parser)
        → IsReady source p
        → remaining source p < fuel
        → remaining source p < m
        → (OfCondition source) left
        → Reads source
            (suc (remaining source p))
            (OfCondition source)
            (logical_from span_of parse_expression keyword operator operand left fuel p)
    unfolding logical_from
    logical_from-Reads zero left p ready f l o = absurd (omega arith)
    logical_from-Reads (suc fuel) left p ready f l o =
        if_keyword-Reads source p ready keyword _ _
          (λ more. then_with-Reads source (advance-Reads source p ready more) (λ _ q h lq _.
            then_with-Reads source (reads q h (omega arith)) (λ right r k lr os.
              merge-Reads source r (condition_span left) (condition_span right) _ o os (λ span ol.
                Reads-le source (omega arith) (
                  logical_from-Reads fuel (Query.logical left operator right span) r k (omega arith)
                    (omega arith) ol)))))
          (returns ready (omega arith) o)

    chain-Reads :
        TakesBelow source m
          (OfCondition source)
          (chain span_of parse_expression keyword operator operand)
    chain-Reads p ready l = then_with-Reads source (reads p ready l) (λ left q h lq o.
        Reads-le source (omega arith)
          (logical_from-Reads (suc (length q.tokens)) left q h (omega arith) (omega arith) o))

  -- An operand, from conditions in parentheses and operands of `not` further on.
  not_operand-Reads :
      (m : ℕ) (parse_or parse_not : M (SoqlCondition X))
      → TakesBelow source (min m (n + 1)) (OfCondition source) parse_or
      → TakesBelow source (min m (n + 1)) (OfCondition source) parse_not
      → TakesBelow source
          (min (suc m) (n + 1))
          (OfCondition source)
          (not_operand span_of parse_expression parse_or parse_not)
  not_operand-Reads m parse_or parse_not ors nots p ready l =
      if_keyword-Reads source p ready (codes "not") _ _
        (λ more. then_with-Reads source (advance-Reads source p ready more) (λ start q h lq o.
          then_with-Reads source (nots q h (omega arith)) (λ condition r k lr oc.
            merge-Reads source r start.span (condition_span condition) _ o oc
              (λ span os. returns k (omega arith) os))))
        (if_check-Reads source p ready Token.left_paren _ _ refl
          (λ more. then_with-Reads source (advance-Reads source p ready more) (λ _ q h lq _.
            then_with-Reads source (ors q h (omega arith)) (λ condition r k lr oc.
              then_with-Reads source (expect_simple-Reads source r k Token.right_paren _ refl)
                (λ _ s t ls _. returns t (omega arith) oc))))
          (parse_soql_predicate-Reads p ready (omega arith)))

  soql_conditions-Reads :
      (fuel : ℕ)
      → TakesBelow source
          (min fuel (n + 1))
          (OfCondition source)
          (soql_not span_of parse_expression fuel)
        × TakesBelow source
            (min fuel (n + 1))
            (OfCondition source)
            (soql_or span_of parse_expression fuel)
  unfolding soql_not
  soql_conditions-Reads zero =
      (λ p ready l. absurd (omega (arith, l)), λ p ready l. absurd (omega (arith, l)))
  soql_conditions-Reads (suc fuel) =
      let (nots, ors) = soql_conditions-Reads fuel in
      let operand = not_operand-Reads fuel _ _ ors nots in
      let m = min (suc fuel) (n + 1) in
      (
        operand,
        chain-Reads m _ (codes "or") Query.or_op
            (chain-Reads m _ (codes "and") Query.and_op operand),
      )

  pub parse_soql_or-Reads :
      TakesBelow source (n + 1) (OfCondition source) (parse_soql_or span_of parse_expression)
  unfolding parse_soql_or
  parse_soql_or-Reads p ready l =
      (soql_conditions-Reads (suc (length p.tokens))).1 p ready (omega (arith, l))

  pub parse_optional_condition-Reads :
      (keyword : Text)
      → MayTakeBelow source span_of parse_expression n takes
          (parse_optional_condition span_of parse_expression keyword)
          Anything
  unfolding parse_optional_condition
  parse_optional_condition-Reads keyword p ready l =
      after_keyword-Reads source keyword _ _ p ready
        (λ q h lq.
          then_with-Reads source (parse_soql_or-Reads q h (omega arith))
            (λ condition r k lr _. returns k (omega arith) tt))
        (returns ready (omega arith) tt)
