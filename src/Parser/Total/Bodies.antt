-- ===== src/Parser/Total/Bodies.antt =====
-- The bodies of queries of src/parser/queries.rs end, without a panic.
use apex_exec.Prelude.{
  ℕ, zero, suc, ◌+◌, ◌<◌, refl, inl, inr, ◌&&◌, not, Option, none, some, List, length, min, arith,
  Bool-cases,
}
use apex_exec.Prelude.Text.{codes}
use apex_exec.Span.{Span}
use apex_exec.Lexer.Token
use apex_exec.Lexer.Token.{Token}
use apex_exec.Ast.Types.{Identifier}
use apex_exec.Ast.Query.{SoqlAggregateFunction, SoqlSelectItem, SoqlValue, value_span, SoqlQuery}
use apex_exec.Parser.{Parser, M}
use apex_exec.Parser.Types.Total.{merge-Reads}
use apex_exec.Parser.Queries.Conditions.{last_span}
use apex_exec.Parser.Queries.Bodies.{
  parse_optional_soql_access, is_name, is_query_clause_keyword, parse_alias, alias_end, body_end,
  parse_aggregate_select_item, parse_child_select_item, plain_item, parse_select_item, soql_clauses,
  soql_body, nested_body, parse_soql_body, parse_sosl_returning, parse_sosl_scope, returning_span,
  parse_sosl_body,
}
use apex_exec.Parser.Reads.{
  OfSource, IsReady, remaining, Reads, returns, fails, Reads-le, then_with-Reads, current-Reads,
  advance-Reads, advance-any, expect_identifier-Reads, expect_simple-Reads,
}
use apex_exec.Parser.Total.Clauses.{
  Anything, MayTake, TakesBelow, if_keyword-Reads, if_check-Reads, passing-Reads, failing-Reads,
  expect_keyword-Reads, comma_list-Reads, parse_field_path-Reads, parse_field_path_list-Reads,
  current_aggregate_function-Reads, parse_optional_aggregate_field-Reads,
  parse_optional_order_by-Reads, parse_optional_group_by-Reads, last_span-OfSource,
}
use apex_exec.Parser.Total.Values.{
  OfOptionValue, parse_soql_value-Reads, parse_optional_value_clause-Reads,
}
use apex_exec.Parser.Total.Conditions.{parse_optional_condition-Reads}

module _ (source : ℕ) where
  parse_optional_soql_access-Reads : MayTake source Anything parse_optional_soql_access
  unfolding parse_optional_soql_access
  parse_optional_soql_access-Reads p ready =
      if_keyword-Reads source p ready (codes "with") _ _
        (λ more. then_with-Reads source (advance-Reads source p ready more) (λ start q h lq _.
          Reads-le source {n = suc (remaining source q)} (omega arith) (
            if_keyword-Reads source q h (codes "security_enforced") _ _
              (λ _. passing-Reads source _ q h tt)
              (if_keyword-Reads source q h (codes "user_mode") _ _
                (λ _. passing-Reads source _ q h tt)
                (if_keyword-Reads source q h (codes "system_mode") _ _
                  (λ _. passing-Reads source _ q h tt) (fails h))))))
        (returns ready (omega arith) tt)

  -- An alias, if there is one, is of the source.
  abbrev OfAlias : Option Identifier → Type 0
  OfAlias none = Unit
  OfAlias (some alias) = OfSource source alias.span

  parse_alias-Reads : MayTake source OfAlias parse_alias
  unfolding parse_alias
  parse_alias-Reads p ready = current-Reads source p ready _ (λ token at.
      elim (Bool-cases (is_name token.kind && not (is_query_clause_keyword token.kind))) [
        | inl named ↦ rw named (
            then_with-Reads source (expect_identifier-Reads source p ready _)
              (λ alias q h l o. returns h (omega arith) o))
        | inr other ↦ rw other (returns ready (omega arith) tt)
      ])

  alias_end-OfSource :
      (close : Span) (alias : Option Identifier)
      → OfSource source close
      → OfAlias alias
      → OfSource source (alias_end close alias)
  alias_end-OfSource close none o h = o
  alias_end-OfSource close (some alias) o h = h

  parse_sosl_scope-Reads : MayTake source Anything parse_sosl_scope
  unfolding parse_sosl_scope
  parse_sosl_scope-Reads p ready =
      if_keyword-Reads source p ready (codes "all") _ _ (λ _. passing-Reads source _ p ready tt)
        (if_keyword-Reads source p ready (codes "name") _ _ (λ _. passing-Reads source _ p ready tt)
          (failing-Reads source _ p ready))

  body_end-OfSource :
      {X : Type 0} (from : Span) (limit offset : Option (SoqlValue X))
      → OfSource source from
      → OfOptionValue source limit
      → OfOptionValue source offset
      → OfSource source (body_end from limit offset)
  body_end-OfSource from none none o l f = o
  body_end-OfSource from (some limit) none o l f = l
  body_end-OfSource from limit (some offset) o l f = f

module _ (source : ℕ) {X : Type 0} (span_of : X → Span) (parse_expression : M X) (n : ℕ)
    (takes : TakesBelow source n (λ x. OfSource source (span_of x)) parse_expression) where
  parse_aggregate_select_item-Reads :
      (function : SoqlAggregateFunction) (p : Parser)
      → IsReady source p
      → Reads source
          (remaining source p)
          Anything
          (parse_aggregate_select_item span_of parse_expression function p)
  unfolding parse_aggregate_select_item
  parse_aggregate_select_item-Reads function p ready =
      then_with-Reads source (advance-any source p ready) (λ start q h lq o.
        then_with-Reads source (advance-any source q h) (λ _ r k lr _.
          then_with-Reads source (parse_optional_aggregate_field-Reads source r k)
            (λ field s m ls _.
              then_with-Reads source (expect_simple-Reads source s m Token.right_paren _ refl)
                (λ close t u lt oc.
                  then_with-Reads source (parse_alias-Reads source t u) (λ alias v w lv oa.
                    merge-Reads source v start.span (alias_end close.span alias) _ o
                      (alias_end-OfSource source close.span alias oc oa)
                      (λ span _. returns w (omega arith) tt))))))

  -- What comes after the object of a query.
  soql_clauses-Reads :
      (items : List (SoqlSelectItem X)) (from : Identifier) (start : Token) (p : Parser)
      → IsReady source p
      → remaining source p < n + 1
      → OfSource source start.span
      → OfSource source from.span
      → Reads source
          (suc (remaining source p))
          Anything
          (soql_clauses span_of parse_expression items from start p)
  soql_clauses-Reads items from start p ready b o oi =
      let condition = parse_optional_condition-Reads source span_of parse_expression n takes in
      let clause = parse_optional_value_clause-Reads source span_of parse_expression n takes in
      then_with-Reads source (condition (codes "where") p ready b) (λ where_clause q h lq _.
        then_with-Reads source (parse_optional_soql_access-Reads source q h) (λ access r k lr _.
          then_with-Reads source (parse_optional_group_by-Reads source r k) (λ group_by s m ls _.
            then_with-Reads source (condition (codes "having") s m (omega arith))
              (λ having t u lt _.
                then_with-Reads source (parse_optional_order_by-Reads source t u)
                  (λ order_by v w lv _.
                    then_with-Reads source (clause (codes "limit") v w (omega arith))
                      (λ limit x y lx ol.
                        then_with-Reads source (clause (codes "offset") x y (omega arith))
                          (λ offset z a lz oo.
                            merge-Reads source z start.span (body_end from.span limit offset) _ o
                              (body_end-OfSource source from.span limit offset oi ol oo)
                              (λ span _. returns a (omega arith) tt))))))))

  plain_item-Reads :
      (function : Option SoqlAggregateFunction) (p : Parser)
      → IsReady source p
      → Reads source (remaining source p) Anything (plain_item span_of parse_expression function p)
  plain_item-Reads (some function) p ready = parse_aggregate_select_item-Reads function p ready
  plain_item-Reads none p ready =
      then_with-Reads source (parse_field_path-Reads source p ready)
        (λ path q h l _. returns h l tt)

  module _ (m : ℕ) (body : M (SoqlQuery X)) (reads : TakesBelow source m Anything body) where
    parse_child_select_item-Reads :
        (p : Parser)
        → IsReady source p
        → remaining source p < m + 1
        → p.cursor + 1 < length p.tokens
        → Reads source
            (remaining source p)
            Anything
            (parse_child_select_item span_of parse_expression body p)
    unfolding parse_child_select_item
    parse_child_select_item-Reads p ready l more =
        then_with-Reads source (advance-Reads source p ready more) (λ start q h lq o.
          if_keyword-Reads source q h (codes "select") _ _
            (λ _. then_with-Reads source (reads q h (omega arith)) (λ query r k lr _.
              then_with-Reads source (expect_simple-Reads source r k Token.right_paren _ refl)
                (λ stop s t ls os.
                  merge-Reads source s start.span stop.span _ o os
                    (λ span _. returns t (omega arith) tt))))
            (failing-Reads source _ q h))

    parse_select_item-Reads :
        TakesBelow source (m + 1) Anything (parse_select_item span_of parse_expression body)
    unfolding parse_select_item
    parse_select_item-Reads p ready l =
        if_keyword-Reads source p ready (codes "typeof") _ _ (λ _. failing-Reads source _ p ready)
          (if_check-Reads source p ready Token.left_paren _ _ refl
            (λ more. parse_child_select_item-Reads p ready l more)
            (then_with-Reads source (current_aggregate_function-Reads source p ready)
              (λ function q h lq _. Reads-le source (omega arith) (plain_item-Reads function q h))))

    soql_body-Reads :
        (p : Parser)
        → IsReady source p
        → remaining source p < m + 1
        → remaining source p < n + 1
        → Reads source (remaining source p) Anything (soql_body span_of parse_expression body p)
    unfolding soql_body
    soql_body-Reads p ready l b =
        then_with-Reads source (expect_keyword-Reads source (codes "select") _ p ready)
          (λ start q h lq o.
            then_with-Reads source
              (comma_list-Reads source (m + 1) Anything _ parse_select_item-Reads q h (omega arith))
              (λ items r k lr _.
                then_with-Reads source (expect_keyword-Reads source (codes "from") _ r k)
                  (λ _ s t ls _.
                    then_with-Reads source (expect_identifier-Reads source s t _) (λ from u v lu oi.
                      Reads-le source (omega arith)
                        (soql_clauses-Reads items from start u v (omega arith) o oi)))))

  nested_body-Reads :
      (fuel : ℕ)
      → TakesBelow source (min fuel (n + 1)) Anything (nested_body span_of parse_expression fuel)
  unfolding nested_body
  nested_body-Reads zero p ready l = absurd (omega (arith, l))
  nested_body-Reads (suc fuel) p ready l =
      soql_body-Reads (min fuel (n + 1)) (nested_body span_of parse_expression fuel)
        (nested_body-Reads fuel) p ready (omega (arith, l)) (omega (arith, l))

  pub parse_soql_body-Reads :
      TakesBelow source (n + 1) Anything (parse_soql_body span_of parse_expression)
  unfolding parse_soql_body
  parse_soql_body-Reads p ready l =
      nested_body-Reads (suc (length p.tokens)) p ready (omega (arith, l))

  parse_sosl_returning-Reads :
      TakesBelow source
        (n + 1)
        (λ clause. OfSource source (returning_span span_of parse_expression clause))
        (parse_sosl_returning span_of parse_expression)
  unfolding parse_sosl_returning
  parse_sosl_returning-Reads p ready l =
      then_with-Reads source (expect_identifier-Reads source p ready _) (λ object q h lq o.
        then_with-Reads source (expect_simple-Reads source q h Token.left_paren _ refl)
          (λ _ r k lr _.
            then_with-Reads source (parse_field_path_list-Reads source r k) (λ fields s m ls _.
              then_with-Reads source
                (parse_optional_condition-Reads source span_of parse_expression n takes
                  (codes "where") s m (omega arith))
                (λ where_clause t u lt _.
                  then_with-Reads source (parse_optional_order_by-Reads source t u)
                    (λ order_by v w lv _.
                      then_with-Reads source
                        (parse_optional_value_clause-Reads source span_of parse_expression n takes
                          (codes "limit") v w (omega arith))
                        (λ limit x y lx _.
                          then_with-Reads source
                            (expect_simple-Reads source x y Token.right_paren _ refl)
                            (λ stop z a lz os.
                              merge-Reads source z object.span stop.span _ o os
                                (λ span ou. returns a (omega arith) ou))))))))

  pub parse_sosl_body-Reads :
      TakesBelow source (n + 1) Anything (parse_sosl_body span_of parse_expression)
  unfolding parse_sosl_body
  parse_sosl_body-Reads p ready l =
      then_with-Reads source (expect_keyword-Reads source (codes "find") _ p ready)
        (λ start q h lq o.
          then_with-Reads source
            (parse_soql_value-Reads source span_of parse_expression n takes q h (omega arith))
            (λ search r k lr os.
              then_with-Reads source (expect_keyword-Reads source (codes "in") _ r k) (λ _ s m ls _.
                then_with-Reads source (parse_sosl_scope-Reads source s m) (λ scope t u lt _.
                  then_with-Reads source (expect_keyword-Reads source (codes "fields") _ t u)
                    (λ _ v w lv _.
                      then_with-Reads source (expect_keyword-Reads source (codes "returning") _ v w)
                        (λ _ x y lx _.
                          then_with-Reads source
                            (comma_list-Reads source (n + 1) _ _ parse_sosl_returning-Reads x y
                              (omega arith))
                            (λ clauses z a lz all.
                              merge-Reads source z start.span
                                (last_span (returning_span span_of parse_expression)
                                  (value_span search) clauses)
                                _ o
                                (last_span-OfSource source (returning_span span_of parse_expression)
                                  (value_span search) clauses os all)
                                (λ span _. returns a (omega arith) tt))))))))
