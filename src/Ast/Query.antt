-- ===== src/Ast/Query.antt =====
-- The SOQL and SOSL queries of src/ast.rs. The expressions that are bound in them are a parameter,
-- since a query is itself a part of an expression.
use apex_exec.Prelude.{Bool, Option, List}
use apex_exec.Prelude.Int.{ℤ}
use apex_exec.Prelude.Text.{Text}
use apex_exec.Span.{Span}
use apex_exec.Ast.Types.{Identifier}

pub data SoqlAccess : Type 0 where
  default security_enforced user_mode system_mode : SoqlAccess

pub data SoqlAggregateFunction : Type 0 where
  count sum min max : SoqlAggregateFunction

pub record FieldPath : Type 0 where
  pub segments : List Identifier
  pub span : Span

pub data SoqlComparisonOperator : Type 0 where
  equal not_equal less less_equal greater greater_equal like : SoqlComparisonOperator

pub data SoqlLogicalOperator : Type 0 where
  and_op or_op : SoqlLogicalOperator

pub data SoqlDateLiteralKind : Type 0 where
  yesterday today tomorrow last_n_days next_n_days this_week last_week next_week this_month
        last_month next_month this_year last_year next_year :
      SoqlDateLiteralKind

pub record SoqlDateLiteral : Type 0 where
  pub kind : SoqlDateLiteralKind
  pub amount : Option ℤ
  pub span : Span

pub data SoqlValue (X : Type 0) : Type 0 where
  string : Text → Span → SoqlValue X
  boolean : Bool → Span → SoqlValue X
  integer : ℤ → Span → SoqlValue X
  date_literal : SoqlDateLiteral → SoqlValue X
  null : Span → SoqlValue X
  bind : X → Span → SoqlValue X

-- `SoqlValue::span`
abbrev pub value_span : {X : Type 0} → SoqlValue X → Span
value_span (string value span) = span
value_span (boolean value span) = span
value_span (integer value span) = span
value_span (date_literal literal) = literal.span
value_span (null span) = span
value_span (bind expression span) = span

pub data SoqlInValues (X : Type 0) : Type 0 where
  values : List (SoqlValue X) → SoqlInValues X
  bound : X → SoqlInValues X

pub data SoqlCondition (X : Type 0) : Type 0 where
  aggregate_comparison :
      SoqlAggregateFunction
      → Option FieldPath
      → SoqlComparisonOperator
      → SoqlValue X
      → Span
      → SoqlCondition X
  comparison : FieldPath → SoqlComparisonOperator → SoqlValue X → Span → SoqlCondition X
  in_condition : FieldPath → Bool → SoqlInValues X → Span → SoqlCondition X
  not_condition : SoqlCondition X → Span → SoqlCondition X
  logical : SoqlCondition X → SoqlLogicalOperator → SoqlCondition X → Span → SoqlCondition X

-- `SoqlCondition::span`
abbrev pub condition_span : {X : Type 0} → SoqlCondition X → Span
condition_span (aggregate_comparison function field operator right span) = span
condition_span (comparison left operator right span) = span
condition_span (in_condition field negated among span) = span
condition_span (not_condition condition span) = span
condition_span (logical left operator right span) = span

pub data SortDirection : Type 0 where
  ascending descending : SortDirection

pub data NullsOrder : Type 0 where
  first last : NullsOrder

pub record SoqlOrderBy : Type 0 where
  pub field : FieldPath
  pub direction : SortDirection
  pub nulls : Option NullsOrder
  pub span : Span

mutual
  pub data SoqlQuery (X : Type 0) : Type 0 where
    soql_query :
        SoqlSelectItems X
        → Identifier
        → Option (SoqlCondition X)
        → SoqlAccess
        → List FieldPath
        → Option (SoqlCondition X)
        → List SoqlOrderBy
        → Option (SoqlValue X)
        → Option (SoqlValue X)
        → Span
        → SoqlQuery X

  pub data SoqlSelectItem (X : Type 0) : Type 0 where
    field : FieldPath → SoqlSelectItem X
    subquery : SoqlQuery X → Span → SoqlSelectItem X
    aggregate :
        SoqlAggregateFunction → Option FieldPath → Option Identifier → Span → SoqlSelectItem X

  -- `Vec<SoqlSelectItem>`
  pub data SoqlSelectItems (X : Type 0) : Type 0 where
    no_items : SoqlSelectItems X
    select_item : SoqlSelectItem X → SoqlSelectItems X → SoqlSelectItems X

pub data SoslScope : Type 0 where
  all_fields name_fields : SoslScope

pub record SoslReturning (X : Type 0) : Type 0 where
  pub object : Identifier
  pub fields : List FieldPath
  pub where_clause : Option (SoqlCondition X)
  pub order_by : List SoqlOrderBy
  pub limit : Option (SoqlValue X)
  pub span : Span

pub record SoslQuery (X : Type 0) : Type 0 where
  pub search : SoqlValue X
  pub scope : SoslScope
  pub returning : List (SoslReturning X)
  pub span : Span
