-- ===== src/Parser/Total/New.antt =====
-- The `new` expressions of src/parser/expressions.rs end, without a panic.
use apex_exec.Prelude.{ℕ, suc, ◌+◌, ◌<◌, refl, inl, inr, arith, Bool-cases}
use apex_exec.Prelude.Text.{Text}
use apex_exec.Span.{Span}
use apex_exec.Lexer.Token
use apex_exec.Lexer.Token.{Token, TokenKind, is_eof}
use apex_exec.Ast.Types
use apex_exec.Ast.Types.{TypeName, is_exception}
use apex_exec.Ast.Expression.{Expression, Expressions, span_of}
use apex_exec.Parser.{Parser}
use apex_exec.Parser.Types.Total.{merge-Reads}
use apex_exec.Parser.Primary.{
  Recursion, fail_here, parse_new_array_expression, is_object, constructed, collection_initializer,
  new_of_type, parse_new_expression,
}
use apex_exec.Parser.Reads.{
  OfSource, IsReady, remaining, Reads, returns, fails, Reads-le, then_with-Reads, current-Reads,
  check-Reads, advance-Reads, expect_simple-Reads,
}
use apex_exec.Parser.Total.{parse_type_name-Reads}
use apex_exec.Parser.Total.Lists.{
  HasSource, IsRecursion, parse_argument_list-Reads, parse_collection_initializer-Reads,
}

module _ (source : ℕ) {Q : Type 0} (self : Recursion Q) (n : ℕ)
    (good : IsRecursion source n self) where
  pub fail_here-Reads :
      {A : Type 0} {P : A → Type 0} {bound : ℕ} (message : Text) (p : Parser)
      → IsReady source p
      → Reads source bound P (fail_here {A = A} message p)
  fail_here-Reads message p ready = current-Reads source p ready _ (λ _ _. fails ready)

  parse_new_array_expression-Reads :
      (start : Token) (ty : TypeName) (p : Parser)
      → IsReady source p
      → remaining source p < n + 1
      → OfSource source start.span
      → Reads source
          (remaining source p)
          (HasSource source)
          (parse_new_array_expression self start ty p)
  unfolding parse_new_array_expression span_of
  parse_new_array_expression-Reads start ty p ready l o =
      then_with-Reads source (expect_simple-Reads source p ready Token.left_bracket _ refl)
        (λ _ q h lq _.
          check-Reads source q h Token.right_bracket _ refl
            (λ more.
              then_with-Reads source {P = λ r. OfSource source r.1} {n = remaining source p}
                (then_with-Reads source (advance-Reads source q h more) (λ _ r k lr _.
                  check-Reads source r k Token.left_brace _ refl
                    (λ _. Reads-le source (omega arith) (
                      parse_collection_initializer-Reads source self n good (Types.list ty) r k
                        (omega arith)))
                    (fail_here-Reads _ r k)))
                (λ init r k lr oi.
                  merge-Reads source r start.span init.1 _ o oi (λ span os. returns k lr os)))
            (then_with-Reads source {P = λ r. OfSource source r.1} {n = remaining source p}
              (then_with-Reads source (good.expression_takes q h (omega arith)) (λ size r k lr _.
                then_with-Reads source (expect_simple-Reads source r k Token.right_bracket _ refl)
                  (λ stop s m ls os. returns m (omega arith) os)))
              (λ init r k lr oi.
                merge-Reads source r start.span init.1 _ o oi (λ span os. returns k lr os))))

  constructed-Reads :
      (start : Token) (message : Text) (make : Expressions Q → Span → Expression Q) (p : Parser)
      → IsReady source p
      → remaining source p < n + 1
      → OfSource source start.span
      → ((args : Expressions Q) (span : Span)
          → OfSource source span
          → HasSource source (make args span))
      → Reads source
          (suc (remaining source p))
          (HasSource source)
          (constructed self start message make p)
  constructed-Reads start message make p ready l o made =
      check-Reads source p ready Token.left_paren _ refl
        (λ _.
          then_with-Reads source (parse_argument_list-Reads source self n good p ready l)
            (λ args q h lq oq.
              merge-Reads source q start.span args.1 _ o oq
                (λ span os. returns h (omega arith) (made args.0 span os))))
        (fail_here-Reads message p ready)

  collection_initializer-Reads :
      (ty : TypeName) (p : Parser)
      → IsReady source p
      → remaining source p < n + 1
      → Reads source
          (suc (remaining source p))
          (λ r. OfSource source r.1)
          (collection_initializer self ty p)
  collection_initializer-Reads ty p ready l =
      check-Reads source p ready Token.left_paren _ refl
        (λ _.
          then_with-Reads source (parse_argument_list-Reads source self n good p ready l)
            (λ args q h lq oq. returns h (omega arith) oq))
        (check-Reads source p ready Token.left_brace _ refl
          (λ _.
            Reads-le source (omega arith)
              (parse_collection_initializer-Reads source self n good ty p ready l))
          (fail_here-Reads _ p ready))

  new_of_type-Reads :
      (start : Token) (ty : TypeName) (p : Parser)
      → IsReady source p
      → remaining source p < n + 1
      → OfSource source start.span
      → Reads source (suc (remaining source p)) (HasSource source) (new_of_type self start ty p)
  unfolding span_of
  new_of_type-Reads start ty p ready l o = elim (Bool-cases (is_exception ty)) [
    | inl exception ↦
        rw (new_of_type, exception) (constructed-Reads start _ _ p ready l o (λ _ _ os. os))
    | inr other ↦ elim (Bool-cases (is_object ty)) [
      | inl object ↦
          rw (new_of_type, other, object) (constructed-Reads start _ _ p ready l o (λ _ _ os. os))
      | inr collection ↦
          rw (new_of_type, other, collection)
            (then_with-Reads source (collection_initializer-Reads ty p ready l) (λ init q h lq oi.
              merge-Reads source q start.span init.1 _ o oi (λ span os. returns h lq os)))
    ]
  ]

  pub parse_new_expression-Reads :
      (p : Parser)
      → IsReady source p
      → remaining source p < n + 1
      → Reads source (remaining source p) (HasSource source) (parse_new_expression self p)
  unfolding parse_new_expression
  parse_new_expression-Reads p ready l =
      then_with-Reads source (expect_simple-Reads source p ready Token.new_keyword _ refl)
        (λ start q h lq o. then_with-Reads source (parse_type_name-Reads source q h) (λ ty r k lr _.
          check-Reads source r k Token.left_bracket _ refl
            (λ _.
              Reads-le source (omega arith)
                (parse_new_array_expression-Reads start ty.0 r k (omega arith) o))
            (Reads-le source (omega arith) (new_of_type-Reads start ty.0 r k (omega arith) o))))
