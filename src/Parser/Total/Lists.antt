-- ===== src/Parser/Total/Lists.antt =====
-- The lists and the `new` expressions of src/parser/expressions.rs end, without a panic.
use apex_exec.Prelude.{
  ℕ, zero, suc, ◌+◌, ◌≤◌, ◌<◌, ◌≡◌, refl, inl, inr, false, length, arith, Bool-cases,
}
use apex_exec.Lexer.Token
use apex_exec.Lexer.Token.{Token, TokenKind, is_eof}
use apex_exec.Ast.Types.{TypeName}
use apex_exec.Ast.Expression
use apex_exec.Ast.Expression.{Expression, Expressions, MapEntries, CollectionInitializer, span_of}
use apex_exec.Parser.{Parser, M}
use apex_exec.Parser.Types.Total.{merge-Reads}
use apex_exec.Parser.Primary.{
  Recursion, expression_list, map_entry_list, list_until, parse_argument_list, is_map,
  parse_collection_initializer,
}
use apex_exec.Parser.Reads.{
  OfSource, IsReady, remaining, Reads, returns, then_with-Reads, check-Reads, advance-Reads,
  expect_simple-Reads,
}

module _ (source : ℕ) {Q : Type 0} where
  -- An expression of the source.
  abbrev pub HasSource : Expression Q → Type 0
  HasSource e = OfSource source (span_of e)

  -- What a method does where fewer tokens than a number are left: it takes one or more of them.
  abbrev pub Takes : ℕ → M (Expression Q) → Type 0
  Takes n m =
      (p : Parser)
      → IsReady source p
      → remaining source p < n
      → Reads source (remaining source p) HasSource (m p)

  pub record IsRecursion (n : ℕ) (self : Recursion Q) : Type 0 where
    pub expression_takes : Takes n self.parse_expression
    pub conditional_takes : Takes n self.parse_conditional
    pub unary_takes : Takes n self.parse_unary

module _ (source : ℕ) {Q : Type 0} (self : Recursion Q) (n : ℕ)
    (good : IsRecursion source n self) where
  -- What a loop over a list reads.
  abbrev ReadsList : {A : Type 0} → (ℕ → M A) → Type 0
  ReadsList list =
      (fuel : ℕ) (p : Parser) (bound : ℕ)
      → IsReady source p
      → remaining source p < fuel
      → remaining source p < n
      → remaining source p ≤ bound
      → Reads source bound (λ _. Unit {0}) (list fuel p)

  expression_list-Reads : ReadsList (expression_list self)
  unfolding expression_list
  expression_list-Reads zero p bound ready f l b = absurd (omega arith)
  expression_list-Reads (suc fuel) p bound ready f l b =
      then_with-Reads source (good.expression_takes p ready l) (λ first q h lq _.
        check-Reads source q h Token.comma _ refl
          (λ more. then_with-Reads source (advance-Reads source q h more) (λ _ r k lr _.
            then_with-Reads source
              (expression_list-Reads fuel r bound k (omega arith) (omega arith) (omega arith))
              (λ _ s m ls _. returns m ls tt)))
          (returns h (omega arith) tt))

  map_entry_list-Reads : ReadsList (map_entry_list self)
  unfolding map_entry_list
  map_entry_list-Reads zero p bound ready f l b = absurd (omega arith)
  map_entry_list-Reads (suc fuel) p bound ready f l b =
      then_with-Reads source (good.expression_takes p ready l) (λ key q h lq ok.
        then_with-Reads source (expect_simple-Reads source q h Token.fat_arrow _ refl)
          (λ _ r k lr _.
            then_with-Reads source (good.expression_takes r k (omega arith)) (λ value s m ls ov.
              merge-Reads source s (span_of key) (span_of value) _ ok ov (λ span o.
                check-Reads source s m Token.comma _ refl
                  (λ more. then_with-Reads source (advance-Reads source s m more) (λ _ t u lt _.
                    then_with-Reads source
                      (map_entry_list-Reads fuel t bound u (omega arith) (omega arith)
                        (omega arith))
                      (λ _ v w lv _. returns w lv tt)))
                  (returns m (omega arith) tt)))))

  list_until-Reads :
      {A : Type 0} (close : TokenKind) (nothing : A) (list : ℕ → M A) (p : Parser)
      → is_eof close ≡ false
      → ReadsList list
      → IsReady source p
      → remaining source p < n
      → Reads source (suc (remaining source p)) (λ _. Unit {0}) (list_until close nothing list p)
  list_until-Reads close nothing list p e reads ready l =
      check-Reads source p ready close _ e (λ _. returns ready (omega arith) tt)
        (reads (suc (length p.tokens)) p (suc (remaining source p)) ready (omega arith) l
          (omega arith))

  pub parse_argument_list-Reads :
      (p : Parser)
      → IsReady source p
      → remaining source p < n + 1
      → Reads source (remaining source p) (λ r. OfSource source r.1) (parse_argument_list self p)
  unfolding parse_argument_list
  parse_argument_list-Reads p ready l =
      then_with-Reads source (expect_simple-Reads source p ready Token.left_paren _ refl)
        (λ _ q h lq _.
          then_with-Reads source
            (list_until-Reads Token.right_paren Expression.no_expressions (expression_list self) q
              refl expression_list-Reads h (omega arith))
            (λ args r k lr _.
              then_with-Reads source (expect_simple-Reads source r k Token.right_paren _ refl)
                (λ stop s m ls o. returns m (omega arith) o)))

  pub parse_collection_initializer-Reads :
      (ty : TypeName) (p : Parser)
      → IsReady source p
      → remaining source p < n + 1
      → Reads source
          (remaining source p)
          (λ r. OfSource source r.1)
          (parse_collection_initializer self ty p)
  unfolding parse_collection_initializer
  parse_collection_initializer-Reads ty p ready l =
      then_with-Reads source (expect_simple-Reads source p ready Token.left_brace _ refl)
        (λ _ q h lq _. elim (Bool-cases (is_map ty)) [
          | inl maps ↦ rw maps (
              then_with-Reads source
                (list_until-Reads Token.right_brace Expression.no_entries (map_entry_list self) q
                  refl map_entry_list-Reads h (omega arith))
                (λ entries r k lr _.
                  then_with-Reads source (expect_simple-Reads source r k Token.right_brace _ refl)
                    (λ stop s m ls o. returns m (omega arith) o)))
          | inr other ↦ rw other (
              then_with-Reads source
                (list_until-Reads Token.right_brace Expression.no_expressions (expression_list self)
                  q refl expression_list-Reads h (omega arith))
                (λ entries r k lr _.
                  then_with-Reads source (expect_simple-Reads source r k Token.right_brace _ refl)
                    (λ stop s m ls o. returns m (omega arith) o)))
        ])
