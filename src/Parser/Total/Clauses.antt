-- ===== src/Parser/Total/Clauses.antt =====
-- The clauses of src/parser/queries.rs end, without a panic.
use apex_exec.Prelude.{
  ℕ, zero, suc, ◌+◌, ◌<◌, ◌≡◌, refl, inl, inr, Bool, true, false, List, [], ◌∷◌, ◌++◌, All, length,
  arith, Bool-cases, Option-cases,
}
use apex_exec.Prelude.Text.{Text, codes}
use apex_exec.Span.{Span}
use apex_exec.Lexer.Token
use apex_exec.Lexer.Token.{Token, TokenKind, is_eof}
use apex_exec.Ast.Types.{Identifier}
use apex_exec.Ast.Query
use apex_exec.Ast.Query.{FieldPath, SoqlOrderBy, SoqlAggregateFunction}
use apex_exec.Parser.{
  Parser, Parsed, M, then_with, check_keyword, is_keyword, expect_keyword, advance, pure,
}
use apex_exec.Parser.Types.{with_fuel}
use apex_exec.Parser.Types.Total.{merge-Reads}
use apex_exec.Parser.Primary.{fail_here}
use apex_exec.Parser.Queries.{
  if_keyword, if_check, passing, comma_list, path_from, parse_field_path, parse_field_path_list,
  aggregate_named, current_aggregate_function, parse_optional_aggregate_field, comparison_operator,
  parse_soql_comparison_operator, is_not_in, parse_order_by, parse_optional_order_by,
  parse_optional_group_by,
}
use apex_exec.Parser.Queries.Conditions.{last_span}
use apex_exec.Parser.Reads.{
  OfSource, IsReady, remaining, Reads, returns, fails, Reads-le, then_with-Reads, peek-Reads,
  current-Reads, current-IsAt, check-Reads, advance-Reads, advance-any, expect_identifier-Reads,
}

is_keyword-not_eof :
    (keyword : Text) (kind : TokenKind) → is_keyword keyword kind ≡ true → is_eof kind ≡ false
is_keyword-not_eof keyword (Token.identifier spelling) h = refl
is_keyword-not_eof keyword _ h = cc

abbrev pub Anything : {A : Type 0} → A → Type 0
Anything a = Unit {0}

module _ (source : ℕ) where
  module _ {A : Type 0} {P : A → Type 0} {m : ℕ} (p : Parser) (ready : IsReady source p) where
    pub check_keyword-Reads :
        (keyword : Text) (f : Bool → M A)
        → (p.cursor + 1 < length p.tokens → Reads source m P (f true p))
        → Reads source m P (f false p)
        → Reads source m P (then_with (check_keyword keyword p) f)
    unfolding check_keyword
    check_keyword-Reads keyword f found missing =
        let (token, at, c) = current-IsAt source p ready in
        rw c (elim (Bool-cases (is_keyword keyword token.kind)) [
          | inl same ↦ rw same (found (at.before_end (is_keyword-not_eof keyword token.kind same)))
          | inr other ↦ rw other missing
        ])

    pub if_keyword-Reads :
        (keyword : Text) (a b : M A)
        → (p.cursor + 1 < length p.tokens → Reads source m P (a p))
        → Reads source m P (b p)
        → Reads source m P (if_keyword keyword a b p)
    unfolding if_keyword
    if_keyword-Reads keyword a b found missing = check_keyword-Reads keyword _ found missing

    pub if_check-Reads :
        (kind : TokenKind) (a b : M A)
        → is_eof kind ≡ false
        → (p.cursor + 1 < length p.tokens → Reads source m P (a p))
        → Reads source m P (b p)
        → Reads source m P (if_check kind a b p)
    unfolding if_check
    if_check-Reads kind a b e found missing = check-Reads source p ready kind _ e found missing

  pub passing-Reads :
      {A : Type 0} {P : A → Type 0} (value : A) (p : Parser)
      → IsReady source p
      → P value
      → Reads source (suc (remaining source p)) P (passing value p)
  passing-Reads value p ready v =
      then_with-Reads source (advance-any source p ready) (λ _ q h l _. returns h (omega arith) v)

  pub failing-Reads :
      {A : Type 0} {P : A → Type 0} {m : ℕ} (message : Text) (p : Parser)
      → IsReady source p
      → Reads source m P (fail_here message p)
  failing-Reads message p ready = current-Reads source p ready _ (λ token at. fails ready)

  pub expect_keyword-Reads :
      (keyword message : Text) (p : Parser)
      → IsReady source p
      → Reads source
          (remaining source p)
          (λ token. OfSource source token.span)
          (expect_keyword keyword message p)
  unfolding expect_keyword
  expect_keyword-Reads keyword message p ready =
      check_keyword-Reads p ready keyword _ (advance-Reads source p ready)
        (current-Reads source p ready _ (λ token at. fails ready))

  pub anything :
      {A : Type 0} {P : A → Type 0} {m : ℕ} {r : Parsed A}
      → Reads source m P r
      → Reads source m Anything r
  anything (returns h l v) = returns h l tt
  anything (fails h) = fails h

  -- What a method does that takes a token, or need not take any.
  abbrev pub TakesOne : {A : Type 0} → (A → Type 0) → M A → Type 0
  TakesOne P m = (p : Parser) → IsReady source p → Reads source (remaining source p) P (m p)

  abbrev pub MayTake : {A : Type 0} → (A → Type 0) → M A → Type 0
  MayTake P m = (p : Parser) → IsReady source p → Reads source (suc (remaining source p)) P (m p)

  -- The same where fewer tokens than a number are left.
  abbrev pub TakesBelow : {A : Type 0} → ℕ → (A → Type 0) → M A → Type 0
  TakesBelow n P m =
      (p : Parser)
      → IsReady source p
      → remaining source p < n
      → Reads source (remaining source p) P (m p)

  module _ {A : Type 0} (n : ℕ) (P : A → Type 0) (item : M A) (takes : TakesBelow n P item) where
    comma_list_from-Reads :
        (fuel : ℕ) (p : Parser)
        → IsReady source p
        → remaining source p < fuel
        → remaining source p < n
        → Reads source (remaining source p) (All P) (comma_list item fuel p)
    unfolding comma_list
    comma_list_from-Reads zero p ready f l = absurd (omega arith)
    comma_list_from-Reads (suc fuel) p ready f l =
        then_with-Reads source (takes p ready l) (λ first q h lq o.
          if_check-Reads q h Token.comma _ _ refl
            (λ more. then_with-Reads source (advance-Reads source q h more) (λ _ r k lr _.
              then_with-Reads source (comma_list_from-Reads fuel r k (omega arith) (omega arith))
                (λ rest s m ls os. returns m (omega arith) (o, os))))
            (returns h lq (o, tt)))

    pub comma_list-Reads : TakesBelow n (All P) (with_fuel (comma_list item))
    comma_list-Reads p ready l =
        comma_list_from-Reads (suc (length p.tokens)) p ready (omega arith) l

  abbrev pub OfField : FieldPath → Type 0
  OfField path = OfSource source path.span

  path_from-Reads :
      (fuel : ℕ) (segments : List Identifier) (span : Span) (p : Parser)
      → IsReady source p
      → remaining source p < fuel
      → OfSource source span
      → Reads source (suc (remaining source p)) OfField (path_from segments span fuel p)
  unfolding path_from
  path_from-Reads zero segments span p ready f o = absurd (omega arith)
  path_from-Reads (suc fuel) segments span p ready f o =
      if_check-Reads p ready Token.dot _ _ refl
        (λ more. then_with-Reads source (advance-Reads source p ready more) (λ _ q h lq _.
          then_with-Reads source (expect_identifier-Reads source q h _) (λ segment r k lr os.
            merge-Reads source r span segment.span _ o os (λ longer ol.
              Reads-le source (omega arith)
                (path_from-Reads fuel (segments ++ segment ∷ []) longer r k (omega arith) ol)))))
        (returns ready (omega arith) o)

  pub parse_field_path-Reads : TakesOne OfField parse_field_path
  unfolding parse_field_path
  parse_field_path-Reads p ready =
      then_with-Reads source (expect_identifier-Reads source p ready _) (λ first q h lq o.
        Reads-le source (omega arith)
          (path_from-Reads (suc (length q.tokens)) (first ∷ []) first.span q h (omega arith) o))

  pub parse_field_path_list-Reads : TakesOne (All OfField) parse_field_path_list
  unfolding parse_field_path_list
  parse_field_path_list-Reads p ready =
      comma_list-Reads (suc (remaining source p)) OfField parse_field_path
        (λ q h l. parse_field_path-Reads q h) p ready (omega arith)

  aggregate_named-Reads : (kind : TokenKind) → MayTake Anything (aggregate_named kind)
  aggregate_named-Reads (Token.identifier name) p ready =
      peek-Reads source p ready 1 _ (λ token o. returns ready (omega arith) tt)
  aggregate_named-Reads _ p ready = returns ready (omega arith) tt

  pub current_aggregate_function-Reads : MayTake Anything current_aggregate_function
  unfolding current_aggregate_function
  current_aggregate_function-Reads p ready =
      current-Reads source p ready _ (λ token at. aggregate_named-Reads token.kind p ready)

  pub parse_optional_aggregate_field-Reads : MayTake Anything parse_optional_aggregate_field
  unfolding parse_optional_aggregate_field
  parse_optional_aggregate_field-Reads p ready =
      if_check-Reads p ready Token.right_paren _ _ refl (λ more. returns ready (omega arith) tt)
        (then_with-Reads source (parse_field_path-Reads p ready)
          (λ path q h l _. returns h (omega arith) tt))

  pub parse_soql_comparison_operator-Reads : MayTake Anything parse_soql_comparison_operator
  unfolding parse_soql_comparison_operator
  parse_soql_comparison_operator-Reads p ready = current-Reads source p ready _ (λ token at.
      elim (Option-cases (comparison_operator token.kind)) [
        | inl absent ↦ rw absent (failing-Reads _ p ready)
        | inr (operator, found) ↦ rw found (passing-Reads operator p ready tt)
      ])

  pub is_not_in-Reads : MayTake Anything is_not_in
  is_not_in-Reads p ready =
      if_keyword-Reads p ready (codes "not") _ _
        (λ more. peek-Reads source p ready 1 _ (λ token o. returns ready (omega arith) tt))
        (returns ready (omega arith) tt)

  -- A keyword that is passed, and what comes after it.
  pub after_keyword-Reads :
      {A : Type 0} {P : A → Type 0} (keyword : Text) (a b : M A) (p : Parser)
      → IsReady source p
      → ((q : Parser)
          → IsReady source q
          → remaining source q < remaining source p
          → Reads source (suc (remaining source p)) P (a q))
      → Reads source (suc (remaining source p)) P (b p)
      → Reads source
          (suc (remaining source p))
          P
          (if_keyword keyword (λ q. then_with (advance q) (λ _. a)) b p)
  after_keyword-Reads keyword a b p ready found missing =
      if_keyword-Reads p ready keyword _ _
        (λ more.
          then_with-Reads source (advance-Reads source p ready more) (λ _ q h l _. found q h l))
        missing

  direction-Reads : MayTake Anything (
      if_keyword
        (codes "desc")
        (passing Query.descending)
        (if_keyword (codes "asc") (passing Query.ascending) (pure Query.ascending)))
  direction-Reads p ready =
      if_keyword-Reads p ready (codes "desc") _ _ (λ more. passing-Reads _ p ready tt)
        (if_keyword-Reads p ready (codes "asc") _ _ (λ more. passing-Reads _ p ready tt)
          (returns ready (omega arith) tt))

  parse_order_by-Reads : TakesOne Anything parse_order_by
  unfolding parse_order_by
  parse_order_by-Reads p ready =
      then_with-Reads source (parse_field_path-Reads p ready) (λ field q h lq _.
        then_with-Reads source (direction-Reads q h) (λ direction r k lr _.
          then_with-Reads source {P = Anything} {n = suc (remaining source r)}
            (after_keyword-Reads (codes "nulls") _ _ r k
              (λ s m ls. Reads-le source (omega arith) (
                if_keyword-Reads {m = suc (remaining source s)} s m (codes "first") _ _
                  (λ more. passing-Reads _ s m tt)
                  (if_keyword-Reads s m (codes "last") _ _ (λ more. passing-Reads _ s m tt)
                    (failing-Reads _ s m))))
              (returns k (omega arith) tt))
            (λ nulls t u lt _. returns u (omega arith) tt)))

  pub parse_optional_order_by-Reads : MayTake Anything parse_optional_order_by
  unfolding parse_optional_order_by
  parse_optional_order_by-Reads p ready =
      after_keyword-Reads (codes "order") _ _ p ready
        (λ q h l. then_with-Reads source (expect_keyword-Reads (codes "by") _ q h) (λ _ r k lr _.
          Reads-le source (omega arith) (
            anything (
              comma_list-Reads (suc (remaining source r)) Anything parse_order_by
                (λ s m ls. parse_order_by-Reads s m) r k (omega arith)))))
        (returns ready (omega arith) tt)

  pub parse_optional_group_by-Reads : MayTake Anything parse_optional_group_by
  unfolding parse_optional_group_by
  parse_optional_group_by-Reads p ready =
      after_keyword-Reads (codes "group") _ _ p ready
        (λ q h l. then_with-Reads source (expect_keyword-Reads (codes "by") _ q h) (λ _ r k lr _.
          Reads-le source (omega arith) (anything (parse_field_path_list-Reads r k))))
        (returns ready (omega arith) tt)

  -- The last span of a list is of the source.
  pub last_span-OfSource :
      {A : Type 0} (span : A → Span) (start : Span) (xs : List A)
      → OfSource source start
      → All (λ x. OfSource source (span x)) xs
      → OfSource source (last_span span start xs)
  last_span-OfSource span start [] o h = o
  last_span-OfSource span start (x ∷ []) o (h, _) = h
  last_span-OfSource span start (x ∷ y ∷ more) o (_, h) =
      last_span-OfSource span start (y ∷ more) o h
