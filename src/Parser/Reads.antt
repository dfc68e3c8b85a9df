-- ===== src/Parser/Reads.antt =====
-- What a method of the parser may do: it returns or fails, never panics and never runs out of fuel,
-- and goes forward in a stream that stays in order.
use apex_exec.Prelude.{
  ℕ, zero, suc, ◌+◌, ◌-◌, ◌≤◌, ◌<◌, ◌≡◌, refl, ◌∙◌, inl, inr, min, Bool, true, false, some, List,
  [], ◌∷◌, length, get_elem?, set, ltb, arith, Bool-cases, ltb→lt, lt→ltb,
}
use native.Mathlib.Nat.{min-le_right, min-eq_left}
use apex_exec.Prelude.Text.{Text}
use apex_exec.Span.{Span}
use apex_exec.Diagnostic.{Diagnostic}
use apex_exec.Lexer.Token
use apex_exec.Lexer.Token.{Token, TokenKind, is_eof, same_variant, same_variant-is_eof}
use apex_exec.Ast.Types.{identifier}
use apex_exec.Parser.{
  Parser, Parsed, done, failed, M, then_with, token_at, current, peek, advance, check,
  expect_identifier, identifier_of, expect_simple,
}

module _ (source : ℕ) where
  abbrev pub OfSource : Span → Type 0
  OfSource span = span.source_id.id ≡ source

  -- Tokens of the source, of which the last is the end and has no text.
  abbrev pub IsSupply : List Token → Type 0
  IsSupply [] = ⊥
  IsSupply (token ∷ []) = OfSource token.span × (is_eof token.kind ≡ true) × (token.lexeme ≡ [])
  IsSupply (token ∷ next ∷ tokens) =
      OfSource token.span × (is_eof token.kind ≡ false) × IsSupply (next ∷ tokens)

  -- A token of the supply at an index.
  pub record IsAt (tokens : List Token) (index : ℕ) (token : Token) : Type 0 where
    pub found : get_elem? tokens index ≡ some token
    pub of_source : OfSource token.span
    pub at_end : is_eof token.kind ≡ true → token.lexeme ≡ []
    pub before_end : is_eof token.kind ≡ false → index + 1 < length tokens

  supply-IsAt :
      (tokens : List Token) (index : ℕ)
      → IsSupply tokens
      → index < length tokens
      → (token : Token) × IsAt tokens index token
  supply-IsAt [] index s h = absurd s
  supply-IsAt (token ∷ []) zero (o, e, l) h = (
    token,
    record { found = refl; of_source = o; at_end = λ _. l; before_end = λ k. ground arith },
  )
  supply-IsAt (token ∷ []) (suc index) s h = absurd (omega arith)
  supply-IsAt (token ∷ next ∷ tokens) zero (o, e, s) h = (
    token,
    record {
      found = refl;
      of_source = o;
      at_end = λ k. ground arith;
      before_end = λ _. omega arith;
    },
  )
  supply-IsAt (token ∷ next ∷ tokens) (suc index) (o, e, s) h =
      let (t, at) = supply-IsAt (next ∷ tokens) index s (omega arith) in
      (
        t,
        record {
          found = at.found;
          of_source = at.of_source;
          at_end = at.at_end;
          before_end = λ k. let l = at.before_end k in omega (arith, l);
        },
      )

  pub set-IsSupply :
      (tokens : List Token) (index : ℕ) (token : Token)
      → IsSupply tokens
      → index + 1 < length tokens
      → OfSource token.span
      → is_eof token.kind ≡ false
      → IsSupply (set tokens index token)
  set-IsSupply [] index token s h o e = absurd s
  set-IsSupply (t ∷ []) index token s h o e = absurd (omega arith)
  set-IsSupply (t ∷ next ∷ tokens) zero token (_, _, s) h o e = (o, e, s)
  set-IsSupply (t ∷ next ∷ []) (suc index) token s h o e = absurd (omega arith)
  set-IsSupply (t ∷ next ∷ u ∷ tokens) (suc zero) token (a, b, s) h o e =
      (a, b, set-IsSupply (next ∷ u ∷ tokens) zero token s (omega arith) o e)
  set-IsSupply (t ∷ next ∷ u ∷ tokens) (suc (suc index)) token (a, b, s) h o e =
      (a, b, set-IsSupply (next ∷ u ∷ tokens) (suc index) token s (omega arith) o e)

  pub record IsReady (p : Parser) : Type 0 where
    pub within : p.cursor < length p.tokens
    pub supply : IsSupply p.tokens

  -- The tokens from the cursor on.
  abbrev pub remaining : Parser → ℕ
  remaining p = length p.tokens - p.cursor

  -- Fewer than a number of tokens are left, and the value is as it must be.
  pub data Reads {A : Type 0} (bound : ℕ) (P : A → Type 0) : Parsed A → Type 0 where
    returns :
        {a : A} {p : Parser} → IsReady p → remaining p < bound → P a → Reads bound P (done a p)
    fails : {d : Diagnostic} {p : Parser} → IsReady p → Reads bound P (failed d p)

  pub Reads-le :
      {A : Type 0} {P : A → Type 0} {n m : ℕ} {r : Parsed A} → n ≤ m → Reads n P r → Reads m P r
  Reads-le h (returns ready l v) = returns ready (omega arith) v
  Reads-le h (fails ready) = fails ready

  module _ {A B : Type 0} {P : A → Type 0} {Q : B → Type 0} {n m : ℕ} where
    pub then_with-Reads :
        {r : Parsed A} {f : A → M B}
        → Reads n P r
        → ((a : A) (p : Parser) → IsReady p → remaining p < n → P a → Reads m Q (f a p))
        → Reads m Q (then_with r f)
    then_with-Reads (returns {a = a} {p = p} h l v) k = k a p h l v
    then_with-Reads (fails h) k = fails h

  pub current-IsAt :
      (p : Parser)
      → IsReady p
      → (token : Token) × IsAt p.tokens p.cursor token × (current p ≡ done token p)
  unfolding current peek token_at
  current-IsAt p ready =
      let (token, at) = supply-IsAt p.tokens p.cursor ready.supply ready.within in
      let same : min (p.cursor + 0) (length p.tokens - 1) ≡ p.cursor =
        min-eq_left (omega (arith, ready.within)) ∙ omega arith in
      (token, at, rw (same, at.found))

  module _ {A : Type 0} {Q : A → Type 0} {m : ℕ} (p : Parser) (ready : IsReady p) where
    pub peek-Reads :
        (offset : ℕ) (f : Token → M A)
        → ((token : Token) → OfSource token.span → Reads m Q (f token p))
        → Reads m Q (then_with (peek offset p) f)
    unfolding peek token_at
    peek-Reads offset f k =
        let (token, at) =
          supply-IsAt p.tokens (min (p.cursor + offset) (length p.tokens - 1)) ready.supply
            (omega (arith, ready.within, min-le_right (p.cursor + offset) (length p.tokens - 1))) in
        rw at.found (k token at.of_source)

    pub current-Reads :
        (f : Token → M A)
        → ((token : Token) → IsAt p.tokens p.cursor token → Reads m Q (f token p))
        → Reads m Q (then_with (current p) f)
    current-Reads f k = let (token, at, e) = current-IsAt p ready in rw e (k token at)

    -- A token other than the end may be passed.
    pub check-Reads :
        (kind : TokenKind) (f : Bool → M A)
        → is_eof kind ≡ false
        → (p.cursor + 1 < length p.tokens → Reads m Q (f true p))
        → Reads m Q (f false p)
        → Reads m Q (then_with (check kind p) f)
    unfolding check
    check-Reads kind f e found missing =
        let (token, at, c) = current-IsAt p ready in
        rw c (elim (Bool-cases (same_variant token.kind kind)) [
          | inl same ↦
              rw same (found (at.before_end (same_variant-is_eof token.kind kind same ∙ e)))
          | inr other ↦ rw other missing
        ])

  module _ (p : Parser) (ready : IsReady p) where
    pub advance-any : Reads (suc (remaining p)) (λ token. OfSource token.span) (advance p)
    unfolding advance
    advance-any = current-Reads p ready _ (λ token at.
        elim (Bool-cases (ltb (p.cursor + 1) (length p.tokens))) [
          | inl more ↦
              let l = ltb→lt (p.cursor + 1) (length p.tokens) more in
              rw more
                (returns (record { within = l; supply = ready.supply }) (omega arith) at.of_source)
          | inr last ↦ rw last (returns ready (omega arith) at.of_source)
        ])

    pub advance-Reads :
        p.cursor + 1 < length p.tokens
        → Reads (remaining p) (λ token. OfSource token.span) (advance p)
    unfolding advance
    advance-Reads more = current-Reads p ready _ (λ token at.
        rw (lt→ltb (p.cursor + 1) (length p.tokens) more)
          (returns (record { within = more; supply = ready.supply }) (omega arith) at.of_source))

    identifier_of-Reads :
        (message : Text) (span : Span) (kind : TokenKind)
        → OfSource span
        → (is_eof kind ≡ false → p.cursor + 1 < length p.tokens)
        → Reads (remaining p) (λ i. OfSource i.span) (identifier_of message span kind p)
    unfolding identifier
    identifier_of-Reads message span (Token.identifier spelling) o more =
        then_with-Reads (advance-Reads (more refl)) (λ token q h l k. returns h l o)
    identifier_of-Reads message span _ o more = fails ready

    pub expect_identifier-Reads :
        (message : Text) → Reads (remaining p) (λ i. OfSource i.span) (expect_identifier message p)
    unfolding expect_identifier
    expect_identifier-Reads message =
        current-Reads p ready _
          (λ token at. identifier_of-Reads message token.span token.kind at.of_source at.before_end)

    pub expect_simple-Reads :
        (kind : TokenKind) (message : Text)
        → is_eof kind ≡ false
        → Reads (remaining p) (λ token. OfSource token.span) (expect_simple kind message p)
    unfolding expect_simple
    expect_simple-Reads kind message e =
        check-Reads p ready kind _ e advance-Reads
          (current-Reads p ready _ (λ token at. fails ready))
