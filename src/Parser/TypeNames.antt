-- ===== src/Parser/TypeNames.antt =====
-- src/parser/types.rs: the type that a reference means, and the looks ahead for a type. A method that
-- looks ahead with a clone of the parser leaves the parser itself as it was.
use apex_exec.Prelude.{
  ◌⊎◌, inl, inr, true, false, Option, none, some, List, [], ◌∷◌, ◌++◌, if◌then◌else◌,
}
use apex_exec.Prelude.Text.{Text, codes, text_eq}
use apex_exec.Span.{Span}
use apex_exec.Diagnostic
use apex_exec.Diagnostic.{Diagnostic}
use apex_exec.Lexer.Token
use apex_exec.Lexer.Token.{Token, TokenKind}
use apex_exec.Ast.Types
use apex_exec.Ast.Types.{
  TypeRef, TypeRefs, type_ref, no_refs, ref, ref_span, TypeName, NamedType, TypeArguments,
  no_arguments, type_argument, spelling, canonical, from_apex_name, from_type_ref,
}
use apex_exec.Parser.{done, failed, M, ◌>>=◌, ◌>>◌, pure, advance, check}
use apex_exec.Parser.Types.{parse_type_ref}

-- `Result<A, Diagnostic>` of what does not read the parser.
abbrev pub Checked : Type 0 → Type 0
Checked A = A ⊎ Diagnostic

abbrev map_checked : {A B : Type 0} → (A → B) → Checked A → Checked B
map_checked f (inl a) = inl (f a)
map_checked f (inr d) = inr d

abbrev then_checked : {A B : Type 0} → Checked A → (A → Checked B) → Checked B
then_checked (inl a) f = f a
then_checked (inr d) f = inr d

-- The second suffix, of which there may be but one.
abbrev second_suffix : List Span → Option Span
second_suffix (first ∷ second ∷ more) = some second
second_suffix _ = none

abbrev one_argument : Text → Span → (TypeName → TypeName) → TypeArguments → Checked TypeName
one_argument name span f (type_argument syntax element _ no_arguments) = inl (f element)
one_argument name span f _ =
    inr (Diagnostic.new (name ++ codes " requires exactly one type argument") span)

abbrev two_arguments : Span → TypeArguments → Checked TypeName
two_arguments span (type_argument _ key _ (type_argument _ value _ no_arguments)) =
    inl (Types.map key value)
two_arguments span _ = inr (Diagnostic.new (codes "Map requires exactly two type arguments") span)

abbrev no_argument : Text → Span → TypeName → TypeArguments → Checked TypeName
no_argument name span ty no_arguments = inl ty
no_argument name span ty _ =
    inr (Diagnostic.new (name ++ codes " does not accept type arguments") span)

abbrev builtin_or_custom : TypeRef → TypeArguments → Option TypeName → Checked TypeName
unfolding spelling from_type_ref Diagnostic.new
builtin_or_custom syntax args none = inl (Types.custom (from_type_ref syntax args))
builtin_or_custom syntax args (some ty) = no_argument (spelling syntax) (ref_span syntax) ty args

-- The match on the canonical name.
unfoldable pub base_type : TypeRef → TypeArguments → Checked TypeName
unfolding canonical spelling from_apex_name from_type_ref Diagnostic.new
base_type syntax args =
    let name = canonical syntax in
    let one = one_argument (spelling syntax) (ref_span syntax) in
    if text_eq name (codes "list")
    then one Types.list args
    else if text_eq name (codes "set")
    then one Types.set args
    else if text_eq name (codes "iterable")
    then one Types.iterable args
    else if text_eq name (codes "map")
    then two_arguments (ref_span syntax) args
    else builtin_or_custom syntax args (from_apex_name name)

-- `for _ in &syntax.array_suffixes`
abbrev with_suffixes : List Span → TypeName → TypeName
with_suffixes [] ty = ty
with_suffixes (suffix ∷ suffixes) ty = with_suffixes suffixes (Types.list ty)

abbrev at_most_one : {A : Type 0} → Option Span → Checked A → Checked A
at_most_one none rest = rest
at_most_one (some span) rest =
    inr (Diagnostic.new (codes "only one array suffix is supported") span)

unfoldable mutual
  unfolding base_type Diagnostic.new

  pub type_name_from_ref : TypeRef → Checked TypeName
  type_name_from_ref (type_ref segments refs suffixes span) =
      let args = arguments_from_refs refs in
      at_most_one (second_suffix suffixes) (
        then_checked args (λ args.
          map_checked (with_suffixes suffixes)
            (base_type (type_ref segments refs suffixes span) args)))

  -- The arguments of a type, each with its syntax.
  pub arguments_from_refs : TypeRefs → Checked TypeArguments
  arguments_from_refs no_refs = inl no_arguments
  arguments_from_refs (ref syntax refs) =
      let ty = type_name_from_ref syntax in
      let rest = arguments_from_refs refs in
      then_checked ty (λ ty. map_checked (type_argument syntax ty (ref_span syntax)) rest)

unfoldable pub named_type_from_ref : TypeRef → Checked NamedType
unfolding arguments_from_refs from_type_ref
named_type_from_ref (type_ref segments refs suffixes span) =
    map_checked (from_type_ref (type_ref segments refs suffixes span)) (arguments_from_refs refs)

-- `?` on a result of what does not read the parser.
abbrev pub lift : {A : Type 0} → Checked A → M A
lift (inl a) p = done a p
lift (inr d) p = failed d p

unfoldable pub parse_type_name : M (TypeName × Span)
unfolding parse_type_ref type_name_from_ref
parse_type_name = do
  syntax ← parse_type_ref
  ty ← lift (type_name_from_ref syntax)
  pure (ty, ref_span syntax)

pub data ReturnType : Type 0 where
  void : ReturnType
  value : TypeName → ReturnType

unfoldable pub parse_return_type : M (ReturnType × Span)
unfolding check advance parse_type_name
parse_return_type = do
  found ← check Token.void_keyword
  elim found [
    | true ↦ do token ← advance; pure (void, token.span)
    | false ↦ do (ty, span) ← parse_type_name; pure (value ty, span)
  ]

abbrev no_suffix : List Span → M (Unit {0})
no_suffix [] p = done tt p
no_suffix (span ∷ suffixes) p =
    failed (Diagnostic.new (codes "hierarchy and trigger types cannot use array suffixes") span) p

abbrev ref_suffixes : TypeRef → List Span
ref_suffixes (type_ref segments refs suffixes span) = suffixes

unfoldable pub parse_named_type : M NamedType
unfolding parse_type_ref named_type_from_ref Diagnostic.new
parse_named_type = do
  syntax ← parse_type_ref
  no_suffix (ref_suffixes syntax)
  lift (named_type_from_ref syntax)
