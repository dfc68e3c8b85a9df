-- ===== src/Lib.antt =====
-- apex-exec: the core of a deterministic compiler and runtime for Apex, as definitions that follow
-- the Rust source and theorems about them.
--
-- The parts and their files (paths from the repository's root):
-- Lexer: src/lexer.rs and src/token.rs. Lexer has the state, Lexer/Token the tokens, Lexer/Symbols the
--   tables of keywords and symbols, Lexer/Scan the loops and `tokenize`. A lexer is at the characters
--   that remain, and its cursor counts the bytes before them; `char::is_whitespace` is a parameter.
-- Parser: src/parser.rs (Parser), src/parser/types.rs (Parser/Types, Parser/TypeNames and the looks
--   ahead, Parser/Lookahead), src/parser/expressions.rs (Parser/Primary, Parser/Operand and the levels
--   of precedence, Parser/Expressions), over the trees of src/ast.rs (Ast/Types, Ast/Expression). A
--   method is a function of the parser to a result, an error, a panic, or fuel that ran out. Queries
--   are src/parser/queries.rs (Parser/Queries and below it Conditions and Bodies), over the
--   trees of Ast/Query; the type that holds a query in an expression is a parameter, so that the
--   trees are not one mutual block. Parser/Reads says what a method may do, and Parser/Total shows it.
-- Semantic: src/semantic/flow.rs decides whether a body definitely returns. Semantic/Statement has
--   the statements of src/ast.rs, Semantic/Flow the analysis function by function, and
--   Semantic/Flow/Exec the control flow of `execute_statement`, `execute_try`, `execute_block`,
--   `execute_for` and `execute_for_each` of src/runtime.rs as a relation from code to outcomes, in
--   which expressions may evaluate or fail and tests go either way. Semantic/Overload is
--   src/semantic/overload.rs.
-- TestRunner: the guards, the selection and the threads of `run_internal` in src/test_runner.rs. The
--   shared counter, the list behind the lock and where each thread stands are a state, and a move of
--   one thread is a step; TestRunner/Schedule has the invariant. What executing a case gives is a
--   parameter, and the counter is far from wrapping.
-- Runtime/Value and Runtime/Numeric: the values, and the whole of src/runtime/numeric.rs. Numbers
--   are exact integers with the i32 and i64 ranges tested where Rust tests them; shifts and bit
--   operations go through the two's complement of the width. rust_decimal is a parameter.
-- Runtime/Instrumentation: src/runtime/instrumentation.rs and the capture loops of src/runtime.rs
--   that feed it. Truncation cuts UTF-8 bytes, Builder fills one snapshot, State keeps the trace and
--   Capture runs a statement's observation. The sizes of the Rust structures are parameters, and
--   usize saturation is written out.
-- Debugger: src/debugger.rs, the session over a recorded trace. The host's paths are a parameter:
--   a type with its equality, `file_name` and `is_relative`.
-- Project/Dependency: the graph of src/project/dependency.rs and the closure of changed files.
-- Platform/RecordId and Platform/Record: identifiers and records of src/platform/storage.rs.
-- Platform/Security: src/platform/security.rs, its policy operations (Security), and who may
--   reach a record (Security/Access).
-- Diagnostic and Span: the errors and source ranges of src/diagnostic.rs and src/span.rs.
-- Prelude: lists and integers over native numbers, texts as lists of codes (of characters in the
--   lexer and the parser, of bytes elsewhere), and association lists for
--   the maps of the program.
--
-- The parser is created from the tokens of the lexer, and checks them first. The parser of whole
-- expressions is called by the lists and operands below it, as `Recursion` of Parser/Primary.
-- The interpreter hands its statements to the instrumentation, whose trace the debugger session
-- moves over; arithmetic reports its errors as diagnostics; record access reads the owner field of
-- a record and asks the role hierarchy.
--
-- Bounds and fuel: the role walk runs on one more than the number of role parents, as it visits no
-- role twice, and the dependent closure on the number of changed files and entries, as each file is
-- queued once. The loops of the lexer run on one more than the characters that remain, and
-- those of the parser on one more than the tokens, as each round takes one or more. Other loops are
-- structural. Errors are values of the result types; `none` of a fuelled loop is fuel that ran out,
-- and `none` of `merge` in Span is a Rust panic.
--
-- Not modelled: the parsing of declarations and statements, with the nested types that a
-- class declaration leaves for later, name resolution and type checking, expression evaluation, the
-- store and its aliasing, the execution of queries, the SQLite database, metadata loading, project discovery, the
-- discovery, report and coverage of tests, and the protocols, tools and services around them. They
-- are large or are I/O.
pub mod Prelude
pub mod Semantic
pub mod Span
pub mod Diagnostic
pub mod Runtime
pub mod Platform
pub mod Debugger
pub mod Project
pub mod Lexer
pub mod Ast
pub mod Parser
pub mod TestRunner
