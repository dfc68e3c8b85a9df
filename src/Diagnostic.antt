-- ===== src/Diagnostic.antt =====
-- src/diagnostic.rs: errors as the compiler and the runtime report them. Rendering is left out.
pub mod Kinds
mod Examples
use apex_exec.Prelude.{Bool, true, false, Option, none, some, List, [], ◌∷◌, ◌++◌, if◌then◌else◌}
use apex_exec.Prelude.Text.{Text, codes, text_eq, lowercase}
use apex_exec.Span.{Span}

pub data ExceptionKind : Type 0 where
  null_pointer list math type_error string illegal_argument final assert query dml async callout :
      ExceptionKind
  user_defined : Text → ExceptionKind

unfoldable pub from_apex_name : Text → ExceptionKind
unfolding lowercase
from_apex_name name =
    let l = lowercase name in
    if text_eq l (codes "nullpointerexception")
    then null_pointer
    else if text_eq l (codes "listexception")
    then list
    else if text_eq l (codes "mathexception")
    then math
    else if text_eq l (codes "typeexception")
    then type_error
    else if text_eq l (codes "stringexception")
    then string
    else if text_eq l (codes "illegalargumentexception")
    then illegal_argument
    else if text_eq l (codes "finalexception")
    then final
    else if text_eq l (codes "assertexception")
    then assert
    else if text_eq l (codes "queryexception")
    then query
    else if text_eq l (codes "dmlexception")
    then dml
    else if text_eq l (codes "asyncexception")
    then async
    else if text_eq l (codes "calloutexception")
    then callout
    else user_defined name

unfoldable pub apex_name : ExceptionKind → Text
apex_name null_pointer = codes "NullPointerException"
apex_name list = codes "ListException"
apex_name math = codes "MathException"
apex_name type_error = codes "TypeException"
apex_name string = codes "StringException"
apex_name illegal_argument = codes "IllegalArgumentException"
apex_name final = codes "FinalException"
apex_name assert = codes "AssertException"
apex_name query = codes "QueryException"
apex_name dml = codes "DmlException"
apex_name async = codes "AsyncException"
apex_name callout = codes "CalloutException"
apex_name (user_defined name) = name

pub record StackFrame : Type 0 where
  pub method : Text
  pub span : Span

pub record Diagnostic : Type 0 where
  pub message : Text
  pub span : Span
  pub exception_type : Option Text
  pub exception_kind : Option ExceptionKind
  pub stack_trace : List StackFrame

unfoldable pub new : Text → Span → Diagnostic
new message span = record {
  message = message;
  span = span;
  exception_type = none;
  exception_kind = none;
  stack_trace = [];
}

unfoldable pub runtime_exception : Text → Text → Span → Diagnostic
unfolding from_apex_name apex_name
runtime_exception name message span =
    let kind = from_apex_name name in
    record {
      message = message;
      span = span;
      exception_type = some (apex_name kind);
      exception_kind = some kind;
      stack_trace = [];
    }

unfoldable pub push_frame : Text → Span → Diagnostic → Diagnostic
push_frame method span d = elim d.exception_type [
  | none ↦ d
  | some name ↦ record d {
    stack_trace = d.stack_trace ++ record { method = method; span = span } ∷ [];
  }
]
