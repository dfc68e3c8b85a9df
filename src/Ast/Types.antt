-- ===== src/Ast/Types.antt =====
-- The types of src/ast.rs. A list of a type that holds it is a type of its own.
use apex_exec.Prelude.{Bool, true, false, Option, some, List, [], ◌∷◌, ◌++◌}
use apex_exec.Prelude.Text.{Text, codes, lowercase}
use apex_exec.Prelude.Map.{Map, get, text_key}
use apex_exec.Span.{Span}

pub record Identifier : Type 0 where
  pub spelling : Text
  pub canonical : Text
  pub span : Span

-- `Identifier::new`
unfoldable pub identifier : Text → Span → Identifier
unfolding lowercase
identifier spelling span = record {
  spelling = spelling;
  canonical = lowercase spelling;
  span = span;
}

mutual
  pub data TypeRef : Type 0 where
    type_ref : List Identifier → TypeRefs → List Span → Span → TypeRef

  -- `Vec<TypeRef>`
  pub data TypeRefs : Type 0 where
    no_refs : TypeRefs
    ref : TypeRef → TypeRefs → TypeRefs

abbrev pub ref_span : TypeRef → Span
ref_span (type_ref segments arguments suffixes span) = span

mutual
  pub data TypeName : Type 0 where
    string boolean integer long decimal date datetime time id blob object pattern : TypeName
    matcher http http_request http_response queueable_context batchable_context : TypeName
    query_locator save_result upsert_result delete_result undelete_result : TypeName
    database_error status_code access_level access_type sobject_access_decision : TypeName
    schedulable_context sobject_type describe_sobject_result exception : TypeName
    null_pointer_exception list_exception math_exception type_exception : TypeName
    string_exception illegal_argument_exception final_exception assert_exception : TypeName
    query_exception dml_exception no_access_exception async_exception : TypeName
    aggregate_result type : TypeName
    custom : NamedType → TypeName
    list set iterable : TypeName → TypeName
    map : TypeName → TypeName → TypeName

  pub data NamedType : Type 0 where
    named_type : Text → Text → Option TypeRef → TypeArguments → Span → NamedType

  -- `Vec<TypeArgument>`
  pub data TypeArguments : Type 0 where
    no_arguments : TypeArguments
    type_argument : TypeRef → TypeName → Span → TypeArguments → TypeArguments

-- `join(".")`
unfoldable pub join : List Text → Text
join [] = []
join (segment ∷ []) = segment
join (segment ∷ next ∷ rest) = segment ++ b'.' ∷ join (next ∷ rest)

abbrev pub spellings : List Identifier → List Text
spellings [] = []
spellings (s ∷ segments) = s.spelling ∷ spellings segments

abbrev pub canonicals : List Identifier → List Text
canonicals [] = []
canonicals (s ∷ segments) = s.canonical ∷ canonicals segments

unfoldable pub spelling : TypeRef → Text
unfolding join
spelling (type_ref segments arguments suffixes span) = join (spellings segments)

unfoldable pub canonical : TypeRef → Text
unfolding join
canonical (type_ref segments arguments suffixes span) = join (canonicals segments)

-- `NamedType::from_type_ref`
unfoldable pub from_type_ref : TypeRef → TypeArguments → NamedType
unfolding spelling canonical
from_type_ref (type_ref segments refs suffixes span) args =
    let syntax = type_ref segments refs suffixes span in
    named_type (spelling syntax) (canonical syntax) (some syntax) args span

abbrev apex_names : Map Text TypeName
apex_names =
    (codes "string", string)
    ∷ (codes "boolean", boolean)
    ∷ (codes "integer", integer)
    ∷ (codes "long", long)
    ∷ (codes "decimal", decimal)
    ∷ (codes "date", date)
    ∷ (codes "datetime", datetime)
    ∷ (codes "time", time)
    ∷ (codes "id", id)
    ∷ (codes "blob", blob)
    ∷ (codes "object", object)
    ∷ (codes "pattern", pattern)
    ∷ (codes "matcher", matcher)
    ∷ (codes "http", http)
    ∷ (codes "httprequest", http_request)
    ∷ (codes "httpresponse", http_response)
    ∷ (codes "queueablecontext", queueable_context)
    ∷ (codes "system.queueablecontext", queueable_context)
    ∷ (codes "batchablecontext", batchable_context)
    ∷ (codes "database.batchablecontext", batchable_context)
    ∷ (codes "querylocator", query_locator)
    ∷ (codes "database.querylocator", query_locator)
    ∷ (codes "saveresult", save_result)
    ∷ (codes "database.saveresult", save_result)
    ∷ (codes "upsertresult", upsert_result)
    ∷ (codes "database.upsertresult", upsert_result)
    ∷ (codes "deleteresult", delete_result)
    ∷ (codes "database.deleteresult", delete_result)
    ∷ (codes "undeleteresult", undelete_result)
    ∷ (codes "database.undeleteresult", undelete_result)
    ∷ (codes "error", database_error)
    ∷ (codes "database.error", database_error)
    ∷ (codes "statuscode", status_code)
    ∷ (codes "system.statuscode", status_code)
    ∷ (codes "accesslevel", access_level)
    ∷ (codes "system.accesslevel", access_level)
    ∷ (codes "database.accesslevel", access_level)
    ∷ (codes "accesstype", access_type)
    ∷ (codes "system.accesstype", access_type)
    ∷ (codes "sobjectaccessdecision", sobject_access_decision)
    ∷ (codes "system.sobjectaccessdecision", sobject_access_decision)
    ∷ (codes "schedulablecontext", schedulable_context)
    ∷ (codes "system.schedulablecontext", schedulable_context)
    ∷ (codes "sobjecttype", sobject_type)
    ∷ (codes "schema.sobjecttype", sobject_type)
    ∷ (codes "describesobjectresult", describe_sobject_result)
    ∷ (codes "schema.describesobjectresult", describe_sobject_result)
    ∷ (codes "exception", exception)
    ∷ (codes "nullpointerexception", null_pointer_exception)
    ∷ (codes "listexception", list_exception)
    ∷ (codes "mathexception", math_exception)
    ∷ (codes "typeexception", type_exception)
    ∷ (codes "stringexception", string_exception)
    ∷ (codes "illegalargumentexception", illegal_argument_exception)
    ∷ (codes "finalexception", final_exception)
    ∷ (codes "assertexception", assert_exception)
    ∷ (codes "queryexception", query_exception)
    ∷ (codes "dmlexception", dml_exception)
    ∷ (codes "noaccessexception", no_access_exception)
    ∷ (codes "asyncexception", async_exception)
    ∷ (codes "aggregateresult", aggregate_result)
    ∷ (codes "type", type)
    ∷ (codes "system.type", type)
    ∷ []

unfoldable pub from_apex_name : Text → Option TypeName
unfolding lowercase get
from_apex_name name = get (lowercase name) apex_names

unfoldable pub apex_name : TypeName → Text
apex_name string = codes "String"
apex_name boolean = codes "Boolean"
apex_name integer = codes "Integer"
apex_name long = codes "Long"
apex_name decimal = codes "Decimal"
apex_name date = codes "Date"
apex_name datetime = codes "Datetime"
apex_name time = codes "Time"
apex_name id = codes "Id"
apex_name blob = codes "Blob"
apex_name object = codes "Object"
apex_name pattern = codes "Pattern"
apex_name matcher = codes "Matcher"
apex_name http = codes "Http"
apex_name http_request = codes "HttpRequest"
apex_name http_response = codes "HttpResponse"
apex_name queueable_context = codes "System.QueueableContext"
apex_name batchable_context = codes "Database.BatchableContext"
apex_name query_locator = codes "Database.QueryLocator"
apex_name save_result = codes "Database.SaveResult"
apex_name upsert_result = codes "Database.UpsertResult"
apex_name delete_result = codes "Database.DeleteResult"
apex_name undelete_result = codes "Database.UndeleteResult"
apex_name database_error = codes "Database.Error"
apex_name status_code = codes "StatusCode"
apex_name access_level = codes "AccessLevel"
apex_name access_type = codes "System.AccessType"
apex_name sobject_access_decision = codes "SObjectAccessDecision"
apex_name schedulable_context = codes "System.SchedulableContext"
apex_name sobject_type = codes "Schema.SObjectType"
apex_name describe_sobject_result = codes "Schema.DescribeSObjectResult"
apex_name exception = codes "Exception"
apex_name null_pointer_exception = codes "NullPointerException"
apex_name list_exception = codes "ListException"
apex_name math_exception = codes "MathException"
apex_name type_exception = codes "TypeException"
apex_name string_exception = codes "StringException"
apex_name illegal_argument_exception = codes "IllegalArgumentException"
apex_name final_exception = codes "FinalException"
apex_name assert_exception = codes "AssertException"
apex_name query_exception = codes "QueryException"
apex_name dml_exception = codes "DmlException"
apex_name no_access_exception = codes "NoAccessException"
apex_name async_exception = codes "AsyncException"
apex_name aggregate_result = codes "AggregateResult"
apex_name type = codes "System.Type"
apex_name (custom (named_type spelling canonical syntax args span)) = spelling
apex_name (list element) = codes "List<" ++ apex_name element ++ codes ">"
apex_name (set element) = codes "Set<" ++ apex_name element ++ codes ">"
apex_name (map key value) =
    codes "Map<" ++ apex_name key ++ codes "," ++ apex_name value ++ codes ">"
apex_name (iterable element) = codes "Iterable<" ++ apex_name element ++ codes ">"

unfoldable pub is_exception : TypeName → Bool
is_exception exception = true
is_exception null_pointer_exception = true
is_exception list_exception = true
is_exception math_exception = true
is_exception type_exception = true
is_exception string_exception = true
is_exception illegal_argument_exception = true
is_exception final_exception = true
is_exception assert_exception = true
is_exception query_exception = true
is_exception dml_exception = true
is_exception no_access_exception = true
is_exception async_exception = true
is_exception _ = false
