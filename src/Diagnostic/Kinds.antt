-- ===== src/Diagnostic/Kinds.antt =====
-- The two directions of the exception names.
use apex_exec.Prelude.{◌≡◌, refl, sym, ◌∙◌, inl, inr, if◌then◌else◌, Bool-cases}
use apex_exec.Prelude.Text.{Text, text_eq, eq_of_text_eq, lowercase}
use apex_exec.Diagnostic.{
  ExceptionKind, from_apex_name, apex_name, user_defined, null_pointer, list, math, type_error,
  string, illegal_argument, final, assert, query, dml, async, callout,
}

-- One row of the table: the name of its kind is the text that it is found by.
row :
    (l entry : Text) (kind rest : ExceptionKind)
    → lowercase (apex_name kind) ≡ entry
    → lowercase (apex_name rest) ≡ l
    → lowercase (apex_name (if text_eq l entry then kind else rest)) ≡ l
row l entry kind rest h k = elim (Bool-cases (text_eq l entry)) [
  | inl e ↦ rw e (h ∙ sym (eq_of_text_eq l entry e))
  | inr e ↦ rw e k
]

-- Reading a name gives a kind whose own name is the same up to ASCII case.
pub apex_name-from_apex_name :
    (name : Text) → lowercase (apex_name (from_apex_name name)) ≡ lowercase name
unfolding apex_name from_apex_name
apex_name-from_apex_name name =
    let l = lowercase name in
    let same = λ (t : Text). l in
    row l _ null_pointer _ refl (
      row l _ list _ refl (
        row l _ math _ refl (
          row l _ type_error _ refl (
            row l _ string _ refl (
              row l _ illegal_argument _ refl (
                row l _ final _ refl (
                  row l _ assert _ refl (
                    row l _ query _ refl (
                      row l _ dml _ refl (
                        row l _ async _ refl
                          (row l _ callout (user_defined name) refl refl)))))))))))
