-- ===== src/Selectors.antt =====
-- pkg/appselector/cel.go: the expression by which a service selects apps. The library cel-go, the cache of
-- golang-lru and the conversion to unstructured objects are parameters.
pub mod Walk
pub mod Exact
use activemq_artemis_operato.Base.{
  String, Bool, true, false, Option, none, some, List, [], ◌∷◌, ◌==◌, if◌then◌else◌, concat,
}
use activemq_artemis_operato.Errors.{Error, plain, error_text, Result, ok, err}
use activemq_artemis_operato.Api.{BrokerApp, BrokerService}

-- `exprpb.Expr`, as far as it is walked; `other` is a constant or nil.
mutual
  pub data Expr : Type 0 where
    other : Expr
    ident : String → Expr
    select : Expr → Expr
    call : Expr → Exprs → Expr
    list : Exprs → Expr
    struct : Entries → Expr
    comprehension : Expr → Expr → Expr → Expr → Expr → Expr

  pub data Exprs : Type 0 where
    no_exprs : Exprs
    expr_then : Expr → Exprs → Exprs

  pub data Entries : Type 0 where
    no_entries : Entries
    entry_then : Expr → Expr → Entries → Entries

-- The two flags that the walk sets.
pub record Usage : Type 0 where
  pub uses_app_namespace : Bool
  pub uses_service_namespace : Bool

abbrev pub note_ident : String → Usage → Usage
note_ident name u =
    if name == "appNamespace"
    then record u { uses_app_namespace = true }
    else if name == "serviceNamespace"
    then record u { uses_service_namespace = true }
    else u

unfoldable mutual
  pub walk_expr : Expr → Usage → Usage
  walk_expr other u = u
  walk_expr (ident name) u = note_ident name u
  walk_expr (select operand) u = walk_expr operand u
  walk_expr (call target args) u = walk_exprs args (walk_expr target u)
  walk_expr (list elements) u = walk_exprs elements u
  walk_expr (struct entries) u = walk_entries entries u
  walk_expr (comprehension range accu condition step result) u =
      walk_expr result (walk_expr step (walk_expr condition (walk_expr accu (walk_expr range u))))

  pub walk_exprs : Exprs → Usage → Usage
  walk_exprs no_exprs u = u
  walk_exprs (expr_then e es) u = walk_exprs es (walk_expr e u)

  pub walk_entries : Entries → Usage → Usage
  walk_entries no_entries u = u
  walk_entries (entry_then key value es) u = walk_entries es (walk_expr value (walk_expr key u))

unfoldable pub analyze_variable_usage : Expr → Usage
unfolding walk_expr
analyze_variable_usage e =
    walk_expr e (record { uses_app_namespace = false; uses_service_namespace = false })

abbrev pub default_expression : String
default_expression = "app.metadata.namespace == service.metadata.namespace"

-- The variables of an evaluation.
pub record Variables (Object : Type 0) : Type 0 where
  pub app : Object
  pub service : Object
  pub app_namespace : Object
  pub service_namespace : Object

-- A value of an evaluation: a Boolean, or one of another type, with the type's name.
pub data Value : Type 0 where
  bool_value : Bool → Value
  other_value : String → Value

-- cel-go's environment, and the objects that it works on. The nil map and the empty map are told apart.
pub record Cel (Ast Program Object : Type 0) : Type 0 where
  pub compile : String → Result Ast
  pub returns_bool : Ast → Bool
  pub output_type : Ast → String
  pub expr : Ast → Expr
  pub program : Ast → Result Program
  pub eval : Program → Variables Object → Result Value
  pub app_object : BrokerApp → Result Object
  pub service_object : BrokerService → Result Object
  pub namespace_object : String → Result Object
  pub nil_object : Object
  pub empty_object : Object

-- A cached program with what it uses.
pub record Metadata (Program : Type 0) : Type 0 where
  pub program : Program
  pub usage : Usage

-- The cache: `Get`, which also changes how recent the entries are, and `Add`, which may drop some.
pub record Lru (Cache Program : Type 0) : Type 0 where
  pub peek : Cache → String → Option (Metadata Program)
  pub touch : Cache → String → Cache
  pub add : Cache → String → Metadata Program → Cache

abbrev wrapped : {A : Type 0} → String → Error → Result A
wrapped text e = err (plain (concat (text ∷ error_text e ∷ [])))

module _ {Ast Program Object Cache : Type 0} (cel : Cel Ast Program Object)
    (lru : Lru Cache Program) (permission : Bool) where
  abbrev check_type : Ast → Option Error
  check_type ast =
      if cel.returns_bool ast
      then none
      else some
          (plain (concat ("CEL expression must return boolean, got " ∷ cel.output_type ast ∷ [])))

  abbrev compiled_error : Result Ast → Option Error
  compiled_error (err e) =
      some (plain (concat ("failed to compile CEL expression: " ∷ error_text e ∷ [])))
  compiled_error (ok ast) = check_type ast

  unfoldable pub validate_expression : String → Option Error
  validate_expression expression =
      if expression == "" then none else compiled_error (cel.compile expression)

  abbrev with_program : Ast → Result Program → Result (Metadata Program)
  with_program ast (err e) = wrapped "failed to create CEL program: " e
  with_program ast (ok p) =
      ok (record { program = p; usage = analyze_variable_usage (cel.expr ast) })

  abbrev with_ast : Ast → Option Error → Result (Metadata Program)
  with_ast ast (some e) = err e
  with_ast ast none = with_program ast (cel.program ast)

  abbrev of_compiled : Result Ast → Result (Metadata Program)
  of_compiled (err e) = wrapped "failed to compile CEL expression: " e
  of_compiled (ok ast) = with_ast ast (check_type ast)

  -- What `getOrCompileProgram` does where the cache has no entry, up to the entry's addition.
  unfoldable pub compile_program : String → Result (Metadata Program)
  unfolding analyze_variable_usage
  compile_program expression = of_compiled (cel.compile expression)

  abbrev cached : Cache → String → Result (Metadata Program) → Result (Metadata Program) × Cache
  cached c expression (err e) = (err e, c)
  cached c expression (ok m) = (ok m, lru.add c expression m)

  abbrev looked_up : Cache → String → Option (Metadata Program) → Result (Metadata Program) × Cache
  looked_up c expression (some m) = (ok m, c)
  looked_up c expression none = cached c expression (compile_program expression)

  unfoldable pub get_or_compile_program : String → Cache → Result (Metadata Program) × Cache
  unfolding compile_program
  get_or_compile_program expression c =
      looked_up (lru.touch c expression) expression (lru.peek c expression)

  unfoldable pub fetch_namespace : String → Result Object
  fetch_namespace name =
      if permission
      then cel.namespace_object name
      else err (plain "operator lacks permission to access namespaces")

  abbrev pub or_empty : Result Object → Object
  or_empty (ok o) = o
  or_empty (err e) = cel.empty_object

  -- A namespace is fetched only where the expression names it.
  abbrev pub fetched_if : Bool → String → Object
  fetched_if uses name = if uses then or_empty (fetch_namespace name) else cel.nil_object

  abbrev pub as_bool : Result Value → Result Bool
  as_bool (err e) = wrapped "failed to evaluate CEL expression: " e
  as_bool (ok (bool_value b)) = ok b
  as_bool (ok (other_value t)) =
      err (plain (concat ("CEL expression returned non-boolean type: " ∷ t ∷ [])))

  module _ (app : BrokerApp) (service : BrokerService) where
    abbrev pub eval_with : Program → Object → Object → Result Object → Result Object → Result Bool
    eval_with p app_ns service_ns (err e) s =
        wrapped "failed to convert BrokerApp to unstructured: " e
    eval_with p app_ns service_ns (ok a) (err e) =
        wrapped "failed to convert BrokerService to unstructured: " e
    eval_with p app_ns service_ns (ok a) (ok s) = as_bool (
        cel.eval p
          (record { app = a; service = s; app_namespace = app_ns; service_namespace = service_ns }))

    abbrev pub eval_metadata : Result (Metadata Program) → Result Bool
    eval_metadata (err e) = err e
    eval_metadata (ok m) =
        eval_with m.program (fetched_if m.usage.uses_app_namespace app.namespace)
          (fetched_if m.usage.uses_service_namespace service.namespace) (cel.app_object app)
          (cel.service_object service)

    unfoldable pub evaluate_expression : String → Cache → Result Bool × Cache
    unfolding get_or_compile_program fetch_namespace
    evaluate_expression expression c =
        if expression == ""
        then (err (plain "expression cannot be empty"), c)
        else (let (m, d) = get_or_compile_program expression c in (eval_metadata m, d))

    unfoldable pub matches : Cache → Result Bool × Cache
    unfolding evaluate_expression
    matches c =
        let expression = service.spec.app_selector_expression in
        evaluate_expression (if expression == "" then default_expression else expression) c
