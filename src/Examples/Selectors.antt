-- ===== src/Examples/Selectors.antt =====
-- App selectors on an example: expressions that are one variable, over objects that are texts.
use activemq_artemis_operato.Selectors.{
  Expr, ident, Variables, bool_value, Cel, Metadata, Lru, matches, validate_expression,
  analyze_variable_usage, select, call, expr_then, no_exprs, other,
}
use activemq_artemis_operato.Selectors.Walk.{mentions}
use activemq_artemis_operato.Selectors.Exact.{
  IsLocal, IsSound, matches_always, matches-matches_always,
}
use activemq_artemis_operato.Base.{
  String, true, false, none, some, List, [], ◌≡◌, refl, sym, ap, ◌∙◌, ◌==◌, eq_iff, ◌⊎◌, inl, inr,
  arith, Bool-cases, lookup, insert, lookup-insert, if◌then◌else◌, if_true, if_false,
}
use activemq_artemis_operato.Errors.{Result, ok}
use activemq_artemis_operato.Api.{BrokerService}
use activemq_artemis_operato.Examples.{catalog, broker}

abbrev cel : Cel Expr Expr String
cel = record {
  compile = λ s. ok (ident s);
  returns_bool = λ e. true;
  output_type = λ e. "bool";
  expr = λ e. e;
  program = λ e. ok e;
  eval = λ e vars.
      if mentions "appNamespace" e
      then ok (bool_value (vars.app_namespace == "shop"))
      else ok (bool_value (vars.app == vars.service));
  app_object = λ app. ok app.namespace;
  service_object = λ service. ok service.namespace;
  namespace_object = λ name. ok name;
  nil_object = "";
  empty_object = "";
}

abbrev Entry : Type 0
Entry = String × Metadata Expr

abbrev lru : Lru (List Entry) Expr
unfolding lookup insert
lru = record { peek = λ c k. lookup k c; touch = λ c k. c; add = λ c k m. insert k m c }

same_program : (a p : Expr) → ◌≡◌ {A = Result Expr} (ok a) (ok p) → a ≡ p
same_program a p h = ground (arith, h)

app_free :
    (ast p : Expr) (vars : Variables String) (o : String)
    → ast ≡ p
    → mentions "appNamespace" ast ≡ false
    → cel.eval p (record vars { app_namespace = o }) ≡ cel.eval p vars
app_free ast p vars o q e =
    let f : mentions "appNamespace" p ≡ false = ap (mentions "appNamespace") (sym q) ∙ e in
    rw f refl

kept :
    (c : List Entry) (k j : String) (m n : Metadata Expr)
    → lookup j (insert k n c) ≡ some m
    → ((j ≡ k) × (m ≡ n)) ⊎ (lookup j c ≡ some m)
kept c k j m n e = elim (Bool-cases (k == j)) [
  | inl q ↦
      let same : some n ≡ some m =
        sym (lookup-insert k j n c ∙ if_true (k == j) (some n) (lookup j c) q) ∙ e in
      inl (sym ((eq_iff k j).0 q), ground (arith, same))
  | inr q ↦ inr (sym (lookup-insert k j n c ∙ if_false (k == j) (some n) (lookup j c) q) ∙ e)
]

libraries : IsLocal cel lru true
unfolding lru
libraries = record {
  app_namespace_lem = λ ast p vars o h e. app_free ast p vars o (same_program ast p h) e;
  service_namespace_lem = λ ast p vars o h e. refl;
  touched = λ c k j m e. e;
  added = λ c k j m n e. kept c k j m n e;
}

empty-IsSound : IsSound cel lru true []
unfolding lru lookup
empty-IsSound = λ j m e. absurd (ground (arith, e))

abbrev by_namespace : BrokerService
by_namespace = record broker {
  spec = record broker.spec { app_selector_expression = "appNamespace" };
}

matches-matches_always_example :
    ((matches cel lru true catalog by_namespace []).0
      ≡ matches_always cel lru true libraries catalog by_namespace)
    × IsSound cel lru true (matches cel lru true catalog by_namespace []).1
matches-matches_always_example =
    matches-matches_always cel lru true libraries catalog by_namespace [] empty-IsSound

uses :
    analyze_variable_usage (call other (expr_then (select (ident "serviceNamespace")) no_exprs))
    ≡ record { uses_app_namespace = false; uses_service_namespace = true }
unfolding analyze_variable_usage
uses = refl

valid : validate_expression cel lru true "appNamespace" ≡ none
unfolding validate_expression
valid = refl
