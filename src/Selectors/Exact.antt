-- ===== src/Selectors/Exact.antt =====
-- The cache and the skipped fetches do not change whether an app matches.
use activemq_artemis_operato.Selectors.{
  Usage, Variables, Cel, Metadata, Lru, analyze_variable_usage, compile_program, with_program,
  with_ast, of_compiled, check_type, get_or_compile_program, looked_up, cached, fetch_namespace,
  or_empty, fetched_if, as_bool, eval_with, eval_metadata, evaluate_expression, matches,
  default_expression,
}
use activemq_artemis_operato.Selectors.Walk.{mentions, analyze_variable_usage-mentions}
use activemq_artemis_operato.Base.{
  String, Bool, false, Option, none, some, ◌≡◌, refl, sym, ap, ◌∙◌, ◌==◌, ◌⊎◌, inl, inr, arith,
  Bool-cases, if◌then◌else◌,
}
use activemq_artemis_operato.Errors.{Error, Result, ok, err}
use activemq_artemis_operato.Api.{BrokerApp, BrokerService}

module _ {Ast Program Object Cache : Type 0} (cel : Cel Ast Program Object)
    (lru : Lru Cache Program) (permission : Bool) where
  -- What the libraries promise: an evaluation does not depend on a variable that the expression does not
  -- mention, and the cache gives only what was added to it under the same key.
  pub record IsLocal : Type 0 where
    pub app_namespace_lem :
        (ast : Ast) (p : Program) (vars : Variables Object) (o : Object)
        → cel.program ast ≡ ok p
        → mentions "appNamespace" (cel.expr ast) ≡ false
        → cel.eval p (record vars { app_namespace = o }) ≡ cel.eval p vars
    pub service_namespace_lem :
        (ast : Ast) (p : Program) (vars : Variables Object) (o : Object)
        → cel.program ast ≡ ok p
        → mentions "serviceNamespace" (cel.expr ast) ≡ false
        → cel.eval p (record vars { service_namespace = o }) ≡ cel.eval p vars
    pub touched :
        (c : Cache) (k j : String) (m : Metadata Program)
        → lru.peek (lru.touch c k) j ≡ some m
        → lru.peek c j ≡ some m
    pub added :
        (c : Cache) (k j : String) (m n : Metadata Program)
        → lru.peek (lru.add c k n) j ≡ some m
        → ((j ≡ k) × (m ≡ n)) ⊎ (lru.peek c j ≡ some m)

  -- Each entry of the cache is what its expression compiles to.
  abbrev pub IsSound : Cache → Type 0
  IsSound c =
      (j : String) (m : Metadata Program)
      → lru.peek c j ≡ some m
      → compile_program cel lru permission j ≡ ok m

  module _ (laws : IsLocal) where
    touch-IsSound : (c : Cache) (k : String) → IsSound c → IsSound (lru.touch c k)
    touch-IsSound c k h j m e = h j m (laws.touched c k j m e)

    cached-exact :
        (d : Cache) (k : String) (r : Result (Metadata Program))
        → compile_program cel lru permission k ≡ r
        → IsSound d
        → ((cached cel lru permission d k r).0 ≡ r) × IsSound (cached cel lru permission d k r).1
    cached-exact d k (err e) h s = (refl, s)
    cached-exact d k (ok n) h s = (
      refl,
      λ j m e. elim (laws.added d k j m n e) [
        | inl (q, w) ↦ ap (compile_program cel lru permission) q ∙ (h ∙ ap ok (sym w))
        | inr old ↦ s j m old
      ],
    )

    looked_up-exact :
        (c d : Cache) (k : String) (o : Option (Metadata Program))
        → IsSound d
        → lru.peek c k ≡ o
        → IsSound c
        → ((looked_up cel lru permission d k o).0 ≡ compile_program cel lru permission k)
          × IsSound (looked_up cel lru permission d k o).1
    looked_up-exact c d k (some m) s e h = (sym (h k m e), s)
    looked_up-exact c d k none s e h =
        cached-exact d k (compile_program cel lru permission k) refl s

    get_or_compile_program-exact :
        (c : Cache) (k : String)
        → IsSound c
        → ((get_or_compile_program cel lru permission k c).0 ≡ compile_program cel lru permission k)
          × IsSound (get_or_compile_program cel lru permission k c).1
    unfolding get_or_compile_program
    get_or_compile_program-exact c k h =
        looked_up-exact c (lru.touch c k) k (lru.peek c k) (touch-IsSound c k h) refl h

    -- A program is that of a syntax tree, with what the tree mentions.
    abbrev FromAst : Metadata Program → Type 0
    FromAst m =
        (ast : Ast) × ((cel.program ast ≡ ok m.program)
          × (m.usage ≡ analyze_variable_usage (cel.expr ast)))

    with_program-FromAst :
        (ast : Ast) (r : Result Program) (m : Metadata Program)
        → cel.program ast ≡ r
        → with_program cel lru permission ast r ≡ ok m
        → FromAst m
    with_program-FromAst ast (err e) m q h = absurd (ground (arith, h))
    with_program-FromAst ast (ok p) m q h =
        (ast, (q ∙ ap ok (ground (arith, h)), ground (arith, h)))

    with_ast-FromAst :
        (ast : Ast) (o : Option Error) (m : Metadata Program)
        → with_ast cel lru permission ast o ≡ ok m
        → FromAst m
    with_ast-FromAst ast (some e) m h = absurd (ground (arith, h))
    with_ast-FromAst ast none m h = with_program-FromAst ast (cel.program ast) m refl h

    of_compiled-FromAst :
        (r : Result Ast) (m : Metadata Program)
        → of_compiled cel lru permission r ≡ ok m
        → FromAst m
    of_compiled-FromAst (err e) m h = absurd (ground (arith, h))
    of_compiled-FromAst (ok ast) m h = with_ast-FromAst ast (check_type cel lru permission ast) m h

    compile_program-FromAst :
        (k : String) (m : Metadata Program)
        → compile_program cel lru permission k ≡ ok m
        → FromAst m
    unfolding compile_program
    compile_program-FromAst k m h = of_compiled-FromAst (cel.compile k) m h

    module _ (app : BrokerApp) (service : BrokerService) where
      abbrev namespace_of : String → Object
      namespace_of name = or_empty cel lru permission (fetch_namespace cel lru permission name)

      -- An evaluation for which both namespaces are always fetched.
      abbrev eval_always : Result (Metadata Program) → Result Bool
      eval_always (err e) = err e
      eval_always (ok m) =
          eval_with cel lru permission app service m.program (namespace_of app.namespace)
            (namespace_of service.namespace) (cel.app_object app) (cel.service_object service)

      -- The match without a cache, with all fetches.
      pub matches_always : Result Bool
      matches_always =
          let expression = service.spec.app_selector_expression in
          eval_always (
            compile_program cel lru permission
              (if expression == "" then default_expression else expression))

      module _ (m : Metadata Program) (from : FromAst m) (a s : Object) where
        abbrev vars : Object → Object → Variables Object
        vars x y = record { app = a; service = s; app_namespace = x; service_namespace = y }

        app_skipped :
            (x y z : Object)
            → m.usage.uses_app_namespace ≡ false
            → cel.eval m.program (vars x z) ≡ cel.eval m.program (vars y z)
        app_skipped x y z h = laws.app_namespace_lem from.0 m.program (vars y z) x from.1.0 (
            sym (
              ap (λ (u : Usage). u.uses_app_namespace)
                (from.1.1 ∙ analyze_variable_usage-mentions (cel.expr from.0)))
            ∙ h)

        service_skipped :
            (x y z : Object)
            → m.usage.uses_service_namespace ≡ false
            → cel.eval m.program (vars z x) ≡ cel.eval m.program (vars z y)
        service_skipped x y z h =
            laws.service_namespace_lem from.0 m.program (vars z y) x from.1.0 (
              sym (
                ap (λ (u : Usage). u.uses_service_namespace)
                  (from.1.1 ∙ analyze_variable_usage-mentions (cel.expr from.0)))
              ∙ h)

        app_fetched :
            (y z : Object)
            → cel.eval m.program (vars (if m.usage.uses_app_namespace then y else cel.nil_object) z)
              ≡ cel.eval m.program (vars y z)
        app_fetched y z = elim (Bool-cases m.usage.uses_app_namespace) [
          | inl e ↦ rw e refl
          | inr e ↦ rw e (app_skipped cel.nil_object y z e)
        ]

        service_fetched :
            (y z : Object)
            → cel.eval m.program
                (vars z (if m.usage.uses_service_namespace then y else cel.nil_object))
              ≡ cel.eval m.program (vars z y)
        service_fetched y z = elim (Bool-cases m.usage.uses_service_namespace) [
          | inl e ↦ rw e refl
          | inr e ↦ rw e (service_skipped cel.nil_object y z e)
        ]

      evaluated :
          (m : Metadata Program)
          → FromAst m
          → (a s : Result Object)
          → eval_with cel lru permission app service m.program
              (fetched_if cel lru permission m.usage.uses_app_namespace app.namespace)
              (fetched_if cel lru permission m.usage.uses_service_namespace service.namespace)
              a
              s
            ≡ eval_with cel lru permission app service m.program
                (namespace_of app.namespace)
                (namespace_of service.namespace)
                a
                s
      evaluated m from (err e) s = refl
      evaluated m from (ok a) (err e) = refl
      evaluated m from (ok a) (ok s) =
          let x = namespace_of app.namespace in
          let y = namespace_of service.namespace in
          ap (as_bool cel lru permission) (
            app_fetched m from a s x (if m.usage.uses_service_namespace then y else cel.nil_object)
            ∙ service_fetched m from a s y x)

      eval_metadata-exact :
          (k : String) (r : Result (Metadata Program))
          → compile_program cel lru permission k ≡ r
          → eval_metadata cel lru permission app service r ≡ eval_always r
      eval_metadata-exact k (err e) h = refl
      eval_metadata-exact k (ok m) h =
          evaluated m (compile_program-FromAst k m h) (cel.app_object app)
            (cel.service_object service)

      evaluate_expression-exact :
          (k : String) (c : Cache)
          → (k == "") ≡ false
          → IsSound c
          → ((evaluate_expression cel lru permission app service k c).0
              ≡ eval_always (compile_program cel lru permission k))
            × IsSound (evaluate_expression cel lru permission app service k c).1
      unfolding evaluate_expression
      evaluate_expression-exact k c filled h =
          let got = get_or_compile_program-exact c k h in
          rw filled (
            ap (eval_metadata cel lru permission app service) got.0
                ∙ eval_metadata-exact k (compile_program cel lru permission k) refl,
            got.1,
          )

      filled_expression : (e : String) → ((if e == "" then default_expression else e) == "") ≡ false
      filled_expression e = elim (Bool-cases (e == "")) [ inl h ↦ rw h refl | inr h ↦ rw h h ]

      -- With an evaluation that does not depend on variables that the expression does not mention, and a
      -- cache that gives only what was added under the key and holds only what its expressions compile
      -- to: an app matches, does not, or gives an error as it does without a cache and with both
      -- namespaces fetched; and the cache that is left holds again only that.
      pub matches-matches_always :
          (c : Cache)
          → IsSound c
          → ((matches cel lru permission app service c).0 ≡ matches_always)
            × IsSound (matches cel lru permission app service c).1
      unfolding matches matches_always
      matches-matches_always c h =
          let e = service.spec.app_selector_expression in
          evaluate_expression-exact (if e == "" then default_expression else e) c
            (filled_expression e) h
