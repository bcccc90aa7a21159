-- ===== src/Selectors/Walk.antt =====
-- What the walk of `analyzeVariableUsage` finds.
use activemq_artemis_operato.Selectors.{
  Expr, Exprs, Entries, other, ident, select, call, list, struct, comprehension, no_exprs,
  expr_then, no_entries, entry_then, Usage, note_ident, walk_expr, walk_exprs, walk_entries,
  analyze_variable_usage,
}
use activemq_artemis_operato.Base.{
  String, Bool, false, ◌||◌, ◌≡◌, ap, ◌∙◌, ◌==◌, arith, eq_iff, inl, inr, Bool-cases,
}

-- The name is an identifier of the expression.
mutual
  pub mentions : String → Expr → Bool
  mentions n other = false
  mentions n (ident m) = m == n
  mentions n (select e) = mentions n e
  mentions n (call e es) = mentions n e || any_mentions n es
  mentions n (list es) = any_mentions n es
  mentions n (struct es) = entry_mentions n es
  mentions n (comprehension a b c d e) =
      mentions n a || (mentions n b || (mentions n c || (mentions n d || mentions n e)))

  any_mentions : String → Exprs → Bool
  any_mentions n no_exprs = false
  any_mentions n (expr_then e es) = mentions n e || any_mentions n es

  entry_mentions : String → Entries → Bool
  entry_mentions n no_entries = false
  entry_mentions n (entry_then k v es) = mentions n k || (mentions n v || entry_mentions n es)

abbrev with_both : Usage → Bool → Bool → Usage
with_both u a s = record {
  uses_app_namespace = u.uses_app_namespace || a;
  uses_service_namespace = u.uses_service_namespace || s;
}

noted :
    (m : String) (u : Usage)
    → note_ident m u ≡ with_both u (m == "appNamespace") (m == "serviceNamespace")
noted m u = elim (Bool-cases (m == "appNamespace")) [
  | inl e ↦
      let q : (m == "serviceNamespace") ≡ false =
        ap (λ (x : String). x == "serviceNamespace") ((eq_iff m "appNamespace").0 e) in
      rw e (rw q (ground arith))
  | inr e ↦ elim (Bool-cases (m == "serviceNamespace")) [
    | inl f ↦ rw e (rw f (ground arith))
    | inr f ↦ rw e (rw f (ground arith))
  ]
]

with_both-twice :
    (u : Usage) (a s b t : Bool) → with_both (with_both u a s) b t ≡ with_both u (a || b) (s || t)
with_both-twice u a s b t = ground arith

abbrev a_ns : Expr → Bool
a_ns e = mentions "appNamespace" e

abbrev s_ns : Expr → Bool
s_ns e = mentions "serviceNamespace" e

-- What a walk adds, after another that added something.
after_walk :
    (u v : Usage) (a s b t : Bool)
    → v ≡ with_both u a s
    → {w : Usage} → w ≡ with_both v b t
    → w ≡ with_both u (a || b) (s || t)
after_walk u v a s b t h {w} k = k ∙ ap (λ x. with_both x b t) h ∙ with_both-twice u a s b t

five : (a b c d e : Bool) → ((((a || b) || c) || d) || e) ≡ (a || (b || (c || (d || e))))
five a b c d e = ground arith

mutual
  unfolding walk_expr mentions

  walked : (e : Expr) (u : Usage) → walk_expr e u ≡ with_both u (a_ns e) (s_ns e)
  walked other u = ground arith
  walked (ident m) u = noted m u
  walked (select e) u = walked e u
  walked (call e es) u =
      after_walk u (walk_expr e u) (a_ns e) (s_ns e) _ _ (walked e u)
        (walked_all es (walk_expr e u))
  walked (list es) u = walked_all es u
  walked (struct es) u = walked_entries es u
  walked (comprehension a b c d e) u =
      let ua = walk_expr a u in
      let ub = walk_expr b ua in
      let uc = walk_expr c ub in
      let ud = walk_expr d uc in
      after_walk u ud (((a_ns a || a_ns b) || a_ns c) || a_ns d)
        (((s_ns a || s_ns b) || s_ns c) || s_ns d) (a_ns e) (s_ns e)
        (after_walk u uc ((a_ns a || a_ns b) || a_ns c) ((s_ns a || s_ns b) || s_ns c) (a_ns d)
          (s_ns d)
          (after_walk u ub (a_ns a || a_ns b) (s_ns a || s_ns b) (a_ns c) (s_ns c)
            (after_walk u ua (a_ns a) (s_ns a) (a_ns b) (s_ns b) (walked a u) (walked b ua))
            (walked c ub))
          (walked d uc))
        (walked e ud)
      ∙ ap (λ x. with_both u x ((((s_ns a || s_ns b) || s_ns c) || s_ns d) || s_ns e))
          (five (a_ns a) (a_ns b) (a_ns c) (a_ns d) (a_ns e))
      ∙ ap (λ x. with_both u (a_ns a || (a_ns b || (a_ns c || (a_ns d || a_ns e)))) x)
          (five (s_ns a) (s_ns b) (s_ns c) (s_ns d) (s_ns e))

  walked_all :
      (es : Exprs) (u : Usage)
      → walk_exprs es u
        ≡ with_both u (any_mentions "appNamespace" es) (any_mentions "serviceNamespace" es)
  walked_all no_exprs u = ground arith
  walked_all (expr_then e es) u =
      after_walk u (walk_expr e u) (a_ns e) (s_ns e) _ _ (walked e u)
        (walked_all es (walk_expr e u))

  walked_entries :
      (es : Entries) (u : Usage)
      → walk_entries es u
        ≡ with_both u (entry_mentions "appNamespace" es) (entry_mentions "serviceNamespace" es)
  walked_entries no_entries u = ground arith
  walked_entries (entry_then k v es) u =
      let uk = walk_expr k u in
      let uv = walk_expr v uk in
      after_walk u uk (a_ns k) (s_ns k) _ _ (walked k u)
        (after_walk uk uv (a_ns v) (s_ns v) _ _ (walked v uk) (walked_entries es uv))

-- The walk finds exactly the identifiers that the expression mentions.
pub analyze_variable_usage-mentions :
    (e : Expr)
    → analyze_variable_usage e ≡ record {
      uses_app_namespace = mentions "appNamespace" e;
      uses_service_namespace = mentions "serviceNamespace" e;
    }
unfolding analyze_variable_usage
analyze_variable_usage-mentions e =
    walked e (record { uses_app_namespace = false; uses_service_namespace = false })
