-- ===== src/Linter/Bodies.antt =====
-- Which calls of a body the analyser reports, cmd/linter/analyzer.go.
use mathlib.Core.List.{Memᴰ}
use mathlib.Core.List.Memᴰ as Member
use go_yandex_metrics.Base.{String, ◌≡◌, sym, ap, inl, inr, Bool, Option, none, some, arith}
use go_yandex_metrics.Linter.{
  Callee, Node, Nodes, nil, cons, func_decl, external_decl, func_lit, call_expr, other_node,
  Function, literal, Report, check_call, reported, inspect_body,
}

-- A call in the nodes of a body, with the function that it belongs to, the literal if it stands in one.
pub data Calls : Nodes → Function → Callee → Function → Type 0 where
  here :
      (callee : Callee) (children nodes : Nodes) (f : Function)
      → Calls (cons (call_expr callee children) nodes) f callee f
  in_call :
      (callee : Callee) (children nodes : Nodes) (f : Function) (c : Callee) (g : Function)
      → Calls children f c g
      → Calls (cons (call_expr callee children) nodes) f c g
  in_literal :
      (body nodes : Nodes) (f : Function) (c : Callee) (g : Function)
      → Calls body literal c g
      → Calls (cons (func_lit body) nodes) f c g
  in_declared :
      (name : String) (has_receiver : Bool) (body nodes : Nodes) (f : Function) (c : Callee)
      (g : Function)
      → Calls body f c g
      → Calls (cons (func_decl name has_receiver body) nodes) f c g
  in_other :
      (children nodes : Nodes) (f : Function) (c : Callee) (g : Function)
      → Calls children f c g
      → Calls (cons (other_node children) nodes) f c g
  later :
      (node : Node) (nodes : Nodes) (f : Function) (c : Callee) (g : Function)
      → Calls nodes f c g
      → Calls (cons node nodes) f c g

module _ (package_name : String) where
  -- A call that the rule refuses with this report.
  abbrev pub Refused : Nodes → Function → Report → Type 0
  Refused nodes f r =
      (c : Callee) × (g : Function) × Calls nodes f c g × (check_call package_name c g ≡ some r)

  reported-some : (o : Option Report) (r : Report) → o ≡ some r → Memᴰ r (reported package_name o)
  reported-some none r e = absurd (cc e)
  reported-some (some r') r e = Memᴰ.head (ground (arith, e))

  some-reported : (o : Option Report) (r : Report) → Memᴰ r (reported package_name o) → o ≡ some r
  some-reported none r m = absurd (Member.not-nil m)
  some-reported (some r') r (Memᴰ.head e) = ap {B = Option Report} some (sym e)
  some-reported (some r') r (Memᴰ.tail m) = absurd (Member.not-nil m)

  after-inspect_body :
      (node : Node) (nodes : Nodes) (f : Function) (r : Report)
      → Memᴰ r (inspect_body package_name nodes f)
      → Memᴰ r (inspect_body package_name (cons node nodes) f)
  unfolding inspect_body
  after-inspect_body (func_lit body) nodes f r m = Member.append_right _ m
  after-inspect_body (call_expr callee children) nodes f r m =
      Member.append_right _ (Member.append_right _ m)
  after-inspect_body (func_decl name has_receiver body) nodes f r m = Member.append_right _ m
  after-inspect_body (external_decl name has_receiver) nodes f r m = m
  after-inspect_body (other_node children) nodes f r m = Member.append_right _ m

  pub calls-reported :
      (nodes : Nodes) (f : Function) (c : Callee) (g : Function) (r : Report)
      → Calls nodes f c g
      → check_call package_name c g ≡ some r
      → Memᴰ r (inspect_body package_name nodes f)
  unfolding inspect_body
  calls-reported nodes f c g r (here callee children nodes' f') e =
      Member.append_left _ (reported-some _ r e)
  calls-reported nodes f c g r (in_call callee children nodes' f' c' g' k) e =
      Member.append_right _ (Member.append_left _ (calls-reported children f c g r k e))
  calls-reported nodes f c g r (in_literal body nodes' f' c' g' k) e =
      Member.append_left _ (calls-reported body literal c g r k e)
  calls-reported nodes f c g r (in_declared name has_receiver body nodes' f' c' g' k) e =
      Member.append_left _ (calls-reported body f c g r k e)
  calls-reported nodes f c g r (in_other children nodes' f' c' g' k) e =
      Member.append_left _ (calls-reported children f c g r k e)
  calls-reported nodes f c g r (later node nodes' f' c' g' k) e =
      after-inspect_body node nodes' f' r (calls-reported nodes' f' c' g' r k e)

  pub reported-calls :
      (nodes : Nodes) (f : Function) (r : Report)
      → Memᴰ r (inspect_body package_name nodes f)
      → Refused nodes f r
  unfolding inspect_body
  reported-calls nil f r m = absurd (Member.not-nil m)
  reported-calls (cons (func_lit body) nodes) f r m =
      elim (Member.append_cases (inspect_body package_name body literal) m) [
        | inl a ↦
            let (c, g, k, e) = reported-calls body literal r a in
            (c, g, in_literal body nodes f c g k, e)
        | inr b ↦ let (c, g, k, e) = reported-calls nodes f r b in (c, g, later _ nodes f c g k, e)
      ]
  reported-calls (cons (call_expr callee children) nodes) f r m =
      elim (Member.append_cases (reported package_name (check_call package_name callee f)) m) [
        | inl a ↦ (callee, f, here callee children nodes f, some-reported _ r a)
        | inr b ↦ elim (Member.append_cases (inspect_body package_name children f) b) [
          | inl a ↦
              let (c, g, k, e) = reported-calls children f r a in
              (c, g, in_call callee children nodes f c g k, e)
          | inr b' ↦
              let (c, g, k, e) = reported-calls nodes f r b' in (c, g, later _ nodes f c g k, e)
        ]
      ]
  reported-calls (cons (func_decl name has_receiver body) nodes) f r m =
      elim (Member.append_cases (inspect_body package_name body f) m) [
        | inl a ↦
            let (c, g, k, e) = reported-calls body f r a in
            (c, g, in_declared name has_receiver body nodes f c g k, e)
        | inr b ↦ let (c, g, k, e) = reported-calls nodes f r b in (c, g, later _ nodes f c g k, e)
      ]
  reported-calls (cons (external_decl name has_receiver) nodes) f r m =
      let (c, g, k, e) = reported-calls nodes f r m in (c, g, later _ nodes f c g k, e)
  reported-calls (cons (other_node children) nodes) f r m =
      elim (Member.append_cases (inspect_body package_name children f) m) [
        | inl a ↦
            let (c, g, k, e) = reported-calls children f r a in
            (c, g, in_other children nodes f c g k, e)
        | inr b ↦ let (c, g, k, e) = reported-calls nodes f r b in (c, g, later _ nodes f c g k, e)
      ]
