-- ===== src/Linter/Reported.antt =====
-- Which calls of a file the analyser reports, cmd/linter/analyzer.go.
use mathlib.Core.List.{Memᴰ}
use mathlib.Core.List.Memᴰ as Member
use go_yandex_metrics.Base.{
  String, ◌≡◌, refl, subst, ◌↔◌, ◌⊎◌, inl, inr, Bool, true, false, ◌&&◌, Option, none, some, List,
  [], ◌++◌, arith,
}
use go_yandex_metrics.Linter.{
  Callee, Node, Nodes, nil, cons, func_decl, external_decl, func_lit, call_expr, other_node,
  Function, declared, Report, check_call, inspect_body, both, inspect_file,
}
use go_yandex_metrics.Linter.Rule.{Forbidden, check_call-Forbidden, Forbidden-check_call}
use go_yandex_metrics.Linter.Bodies.{Calls, calls-reported, reported-calls}

-- A call in a declared function of a file.
pub data FileCalls : Nodes → Callee → Function → Type 0 where
  in_function :
      (name : String) (has_receiver : Bool) (body nodes : Nodes) (c : Callee) (g : Function)
      → Calls body (declared name has_receiver) c g
      → FileCalls (cons (func_decl name has_receiver body) nodes) c g
  under_literal :
      (body nodes : Nodes) (c : Callee) (g : Function)
      → FileCalls body c g
      → FileCalls (cons (func_lit body) nodes) c g
  under_call :
      (callee : Callee) (children nodes : Nodes) (c : Callee) (g : Function)
      → FileCalls children c g
      → FileCalls (cons (call_expr callee children) nodes) c g
  under_other :
      (children nodes : Nodes) (c : Callee) (g : Function)
      → FileCalls children c g
      → FileCalls (cons (other_node children) nodes) c g
  next :
      (node : Node) (nodes : Nodes) (c : Callee) (g : Function)
      → FileCalls nodes c g
      → FileCalls (cons node nodes) c g

module _ (package_name : String) where
  data FileRefused (nodes : Nodes) (r : Report) : Type 0 where
    refused :
        (c : Callee) (g : Function)
        → FileCalls nodes c g
        → check_call package_name c g ≡ some r
        → FileRefused nodes r

  -- What is reported of a file, in both directions.
  Exactly : Nodes → Option (List Report) → Type 0
  Exactly nodes none = Unit
  Exactly nodes (some rs) = (r : Report) → Memᴰ r rs ↔ FileRefused nodes r

  -- Reports of two parts, each exact.
  both-Exactly :
      (part nodes whole : Nodes) (o o' : Option (List Report))
      → Exactly part o
      → Exactly nodes o'
      → ((r : Report) → FileRefused part r → FileRefused whole r)
      → ((r : Report) → FileRefused nodes r → FileRefused whole r)
      → ((r : Report) → FileRefused whole r → FileRefused part r ⊎ FileRefused nodes r)
      → Exactly whole (both package_name o o')
  unfolding Exactly
  both-Exactly part nodes whole none o' h h' up up' down = tt
  both-Exactly part nodes whole (some a) none h h' up up' down = tt
  both-Exactly part nodes whole (some a) (some b) h h' up up' down = λ r. (
    λ m. elim (Member.append_cases a m) [ inl x ↦ up r ((h r).0 x) | inr y ↦ up' r ((h' r).0 y) ],
    λ k. elim (down r k) [
      | inl x ↦ Member.append_left b ((h r).1 x)
      | inr y ↦ Member.append_right a ((h' r).1 y)
    ],
  )

  no_calls : {r : Report} → FileRefused nil r → ⊥
  no_calls (refused c g k e) = elim k [ ]

  part_of_function :
      (name : String) (has_receiver : Bool) (body : Nodes)
      → Exactly
          (cons (func_decl name has_receiver body) nil)
          (some (inspect_body package_name body (declared name has_receiver)))
  unfolding Exactly
  part_of_function name has_receiver body = λ r. (
    λ m.
        let (c, g, k, e) = reported-calls package_name body (declared name has_receiver) r m in
        refused c g (in_function name has_receiver body nil c g k) e,
    λ k. refused_in r k,
  )
    where
      refused_in :
          (r : Report)
          → FileRefused (cons (func_decl name has_receiver body) nil) r
          → Memᴰ r (inspect_body package_name body (declared name has_receiver))
      refused_in r (refused c g (in_function name' has_receiver' body' nodes' c' g' k) e) =
          calls-reported package_name body (declared name has_receiver) c g r k e
      refused_in r (refused c g (next node nodes' c' g' k) e) = elim k [ ]

  by_function :
      (name : String) (has_receiver : Bool) (body nodes : Nodes) (r : Report)
      → FileRefused (cons (func_decl name has_receiver body) nodes) r
      → FileRefused (cons (func_decl name has_receiver body) nil) r ⊎ FileRefused nodes r
  by_function name has_receiver body nodes r
        (refused c g (in_function name' has_receiver' body' nodes' c' g' k) e) =
      inl (refused c g (in_function name has_receiver body nil c g k) e)
  by_function name has_receiver body nodes r (refused c g (next node nodes' c' g' k) e) =
      inr (refused c g k e)

  of_function :
      (name : String) (has_receiver : Bool) (body nodes : Nodes) (r : Report)
      → FileRefused (cons (func_decl name has_receiver body) nil) r
      → FileRefused (cons (func_decl name has_receiver body) nodes) r
  of_function name has_receiver body nodes r
        (refused c g (in_function name' has_receiver' body' nodes' c' g' k) e) =
      refused c g (in_function name has_receiver body nodes c g k) e
  of_function name has_receiver body nodes r (refused c g (next node nodes' c' g' k) e) = elim k [ ]

  skip :
      (node : Node) (nodes : Nodes) (r : Report)
      → FileRefused nodes r
      → FileRefused (cons node nodes) r
  skip node nodes r (refused c g k e) = refused c g (next node nodes c g k) e

  by_literal :
      (body nodes : Nodes) (r : Report)
      → FileRefused (cons (func_lit body) nodes) r
      → FileRefused body r ⊎ FileRefused nodes r
  by_literal body nodes r (refused c g (under_literal body' nodes' c' g' k) e) =
      inl (refused c g k e)
  by_literal body nodes r (refused c g (next node nodes' c' g' k) e) = inr (refused c g k e)

  by_call :
      (callee : Callee) (children nodes : Nodes) (r : Report)
      → FileRefused (cons (call_expr callee children) nodes) r
      → FileRefused children r ⊎ FileRefused nodes r
  by_call callee children nodes r (refused c g (under_call callee' children' nodes' c' g' k) e) =
      inl (refused c g k e)
  by_call callee children nodes r (refused c g (next node nodes' c' g' k) e) = inr (refused c g k e)

  by_other :
      (children nodes : Nodes) (r : Report)
      → FileRefused (cons (other_node children) nodes) r
      → FileRefused children r ⊎ FileRefused nodes r
  by_other children nodes r (refused c g (under_other children' nodes' c' g' k) e) =
      inl (refused c g k e)
  by_other children nodes r (refused c g (next node nodes' c' g' k) e) = inr (refused c g k e)

  inspect_file-Exactly : (nodes : Nodes) → Exactly nodes (inspect_file package_name nodes)
  unfolding inspect_file Exactly
  inspect_file-Exactly nil = (λ r. (λ m. absurd (Member.not-nil m), λ k. absurd (no_calls k)))
  inspect_file-Exactly (cons (func_decl name has_receiver body) nodes) =
      both-Exactly (cons (func_decl name has_receiver body) nil) nodes _
        (some (inspect_body package_name body (declared name has_receiver)))
        (inspect_file package_name nodes) (part_of_function name has_receiver body)
        (inspect_file-Exactly nodes) (of_function name has_receiver body nodes) (skip _ nodes)
        (by_function name has_receiver body nodes)
  inspect_file-Exactly (cons (external_decl name has_receiver) nodes) = tt
  inspect_file-Exactly (cons (func_lit body) nodes) =
      both-Exactly body nodes _ (inspect_file package_name body) (inspect_file package_name nodes)
        (inspect_file-Exactly body) (inspect_file-Exactly nodes)
        (λ r k. elim k [ refused c g x e ↦ refused c g (under_literal body nodes c g x) e ])
        (skip _ nodes) (by_literal body nodes)
  inspect_file-Exactly (cons (call_expr callee children) nodes) =
      both-Exactly children nodes _ (inspect_file package_name children)
        (inspect_file package_name nodes) (inspect_file-Exactly children)
        (inspect_file-Exactly nodes)
        (λ r k. elim k [ refused c g x e ↦ refused c g (under_call callee children nodes c g x) e ])
        (skip _ nodes) (by_call callee children nodes)
  inspect_file-Exactly (cons (other_node children) nodes) =
      both-Exactly children nodes _ (inspect_file package_name children)
        (inspect_file package_name nodes) (inspect_file-Exactly children)
        (inspect_file-Exactly nodes)
        (λ r k. elim k [ refused c g x e ↦ refused c g (under_other children nodes c g x) e ])
        (skip _ nodes) (by_other children nodes)

  -- Every function of the file has a body; in go/ast an external one has none.
  unfoldable pub all_have_bodies : Nodes → Bool
  all_have_bodies nil = true
  all_have_bodies (cons (func_decl name has_receiver body) nodes) = all_have_bodies nodes
  all_have_bodies (cons (external_decl name has_receiver) nodes) = false
  all_have_bodies (cons (func_lit body) nodes) = all_have_bodies body && all_have_bodies nodes
  all_have_bodies (cons (call_expr callee children) nodes) =
      all_have_bodies children && all_have_bodies nodes
  all_have_bodies (cons (other_node children) nodes) =
      all_have_bodies children && all_have_bodies nodes

  abbrev Reports : Option (List Report) → Type 0
  Reports o = (rs : List Report) × (o ≡ some rs)

  both-Reports :
      (o o' : Option (List Report)) → Reports o → Reports o' → Reports (both package_name o o')
  both-Reports o o' (rs, e) (rs', e') = (rs ++ rs', rw (e, e') refl)

  inspect_file-Reports :
      (nodes : Nodes) → all_have_bodies nodes ≡ true → Reports (inspect_file package_name nodes)
  unfolding inspect_file all_have_bodies
  inspect_file-Reports nil h = ([], refl)
  inspect_file-Reports (cons (func_decl name has_receiver body) nodes) h =
      both-Reports (some _) _ (_, refl) (inspect_file-Reports nodes h)
  inspect_file-Reports (cons (external_decl name has_receiver) nodes) h = absurd (cc h)
  inspect_file-Reports (cons (func_lit body) nodes) h =
      both-Reports _ _ (inspect_file-Reports body (ground (arith, h)))
        (inspect_file-Reports nodes (ground (arith, h)))
  inspect_file-Reports (cons (call_expr callee children) nodes) h =
      both-Reports _ _ (inspect_file-Reports children (ground (arith, h)))
        (inspect_file-Reports nodes (ground (arith, h)))
  inspect_file-Reports (cons (other_node children) nodes) h =
      both-Reports _ _ (inspect_file-Reports children (ground (arith, h)))
        (inspect_file-Reports nodes (ground (arith, h)))

  -- A call in a declared function of the file, at any depth, that is forbidden with this report.
  pub data FileForbidden (nodes : Nodes) (r : Report) : Type 0 where
    forbidden :
        (c : Callee) (g : Function)
        → FileCalls nodes c g
        → Forbidden package_name c g r
        → FileForbidden nodes r

  by_rule : (nodes : Nodes) (r : Report) → FileRefused nodes r → FileForbidden nodes r
  by_rule nodes r (refused c g k e) = forbidden c g k (check_call-Forbidden package_name c g r e)

  by_check : (nodes : Nodes) (r : Report) → FileForbidden nodes r → FileRefused nodes r
  by_check nodes r (forbidden c g k e) = refused c g k (Forbidden-check_call package_name c g r e)

  -- The analyser on a file whose functions all have bodies ends, and makes a report at a position
  -- exactly if a call in a declared function of the file, at any depth, is forbidden with this report
  -- at this position: the builtin panic anywhere, and log.Fatal and os.Exit where the innermost
  -- function is a literal or is not the function main of the package main.
  pub inspect_file_reports :
      (nodes : Nodes)
      → all_have_bodies nodes ≡ true
      → (rs : List Report) × (inspect_file package_name nodes ≡ some rs)
        × ((r : Report) → Memᴰ r rs ↔ FileForbidden nodes r)
  unfolding Exactly
  inspect_file_reports nodes h =
      let (rs, e) = inspect_file-Reports nodes h in
      let exact : Exactly nodes (some rs) = subst (Exactly nodes) e (inspect_file-Exactly nodes) in
      (rs, e, λ r. (λ m. by_rule nodes r ((exact r).0 m), λ k. (exact r).1 (by_check nodes r k)))
