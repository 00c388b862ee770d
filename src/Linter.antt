-- ===== src/Linter.antt =====
-- cmd/linter/analyzer.go: which calls the analyser reports. The syntax is what the analyser looks at:
-- declared functions, function literals, calls with what the types say of the name that is called, and
-- other nodes with their children.
pub mod Rule
pub mod Bodies
pub mod Reported
use go_yandex_metrics.Base.{
  ℕ, String, Bool, false, not, ◌&&◌, Option, none, some, List, [], ◌∷◌, ◌++◌, if◌then◌else◌, str_eq,
}

-- What is called: a name, which may be that of a builtin, a selector, whose object may have a package
-- and has a name, at its position, or something else.
pub data Callee : Type 0 where
  ident : ℕ → Option String → Callee
  selector : ℕ → Option (String × String) → Callee
  other_callee : Callee

mutual
  -- A node of go/ast; a function that is declared has a name, perhaps a receiver, and a body, or is
  -- external. The children of a call are its function and its arguments.
  pub data Node : Type 0 where
    func_decl : String → Bool → Nodes → Node
    external_decl : String → Bool → Node
    func_lit : Nodes → Node
    call_expr : Callee → Nodes → Node
    other_node : Nodes → Node

  pub data Nodes : Type 0 where
    nil : Nodes
    cons : Node → Nodes → Nodes

-- What a body belongs to: a declared function, or a literal, where `function` is nil.
pub data Function : Type 0 where
  declared : String → Bool → Function
  literal : Function

-- The three reports, each at a position.
pub data Report : Type 0 where
  builtin_panic log_fatal os_exit : ℕ → Report

module _ (package_name : String) where
  -- `isMainFunction`
  unfoldable pub is_main_function : Function → Bool
  is_main_function literal = false
  is_main_function (declared name has_receiver) =
      str_eq package_name "main" && not has_receiver && str_eq name "main"

  -- `checkCall`
  unfoldable pub check_call : Callee → Function → Option Report
  check_call (ident pos none) function = none
  check_call (ident pos (some builtin)) function =
      if str_eq builtin "panic" then some (builtin_panic pos) else none
  check_call (selector pos none) function = none
  check_call (selector pos (some (package_path, name))) function =
      if is_main_function function
      then none
      else if str_eq package_path "log" && str_eq name "Fatal"
      then some (log_fatal pos)
      else if str_eq package_path "os" && str_eq name "Exit"
      then some (os_exit pos)
      else none
  check_call other_callee function = none

  abbrev pub reported : Option Report → List Report
  reported none = []
  reported (some r) = r ∷ []

  -- `inspectBody`: the nodes in the order of `ast.Inspect`.
  unfoldable pub inspect_body : Nodes → Function → List Report
  inspect_body nil function = []
  inspect_body (cons (func_lit body) nodes) function =
      inspect_body body literal ++ inspect_body nodes function
  inspect_body (cons (call_expr callee children) nodes) function =
      reported (check_call callee function)
      ++ (inspect_body children function ++ inspect_body nodes function)
  inspect_body (cons (func_decl name has_receiver body) nodes) function =
      inspect_body body function ++ inspect_body nodes function
  inspect_body (cons (external_decl name has_receiver) nodes) function = inspect_body nodes function
  inspect_body (cons (other_node children) nodes) function =
      inspect_body children function ++ inspect_body nodes function

  abbrev pub both : Option (List Report) → Option (List Report) → Option (List Report)
  both none o = none
  both (some rs) none = none
  both (some rs) (some rs') = some (rs ++ rs')

  -- `inspectFile`; `none` is the panic of `ast.Walk` in the body of a function that has none.
  unfoldable pub inspect_file : Nodes → Option (List Report)
  inspect_file nil = some []
  inspect_file (cons (func_decl name has_receiver body) nodes) =
      both (some (inspect_body body (declared name has_receiver))) (inspect_file nodes)
  inspect_file (cons (external_decl name has_receiver) nodes) = none
  inspect_file (cons (func_lit body) nodes) = both (inspect_file body) (inspect_file nodes)
  inspect_file (cons (call_expr callee children) nodes) =
      both (inspect_file children) (inspect_file nodes)
  inspect_file (cons (other_node children) nodes) =
      both (inspect_file children) (inspect_file nodes)
