-- ===== src/Tests/Linting.antt =====
-- The analyser on a file whose main ends the program, and panics in a literal.
use mathlib.Core.List.{Memᴰ}
use go_yandex_metrics.Base.{◌≡◌, refl, ◌↔◌, true, false, some, List, [], ◌∷◌}
use go_yandex_metrics.Linter.{
  ident, selector, Nodes, nil, cons, func_decl, func_lit, call_expr, Report, builtin_panic,
  is_main_function, check_call, inspect_body, inspect_file,
}
use go_yandex_metrics.Linter.Reported.{all_have_bodies, FileForbidden, inspect_file_reports}

abbrev panics : Nodes
panics = cons (call_expr (ident 7 (some "panic")) nil) nil

abbrev exits : Nodes
exits = cons (call_expr (selector 9 (some ("os", "Exit"))) nil) nil

abbrev file : Nodes
file = cons (func_decl "main" false (cons (func_lit panics) exits)) nil

has_bodies : all_have_bodies "main" file ≡ true
unfolding all_have_bodies
has_bodies = refl

inspect_file_reports_example :
    (rs : List Report) × (inspect_file "main" file ≡ some rs)
    × ((r : Report) → Memᴰ r rs ↔ FileForbidden "main" file r)
inspect_file_reports_example = inspect_file_reports "main" file has_bodies

-- The exit is allowed in main, the panic is not.
one_report : inspect_file "main" file ≡ some (builtin_panic 7 ∷ [])
unfolding inspect_file inspect_body check_call is_main_function
one_report = refl
