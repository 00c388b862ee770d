-- ===== src/Linter/Rule.antt =====
-- The rule of cmd/linter/analyzer.go, stated without its code: which calls are forbidden.
use go_yandex_metrics.Base.{
  ℕ, String, ◌≡◌, refl, ◌↔◌, inl, inr, true, false, ◌&&◌, none, some, arith, str_eq, str_eq_iff,
  Bool-cases,
}
use go_yandex_metrics.Linter.{
  Callee, ident, selector, other_callee, Function, declared, literal, Report, builtin_panic,
  log_fatal, os_exit, is_main_function, check_call,
}

module _ (package_name : String) where
  -- The function main of the package main, which is no method.
  abbrev pub IsMain : Function → Type 0
  IsMain f = (package_name ≡ "main") × (f ≡ declared "main" false)

  -- The builtin panic is forbidden everywhere, `Fatal` of log and `Exit` of os where the innermost
  -- function is not main of the package main; the report is at the position of what is called.
  pub data Forbidden (c : Callee) (f : Function) (r : Report) : Type 0 where
    panics : (pos : ℕ) → c ≡ ident pos (some "panic") → r ≡ builtin_panic pos → Forbidden c f r
    fatals :
        (pos : ℕ)
        → c ≡ selector pos (some ("log", "Fatal"))
        → r ≡ log_fatal pos
        → ¬ (IsMain f)
        → Forbidden c f r
    exits :
        (pos : ℕ)
        → c ≡ selector pos (some ("os", "Exit"))
        → r ≡ os_exit pos
        → ¬ (IsMain f)
        → Forbidden c f r

  is_main_function-IsMain : (f : Function) → (is_main_function package_name f ≡ true) ↔ IsMain f
  unfolding is_main_function
  is_main_function-IsMain literal = (λ e. absurd (cc e), λ (e, h). absurd (cc h))
  is_main_function-IsMain (declared name has_receiver) = (
    λ e. (
      ground (arith, e, str_eq_iff package_name "main"),
      ground (arith, e, str_eq_iff name "main"),
    ),
    λ (e, h). ground (arith, e, h, str_eq_iff package_name "main", str_eq_iff name "main"),
  )

  selector_Forbidden :
      (pos : ℕ) (package_path name : String) (f : Function) (r : Report)
      → ¬ (IsMain f)
      → check_call package_name (selector pos (some (package_path, name))) f ≡ some r
      → Forbidden (selector pos (some (package_path, name))) f r
  unfolding check_call
  selector_Forbidden pos package_path name f r other e =
      elim (Bool-cases (is_main_function package_name f)) [
        | inl main ↦ absurd (other ((is_main_function-IsMain f).0 main))
        | inr no_main ↦ elim (Bool-cases (str_eq package_path "log" && str_eq name "Fatal")) [
          | inl fatal ↦
              fatals pos
                (ground (arith, fatal, str_eq_iff package_path "log", str_eq_iff name "Fatal"))
                (ground (arith, no_main, fatal, e)) other
          | inr no_fatal ↦ elim (Bool-cases (str_eq package_path "os" && str_eq name "Exit")) [
            | inl exit ↦
                exits pos
                  (ground (arith, exit, str_eq_iff package_path "os", str_eq_iff name "Exit"))
                  (ground (arith, no_main, no_fatal, exit, e)) other
            | inr no_exit ↦ absurd (ground (arith, no_main, no_fatal, no_exit, e))
          ]
        ]
      ]

  pub check_call-Forbidden :
      (c : Callee) (f : Function) (r : Report)
      → check_call package_name c f ≡ some r
      → Forbidden c f r
  unfolding check_call
  check_call-Forbidden (ident pos none) f r e = absurd (cc e)
  check_call-Forbidden (ident pos (some builtin)) f r e =
      elim (Bool-cases (str_eq builtin "panic")) [
        | inl panic_name ↦
            panics pos (ground (arith, panic_name, str_eq_iff builtin "panic"))
              (ground (arith, panic_name, e))
        | inr other ↦ absurd (ground (arith, other, e))
      ]
  check_call-Forbidden (selector pos none) f r e = absurd (cc e)
  check_call-Forbidden (selector pos (some (package_path, name))) f r e =
      selector_Forbidden pos package_path name f r
        (λ main. absurd (ground (arith, (is_main_function-IsMain f).1 main, e))) e
  check_call-Forbidden other_callee f r e = absurd (cc e)

  not_main : (f : Function) → ¬ (IsMain f) → is_main_function package_name f ≡ false
  not_main f other = elim (Bool-cases (is_main_function package_name f)) [
    | inl main ↦ absurd (other ((is_main_function-IsMain f).0 main))
    | inr no_main ↦ no_main
  ]

  pub Forbidden-check_call :
      (c : Callee) (f : Function) (r : Report)
      → Forbidden c f r
      → check_call package_name c f ≡ some r
  unfolding check_call
  Forbidden-check_call c f r (panics pos e h) = rw (e, h) refl
  Forbidden-check_call c f r (fatals pos e h other) = rw (e, h, not_main f other) refl
  Forbidden-check_call c f r (exits pos e h other) = rw (e, h, not_main f other) refl
