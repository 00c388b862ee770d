-- ===== src/Audit/Delivery.antt =====
-- The requests of `Do` of retryHTTPClient, internal/audit/audit.go.
use go_yandex_metrics.Base.{
  ℕ, zero, suc, ◌≤◌, ◌<◌, ◌≡◌, refl, ◌⊎◌, inl, inr, true, false, some, List, [], ◌∷◌, arith,
  Bool-cases, Option-cases, length, Error, Result, err,
}
use go_yandex_metrics.Base.Text.{Bytes}
use go_yandex_metrics.Repository.Merge.{Context}
use go_yandex_metrics.Audit.{Outside, should_retry_http, do_request}

module _ {N : Type 0} (out : Outside N) (payload : Bytes) where
  -- The receiver before the request `k`, if all before it were sent.
  pub receiver_at : ℕ → N → N
  receiver_at zero n = n
  receiver_at (suc k) n = receiver_at k (out.post payload n).1

  -- The first `k` requests all gave an outcome that is tried again.
  abbrev pub Again : ℕ → N → Type 0
  Again zero n = Unit
  Again (suc k) n =
      (should_retry_http (out.post payload n).0 ≡ true) × Again k (out.post payload n).1

  -- How the loop of requests ends: with the outcome of a request that is final or the last one, or
  -- with the error of the context in a wait after a request that would be tried again.
  pub data Ends (ctx : Context) (intervals : List ℕ) (n : N) (r : Result ℕ × N) : Type 0 where
    answered :
        (k : ℕ)
        → k ≤ length intervals
        → Again k n
        → r ≡ out.post payload (receiver_at k n)
        → (should_retry_http r.0 ≡ false) ⊎ (k ≡ length intervals)
        → Ends ctx intervals n r
    stopped :
        (k : ℕ) (e : Error)
        → k < length intervals
        → Again (suc k) n
        → ctx k ≡ some e
        → r ≡ (err e, receiver_at (suc k) n)
        → Ends ctx intervals n r

  Ends-later :
      (ctx : Context) (interval : ℕ) (intervals : List ℕ) (n : N) (r : Result ℕ × N)
      → should_retry_http (out.post payload n).0 ≡ true
      → Ends (λ i. ctx (suc i)) intervals (out.post payload n).1 r
      → Ends ctx (interval ∷ intervals) n r
  unfolding receiver_at
  Ends-later ctx interval intervals n r again (answered k le before same final) =
      answered (suc k) (omega arith) (again, before) same
        (elim final [ inl done ↦ inl done | inr all ↦ inr (omega (arith, all)) ])
  Ends-later ctx interval intervals n r again (stopped k e lt before halted same) =
      stopped (suc k) e (omega arith) (again, before) halted same

  -- `Do` sends the request at most once more than there are intervals, again only after an error, a
  -- 429 or a status from 500, and it ends as described by `Ends`, for any receiver and any context.
  pub do_request-Ends :
      (ctx : Context) (intervals : List ℕ) (n : N)
      → Ends ctx intervals n (do_request out ctx intervals payload n)
  unfolding do_request receiver_at
  do_request-Ends ctx [] n = answered 0 (omega arith) tt refl (inr refl)
  do_request-Ends ctx (interval ∷ intervals) n =
      elim (Bool-cases (should_retry_http (out.post payload n).0)) [
        | inr final ↦ rw final (answered 0 (omega arith) tt refl (inl final))
        | inl again ↦ elim (Option-cases (ctx 0)) [
          | inr (e, h) ↦ rw again (rw h (stopped 0 e (omega arith) (again, tt) h refl))
          | inl h ↦ rw again (
              rw h (
                Ends-later ctx interval intervals n
                  (do_request out (λ i. ctx (suc i)) intervals payload (out.post payload n).1) again
                  (do_request-Ends (λ i. ctx (suc i)) intervals (out.post payload n).1)))
        ]
      ]
