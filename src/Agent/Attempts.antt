-- ===== src/Agent/Attempts.antt =====
-- How the sending of a snapshot over HTTP ends, internal/agent/agent.go.
use go_yandex_metrics.Base.{
  ℕ, ◌≤◌, ◌<◌, String, ◌≡◌, refl, ap, ◌⊎◌, inl, inr, Bool, true, false, Option, List, [], arith,
  take, Error, Result, ok, err, panic,
}
use go_yandex_metrics.Base.Text.{Bytes}
use go_yandex_metrics.Crypto.{PublicKey}
use go_yandex_metrics.Retry.{retry_intervals, world_at, FailsBefore, IsFinal, retry_loop-Retries}
use go_yandex_metrics.Agent.Table.{Entry}
use go_yandex_metrics.Agent.Sending.{
  is_retriable_request_error, HttpResponse, Client, send_request_to_server, send_all_metrics,
  send_all_metrics_with_retry, is_success,
}

module _ {W : Type 0} (client : Client W) (is_net_error : Error → Bool)
    (parse_float : Bytes → Option ℕ) (iterate : W → List Entry) (key : String)
    (public_key : Option PublicKey) (host_ip : Bytes) where
  -- One attempt.
  abbrev attempt : W → Result Bytes × W
  attempt w = send_all_metrics client parse_float (iterate w) key public_key host_ip w

  abbrev retriable : Error → Bool
  retriable = is_retriable_request_error is_net_error

  -- The server has answered with a status from 200 to 299 and this body.
  abbrev Answered : W → Bytes → W → Type 0
  Answered w body w' =
      (response : HttpResponse) × (send_request_to_server client parse_float (iterate w) key
          public_key host_ip w
        ≡ (ok response, w'))
      × (response.body ≡ ok body)
      × (200 ≤ response.status_code)
      × (response.status_code < 300)

  -- What the attempt `last` has ended the loop with.
  abbrev LastPost : ℕ → W → Result Bytes × W → Type 0
  LastPost last w (ok body, w') = Answered (world_at retriable attempt last w) body w'
  LastPost last w (err e, w') = (retriable e ≡ false) ⊎ (last ≡ 3)
  LastPost last w (panic, w') = (attempt (world_at retriable attempt last w)).0 ≡ panic

  pub PostEnds : W → Result Bytes × W × List ℕ → Type 0
  PostEnds w (r, w', slept) =
      (last : ℕ) × (last ≤ 3)
      × FailsBefore retriable attempt last w
      × (slept ≡ take last retry_intervals)
      × LastPost last w (r, w')

  success_bounds : (n : ℕ) → is_success client n ≡ true → (200 ≤ n) × (n < 300)
  success_bounds n h = ground (arith, h)

  attempt-Answered :
      (w : W) (body : Bytes) (w' : W) → attempt w ≡ (ok body, w') → Answered w body w'
  unfolding send_all_metrics
  attempt-Answered w body w' h =
      go (send_request_to_server client parse_float (iterate w) key public_key host_ip w) refl
    where
      go :
          (x : Result HttpResponse × W)
          → send_request_to_server client parse_float (iterate w) key public_key host_ip w ≡ x
          → Answered w body w'
      go (err e, w1) e1 = absurd (ground (arith, e1, h))
      go (panic, w1) e1 = absurd (ground (arith, e1, h))
      go (ok response, w1) e1 =
          let there : response.body ≡ ok body = ground (arith, e1, h) in
          let good : is_success client response.status_code ≡ true = ground (arith, e1, h, there) in
          let world : w1 ≡ w' = ground (arith, e1, h, there, good) in
          let (low, high) = success_bounds response.status_code good in
          (response, rw (← world) e1, there, low, high)

  last_post :
      (last : ℕ) (w : W) (x : Result Bytes × W)
      → attempt (world_at retriable attempt last w) ≡ x
      → IsFinal retriable attempt x.0 ⊎ (last ≡ 3)
      → LastPost last w x
  last_post last w (ok body, w') e f = attempt-Answered _ body w' e
  last_post last w (panic, w') e f = ap (λ (p : Result Bytes × W). p.0) e
  last_post last w (err x, w') e (inl f) = inl (f x refl)
  last_post last w (err x, w') e (inr f) = inr f

  -- What is posted with retries, by any client: the first attempts, at most three, failed with a status
  -- of 429 or of at least 500 or with a network error, after each of them the next interval of 1, 3 and 5
  -- seconds was waited, and then an attempt has ended it: a body is returned only if the server
  -- answered that attempt with a status from 200 to 299 and that body, and an error only if it cannot
  -- be retried or all four attempts have failed.
  pub send_all_metrics_with_retry-PostEnds :
      (w : W)
      → PostEnds w (
          send_all_metrics_with_retry client is_net_error parse_float iterate key public_key host_ip
            w)
  unfolding send_all_metrics_with_retry PostEnds
  send_all_metrics_with_retry-PostEnds w =
      let done = retry_loop-Retries retriable attempt retry_intervals [] w in
      rw (done.returns) (
        done.last,
        omega (arith, done.bounded),
        done.before,
        refl,
        last_post done.last w _ refl done.final,
      )
