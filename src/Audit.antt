-- ===== src/Audit.antt =====
-- internal/audit/audit.go: the manager of audit events and its two observers. An observer is an
-- interface value: nil, or a type with a pointer that may itself be nil. The calls on the file and
-- the HTTP client are parameters. `Publish` has up to four workers, which take the observers in any
-- order: the order is the order of the list that `publish` is given, and the calls on the different
-- observers share nothing but the world.
pub mod Delivery
pub mod Absent
pub mod Sequence
use go_yandex_metrics.Base.{
  ℕ, suc, String, Bool, true, false, not, ◌||◌, Option, none, some, List, [], ◌∷◌, ◌++◌, ltb, leb,
  ◌==◌, if◌then◌else◌, str_eq, Error, message, wrap, Result, ok, err, panic,
}
use go_yandex_metrics.Base.Text.{Bytes}
use go_yandex_metrics.Handler.Http.{Event}
use go_yandex_metrics.Repository.Merge.{Context}
use go_yandex_metrics.Retry.{retry_intervals}

-- `FileObserver`; an open `file` is true.
pub record FileObserver : Type 0 where
  pub path : String
  pub file : Bool
  pub closed : Bool

-- `HTTPObserver`; its client is the receiver's.
pub record HttpObserver : Type 0 where
  pub url : String

-- A value of the interface `Observer`; a pointer of `none` is nil.
pub data Observer : Type 0 where
  nil_observer : Observer
  file_observer : Option FileObserver → Observer
  http_observer : Option HttpObserver → Observer

-- What the world answers: opening and closing the file, and writing to it, where a write that fails
-- may have written a part; the JSON of an event; and a request to the receiver, which changes the
-- receiver's state `N` and gives a status.
pub record Outside (N : Type 0) : Type 0 where
  pub marshal : Event → Bytes
  pub open_file : Option Error
  pub write_file : Option (Error × Bytes)
  pub close_file : Option Error
  pub post : Bytes → N → Result ℕ × N

-- The audit file and the receiver.
pub record AuditWorld (N : Type 0) : Type 0 where
  pub lines : Bytes
  pub receiver : N

-- `NewFileObserver`
unfoldable pub new_file_observer : String → Option FileObserver
new_file_observer path =
    if str_eq path "" then none else some (record { path = path; file = false; closed = false })

-- `NewHTTPObserver`
unfoldable pub new_http_observer : String → Option HttpObserver
new_http_observer url = if str_eq url "" then none else some (record { url = url })

-- `NewManager`: the observers that are not nil interfaces.
unfoldable pub new_manager : List Observer → List Observer
new_manager [] = []
new_manager (nil_observer ∷ observers) = new_manager observers
new_manager (file_observer o ∷ observers) = file_observer o ∷ new_manager observers
new_manager (http_observer o ∷ observers) = http_observer o ∷ new_manager observers

-- What cmd/server/main.go makes of its configuration.
abbrev pub server_publisher : String → String → List Observer
server_publisher audit_file audit_url = new_manager (
    file_observer (new_file_observer audit_file) ∷ http_observer (new_http_observer audit_url) ∷ [])

-- `shouldRetryHTTP`
unfoldable pub should_retry_http : Result ℕ → Bool
should_retry_http (ok status) = status == 429 || leb 500 status
should_retry_http (err e) = true
should_retry_http panic = false

module _ {N : Type 0} (out : Outside N) where
  -- `Notify` of FileObserver, with a receiver that is not nil.
  unfoldable pub notify_file :
      Event → FileObserver → AuditWorld N → Option Error × FileObserver × AuditWorld N
  notify_file event o w =
      if o.closed
      then (some (message "audit file observer is closed"), o, w)
      else elim (if o.file then none else out.open_file) [
        | some e ↦ (some (wrap "open audit file" e), o, w)
        | none ↦ elim out.write_file [
          | some (e, part) ↦ (
            some (wrap "write audit file" e),
            record o { file = true },
            record w { lines = w.lines ++ part },
          )
          | none ↦ (
            none,
            record o { file = true },
            record w { lines = w.lines ++ out.marshal event ++ 10 ∷ [] },
          )
        ]
      ]

  -- `Close` of FileObserver.
  unfoldable pub close_file_observer : FileObserver → Option Error × FileObserver
  close_file_observer o =
      if o.file
      then (out.close_file, record o { file = false; closed = true })
      else (none, record o { closed = true })

  -- `Do` of retryHTTPClient, from a round on; `ctx` is what the context of the request answers at
  -- each wait; the waits themselves, of one, three and five seconds, take no part in what is modelled.
  unfoldable pub do_request : Context → List ℕ → Bytes → N → Result ℕ × N
  do_request ctx [] payload n = out.post payload n
  do_request ctx (interval ∷ intervals) payload n =
      let (r, n') = out.post payload n in
      let again = do_request (λ i. ctx (suc i)) intervals payload n' in
      if not (should_retry_http r)
      then (r, n')
      else elim (ctx 0) [ some e ↦ (err e, n') | none ↦ again ]

  -- What `Notify` of HTTPObserver makes of the outcome of its request.
  unfoldable pub http_outcome : Result ℕ → Result (Option Error)
  http_outcome panic = panic
  http_outcome (err e) = ok (some (wrap "send audit request" e))
  http_outcome (ok status) =
      if ltb status 200 || leb 300 status
      then ok (some (message "audit receiver returned status"))
      else ok none

  -- `Notify` of HTTPObserver.
  unfoldable pub notify_http :
      Context → Event → HttpObserver → AuditWorld N → Result (Option Error) × AuditWorld N
  notify_http ctx event o w =
      let (r, n) = do_request ctx retry_intervals (out.marshal event) w.receiver in
      (http_outcome r, record w { receiver = n })

  -- `Notify` through the interface: a nil pointer is followed, which panics.
  unfoldable pub notify :
      Context → Event → Observer → AuditWorld N → Result (Option Error) × Observer × AuditWorld N
  notify ctx event nil_observer w = (panic, nil_observer, w)
  notify ctx event (file_observer none) w = (panic, file_observer none, w)
  notify ctx event (http_observer none) w = (panic, http_observer none, w)
  notify ctx event (file_observer (some o)) w =
      let (e, o', w') = notify_file event o w in (ok e, file_observer (some o'), w')
  notify ctx event (http_observer (some o)) w =
      let (r, w') = notify_http ctx event o w in (r, http_observer (some o), w')

  -- `Publish`: the errors of all observers. A panic in a worker ends the process.
  unfoldable pub publish :
      Context
      → Event
      → List Observer
      → AuditWorld N
      → Result (List Error) × List Observer × AuditWorld N
  publish ctx event [] w = (ok [], [], w)
  publish ctx event (o ∷ observers) w =
      let (r, o', w') = notify ctx event o w in
      let (rest, observers', w'') = publish ctx event observers w' in
      elim r [
        | panic ↦ (panic, o' ∷ observers, w')
        | err e ↦ (err e, o' ∷ observers, w')
        | ok none ↦ (rest, o' ∷ observers', w'')
        | ok (some e) ↦ (
          elim rest [ ok errors ↦ ok (e ∷ errors) | err x ↦ err x | panic ↦ panic ],
          o' ∷ observers',
          w'',
        )
      ]

  -- `Close` of Manager: an observer of files is closed, one of HTTP has no `Close`.
  unfoldable pub close : List Observer → Result (List Error) × List Observer
  close [] = (ok [], [])
  close (nil_observer ∷ observers) = let (r, rest) = close observers in (r, nil_observer ∷ rest)
  close (http_observer o ∷ observers) =
      let (r, rest) = close observers in (r, http_observer o ∷ rest)
  close (file_observer none ∷ observers) = (panic, file_observer none ∷ observers)
  close (file_observer (some o) ∷ observers) =
      let (e, o') = close_file_observer o in
      let (r, rest) = close observers in
      (
        elim r [
          | ok errors ↦ ok (elim e [ none ↦ errors | some x ↦ x ∷ errors ])
          | err x ↦ err x
          | panic ↦ panic
        ],
        file_observer (some o') ∷ rest,
      )
