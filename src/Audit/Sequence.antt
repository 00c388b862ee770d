-- ===== src/Audit/Sequence.antt =====
-- What a publisher with a file and a URL writes over its events, internal/audit/audit.go.
use go_yandex_metrics.Base.{
  ℕ, String, ◌≡◌, refl, sym, ap, ◌∙◌, ◌≢◌, inl, inr, true, false, ◌||◌, Option, none, some, List,
  [], ◌∷◌, ◌++◌, arith, ltb, leb, str_eq_iff, Bool-cases, Error, message, wrap, Result, ok, err,
  panic,
}
use mathlib.Core.List.{append_assoc, append-nil}
use go_yandex_metrics.Base.Text.{Bytes}
use go_yandex_metrics.Handler.Http.{Event}
use go_yandex_metrics.Repository.Merge.{Context}
use go_yandex_metrics.Retry.{retry_intervals}
use go_yandex_metrics.Audit.{
  FileObserver, HttpObserver, Observer, file_observer, http_observer, Outside, AuditWorld,
  new_file_observer, new_http_observer, new_manager, server_publisher, notify_file, do_request,
  http_outcome, notify_http, notify, publish,
}
use go_yandex_metrics.Audit.Delivery.{receiver_at, answered, stopped, do_request-Ends}

module _ {N : Type 0} (out : Outside N) where
  -- Events one after the other, each with its context, up to a panic.
  unfoldable pub publish_each :
      List (Context × Event)
      → List Observer
      → AuditWorld N
      → Result (Unit {0}) × List Observer × AuditWorld N
  unfolding publish
  publish_each [] observers w = (ok tt, observers, w)
  publish_each ((ctx, event) ∷ events) observers w =
      let (r, observers', w') = publish out ctx event observers w in
      elim r [
        | panic ↦ (panic, observers', w')
        | err e ↦ publish_each events observers' w'
        | ok errors ↦ publish_each events observers' w'
      ]

  -- What an event adds to the file: its line, or what of it could be written, if the file opens.
  unfoldable pub line_of : Event → Bytes
  line_of event = elim out.open_file [
    | some e ↦ []
    | none ↦ elim out.write_file [ some (e, part) ↦ part | none ↦ out.marshal event ++ 10 ∷ [] ]
  ]

  unfoldable pub all_lines : List (Context × Event) → Bytes
  all_lines [] = []
  all_lines ((ctx, event) ∷ events) = line_of event ++ all_lines events

  -- A file observer that goes on: it is not closed, and has its file only if files open.
  record GoesOn (o : FileObserver) : Type 0 where
    is_open : o.closed ≡ false
    opened : o.file ≡ true → out.open_file ≡ none

  notify_file-GoesOn :
      (event : Event) (o : FileObserver) (w : AuditWorld N)
      → GoesOn o
      → let (e, o', w') = notify_file out event o w in
        (o'.closed ≡ false)
        × (o'.file ≡ true → out.open_file ≡ none)
        × (w'.lines ≡ w.lines ++ line_of event)
        × (w'.receiver ≡ w.receiver)
  unfolding notify_file line_of
  notify_file-GoesOn event o w g = ground (
    arith,
    g.is_open,
    g.opened,
    append-nil w.lines,
    append_assoc w.lines (out.marshal event) (10 ∷ []),
  )

  -- The client does not panic; net/http's does not.
  abbrev pub NeverPanics : Type 0
  NeverPanics = (payload : Bytes) (n : N) → (out.post payload n).0 ≢ panic

  do_request-returns :
      (ctx : Context) (payload : Bytes) (n : N)
      → NeverPanics
      → (do_request out ctx retry_intervals payload n).0 ≢ panic
  do_request-returns ctx payload n calm = elim (do_request-Ends out payload ctx retry_intervals n) [
    | answered k le before same final ↦ λ e.
        calm payload (receiver_at out payload k n) (ap (λ (x : Result ℕ × N). x.0) (sym same) ∙ e)
    | stopped k x lt before halted same ↦
        λ e. absurd (cc (ap (λ (x : Result ℕ × N). x.0) (sym same) ∙ e))
  ]

  http_outcome-ok : (r : Result ℕ) → r ≢ panic → (x : Option Error) × (http_outcome out r ≡ ok x)
  unfolding http_outcome
  http_outcome-ok panic calm = absurd (calm refl)
  http_outcome-ok (err e) calm = (some (wrap "send audit request" e), refl)
  http_outcome-ok (ok status_code) calm =
      elim (Bool-cases (ltb status_code 200 || leb 300 status_code)) [
        | inl bad ↦ (some (message "audit receiver returned status"), ground (arith, bad))
        | inr fine ↦ (none, ground (arith, fine))
      ]

  -- An event with both observers: no panic, and one more line.
  record Published (event : Event) (u : HttpObserver) (w : AuditWorld N)
      (r : Result (List Error) × List Observer × AuditWorld N) : Type 0 where
    errors : List Error
    after : FileObserver
    goes_on : GoesOn after
    returns : r.0 ≡ ok errors
    observers : r.1 ≡ file_observer (some after) ∷ http_observer (some u) ∷ []
    written : r.2.lines ≡ w.lines ++ line_of event

  publish-Published :
      (ctx : Context) (event : Event) (o : FileObserver) (u : HttpObserver) (w : AuditWorld N)
      → NeverPanics
      → GoesOn o
      → Published event u w
          (publish out ctx event (file_observer (some o) ∷ http_observer (some u) ∷ []) w)
  unfolding publish notify notify_http
  publish-Published ctx event o u w calm g =
      let (a, b, c, d) = notify_file-GoesOn event o w g in
      let w1 = (notify_file out event o w).2 in
      let (x, sent) =
        http_outcome-ok (do_request out ctx retry_intervals (out.marshal event) w1.receiver).0
          (do_request-returns ctx (out.marshal event) w1.receiver calm) in
      go (notify_file out event o w).0 refl x sent a b c
    where
      go :
          (e : Option Error)
          → (notify_file out event o w).0 ≡ e
          → (x : Option Error)
          → http_outcome out
              (do_request out ctx retry_intervals
                (out.marshal event)
                (notify_file out event o w).2.receiver).0
            ≡ ok x
          → (notify_file out event o w).1.closed ≡ false
          → ((notify_file out event o w).1.file ≡ true → out.open_file ≡ none)
          → (notify_file out event o w).2.lines ≡ w.lines ++ line_of event
          → Published event u w
              (publish out ctx event (file_observer (some o) ∷ http_observer (some u) ∷ []) w)
      go none h x sent a b c = record {
        errors = elim x [ none ↦ [] | some y ↦ y ∷ [] ];
        after = (notify_file out event o w).1;
        goes_on = record { is_open = a; opened = b };
        returns = ground (arith, h, sent);
        observers = ground (arith, h, sent);
        written = ground (arith, h, sent, c);
      }
      go (some z) h x sent a b c = record {
        errors = z ∷ elim x [ none ↦ [] | some y ↦ y ∷ [] ];
        after = (notify_file out event o w).1;
        goes_on = record { is_open = a; opened = b };
        returns = ground (arith, h, sent);
        observers = ground (arith, h, sent);
        written = ground (arith, h, sent, c);
      }

  publish_each-lines :
      (events : List (Context × Event)) (o : FileObserver) (u : HttpObserver) (w : AuditWorld N)
      → NeverPanics
      → GoesOn o
      → let (r, observers, w') =
          publish_each events (file_observer (some o) ∷ http_observer (some u) ∷ []) w in
        (r ≡ ok tt) × (w'.lines ≡ w.lines ++ all_lines events)
  unfolding publish_each all_lines
  publish_each-lines [] o u w calm g = (refl, sym (append-nil w.lines))
  publish_each-lines ((ctx, event) ∷ events) o u w calm g =
      let p = publish-Published ctx event o u w calm g in
      let observers = file_observer (some o) ∷ http_observer (some u) ∷ [] in
      let rest =
        publish_each-lines events p.after u (publish out ctx event observers w).2 calm p.goes_on in
      let goes : publish_each ((ctx, event) ∷ events) observers w
          ≡ publish_each events (file_observer (some p.after) ∷ http_observer (some u) ∷ [])
              (publish out ctx event observers w).2 =
        ground (arith, p.returns, p.observers) in
      rw goes (
        rest.0,
        rest.1
            ∙ ap (λ (l : Bytes). l ++ all_lines events) p.written
            ∙ append_assoc w.lines (line_of event) (all_lines events),
      )

  -- Where a file and a URL are configured, and the client of the receiver does not panic: the publisher
  -- of the server panics at no event, however many there are and whatever their contexts and the
  -- receiver answer, and the audit file grows by the lines of all events in their order, each once.
  -- Where the file does not open it grows by nothing, and where writes fail by what they wrote.
  pub publish_each-writes :
      (audit_file audit_url : String) (events : List (Context × Event)) (w : AuditWorld N)
      → NeverPanics
      → audit_file ≢ ""
      → audit_url ≢ ""
      → let (r, observers, w') = publish_each events (server_publisher audit_file audit_url) w in
        (r ≡ ok tt) × (w'.lines ≡ w.lines ++ all_lines events)
  unfolding new_manager new_file_observer new_http_observer
  publish_each-writes audit_file audit_url events w calm named addressed =
      let file : FileObserver = record { path = audit_file; file = false; closed = false } in
      let url : HttpObserver = record { url = audit_url } in
      let made : server_publisher audit_file audit_url
          ≡ file_observer (some file) ∷ http_observer (some url) ∷ [] =
        ground (arith, named, addressed, str_eq_iff audit_file "", str_eq_iff audit_url "") in
      rw made (
        publish_each-lines events file url w calm
          (record { is_open = refl; opened = λ e. absurd (cc e) }))
