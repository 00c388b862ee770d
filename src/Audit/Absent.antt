-- ===== src/Audit/Absent.antt =====
-- What the publisher of cmd/server/main.go does where a file or a URL is not configured.
use go_yandex_metrics.Base.{String, ◌≡◌, refl, ◌⊎◌, inl, inr, [], ◌∷◌, arith, panic}
use go_yandex_metrics.Handler.Http.{Event}
use go_yandex_metrics.Repository.Merge.{Context}
use go_yandex_metrics.Audit.{
  file_observer, http_observer, Outside, AuditWorld, new_file_observer, new_http_observer,
  new_manager, server_publisher, notify, publish,
}

-- The observers that the server keeps: both of them, nil pointers or not.
server_publisher-keeps :
    (audit_file audit_url : String)
    → server_publisher audit_file audit_url
      ≡ file_observer (new_file_observer audit_file)
        ∷ http_observer (new_http_observer audit_url)
        ∷ []
unfolding new_manager
server_publisher-keeps audit_file audit_url = refl

module _ {N : Type 0} (out : Outside N) where
  no_file :
      (audit_url : String) (ctx : Context) (event : Event) (w : AuditWorld N)
      → (publish out ctx event (server_publisher "" audit_url) w).0 ≡ panic
  unfolding publish notify new_manager new_file_observer
  no_file audit_url ctx event w = refl

  no_url :
      (audit_file : String) (ctx : Context) (event : Event) (w : AuditWorld N)
      → (publish out ctx event (server_publisher audit_file "") w).0 ≡ panic
  unfolding publish notify new_manager new_file_observer new_http_observer
  no_url audit_file ctx event w = ground arith

  -- Where the audit file or the audit URL is empty, as both are by default, the publisher that the
  -- server makes panics at its first event, since the nil pointers are not nil interfaces and pass
  -- the filter of `NewManager`.
  pub publish_panics :
      (audit_file audit_url : String) (ctx : Context) (event : Event) (w : AuditWorld N)
      → (audit_file ≡ "") ⊎ (audit_url ≡ "")
      → (publish out ctx event (server_publisher audit_file audit_url) w).0 ≡ panic
  publish_panics audit_file audit_url ctx event w (inl e) = rw e (no_file audit_url ctx event w)
  publish_panics audit_file audit_url ctx event w (inr e) = rw e (no_url audit_file ctx event w)
