-- ===== src/Tests/Files.antt =====
-- Saving to the file and restoring, with a toy of JSON.
use go_yandex_metrics.Base.{
  zero, suc, ◌≡◌, refl, ◌⊎◌, inl, inr, Bool, true, false, ◌&&◌, Option, none, some, List, [], ◌∷◌,
  arith, ◌==◌, if◌then◌else◌, str_eq, str_eq_iff, Bool-cases, All, Error, message, ok,
}
use go_yandex_metrics.Base.Text.{Bytes}
use go_yandex_metrics.Model.{Metrics, MetricKey, counter}
use go_yandex_metrics.Service
use go_yandex_metrics.Repository.Merge.{background, validate_metric}
use go_yandex_metrics.Repository.Memory.{
  MemoryStorage, new_memory_storage, save_metrics_locked, get_all_metrics,
}
use go_yandex_metrics.Repository.Memory as Memory
use go_yandex_metrics.Repository.Memory.Index.{new-IsConsistent}
use go_yandex_metrics.Repository.Memory.History.{
  Call, save, serve, serve_all, serve_all-IsConsistent,
}
use go_yandex_metrics.Repository.Memory.Promised.{memory_storage, memory-Promises}
use go_yandex_metrics.Persistence.{
  Disk, Faults, Codec, Moment, tick, done, elsewhere, write_event, save_metrics, restore,
  saving_loop, keep_saving,
}
use go_yandex_metrics.Persistence.Atomic.{WriteEnds, write_event-WriteEnds}
use go_yandex_metrics.Persistence.Restart.{Inverse, restore-save_metrics}
use go_yandex_metrics.Persistence.Loop.{Keeps, Written}
use go_yandex_metrics.Server.{context_done, changed, stop_and_flush_file_storage, shut_down}
use go_yandex_metrics.Server.Flush.{shut_down-Written}
use go_yandex_metrics.Tests.Data.{hits}

-- The toy knows the empty list and the list of `hits`.
is_hits : Metrics → Bool
is_hits m =
    str_eq m.id "Hits"
    && str_eq m.m_type counter
    && elim m.delta [ none ↦ false | some d ↦ d == 3 ]
    && elim m.value [ none ↦ true | some v ↦ false ]
    && str_eq m.hash ""

is_hits-eq : (m : Metrics) → is_hits m ≡ true → m ≡ hits
unfolding is_hits
is_hits-eq m h =
    ground (arith, h, str_eq_iff m.id "Hits", str_eq_iff m.m_type counter, str_eq_iff m.hash "")

encode : List Metrics → Error ⊎ Bytes
encode [] = inr (0 ∷ [])
encode (m ∷ []) = if is_hits m then inr (1 ∷ []) else inl (message "unknown")
encode (m ∷ n ∷ rest) = inl (message "unknown")

decode : Bytes → Option (Error ⊎ List Metrics)
decode [] = none
decode (zero ∷ rest) = some (inr [])
decode (suc n ∷ rest) = some (inr (hits ∷ []))

codec : Codec
codec = record { encode = encode; decode = decode }

codec-Inverse : Inverse codec
unfolding codec encode decode
codec-Inverse [] text e = ground (arith, e)
codec-Inverse (m ∷ []) text e = elim (Bool-cases (is_hits m)) [
  | inl same ↦ ground (arith, e, same, is_hits-eq m same)
  | inr other ↦ absurd (ground (arith, e, other))
]
codec-Inverse (m ∷ n ∷ rest) text e = absurd (ground (arith, e))

abbrev no_faults : Faults
no_faults = record {
  create_temp = none;
  write = none;
  sync = none;
  close = none;
  rename = none;
  remove = none;
}

abbrev empty_disk : Disk
empty_disk = record { file = none; temp = none }

abbrev calls : List Call
calls = save background hits ∷ []

abbrev held : MemoryStorage
held = serve_all calls new_memory_storage

consistent : memory-Promises.IsConsistent held
unfolding memory-Promises
consistent = serve_all-IsConsistent calls new_memory_storage new-IsConsistent

started : memory-Promises.IsConsistent new_memory_storage
unfolding memory-Promises
started = new-IsConsistent

nothing_held : (k : MetricKey) → memory-Promises.view new_memory_storage k ≡ none
unfolding memory-Promises
nothing_held k = refl

saves : (save_metrics codec memory_storage no_faults held empty_disk).0 ≡ ok tt
unfolding save_metrics Service.get_all_metrics get_all_metrics serve serve_all Memory.save_metrics
    save_metrics_locked validate_metric write_event codec encode is_hits
saves = refl

write_event-WriteEnds_example :
    let (e, d', seen) =
      write_event codec
        (record no_faults { sync = some (message "disk full") })
        (hits ∷ [])
        empty_disk in
    WriteEnds codec (hits ∷ []) empty_disk e d' × All (λ (x : Disk). x.file ≡ none) seen
write_event-WriteEnds_example =
    write_event-WriteEnds codec (record no_faults { sync = some (message "disk full") }) (hits ∷ [])
      empty_disk

restore-save_metrics_example :
    let d' = (save_metrics codec memory_storage no_faults held empty_disk).2 in
    let (r, s', d'') = restore codec memory_storage none (λ i. background) new_memory_storage d' in
    (r ≡ ok tt)
    × (d'' ≡ d')
    × memory-Promises.IsConsistent s'
    × ((k : MetricKey) → memory-Promises.view s' k ≡ memory-Promises.view held k)
restore-save_metrics_example =
    restore-save_metrics codec memory_storage memory-Promises no_faults held new_memory_storage
      empty_disk codec-Inverse consistent started nothing_held saves

abbrev moments : List (Moment memory_storage)
moments = tick no_faults ∷ done no_faults ∷ []

ends : (keep_saving codec memory_storage 300 moments held empty_disk).0 ≡ some (ok tt)
unfolding keep_saving saving_loop save_metrics Service.get_all_metrics get_all_metrics serve
    serve_all Memory.save_metrics save_metrics_locked validate_metric write_event codec encode
    is_hits
ends = refl

lists : memory_storage.get_all_metrics background held ≡ (ok (hits ∷ []), held)
unfolding get_all_metrics serve serve_all Memory.save_metrics save_metrics_locked validate_metric
lists = refl

encodes : codec.encode (hits ∷ []) ≡ inr (1 ∷ [])
unfolding codec encode is_hits
encodes = refl

-- A handler saves while the server shuts down, after a tick that saved nothing of it.
abbrev draining : List (Moment memory_storage)
draining = elsewhere (λ (s : MemoryStorage). serve_all calls s) ∷ []

keeps : Keeps codec memory_storage memory-Promises draining
unfolding memory-Promises
keeps = (λ s c. serve_all-IsConsistent calls s c, tt)

returns :
    (shut_down codec memory_storage
      (λ e. false)
      (λ e. false)
      false
      300
      context_done
      none
      (tick no_faults ∷ [])
      draining
      no_faults
      new_memory_storage
      empty_disk).0
    ≡ some (ok tt)
unfolding shut_down stop_and_flush_file_storage keep_saving saving_loop save_metrics
    Service.get_all_metrics get_all_metrics serve serve_all Memory.save_metrics save_metrics_locked
    validate_metric write_event codec encode is_hits
returns = refl

shut_down-Written_example :
    Written codec memory_storage memory-Promises
      (changed codec memory_storage (tick no_faults ∷ draining) new_memory_storage)
      (shut_down codec memory_storage
        (λ e. false)
        (λ e. false)
        false
        300
        context_done
        none
        (tick no_faults ∷ [])
        draining
        no_faults
        new_memory_storage
        empty_disk).2
shut_down-Written_example =
    shut_down-Written codec memory_storage memory-Promises (λ e. false) (λ e. false) 300
      context_done none (tick no_faults ∷ []) draining no_faults new_memory_storage empty_disk
      (λ e. cc e) started tt keeps refl refl returns
