-- ===== src/Server/Flush.antt =====
-- What the shutdown of the server leaves in the file, cmd/server/main.go.
use go_yandex_metrics.Base.{
  ℕ, ◌*◌, ◌%◌, ◌^◌, ◌≡◌, refl, ap, subst, ◌≢◌, inl, inr, Bool, true, false, not, ◌&&◌, Option, none,
  some, List, [], ◌∷◌, ◌++◌, arith, Bool-cases, Error, Result, ok, err, panic,
}
use go_yandex_metrics.Repository.Contract.{Storage, Promises}
use go_yandex_metrics.Persistence.{
  Disk, Faults, Codec, Moment, tick, done, elsewhere, save_metrics, is_positive, saving_loop,
  keep_saving,
}
use go_yandex_metrics.Persistence.Loop.{Keeps, Written, keep_saving-Written}
use go_yandex_metrics.Persistence.Restart.{save_metrics-Filed}
use go_yandex_metrics.Server.{
  join_last, Event, server_error, file_storage_done, context_done, changed,
  stop_and_flush_file_storage, shut_down,
}

module _ (codec : Codec) (st : Storage) (promises : Promises st) where
  open promises use {IsConsistent}

  -- The context of the loop has not ended.
  abbrev pub goes_on : List (Moment st) → Bool
  goes_on [] = true
  goes_on (done f ∷ moments) = false
  goes_on (_ ∷ moments) = goes_on moments

  -- A flush without an error has come to the last save.
  abbrev Flushes : st.State → Option (Result {0} Unit) × st.State × Disk → Type 0
  Flushes after (r, s', d') = r ≡ some (ok tt) → s' ≡ after

  -- A save without an error leaves the storage as it was.
  save_metrics-state :
      (f : Faults) (s : st.State) (d : Disk)
      → IsConsistent s
      → (save_metrics codec st f s d).0 ≡ ok tt
      → (save_metrics codec st f s d).1 ≡ s
  save_metrics-state f s d c saved =
      let filed = save_metrics-Filed codec st promises f s d c saved in
      ap (λ (x : Result {0} Unit × st.State × Disk). x.1) filed.does

  tick-Flushes :
      (interval : ℕ) (f : Faults) (moments : List (Moment st)) (after s : st.State) (d : Disk)
      → IsConsistent s
      → ((d' : Disk) → Flushes after (saving_loop codec st interval moments s d'))
      → Flushes after (saving_loop codec st interval (tick f ∷ moments) s d)
  unfolding saving_loop
  tick-Flushes interval f moments after s d c rest =
      elim (Bool-cases (not (is_positive codec st interval))) [
        | inl off ↦ rw off (rest d)
        | inr on ↦ rw on (go (save_metrics codec st f s d).0 refl)
      ]
    where
      go :
          (r : Result {0} Unit)
          → (save_metrics codec st f s d).0 ≡ r
          → Flushes after (elim r [
            | ok _ ↦
                saving_loop codec st interval moments
                  (save_metrics codec st f s d).1
                  (save_metrics codec st f s d).2
            | err e ↦
                (some (err e), (save_metrics codec st f s d).1, (save_metrics codec st f s d).2)
            | panic ↦ (some panic, (save_metrics codec st f s d).1, (save_metrics codec st f s d).2)
          ])
      go (ok u) h =
          let filed = save_metrics-Filed codec st promises f s d c h in
          rw filed.does (rest filed.disk)
      go (err e) h = λ same. absurd (cc same)
      go panic h = λ same. absurd (cc same)

  saving_loop-Flushes :
      (interval : ℕ) (moments : List (Moment st)) (last : Faults) (s : st.State) (d : Disk)
      → IsConsistent s
      → Keeps codec st promises moments
      → goes_on moments ≡ true
      → Flushes
          (changed codec st moments s)
          (saving_loop codec st interval (moments ++ done last ∷ []) s d)
  unfolding saving_loop changed
  saving_loop-Flushes interval [] last s d c k g =
      λ ended. save_metrics-state last s d c (ground (arith, ended))
  saving_loop-Flushes interval (elsewhere change ∷ moments) last s d c k g =
      saving_loop-Flushes interval moments last (change s) d (k.0 s c) k.1 g
  saving_loop-Flushes interval (done f ∷ moments) last s d c k g = absurd (cc g)
  saving_loop-Flushes interval (tick f ∷ moments) last s d c k g =
      tick-Flushes interval f (moments ++ done last ∷ []) (changed codec st moments s) s d c
        (λ d'. saving_loop-Flushes interval moments last s d' c k g)

  keep_saving-Flushes :
      (interval : ℕ) (moments : List (Moment st)) (last : Faults) (s : st.State) (d : Disk)
      → IsConsistent s
      → Keeps codec st promises moments
      → goes_on moments ≡ true
      → Flushes
          (changed codec st moments s)
          (keep_saving codec st interval (moments ++ done last ∷ []) s d)
  unfolding keep_saving
  keep_saving-Flushes interval moments last s d c k g =
      elim (Bool-cases (
        is_positive codec st interval
        && not (is_positive codec st ((interval * 1000000000) % 2 ^ 64)))) [
          | inl bad ↦ rw bad (λ same. absurd (cc same))
          | inr good ↦ rw good (saving_loop-Flushes interval moments last s d c k g)
        ]

  Keeps-append :
      (xs ys : List (Moment st))
      → Keeps codec st promises xs
      → Keeps codec st promises ys
      → Keeps codec st promises (xs ++ ys)
  Keeps-append [] ys k l = l
  Keeps-append (elsewhere change ∷ xs) ys k l = (k.0, Keeps-append xs ys k.1 l)
  Keeps-append (tick f ∷ xs) ys k l = Keeps-append xs ys k l
  Keeps-append (done f ∷ xs) ys k l = Keeps-append xs ys k l

  goes_on-append :
      (xs ys : List (Moment st)) → goes_on xs ≡ true → goes_on ys ≡ true → goes_on (xs ++ ys) ≡ true
  goes_on-append [] ys g h = h
  goes_on-append (elsewhere change ∷ xs) ys g h = goes_on-append xs ys g h
  goes_on-append (tick f ∷ xs) ys g h = goes_on-append xs ys g h
  goes_on-append (done f ∷ xs) ys g h = absurd (cc g)

  -- The end of the server by the flush, whatever error was joined before.
  join_last-ok :
      (r : Result {0} Unit) (o : Option (Result {0} Unit))
      → join_last r o ≡ some (ok tt)
      → o ≡ some (ok tt)
  join_last-ok (ok u) (some r) e = e
  join_last-ok (ok u) none e = absurd (cc e)
  join_last-ok panic (some r) e = absurd (cc e)
  join_last-ok panic none e = absurd (cc e)
  join_last-ok (err x) none e = absurd (cc e)
  join_last-ok (err x) (some (ok u)) e = absurd (cc e)
  join_last-ok (err x) (some (err y)) e = absurd (cc e)
  join_last-ok (err x) (some panic) e = absurd (cc e)

  stop-Written :
      (interval : ℕ) (moments : List (Moment st)) (last : Faults) (s : st.State) (d : Disk)
      → IsConsistent s
      → Keeps codec st promises moments
      → goes_on moments ≡ true
      → (stop_and_flush_file_storage codec st false interval moments last s d).0 ≡ some (ok tt)
      → Written codec st promises
          (changed codec st moments s)
          (stop_and_flush_file_storage codec st false interval moments last s d).2
  unfolding stop_and_flush_file_storage
  stop-Written interval moments last s d c k g ended =
      subst
        (λ (x : st.State).
          Written codec st promises x
            (keep_saving codec st interval (moments ++ done last ∷ []) s d).2)
        (keep_saving-Flushes interval moments last s d c k g ended)
        (keep_saving-Written codec st promises interval (moments ++ done last ∷ []) s d c
          (Keeps-append moments (done last ∷ []) k tt) ended)

  -- The server on a file that ends by the end of its context or by the error of a server, on a storage
  -- that keeps its promises, over any ticks and any changes by its handlers that keep it consistent:
  -- if it returns no error, the file holds the encoding of a list of exactly what the storage holds
  -- after all that the handlers did, those included that ended while the servers were shut down.
  pub shut_down-Written :
      (is_server_closed is_server_stopped : Error → Bool) (interval : ℕ) (event : Event)
      (shutdown_error : Option Error) (before draining : List (Moment st)) (last : Faults)
      (s : st.State) (d : Disk)
      → event ≢ file_storage_done
      → IsConsistent s
      → Keeps codec st promises before
      → Keeps codec st promises draining
      → goes_on before ≡ true
      → goes_on draining ≡ true
      → (shut_down codec st is_server_closed is_server_stopped false interval event shutdown_error
          before draining last s d).0
        ≡ some (ok tt)
      → Written codec st promises
          (changed codec st (before ++ draining) s)
          (shut_down codec st is_server_closed is_server_stopped false interval event shutdown_error
            before draining last s d).2
  unfolding shut_down
  shut_down-Written is_server_closed is_server_stopped interval (server_error e) shutdown_error
        before draining last s d ne c k l g h ended =
      stop-Written interval (before ++ draining) last s d c (Keeps-append before draining k l)
        (goes_on-append before draining g h) (join_last-ok _ _ ended)
  shut_down-Written is_server_closed is_server_stopped interval context_done shutdown_error before
        draining last s d ne c k l g h ended =
      stop-Written interval (before ++ draining) last s d c (Keeps-append before draining k l)
        (goes_on-append before draining g h) (join_last-ok _ _ ended)
  shut_down-Written is_server_closed is_server_stopped interval file_storage_done shutdown_error
        before draining last s d ne c k l g h ended =
      absurd (ne refl)
