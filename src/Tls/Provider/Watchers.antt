-- ===== src/Tls/Provider/Watchers.antt =====
-- The goroutines that internal/tlsruntime/provider.go starts and cancels.
use ollama_gateway.Common.{
  ℕ, suc, ◌≡◌, refl, ◌∙◌, ◌⊎◌, inl, inr, Text, Option, none, some, List, [], ◌∷◌, Bool, true, false,
  eqb_refl, Bool-cases,
}
use ollama_gateway.Common.Int.{ℤ}
use ollama_gateway.Tls.{Certificate, Files, Manager, new_manager, load_initial, get_certificate}
use ollama_gateway.Tls.Refresh.{load_initial-IsLoaded, Reads-all}
use ollama_gateway.Tls.Provider.{
  Managers, CertificateProvider, put_manager, new_certificate_provider, stop_watcher, start_watcher,
  restart, attach, set_manager, activate, update_paths, provided, close,
}

-- The watchers that a provider should have: one of its manager if it can cancel one, else none.
abbrev wanted : Option ℕ → Option ℕ → List (ℕ × ℕ)
wanted none manager = []
wanted (some i) none = []
wanted (some i) (some m) = (i, m) ∷ []

pub record IsWatched (p : CertificateProvider) : Type 0 where
  pub watched : p.running ≡ wanted p.cancel p.manager

-- The methods, and the end of the root context is not among them.
pub data Call : Type 0 where
  attached : Call
  manager_set : Option ℕ → Call
  paths_updated : Files → ℤ → Text → Text → ℤ → ℤ → Call
  closed : Call

pub step : Call → CertificateProvider → CertificateProvider
step attached p = attach p
step (manager_set m) p = set_manager m p
step (paths_updated fs now cert key interval days) p =
    (update_paths fs now cert key interval days p).0
step closed p = close p

pub run_calls : List Call → CertificateProvider → CertificateProvider
unfolding step
run_calls [] p = p
run_calls (c ∷ cs) p = run_calls cs (step c p)

-- Stopping leaves no watcher.
stop-none :
    (o m : Option ℕ) (p : CertificateProvider)
    → p.cancel ≡ o
    → p.running ≡ wanted o m
    → ((stop_watcher o p).running ≡ []) × ((stop_watcher o p).cancel ≡ none)
unfolding stop_watcher
stop-none none m p e h = (h, e)
stop-none (some i) none p e h = (rw h refl, refl)
stop-none (some i) (some m) p e h = (rw h (rw (eqb_refl i) refl), refl)

stop-manager : (o : Option ℕ) (p : CertificateProvider) → (stop_watcher o p).manager ≡ p.manager
unfolding stop_watcher
stop-manager none p = refl
stop-manager (some i) p = refl

start-IsWatched :
    (o : Option ℕ) (p : CertificateProvider)
    → p.manager ≡ o
    → p.running ≡ []
    → p.cancel ≡ none
    → IsWatched (start_watcher o p)
unfolding start_watcher
start-IsWatched none p e h c = record { watched = h ∙ rw c refl }
start-IsWatched (some m) p e h c = elim (Bool-cases p.attached) [
  | inl on ↦ rw on (record { watched = rw h (rw e refl) })
  | inr off ↦ rw off (record { watched = h ∙ rw c refl })
]

restart-IsWatched :
    (p : CertificateProvider) (m : Option ℕ) → p.running ≡ wanted p.cancel m → IsWatched (restart p)
unfolding restart
restart-IsWatched p m h =
    let q = stop_watcher p.cancel p in
    let (r, c) = stop-none p.cancel m p refl h in start-IsWatched q.manager q refl r c

close-IsWatched : (p : CertificateProvider) → IsWatched p → IsWatched (close p)
unfolding close
close-IsWatched p v =
    let (r, c) = stop-none p.cancel p.manager p refl v.watched in record { watched = r ∙ rw c refl }

activate-IsWatched :
    (q : Manager × Bool) (p : CertificateProvider) → IsWatched p → IsWatched (activate q p).0
unfolding activate set_manager
activate-IsWatched (m, false) p v = v
activate-IsWatched (m, true) p v = restart-IsWatched _ p.manager v.watched

step-IsWatched : (c : Call) (p : CertificateProvider) → IsWatched p → IsWatched (step c p)
unfolding step attach set_manager update_paths
step-IsWatched attached p v = restart-IsWatched _ p.manager v.watched
step-IsWatched (manager_set m) p v = restart-IsWatched _ p.manager v.watched
step-IsWatched (paths_updated fs now cert key interval days) p v =
    activate-IsWatched (load_initial fs now (new_manager cert key interval days)) p v
step-IsWatched closed p v = close-IsWatched p v

calls-IsWatched :
    (cs : List Call) (p : CertificateProvider) → IsWatched p → IsWatched (run_calls cs p)
unfolding run_calls
calls-IsWatched [] p v = v
calls-IsWatched (c ∷ cs) p v = calls-IsWatched cs (step c p) (step-IsWatched c p v)

-- After any calls of a new provider's methods, one watcher at most runs: that of the manager in
-- place, if the provider has one to cancel, and none otherwise.
pub run_calls-IsWatched :
    (ms : Managers) (cs : List Call) → IsWatched (run_calls cs (new_certificate_provider ms))
unfolding new_certificate_provider
run_calls-IsWatched ms cs =
    calls-IsWatched cs (new_certificate_provider ms) (record { watched = refl })

provided-start :
    (o : Option ℕ) (p : CertificateProvider) → provided (start_watcher o p) ≡ provided p
unfolding provided start_watcher
provided-start none p = refl
provided-start (some m) p = elim (Bool-cases p.attached) [ inl e ↦ rw e refl | inr e ↦ rw e refl ]

provided-stop : (o : Option ℕ) (p : CertificateProvider) → provided (stop_watcher o p) ≡ provided p
unfolding provided stop_watcher
provided-stop none p = refl
provided-stop (some i) p = refl

provided-set_manager :
    (m : Option ℕ) (p : CertificateProvider)
    → provided (set_manager m p) ≡ provided (record p { manager = m })
unfolding set_manager restart
provided-set_manager m p =
    let q : CertificateProvider = record p { manager = m } in
    provided-start (stop_watcher q.cancel q).manager (stop_watcher q.cancel q)
    ∙ provided-stop q.cancel q

-- How a change to that manager ends.
abbrev pub Changed : Manager × Bool → CertificateProvider → CertificateProvider × Bool → Type 0
Changed loaded p after =
    ((loaded.1 ≡ false) × (after ≡ (p, false)))
    ⊎ ((loaded.1 ≡ true)
        × (after.1 ≡ true)
        × ((c : Certificate) × (loaded.0.cert ≡ some c) × (provided after.0 ≡ some c)))

activate-Changed :
    (loaded : Manager × Bool) (p : CertificateProvider)
    → (loaded.1 ≡ true → (c : Certificate) × (loaded.0.cert ≡ some c))
    → Changed loaded p (activate loaded p)
unfolding activate provided get_certificate
activate-Changed (m, false) p f = inl (refl, refl)
activate-Changed (m, true) p f =
    let (c, e) = f refl in
    let q : CertificateProvider = record p {
      managers = put_manager p.next m p.managers;
      next = suc p.next;
    } in
    inr (refl, refl, (c, e, provided-set_manager (some p.next) q ∙ rw (eqb_refl p.next) e))

-- A change of the paths takes the certificate of the new pair in force, or leaves the provider as it
-- was: with an error, the certificate, the manager and the watcher stay.
pub update_paths-Changed :
    (fs : Files) (now : ℤ) (cert key : Text) (interval days : ℤ) (p : CertificateProvider)
    → Changed
        (load_initial fs now (new_manager cert key interval days))
        p
        (update_paths fs now cert key interval days p)
unfolding update_paths
update_paths-Changed fs now cert key interval days p =
    activate-Changed (load_initial fs now (new_manager cert key interval days)) p (λ h.
      let (c, v) =
        load_initial-IsLoaded fs (λ p. Unit) now (new_manager cert key interval days) (Reads-all _)
          h in
      (c, v.2))
