-- ===== src/Tls/Provider.antt =====
-- internal/tlsruntime/provider.go. Managers and watchers are numbered; a watcher is a goroutine that
-- runs `Run` of a manager until its context is cancelled.
pub mod Watchers
use ollama_gateway.Common.{
  ℕ, suc, Text, Option, none, some, List, [], ◌∷◌, Bool, true, false, not, eqb, keep, if◌then◌else◌,
}
use mathlib.Core.Option
use ollama_gateway.Common.Int.{ℤ}
use ollama_gateway.Tls.{Certificate, Files, Manager, new_manager, load_initial, get_certificate}

abbrev pub Managers : Type 0
Managers = ℕ → Manager

-- `attached` tells whether there is a root context; `running` has the watchers that run, each with its
-- manager, and `cancel` is the one that the stored function cancels.
pub record CertificateProvider : Type 0 where
  pub managers : Managers
  pub next : ℕ
  pub attached : Bool
  pub manager : Option ℕ
  pub cancel : Option ℕ
  pub running : List (ℕ × ℕ)

-- `NewCertificateProvider`
unfoldable pub new_certificate_provider : Managers → CertificateProvider
new_certificate_provider managers = record {
  managers = managers;
  next = 0;
  attached = false;
  manager = none;
  cancel = none;
  running = [];
}

unfoldable pub stop_watcher : Option ℕ → CertificateProvider → CertificateProvider
stop_watcher none p = p
stop_watcher (some i) p = record p {
  cancel = none;
  running = keep (λ (w : ℕ × ℕ). not (eqb w.0 i)) p.running;
}

-- `go mgr.Run(ctx)`, with a context of its own
unfoldable pub start_watcher : Option ℕ → CertificateProvider → CertificateProvider
start_watcher none p = p
start_watcher (some m) p =
    if p.attached
    then record p { next = suc p.next; cancel = some p.next; running = (p.next, m) ∷ p.running }
    else p

-- `restartLocked`
unfoldable pub restart : CertificateProvider → CertificateProvider
unfolding stop_watcher start_watcher
restart p = let q = stop_watcher p.cancel p in start_watcher q.manager q

-- `Attach`
unfoldable pub attach : CertificateProvider → CertificateProvider
unfolding restart
attach p = restart (record p { attached = true })

-- `SetManager`
unfoldable pub set_manager : Option ℕ → CertificateProvider → CertificateProvider
unfolding restart
set_manager m p = restart (record p { manager = m })

abbrev pub put_manager : ℕ → Manager → Managers → Managers
put_manager i m ms j = if eqb j i then m else ms j

unfoldable pub activate : Manager × Bool → CertificateProvider → CertificateProvider × Bool
unfolding set_manager
activate (m, false) p = (p, false)
activate (m, true) p = (
  set_manager (some p.next)
      (record p { managers = put_manager p.next m p.managers; next = suc p.next }),
  true,
)

-- `UpdatePaths`, and whether it ends without an error.
unfoldable pub update_paths :
    Files → ℤ → Text → Text → ℤ → ℤ → CertificateProvider → CertificateProvider × Bool
unfolding activate
update_paths fs now cert key interval days p =
    activate (load_initial fs now (new_manager cert key interval days)) p

abbrev certificate_of : Managers → Option ℕ → Option Certificate
certificate_of ms none = none
certificate_of ms (some i) = get_certificate (ms i)

-- `GetCertificate` of the provider; `none` is its error.
unfoldable pub provided : CertificateProvider → Option Certificate
provided p = certificate_of p.managers p.manager

-- `Close`
unfoldable pub close : CertificateProvider → CertificateProvider
unfolding stop_watcher
close p = stop_watcher p.cancel p
