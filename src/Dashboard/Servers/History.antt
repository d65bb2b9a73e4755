-- ===== src/Dashboard/Servers/History.antt =====
-- Any history of the forms for backends of internal/dashboard/handler.go keeps its views aligned.
use ollama_gateway.Common.{
  ℕ, ◌≡◌, ◌≢◌, inl, inr, refl, sym, ap, ◌∙◌, Text, codes, ◌==◌, eq_iff, eq_refl, trim_space,
  trim_prefix, none, some, List, [], ◌∷◌, Bool, true, false, not, ◌||◌, arith, is_empty, Bool-cases,
  Option-cases, eq_of_some,
}
use ollama_gateway.Common.Table.{Table, lookup}
use ollama_gateway.Backends.{Backend, BackendConfig, UrlParser, set_enabled}
use ollama_gateway.Backends.Manager.{Manager, get_by_name, remove_backend}
use ollama_gateway.Backends.Manager.Consistency.{put-IsConsistent, remove_backend-IsConsistent}
use ollama_gateway.Backends.Manager.Routing.{remove_backend_lem, update_self, update-ne}
use ollama_gateway.Backends.Store.{Row, remove_row}
use ollama_gateway.Models.Catalog.{Catalog}
use ollama_gateway.Dashboard.Servers.{
  Fleet, holds, without, drop_config, drop_backend, models_referencing, confirm_removal,
  enable_named, toggle_backend, handle_toggle, Action, save_submitted, removal_confirmed, toggled,
  act, act_all,
}
use ollama_gateway.Dashboard.Servers.Alignment.{
  IsAligned, apart, holds-without, not_held, reload_backends-IsAligned, save_backend-IsAligned,
  stored-remove_row, IsKeyed-remove_row,
}

remove_backend-none :
    (name : Text) (m : Manager) → remove_backend name m ≡ none → get_by_name name m ≡ none
unfolding get_by_name remove_backend
remove_backend-none name m h = elim (Option-cases (lookup name m.by_name)) [
  | inl e ↦ e
  | inr (p, e) ↦ cc (rw (e, remove_backend) at h)
]

-- Without its row, for a name that the manager does not know.
row_removed-IsAligned :
    (name : Text) (rows : Table Row) (s : Fleet)
    → IsAligned s
    → remove_row name s.rows ≡ some rows
    → get_by_name name s.manager ≡ none
    → IsAligned (record s { rows = rows })
row_removed-IsAligned name rows s v h k = record {
  consistent = v.consistent;
  keyed = IsKeyed-remove_row name s.rows rows v.keyed h;
  stored = λ n p g.
      let far : n ≢ name = λ q. cc (g, k, ap (λ x. get_by_name x s.manager) q) in
      stored-remove_row name n s.rows rows v.keyed h far (v.stored n p g);
  agreed = v.agreed;
}

abbrev dropped : Text → List BackendConfig → Table Row → Manager → Fleet → Fleet
dropped name cs rows m s = record {
  backends = cs;
  rows = rows;
  manager = m;
  disabled = without name s.disabled;
}

dropped-IsAligned :
    (name : Text) (cs : List BackendConfig) (rows : Table Row) (m : Manager) (s : Fleet)
    → IsAligned s
    → remove_row name s.rows ≡ some rows
    → remove_backend name s.manager ≡ some m
    → IsAligned (dropped name cs rows m s)
dropped-IsAligned name cs rows m s v h k =
    let (gone, other, backends, heap) = remove_backend_lem name s.manager m k in
    let far : (n : Text) (p : ℕ) → get_by_name n m ≡ some p → n ≢ name =
      λ n p g q. cc (g, gone, ap (λ x. get_by_name x m) q) in
    let before : (n : Text) (p : ℕ) → get_by_name n m ≡ some p → get_by_name n s.manager ≡ some p =
      λ n p g. sym (other n (far n p g)) ∙ g in
    record {
      consistent = remove_backend-IsConsistent name s.manager m v.consistent k;
      keyed = IsKeyed-remove_row name s.rows rows v.keyed h;
      stored = λ n p g.
          stored-remove_row name n s.rows rows v.keyed h (far n p g) (v.stored n p (before n p g));
      agreed = λ n p g.
          holds-without n name s.disabled (far n p g)
          ∙ v.agreed n p (before n p g)
          ∙ ap (λ (b : Backend). not b.enabled) (sym (heap p));
    }

drop_backend-IsAligned : (name : Text) (s : Fleet) → IsAligned s → IsAligned (drop_backend name s).0
unfolding drop_backend
drop_backend-IsAligned name s v = elim (Option-cases (remove_row name s.rows)) [
  | inl e ↦ rw (e, drop_backend) v
  | inr (rows, e) ↦ elim (Option-cases (remove_backend name s.manager)) [
    | inl f ↦
        rw (e, f, drop_backend)
          (row_removed-IsAligned name rows s v e (remove_backend-none name s.manager f))
    | inr (m, f) ↦
        rw (e, f, drop_backend)
          (reload_backends-IsAligned _
            (dropped-IsAligned name (drop_config name s.backends) rows m s v e f))
  ]
]

confirm_removal-IsAligned :
    (typed name : Text) (catalog : Catalog) (s : Fleet)
    → IsAligned s
    → IsAligned (confirm_removal typed name catalog s).0
unfolding confirm_removal
confirm_removal-IsAligned typed name catalog s v = elim (Bool-cases (trim_space typed == name)) [
  | inl e ↦ elim (Bool-cases (is_empty (models_referencing name catalog))) [
    | inl f ↦ rw (e, f) (drop_backend-IsAligned name s v)
    | inr f ↦ rw (e, f) v
  ]
  | inr e ↦ rw e v
]

-- A switch that is put on or off, with the list of the disabled names.
abbrev switched : Text → Bool → List Text → Fleet → Fleet
switched name on names s = record s { disabled = names; manager = enable_named name on s.manager }

switched-IsAligned :
    (name : Text) (on : Bool) (names : List Text) (s : Fleet)
    → IsAligned s
    → holds name names ≡ not on
    → ((n : Text) → n ≢ name → holds n names ≡ holds n s.disabled)
    → IsAligned (switched name on names s)
unfolding enable_named get_by_name set_enabled
switched-IsAligned name on names s v here away = elim (Option-cases (get_by_name name s.manager)) [
  | inl e ↦
      rw (e, enable_named)
        (record {
          consistent = v.consistent;
          keyed = v.keyed;
          stored = v.stored;
          agreed = λ n p g.
              let far : n ≢ name = λ q. cc (g, e, ap (λ x. get_by_name x s.manager) q) in
              away n far ∙ v.agreed n p g;
        })
  | inr (p₀, e) ↦
      let b : Backend = set_enabled on (s.manager.heap p₀) in
      rw (e, enable_named)
        (record {
          consistent = put-IsConsistent p₀ b s.manager refl v.consistent;
          keyed = v.keyed;
          stored = v.stored;
          agreed = λ n p g. elim (Bool-cases (n == name)) [
            | inl k ↦
                let q : n ≡ name = (eq_iff n name).0 k in
                let r : p ≡ p₀ = eq_of_some (sym g ∙ ap (λ x. get_by_name x s.manager) q ∙ e) in
                rw (q, r)
                  (here
                    ∙ ap (λ (x : Backend). not x.enabled) (sym (update_self s.manager.heap p₀ b)))
            | inr k ↦
                let far : n ≢ name = λ q. ground (arith, eq_iff n name, q, k) in
                away n far
                ∙ v.agreed n p g
                ∙ ap (λ (x : Backend). not x.enabled)
                    (sym (
                      update-ne s.manager.heap p₀ b p
                        (apart s.manager n name p p₀ v.consistent g e far)))
          ];
        })
]

toggle_backend-IsAligned :
    (name : Text) (s : Fleet) → IsAligned s → IsAligned (toggle_backend name s)
unfolding toggle_backend
toggle_backend-IsAligned name s v = elim (Bool-cases (holds name s.disabled)) [
  | inl e ↦ rw e (
      switched-IsAligned name true (without name s.disabled) s v (not_held name s.disabled)
        (λ n far. holds-without n name s.disabled far))
  | inr e ↦ rw e (
      switched-IsAligned name false (name ∷ s.disabled) s v (rw (eq_refl name) refl)
        (λ n far. ground (arith, eq_iff name n, far)))
]

act-IsAligned :
    (parse : UrlParser) (a : Action) (s : Fleet) → IsAligned s → IsAligned (act parse a s)
unfolding act handle_toggle
act-IsAligned parse (save_submitted create c) s v = save_backend-IsAligned parse create c s v
act-IsAligned parse (removal_confirmed typed name catalog) s v =
    confirm_removal-IsAligned typed name catalog s v
act-IsAligned parse (toggled page) s v =
    let name = trim_prefix (codes "backends/toggle/") page in
    elim (Bool-cases (name == [] || name == codes "backends/toggle/")) [
      | inl e ↦ rw e v
      | inr e ↦ rw e (toggle_backend-IsAligned name s v)
    ]

-- Whatever forms and clicks the dashboard gets, failing ones included: a backend that the manager knows
-- is listed as disabled exactly if it is not enabled, and it has an active row in the table; the
-- manager stays consistent.
pub act_all-IsAligned :
    (parse : UrlParser) (actions : List Action) (s : Fleet)
    → IsAligned s
    → IsAligned (act_all parse actions s)
unfolding act_all
act_all-IsAligned parse [] s v = v
act_all-IsAligned parse (a ∷ rest) s v =
    act_all-IsAligned parse rest (act parse a s) (act-IsAligned parse a s v)
