-- ===== src/Service/Provision/Owners.antt =====
-- Whose files `processAppSecrets` of controllers/brokerservice_controller.go writes.
use activemq_artemis_operato.Base.{
  String, Bool, true, false, Option, none, some, List, [], ◌∷◌, ◌≡◌, refl, sym, ap, ◌∙◌, Memᴰ, ◌⊎◌,
  inl, inr, Bool-cases, is_none, if_false, ℕ, lookup, insert, lookup-insert, ◌==◌, eq_iff,
}
use activemq_artemis_operato.Errors.{Error, Result, ok, err}
use activemq_artemis_operato.Api.{BrokerApp, BrokerService}
use activemq_artemis_operato.App.Validate.{resource_name_error}
use activemq_artemis_operato.Service.Properties.{capabilities_text}
use activemq_artemis_operato.Service.Acceptor.{
  Files, get_trust_store_path, pem_cfg_key, cert_users_cfg_key, cert_roles_cfg_key, acceptor_key,
  acceptor_text, users_text, roles_text, make_pem_cfg_props, login_files, bound_port, accept_at,
  accept_with, process_acceptor,
}
use activemq_artemis_operato.Service.Acceptor.Files.{Present}
use activemq_artemis_operato.Service.Provision.{
  Platform, validate_app_for_provisioning, capabilities_key, write_capabilities,
  process_capabilities, Provision, after_acceptor, after_capabilities, admit, judge, provision_app,
  provision_apps,
}
use activemq_artemis_operato.Service.Provision.Admitted.{is_admitted}

-- The names of an app's files.
abbrev pub keys_of : BrokerApp → List String
keys_of app =
    capabilities_key app
    ∷ pem_cfg_key app
    ∷ cert_users_cfg_key app
    ∷ cert_roles_cfg_key app
    ∷ acceptor_key app
    ∷ []

-- A file of the second data was in the first, or is one of the app's.
abbrev Adds : BrokerApp → Files → Files → Type 0
Adds app before after =
    (key : String) → Present key after → Present key before ⊎ Memᴰ key (keys_of app)

Adds-insert :
    (app : BrokerApp) (own text : String) (before after : Files)
    → Memᴰ own (keys_of app)
    → Adds app before after
    → Adds app before (insert own text after)
Adds-insert app own text before after mine adds key (found, h) = elim (Bool-cases (own == key)) [
  | inl same ↦ inr (rw (← (eq_iff own key).0 same) mine)
  | inr other ↦ adds key (
    found,
    sym (if_false (own == key) (some text) (lookup key after) other)
        ∙ sym (lookup-insert own key text after)
        ∙ h,
  )
]

Adds-refl : (app : BrokerApp) (files : Files) → Adds app files files
Adds-refl app files key found = inl found

Adds-trans : (app : BrokerApp) (a b c : Files) → Adds app a b → Adds app b c → Adds app a c
Adds-trans app a b c f g key found = elim (g key found) [
  | inl old ↦ f key old
  | inr mine ↦ inr mine
]

Adds-capabilities :
    (app : BrokerApp) (text : Result String) (files : Files)
    → Adds app files (write_capabilities app text files).0
unfolding write_capabilities
Adds-capabilities app (ok text) files =
    Adds-insert app (capabilities_key app) text files files (Memᴰ.head refl) (Adds-refl app files)
Adds-capabilities app (err e) files = Adds-refl app files

Adds-login_files :
    (app : BrokerApp) (service : String) (files : Files)
    → Adds app files (login_files service app files)
unfolding login_files
Adds-login_files app service files =
    Adds-insert app (cert_roles_cfg_key app) (roles_text app) files _
      (Memᴰ.tail (Memᴰ.tail (Memᴰ.tail (Memᴰ.head refl))))
      (Adds-insert app (cert_users_cfg_key app) (users_text app) files _
        (Memᴰ.tail (Memᴰ.tail (Memᴰ.head refl)))
        (Adds-insert app (pem_cfg_key app) (make_pem_cfg_props service) files files
          (Memᴰ.tail (Memᴰ.head refl)) (Adds-refl app files)))

Adds-accept_at :
    (app : BrokerApp) (service path : String) (port : Result ℕ) (before files : Files)
    → Adds app before files
    → Adds app before (accept_at service app path port files).0
unfolding accept_at
Adds-accept_at app service path (ok port) before files a =
    Adds-insert app (acceptor_key app) (acceptor_text service path app port) before files
      (Memᴰ.tail (Memᴰ.tail (Memᴰ.tail (Memᴰ.tail (Memᴰ.head refl))))) a
Adds-accept_at app service path (err e) before files a = a

Adds-accept_with :
    (app : BrokerApp) (service : String) (path : Result String) (files : Files)
    → Adds app files (accept_with service app path files).0
unfolding accept_with
Adds-accept_with app service (ok path) files =
    Adds-accept_at app service path (bound_port app app.status.service) files
      (login_files service app files) (Adds-login_files app service files)
Adds-accept_with app service (err e) files = Adds-refl app files

module _ (u : Platform) (service : BrokerService) where
  Adds-after_acceptor :
      (app : BrokerApp) (s : Provision) (done : Files × Option Error)
      → Adds app s.files done.0
      → Adds app s.files (after_acceptor u service app s done).files
  unfolding after_acceptor
  Adds-after_acceptor app s (files, none) a = a
  Adds-after_acceptor app s (files, some e) a = a

  Adds-after_capabilities :
      (app : BrokerApp) (s : Provision) (done : Files × Option Error)
      → Adds app s.files done.0
      → Adds app s.files (after_capabilities u service app s done).files
  unfolding after_capabilities process_acceptor
  Adds-after_capabilities app s (files, none) a =
      Adds-after_acceptor app s (process_acceptor u.operator_ca service.name app files) (
        Adds-trans app s.files files _ a
          (Adds-accept_with app service.name (get_trust_store_path u.operator_ca) files))
  Adds-after_capabilities app s (files, some e) a = a

  Adds-admit :
      (app : BrokerApp) (s : Provision) (name : Option Error)
      → Adds app s.files (admit u service app s name).files
  unfolding admit process_capabilities
  Adds-admit app s none =
      Adds-after_capabilities app s (process_capabilities app s.files)
        (Adds-capabilities app (capabilities_text app) s.files)
  Adds-admit app s (some e) = Adds-refl app s.files

  -- A file of the data was there before, or is of an app of the list that passes the checks.
  abbrev pub IsOwned : List BrokerApp → Files → String → Type 0
  IsOwned apps before key =
      Present key before
      ⊎ ((app : BrokerApp) × Memᴰ app apps
          × (is_admitted u service app ≡ true)
          × Memᴰ key (keys_of app))

  judge-IsOwned :
      (app : BrokerApp) (s : Provision) (v : Bool × String) (key : String)
      → validate_app_for_provisioning u service app ≡ v
      → Present key (judge u service app s v).files
      → IsOwned (app ∷ []) s.files key
  unfolding judge
  judge-IsOwned app s (false, reason) key e found = inl found
  judge-IsOwned app s (true, reason) key e found =
      elim (Adds-admit app s (resource_name_error app.name) key found) [
        | inl old ↦ inl old
        | inr mine ↦ inr (app, Memᴰ.head refl, ap (λ p. p.0) e, mine)
      ]

  one_of : (app a : BrokerApp) (apps : List BrokerApp) → Memᴰ a (app ∷ []) → Memᴰ a (app ∷ apps)
  one_of app a apps (Memᴰ.head e) = Memᴰ.head e
  one_of app a apps (Memᴰ.tail m) = elim m [ ]

  IsOwned-one :
      (app : BrokerApp) (apps : List BrokerApp) (before : Files) (key : String)
      → IsOwned (app ∷ []) before key
      → IsOwned (app ∷ apps) before key
  IsOwned-one app apps before key (inl old) = inl old
  IsOwned-one app apps before key (inr (a, m, i, k)) = inr (a, one_of app a apps m, i, k)

  IsOwned-comp :
      (app : BrokerApp) (apps : List BrokerApp) (before middle : Files) (key : String)
      → (Present key middle → IsOwned (app ∷ []) before key)
      → IsOwned apps middle key
      → IsOwned (app ∷ apps) before key
  IsOwned-comp app apps before middle key f (inl old) = IsOwned-one app apps before key (f old)
  IsOwned-comp app apps before middle key f (inr (a, m, i, k)) = inr (a, Memᴰ.tail m, i, k)

  -- Whether the loop ends by an error or not, each file that it adds is one of the five of an app of the
  -- list that passes the checks of the service: an app that is rejected leaves no file.
  pub provision_apps-IsOwned :
      (apps : List BrokerApp) (s : Provision) (key : String)
      → Present key (provision_apps u service apps s).files
      → IsOwned apps s.files key
  unfolding provision_apps provision_app
  provision_apps-IsOwned [] s key found = inl found
  provision_apps-IsOwned (app ∷ apps) s key found =
      let verdict = validate_app_for_provisioning u service app in
      let next = judge u service app s verdict in
      let first : Present key next.files → IsOwned (app ∷ []) s.files key =
        judge-IsOwned app s verdict key refl in
      elim (Bool-cases (is_none next.error)) [
        | inl good ↦
            IsOwned-comp app apps s.files next.files key first
              (provision_apps-IsOwned apps next key (rw good at found))
        | inr bad ↦ IsOwned-one app apps s.files key (first (rw bad at found))
      ]
