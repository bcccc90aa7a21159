-- ===== src/Actions.antt =====
-- pkg/resources/k8s_actions.go: the calls that change the cluster, and the errors they give. The state
-- of the cluster is `W`, which each call changes.
pub mod Outcomes
use activemq_artemis_operato.Base.{
  ℕ, String, Bool, true, false, ◌&&◌, Option, none, some, List, [], ◌∷◌, ◌==◌, ◌=?◌, concat,
  if◌then◌else◌,
}
use activemq_artemis_operato.Errors.{Error, plain, error_text}
use activemq_artemis_operato.Api.{BrokerApp, BrokerService, BrokerSpec, BrokerStatus}

-- `metav1.OwnerReference`, which always controls its object here.
pub record OwnerReference : Type 0 where
  pub api_version : String
  pub kind : String
  pub uid : String
  pub name : String

-- What the controllers write and read of an object that is not a secret: the spec and the status of a
-- broker, or the selector and the address of a service.
pub data Detail : Type 0 where
  no_detail : Detail
  broker_detail : BrokerSpec → BrokerStatus → Detail
  service_detail : (selector : List (String × String)) (cluster_ip : String) → Detail

-- `client.Object`, with the type that `reflect` prints, and the data of a secret.
pub record Object : Type 0 where
  pub type : String
  pub name : String
  pub namespace : String
  pub owner_references : List OwnerReference
  pub annotations : List (String × String)
  pub content : List (String × String)
  pub detail : Detail

-- An error of the client: a `StatusError`, or any other.
pub data ClientError : Type 0 where
  status_error : (status : String) (code : ℕ) (reason message : String) → ClientError
  other_error : String → ClientError

unfoldable pub client_error_text : ClientError → String
client_error_text (status_error status code reason message) = message
client_error_text (other_error message) = message

-- The writes of controller-runtime's client, each with the cluster after it.
pub record Client (W : Type 0) : Type 0 where
  pub create : W → Object → W × Option ClientError
  pub update : W → Object → W × Option ClientError
  pub delete : W → Object → W × Option ClientError
  pub update_status : W → BrokerApp → W × Option ClientError
  pub update_service_status : W → BrokerService → W × Option ClientError

-- What a call returns: the cluster after it, and an error or nil.
abbrev pub Done : Type 0 → Type 0
Done W = W × Option Error

abbrev failure : String → String → String → Error
failure action type message = plain (concat (action ∷ type ∷ ", " ∷ message ∷ []))

unfoldable pub set_owner_and_controller : OwnerReference → Object → Object
set_owner_and_controller owner o = record o { owner_references = owner ∷ [] }

-- `http.StatusUnprocessableEntity` with the reason `Invalid`.
abbrev pub is_invalid_update : String → ℕ → String → Bool
is_invalid_update status code reason = status == "Failure" && code =? 422 && reason == "Invalid"

-- `http.StatusConflict` with the reason `Conflict`.
abbrev pub is_conflict : String → ℕ → String → Bool
is_conflict status code reason = status == "Failure" && code =? 409 && reason == "Conflict"

module _ {W : Type 0} (client : Client W) where
  abbrev pub wrapped : String → String → W × Option ClientError → Done W
  wrapped action type (w, none) = (w, none)
  wrapped action type (w, some e) = (w, some (failure action type (client_error_text e)))

  unfoldable pub create : OwnerReference → W → Object → Done W
  create owner w o =
      wrapped "failed to create new " o.type (client.create w (set_owner_and_controller owner o))

  unfoldable pub delete : W → Object → Done W
  delete w o = wrapped "failed to delete " o.type (client.delete w o)

  -- The error of the deletion, if any, is wrapped as one of the update.
  unfoldable pub after_delete : Object → Done W → Done W
  after_delete o (w, none) = (w, none)
  after_delete o (w, some e) = (w, some (failure "failed to update " o.type (error_text e)))

  -- An update that is invalid deletes the object, which is then created anew by a later reconcile.
  unfoldable pub after_update : Object → W × Option ClientError → Done W
  after_update o (w, none) = (w, none)
  after_update o (w, some (other_error message)) =
      (w, some (failure "failed to update " o.type message))
  after_update o (w, some (status_error status code reason message)) =
      let deleted = after_delete o (delete w o) in
      if is_invalid_update status code reason
      then deleted
      else if is_conflict status code reason
      then (
        w,
        some (
            failure "failed to update " o.type
              (concat ("failed to update " ∷ o.type ∷ " due to conflict" ∷ []))),
      )
      else (w, some (failure "failed to update " o.type message))

  unfoldable pub update : W → Object → Done W
  update w o = after_update o (client.update w o)

  unfoldable pub update_status : W → BrokerApp → W × Option ClientError
  update_status w app = client.update_status w app

  unfoldable pub update_service_status : W → BrokerService → W × Option ClientError
  update_service_status w service = client.update_service_status w service
