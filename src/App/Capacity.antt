-- ===== src/App/Capacity.antt =====
-- Why no service took an app: `RejectionCategory`, `ServiceRejection` and `buildCapacityError` of
-- controllers/brokerapp_controller.go.
pub mod Kind
use activemq_artemis_operato.Base.{
  ℕ, zero, suc, String, Bool, true, false, not, ◌&&◌, ◌||◌, Option, none, some, List, [], ◌∷◌, ◌++◌,
  ◌+◌, ◌=?◌, is_empty, concat, join, trim_space, length, find_first, if◌then◌else◌, ltb,
}
use activemq_artemis_operato.Errors.{Error, plain, transient_error}
use activemq_artemis_operato.Api.{Quantity, selector_evaluation_error, no_matching_service_reason}
use activemq_artemis_operato.App.Checks.{is_unlimited}

pub data RejectionCategory : Type 0 where
  not_deployed selector selector_error address_ref address_clash memory port_pool other :
      RejectionCategory

pub record ServiceRejection : Type 0 where
  pub service_name : String
  pub category : RejectionCategory
  pub message : String

-- The categories are numbered by `iota`.
abbrev pub category_index : RejectionCategory → ℕ
category_index not_deployed = 0
category_index selector = 1
category_index selector_error = 2
category_index address_ref = 3
category_index address_clash = 4
category_index memory = 5
category_index port_pool = 6
category_index other = 7

abbrev pub in_category : RejectionCategory → ServiceRejection → Bool
in_category c r = category_index r.category =? category_index c

-- `categoryCounts[c]`.
unfoldable pub category_count : RejectionCategory → List ServiceRejection → ℕ
category_count c [] = 0
category_count c (r ∷ rs) = (if in_category c r then 1 else 0) + category_count c rs

-- `categoryServices[c]`.
unfoldable pub category_services : RejectionCategory → List ServiceRejection → List String
category_services c [] = []
category_services c (r ∷ rs) =
    if in_category c r then r.service_name ∷ category_services c rs else category_services c rs

abbrev message_of : Option ServiceRejection → String
message_of none = ""
message_of (some r) = r.message

-- `appMemoryRequest.String()`, or "unknown" where it is nil or zero.
abbrev memory_text : Option Quantity → String
memory_text none = "unknown"
memory_text (some q) = if is_unlimited (some q) then "unknown" else q.printed

unfoldable pub primary_message : List ServiceRejection → Option Quantity → String
primary_message rs request =
    if ltb 0 (category_count address_ref rs)
    then "addressRef dependency not satisfied"
    else if ltb 0 (category_count address_clash rs)
    then "address clash with existing apps"
    else if ltb 0 (category_count memory rs)
    then concat ("insufficient memory capacity (app requires " ∷ memory_text request ∷ ")" ∷ [])
    else if ltb 0 (category_count port_pool rs)
    then "port pool exhausted"
    else "other compatibility issues"

abbrev newline : String
newline = "\n"

unfoldable pub format_services : List String → String
format_services (s ∷ []) = s
format_services services = concat ("[" ∷ join services ", " ∷ "]" ∷ [])

-- A line with the services of a category, where it has any.
abbrev services_line : String → RejectionCategory → List ServiceRejection → String
services_line label c rs =
    if is_empty (category_services c rs)
    then ""
    else concat ("  - " ∷ label ∷ ": " ∷ format_services (category_services c rs) ∷ newline ∷ [])

unfoldable pub message_lines : RejectionCategory → List ServiceRejection → String
message_lines c [] = ""
message_lines c (r ∷ rs) = concat (
    (if in_category c r
      then concat ("      " ∷ r.service_name ∷ ": " ∷ r.message ∷ newline ∷ [])
      else "")
    ∷ message_lines c rs
    ∷ [])

-- Such a line, with one more for each of the rejections.
abbrev detailed_lines : String → RejectionCategory → List ServiceRejection → String
detailed_lines label c rs = concat (services_line label c rs ∷ message_lines c rs ∷ [])

unfoldable pub rejection_report : List ServiceRejection → Option Quantity → String
rejection_report rs request = trim_space (
    concat (
      "no service available: "
      ∷ primary_message rs request
      ∷ newline
      ∷ detailed_lines "AddressRef issues" address_ref rs
      ∷ detailed_lines "Address clashes" address_clash rs
      ∷ services_line "Insufficient memory" memory rs
      ∷ services_line "Port pool exhausted" port_pool rs
      ∷ services_line "Selector mismatch" selector rs
      ∷ services_line "Not deployed" not_deployed rs
      ∷ detailed_lines "Other issues" other rs
      ∷ []))

unfoldable pub build_capacity_error : List ServiceRejection → Option Quantity → Error
build_capacity_error rs request =
    let total = length rs in
    if is_empty rs
    then plain "no services available"
    else if category_count selector rs + category_count selector_error rs =? total
    then (if category_count selector_error rs =? total
        then transient_error selector_evaluation_error (
            concat (
              "no services match app selector: "
              ∷ message_of (find_first (in_category selector_error) rs)
              ∷ []))
        else transient_error no_matching_service_reason "no services match app selector")
    else if category_count port_pool rs =? total
    then plain "all services have exhausted their port pools"
    else plain (rejection_report rs request)
