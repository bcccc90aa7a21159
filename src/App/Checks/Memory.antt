-- ===== src/App/Checks/Memory.antt =====
-- The memory that `getAvailableMemory` leaves to an app.
use Prim.Native.Nat.{◌%◌}
use activemq_artemis_operato.Base.{
  ℕ, ◌+◌, ◌-◌, ◌≤◌, ◌<◌, ◌≡◌, refl, ap, ◌∙◌, suc, Bool-cases, inl, inr, Option, none, some, List,
  [], ◌∷◌, arith, All, ℤ, pos, negsuc, ◌+ℤ◌, ◌-ℤ◌, ◌≤ℤ◌, IsInt64, +ℤ_exact, -ℤ_exact, -ℤ-IsInt64,
  max_int64, two_to_64, of_bits, pos_part, neg_part, if◌then◌else◌, leb,
}
use activemq_artemis_operato.Errors.{Result, ok, err}
use activemq_artemis_operato.Api.{Quantity, BrokerApp, BrokerService}
use activemq_artemis_operato.Cluster.{Cluster}
use activemq_artemis_operato.App.Checks.{
  list_other_apps_for_service, used_memory, get_available_memory, clamp, is_unlimited, add_request,
  available_of, total_memory,
}

-- What an app requests, as a number; nothing where it has no request.
abbrev pub requested : Option Quantity → ℕ
requested none = 0
requested (some q) = pos_part q.value

abbrev pub total_requested : List BrokerApp → ℕ
total_requested [] = 0
total_requested (app ∷ apps) = requested app.spec.resources.requests_memory + total_requested apps

abbrev pub IsNonneg : Option Quantity → Type 0
IsNonneg none = Unit
IsNonneg (some q) = neg_part q.value ≡ 0

abbrev pub RequestsNonneg : BrokerApp → Type 0
RequestsNonneg app = IsNonneg app.spec.resources.requests_memory

pos-parts : (v : ℤ) → neg_part v ≡ 0 → v ≡ pos (pos_part v)
pos-parts (pos n) h = refl
pos-parts (negsuc n) h = absurd (omega arith)

add_request_exact :
    (n : ℕ) (q : Option Quantity)
    → IsNonneg q
    → n + requested q ≤ max_int64
    → add_request (pos n) q ≡ pos (n + requested q)
add_request_exact n none h fits = ap pos (omega arith)
add_request_exact n (some q) h fits = rw (pos-parts q.value h) (+ℤ_exact n (pos_part q.value) fits)

used_memory_exact :
    (apps : List BrokerApp) (n : ℕ)
    → All RequestsNonneg apps
    → n + total_requested apps ≤ max_int64
    → used_memory apps (pos n) ≡ pos (n + total_requested apps)
unfolding used_memory
used_memory_exact [] n h fits = ap pos (omega arith)
used_memory_exact (app ∷ apps) n h fits =
    let q = app.spec.resources.requests_memory in
    rw (add_request_exact n q h.0 (omega arith))
      (used_memory_exact apps (n + requested q) h.1 (omega arith) ∙ ap pos (omega arith))

clamp-nonneg : (v : ℤ) → IsInt64 v → (pos 0 ≤ℤ clamp v) × IsInt64 (clamp v)
unfolding clamp
clamp-nonneg v h = ground arith

available_of-nonneg :
    (total : ℤ) (listed : Result (List BrokerApp)) {available : ℤ}
    → available_of total listed ≡ ok available
    → (pos 0 ≤ℤ available) × IsInt64 available
available_of-nonneg total (ok apps) {available} h =
    let e : clamp (total -ℤ used_memory apps (pos 0)) ≡ available = ground arith in
    rw (← e) (clamp-nonneg _ (-ℤ-IsInt64 total (used_memory apps (pos 0))))
available_of-nonneg total (err e) h = absurd (ground arith)

-- The available memory is an int64 that is never negative, also where the sums wrap.
pub get_available_memory-nonneg :
    (k : Cluster) (instance : BrokerApp) (service : BrokerService) {available : ℤ}
    → get_available_memory k instance service ≡ ok available
    → (pos 0 ≤ℤ available) × IsInt64 available
unfolding get_available_memory
get_available_memory-nonneg k instance service {available} h =
    elim (Bool-cases (is_unlimited service.spec.resources.limits_memory)) [
      | inl free ↦
          let e : pos max_int64 ≡ available = ground arith in
          rw (← e) (omega arith, record { upper = omega arith; lower = omega arith })
      | inr limited ↦ available_of-nonneg _ _ (rw limited at h)
    ]

limited_memory :
    (m : Option Quantity) (listed : Result (List BrokerApp)) (apps : List BrokerApp) (limit : ℕ)
    (q : Quantity)
    → m ≡ some q
    → q.value ≡ pos (suc limit)
    → listed ≡ ok apps
    → (if is_unlimited m then ok (pos max_int64) else available_of (total_memory m) listed)
      ≡ ok (clamp (pos (suc limit) -ℤ used_memory apps (pos 0)))
limited_memory m listed apps limit q limited value here =
    rw limited (rw here (rw value (ground arith)))

clamp_exact : (t u : ℕ) → t ≤ max_int64 → u ≤ max_int64 → clamp (pos t -ℤ pos u) ≡ pos (t - u)
unfolding clamp
clamp_exact t u ht hu = rw (-ℤ_exact t u ht hu) (ground arith)

-- Where the service has a memory limit, and the requests of the other apps bound to it are not
-- negative and their sum is an int64, the available memory is the limit less that sum, and nothing
-- where the sum passes the limit.
pub get_available_memory_exact :
    (k : Cluster) (instance : BrokerApp) (service : BrokerService) (apps : List BrokerApp)
    (limit : ℕ) (q : Quantity)
    → service.spec.resources.limits_memory ≡ some q
    → q.value ≡ pos (suc limit)
    → suc limit ≤ max_int64
    → list_other_apps_for_service k instance service ≡ ok apps
    → All RequestsNonneg apps
    → total_requested apps ≤ max_int64
    → get_available_memory k instance service ≡ ok (pos (suc limit - total_requested apps))
unfolding get_available_memory
get_available_memory_exact k instance service apps limit q limited value small listed nonneg fits =
    limited_memory service.spec.resources.limits_memory
      (list_other_apps_for_service k instance service) apps limit q limited value listed
    ∙ rw (used_memory_exact apps 0 nonneg (omega arith)) (
        ap ok (
          clamp_exact (suc limit) (0 + total_requested apps) small (omega arith)
          ∙ ap pos (omega arith)))

-- The int64 of a sum that is kept modulo 2^64, after another request.
of_bits-+ℤ :
    (m a : ℕ) → m < two_to_64 → a ≤ max_int64 → of_bits m +ℤ pos a ≡ of_bits ((m + a) % two_to_64)
unfolding ◌+ℤ◌
of_bits-+ℤ m a hm ha = ground arith

clamp_wraps :
    (t m : ℕ)
    → t ≤ max_int64
    → max_int64 < m
    → m < two_to_64
    → clamp (pos t -ℤ of_bits m)
      ≡ (if leb (t + (two_to_64 - m)) max_int64 then pos (t + (two_to_64 - m)) else pos 0)
unfolding clamp ◌-ℤ◌
clamp_wraps t m ht hm small = ground arith

-- A request is an int64 that is not negative.
abbrev pub IsRequest : Option Quantity → Type 0
IsRequest none = Unit
IsRequest (some q) = (neg_part q.value ≡ 0) × (pos_part q.value ≤ max_int64)

abbrev pub RequestsInt64 : BrokerApp → Type 0
RequestsInt64 app = IsRequest app.spec.resources.requests_memory

add_request_wraps :
    (m : ℕ) (q : Option Quantity)
    → m < two_to_64
    → IsRequest q
    → add_request (of_bits m) q ≡ of_bits ((m + requested q) % two_to_64)
add_request_wraps m none small h = ap of_bits (omega arith)
add_request_wraps m (some q) small h =
    rw (pos-parts q.value h.0) (of_bits-+ℤ m (pos_part q.value) small h.1)

used_memory_wraps :
    (apps : List BrokerApp) (m : ℕ)
    → m < two_to_64
    → All RequestsInt64 apps
    → used_memory apps (of_bits m) ≡ of_bits ((m + total_requested apps) % two_to_64)
unfolding used_memory
used_memory_wraps [] m small h = ap of_bits (omega arith)
used_memory_wraps (app ∷ apps) m small h =
    let q = app.spec.resources.requests_memory in
    let here : (m + requested q) % two_to_64 < two_to_64 = omega arith in
    rw (add_request_wraps m q small h.0)
      (used_memory_wraps apps ((m + requested q) % two_to_64) here h.1 ∙ ap of_bits (omega arith))

-- Where the service has a memory limit, and the requests of the other apps bound to it are int64s that
-- are not negative, whose sum passes the int64 range but not 2^64: the sum wraps and is subtracted as a
-- negative number. The available memory is then the limit and 2^64 less the sum, where that is an int64,
-- so it is more than the limit; and nothing otherwise.
pub get_available_memory_wraps :
    (k : Cluster) (instance : BrokerApp) (service : BrokerService) (apps : List BrokerApp)
    (limit : ℕ) (q : Quantity)
    → service.spec.resources.limits_memory ≡ some q
    → q.value ≡ pos (suc limit)
    → suc limit ≤ max_int64
    → list_other_apps_for_service k instance service ≡ ok apps
    → All RequestsInt64 apps
    → max_int64 < total_requested apps
    → total_requested apps < two_to_64
    → get_available_memory k instance service
      ≡ ok (
          let wrapped = suc limit + (two_to_64 - total_requested apps) in
          if leb wrapped max_int64 then pos wrapped else pos 0)
unfolding get_available_memory
get_available_memory_wraps k instance service apps limit q limited value small listed requests big
      below =
    let sum = total_requested apps in
    let same : (0 + sum) % two_to_64 ≡ sum = omega arith in
    limited_memory service.spec.resources.limits_memory
      (list_other_apps_for_service k instance service) apps limit q limited value listed
    ∙ ap (λ v. ok (clamp (pos (suc limit) -ℤ v)))
        (used_memory_wraps apps 0 (omega arith) requests ∙ ap of_bits same)
    ∙ ap ok (clamp_wraps (suc limit) sum small big below)
