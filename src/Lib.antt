-- ===== src/Lib.antt =====
-- The broker operator's BrokerApp and BrokerService controllers. An app names the addresses it produces
-- to and consumes from; the app controller binds it to one of the BrokerServices that its selector
-- matches, at a port of its own. The service controller provisions the bound apps that pass its own
-- checks: it writes their addresses, roles and acceptors to a secret that its broker mounts, and lists
-- them as provisioned once the broker has applied the secret. The app controller reads that list and
-- reports in the app's conditions how far all this has come. Of the broker's own resource, the version
-- and the image that its spec resolves to and the status that is reported of it are modelled.
--
-- The parts, each with the code it stands for:
--   Base       tests, lists, sets, text and int64 arithmetic that the others share
--   Errors     controllers/condition_error.go: ValidationError, TransientError, and results
--   Api        api/v1beta2: BrokerApp, BrokerService, their status and the constants of conditions
--   Cluster    what the controllers call and do not implement: the API server (Client.Get, Client.List),
--              appselector.Matches, and the condition helpers of k8s.io/apimachinery with their law
--   Conditions pkg/utils/common/conditions.go: SetReadyCondition and the tests on conditions
--   Loops      Go's loops over a list whose body may return an error
--   Ports      controllers/port_assignment.go: assignNextAvailablePort, collectUsedPorts
--   Actions    pkg/resources/k8s_actions.go: Create, Update, UpdateStatus, Delete, over the client of
--              controller-runtime, which changes a state W of the cluster
--   Loop       controllers/reconciler_loop.go: TrackDesired, InitDeployed, SyncDesiredWithDeployed and
--              the actions on a resource; the comparison of operator-utils is a parameter
--   App        controllers/brokerapp_controller.go, by its functions:
--     Address    isMulticastAddress, extractBaseAddress, collectOwnedAddresses
--     Validate   validateSpec and the validations that it calls
--     Checks     matchesServiceSelector, listOtherAppsForService, getAvailableMemory,
--                checkAddressClashOnService, checkAddressRefCapacity, isAppRejectedByService
--     Capacity   RejectionCategory, ServiceRejection, buildCapacityError
--     Find       findServiceWithCapacity: one round of its loop, and the loop
--     Resolve    resolveBrokerService
--     Status     setValidCondition, setDeployedCondition, setReadyCondition, processStatus
--     Watch      shouldPropagateWatchForReferencedApp, hasAddressRefTo, the enqueue functions
--     Binding    processBindingSecret
--     Reconcile  Reconcile: the steps in their order, the status, and the error that is returned
--   Service    controllers/brokerservice_controller.go, by its functions: appToServiceHandler, and
--     Address    AddressTracker: track, trackAddressType, and its use by processCapabilities
--     Properties the properties that processCapabilities makes of the tracker, and their text
--     Acceptor   processAcceptor, getTrustStorePath and the names of files and roles
--     Provision  validateAppForProvisioning, processAppSecrets
--     Metrics    processControlPlaneOverrideSecret, generatePrometheusConfig
--     Broker     processBroker, processService, processSpec
--     Status     setValidCondition, processStatus
--     Reconcile  validateSpec, Reconcile
--     Chain      from what is provisioned to what the app controller reads of it
--   Versions   version/version.go, pkg/utils/common/common.go (ResolveBrokerVersion) and
--              pkg/broker/version/version.go: the version that a broker's spec resolves to
--     Images     the image of the broker, and ValidateBrokerImageVersion
--     Status     pkg/broker/status/status.go: updateVersionStatus
--   Pods       pkg/broker/status/status.go: the state of a broker's pod and its conditions
--   Selectors  pkg/appselector/cel.go: the evaluation of app selectors
--   Examples   a small cluster on which the theorems are tried
--
-- How the code is read. The fields of the instance reconciler that a reconcile changes, status and
-- service, are the record Progress, which is passed on. A nil error is none; a function that returns a
-- value or an error gives a Result. The set of a map[string]bool is the list of its keys; where the
-- code ranges over such a map, the order is that of the list. int64 sums wrap. A port is an int32 that
-- is never negative. Logging is left out. A Quantity is what Value returns and what String prints.
-- The cluster is read as one consistent snapshot. An address tracker, a map from names to pointers that
-- are changed in place, is a list of pairs that each change replaces. The data of a secret is a list of
-- file names with their texts. sort.Strings is an insertion sort by code points, which is the order of
-- the bytes. A supported version has no pre-release and no build. The operator's environment does not
-- change while it runs, so the defaults that the code reads of it once are read anew.
--
-- Bounds. The loop over the ports runs on fuel of 3920 rounds, the number of ports from 61616 to 65535,
-- which is all the rounds that the code makes; the other loops are over lists.
--
-- Not modelled: the other controllers, the generated clients, the builders of Kubernetes objects, and the
-- metrics counters. The controllers take the match of an app with a service, which Selectors models, as
-- a parameter, and the language of the selectors is a parameter of Selectors.
pub mod Base
pub mod Errors
pub mod Api
pub mod Cluster
pub mod Conditions
pub mod Ports
pub mod Actions
pub mod Loop
pub mod Loops
pub mod App
pub mod Service
pub mod Examples
pub mod Versions
pub mod Pods
pub mod Selectors
