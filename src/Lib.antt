-- ===== src/Lib.antt =====
-- Climatik: power capping for the pods of a Kubernetes cluster.
--
-- A user labels a pod with the name of a PowerCappingConfig, a custom resource. The controller
-- watches the pods; for a pod whose configuration caps the power relative to the peak it waits one
-- sample window, asks Prometheus for the peak, computes the cap from the label, and sends an alert
-- through the alert service. The service publishes the alert to its subscribers, one goroutine for
-- each: a Prometheus Alertmanager, a Slack webhook, and an in-memory GitOps repository. The webhook
-- server takes alerts on /alert, for which runners start Ansible or a Kubernetes job, and the
-- commands and interactions of Slack, by which a user changes a configuration.
--
-- A second operator, in Python, scales deployments: when a configuration is created, and then every
-- ten seconds, it sets the maximum of the KEDA ScaledObjects that the configuration lists, by the
-- limit and by the power that Prometheus reports for each deployment.
--
-- Which file models which part:
--
--   Prelude          shared names, Boolean tests, integers and their 64-bit wrap-around
--   Go               what the program uses of Go: error results and panics (Result), texts, numbers
--                    in decimal (Text), maps (Map), JSON values (Json), path/filepath (FilePath),
--                    net/http responses (Http), durations (Duration), float64 as a parameter (Float),
--                    the HTTP client and the clock as parameters (Client), the variables of a type by
--                    their addresses (Store)
--   Api              api/v1alpha1: powercappingconfig_types.go and groupversion_info.go; Api/Encode
--                    and Api/Decode are the JSON form of the types by their struct tags, written and
--                    read; Api/DeepCopy is zz_generated.deepcopy.go, with Objects for the whole
--                    configuration and its list; Api/Schema is the schema by which the API server
--                    checks a configuration, config/crd/bases
--   Alert            internal/alert: Prometheus, GitOps and Slack are adapters/prom_alert.go,
--                    adapters/git_ops.go and adapters/slack.go; Manager is alert.go with
--                    NewAlertManager of factory.go; PubSub is pubsub.go; Service is CreateAlertService
--                    of factory.go and service.go; World is the state on which they act; Delivery,
--                    Schedules, Progress, Posts and Races are the goroutines of alerts
--   Controller       internal/controller/powercappingconfig_controller.go: Cluster (Reconcile and
--                    r.Get), Metrics (getKeplerMetrics, getPodDevices, queryPodPeakPower), Power
--                    (watchPodPowerUsage, calculatePowerCap, getPowerCapPercentage), Pods
--                    (handlePodAdd, handlePodDelete, createAlert, and the goroutine of a watch),
--                    Informer (SetupWithManager, its event handlers, getEnv)
--   Webhook          internal/webhook: Alert is AlertHandler of webhook.go; Handlers is
--                    factory/factory.go with handlers/gitops_handler.go and
--                    handlers/prometheus_handler.go; Runners is runners; Slack is
--                    handlers/slack_handler.go, with Session (requests and state), Config
--                    (UpdatePowerCappingConfig), Modal (menu, modal, submission), Endpoints
--                    (CommandHandler, InteractionHandler); Server is CreateWebhook of webhook.go
--                    and slack_webhook.go
--   Cmd              cmd: Controller is controller/main.go, Webhook is webhook/main.go
--   Operator         python/climatik_operator: Create is create_power_capping_config of operator.py
--                    with crd.py, Monitor is monitor_power_usage of operator.py, Cluster is what both
--                    read and patch, Strategy is strategies, Gauges is prom_metrics.py; Python and
--                    Number are what the operator uses of Python: exceptions, dictionaries, floats
--
-- The modules below these state the theorems; the modules called Examples apply them to concrete
-- data, and Fixtures holds data that they share.
--
-- How the code is modelled. A function that can fail returns a result or an optional error; a panic
-- is a value of its own, and a Python function returns a value or the exception that it raises. The
-- maps of GitOps managers live in a store, since a manager is shared by the goroutines that use it;
-- the requests that are sent are logged. A goroutine is a task: Publish returns the list of tasks
-- that it starts, and the relation Runs takes them in every order, one call of CreateAlert at a
-- time; Steps is a run that is not at its end. In Alert/Races a call begins in one step and ends,
-- with its effect, in another, so that two goroutines can be inside their calls at the same moment.
-- A program is a function that gives how it ends: main with its exit status, a server with what it
-- served. The generated deep copies act on stores of variables, with a panic for a nil pointer. A
-- Go map is an association list in the order in which a loop happens to visit it, so a theorem for
-- every list holds for every order. The loop of watchPodPowerUsage runs over the list of events
-- that its select receives; it ends at the first event, and for no event it still waits. All other
-- loops run over lists, so there is no fuel. int and time.Duration wrap at 64 bits where the code
-- multiplies; the types of the custom resource keep whole integers, which the program only reads,
-- and Api/Decode refuses a number beyond 64 bits.
--
-- Parameters. The Kubernetes API (Cluster, KubeApi, ManagerEnv, RunnerEnv), Prometheus (Querier),
-- slack-go, encoding/json and the form parser (SlackEnv), the HTTP client, json.Marshal and the
-- clock (Client), processes and files (RunnerEnv), net/http (ServerEnv), what
-- cmd/controller/main.go calls (MainEnv), the metadata of apimachinery (Metadata), float64 (Float),
-- Python's floats (Number), the Kubernetes and Prometheus packages of Python (the Cluster of
-- Operator), jsonschema (Validate), the pruning of unknown fields (Prune) and the decoding of
-- TypeMeta and ObjectMeta (DecodeMeta) are code that is not in the repository. Nine sets of laws
-- are assumed of them, where a theorem names them: FloatLaws, that rounding is monotone, with whole
-- numbers as an instance (Go/Float/Whole); ServerLaws, that an API server answers with an object of
-- the namespace asked for and refuses an update to another one, with an instance in
-- Webhook/Slack/Fixtures; MetadataLaws, that a deep copy of metadata has the content of the
-- original, reaches only new memory and changes nothing else, with a map of labels as an instance
-- (Api/DeepCopy/Labels); VisitsAll, that a loop over a map visits every entry once, with an
-- instance in Cmd/Examples; PatchLaws, that a patch sets the object that it names and no other,
-- PatchesExisting, that a patch of an object that is there succeeds, and DropsUnknown, that pruning
-- leaves no key which a schema does not name, with instances in Operator/Fixtures; ChecksRequired,
-- that a valid dictionary has the keys that its schema requires, with an instance in
-- Operator/Examples; and AcceptsNames, that the decoding of the embedded types accepts texts for
-- version, kind, name and namespace, with an instance in Api/Examples. Api/Decode follows what
-- encoding/json documents, on objects whose keys are unique.
--
-- Not modelled: the generated gRPC code in internal/planner; the registration of the types with the
-- scheme, beyond its failure; log output; the tests and test/utils; manifests other than the
-- definitions of the custom resource, scripts and the documentation; python/planner, whose planner
-- answers with a constant; python/climatik_operator/k8s_utils.py, which nothing calls and which
-- consists of calls of the Kubernetes client; and the checks of the schemas beyond types,
-- properties and pruning.
pub mod Prelude
pub mod Go
pub mod Api
pub mod Alert
pub mod Controller
pub mod Webhook
pub mod Cmd
pub mod Operator
