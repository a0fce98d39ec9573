-- ===== src/Inspectors/Services/Categories.antt =====
-- inspector_registry.go: the inspector of a tool by its name (inferInspectorName), and what is said of
-- an inspector (inspectorDescription).
use go_debug_agent.Prelude.{◌==◌, List, [], ◌∷◌, none, some, if◌then◌else◌}
use go_debug_agent.Prelude.Map
use go_debug_agent.Prelude.Map.{text_key}
use go_debug_agent.Prelude.Text.{Text, ascii, has_prefix}

unfoldable pub categories : List (Text × Text)
categories =
    (ascii "get_memory_stats", ascii "runtime")
    ∷ (ascii "trigger_gc", ascii "runtime")
    ∷ (ascii "get_goroutine_dump", ascii "runtime")
    ∷ (ascii "get_runtime_info", ascii "runtime")
    ∷ (ascii "get_gc_stats", ascii "runtime")
    ∷ (ascii "get_cpu_profile", ascii "runtime")
    ∷ (ascii "get_goroutine", ascii "goroutine")
    ∷ (ascii "get_http", ascii "http")
    ∷ (ascii "get_process", ascii "system")
    ∷ (ascii "get_system", ascii "system")
    ∷ (ascii "get_disk", ascii "system")
    ∷ (ascii "get_environment", ascii "system")
    ∷ (ascii "get_build", ascii "deployment")
    ∷ (ascii "get_deployment", ascii "deployment")
    ∷ (ascii "get_module", ascii "deployment")
    ∷ (ascii "get_alloc", ascii "alloc")
    ∷ (ascii "get_mem", ascii "alloc")
    ∷ (ascii "get_network", ascii "network")
    ∷ (ascii "get_redis", ascii "redis")
    ∷ (ascii "get_route", ascii "routes")
    ∷ (ascii "get_gorm", ascii "gorm")
    ∷ (ascii "get_mutex", ascii "pprof")
    ∷ (ascii "get_block", ascii "pprof")
    ∷ (ascii "get_threadcreate", ascii "pprof")
    ∷ (ascii "start_cpu", ascii "cpu_profile")
    ∷ (ascii "stop_cpu", ascii "cpu_profile")
    ∷ (ascii "get_top_func", ascii "cpu_profile")
    ∷ (ascii "take_heap_snap", ascii "leak")
    ∷ (ascii "compare_heap", ascii "leak")
    ∷ (ascii "get_leak", ascii "leak")
    ∷ (ascii "get_runtime_version", ascii "deployment")
    ∷ (ascii "take_snapshot", ascii "snapshot")
    ∷ (ascii "compare_snapshot", ascii "snapshot")
    ∷ (ascii "list_snapshot", ascii "snapshot")
    ∷ (ascii "get_registered_services", ascii "registry")
    ∷ (ascii "get_service_dep", ascii "registry")
    ∷ (ascii "get_log", ascii "logging")
    ∷ (ascii "get_cache", ascii "cache")
    ∷ (ascii "get_http_client", ascii "http_client")
    ∷ (ascii "get_fd", ascii "fd")
    ∷ (ascii "get_registered_metric", ascii "metrics")
    ∷ (ascii "get_context", ascii "context")
    ∷ (ascii "get_wait", ascii "sync")
    ∷ (ascii "get_security", ascii "security")
    ∷ (ascii "get_health", ascii "health")
    ∷ (ascii "get_schedul", ascii "scheduler")
    ∷ (ascii "get_recent_error", ascii "error")
    ∷ (ascii "get_error", ascii "error")
    ∷ (ascii "get_websocket", ascii "websocket")
    ∷ (ascii "detect_deadlock", ascii "locks")
    ∷ (ascii "get_lock", ascii "locks")
    ∷ (ascii "get_mutex_cont", ascii "locks")
    ∷ (ascii "get_migration", ascii "migration")
    ∷ (ascii "get_config", ascii "config")
    ∷ (ascii "get_feature", ascii "featureflag")
    ∷ (ascii "test_endpoint", ascii "endpoint_test")
    ∷ (ascii "get_endpoint", ascii "endpoint_test")
    ∷ (ascii "get_db_pool", ascii "pool")
    ∷ (ascii "get_database_pool", ascii "pool")
    ∷ (ascii "get_pool", ascii "pool")
    ∷ []

-- The loop over toolName up to its first '_'.
unfoldable pub first_word : Text → Text
first_word [] = []
first_word (c ∷ tool_name) = if c == 95 then [] else c ∷ first_word tool_name

-- The loop over the categories.
unfoldable pub category_in : List (Text × Text) → Text → Text
category_in [] tool_name = first_word tool_name
category_in ((prefix, category) ∷ cats) tool_name =
    if has_prefix tool_name prefix then category else category_in cats tool_name

unfoldable pub infer_inspector_name : Text → Text
infer_inspector_name tool_name = category_in categories tool_name

unfoldable pub descriptions : List (Text × Text)
descriptions =
    (ascii "runtime", ascii "Core Go runtime: memory, GC, goroutines, version info")
    ∷ (ascii "goroutine", ascii "Goroutine inspection: count, stacks, states")
    ∷ (ascii "http", ascii "HTTP request tracking: in-flight, completed, latency")
    ∷ (ascii "system", ascii "System info: process, disk, environment")
    ∷ (ascii "deployment", ascii "Build and deployment info: VCS, container, module versions")
    ∷ (ascii "alloc", ascii "Memory allocation: mallocs, frees, GC stats")
    ∷ (ascii "network", ascii "Network: connections, listeners, DNS")
    ∷ (ascii "redis", ascii "Redis client inspection: pool, latency, commands")
    ∷ (ascii "routes", ascii "Route inspection: Gin, Echo, Chi routers")
    ∷ (ascii "gorm", ascii "GORM ORM inspection: queries, models, operations")
    ∷ (ascii "pprof", ascii "pprof profiles: mutex, block, threadcreate")
    ∷ (ascii "cpu_profile", ascii "CPU profiling: start/stop, top functions by time")
    ∷ (ascii "leak", ascii "Memory leak detection: heap snapshots, comparison, candidates")
    ∷ (ascii "snapshot", ascii "Cross-inspector snapshots: gather all metrics, diff over time")
    ∷ (ascii "registry", ascii "Service registry: agent capability map, dependencies")
    ∷ (ascii "logging", ascii "Logging: recent logs, log levels, registered loggers")
    ∷ (ascii "cache", ascii "Cache inspection: registered caches, hit rates, sizes")
    ∷ (ascii "http_client", ascii "HTTP client inspection: outbound calls, timeouts")
    ∷ (ascii "fd", ascii "File descriptor: open count, limits")
    ∷ (ascii "metrics", ascii "Metrics: Prometheus-compatible metric gathering")
    ∷ (ascii "context", ascii "Context inspection: registered contexts, deadlines")
    ∷ (ascii "sync", ascii "Sync primitives: WaitGroup states")
    ∷ (ascii "security", ascii "Security: auth configs, session stores")
    ∷ (ascii "health", ascii "Health checks: registered health checks, status")
    ∷ (ascii "scheduler", ascii "Scheduler: scheduled jobs, execution history")
    ∷ (ascii "error", ascii "Error tracking: recent errors, patterns, statistics")
    ∷ (ascii "websocket", ascii "WebSocket: connections, rooms, messages")
    ∷ (ascii "locks", ascii "Locks & deadlocks: mutex contention, deadlock detection")
    ∷ (ascii "migration", ascii "Database migrations: status, pending, applied")
    ∷ (ascii "config", ascii "Configuration: registered configs, values")
    ∷ (ascii "featureflag", ascii "Feature flags: registered flags, states")
    ∷ (ascii "endpoint_test", ascii "Endpoint testing: tested endpoints, coverage")
    ∷ (ascii "pool", ascii "Connection pool: DB pool stats, saturation, leaks")
    ∷ []

unfoldable pub inspector_description : Text → Text
inspector_description name = elim (Map.lookup name descriptions) [
  | some desc ↦ desc
  | none ↦ ascii "Custom inspector"
]
