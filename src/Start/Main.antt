-- ===== src/Start/Main.antt =====
-- main of main.go: what it opens, what it defers to its end, and how it ends. A panic runs the deferred
-- calls too, the last one first.
pub mod Closing
use Prim.Native.String.{◌++◌ as text_append}
use thing_directory.Common.{
  ℕ, Bool, true, false, String, Option, none, some, List, [], ◌∷◌, ◌==◌, if◌then◌else◌, length, ltb,
}
use thing_directory.Common.Order.{text_order, bytes_order}
use thing_directory.Wot.Validation.{load_json_schemas}
use thing_directory.Errors.{Error, error_text, Result, ok, err, panicked, Io, io, done, fault}
use thing_directory.Exec.{Exec, pure, lift, ◌>>=◌, ◌>>◌}
use thing_directory.LevelDb.{LevelDb}
use thing_directory.Libraries.{Libraries}
use thing_directory.Notification.Queue.{LevelDbEventQueue, new_level_db_event_queue}
use thing_directory.Start.Packages.{Packages}
use thing_directory.Start.Config.{Config, TlsConfig, backend_level_db}
use thing_directory.Start.Router.{Route, setup_http_router}
use thing_directory.Start.Discovery.{
  Shutdown, no_function, shutdown_of, register_dnssd_service, register_in_service_catalog,
}

-- What the program opens, and closes when it ends.
pub data Part : Type 0 where
  storage controller event_queue notification_controller listener dnssd service_catalog : Part

pub record Process : Type 0 where
  -- the last one first
  pub opened : List Part
  pub deferred : List Part
  -- the deferred call of `shutdown` dereferences nil
  pub nil_shutdown : Bool
  -- the goroutine that serves dereferences nil, which ends the program without its deferred calls
  pub crashes : Bool

abbrev pub no_process : Process
no_process = record { opened = []; deferred = []; nil_shutdown = false; crashes = false }

-- What a run of the program meets: the loaded configuration, a new UUID, and the databases.
pub record Start (p : Packages) (L : LevelDb String) (Q : LevelDb (List ℕ)) : Type 0 where
  pub loaded : Result (Config p)
  pub uuid : String
  pub version : String
  pub open_storage : String → Io L.Db
  pub open_queue : String → Io Q.Db

-- The deferred calls that are run in the end, the last one first.
abbrev pub closing_calls : Process → List Part
closing_calls s = if s.crashes then [] else s.deferred

abbrev pub opens : Part → Exec Process (Unit {0})
opens part s = (ok tt, record s { opened = part ∷ s.opened })

abbrev pub defers : Part → Exec Process (Unit {0})
defers part s = (ok tt, record s { deferred = part ∷ s.deferred })

-- panic(message + err.Error())
abbrev pub or_panic {ℓ} : {A : Type ℓ} → String → Result A → Result A
or_panic m (ok a) = ok a
or_panic m (err e) = panicked (text_append m (error_text e))
or_panic m (panicked n) = panicked n

-- The goroutine that serves: whether it does so with TLS.
unfoldable pub serves_tls : Option TlsConfig → Result Bool
serves_tls none = panicked "nil pointer dereference"
serves_tls (some tls) = ok tls.enabled

module _ (lib : Libraries) (p : Packages) (L : LevelDb String) (Q : LevelDb (List ℕ)) where
  abbrev pub with_service_id : String → Config p → Config p
  with_service_id uuid c = if c.service_id == "" then record c { service_id = uuid } else c

  abbrev pub schemas_of : Config p → Result (List lib.Schema)
  schemas_of c =
      if ltb 0 (length c.json_schemas)
      then or_panic "error loading validation JSON Schemas: "
          (load_json_schemas lib [] c.json_schemas)
      else ok []

  -- `defer shutdown()` stands behind the log line for an error, too.
  abbrev pub announced : Shutdown p → Exec Process (Unit {0})
  announced no_function s = (ok tt, record s { deferred = dnssd ∷ s.deferred; nil_shutdown = true })
  announced (shutdown_of none) s = (ok tt, record s { deferred = dnssd ∷ s.deferred })
  announced (shutdown_of (some server)) s = (opens dnssd >> defers dnssd) s

  abbrev pub announces : String → Config p → Exec Process (Unit {0})
  announces version c =
      if c.dnssd.enabled then announced (register_dnssd_service p version c).0 else pure tt

  abbrev pub registers : String → Config p → Exec Process (Unit {0})
  registers version c =
      if c.service_catalog.enabled
      then (do
        registrator ←
            lift (or_panic "Error registering service:" (register_in_service_catalog p version c))
        opens service_catalog
        defers service_catalog)
      else pure tt

  abbrev pub listen : Config p → Result (Unit {0})
  listen c = elim (p.listen_error c.http.bind_addr c.http.bind_port) [
    | none ↦ ok tt
    | some m ↦ panicked m
  ]

  abbrev pub unsupported {ℓ} : {A : Type ℓ} → String → Config p → Result A → Result A
  unsupported m c r =
      if c.storage.type == backend_level_db then r else panicked (text_append m c.storage.type)

  abbrev pub storage_of : Start p L Q → Config p → Result L.Db
  storage_of start c =
      unsupported "Could not create catalog API storage. Unsupported type:" c
        (or_panic "Failed to start LevelDB storage:" (io (start.open_storage c.storage.dsn)))

  abbrev pub queue_db_of : Start p L Q → Config p → Result Q.Db
  queue_db_of start c = unsupported "Could not create SSE storage. Unsupported type:" c (
      or_panic "Failed to start LevelDB storage for SSE events:"
        (io (start.open_queue (text_append c.storage.dsn "/sse"))))

  abbrev pub queue_of : Q.Db → Result (LevelDbEventQueue Q)
  queue_of db =
      or_panic "Failed to start LevelDB storage for SSE events:"
        (new_level_db_event_queue lib Q db 1000)

  -- `go func() { … }()`: the goroutine reads the TLS configuration first.
  abbrev panics : Result Bool → Bool
  panics (ok tls) = false
  panics (err e) = false
  panics (panicked m) = true

  abbrev pub serves : Config p → Exec Process (Unit {0})
  serves c s = (ok tt, record s { crashes = panics (serves_tls c.http.tls_config) })

  -- The end of `main`, up to the wait for a signal.
  unfoldable pub announce_all : Start p L Q → Config p → Exec Process (Unit {0})
  unfolding serves_tls
  announce_all start c = do
    routes ← lift (or_panic "" (setup_http_router p c.http))
    lift (listen c)
    opens listener
    serves c
    announces start.version c
    registers start.version c

  unfoldable pub start_notification : Start p L Q → Config p → Exec Process (Unit {0})
  unfolding announce_all
  start_notification start c = do
    db ← lift (queue_db_of start c)
    opens event_queue
    queue ← lift (queue_of db)
    defers event_queue
    opens notification_controller
    defers notification_controller
    announce_all start c

  unfoldable pub start_catalog : Start p L Q → Config p → Exec Process (Unit {0})
  unfolding start_notification
  start_catalog start c = do
    schemas ← lift (schemas_of c)
    db ← lift (storage_of start c)
    opens storage
    defers storage
    opens controller
    defers controller
    start_notification start c

  unfoldable pub main : Start p L Q → Exec Process (Unit {0})
  unfolding start_catalog
  main start = do
    loaded ← lift (or_panic "Error reading config file:" start.loaded)
    start_catalog start (with_service_id start.uuid loaded)
