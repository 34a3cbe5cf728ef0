-- ===== src/Apps/Create.antt =====
-- `create`, `validateName` and `DeleteApp` of control/manager.go. The registry is a list of apps
-- under unique names and ports; what the store, the node and the libraries answer is an argument.
-- Calls of the nodes are logged in order.
pub mod Laws
use hostit.Common.{
  ℕ, String, Bool, true, false, List, [], ◌∷◌, ◌++◌, Option, none, some, ◌&&◌, ◌||◌, not, ◌==◌, map,
  if◌then◌else◌, str_eq, contains, has_prefix, string_append,
}
use hostit.Common.Int.{ℤ, pos}
use hostit.Store.{App, find_app}
use hostit.Apps.Ports.{
  Ports, Allocation, allocated, read_failed, no_ports_available, allocate_port, release_port,
  has_port,
}

abbrev pub reserved_names : List String
reserved_names =
    "hostit" ∷ "hostit-control" ∷ "hostit-node" ∷ "hostit-proxy" ∷ "hostit-apps" ∷ "api" ∷ "www"
    ∷ "www-data" ∷ "mail" ∷ "smtp" ∷ "imap" ∷ "ftp" ∷ "ssh" ∷ "git" ∷ "control" ∷ "node" ∷ "proxy"
    ∷ "admin" ∷ "administrator" ∷ "root" ∷ "daemon" ∷ "bin" ∷ "sys" ∷ "sync" ∷ "adm" ∷ "operator"
    ∷ "backup" ∷ "nobody" ∷ "sshd" ∷ "systemd" ∷ "dbus" ∷ "messagebus" ∷ "lp" ∷ "news" ∷ "uucp"
    ∷ "games" ∷ "man" ∷ "postfix" ∷ "dovecot" ∷ "ntp" ∷ "chrony" ∷ "postgres" ∷ "mysql" ∷ "mariadb"
    ∷ "redis" ∷ "mongodb" ∷ "mongo" ∷ "mongod" ∷ "memcached" ∷ "rabbitmq" ∷ "elasticsearch"
    ∷ "influxdb" ∷ "cassandra" ∷ "nginx" ∷ "apache" ∷ "apache2" ∷ "httpd" ∷ "tomcat" ∷ "docker"
    ∷ "podman" ∷ "grafana" ∷ "prometheus" ∷ "jenkins" ∷ "gitlab" ∷ "ubuntu" ∷ "debian" ∷ []

-- What a call of a node says.
pub data NodeCall : Type 0 where
  push_mirror : List App → NodeCall
  set_memory_limit set_disk_limit : String → ℤ → NodeCall
  set_cpu_limit : String → ℕ → NodeCall
  provision deprovision : App → NodeCall
  start : String → Bool → NodeCall

pub record World : Type 0 where
  pub apps : List App
  pub keys : List (String × List String)
  pub limits : List (String × (ℤ × ℤ × ℕ))
  pub ports : Ports
  pub calls : List NodeCall

pub record CreateOptions : Type 0 where
  pub owner_id : String
  pub request_keys : List String
  pub memory_mb : ℤ
  pub disk_mb : ℤ
  pub host : String
  pub private : Bool

pub data CreateError : Type 0 where
  invalid_name reserved_name app_exists account_collides invalid_keys no_port store_failed
        provision_failed :
      CreateError

-- What the libraries and the store say before anything is changed: the pattern of names, the home of an
-- account on the host, `filepath.Clean`, the directory of apps and the check of keys.
pub record Checks : Type 0 where
  pub valid_name : String → Bool
  pub home_of : String → Option String
  pub clean : String → String
  pub apps_dir : String
  pub valid_keys : List String → Bool

-- What happens: the minted id, the node that placement picks, and which steps succeed.
pub record Outcome : Type 0 where
  pub id : String
  pub placed : String
  pub ports_read : Bool
  pub added : Bool
  pub keys_set : Bool
  pub cpu_stamped : Bool
  pub provisioned : Bool
  pub row_removed : Bool
  pub keys_removed : Bool

abbrev pub hostit_managed_roots : List String
hostit_managed_roots = "/run/hostit" ∷ "/var/lib/hostit" ∷ []

unfoldable pub is_below : (String → String) → String → List String → Bool
is_below clean home [] = false
is_below clean home (root ∷ roots) =
    let later = is_below clean home roots in
    if str_eq root ""
    then later
    else str_eq home (clean root) || has_prefix home (string_append (clean root) "/") || later

-- `managedHome`
unfoldable pub managed_home : Checks → String → Bool
unfolding is_below
managed_home c home = is_below c.clean (c.clean home) (hostit_managed_roots ++ c.apps_dir ∷ [])

unfoldable pub collides : Checks → Option String → Bool
unfolding managed_home
collides c none = false
collides c (some home) = not (managed_home c home)

unfoldable pub is_some : Option App → Bool
is_some none = false
is_some (some a) = true

-- `validateName`, when the registry can be read.
unfoldable pub validate_name : Checks → List App → String → Option CreateError
unfolding collides is_some
validate_name c apps name =
    if not (c.valid_name name)
    then some invalid_name
    else if contains reserved_names name
    then some reserved_name
    else if is_some (find_app apps name)
    then some app_exists
    else if collides c (c.home_of name)
    then some account_collides
    else none

-- `RemoveApp`
unfoldable pub remove_app : String → List App → List App
remove_app name [] = []
remove_app name (a ∷ apps) =
    let rest = remove_app name apps in if str_eq a.name name then rest else a ∷ rest

unfoldable pub remove_keys : String → List (String × List String) → List (String × List String)
remove_keys name [] = []
remove_keys name ((n, ks) ∷ keys) =
    let rest = remove_keys name keys in if str_eq n name then rest else (n, ks) ∷ rest

abbrev pub app_port : App → ℕ
app_port a = a.port

abbrev pub default_cpu_milli : ℕ
default_cpu_milli = 500

unfoldable pub new_app : String → CreateOptions → Outcome → ℕ → App
new_app name opts o port = record {
  id = o.id;
  name = name;
  host = if str_eq opts.host "" then o.placed else opts.host;
  owner_id = opts.owner_id;
  powered_off = false;
  archived = false;
  private = opts.private;
  memory_limit_mb = pos 0;
  disk_limit_mb = pos 0;
  cpu_milli = pos 0;
  port = port;
  soft_deleted_at = 0;
}

pub data Created : Type 0 where
  made : App → Created
  failed : CreateError → Created

unfoldable pub say : NodeCall → World → World
say call w = record w { calls = w.calls ++ call ∷ [] }

-- `PushMirror`
unfoldable pub push : World → World
unfolding say
push w = say (push_mirror w.apps) w

-- `RemoveApp` in the undoing of a creation, which does not look at how far it comes: the app's row
-- goes first, then its keys.
unfoldable pub drop_rows : Outcome → String → World → World
unfolding remove_app remove_keys
drop_rows o name w = if not o.row_removed then w else record w {
  apps = remove_app name w.apps;
  keys = if o.keys_removed then remove_keys name w.keys else w.keys;
}

-- The CPU cap in the new row; its failure is only logged.
unfoldable pub stamp_cpu : Bool → App → App
stamp_cpu ok a = if ok then record a { cpu_milli = pos default_cpu_milli } else a

unfoldable pub after_provision :
    World → String → CreateOptions → Bool → Outcome → App → World × Created
unfolding push drop_rows say
after_provision w name opts forking o a =
    if o.provisioned
    then (say (start name forking) (say (set_disk_limit name opts.disk_mb) w), made a)
    else (push (drop_rows o name w), failed provision_failed)

-- The rows are there; the nodes learn them, and the caps, before the app is built.
unfoldable pub build_app : World → String → CreateOptions → Bool → Outcome → App → World × Created
unfolding after_provision push say
build_app w name opts forking o a =
    let known =
      say (set_cpu_limit name default_cpu_milli)
        (say (set_memory_limit name opts.memory_mb) (push w)) in
    after_provision (say (provision a) known) name opts forking o a

unfoldable pub has_app : List App → String → ℕ → Bool
unfolding is_some
has_app apps name port = is_some (find_app apps name) || has_port (map app_port apps) port

-- From `AddApp` on: the store refuses a name or a port that is there, or fails.
unfoldable pub register_app :
    World → String → CreateOptions → Bool → Outcome → App → World × Created
unfolding has_app drop_rows stamp_cpu build_app
register_app w name opts forking o a =
    if has_app w.apps name a.port || not o.added
    then (w, failed store_failed)
    else if not o.keys_set
    then (drop_rows o name (record w { apps = a ∷ w.apps }), failed store_failed)
    else build_app
        (record w {
          apps = stamp_cpu o.cpu_stamped a ∷ w.apps;
          keys = (name, opts.request_keys) ∷ w.keys;
        })
        name opts forking o a

unfoldable pub record_limits : String → CreateOptions → World → World
record_limits name opts w = record w {
  limits = (name, (opts.memory_mb, opts.disk_mb, default_cpu_milli)) ∷ w.limits;
}

-- The deferred `releasePort`.
unfoldable pub released : ℕ → World × Created → World × Created
released port (w, r) = (record w { ports = release_port port w.ports }, r)

unfoldable pub with_port :
    World → String → CreateOptions → Bool → Outcome → Ports × Allocation → World × Created
unfolding released register_app record_limits new_app
with_port w name opts forking o (ports, read_failed) =
    (record w { ports = ports }, failed store_failed)
with_port w name opts forking o (ports, no_ports_available) =
    (record w { ports = ports }, failed no_port)
with_port w name opts forking o (ports, allocated port) = released port (
    register_app (record_limits name opts (record w { ports = ports })) name opts forking o
      (new_app name opts o port))

unfoldable pub used_ports : Bool → List App → Option (List ℕ)
used_ports ok apps = if ok then some (map app_port apps) else none

unfoldable pub create_valid :
    Checks → World → String → CreateOptions → Bool → Outcome → Option CreateError → World × Created
unfolding with_port used_ports
create_valid c w name opts forking o (some e) = (w, failed e)
create_valid c w name opts forking o none =
    if not (c.valid_keys opts.request_keys)
    then (w, failed invalid_keys)
    else with_port w name opts forking o (allocate_port (used_ports o.ports_read w.apps) w.ports)

unfoldable pub create : Checks → World → String → CreateOptions → Bool → Outcome → World × Created
unfolding create_valid validate_name
create c w name opts forking o = create_valid c w name opts forking o (validate_name c w.apps name)
