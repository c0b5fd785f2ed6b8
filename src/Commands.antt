-- ===== src/Commands.antt =====
-- The start and the exit code of the daemon: `run` and `loadPolicies` of cmd/scp-daemon/main.go,
-- LoadFromFile of internal/scp/policy/yaml.go and Open of internal/scp/db/db.go. The file system, the
-- yaml decoder, the pool and the two workers are parameters.
pub mod Starting
pub mod Stopping
pub mod Exits
pub mod Winding
pub mod Tests
use secret_control_panel.Base.{
  ltb, leb, nat_beq, if◌then◌else◌, leb_iff, nat_beq_iff, Bool-cases, Option-cases, is_some, ◌==◌,
  ◌!=◌, nat_eq, eq_iff, eq_refl, ne_of_beq, beq_of_ne, list_beq, list_beq_iff, Eq, length, take,
  any, all, filter, find?, All, length-append, All-append, All-mem, All-of-mem, All-perm, mem-perm,
  All-take, All-map, mem-filter, mem_of-filter, length-filter-le, length-filter-lt, length-perm,
  length-map, mem_last, mem_appended, pos_part, neg_part, ◌≤ℤ◌, leb_ℤ, ℤ, pos, negsuc, ◌>>=◌, ◌>>◌,
  >>=-ok, Result, ok, err, Pairs, Pairs-take, Pairs-filter, Pairs-perm, Pairs-map, Pairs-of-map,
  Pairs-eq, Pairs-append-one, ℕ, zero, suc, ◌+◌, ◌-◌, ◌*◌, ◌%◌, ◌^◌, ◌≤◌, ◌<◌, min, max, ◌≡◌, refl,
  sym, ap, subst, ◌∙◌, ◌≢◌, ◌↔◌, ◌⊎◌, inl, inr, Bool, true, false, false≢true, not, ◌&&◌, ◌||◌,
  Option, none, some, List, [], ◌∷◌, ◌++◌, map, reverse, Memᴰ, Permᴰ, le_antisymm, le_trans,
  le_refl, arith,
}
use secret_control_panel.Text.{Str, str_eq}
use secret_control_panel.Sort.{Sorter}
use secret_control_panel.Policy.{Policy, PrefixRule, Store, LoadError, new_store, load}
use secret_control_panel.Policy.Checks.{is_ok, acceptable}
use secret_control_panel.Policy.Acceptance.{load-acceptable}

pub record DaemonConfig : Type 0 where
  pub db_url : Str
  pub policies_path : Str
  pub log_level : Str

pub data FileError : Type 0 where
  read_failed : Str → Str → FileError
  parse_failed : Str → Str → FileError

-- os.ReadFile, and Decode of a yaml.v3 decoder with KnownFields on the policies of a file.
pub record Files : Type 0 where
  pub read_file : Str → Result Str Str
  pub decode : Str → Result Str (List Policy)

abbrev pub parsed_file : Str → Result Str (List Policy) → Result FileError (List Policy)
parsed_file path (ok policies) = ok policies
parsed_file path (err e) = err (parse_failed path e)

abbrev pub decoded : Files → Str → Result Str Str → Result FileError (List Policy)
decoded files path (ok b) = parsed_file path (files.decode b)
decoded files path (err e) = err (read_failed path e)

unfoldable pub load_from_file : Files → Str → Result FileError (List Policy)
load_from_file files path = decoded files path (files.read_file path)

pub data PoliciesError : Type 0 where
  file_error : FileError → PoliciesError
  store_error : LoadError → PoliciesError

abbrev pub stored : Result LoadError (Unit {0}) × Store → Result PoliciesError Store
stored (ok _, s) = ok s
stored (err e, s) = err (store_error e)

abbrev pub into_store :
    Sorter PrefixRule → Result FileError (List Policy) → Result PoliciesError Store
into_store sorter (ok policies) = stored (load sorter new_store policies)
into_store sorter (err e) = err (file_error e)

unfoldable pub load_policies : Sorter PrefixRule → Files → Str → Result PoliciesError Store
load_policies sorter files path = into_store sorter (load_from_file files path)

pub data OpenError : Type 0 where
  pool_failed : Str → OpenError
  migration_failed : Str → OpenError

-- pgxpool.New, and the Exec of the schema on the pool.
pub record Postgres : Type 0 where
  pub new_pool : Str → Option Str
  pub migrate : Str → Option Str

unfoldable pub open_db : Postgres → Str → Option OpenError
open_db pg dsn = elim (pg.new_pool dsn) [
  | some e ↦ some (pool_failed e)
  | none ↦ elim (pg.migrate dsn) [ some e ↦ some (migration_failed e) | none ↦ none ]
]

-- What RunProcessor or RunDispatcher returns: context.Canceled, or another error.
pub data WorkerError : Type 0 where
  canceled : WorkerError
  stopped : Str → WorkerError

abbrev pub real_error : Option WorkerError → Option Str
real_error none = none
real_error (some canceled) = none
real_error (some (stopped e)) = some e

abbrev pub first_error : Option Str → Option Str → Option Str
first_error (some e) other = some e
first_error none other = other

pub data RunError : Type 0 where
  db_url_required : RunError
  policies_error : PoliciesError → RunError
  db_error : OpenError → RunError
  worker_error : Str → RunError

abbrev worker_failed : Option Str → Option RunError
worker_failed none = none
worker_failed (some e) = some (worker_error e)

abbrev pub exit_error : Option WorkerError × Option WorkerError → Option RunError
exit_error (p, d) = worker_failed (first_error (real_error p) (real_error d))

abbrev pub Workers : Type 0
Workers = Store → Option WorkerError × Option WorkerError

-- The rest of run, with the outcome of db.Open.
abbrev pub after_open : Workers → Store → Option OpenError → Option RunError
after_open workers s (some e) = some (db_error e)
after_open workers s none = exit_error (workers s)

module _ (sorter : Sorter PrefixRule) (files : Files) (pg : Postgres) (workers : Workers) where
  abbrev pub with_store : Str → Store → Option RunError
  with_store db_url s = after_open workers s (open_db pg db_url)

  -- run of the daemon; none is the exit code 0.
  unfoldable pub run_daemon : DaemonConfig → Option RunError
  run_daemon c =
      if c.db_url == []
      then some db_url_required
      else elim (load_policies sorter files c.policies_path) [
        | err e ↦ some (policies_error e)
        | ok s ↦ with_store c.db_url s
      ]
