-- ===== src/Commands/Starting.antt =====
-- When the daemon exits with code 0: `run` and `loadPolicies` of cmd/scp-daemon/main.go, LoadFromFile
-- of internal/scp/policy/yaml.go and Open of internal/scp/db/db.go.
use secret_control_panel.Base.{
  Bool-cases, Option-cases, ◌==◌, nat_eq, list_beq, Result, ok, err, ◌≡◌, refl, sym, ap, ◌∙◌, ◌≢◌,
  ◌↔◌, ◌⊎◌, inl, inr, true, false, false≢true, Option, none, some, List, [], ◌∷◌, arith,
}
use secret_control_panel.Text.{Str, str_eq}
use secret_control_panel.Sort.{Sorter}
use secret_control_panel.Policy.{Policy, PrefixRule, Store, LoadError, new_store, load}
use secret_control_panel.Policy.Checks.{is_ok, acceptable}
use secret_control_panel.Policy.Acceptance.{load-acceptable}
use secret_control_panel.Commands.{
  DaemonConfig, FileError, Files, load_from_file, into_store, load_policies, Postgres, open_db,
  WorkerError, canceled, stopped, exit_error, Workers, with_store, run_daemon,
}

-- A worker that returned no error, or context.Canceled.
abbrev pub HasNoError : Option WorkerError → Type 0
HasNoError r = (r ≡ none) ⊎ (r ≡ some canceled)

exit_error-none :
    (p d : Option WorkerError) → (exit_error (p, d) ≡ none) ↔ (HasNoError p × HasNoError d)
exit_error-none none none = (λ _. (inl refl, inl refl), λ _. refl)
exit_error-none none (some canceled) = (λ _. (inl refl, inr refl), λ _. refl)
exit_error-none (some canceled) none = (λ _. (inr refl, inl refl), λ _. refl)
exit_error-none (some canceled) (some canceled) = (λ _. (inr refl, inr refl), λ _. refl)
exit_error-none (some (stopped e)) d = (λ h. absurd (ground arith), λ h. absurd (ground arith))
exit_error-none none (some (stopped e)) = (λ h. absurd (ground arith), λ h. absurd (ground arith))
exit_error-none (some canceled) (some (stopped e)) =
    (λ h. absurd (ground arith), λ h. absurd (ground arith))

open_db-none :
    (pg : Postgres) (dsn : Str)
    → (open_db pg dsn ≡ none) ↔ ((pg.new_pool dsn ≡ none) × (pg.migrate dsn ≡ none))
open_db-none pg dsn = by_pool (pg.new_pool dsn) refl (pg.migrate dsn) refl
  where
    by_pool :
        (p : Option Str)
        → pg.new_pool dsn ≡ p
        → (m : Option Str) → pg.migrate dsn ≡ m
        → (open_db pg dsn ≡ none) ↔ ((pg.new_pool dsn ≡ none) × (pg.migrate dsn ≡ none))
    by_pool (some e) p m q =
        (λ h. absurd (unfold open_db in ground arith), λ h. absurd (ground arith))
    by_pool none p (some e) q =
        (λ h. absurd (unfold open_db in ground arith), λ h. absurd (ground arith))
    by_pool none p none q = (λ h. (p, q), λ h. unfold open_db in ground arith)

load_from_file-ok :
    (files : Files) (path : Str) (ps : List Policy)
    → load_from_file files path ≡ ok ps
    → (b : Str) × (files.read_file path ≡ ok b) × (files.decode b ≡ ok ps)
load_from_file-ok files path ps h = by_read (files.read_file path) refl
  where
    by_decode :
        (b : Str)
        → files.read_file path ≡ ok b
        → (r : Result Str (List Policy)) → files.decode b ≡ r
        → (b : Str) × (files.read_file path ≡ ok b) × (files.decode b ≡ ok ps)
    by_decode b e (ok qs) k = (b, e, unfold load_from_file in ground arith)
    by_decode b e (err x) k = absurd (unfold load_from_file in ground arith)

    by_read :
        (r : Result Str Str)
        → files.read_file path ≡ r
        → (b : Str) × (files.read_file path ≡ ok b) × (files.decode b ≡ ok ps)
    by_read (ok b) e = by_decode b e (files.decode b) refl
    by_read (err x) e = absurd (unfold load_from_file in ground arith)

url_missing : (url : Str) → url ≡ [] → (url == []) ≡ true
unfolding list_beq
url_missing url e = rw e refl

url_present : (url : Str) → url ≢ [] → (url == []) ≡ false
unfolding list_beq
url_present [] k = absurd (k refl)
url_present (x ∷ url) k = refl

module _ (sorter : Sorter PrefixRule) (files : Files) (pg : Postgres) (workers : Workers) where
  -- A run that ends well: the text and the policies of its file, both calls of Postgres without an
  -- error, and workers that the signal ended or that had no error.
  pub record RanWell (c : DaemonConfig) : Type 0 where
    pub text : Str
    pub policies : List Policy
    pub has_url : c.db_url ≢ []
    pub read_ok : files.read_file c.policies_path ≡ ok text
    pub decode_ok : files.decode text ≡ ok policies
    pub good : acceptable policies ≡ true
    pub pool_ok : pg.new_pool c.db_url ≡ none
    pub migrate_ok : pg.migrate c.db_url ≡ none
    pub processor_ended : HasNoError (workers (load sorter new_store policies).1).0
    pub dispatcher_ended : HasNoError (workers (load sorter new_store policies).1).1

  run-with_store :
      (c : DaemonConfig) (ps : List Policy)
      → (c.db_url == []) ≡ false
      → load_from_file files c.policies_path ≡ ok ps
      → (load sorter new_store ps).0 ≡ ok tt
      → run_daemon sorter files pg workers c
        ≡ with_store sorter files pg workers c.db_url (load sorter new_store ps).1
  run-with_store c ps url file loaded =
      unfold run_daemon load_policies in rw (url, file, into_store, loaded) refl

  -- A start without an error ends as the workers end.
  open-none :
      (db_url : Str) (s : Store)
      → with_store sorter files pg workers db_url s ≡ none
      → (open_db pg db_url ≡ none) × (exit_error (workers s) ≡ none)
  open-none db_url s h = elim (Option-cases (open_db pg db_url)) [
    | inl e ↦ (e, rw e at h)
    | inr (x, e) ↦ absurd (ground arith)
  ]

  loaded-ok : (ps : List Policy) → acceptable ps ≡ true → (load sorter new_store ps).0 ≡ ok tt
  loaded-ok ps h = by_result (load sorter new_store ps).0 (load-acceptable sorter new_store ps ∙ h)
    where
      by_result : (r : Result LoadError (Unit {0})) → is_ok r ≡ true → r ≡ ok tt
      by_result (ok tt) e = refl
      by_result (err x) e = absurd (ground arith)

  run-RanWell : (c : DaemonConfig) → run_daemon sorter files pg workers c ≡ none → RanWell c
  run-RanWell c h = elim (Bool-cases (c.db_url == [])) [
    | inl e ↦ absurd (unfold run_daemon in ground arith)
    | inr e ↦ by_file e (load_from_file files c.policies_path) refl
  ]
    where
      by_load :
          (c.db_url == []) ≡ false
          → (ps : List Policy) → load_from_file files c.policies_path ≡ ok ps
          → (r : Result LoadError (Unit {0})) → (load sorter new_store ps).0 ≡ r
          → RanWell c
      by_load url ps file (err x) k = absurd (unfold run_daemon load_policies in ground arith)
      by_load url ps file (ok tt) k =
          let (opened, ended) =
            open-none c.db_url (load sorter new_store ps).1
              (sym (run-with_store c ps url file k) ∙ h) in
          let (b, read, decode) = load_from_file-ok files c.policies_path ps file in
          let (pool, migrate) = (open_db-none pg c.db_url).0 opened in
          let left_right =
            (exit_error-none (workers (load sorter new_store ps).1).0
                (workers (load sorter new_store ps).1).1).0
              ended in
          record {
            text = b;
            policies = ps;
            has_url = λ empty. false≢true (sym url ∙ url_missing c.db_url empty);
            read_ok = read;
            decode_ok = decode;
            good = sym (load-acceptable sorter new_store ps) ∙ ap is_ok k;
            pool_ok = pool;
            migrate_ok = migrate;
            processor_ended = left_right.0;
            dispatcher_ended = left_right.1;
          }

      by_file :
          (c.db_url == []) ≡ false
          → (r : Result FileError (List Policy)) → load_from_file files c.policies_path ≡ r
          → RanWell c
      by_file url (err x) k = absurd (unfold run_daemon load_policies in ground arith)
      by_file url (ok ps) k = by_load url ps k (load sorter new_store ps).0 refl

  RanWell-run : (c : DaemonConfig) → RanWell c → run_daemon sorter files pg workers c ≡ none
  RanWell-run c r =
      let file : load_from_file files c.policies_path ≡ ok r.policies =
        unfold load_from_file in rw (r.read_ok, r.decode_ok) refl in
      let opened : open_db pg c.db_url ≡ none =
        (open_db-none pg c.db_url).1 (r.pool_ok, r.migrate_ok) in
      let s = (load sorter new_store r.policies).1 in
      let ended : exit_error (workers s) ≡ none =
        (exit_error-none (workers s).0 (workers s).1).1 (r.processor_ended, r.dispatcher_ended) in
      run-with_store c r.policies (url_present c.db_url r.has_url) file
        (loaded-ok r.policies r.good)
      ∙ rw (opened, ended) refl

  -- The daemon exits with code 0 exactly when it has a database URL, its file can be read, its text
  -- decodes to a set of policies that is acceptable, the pool is opened and the schema migrated without
  -- an error, and each of the two workers, run on the store of these policies, has ended with no error
  -- or with context.Canceled.
  pub run_daemon_iff :
      (c : DaemonConfig) → (run_daemon sorter files pg workers c ≡ none) ↔ RanWell c
  run_daemon_iff c = (run-RanWell c, RanWell-run c)
