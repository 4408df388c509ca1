-- ===== src/Startup/Migrations/Restart.antt =====
-- Migrations that have run are not run again to any effect, and take nothing away.
use otelview_postgres.Common.{
  ◌≡◌, refl, subst, List, [], ◌∷◌, map, Str, Result, ok, err, >>=-eq-ok, ok-injective,
}
use otelview_postgres.Startup.{migrations}
use otelview_postgres.Startup.Migrations.Statements.{
  Extends, Extends-refl, Extends-trans, Extends-run_statement,
}
use otelview_postgres.Startup.Migrations.{
  Catalog, Support, Statement, run_statement, run_file, settle, and_then, run_migrations,
  migration_files,
}

module _ (support : Support) where
  Extends-run_file :
      (ss : List Statement) (c c' : Catalog) → run_file support ss c ≡ ok c' → Extends support c c'
  unfolding run_file
  Extends-run_file [] c c' e = subst (Extends support c) (ok-injective e) (Extends-refl support c)
  Extends-run_file (s ∷ ss) c c' e =
      let (mid, first, rest) = >>=-eq-ok (run_statement support s c) (run_file support ss) e in
      Extends-trans support c mid c' (Extends-run_statement support s c mid first)
        (Extends-run_file ss mid c' rest)

  -- What migrating does to a database, whichever file fails: nothing is taken away or changed.
  pub Extends-run_migrations :
      (files : List (Str × List Statement)) (c : Catalog)
      → Extends support c (run_migrations support files c).1
  unfolding run_migrations
  Extends-run_migrations [] c = Extends-refl support c
  Extends-run_migrations ((name, ss) ∷ files) c =
      after (run_file support ss c) (λ mid. Extends-run_migrations files mid) refl
    where
      after :
          (r : Result Catalog)
          → ((mid : Catalog) → Extends support mid (run_migrations support files mid).1)
          → run_file support ss c ≡ r
          → Extends support c (and_then (settle name c r) (run_migrations support files)).1
      after (ok mid) later e =
          Extends-trans support c mid _ (Extends-run_file ss c mid e) (later mid)
      after (err x) later e = Extends-refl support c

-- The files are those that `main` names.
migration_names : map (λ (f : Str × List Statement). f.0) migration_files ≡ migrations
migration_names = refl
