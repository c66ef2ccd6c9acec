-- ===== src/TrackerCore/Databases/Mysql/Changes.antt =====
-- What the writes of mysql.rs do to the database.
use torrust_tracker.Prelude.{◌≡◌, ◌⊎◌, inl, inr, arith, ok, err, Result-cases}
use torrust_tracker.TrackerCore.Databases.{Error, InfoHashText, my_sql, connection_pool}
use torrust_tracker.TrackerCore.Databases.Rusqlite.{Statement}
use torrust_tracker.TrackerCore.Databases.MysqlCrate.{Engine}
use torrust_tracker.TrackerCore.Databases.Mysql.{change, from_mysql}

module _ (H : InfoHashText) (E : Engine) where
  -- A statement that fails changes nothing; one that succeeds is executed.
  pub change_cases :
      {A : Type 0} (st : Statement) (a : A) (db : E.Db)
      → (((change H E st a db).1 ≡ db) × ((e : Error) × ((change H E st a db).0 ≡ err e)))
        ⊎ (((E.exec_drop st db).0 ≡ ok tt)
            × ((change H E st a db).0 ≡ ok a)
            × ((change H E st a db).1 ≡ (E.exec_drop st db).1))
  unfolding change
  change_cases st a db = elim (Result-cases (E.get db)) [
    | inr (e, q) ↦ inl (ground arith, (connection_pool my_sql, ground arith))
    | inl (u, q) ↦ elim (Result-cases (E.exec_drop st db).0) [
      | inr (e, q') ↦
          inl (ground (arith, E.exec_drop_err st db e), (from_mysql H E e, ground arith))
      | inl (n, q') ↦ inr (ground arith, ground arith, ground arith)
    ]
  ]

  pub change_err :
      {A : Type 0} (st : Statement) (a : A) (db : E.Db) (e : Error)
      → (change H E st a db).0 ≡ err e
      → (change H E st a db).1 ≡ db
  change_err st a db e h = elim (change_cases st a db) [
    | inl (same, failed) ↦ same
    | inr (done, result, after) ↦ ground arith
  ]
