-- ===== src/Database/Keep.antt =====
-- What every query of a sequence keeps, the sequence keeps.
use evgl_api.Base.{◌≡◌, refl}
use evgl_api.Rust.{Result, ok, err}
use evgl_api.Error.{ApiError}
use evgl_api.Database.{Database, Query, continue}

module _ {Json : Type 0} (P : Database Json → Type 0) where
  -- Whatever a query returns, `P` holds after it if it held before.
  abbrev pub Keeps : {A : Type 0} → Query Json A → Type 0
  Keeps m = (db : Database Json) → P db → P (m db).1

  -- `lift(r)?` and then the rest
  pub lift_keeps :
      {A B : Type 0} (r : Result A ApiError) (f : A → Query Json B) (db : Database Json)
      → P db
      → ((a : A) → P (f a db).1)
      → P (continue r f db).1
  lift_keeps (ok a) f db h keeps = keeps a
  lift_keeps (err e) f db h keeps = h

  -- a query that keeps `P` and then the rest
  pub query_keeps :
      {A B : Type 0} (m : Query Json A) (f : A → Query Json B) (db : Database Json)
      → P (m db).1
      → ((a : A) (db' : Database Json) → P db' → P (f a db').1)
      → P (continue (m db).0 f (m db).1).1
  query_keeps m f db h keeps = lift_keeps (m db).0 f (m db).1 h λ a. keeps a (m db).1 h

  -- The same, where the rest may use what was returned.
  pub returned_keeps :
      {A B : Type 0} (r : Result A ApiError) (f : A → Query Json B) (db : Database Json)
      → P db
      → ((a : A) → r ≡ ok a → P (f a db).1)
      → P (continue r f db).1
  returned_keeps (ok a) f db h keeps = keeps a refl
  returned_keeps (err e) f db h keeps = h
