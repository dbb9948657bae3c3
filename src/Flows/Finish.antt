-- ===== src/Flows/Finish.antt =====
-- What holds behind an operation of the store: of the tables that it leaves, whether it fails or
-- not, and of those that it commits.
use mathlib.Core.Path.{subst}
use open_tams.Prelude.Result.{err, ok, Result, Returns}
use open_tams.Flows.{finish, Db, FlowError}
use open_tams.Prelude.{refl, ◌≡◌}

pub finish-keeps {ℓ} :
    {A : Type 0} (P : Db → Type ℓ) (db : Db) (r : Result FlowError (A × Db))
    → P db
    → Returns (λ p. P p.1) r
    → P (finish db r).1
unfolding finish
finish-keeps P db (ok p) h k = k
finish-keeps P db (err e) h k = h

pub finish-err :
    {A : Type 0} (db : Db) (r : Result FlowError (A × Db)) (e : FlowError)
    → (finish db r).0 ≡ err e
    → (finish db r).1 ≡ db
unfolding finish
finish-err db (ok p) e h = absurd (cc)
finish-err db (err x) e h = refl

pub finish-ok :
    {A : Type 0} (P : A → Db → Type 0) (db : Db) (r : Result FlowError (A × Db)) (a : A)
    → Returns (λ p. P p.0 p.1) r
    → (finish db r).0 ≡ ok a
    → P a (finish db r).1
unfolding finish
finish-ok P db (ok p) a h e = let same : p.0 ≡ a = cc in subst (λ x. P x p.1) same h
finish-ok P db (err x) a h e = absurd (cc)
