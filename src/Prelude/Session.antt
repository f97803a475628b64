-- ===== src/Prelude/Session.antt =====
-- Calls on a database session, with the tables and the errors as parameters. A session sees its
-- own uncommitted changes; `durable` is what other sessions see.
pub record Session (D : Type 0) : Type 0 where
  pub db : D
  pub durable : D

pub data Result {ℓ} (E : Type 0) (A : Type ℓ) : Type ℓ where
  ok : A → Result E A
  err : E → Result E A

-- What a call returns or raises, and the session after it.
abbrev pub M {ℓ} : Type 0 → Type 0 → Type ℓ → Type ℓ
M D E A = Session D → Result E A × Session D

module _ {ℓ} {D E : Type 0} {A : Type ℓ} where
  abbrev pub pure : A → M D E A
  pure a s = (ok a, s)

  abbrev pub raise : E → M D E A
  raise e s = (err e, s)

  abbrev pub gets : (D → A) → M D E A
  gets f s = (ok (f s.db), s)

  abbrev pub lift : Result E A → M D E A
  lift r s = (r, s)

module _ {ℓ κ} {D E : Type 0} {A : Type ℓ} {B : Type κ} where
  abbrev pub go_on : Result E A × Session D → (A → M D E B) → Result E B × Session D
  go_on (ok a, s) f = f a s
  go_on (err e, s) f = (err e, s)

infixl 5 ◌>>=◌ ◌>>◌
abbrev pub ◌>>=◌ {ℓ κ} :
    {D E : Type 0} {A : Type ℓ} {B : Type κ} → M D E A → (A → M D E B) → M D E B
◌>>=◌ m f s = go_on (m s) f

abbrev pub ◌>>◌ {ℓ κ} : {D E : Type 0} {A : Type ℓ} {B : Type κ} → M D E A → M D E B → M D E B
m >> k = m >>= λ _. k

module _ {D E : Type 0} where
  -- A change of the tables, `db.commit()` and `db.rollback()`.
  abbrev pub modify : (D → D) → M D E (Unit {0})
  modify f s = (ok tt, record s { db = f s.db })

  abbrev pub commit : M D E (Unit {0})
  commit s = (ok tt, record s { durable = s.db })

  abbrev pub rollback : M D E (Unit {0})
  rollback s = (ok tt, record s { db = s.durable })
