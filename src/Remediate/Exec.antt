-- ===== src/Remediate/Exec.antt =====
-- Actions on a host that may fail. A session holds the state of the host, which only the host's own
-- functions read, and the writes that the tool has asked for, in order.
use pantheon_tools_catalog.Prelude.{◌≡◌, refl, List, [], ◌∷◌, ◌++◌, Result, ok, err}

pub record Session (S C : Type 0) : Type 0 where
  pub host : S
  pub calls : List C

abbrev pub Exec : Type 0 → Type 0 → Type 0 → Type 0 → Type 0
Exec S C E A = Session S C → Result E A × Session S C

module _ {S C E A : Type 0} where
  abbrev pub pure : A → Exec S C E A
  pure a s = (ok a, s)

  -- a result of plain code, with `?`
  abbrev pub lift : Result E A → Exec S C E A
  lift r s = (r, s)

  -- a question to the host, which may move it
  abbrev pub ask : (S → A × S) → Exec S C E A
  ask q s = let (a, host) = q s.host in (ok a, record s { host = host })

  -- a write, which is noted
  abbrev pub call : C → (S → A × S) → Exec S C E A
  call c w s = let (a, host) = w s.host in (ok a, record { host = host; calls = s.calls ++ c ∷ [] })

module _ {S C E A B : Type 0} where
  abbrev pub continue : Result E A → Session S C → (A → Exec S C E B) → Result E B × Session S C
  continue (ok a) s f = f a s
  continue (err e) s f = (err e, s)

  infixl 5 ◌>>>=◌
  abbrev pub ◌>>>=◌ : Exec S C E A → (A → Exec S C E B) → Exec S C E B
  ◌>>>=◌ m f s = continue (m s).0 (m s).1 f

-- What holds at both ends of a step holds of the chain.
module _ {S C E A B : Type 0} (P : Result E B × Session S C → Type 0) where
  pub continue-induction :
      (r : Result E A) (s : Session S C) (f : A → Session S C → Result E B × Session S C)
      → ((e : E) → r ≡ err e → P (err e, s))
      → ((a : A) → r ≡ ok a → P (f a s))
      → P (continue r s f)
  continue-induction (ok a) s f he hf = hf a refl
  continue-induction (err e) s f he hf = he e refl
