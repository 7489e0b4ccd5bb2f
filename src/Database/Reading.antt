-- ===== src/Database/Reading.antt =====
-- Calls that write nothing.
use mazadak_backend.Base.{◌≡◌, refl, sym, subst, Bool, true, false}
use mazadak_backend.Database.Documents.{Database}
use mazadak_backend.Database.Calls.{Error, Result, Action, throw_if, bind_rule, ◌>>◌}

-- The call throws or returns, and writes nothing.
abbrev pub Reads : {A : Type 0} → Database → Result A × Database → Type 0
Reads s x = x.1 ≡ s

pub throw_if-Reads : (b : Bool) (e : Error) (s : Database) → Reads s (throw_if b e s)
throw_if-Reads true e s = refl
throw_if-Reads false e s = refl

pub both-Reads :
    {A B : Type 0} (m : Action A) (k : Action B) (s : Database)
    → Reads s (m s)
    → Reads s (k s)
    → Reads s ((m >> k) s)
both-Reads m k s h q =
    bind_rule (Reads s) (Reads s) m (λ _. k) s h (λ _ t e. subst (λ u. Reads s (k u)) (sym e) q)
      (λ _ _ e. e)
