-- ===== src/Base/Method.antt =====
-- A Rust method on `&mut self`: the outcome beside the state that it leaves, also where it fails.
use mathlib.Core.Path.{◌≡◌}
use project_zero.Base.Results.{Outcome, ok, err, panic}

abbrev pub Method : Type 0 → Type 0 → Type 0 → Type 0
Method S E A = S → Outcome E A × S

abbrev bind_on : {S E A B : Type 0} → Outcome E A → S → (A → Method S E B) → Outcome E B × S
bind_on (ok a) s f = f a s
bind_on (err e) s f = (err e, s)
bind_on panic s f = (panic, s)

infixl 5 ◌>>=◌ ◌>>◌
abbrev pub ◌>>=◌ : {S E A B : Type 0} → Method S E A → (A → Method S E B) → Method S E B
◌>>=◌ m f s = bind_on (m s).0 (m s).1 f

abbrev pub ◌>>◌ : {S E B : Type 0} → Method S E (Unit {0}) → Method S E B → Method S E B
m >> k = m >>= λ _. k

abbrev pub pure : {S E A : Type 0} → A → Method S E A
pure a s = (ok a, s)

abbrev pub fail : {S E A : Type 0} → E → Method S E A
fail e s = (err e, s)

-- A call that only reads.
abbrev pub lift : {S E A : Type 0} → Outcome E A → Method S E A
lift o s = (o, s)

abbrev pub get : {S E : Type 0} → Method S E S
get s = (ok s, s)

abbrev pub modify : {S E : Type 0} → (S → S) → Method S E (Unit {0})
modify f s = (ok tt, f s)

-- After a first step that succeeds, a sequence is its second step.
pub >>-eq_of_ok :
    {S E B : Type 0} (first : Method S E (Unit {0})) (second : Method S E B) (s : S)
    → (first s).0 ≡ ok tt
    → (first >> second) s ≡ second (first s).1
>>-eq_of_ok first second s e = rw e
