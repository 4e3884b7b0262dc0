-- ===== src/Host/Returns.antt =====
-- Inversion of programs that return.
use ros_team_workspace.Base.{◌≡◌, refl}
use ros_team_workspace.Base.Result.{Result, ok, raised, Error}
use ros_team_workspace.Host.{Trace}
use ros_team_workspace.Host.Prog.{Prog, resume, rescue, try, ◌>>=◌}

-- The first part of a sequence that returns has returned, and the rest went on from there.
abbrev pub Goes : {A B : Type 0} → Prog A → (A → Prog B) → Trace → B → Type 0
Goes {A = A} m f t b =
    (a : A) × ((m t).0 ≡ ok a) × ((m >>= f) t ≡ f a (m t).1) × ((f a (m t).1).0 ≡ ok b)

resume-returns :
    {A B : Type 0} (r : Result A) (t : Trace) (f : A → Prog B) (b : B)
    → (resume (r, t) f).0 ≡ ok b
    → (a : A) × (r ≡ ok a) × (resume (r, t) f ≡ f a t) × ((f a t).0 ≡ ok b)
resume-returns (ok a) t f b h = (a, refl, refl, h)
resume-returns (raised e) t f b h = cc

pub bind-returns :
    {A B : Type 0} (m : Prog A) (f : A → Prog B) (t : Trace) (b : B)
    → ((m >>= f) t).0 ≡ ok b
    → Goes m f t b
unfolding ◌>>=◌
bind-returns m f t b h = let (r, u) = m t in resume-returns r u f b h

resume-covers :
    {A B : Type 0} (P : Trace → Type 0) (r : Result A) (t : Trace) (f : A → Prog B)
    → P t
    → ((a : A) → r ≡ ok a → P (f a t).1)
    → P (resume (r, t) f).1
resume-covers P (ok a) t f p q = q a refl
resume-covers P (raised e) t f p q = p

-- What holds of the record after the first part, and after the rest in case it goes on, holds of the
-- record after the sequence.
pub bind-covers :
    {A B : Type 0} (P : Trace → Type 0) (m : Prog A) (f : A → Prog B) (t : Trace)
    → P (m t).1
    → ((a : A) → (m t).0 ≡ ok a → P (f a (m t).1).1)
    → P ((m >>= f) t).1
unfolding ◌>>=◌
bind-covers P m f t p q = let (r, u) = m t in resume-covers P r u f p q

resume-outcome :
    {A B : Type 0} (P : Result B × Trace → Type 0) (r : Result A) (t : Trace) (f : A → Prog B)
    → ((e : Error) → P (raised e, t))
    → ((a : A) → r ≡ ok a → P (f a t))
    → P (resume (r, t) f)
resume-outcome P (ok a) t f p q = q a refl
resume-outcome P (raised e) t f p q = p e

-- The same for the result and the record together.
pub bind-outcome :
    {A B : Type 0} (P : Result B × Trace → Type 0) (m : Prog A) (f : A → Prog B) (t : Trace)
    → ((e : Error) → P (raised e, (m t).1))
    → ((a : A) → (m t).0 ≡ ok a → P (f a (m t).1))
    → P ((m >>= f) t)
unfolding ◌>>=◌
bind-outcome P m f t p q = let (r, u) = m t in resume-outcome P r u f p q

rescue-outcome :
    {A : Type 0} (P : Result A × Trace → Type 0) (r : Result A) (t : Trace) (h : Error → Prog A)
    → ((a : A) → r ≡ ok a → P (ok a, t))
    → ((e : Error) → r ≡ raised e → P (h e t))
    → P (rescue (r, t) h)
rescue-outcome P (ok a) t h p q = p a refl
rescue-outcome P (raised e) t h p q = q e refl

-- What holds of each end of the body, after its handler if it raised, holds of the `try`.
pub try-outcome :
    {A : Type 0} (P : Result A × Trace → Type 0) (m : Prog A) (h : Error → Prog A) (t : Trace)
    → ((a : A) → (m t).0 ≡ ok a → P (ok a, (m t).1))
    → ((e : Error) → (m t).0 ≡ raised e → P (h e (m t).1))
    → P (try m h t)
unfolding try
try-outcome P m h t p q = let (r, u) = m t in rescue-outcome P r u h p q
