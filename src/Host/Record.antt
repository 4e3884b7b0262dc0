-- ===== src/Host/Record.antt =====
-- What a program adds to the record, by rules for each way to build a program.
use ros_team_workspace.Base.{Bool, true, false, Option, none, some, ◌∷◌, if◌then◌else◌}
use ros_team_workspace.Base.Result.{Result, ok, raised, Error}
use ros_team_workspace.Host.{Call, Trace}
use ros_team_workspace.Host.Prog.{Prog, lift, call, resume, rescue, try, attempt, on_option, ◌>>=◌}

-- The later record is the earlier one with calls on top that all satisfy `Q`.
pub data Within (Q : Call → Type 0) (t : Trace) : Trace → Type 0 where
  here : Within Q t t
  next : {u : Trace} (c : Call) → Q c → Within Q t u → Within Q t (c ∷ u)

pub Within-trans :
    (Q : Call → Type 0) (t : Trace) {u v : Trace} → Within Q t u → Within Q u v → Within Q t v
Within-trans Q t h here = h
Within-trans Q t h (next c q k) = next c q (Within-trans Q t h k)

-- All that the program adds satisfies `Q`, whether it returns or raises.
pub record Only (Q : Call → Type 0) {A : Type 0} (m : Prog A) : Type 0 where
  pub at : (t : Trace) → Within Q t (m t).1

module _ (Q : Call → Type 0) where
  pub Only-lift : {A : Type 0} (r : Result A) → Only Q (lift r)
  unfolding lift
  Only-lift r = record { at = λ t. here }

  pub Only-call : {A : Type 0} (f : Trace → Result A) (c : Call) → Q c → Only Q (call f c)
  unfolding call
  Only-call f c q = record { at = λ t. next c q here }

  resume-Within :
      {A B : Type 0} (t : Trace) (r : Result A) (u : Trace) (f : A → Prog B)
      → Within Q t u
      → ((a : A) → Only Q (f a))
      → Within Q t (resume (r, u) f).1
  resume-Within t (ok a) u f h k = Within-trans Q t h ((k a).at u)
  resume-Within t (raised e) u f h k = h

  pub Only-bind :
      {A B : Type 0} (m : Prog A) (f : A → Prog B)
      → Only Q m
      → ((a : A) → Only Q (f a))
      → Only Q (m >>= f)
  unfolding ◌>>=◌
  Only-bind m f h k = record { at = λ t. let (r, u) = m t in resume-Within t r u f (h.at t) k }

  rescue-Within :
      {A : Type 0} (t : Trace) (r : Result A) (u : Trace) (h : Error → Prog A)
      → Within Q t u
      → ((e : Error) → Only Q (h e))
      → Within Q t (rescue (r, u) h).1
  rescue-Within t (ok a) u h w k = w
  rescue-Within t (raised e) u h w k = Within-trans Q t w ((k e).at u)

  pub Only-try :
      {A : Type 0} (m : Prog A) (h : Error → Prog A)
      → Only Q m
      → ((e : Error) → Only Q (h e))
      → Only Q (try m h)
  unfolding try
  Only-try m h w k = record { at = λ t. let (r, u) = m t in rescue-Within t r u h (w.at t) k }

  pub Only-if :
      {A : Type 0} (b : Bool) (m n : Prog A) → Only Q m → Only Q n → Only Q (if b then m else n)
  Only-if true m n p q = p
  Only-if false m n p q = q

  pub Only-attempt : {A : Type 0} (m : Prog A) → Only Q m → Only Q (attempt m)
  unfolding attempt
  Only-attempt m w = record { at = w.at }

  pub Only-option :
      {A B : Type 0} (o : Option A) (m : Prog B) (f : A → Prog B)
      → Only Q m
      → ((a : A) → Only Q (f a))
      → Only Q (on_option o m f)
  Only-option none m f p q = p
  Only-option (some a) m f p q = q a

pub ruleset only_rules =
    (Only-lift, Only-call, Only-bind, Only-try, Only-attempt, Only-if, Only-option)
