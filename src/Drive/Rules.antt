-- ===== src/Drive/Rules.antt =====
-- Rules for chains of steps: what holds when a chain goes on, and what when it has ended.
use saipal.Base.{◌≡◌, refl, Result, ok, err, PalError}
use saipal.Jobs.Job.{Job}
use saipal.Drive.State.{
  Drive, Ending, raised, Progress, going, ended, M, after, take_move, with_job,
}

abbrev pub Holds :
    {A : Type 0} → (A → Drive → Type 0) → (Ending → Drive → Type 0) → Progress A → Type 0
Holds Q E (going a d) = Q a d
Holds Q E (ended e d) = E e d

-- It has ended.
abbrev pub Ends : {A : Type 0} → Progress A → Type 0
Ends p = Holds (λ _ _. ⊥) (λ _ _. Unit) p

pub after-Ends :
    {A B : Type 0} (p : Progress A) (f : A → M B)
    → ((a : A) (d : Drive) → Ends (f a d))
    → Ends (after p f)
after-Ends (going a d) f k = k a d
after-Ends (ended e d) f k = tt

pub Ends-after : {A B : Type 0} (p : Progress A) (f : A → M B) → Ends p → Ends (after p f)
Ends-after (going a d) f h = absurd h
Ends-after (ended e d) f h = tt

pub after-Holds :
    {A B : Type 0} (Q : A → Drive → Type 0) (R : B → Drive → Type 0) (E : Ending → Drive → Type 0)
    (p : Progress A) (f : A → M B)
    → Holds Q E p
    → ((a : A) (d : Drive) → Q a d → Holds R E (f a d))
    → Holds R E (after p f)
after-Holds Q R E (going a d) f h k = k a d h
after-Holds Q R E (ended e d) f h k = h

-- A move that is refused ends the chain.
pub take_move-Holds :
    (Q : Unit {0} → Drive → Type 0) (E : Ending → Drive → Type 0) (r : Result Job) (d : Drive)
    → ((j : Job) → r ≡ ok j → Q tt (with_job j d))
    → ((code : PalError) → r ≡ err code → E (raised code) d)
    → Holds Q E (take_move r d)
take_move-Holds Q E (ok j) d k l = k j refl
take_move-Holds Q E (err code) d k l = l code refl

pub Holds-weaken :
    {A : Type 0} (Q R : A → Drive → Type 0) (E : Ending → Drive → Type 0) (p : Progress A)
    → Holds Q E p
    → ((a : A) (d : Drive) → Q a d → R a d)
    → Holds R E p
Holds-weaken Q R E (going a d) h k = k a d h
Holds-weaken Q R E (ended e d) h k = h
