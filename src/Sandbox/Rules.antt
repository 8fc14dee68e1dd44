-- ===== src/Sandbox/Rules.antt =====
-- Operations of a sandbox (workers/evaluator/docker_sandbox.py) one after the other: what holds after each.
use agent_bench_x.Prelude.{ℕ, String, ◌≡◌, refl, Bool, true, false, Option, none, some, List, arith}
use agent_bench_x.Evaluator.{Outcome}
use agent_bench_x.Sandbox.{
  Failure, Answer, returns, raises, State, Docker, Act, ran, run, and_then, ◌>>=◌, raise_if,
  require, ◌>>◌, pure, command,
}

-- What holds after an operation, where it returns and where it raises.
abbrev pub After : {D A : Type 0} → (Q R : State D → Type 0) → Answer A × State D → Type 0
After Q R (returns a, s) = Q s
After Q R (raises f, s) = R s

module _ {D : Type 0} where
  -- From states with `P`, an operation leads to `Q`, or raises in a state with `R`.
  pub record Leads {A : Type 0} (P Q R : State D → Type 0) (m : Act D A) : Type 0 where
    pub leads : (s : State D) → P s → After Q R (m s)

  module _ (P Q R S : State D → Type 0) where
    and_then-After :
        {A B : Type 0} (x : Answer A × State D) (f : A → Act D B)
        → After Q R x
        → ((a : A) → Leads Q S R (f a))
        → After S R (and_then x f)
    and_then-After (returns a, s) f q l = (l a).leads s q
    and_then-After (raises e, s) f r l = r

    pub bind-Leads :
        {A B : Type 0} {m : Act D A} {f : A → Act D B}
        → Leads P Q R m
        → ((a : A) → Leads Q S R (f a))
        → Leads P S R (m >>= f)
    unfolding ◌>>=◌
    bind-Leads {m = m} {f = f} l k = record {
      leads = λ s p. and_then-After (m s) f (l.leads s p) k;
    }

  module _ (P R : State D → Type 0) (weak : (s : State D) → P s → R s) where
    raise_if-After : (test : Bool) (f : Failure) (s : State D) → P s → After P R (raise_if test f s)
    unfolding raise_if
    raise_if-After true f s p = weak s p
    raise_if-After false f s p = p

    pub raise_if-Leads : (test : Bool) (f : Failure) → Leads P P R (raise_if test f)
    raise_if-Leads test f = record { leads = raise_if-After test f }

    require-After :
        {A : Type 0} (o : Option A) (f : Failure) (s : State D) → P s → After P R (require o f s)
    unfolding require
    require-After none f s p = weak s p
    require-After (some a) f s p = p

    pub require-Leads : {A : Type 0} (o : Option A) (f : Failure) → Leads P P R (require o f)
    require-Leads o f = record { leads = require-After o f }

module _ {D : Type 0} where
  and_then-returns :
      {A B : Type 0} (x : Answer A × State D) (f : A → Act D B) (b : B) (s' : State D)
      → and_then x f ≡ (returns b, s')
      → (a : A) × (s : State D) × (x ≡ (returns a, s)) × (f a s ≡ (returns b, s'))
  and_then-returns (returns a, s) f b s' h = (a, s, refl, h)
  and_then-returns (raises e, s) f b s' h = absurd (ground arith)

  -- An operation that returns has returned from its first part.
  pub bind-returns :
      {A B : Type 0} (m : Act D A) (f : A → Act D B) (s : State D) (b : B) (s' : State D)
      → (m >>= f) s ≡ (returns b, s')
      → (a : A) × (s1 : State D) × (m s ≡ (returns a, s1)) × (f a s1 ≡ (returns b, s'))
  unfolding ◌>>=◌
  bind-returns m f s b s' h = and_then-returns (m s) f b s' h

  pub raise_if-returns :
      (test : Bool) (f : Failure) (s s' : State D) (u : Unit {0})
      → raise_if test f s ≡ (returns u, s')
      → (test ≡ false) × (s' ≡ s)
  unfolding raise_if
  raise_if-returns true f s s' u h = absurd (ground arith)
  raise_if-returns false f s s' u h = (refl, ground arith)

  pub require-returns :
      {A : Type 0} (o : Option A) (f : Failure) (s s' : State D) (a : A)
      → require o f s ≡ (returns a, s')
      → o ≡ some a
  unfolding require
  require-returns none f s s' a h = absurd (ground arith)
  require-returns (some b) f s s' a h = ground arith

  pub run-returns :
      (docker : Docker D) (args : List String) (t : ℕ) (c : Bool) (s s' : State D) (o : Outcome)
      → run docker args t c s ≡ (returns o, s')
      → (docker.run args t c s.daemon ≡ (some o, s'.daemon)) × (s'.box ≡ s.box)
  unfolding run
  run-returns docker args t c s s' o h = from (docker.run args t c s.daemon) h
    where
      from :
          (x : Option Outcome × D)
          → ran s x ≡ (returns o, s')
          → (x ≡ (some o, s'.daemon)) × (s'.box ≡ s.box)
      from (none, d) e = absurd (ground arith)
      from (some p, d) e =
          let after : record s { daemon = d } ≡ s' = ground arith in
          let same_outcome : p ≡ o = ground arith in rw (← after, same_outcome) (refl, refl)

module _ {D : Type 0} (docker : Docker D) where
  ran-After :
      (P R : State D → Type 0) (s : State D) (x : Option Outcome × D)
      → P (record s { daemon = x.1 })
      → R (record s { daemon = x.1 })
      → After P R (ran s x)
  ran-After P R s (none, d) p r = r
  ran-After P R s (some o, d) p r = p

  pub command-Leads :
      (P Q R : State D → Type 0)
      → ((s : State D) → Q s → R s)
      → (args : List String) (t : ℕ) (check : Bool) → Leads P Q R (run docker args t true)
      → Leads P Q R (command docker args t check)
  unfolding command ◌>>◌ pure
  command-Leads P Q R weak args t check l =
      bind-Leads P Q R Q l
        λ o. bind-Leads Q Q R Q (raise_if-Leads Q R weak _ _) λ u. record { leads = λ s q. q }

  pub run-Leads :
      (P Q R : State D → Type 0) (args : List String) (t : ℕ) (c : Bool)
      → ((s : State D) → P s → Q (record s { daemon = (docker.run args t c s.daemon).1 }))
      → ((s : State D) → Q s → R s)
      → Leads P Q R (run docker args t c)
  unfolding run
  run-Leads P Q R args t c kept weak = record {
    leads = λ s p. ran-After Q R s (docker.run args t c s.daemon) (kept s p) (weak _ (kept s p));
  }
