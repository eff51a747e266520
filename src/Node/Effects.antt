-- ===== src/Node/Effects.antt =====
-- What the node's functions do: they return, fail with an error of the service, or panic. What they
-- have set in the meantime stays.
use archer_in_zoo.Prelude.{ℕ, ◌≡◌, refl, ◌⊎◌, inl, inr, Option, none, some, arith}
use Prim.Native.String.{String}

pub data NodeError : Type 0 where
  select_chain_required : NodeError
  message : String → NodeError
  -- An error of the framework's own, by a number.
  framework : ℕ → NodeError

-- What a call of the framework answers.
pub data Reply (A : Type 0) : Type 0 where
  fine : A → Reply A
  refused : NodeError → Reply A

pub data Ended (A : Type 0) : Type 0 where
  done : A → Ended A
  failed : NodeError → Ended A
  panicked : Ended A

abbrev pub Effect : Type 0 → Type 0 → Type 0
Effect S A = S → Ended A × S

module _ {S A : Type 0} where
  abbrev pub pure : A → Effect S A
  pure a s = (done a, s)

  -- `e?`
  abbrev pub ask : Reply A → Effect S A
  ask (fine a) = λ s. (done a, s)
  ask (refused e) = λ s. (failed e, s)

  -- `ok_or(e)?`
  abbrev pub or_fail : Option A → NodeError → Effect S A
  or_fail none e = λ s. (failed e, s)
  or_fail (some a) e = λ s. (done a, s)

  -- `expect`
  abbrev pub expect : Option A → Effect S A
  expect none = λ s. (panicked, s)
  expect (some a) = λ s. (done a, s)

  abbrev pub gets : (S → A) → Effect S A
  gets f s = (done (f s), s)

abbrev pub modify : {S : Type 0} → (S → S) → Effect S (Unit {0})
modify f s = (done tt, f s)

abbrev pub and_then : {S A B : Type 0} → Ended A × S → (A → Effect S B) → Ended B × S
and_then (done a, s) f = f a s
and_then (failed e, s) f = (failed e, s)
and_then (panicked, s) f = (panicked, s)

infixl 5 ◌>>=◌ ◌>>◌
abbrev pub ◌>>=◌ : {S A B : Type 0} → Effect S A → (A → Effect S B) → Effect S B
◌>>=◌ m f s = and_then (m s) f

abbrev pub ◌>>◌ : {S A B : Type 0} → Effect S A → Effect S B → Effect S B
m >> k = m >>= λ _. k

-- A sequence that returns: its first part has, and the rest goes on from there.
pub and_then-done :
    {S A B : Type 0} (x : Ended A × S) (f : A → Effect S B) (b : B) (s : S)
    → and_then x f ≡ (done b, s)
    → (a : A) × (s' : S) × (x ≡ (done a, s')) × (f a s' ≡ (done b, s))
and_then-done (done a, s') f b s e = (a, s', refl, e)
and_then-done (failed e', s') f b s e = cc
and_then-done (panicked, s') f b s e = cc

-- A sequence that panics: its first part has, or the rest does.
pub and_then-panicked :
    {S A B : Type 0} (x : Ended A × S) (f : A → Effect S B)
    → (and_then x f).0 ≡ panicked
    → (x.0 ≡ panicked) ⊎ ((a : A) × (s' : S) × (x ≡ (done a, s')) × ((f a s').0 ≡ panicked))
and_then-panicked (done a, s') f e = inr (a, s', refl, e)
and_then-panicked (failed e', s') f e = cc
and_then-panicked (panicked, s') f e = inl refl

pub ask-done :
    {S A : Type 0} (r : Reply A) (s : S) (a : A) (s' : S)
    → ask r s ≡ (done a, s')
    → (r ≡ fine a) × (s' ≡ s)
ask-done (fine b) s a s' e = ground (arith, e)
ask-done (refused x) s a s' e = cc
