-- ===== src/Outcome.antt =====
-- `support::dispatch::Result`, and calls over a state. A failing call returns its message and the
-- state that it has reached: an error does not undo the writes that came before it.
use archer_in_zoo.Prelude.{◌≡◌, refl, ℕ, Option, none, some, Bool, true, false}

-- The messages that the two modules and their traits return.
pub data Error : Type 0 where
  bad_origin : Error
  kitties_count_overflow : Error
  only_owner_can_transfer : Error
  invalid_kitty_id_1 invalid_kitty_id_2 : Error
  needs_different_parent : Error
  not_owner_of_kitty_1 not_owner_of_kitty_2 : Error
  auction_count_overflow : Error
  auction_does_not_exist : Error
  already_started_or_over should_be_paused should_be_active should_be_stopped : Error
  only_owner_can_call : Error
  should_be_item_owner : Error
  cannot_be_stopped_now : Error
  increment_too_small : Error
  not_enough_balance_to_lock : Error
  should_be_pending_start should_be_non_stopped : Error
  invalid_signature : Error
  non_existent_public_key : Error
  balance_add_overflow balance_sub_overflow : Error
  no_global_lock : Error
  global_lock_too_small : Error
  -- A message of code outside the repository, by a number of its own.
  other : ℕ → Error

pub data Result (A : Type 0) : Type 0 where
  ok : A → Result A
  err : Error → Result A

abbrev pub Action : Type 0 → Type 0 → Type 0
Action S A = S → Result A × S

module _ {S A : Type 0} where
  abbrev pub pure : A → Action S A
  pure a s = (ok a, s)

  abbrev pub raise : Error → Action S A
  raise e s = (err e, s)

  abbrev pub gets : (S → A) → Action S A
  gets f s = (ok (f s), s)

  -- `ok_or(e)?`
  abbrev pub or_raise : Option A → Error → Action S A
  or_raise none e = raise e
  or_raise (some a) e = pure a

module _ {S : Type 0} where
  abbrev pub modify : (S → S) → Action S (Unit {0})
  modify f s = (ok tt, f s)

  -- `ensure!(b, e)`
  abbrev pub ensure : Bool → Error → Action S (Unit {0})
  ensure true e = pure tt
  ensure false e = raise e

-- What follows a call, from the call's result and state.
abbrev pub and_then : {S A B : Type 0} → Result A × S → (A → Action S B) → Result B × S
and_then (ok a, s) f = f a s
and_then (err e, s) f = (err e, s)

infixl 5 ◌>>=◌ ◌>>◌
abbrev pub ◌>>=◌ : {S A B : Type 0} → Action S A → (A → Action S B) → Action S B
◌>>=◌ m f s = and_then (m s) f

abbrev pub ◌>>◌ : {S A B : Type 0} → Action S A → Action S B → Action S B
m >> k = m >>= λ _. k

-- What holds after a sequence: at the first error, or after the rest.
pub and_then-cases {ℓ} :
    {S A B : Type 0} (P : Result B × S → Type ℓ) (x : Result A × S) (f : A → Action S B)
    → ((e : Error) (s : S) → x ≡ (err e, s) → P (err e, s))
    → ((a : A) (s : S) → x ≡ (ok a, s) → P (f a s))
    → P (and_then x f)
and_then-cases P (ok a, s) f bad good = good a s refl
and_then-cases P (err e, s) f bad good = bad e s refl

-- A sequence that succeeds: its first call has, and the rest follows in the state that it left.
pub and_then-ok :
    {S A B : Type 0} (x : Result A × S) (f : A → Action S B) (b : B)
    → (and_then x f).0 ≡ ok b
    → (a : A) × (x.0 ≡ ok a) × (and_then x f ≡ f a x.1)
and_then-ok (ok a, s) f b e = (a, refl, refl)
and_then-ok (err e', s) f b e = cc

ok_eq : {A : Type 0} {a b : A} → ok a ≡ ok b → a ≡ b
ok_eq e = cc

pub and_then-eq :
    {S A B : Type 0} (x : Result A × S) (f : A → Action S B) (a : A)
    → x.0 ≡ ok a
    → and_then x f ≡ f a x.1
and_then-eq (ok b, s) f a e = λ i. f (ok_eq e i) s
and_then-eq (err e', s) f a e = cc
