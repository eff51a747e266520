-- ===== src/Kitties/Tests.antt =====
-- Runs of kitties.rs and linked_item.rs on small inputs.
pub mod Links
use archer_in_zoo.Prelude.{
  ℕ, zero, suc, ◌≡◌, ◌+◌, ◌<◌, refl, not, Bool, true, Option, none, some, List, [], ◌∷◌, is_some,
  ltb, ◌==◌, ◌&&◌, if◌then◌else◌, arith, length, replicate, erase,
}
use archer_in_zoo.Prelude.Bits.{bit}
use archer_in_zoo.System.{System, Block, Hash}
use archer_in_zoo.Outcome.{ok, err, bad_origin, only_owner_can_transfer}
use archer_in_zoo.LinkedItem.{Storage, append, remove, read}
use archer_in_zoo.LinkedItem.Represents.{Represents}
use archer_in_zoo.LinkedItem.Represents.Append.{append-Represents}
use archer_in_zoo.LinkedItem.Represents.Undo.{remove-append}
use archer_in_zoo.LinkedItem.Represents.Remove.{remove-Represents}
use archer_in_zoo.Kitties.{at, child_dna, genesis}
use archer_in_zoo.Kitties.Registry.{empty, Refines}
use archer_in_zoo.Kitties.Refinement.{genesis-Refines}
use archer_in_zoo.Kitties.Calls.{Call, create_call, breed_call, transfer_call}
use archer_in_zoo.Kitties.History.{run, run_spec, history-Refines}
use archer_in_zoo.Kitties.Dna.{child_inherits}

-- Origins are optional signers.
abbrev some_system : System (Option ℕ)
some_system = record { ensure_signed = λ o. o; ensure_none = λ o. not (is_some o) }

abbrev some_hash : Hash
some_hash seed sender index number = replicate 16 (sender + number)

abbrev block : ℕ → Block
block n = record { random_seed = []; extrinsic_index = none; block_number = n }

-- Account 1 creates two kitties and breeds them, gives the first away and cannot do so again; an
-- unsigned call fails.
abbrev some_calls : List (Call (Option ℕ))
some_calls =
    create_call (some 1) (block 1)
    ∷ create_call (some 1) (block 2)
    ∷ breed_call (some 1) (block 3) 0 1
    ∷ transfer_call (some 1) 2 0
    ∷ transfer_call (some 1) 2 0
    ∷ create_call none (block 4)
    ∷ []

abbrev pub no_links : Storage
no_links a k = none

run_test :
    (run some_system some_hash some_calls genesis).0
    ≡ ok tt ∷ ok tt ∷ ok tt ∷ ok tt ∷ err only_owner_can_transfer ∷ err bad_origin ∷ []
unfolding run archer_in_zoo.Kitties.create archer_in_zoo.Kitties.breed
    archer_in_zoo.Kitties.transfer append remove
run_test = refl

Represents-one : Represents (append 0 1 no_links) 0 (1 ∷ [])
Represents-one = append-Represents no_links 0 1 [] (genesis-Refines.listed 0) refl

append-Represents_example : Represents (append 0 2 (append 0 1 no_links)) 0 (1 ∷ 2 ∷ [])
append-Represents_example = append-Represents (append 0 1 no_links) 0 2 (1 ∷ []) Represents-one refl

Represents-two : Represents (append 0 2 (append 0 1 no_links)) 0 (1 ∷ 2 ∷ [])
Represents-two = append-Represents (append 0 1 no_links) 0 2 (1 ∷ []) Represents-one refl

remove-Represents_example :
    Represents (remove 0 1 (append 0 2 (append 0 1 no_links))) 0 (erase 1 (1 ∷ 2 ∷ []))
remove-Represents_example =
    remove-Represents (append 0 2 (append 0 1 no_links)) 0 1 (1 ∷ 2 ∷ []) Represents-two refl

remove-append_example :
    read 0 none (remove 0 2 (append 0 2 (append 0 1 no_links))) ≡ read 0 none (append 0 1 no_links)
remove-append_example = remove-append (append 0 1 no_links) 0 2 (1 ∷ []) Represents-one refl 0 none

history-Refines_example :
    ((run some_system some_hash some_calls genesis).0
      ≡ (run_spec some_system some_hash some_calls empty).0)
    × Refines
        (run some_system some_hash some_calls genesis).1
        (run_spec some_system some_hash some_calls empty).1
history-Refines_example = history-Refines some_system some_hash some_calls

abbrev all_bytes : List ℕ → Bool
all_bytes [] = true
all_bytes (x ∷ xs) = ltb x 256 && all_bytes xs

and_right : (a b : Bool) → (a && b) ≡ true → b ≡ true
and_right a b h = ground arith

at-lt : (xs : List ℕ) → all_bytes xs ≡ true → (i : ℕ) → at xs i < 256
at-lt [] h i = omega arith
at-lt (x ∷ xs) h zero = ground arith
at-lt (x ∷ xs) h (suc i) = at-lt xs (and_right (ltb x 256) (all_bytes xs) h) i

abbrev mother : List ℕ
mother = replicate 16 255

abbrev father : List ℕ
father = replicate 16 0

abbrev selector : List ℕ
selector = replicate 16 170

child_inherits_example :
    (length (child_dna mother father selector) ≡ 16)
    × (bit 3 (at (child_dna mother father selector) 7)
        ≡ (if bit 3 (at selector 7) == 1 then bit 3 (at mother 7) else bit 3 (at father 7)))
child_inherits_example =
    child_inherits mother father selector (at-lt selector refl) 7 3 (omega arith) (omega arith)
