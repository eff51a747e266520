-- ===== src/LinkedItem/Represents/Undo.antt =====
-- Appending a value and removing it again.
use archer_in_zoo.Prelude.{
  ℕ, ◌≡◌, refl, sym, ◌∙◌, true, false, Option, none, some, List, [], ◌∷◌, ◌++◌, ◌==◌, arith,
  contains, erase, contains-snoc, Bool-cases, inl, inr,
}
use archer_in_zoo.LinkedItem.{Storage, append, remove, read}
use archer_in_zoo.LinkedItem.Represents.{Represents}
use archer_in_zoo.LinkedItem.Represents.Append.{append-Represents, append_other}
use archer_in_zoo.LinkedItem.Represents.Remove.{remove-Represents, remove_other}

erase-snoc : (v : ℕ) (xs : List ℕ) → contains v xs ≡ false → erase v (xs ++ v ∷ []) ≡ xs
erase-snoc v [] h = ground arith
erase-snoc v (x ∷ xs) h = ground (arith, h, erase-snoc v xs)

-- Entries that represent one list under a key read the same there.
read-Represents :
    (s s' : Storage) (key : ℕ) (xs : List ℕ)
    → Represents s key xs
    → Represents s' key xs
    → (q : Option ℕ) → read key q s' ≡ read key q s
unfolding read
read-Represents s s' key xs r r' none = r'.head ∙ sym r.head
read-Represents s s' key xs r r' (some y) =
    let same : s' key (some y) ≡ s key (some y) = r'.entries y ∙ sym (r.entries y) in rw same refl

-- Where the entries of a key represent a list without the value, appending the value under the key and
-- removing it leaves every entry of every key as it was read before.
pub remove-append :
    (s : Storage) (key v : ℕ) (xs : List ℕ)
    → Represents s key xs
    → contains v xs ≡ false
    → (k : ℕ) (q : Option ℕ) → read k q (remove key v (append key v s)) ≡ read k q s
unfolding read
remove-append s key v xs r fresh k q = elim (Bool-cases (k == key)) [
  | inl same ↦
      let here : k ≡ key = ground arith in
      let held : contains v (xs ++ v ∷ []) ≡ true = contains-snoc v v xs ∙ ground arith in
      let appended = append-Represents s key v xs r fresh in
      let removed = remove-Represents (append key v s) key v (xs ++ v ∷ []) appended held in
      let back : Represents (remove key v (append key v s)) key xs =
        rw (erase-snoc v xs fresh) at removed in
      rw here (read-Represents s (remove key v (append key v s)) key xs r back q)
  | inr apart ↦
      let first = remove_other (append key v s) key v k q apart in
      let second = append_other s key v k q apart in rw (first, second) refl
]
