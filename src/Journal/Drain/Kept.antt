-- ===== src/Journal/Drain/Kept.antt =====
-- Which events the reader of core/src/event/journal_reader.cpp gives back: those that `validate`
-- accepts.
use ume.Prelude.{
  suc, ◌&&◌, not, Bool-cases, inl, inr, ℕ, ◌+◌, ◌≤◌, length, ◌≡◌, refl, ◌∙◌, sym, ap, Bool, true,
  false, some, List, [], ◌∷◌, if◌then◌else◌, arith, append-nil,
}
use ume.Status.{Result, ok, err, ◌>>=◌, Status, result_ok}
use ume.Event.{Event, IsEvent}
use ume.Event.Codec.{encode}
use ume.Serializer.{deserialize, validate_header}
use ume.Serializer.Laws.{deserialize-encode}

abbrev pub accepts : Event → Bool
accepts e = result_ok (validate_header e.header)

abbrev pub kept : List Event → List Event
kept [] = []
kept (e ∷ es) = if accepts e then e ∷ kept es else kept es

-- The number of the others.
abbrev pub rejected : List Event → ℕ
rejected [] = 0
rejected (e ∷ es) = (if accepts e then 0 else 1) + rejected es

-- An event that a record was written for, and whether its bytes were damaged since.
abbrev pub Found : Type 0
Found = Event × Bool

abbrev pub is_kept : Found → Bool
is_kept (e, damaged) = accepts e && not damaged

-- What a caller is given of the records.
abbrev pub given : List Found → List Event
given [] = []
given (x ∷ xs) = if is_kept x then x.0 ∷ given xs else given xs

-- The number of the others.
abbrev pub lost : List Found → ℕ
lost [] = 0
lost (x ∷ xs) = (if is_kept x then 0 else 1) + lost xs

abbrev pub intact : List Event → List Found
intact [] = []
intact (e ∷ es) = (e, false) ∷ intact es

pub given-intact : (es : List Event) → given (intact es) ≡ kept es
given-intact [] = refl
given-intact (e ∷ es) = elim (Bool-cases (accepts e)) [
  | inl good ↦ simp good (ap (◌∷◌ e) (given-intact es))
  | inr bad ↦ simp bad (given-intact es)
]

pub lost-intact : (es : List Event) → lost (intact es) ≡ rejected es
lost-intact [] = refl
lost-intact (e ∷ es) = ground (arith, lost-intact es)

pub length-intact : (es : List Event) → length (intact es) ≡ length es
length-intact [] = refl
length-intact (e ∷ es) = ap suc (length-intact es)

pub given-le : (xs : List Found) → length (given xs) ≤ length xs
given-le [] = omega arith
given-le (x ∷ xs) = ground (arith, given-le xs)

pub lost-le : (xs : List Found) → lost xs ≤ length xs
lost-le [] = omega arith
lost-le (x ∷ xs) = ground (arith, lost-le xs)

pub kept-le : (es : List Event) → length (kept es) ≤ length es
kept-le [] = omega arith
kept-le (e ∷ es) = ground (arith, kept-le es)

pub rejected-le : (es : List Event) → rejected es ≤ length es
rejected-le [] = omega arith
rejected-le (e ∷ es) = ground (arith, rejected-le es)

is_ok_unit : (m : Result (Unit {0})) → result_ok m ≡ true → m ≡ ok tt
is_ok_unit (ok tt) h = refl
is_ok_unit (err s) h = absurd (ground arith)

is_err : (m : Result (Unit {0})) → result_ok m ≡ false → (s : Status) × (m ≡ err s)
is_err (ok u) h = absurd (ground arith)
is_err (err s) h = (s, refl)

deserialize-exact :
    (e : Event)
    → IsEvent e
    → deserialize (some (encode e)) 128 ≡ (validate_header e.header >>= λ _. ok e)
deserialize-exact e v =
    ap (λ bs. deserialize (some bs) 128) (sym (append-nil (encode e)))
    ∙ deserialize-encode e [] 128 v (omega arith)

pub deserialize-accepted :
    (e : Event) → IsEvent e → accepts e ≡ true → deserialize (some (encode e)) 128 ≡ ok e
deserialize-accepted e v a =
    deserialize-exact e v ∙ ap (λ m. m >>= λ _. ok e) (is_ok_unit (validate_header e.header) a)

pub deserialize-rejected :
    (e : Event)
    → IsEvent e
    → accepts e ≡ false
    → (s : Status) × (deserialize (some (encode e)) 128 ≡ err s)
deserialize-rejected e v a =
    let (s, h) = is_err (validate_header e.header) a in
    (s, deserialize-exact e v ∙ ap (λ m. m >>= λ _. ok e) h)
