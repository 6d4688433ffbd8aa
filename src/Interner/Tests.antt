-- ===== src/Interner/Tests.antt =====
-- The round trip at three texts, and what a text with a zero byte becomes.
use ume.Prelude.{ℕ, ◌*◌, ◌≡◌, refl, Option, none, some, List, [], ◌∷◌, map, arith}
use ume.Interner.{StringInterner, new_interner, intern, resolve, intern_all}
use ume.Interner.RoundTrip.{intern_all-resolve}

abbrev three_texts : List (List ℕ)
three_texts = (104 ∷ 105 ∷ []) ∷ [] ∷ (104 ∷ 105 ∷ []) ∷ []

intern_all-resolve_example :
    (hs : List ℕ) × ((s : StringInterner) × ((intern_all (λ n. 2 * n) three_texts (new_interner 64)
          ≡ some (hs, s))
        × (map (λ h. resolve h s) hs ≡ three_texts)))
intern_all-resolve_example =
    intern_all-resolve (λ n. 2 * n) three_texts 64 (omega arith) (omega arith)
      (
        ((λ e. ground arith), ((λ e. ground arith), tt)),
        (tt, (((λ e. ground arith), ((λ e. ground arith), tt)), tt)),
      )

abbrev cut_text : Option (ℕ × StringInterner) → List ℕ
cut_text none = []
cut_text (some (h, s)) = resolve h s

-- A text is cut off at its first zero byte.
embedded_zero : cut_text (intern (λ n. 2 * n) (97 ∷ 0 ∷ 98 ∷ []) (new_interner 64)) ≡ 97 ∷ []
unfolding intern resolve
embedded_zero = refl

-- The second text moves the arena under the key of the first.
moved_arena : intern_all (λ n. 2 * n) ((97 ∷ []) ∷ (98 ∷ []) ∷ []) (new_interner 2) ≡ none
unfolding intern intern_all
moved_arena = refl
