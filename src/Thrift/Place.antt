-- ===== src/Thrift/Place.antt =====
-- The ids of the open structs as a stack, innermost first, and the array and the level that
-- src/thrift/thrift_decode.h and src/thrift/thrift_encode.h keep for it.
use carquet.Prelude.{ℕ, zero, suc, ◌+◌, ◌-◌, ◌<◌, ◌≤◌, ◌≡◌, refl, arith, ap, ◌∙◌, sym, subst}
use carquet.Prelude.{
  List, [], ◌∷◌, length, get_or, set, length-set, ltb, if◌then◌else◌, if-true, if-false, lt→ltb,
  le→ltb-false, replicate, true, All, ◌^◌,
}
use carquet.Thrift.Types.{max_nesting}

abbrev pub top : List ℕ → ℕ
top [] = 0
top (id ∷ stack) = id

-- A field of the innermost struct has been seen.
abbrev pub named : ℕ → List ℕ → List ℕ
named id [] = []
named id (last ∷ stack) = id ∷ stack

abbrev pub pop : List ℕ → List ℕ
pop [] = []
pop (last ∷ stack) = stack

-- An id is a word of 16 bits.
abbrev pub IsU16 : ℕ → Type 0
IsU16 id = id < 2 ^ 16

abbrev Tops : List ℕ → List ℕ → Type 0
Tops ids [] = Unit {0}
Tops ids (id ∷ stack) = (get_or ids (length stack) 0 ≡ id) × Tops ids stack

-- The array `ids` and the level stand for the stack; entries from the level on do not count.
pub record Place (stack ids : List ℕ) (level : ℕ) : Type 0 where
  pub height : level ≡ length stack
  pub size : length ids ≡ max_nesting
  pub fits : length stack ≤ max_nesting
  pub words : All IsU16 stack
  pub tops : Tops ids stack

get_or-set : (xs : List ℕ) (i v : ℕ) → i < length xs → get_or (set xs i v) i 0 ≡ v
get_or-set [] i v h = absurd (omega arith)
get_or-set (x ∷ xs) zero v h = refl
get_or-set (x ∷ xs) (suc i) v h = get_or-set xs i v (omega arith)

get_or-set_other : (xs : List ℕ) (i j v : ℕ) → i < j → get_or (set xs j v) i 0 ≡ get_or xs i 0
get_or-set_other [] i j v h = refl
get_or-set_other (x ∷ xs) i zero v h = absurd (omega arith)
get_or-set_other (x ∷ xs) zero (suc j) v h = refl
get_or-set_other (x ∷ xs) (suc i) (suc j) v h = get_or-set_other xs i j v (omega arith)

Tops-set :
    (stack ids : List ℕ) (i v : ℕ) → length stack ≤ i → Tops ids stack → Tops (set ids i v) stack
Tops-set [] ids i v h t = tt
Tops-set (id ∷ stack) ids i v h (last, below) = (
  get_or-set_other ids (length stack) i v (omega arith) ∙ last,
  Tops-set stack ids i v (omega arith) below,
)

pub Place-push :
    {stack ids : List ℕ} {level : ℕ}
    → Place stack ids level
    → level < max_nesting
    → Place (0 ∷ stack) (set ids level 0) (level + 1)
Place-push {stack} {ids} {level} p h = record {
  height = omega (arith, p.height);
  size = length-set ids level 0 ∙ p.size;
  fits = omega (arith, p.height);
  words = (omega arith, p.words);
  tops = (
    ap (λ i. get_or (set ids level 0) i 0) (sym p.height)
        ∙ get_or-set ids level 0 (omega (arith, p.size)),
    Tops-set stack ids level 0 (omega (arith, p.height)) p.tops,
  );
}

above_zero : (level n : ℕ) → level ≡ suc n → ltb 0 level ≡ true
above_zero level n h = lt→ltb 0 level (omega (arith, h))

pub Place-pop :
    (stack : List ℕ) {ids : List ℕ} {level : ℕ}
    → Place stack ids level
    → Place (pop stack) ids (if ltb 0 level then level - 1 else level)
Place-pop [] {ids} {level} p = record {
  height = ground (arith, p.height);
  size = p.size;
  fits = omega (arith, p.fits);
  words = tt;
  tops = tt;
}
Place-pop (id ∷ stack) {ids} {level} p = record {
  height =
      if-true (ltb 0 level) _ _ (above_zero level (length stack) p.height)
      ∙ omega (arith, p.height);
  size = p.size;
  fits = omega (arith, p.fits);
  words = p.words.1;
  tops = p.tops.1;
}

-- What the code does on the id of a field.
pub Place-named :
    (stack : List ℕ) {ids : List ℕ} {level : ℕ} (id : ℕ)
    → IsU16 id
    → Place stack ids level
    → Place (named id stack) (if ltb 0 level then set ids (level - 1) id else ids) level
Place-named [] {ids} {level} id h p =
    subst (λ x. Place [] x level)
      (sym (if-false (ltb 0 level) _ _ (le→ltb-false 0 level (omega (arith, p.height))))) p
Place-named (last ∷ stack) {ids} {level} id h p =
    let inner : level - 1 ≡ length stack = omega (arith, p.height) in
    subst (λ x. Place (id ∷ stack) x level)
      (sym (if-true (ltb 0 level) _ _ (above_zero level (length stack) p.height)))
      (record {
        height = p.height;
        size = length-set ids (level - 1) id ∙ p.size;
        fits = p.fits;
        words = (h, p.words.1);
        tops = (
          ap (λ i. get_or (set ids (level - 1) id) i 0) (sym inner)
              ∙ get_or-set ids (level - 1) id (omega (arith, p.size, p.height, p.fits)),
          Tops-set stack ids (level - 1) id (omega arith) p.tops.1,
        );
      })

pub Place-top :
    (stack : List ℕ) {ids : List ℕ} {level : ℕ}
    → Place stack ids level
    → (if ltb 0 level then get_or ids (level - 1) 0 else 0) ≡ top stack
Place-top [] {ids} {level} p =
    if-false (ltb 0 level) _ _ (le→ltb-false 0 level (omega (arith, p.height)))
Place-top (last ∷ stack) {ids} {level} p =
    if-true (ltb 0 level) _ _ (above_zero level (length stack) p.height)
    ∙ ap (λ i. get_or ids i 0) (omega (arith, p.height))
    ∙ p.tops.0

pub Place-start : Place [] (replicate max_nesting 0) 0
Place-start = record { height = refl; size = refl; fits = omega arith; words = tt; tops = tt }

pub top-IsU16 : (stack : List ℕ) → All IsU16 stack → IsU16 (top stack)
top-IsU16 [] h = omega arith
top-IsU16 (id ∷ stack) h = h.0
