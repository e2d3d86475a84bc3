-- ===== src/ResponseFlag/Names.antt =====
-- `parseResponseFlag` against the list of the names of the flags that are set.
use wasm_extensions.Prelude.{
  ℕ, ◌≡◌, refl, sym, ap, ◌∙◌, false, List, [], ◌∷◌, ◌++◌, append-nil, append_assoc, if◌then◌else◌,
  ◌==◌, leb, is_empty, bit_and, Bytes, codes, All, All-append, Bool-cases, inl, inr,
}
use wasm_extensions.ResponseFlag.{
  flags, flag_limit, append_string, add_flags, to_string, add_overflow, parse_response_flag,
}

-- The strings with commas between them.
abbrev pub join : List Bytes → Bytes
join [] = []
join (x ∷ []) = x
join (x ∷ y ∷ r) = x ++ b',' ∷ join (y ∷ r)

-- The names of the flags that are set.
abbrev pub set_names : List (ℕ × Bytes) → ℕ → List Bytes
set_names [] n = []
set_names ((flag, name) ∷ rest) n =
    if bit_and n flag == 0 then set_names rest n else name ∷ set_names rest n

-- The flags that have no name.
abbrev pub overflow_names : ℕ → List Bytes
overflow_names n = if leb flag_limit n then to_string n ∷ [] else []

abbrev pub Written : Bytes → Type 0
Written s = is_empty s ≡ false

join-snoc : (x y : Bytes) (r : List Bytes) → join ((x ∷ r) ++ y ∷ []) ≡ join (x ∷ r) ++ b',' ∷ y
join-snoc x y [] = refl
join-snoc x y (z ∷ r) =
    ap (λ s. x ++ b',' ∷ s) (join-snoc z y r)
    ∙ sym (append_assoc x (b',' ∷ join (z ∷ r)) (b',' ∷ y))

join-Written : (x : Bytes) (r : List Bytes) → Written x → Written (join (x ∷ r))
join-Written x [] w = w
join-Written [] (z ∷ r) w = absurd (cc)
join-Written (c ∷ x) (z ∷ r) w = refl

append_string-join :
    (names : List Bytes) (y : Bytes)
    → All Written names
    → append_string (join names) y ≡ join (names ++ y ∷ [])
unfolding append_string
append_string-join [] y a = refl
append_string-join (x ∷ r) y a = rw (join-Written x r a.0) (sym (join-snoc x y r))

add_flags-join :
    (fs : List (ℕ × Bytes)) (n : ℕ) (names : List Bytes)
    → All (λ f. Written f.1) fs
    → All Written names
    → add_flags fs n (join names) ≡ join (names ++ set_names fs n)
unfolding add_flags
add_flags-join [] n names f a = ap join (sym (append-nil names))
add_flags-join ((flag, name) ∷ fs) n names f a = elim (Bool-cases (bit_and n flag == 0)) [
  | inl unset ↦ rw unset (add_flags-join fs n names f.1 a)
  | inr set ↦
      rw (set, append_string-join names name a)
        (add_flags-join fs n (names ++ name ∷ []) f.1
            (All-append Written names (name ∷ []) a (f.0, tt))
          ∙ ap join (append_assoc names (name ∷ []) (set_names fs n)))
]

flags-Written : All (λ f. Written f.1) flags
flags-Written = (
  refl,
  (
    refl,
    (
      refl,
      (
        refl,
        (
          refl,
          (
            refl,
            (
              refl,
              (
                refl,
                (
                  refl,
                  (
                    refl,
                    (
                      refl,
                      (
                        refl,
                        (
                          refl,
                          (
                            refl,
                            (
                              refl,
                              (
                                refl,
                                (
                                  refl,
                                  (
                                    refl,
                                    (
                                      refl,
                                      (
                                        refl,
                                        (refl, (refl, (refl, (refl, (refl, (refl, (refl, tt))))))),
                                      ),
                                    ),
                                  ),
                                ),
                              ),
                            ),
                          ),
                        ),
                      ),
                    ),
                  ),
                ),
              ),
            ),
          ),
        ),
      ),
    ),
  ),
)

set_names-Written :
    (fs : List (ℕ × Bytes)) (n : ℕ) → All (λ f. Written f.1) fs → All Written (set_names fs n)
set_names-Written [] n f = tt
set_names-Written ((flag, name) ∷ fs) n f = elim (Bool-cases (bit_and n flag == 0)) [
  | inl unset ↦ rw unset (set_names-Written fs n f.1)
  | inr set ↦ rw set (f.0, set_names-Written fs n f.1)
]

-- All that is written for an integer.
abbrev pub names_of : ℕ → List Bytes
names_of n = set_names flags n ++ overflow_names n

named : (n : ℕ) → add_overflow n (add_flags flags n []) ≡ join (names_of n)
unfolding add_overflow
named n =
    let flagged = add_flags-join flags n [] flags-Written tt in
    elim (Bool-cases (leb flag_limit n)) [
      | inl over ↦ rw over (
          ap (λ s. append_string s (to_string n)) flagged
          ∙ append_string-join (set_names flags n) (to_string n)
              (set_names-Written flags n flags-Written))
      | inr within ↦ rw within (flagged ∙ ap join (sym (append-nil (set_names flags n))))
    ]

-- For every integer, `parseResponseFlag` gives the short names of the flags that are set, with
-- commas between them and in the order of the bits, then the integer itself if it is beyond the last
-- flag; it gives a dash if that is the empty string.
pub parse_response_flag-join :
    (n : ℕ)
    → parse_response_flag n
      ≡ (if is_empty (join (names_of n)) then codes "-" else join (names_of n))
unfolding parse_response_flag
parse_response_flag-join n = ap (λ s. if is_empty s then codes "-" else s) (named n)
